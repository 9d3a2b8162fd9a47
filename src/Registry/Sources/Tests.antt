-- ===== src/Registry/Sources/Tests.antt =====
-- Registries, definitions and the witnesses of the theorems on sources and trust.
use sdbx.Registry.Validator.Fields.{catalog_string_fields}
use sdbx.Registry.Validator.Rendered.{IsAllowedField, validate_catalog_templates-All}
use sdbx.Registry.Validator.Security.{is_docker_socket_path}
use sdbx.Registry.Validator.Dependencies.{HasConditions, validate_conditions-HasConditions}
use sdbx.Registry.Sources.WellFormed.{IsRegistry}
use sdbx.Registry.Sources.Offered.{IsListing, list_services-IsListing}
use sdbx.Registry.Sources.Supplied.{IsSupplied, get_service-IsSupplied}
use sdbx.Registry.Validator.Permitted.{
  HasExactPermissions, validate_permissions-HasExactPermissions,
}
use sdbx.Registry.Validator.Granted.{IsTrusted, validate_with_trust_level-IsTrusted}
use sdbx.Registry.Sources.Confined.{IsConfined, resolve-IsConfined}
use sdbx.Base.Order.{text_le}
use sdbx.Base.Maps.{lookup, insert}
use sdbx.Registry.Conditions.{matches_activation_conditions, evaluate_dependency_condition}
use sdbx.Registry.TopologicalSort.{
  topological_sort, start, loop, visit, decrement, decrement_all, adj_list, dependents, in_degree,
}
use sdbx.Registry.Sources.Lookup.{
  validate_service_lookup_name, embedded_service_exists, validate_override,
  validate_service_source_boundary, search_sources, get_service, validate_for_source,
}
use sdbx.Registry.Sources.Configuration.{
  immutable_git_ref_pattern, source_name_pattern, ssh_fingerprint, is_valid_signing_fingerprint,
  scp_like_git_url, validate_git_source_url, validate_git_source_config, validate_source_config,
  validate_names, validate_configured_sources,
}
use sdbx.Registry.Validator.Evaluation.{evaluation}
use sdbx.Base.{
  ℕ, String, true, false, ◌==◌, List, [], ◌∷◌, none, some, ok, err, if◌then◌else◌, ◌≡◌, refl, plain,
  All,
}
use sdbx.Base.Int.{pos}
use sdbx.Config.{default_config, is_addon_enabled}
use sdbx.Registry.Types.{ServiceDefinition}
use sdbx.Registry.Types.Resolved.{ResolutionGraph, ResolvedService, ResolutionWarning}
use sdbx.Registry.Resolver.{
  Catalog, resolve, determine_enabled_services, enabled_names, collect_dependencies,
  after_dependency, resolve_dependencies, with_warnings, resolved_service, enter, resolve_loaded,
  resolve_service, resolve_services, resolve_listed, get_enabled_services,
}
use sdbx.Registry.Samples.{definition}
use sdbx.Registry.Validator.Container.{Library}
use sdbx.Registry.Validator.Trust.{TrustLevel}
use sdbx.Registry.Sources.{Source, Services, SourceProvider, found, not_found}
use sdbx.Registry.Sources.Managed.{
  Outside, new_registry, provider_of, embedded_source, insert_source, sort_onto, sort_by_priority,
  has_name, get_source, remove_source, parse_source_cache_ttl, create_source_provider,
  create_enabled, add_source,
}
use sdbx.Registry.Sources.Listing.{
  catalog_of, insert_service, sort_services, info_of, matches_query, accept, list_name, list_names,
  list_source, list_sources, list_services, search_services, service_path,
}
use sdbx.Registry.Sources.Reachable.{
  IsReachable, created, changed, added, removed, IsReachable-IsRegistry,
}

abbrev library : Library
library = record {
  parse_duration = λ _. some (pos 30000000000);
  to_upper = λ s. s;
  parse_error = λ _. none;
}

-- A service that needs host devices, from a registry of its own.
abbrev demo : ServiceDefinition
demo =
    let base = definition "demo" [] [] in
    record base {
      metadata = record base.metadata { description = "A demo" };
      permissions = "privileged" ∷ "route:protected" ∷ "network:app" ∷ [];
      routing = record base.routing { traefik = record { network = "app" } };
      spec = record base.spec {
        image = record { repository = "ghcr.io/acme/demo"; tag = "1.0"; registry = "ghcr.io" };
        container = record base.spec.container {
          name_template = "demo";
          privileged = true;
          restart = "unless-stopped";
        };
        networking = record base.spec.networking {
          networks = record { name = "app"; when = "" } ∷ [];
        };
      };
    }

abbrev trust : TrustLevel
trust = record {
  allow_catalog_permissions = "privileged" ∷ "route:*" ∷ "network:app" ∷ [];
  allowed_registries = "ghcr.io" ∷ [];
}

-- A service of the catalog.
abbrev core : ServiceDefinition
core = record demo {
  metadata = record demo.metadata { name = "core" };
  routing = record demo.routing { subdomain = "core" };
  permissions = "network:app" ∷ "route:protected" ∷ [];
  spec = record demo.spec {
    container = record demo.spec.container { name_template = "{{ .Name }}"; privileged = false };
    dependencies = record { required = "demo" ∷ []; conditional = [] };
  };
}

abbrev only : ServiceDefinition → Services
only def = record {
  load_service = λ name. if name == def.metadata.name then found def else not_found;
  list_services = ok (def.metadata.name ∷ []);
  service_path = λ name. name;
}

abbrev outside : Outside
outside = record {
  catalog = only core;
  local_services = λ _. only demo;
  git_services = λ _. only demo;
  parse_duration = λ _. some (pos 30000000000);
  parse_url = λ _. err "not a URL";
}

abbrev local_source : String → ℕ → Source
local_source name priority = record {
  name = name;
  source_type = "local";
  url = "";
  path = "";
  ref = "";
  signing_key = "";
  ssh_key = "";
  priority = pos priority;
  enabled = true;
  trust = trust;
  legacy_branch = "";
  legacy_ssh_key = "";
  legacy_verified = false;
}

abbrev mine : SourceProvider
mine = provider_of outside (local_source "mine" 10) "local" (only demo)

abbrev other : SourceProvider
other = provider_of outside (local_source "other" 20) "local" (only demo)

abbrev registry : List SourceProvider
registry = mine ∷ embedded_source outside ∷ []

computing : Unit {0}
unfolding evaluation lookup insert text_le topological_sort start loop visit decrement decrement_all
    adj_list dependents in_degree matches_activation_conditions evaluate_dependency_condition
    is_addon_enabled immutable_git_ref_pattern source_name_pattern ssh_fingerprint
    is_valid_signing_fingerprint scp_like_git_url validate_git_source_url validate_git_source_config
    validate_source_config validate_names validate_configured_sources insert_source sort_onto
    sort_by_priority has_name get_source remove_source parse_source_cache_ttl create_source_provider
    create_enabled new_registry add_source validate_service_lookup_name embedded_service_exists
    validate_override validate_service_source_boundary search_sources get_service
    validate_for_source insert_service sort_services info_of matches_query accept list_name
    list_names list_source list_sources list_services search_services service_path
    determine_enabled_services enabled_names collect_dependencies after_dependency
    resolve_dependencies with_warnings resolved_service enter resolve_loaded resolve_service
    resolve_services resolve_listed get_enabled_services resolve
computing = tt

registry-IsReachable : IsReachable outside registry
unfolding computing
registry-IsReachable = created "24h" (local_source "mine" 10 ∷ []) refl

abbrev the_catalog : Catalog
the_catalog = catalog_of library registry (λ _. "sha256:")

abbrev entry : String → ServiceDefinition → String → List String → ResolvedService
entry name def source dependencies = record {
  name = name;
  source = source;
  source_path = name;
  definition = def;
  definition_hash = "sha256:";
  final_definition = def;
  dependencies = dependencies;
  enabled = true;
}

abbrev warning : String → String → String → ResolutionWarning
warning service field format = record { service = service; field = field; message = plain format }

abbrev untemplated : String → ResolutionWarning
untemplated service =
    warning service "spec.container.name_template"
      "container name template should use Go template syntax"

abbrev graph : ResolutionGraph
graph = record {
  services =
      ("core", entry "core" core "embedded" ("demo" ∷ []))
      ∷ ("demo", entry "demo" demo "mine" [])
      ∷ [];
  order = "demo" ∷ "core" ∷ [];
  errors = [];
  warnings =
      untemplated "demo"
      ∷ warning "demo" "spec.container.privileged"
          "privileged mode grants nearly unrestricted host access"
      ∷ [];
}

resolve-run : resolve the_catalog default_config 3 ≡ some (ok graph)
unfolding computing
resolve-run = refl

resolve-IsConfined_example : IsConfined library registry "demo" (entry "demo" demo "mine" [])
unfolding lookup
resolve-IsConfined_example =
    resolve-IsConfined outside library (λ _. "sha256:") registry default_config registry-IsReachable
      3 graph resolve-run refl "demo" (entry "demo" demo "mine" []) refl

validate_with_trust_level-IsTrusted_example : IsTrusted library demo trust
unfolding evaluation
validate_with_trust_level-IsTrusted_example =
    validate_with_trust_level-IsTrusted library demo trust refl

validate_permissions-HasExactPermissions_example : HasExactPermissions library demo
unfolding evaluation
validate_permissions-HasExactPermissions_example =
    validate_permissions-HasExactPermissions library demo refl

get_service-IsSupplied_example : IsSupplied registry "demo" demo "mine"
unfolding computing
get_service-IsSupplied_example = get_service-IsSupplied registry "demo" demo "mine" refl

list_services-IsListing_example :
    IsListing library registry (info_of (embedded_source outside) core ∷ info_of mine demo ∷ [])
unfolding computing
list_services-IsListing_example =
    list_services-IsListing library registry
      (info_of (embedded_source outside) core ∷ info_of mine demo ∷ []) refl

other-IsReachable : IsReachable outside (other ∷ embedded_source outside ∷ [])
unfolding computing
other-IsReachable =
    changed (changed registry-IsReachable (added (local_source "other" 20) refl))
      (removed "mine" refl)

IsReachable-IsRegistry_example : IsRegistry outside (other ∷ embedded_source outside ∷ [])
IsReachable-IsRegistry_example =
    IsReachable-IsRegistry outside (other ∷ embedded_source outside ∷ []) other-IsReachable

validate_conditions-HasConditions_example : HasConditions core
unfolding evaluation lookup
validate_conditions-HasConditions_example = validate_conditions-HasConditions core refl

validate_catalog_templates-All_example : All (IsAllowedField library) (catalog_string_fields core)
unfolding evaluation
validate_catalog_templates-All_example = validate_catalog_templates-All library core refl

-- The check compares texts: another spelling of the path of the socket passes.
socket_test :
    (is_docker_socket_path "'/var/run/docker.sock'" ≡ true)
    × (is_docker_socket_path "/var/run/./docker.sock" ≡ false)
    × (is_docker_socket_path "/run/docker.sock" ≡ false)
unfolding evaluation
socket_test = (refl, refl, refl)
