-- ===== src/Registry/Sources/Listing.antt =====
-- internal/registry/registry.go: ListServices and SearchServices, and the registry as the resolver
-- asks it.
use sdbx.Base.{
  ℕ, String, Bool, ◌==◌, not, ◌&&◌, ◌||◌, List, [], ◌∷◌, ◌++◌, Result, ok, err, ◌>>◌, ◌>>=◌, keep,
  codes, map, in_range, ◌+◌, if◌then◌else◌,
}
use sdbx.Base.Order.{text_le}
use sdbx.Config.{contains}
use sdbx.Registry.Types.{ServiceDefinition}
use sdbx.Registry.Types.Resolved.{Cause, invalid_service}
use sdbx.Registry.Resolver.{Catalog, ServiceInfo, has_errors, format_validation_errors}
use sdbx.Registry.Validator.Report.{has_infix}
use sdbx.Registry.Validator.Container.{Library}
use sdbx.Registry.Validator.Trust.{validate_with_trust_level}
use sdbx.Registry.Sources.{SourceProvider, Loaded, found, not_found, load_failed}
use sdbx.Registry.Sources.Managed.{get_source}
use sdbx.Registry.Sources.Lookup.{
  refuse, validate_service_source_boundary, get_service, validate_for_source,
}

-- sort.Slice by name, of services whose names differ.
unfoldable pub insert_service : ServiceInfo → List ServiceInfo → List ServiceInfo
insert_service s [] = s ∷ []
insert_service s (t ∷ ts) =
    let rest = insert_service s ts in if text_le s.name t.name then s ∷ t ∷ ts else t ∷ rest

unfoldable pub sort_services : List ServiceInfo → List ServiceInfo
sort_services [] = []
sort_services (s ∷ ss) = insert_service s (sort_services ss)

unfoldable pub info_of : SourceProvider → ServiceDefinition → ServiceInfo
info_of src def = record {
  name = def.metadata.name;
  description = def.metadata.description;
  category = def.metadata.category;
  version = def.metadata.version;
  source = src.name;
  is_addon = def.conditions.require_addon;
}

-- The services that were met, and their names.
pub record Listed : Type 0 where
  pub seen : List String
  pub services : List ServiceInfo

abbrev to_lower_code : ℕ → ℕ
to_lower_code c = if in_range b'A' b'Z' c then c + 32 else c

-- `toLower`, on the letters of ASCII only
abbrev to_lower : String → List ℕ
to_lower s = map to_lower_code (codes s)

unfoldable pub matches_query : ServiceInfo → String → Bool
matches_query svc query =
    query == ""
    || has_infix (to_lower svc.name) (to_lower query)
    || has_infix (to_lower svc.description) (to_lower query)
    || has_infix (to_lower svc.category) (to_lower query)

module _ (lib : Library) (sources : List SourceProvider) where
  unfoldable pub accept : SourceProvider → String → Listed → ServiceDefinition → Result Cause Listed
  accept src name listed def =
      let errors = validate_with_trust_level lib def src.trust_level in
      validate_service_source_boundary sources src name def
      >> (if has_errors errors
          then err (invalid_service name src.name (format_validation_errors errors))
          else ok (record {
            seen = name ∷ listed.seen;
            services = listed.services ++ (info_of src def ∷ []);
          }))

  abbrev pub load_failure : SourceProvider → String → String → Cause
  load_failure src name reason =
      refuse "failed to load service %s from source %s: %w" (name ∷ src.name ∷ reason ∷ [])

  abbrev pub accept_loaded : SourceProvider → String → Listed → Loaded → Result Cause Listed
  accept_loaded src name listed (found def) = accept src name listed def
  accept_loaded src name listed not_found = err (load_failure src name "service not found")
  accept_loaded src name listed (load_failed reason) = err (load_failure src name reason)

  -- One name that a source lists.
  unfoldable pub list_name : SourceProvider → String → Listed → Result Cause Listed
  list_name src name listed =
      if contains listed.seen name
      then ok listed
      else accept_loaded src name listed (src.services.load_service name)

  unfoldable pub list_names : SourceProvider → List String → Listed → Result Cause Listed
  list_names src [] listed = ok listed
  list_names src (name ∷ names) listed = list_name src name listed >>= list_names src names

  unfoldable pub list_source : SourceProvider → Listed → Result Cause Listed
  list_source src listed =
      if not src.is_enabled then ok listed else elim src.services.list_services [
        | err reason ↦
            err (refuse "failed to list services from source %s: %w" (src.name ∷ reason ∷ []))
        | ok names ↦ list_names src names listed
      ]

  unfoldable pub list_sources : List SourceProvider → Listed → Result Cause Listed
  list_sources [] listed = ok listed
  list_sources (src ∷ rest) listed = list_source src listed >>= list_sources rest

  unfoldable pub list_services : Result Cause (List ServiceInfo)
  list_services = list_sources sources (record { seen = []; services = [] }) >>= λ listed.
      ok (sort_services listed.services)

  unfoldable pub search_services : String → String → Result Cause (List ServiceInfo)
  search_services query category = list_services >>= λ all.
      ok (keep (λ svc. (category == "" || svc.category == category) && matches_query svc query) all)

  unfoldable pub service_path : String → String → String
  service_path source name = elim (get_source source sources) [
    | err _ ↦ ""
    | ok provider ↦ provider.services.service_path name
  ]

  -- The registry, with the hash that `calculateHash` gives a definition.
  abbrev pub catalog_of : (ServiceDefinition → String) → Catalog
  catalog_of calculate_hash = record {
    list_services = list_services;
    get_service = get_service sources;
    validate_for_source = validate_for_source sources lib;
    service_path = service_path;
    calculate_hash = calculate_hash;
  }
