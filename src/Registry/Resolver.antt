-- ===== src/Registry/Resolver.antt =====
-- internal/registry/resolver.go: from a configuration to the graph of active services. The sources
-- that hold the definitions are the parameter `Catalog`; the sort is in `TopologicalSort`.
pub mod Growth
pub mod Outcome
pub mod Invariants
pub mod Complete
pub mod Closure
pub mod Fuel
mod Tests
use sdbx.Base.{
  ℕ, zero, suc, String, Bool, true, false, ◌==◌, not, ◌&&◌, List, [], ◌∷◌, ◌++◌, map, Option, none,
  some, Message, plain, Result, ok, err, Check, fine, keep, any, if◌then◌else◌, ◌<>◌,
}
use sdbx.Base.Maps.{Map, lookup, insert, keys, has}
use sdbx.Base.Order.{sort_strings}
use sdbx.Config.{Config, contains, is_addon_enabled}
use sdbx.Registry.Types.{ServiceDefinition, ConditionalDependency}
use sdbx.Registry.Types.Resolved.{
  ResolvedService, ResolutionWarning, ResolutionError, ResolutionGraph, Cause, circular_dependency,
  refused, validation_failed, ValidationError,
}
use sdbx.Registry.Conditions.{matches_activation_conditions, evaluate_dependency_condition}
use sdbx.Registry.TopologicalSort.{topological_sort}

pub record ServiceInfo : Type 0 where
  pub name : String
  pub description : String
  pub category : String
  pub version : String
  pub source : String
  pub is_addon : Bool

-- What the resolver asks of the registry: the services on offer, a definition with the name of its
-- source, its validation, the path and the hash that are recorded with it.
pub record Catalog : Type 0 where
  pub list_services : Result Cause (List ServiceInfo)
  pub get_service : String → Result Cause (ServiceDefinition × String)
  pub validate_for_source : ServiceDefinition → String → List ValidationError
  pub service_path : String → String → String
  pub calculate_hash : ServiceDefinition → String

unfoldable pub filter_by_severity : List ValidationError → String → List ValidationError
filter_by_severity errors severity = keep (λ e. e.severity == severity) errors

unfoldable pub has_errors : List ValidationError → Bool
has_errors errors = any (λ e. e.severity == "error") errors

-- The fields and messages that are written as "field: message" and joined by "; ".
abbrev pub format_validation_errors : List ValidationError → List (String × Message)
format_validation_errors [] = []
format_validation_errors (e ∷ errors) =
    let messages = format_validation_errors errors in
    if e.severity == "error" then (e.field, e.message) ∷ messages else messages

abbrev pub empty_graph : ResolutionGraph
empty_graph = record { services = []; order = []; errors = []; warnings = [] }

-- The loop that builds the service map: a later service replaces an earlier one of its name.
service_map : List ServiceInfo → Map ServiceInfo → Map ServiceInfo
service_map [] m = m
service_map (svc ∷ services) m = service_map services (insert svc.name svc m)

unfoldable pub determine_enabled_services : Config → Map ServiceInfo → List String
determine_enabled_services cfg services =
    keys (keep (λ e. if not e.1.is_addon then true else is_addon_enabled cfg e.0) services)

-- The names of the enabled services, sorted.
unfoldable pub enabled_names : Config → List ServiceInfo → List String
unfolding service_map determine_enabled_services
enabled_names cfg services = sort_strings (determine_enabled_services cfg (service_map services []))

-- The keys of the map of dependencies.
abbrev add_name : List String → String → List String
add_name names name = if contains names name then names else name ∷ names

add_required : List String → List String → List String
add_required names [] = names
add_required names (dep ∷ deps) = add_required (add_name names dep) deps

add_conditional : Config → List String → List ConditionalDependency → List String
add_conditional cfg names [] = names
add_conditional cfg names (dep ∷ deps) =
    add_conditional cfg
      (if evaluate_dependency_condition dep.when (some cfg) then add_name names dep.name else names)
      deps

unfoldable pub collect_dependencies : ServiceDefinition → Config → List String
unfolding add_required add_conditional
collect_dependencies def cfg = sort_strings (
    add_conditional cfg (add_required [] def.spec.dependencies.required)
      def.spec.dependencies.conditional)

abbrev pub add_error : ResolutionError → ResolutionGraph → ResolutionGraph
add_error e g = record g { errors = g.errors ++ (e ∷ []) }

abbrev pub is_resolved : ResolutionGraph → String → Bool
is_resolved g name = has name g.services

-- A call of `resolveService`; `none` means that the fuel ran out.
abbrev pub Call : Type 0
Call = ResolutionGraph → String → Option (Check Cause × ResolutionGraph)

-- What the loop over the dependencies records when the call for one returns.
unfoldable pub after_dependency : String → String → Check Cause → ResolutionGraph → ResolutionGraph
after_dependency service dep (err cause) g =
    add_error
      (record {
        service = service;
        message = record { format = "dependency %s failed"; args = dep ∷ [] };
        cause = some cause;
      })
      g
after_dependency service dep (ok _) g =
    if not (is_resolved g dep)
    then add_error
        (record {
          service = service;
          message = record {
            format = "dependency %s is not enabled by the current configuration";
            args = dep ∷ [];
          };
          cause = none;
        })
        g
    else g

unfoldable pub resolve_dependencies :
    Call → String → List String → ResolutionGraph → Option ResolutionGraph
resolve_dependencies call service [] g = some g
resolve_dependencies call service (dep ∷ deps) g = elim (call g dep) [
  | none ↦ none
  | some (result, after) ↦
      resolve_dependencies call service deps (after_dependency service dep result after)
]

warn : String → ValidationError → ResolutionWarning
warn service e = record { service = service; field = e.field; message = e.message }

-- The graph after the warnings of the definition, and after the service is entered.
unfoldable pub with_warnings : String → List ValidationError → ResolutionGraph → ResolutionGraph
unfolding warn
with_warnings name errors g = record g {
  warnings = g.warnings ++ map (warn name) (filter_by_severity errors "warning");
}

module _ (catalog : Catalog) (cfg : Config) where
  unfoldable pub resolved_service : String → ServiceDefinition → String → ResolvedService
  resolved_service name def source = record {
    name = name;
    source = source;
    source_path = catalog.service_path source name;
    definition = def;
    definition_hash = catalog.calculate_hash def;
    final_definition = def;
    dependencies = collect_dependencies def cfg;
    enabled = true;
  }

  unfoldable pub enter : String → ServiceDefinition → String → ResolutionGraph → ResolutionGraph
  enter name def source g = record g {
    services = insert name (resolved_service name def source) g.services;
  }

  abbrev pub finish : Option ResolutionGraph → Option (Check Cause × ResolutionGraph)
  finish none = none
  finish (some g) = some (fine, g)

  -- The service is not resolved yet and its definition is loaded.
  unfoldable pub resolve_loaded :
      Call
      → String
      → ServiceDefinition
      → String
      → ResolutionGraph
      → Option (Check Cause × ResolutionGraph)
  resolve_loaded call name def source g =
      if not (matches_activation_conditions def.conditions (some cfg))
      then some (fine, g)
      else if has_errors (catalog.validate_for_source def source)
      then some (
        err (validation_failed (format_validation_errors (catalog.validate_for_source def source))),
        with_warnings name (catalog.validate_for_source def source) g,
      )
      else finish (
          resolve_dependencies call name (collect_dependencies def cfg)
            (enter name def source (with_warnings name (catalog.validate_for_source def source) g)))

  unfoldable pub resolve_service : ℕ → Call
  resolve_service zero g name = none
  resolve_service (suc fuel) g name =
      if is_resolved g name then some (fine, g) else elim (catalog.get_service name) [
        | err cause ↦ some (err cause, g)
        | ok (def, source) ↦ resolve_loaded (resolve_service fuel) name def source g
      ]

  abbrev pub after_service : String → Check Cause → ResolutionGraph → ResolutionGraph
  after_service name (ok _) g = g
  after_service name (err cause) g =
      add_error (record { service = name; message = plain "failed to resolve"; cause = some cause })
        g

  -- The loop of `Resolve` over the enabled services.
  unfoldable pub resolve_services : ℕ → List String → ResolutionGraph → Option ResolutionGraph
  resolve_services fuel [] g = some g
  resolve_services fuel (name ∷ names) g = elim (resolve_service fuel g name) [
    | none ↦ none
    | some (result, after) ↦ resolve_services fuel names (after_service name result after)
  ]

  abbrev pub with_order : Result Cause (List String) → ResolutionGraph → ResolutionGraph
  with_order (ok order) g = record g { order = order }
  with_order (err cause) g =
      record (add_error
        (record {
          service = "";
          message = plain "dependency resolution failed";
          cause = some cause;
        })
        g) { order = [] }

  abbrev pub ordered : Option ResolutionGraph → Option (Result Cause ResolutionGraph)
  ordered none = none
  ordered (some g) = some (ok (with_order (topological_sort g.services) g))

  -- What `Resolve` does once the registry has listed its services.
  unfoldable pub resolve_listed :
      ℕ → Result Cause (List ServiceInfo) → Option (Result Cause ResolutionGraph)
  resolve_listed fuel (err cause) = some (err cause)
  resolve_listed fuel (ok services) =
      ordered (resolve_services fuel (enabled_names cfg services) empty_graph)

  unfoldable pub resolve : ℕ → Option (Result Cause ResolutionGraph)
  unfolding resolve_listed
  resolve fuel = resolve_listed fuel catalog.list_services

  abbrev found_service : String → Option ResolvedService → Result Cause ResolvedService
  found_service name none =
      err (refused (record { format = "service %s not found after resolution"; args = name ∷ [] }))
  found_service name (some resolved) = ok resolved

  abbrev after_single :
      String → Option (Check Cause × ResolutionGraph) → Option (Result Cause ResolvedService)
  after_single name none = none
  after_single name (some (err cause, g)) = some (err cause)
  after_single name (some (ok _, g)) = some (found_service name (lookup name g.services))

  -- `ResolveService`: one service and its dependencies, in a graph of their own.
  unfoldable pub resolve_single_service : ℕ → String → Option (Result Cause ResolvedService)
  resolve_single_service fuel name = after_single name (resolve_service fuel empty_graph name)

-- `GetDependencyOrder`
unfoldable pub get_dependency_order : ResolutionGraph → List String
get_dependency_order g = g.order

-- `GetEnabledServices`
unfoldable pub get_enabled_services : ResolutionGraph → Map ResolvedService
get_enabled_services g = keep (λ e. e.1.enabled) g.services
