-- ===== src/Registry/Resolver/Tests.antt =====
-- Runs of the resolver and of its sort, and the theorems at them.
use sdbx.Base.{
  ℕ, String, true, ◌≡◌, refl, List, [], ◌∷◌, ◌==◌, some, Result, ok, err, eq_iff, arith, trim_space,
  if◌then◌else◌, ◌↔◌,
}
use sdbx.Base.Maps.{lookup, insert, keys}
use sdbx.Base.Order.{sort_strings, count}
use sdbx.Config.{default_config, contains, is_addon_enabled}
use sdbx.Registry.Conditions.{
  matches_activation_conditions, evaluate_dependency_condition, canonical_catalog_condition,
  Activates,
}
use sdbx.Registry.Conditions.Laws.{matches_activation_conditions_iff}
use sdbx.Registry.Types.Resolved.{ResolutionGraph, Cause, circular_dependency, unknown_service}
use sdbx.Registry.TopologicalSort.{
  Services, topological_sort, start, loop, visit, decrement, decrement_all, adj_list, dependents,
  in_degree,
}
use sdbx.Registry.TopologicalSort.Rounds.{IsMap}
use sdbx.Registry.TopologicalSort.Order.{IsOrdered, topological_sort-IsOrdered}
use sdbx.Registry.TopologicalSort.Acyclic.{IsRanked, topological_sort_iff_acyclic}
use sdbx.Registry.Samples.{catalog, traefik, authelia, entry, always_on}
use sdbx.Registry.Resolver.{
  resolve, resolve_service, resolve_services, resolve_loaded, resolve_dependencies,
  after_dependency, enter, with_warnings, filter_by_severity, has_errors, collect_dependencies,
  enabled_names, resolved_service,
}
use sdbx.Registry.Resolver.Complete.{IsComplete, resolve-IsComplete}
use sdbx.Registry.Resolver.Fuel.{KnowsOnly, resolve_returns}

abbrev services : Services
services =
    ("authelia", entry "authelia" authelia [])
    ∷ ("traefik", entry "traefik" traefik ("authelia" ∷ []))
    ∷ []

abbrev graph : ResolutionGraph
graph = record {
  services = services;
  order = "authelia" ∷ "traefik" ∷ [];
  errors = [];
  warnings = [];
}

abbrev cyclic : Services
cyclic = ("a", entry "a" authelia ("b" ∷ [])) ∷ ("b", entry "b" authelia ("a" ∷ [])) ∷ []

sorting : Unit {0}
unfolding topological_sort start loop visit decrement decrement_all adj_list dependents in_degree
    sort_strings lookup insert
sorting = tt

sorted_services : topological_sort services ≡ ok ("authelia" ∷ "traefik" ∷ [])
unfolding sorting
sorted_services = refl

sort_cyclic : topological_sort cyclic ≡ err circular_dependency
unfolding sorting
sort_cyclic = refl

resolve-catalog : resolve catalog default_config 3 ≡ some (ok graph)
unfolding resolve resolve_service resolve_services resolve_loaded resolve_dependencies
    after_dependency enter with_warnings filter_by_severity has_errors collect_dependencies
    enabled_names resolved_service sorting matches_activation_conditions
    evaluate_dependency_condition canonical_catalog_condition trim_space contains is_addon_enabled
resolve-catalog = refl

services-IsMap : IsMap services
services-IsMap k =
    ground (arith, eq_iff "authelia" k, eq_iff "traefik" k, eq_iff "authelia" "traefik")

catalog-KnowsOnly : KnowsOnly catalog ("authelia" ∷ "traefik" ∷ [])
unfolding contains
catalog-KnowsOnly n h = (
  unknown_service n,
  ground (arith, eq_iff "authelia" n, eq_iff "traefik" n, eq_iff n "authelia", eq_iff n "traefik"),
)

depth : String → ℕ
depth name = if name == "traefik" then 1 else 0

services-IsRanked : IsRanked depth services
unfolding depth contains lookup
services-IsRanked x d h k = ground (
  arith,
  eq_iff "authelia" d,
  eq_iff "authelia" x,
  eq_iff "traefik" x,
  eq_iff x "traefik",
  eq_iff d "traefik",
  eq_iff "authelia" "traefik",
)

resolve-IsComplete_example : IsComplete catalog default_config graph
resolve-IsComplete_example = resolve-IsComplete catalog default_config 3 graph resolve-catalog refl

resolve_returns_example :
    (result : Result Cause ResolutionGraph) × (resolve catalog default_config 3 ≡ some result)
resolve_returns_example =
    resolve_returns catalog default_config ("authelia" ∷ "traefik" ∷ []) catalog-KnowsOnly 3
      (omega arith)

topological_sort-IsOrdered_example :
    IsOrdered services [] ("authelia" ∷ "traefik" ∷ [])
    × ((x : String) → count x ("authelia" ∷ "traefik" ∷ []) ≡ count x (keys services))
topological_sort-IsOrdered_example =
    topological_sort-IsOrdered services ("authelia" ∷ "traefik" ∷ []) services-IsMap sorted_services

topological_sort_iff_acyclic_example :
    ((order : List String) × (topological_sort services ≡ ok order))
    ↔ ((rank : String → ℕ) × IsRanked rank services)
topological_sort_iff_acyclic_example = topological_sort_iff_acyclic services services-IsMap

matches_activation_conditions_iff_example :
    (matches_activation_conditions always_on (some default_config) ≡ true)
    ↔ Activates always_on default_config
matches_activation_conditions_iff_example =
    matches_activation_conditions_iff always_on default_config

lan_condition :
    evaluate_dependency_condition " {{ eq .Config.Expose.Mode \"lan\" }} " (some default_config)
    ≡ true
unfolding evaluate_dependency_condition canonical_catalog_condition trim_space
lan_condition = refl
