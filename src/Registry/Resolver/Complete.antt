-- ===== src/Registry/Resolver/Complete.antt =====
-- What a graph that `Resolve` returns without errors promises to the generators.
use sdbx.Base.{
  ℕ, String, true, false, ◌≡◌, refl, ap, ◌∙◌, List, [], Option, none, some, Result, ok, err, arith,
}
use mathlib.Core.Path.{subst}
use sdbx.Base.Maps.{lookup, keys}
use sdbx.Base.Order.{count}
use sdbx.Config.{Config}
use sdbx.Registry.Types.Resolved.{ResolutionGraph, Cause}
use sdbx.Registry.TopologicalSort.{topological_sort}
use sdbx.Registry.TopologicalSort.Rounds.{IsMap}
use sdbx.Registry.TopologicalSort.Order.{IsOrdered, topological_sort-IsOrdered}
use sdbx.Registry.Resolver.{
  Catalog, is_resolved, empty_graph, resolve_services, with_order, ordered, resolve, ServiceInfo,
  enabled_names, resolve_listed,
}
use sdbx.Registry.Resolver.Invariants.{
  AllJustified, AllJustified-rule, IsMap-rule, resolve_services_inv,
}
use sdbx.Registry.Resolver.Closure.{Closed, resolve_services-NewClosed, snoc-ne-nil}

pub record IsComplete (catalog : Catalog) (cfg : Config) (g : ResolutionGraph) : Type 0 where
  pub justified : AllJustified catalog cfg g
  pub closed : (x : String) → is_resolved g x ≡ true → Closed g x
  pub dependencies_first : IsOrdered g.services [] g.order
  pub each_once : (x : String) → count x g.order ≡ count x (keys g.services)

empty-IsMap : IsMap empty_graph.services
empty-IsMap k = omega arith

empty-AllJustified : (catalog : Catalog) (cfg : Config) → AllJustified catalog cfg empty_graph
unfolding lookup
empty-AllJustified catalog cfg name s h = cc

nothing_resolved : (x : String) → is_resolved empty_graph x ≡ false
unfolding lookup
nothing_resolved x = refl

ok-eq {ℓ} :
    {A : Type ℓ} {a b : A} → ◌≡◌ {A = Option (Result Cause A)} (some (ok a)) (some (ok b)) → a ≡ b
ok-eq e = cc

module _ (catalog : Catalog) (cfg : Config) where
  with_order-IsComplete :
      (g g' : ResolutionGraph) (sorted : Result Cause (List String))
      → topological_sort g.services ≡ sorted
      → with_order catalog cfg sorted g ≡ g'
      → g'.errors ≡ []
      → IsMap g.services
      → AllJustified catalog cfg g
      → (g.errors ≡ [] → (x : String) → is_resolved g x ≡ true → Closed g x)
      → IsComplete catalog cfg g'
  with_order-IsComplete g g' (err cause) sort same clean map just closed =
      absurd (snoc-ne-nil g.errors _ (ap (λ h. h.errors) same ∙ clean))
  with_order-IsComplete g g' (ok order) sort same clean map just closed =
      let (deps, once) = topological_sort-IsOrdered g.services order map sort in
      subst (IsComplete catalog cfg) same (record {
        justified = just;
        closed = closed (ap (λ h. h.errors) same ∙ clean);
        dependencies_first = deps;
        each_once = once;
      })

  ran-IsComplete :
      (fuel : ℕ) (names : List String) (g g' : ResolutionGraph)
      → resolve_services catalog cfg fuel names empty_graph ≡ some g
      → with_order catalog cfg (topological_sort g.services) g ≡ g'
      → g'.errors ≡ []
      → IsComplete catalog cfg g'
  ran-IsComplete fuel names g g' run same clean =
      with_order-IsComplete g g' (topological_sort g.services) refl same clean
        (resolve_services_inv catalog cfg (λ h. IsMap h.services) (IsMap-rule catalog cfg) fuel
          names empty_graph g run empty-IsMap)
        (resolve_services_inv catalog cfg (AllJustified catalog cfg) (AllJustified-rule catalog cfg)
          fuel names empty_graph g run (empty-AllJustified catalog cfg))
        (λ no_error x there.
          resolve_services-NewClosed catalog cfg fuel names empty_graph g run no_error x
            (nothing_resolved x) there)

  ordered-eq :
      (o : Option ResolutionGraph) (g' : ResolutionGraph)
      → ordered catalog cfg o ≡ some (ok g')
      → (g : ResolutionGraph) × (o ≡ some g)
        × (with_order catalog cfg (topological_sort g.services) g ≡ g')
  ordered-eq none g' e = cc
  ordered-eq (some g) g' e = (g, refl, ok-eq e)

  services-IsComplete :
      (fuel : ℕ) (names : List String) (g' : ResolutionGraph)
      → ordered catalog cfg (resolve_services catalog cfg fuel names empty_graph) ≡ some (ok g')
      → g'.errors ≡ []
      → IsComplete catalog cfg g'
  services-IsComplete fuel names g' e clean =
      let (g, run, same) = ordered-eq (resolve_services catalog cfg fuel names empty_graph) g' e in
      ran-IsComplete fuel names g g' run same clean

  listed-eq :
      (fuel : ℕ) (listed : Result Cause (List ServiceInfo)) (g : ResolutionGraph)
      → resolve_listed catalog cfg fuel listed ≡ some (ok g)
      → (names : List String) × (ordered catalog cfg
            (resolve_services catalog cfg fuel names empty_graph)
          ≡ some (ok g))
  unfolding resolve_listed
  listed-eq fuel (err cause) g e = cc
  listed-eq fuel (ok services) g e = (enabled_names cfg services, e)

  -- If `Resolve` returns a graph that records no error, then each of its services comes from a
  -- definition that the configuration activates and that passed validation, the dependencies of
  -- each of its services are services of the graph, and the order lists every service once, behind
  -- its dependencies.
  pub resolve-IsComplete :
      (fuel : ℕ) (g : ResolutionGraph)
      → resolve catalog cfg fuel ≡ some (ok g)
      → g.errors ≡ []
      → IsComplete catalog cfg g
  unfolding resolve
  resolve-IsComplete fuel g e clean =
      let (names, run) = listed-eq fuel catalog.list_services g e in
      services-IsComplete fuel names g run clean
