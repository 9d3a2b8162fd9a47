-- ===== src/Registry/Resolver/Fuel.antt =====
-- Resolution ends: each nested call enters a service that was not resolved, so the depth is bounded
-- by the number of names that the catalog knows.
use sdbx.Registry.TopologicalSort.{topological_sort}
use sdbx.Base.{
  ℕ, zero, suc, ◌≤◌, ◌<◌, String, true, false, ◌≡◌, refl, ap, not, List, [], ◌∷◌, Option, some,
  Result, ok, err, Check, fine, eq_refl, arith, keep, length, Bool-cases, eq-cases, inl, inr,
  length-keep,
}
use sdbx.Config.{Config, contains}
use sdbx.Registry.Types.{ServiceDefinition}
use sdbx.Registry.Types.Resolved.{ResolutionGraph, Cause, validation_failed}
use sdbx.Registry.Conditions.{matches_activation_conditions}
use sdbx.Registry.Resolver.{
  Catalog, Call, is_resolved, after_dependency, resolve_dependencies, with_warnings, enter,
  resolve_loaded, resolve_service, has_errors, collect_dependencies, resolve_services,
  after_service, finish, empty_graph, ordered, resolve, format_validation_errors, ServiceInfo,
  with_order, enabled_names, resolve_listed,
}
use sdbx.Registry.Resolver.Growth.{
  Extends, Extends-trans, Grows, after_dependency-Extends, enter-Extends,
}
use sdbx.Registry.Resolver.Outcome.{resolve_service-Grows}
use sdbx.Registry.Resolver.Closure.{is_resolved-Extends}
use sdbx.Registry.Resolver.Invariants.{lookup-enter}

-- The catalog knows no other names: it has an error for each of them.
abbrev pub KnowsOnly : Catalog → List String → Type 0
KnowsOnly catalog names =
    (n : String) → contains names n ≡ false → (cause : Cause) × (catalog.get_service n ≡ err cause)

abbrev missing : List String → ResolutionGraph → ℕ
missing names g = length (keep (λ n. not (is_resolved g n)) names)

missing-le :
    (names : List String) (g g' : ResolutionGraph)
    → Extends g g'
    → missing names g' ≤ missing names g
missing-le [] g g' e = omega arith
missing-le (n ∷ names) g g' e = ground (arith, missing-le names g g' e, is_resolved-Extends n e)

missing-lt :
    (names : List String) (g g' : ResolutionGraph) (name : String)
    → Extends g g'
    → contains names name ≡ true
    → is_resolved g name ≡ false
    → is_resolved g' name ≡ true
    → missing names g' < missing names g
unfolding contains
missing-lt [] g g' name e c old new = cc
missing-lt (n ∷ names) g g' name e c old new = elim (eq-cases n name) [
  | inl (same, t) ↦
      ground (arith, missing-le names g g' e, ap (is_resolved g) same, ap (is_resolved g') same)
  | inr (other, t) ↦
      ground (arith, missing-lt names g g' name e (rw t at c), is_resolved-Extends n e)
]

abbrev pub Ends : Option (Check Cause × ResolutionGraph) → Type 0
Ends o = (r : Check Cause) × (g : ResolutionGraph) × (o ≡ some (r, g))

module _ (catalog : Catalog) (cfg : Config) (names : List String)
    (knows : KnowsOnly catalog names) where
  dependencies_end :
      (fuel : ℕ) (call : Call)
      → Grows call
      → ((g : ResolutionGraph) (n : String) → missing names g < fuel → Ends (call g n))
      → (service : String) (deps : List String) (g : ResolutionGraph) → missing names g < fuel
      → (g' : ResolutionGraph) × (resolve_dependencies call service deps g ≡ some g')
  unfolding resolve_dependencies
  dependencies_end fuel call grows ends service [] g h = (g, refl)
  dependencies_end fuel call grows ends service (dep ∷ deps) g h =
      let (r, after, called) = ends g dep h in
      let next = after_dependency service dep r after in
      let grown =
        Extends-trans (grows g dep r after called) (after_dependency-Extends service dep r after) in
      let (g', rest) =
        dependencies_end fuel call grows ends service deps next
          (omega (arith, missing-le names g next grown)) in
      (g', rw (called, resolve_dependencies) rest)

  loaded_end :
      (fuel : ℕ) (name : String) (def : ServiceDefinition) (source : String) (g : ResolutionGraph)
      → is_resolved g name ≡ false
      → contains names name ≡ true
      → missing names g < suc fuel
      → ((h : ResolutionGraph) (n : String)
          → missing names h < fuel
          → Ends (resolve_service catalog cfg fuel h n))
      → Ends (resolve_loaded catalog cfg (resolve_service catalog cfg fuel) name def source g)
  unfolding resolve_loaded with_warnings
  loaded_end fuel name def source g new listed h ends =
      elim (Bool-cases (matches_activation_conditions def.conditions (some cfg))) [
        | inr off ↦ (fine, g, rw off)
        | inl on ↦ elim (Bool-cases (has_errors (catalog.validate_for_source def source))) [
          | inl bad ↦
              let es = catalog.validate_for_source def source in
              (
                err (validation_failed (format_validation_errors es)),
                with_warnings name es g,
                rw (on, bad),
              )
          | inr good ↦
              let warned = with_warnings name (catalog.validate_for_source def source) g in
              let mid = enter catalog cfg name def source warned in
              let grown = enter-Extends catalog cfg name def source warned new in
              let less = missing-lt names warned mid name grown listed new (
                rw (lookup-enter catalog cfg name def source warned name)
                  (rw (eq_refl name) refl)) in
              let (g', run) =
                dependencies_end fuel (resolve_service catalog cfg fuel)
                  (resolve_service-Grows catalog cfg fuel) ends name (collect_dependencies def cfg)
                  mid (omega arith) in
              (fine, g', rw (on, good) (ap (finish catalog cfg) run))
        ]
      ]

  -- A call returns once its fuel exceeds the number of names that are not resolved yet.
  service_end :
      (fuel : ℕ) (g : ResolutionGraph) (n : String)
      → missing names g < fuel
      → Ends (resolve_service catalog cfg fuel g n)
  unfolding resolve_service
  service_end zero g n h = elim h [ ]
  service_end (suc fuel) g n h = elim (Bool-cases (is_resolved g n)) [
    | inl old ↦ (fine, g, rw old)
    | inr new ↦ fetched new (catalog.get_service n) refl (service_end fuel)
  ]
    where
      fetched :
          is_resolved g n ≡ false
          → (found : Result Cause (ServiceDefinition × String)) → catalog.get_service n ≡ found
          → ((h : ResolutionGraph) (m : String)
              → missing names h < fuel
              → Ends (resolve_service catalog cfg fuel h m))
          → Ends (resolve_service catalog cfg (suc fuel) g n)
      fetched new (err cause) got rec = (err cause, g, rw (new, got, resolve_service) refl)
      fetched new (ok (def, source)) got rec =
          let (r, g', run) = loaded_end fuel n def source g new (listed def source got) h rec in
          (r, g', rw (new, got, resolve_service) run)
        where
          listed :
              (def : ServiceDefinition) (source : String)
              → catalog.get_service n ≡ ok (def, source)
              → contains names n ≡ true
          listed def source got = elim (Bool-cases (contains names n)) [
            | inl here ↦ here
            | inr away ↦ let (cause, bad) = knows n away in cc
          ]

  services_end :
      (fuel : ℕ) (wanted : List String) (g : ResolutionGraph)
      → length names < fuel
      → (g' : ResolutionGraph) × (resolve_services catalog cfg fuel wanted g ≡ some g')
  unfolding resolve_services
  services_end fuel [] g h = (g, refl)
  services_end fuel (name ∷ wanted) g h =
      let (r, after, run) =
        service_end fuel g name (omega (arith, length-keep (λ n. not (is_resolved g n)) names)) in
      let (g', rest) = services_end fuel wanted (after_service catalog cfg name r after) h in
      (g', rw (run, resolve_services) rest)

  listed_end :
      (fuel : ℕ) (listed : Result Cause (List ServiceInfo))
      → length names < fuel
      → (result : Result Cause ResolutionGraph) × (resolve_listed catalog cfg fuel listed
          ≡ some result)
  unfolding resolve_listed
  listed_end fuel (err cause) h = (err cause, refl)
  listed_end fuel (ok services) h =
      let (g, run) = services_end fuel (enabled_names cfg services) empty_graph h in
      (ok (with_order catalog cfg (topological_sort g.services) g), ap (ordered catalog cfg) run)

  -- `Resolve` returns: more fuel than the catalog has names is enough, whatever the configuration.
  pub resolve_returns :
      (fuel : ℕ)
      → length names < fuel
      → (result : Result Cause ResolutionGraph) × (resolve catalog cfg fuel ≡ some result)
  unfolding resolve
  resolve_returns fuel h = listed_end fuel catalog.list_services h
