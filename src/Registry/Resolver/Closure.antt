-- ===== src/Registry/Resolver/Closure.antt =====
-- If resolution ends without an error, each service that it entered has its dependencies resolved.
use sdbx.Registry.Types.{ServiceDefinition}
use mathlib.Core.Path.{subst}
use sdbx.Base.{
  ℕ, zero, suc, String, true, false, ◌≡◌, refl, sym, ap, ◌∙◌, List, [], ◌∷◌, ◌++◌, Option, none,
  some, ok, err, Check, Bool-cases, eq-cases, inl, inr,
}
use sdbx.Base.Maps.{lookup, has, is_some}
use sdbx.Config.{Config, contains}
use sdbx.Registry.Types.Resolved.{ResolutionError, ResolutionGraph, Cause}
use sdbx.Registry.TopologicalSort.Rounds.{dependencies}
use sdbx.Registry.Resolver.{
  Catalog, Call, is_resolved, after_dependency, resolve_dependencies, with_warnings,
  resolved_service, enter, resolve_service, collect_dependencies, resolve_services, after_service,
}
use sdbx.Registry.Resolver.Growth.{
  Extends, Extends-refl, Extends-trans, Grows, resolve_dependencies-cons,
  resolve_dependencies-Extends,
}
use sdbx.Registry.Resolver.Outcome.{
  known, failed, inactive, rejected, entered, resolve_service-Outcome, resolve_service-Grows,
}
use sdbx.Registry.Resolver.Invariants.{lookup-enter}

-- The dependencies of a service of the graph are in the graph.
abbrev pub Closed : ResolutionGraph → String → Type 0
Closed g x = (d : String) → contains (dependencies g.services x) d ≡ true → is_resolved g d ≡ true

-- What the second graph has in addition to the first is closed.
abbrev pub NewClosed : ResolutionGraph → ResolutionGraph → Type 0
NewClosed g g' = (x : String) → is_resolved g x ≡ false → is_resolved g' x ≡ true → Closed g' x

is_some_of : {A : Type 0} (o : Option A) → is_some o ≡ true → (a : A) × (o ≡ some a)
is_some_of none h = cc
is_some_of (some a) h = (a, refl)

pub is_resolved-Extends :
    {g g' : ResolutionGraph} (x : String)
    → Extends g g'
    → is_resolved g x ≡ true
    → is_resolved g' x ≡ true
is_resolved-Extends {g} x e h =
    let (s, found) = is_some_of (lookup x g.services) h in rw (e.services x s found)

Closed-Extends :
    {g g' : ResolutionGraph} (x : String)
    → Extends g g'
    → is_resolved g x ≡ true
    → Closed g x
    → Closed g' x
Closed-Extends {g} {g'} x e h c d k =
    let (s, found) = is_some_of (lookup x g.services) h in
    is_resolved-Extends d e (c d (rw found (rw (e.services x s found) at k)))

NewClosed-trans :
    (g h k : ResolutionGraph) → NewClosed g h → NewClosed h k → Extends h k → NewClosed g k
NewClosed-trans g h k a b e x new there = elim (Bool-cases (is_resolved h x)) [
  | inl mid ↦ Closed-Extends x e mid (a x new mid)
  | inr mid ↦ b x mid there
]

no_errors : {g g' : ResolutionGraph} → Extends g g' → g'.errors ≡ [] → g.errors ≡ []
no_errors {g} e h = nil_of_append g.errors e.more (sym e.errors ∙ h)
  where
    nil_of_append : (xs ys : List ResolutionError) → xs ++ ys ≡ [] → xs ≡ []
    nil_of_append [] ys h = refl
    nil_of_append (x ∷ xs) ys h = cc

pub snoc-ne-nil : (xs : List ResolutionError) (x : ResolutionError) → ¬ (xs ++ (x ∷ []) ≡ [])
snoc-ne-nil [] x h = cc
snoc-ne-nil (y ∷ xs) x h = cc

-- If no error is recorded for a dependency, it is resolved and the graph is as the call left it.
after_dependency_clean :
    (service dep : String) (r : Check Cause) (g : ResolutionGraph)
    → (after_dependency service dep r g).errors ≡ []
    → (after_dependency service dep r g ≡ g) × (is_resolved g dep ≡ true)
unfolding after_dependency
after_dependency_clean service dep (err cause) g h = absurd (snoc-ne-nil g.errors _ h)
after_dependency_clean service dep (ok _) g h = elim (Bool-cases (is_resolved g dep)) [
  | inl e ↦ (rw e refl, e)
  | inr e ↦ absurd (snoc-ne-nil g.errors _ (rw e at h))
]

module _ (catalog : Catalog) (cfg : Config) where
  abbrev Closes : Call → Type 0
  Closes call =
      (g : ResolutionGraph) (name : String) (r : Check Cause) (g' : ResolutionGraph)
      → call g name ≡ some (r, g')
      → g'.errors ≡ []
      → NewClosed g g'

  unchanged : (g g' : ResolutionGraph) → g.services ≡ g'.services → NewClosed g g'
  unchanged g g' same x new there = let t : is_resolved g x ≡ true = ap (has x) same ∙ there in cc

  dependencies_closed :
      (call : Call)
      → Grows call
      → Closes call
      → (service : String) (deps : List String) (g g' : ResolutionGraph)
      → resolve_dependencies call service deps g ≡ some g'
      → g'.errors ≡ []
      → ((d : String) → contains deps d ≡ true → is_resolved g' d ≡ true) × NewClosed g g'
  unfolding resolve_dependencies contains
  dependencies_closed call grows closes service [] g g' e clean =
      let same : g ≡ g' = cc in ((λ d h. cc), unchanged g g' (ap (λ h. h.services) same))
  dependencies_closed call grows closes service (dep ∷ deps) g g' e clean =
      let (r, after, called, rest) = resolve_dependencies-cons call service dep deps g g' e in
      let next = after_dependency service dep r after in
      let onwards = resolve_dependencies-Extends call grows service deps next g' rest in
      let clean_next = no_errors onwards clean in
      let (same, resolved) = after_dependency_clean service dep r after clean_next in
      let (all_deps, new) = dependencies_closed call grows closes service deps next g' rest clean in
      let onwards' = subst (λ h. Extends h g') same onwards in
      let clean_after = no_errors onwards' clean in
      (
        (λ d h. elim (eq-cases dep d) [
          | inl (same_d, t) ↦ rw (← same_d) (is_resolved-Extends dep onwards' resolved)
          | inr (other, t) ↦ all_deps d (rw t at h)
        ]),
        NewClosed-trans g after g' (closes g dep r after called clean_after)
            (subst (λ h. NewClosed h g') same new) onwards',
      )

  -- A new service is closed if the loop over its dependencies leaves no error.
  entered_closed :
      (name : String) (def : ServiceDefinition) (source : String) (g g' : ResolutionGraph)
      → Extends (enter catalog cfg name def source g) g'
      → ((d : String) → contains (collect_dependencies def cfg) d ≡ true → is_resolved g' d ≡ true)
      → NewClosed (enter catalog cfg name def source g) g'
      → NewClosed g g'
  unfolding resolved_service
  entered_closed name def source g g' grown all_deps closed x new there = elim (eq-cases name x) [
    | inl (e, t) ↦
        let entry =
          grown.services x (resolved_service catalog cfg name def source)
            (rw (lookup-enter catalog cfg name def source g x) (rw t refl)) in
        λ d k. all_deps d (rw entry at k)
    | inr (e, t) ↦ closed x (rw (lookup-enter catalog cfg name def source g x) (rw t new)) there
  ]

  service_closed : (fuel : ℕ) → Closes (resolve_service catalog cfg fuel)
  unfolding resolve_service with_warnings
  service_closed zero g name r g' e clean = cc
  service_closed (suc fuel) g name r g' e clean =
      elim (resolve_service-Outcome catalog cfg fuel g name r g' e) [
        | known _ _ same ↦ unchanged g g' (ap (λ h. h.services) same)
        | failed _ _ same ↦ unchanged g g' (ap (λ h. h.services) same)
        | inactive _ _ same ↦ unchanged g g' (ap (λ h. h.services) same)
        | rejected _ es _ same ↦ unchanged g g' (ap (λ h. h.services) same)
        | entered def source new got active valid _ deps ↦
            let mid =
              enter catalog cfg name def source
                (with_warnings name (catalog.validate_for_source def source) g) in
            let (all_deps, closed) =
              dependencies_closed (resolve_service catalog cfg fuel)
                (resolve_service-Grows catalog cfg fuel) (service_closed fuel) name
                (collect_dependencies def cfg) mid g' deps clean in
            entered_closed name def source _ g'
              (resolve_dependencies-Extends (resolve_service catalog cfg fuel)
                (resolve_service-Grows catalog cfg fuel) name (collect_dependencies def cfg) mid g'
                deps)
              all_deps closed
      ]

  after_service_clean :
      (name : String) (r : Check Cause) (g : ResolutionGraph)
      → (after_service catalog cfg name r g).errors ≡ []
      → after_service catalog cfg name r g ≡ g
  after_service_clean name (ok _) g h = refl
  after_service_clean name (err cause) g h = absurd (snoc-ne-nil g.errors _ h)

  after_service-Extends :
      (name : String) (r : Check Cause) (g : ResolutionGraph)
      → Extends g (after_service catalog cfg name r g)
  after_service-Extends name (ok _) g = Extends-refl g
  after_service-Extends name (err cause) g = record {
    services = λ k s h. h;
    more = _;
    errors = refl;
  }

  -- The loop over the enabled services either is done or makes a call that returns.
  resolve_services-cons :
      (fuel : ℕ) (name : String) (names : List String) (g g' : ResolutionGraph)
      → resolve_services catalog cfg fuel (name ∷ names) g ≡ some g'
      → (r : Check Cause) × (after : ResolutionGraph) × (resolve_service catalog cfg fuel g name
          ≡ some (r, after))
        × (resolve_services catalog cfg fuel names (after_service catalog cfg name r after)
            ≡ some g')
  unfolding resolve_services
  resolve_services-cons fuel name names g g' e =
      split (resolve_service catalog cfg fuel g name) refl
    where
      split :
          (o : Option (Check Cause × ResolutionGraph))
          → resolve_service catalog cfg fuel g name ≡ o
          → (r : Check Cause) × (after : ResolutionGraph) × (resolve_service catalog cfg fuel g name
              ≡ some (r, after))
            × (resolve_services catalog cfg fuel names (after_service catalog cfg name r after)
                ≡ some g')
      split none h = let bad : none ≡ some g' = rw (h, resolve_services) at e in cc
      split (some (r, after)) h = (r, after, h, rw (h, resolve_services) at e)

  resolve_services-Extends :
      (fuel : ℕ) (names : List String) (g g' : ResolutionGraph)
      → resolve_services catalog cfg fuel names g ≡ some g'
      → Extends g g'
  unfolding resolve_services
  resolve_services-Extends fuel [] g g' e =
      let same : g ≡ g' = cc in subst (Extends g) same (Extends-refl g)
  resolve_services-Extends fuel (name ∷ names) g g' e =
      let (r, after, called, rest) = resolve_services-cons fuel name names g g' e in
      Extends-trans (resolve_service-Grows catalog cfg fuel g name r after called) (
        Extends-trans (after_service-Extends name r after)
          (resolve_services-Extends fuel names _ g' rest))

  pub resolve_services-NewClosed :
      (fuel : ℕ) (names : List String) (g g' : ResolutionGraph)
      → resolve_services catalog cfg fuel names g ≡ some g'
      → g'.errors ≡ []
      → NewClosed g g'
  unfolding resolve_services
  resolve_services-NewClosed fuel [] g g' e clean =
      let same : g ≡ g' = cc in unchanged g g' (ap (λ h. h.services) same)
  resolve_services-NewClosed fuel (name ∷ names) g g' e clean =
      let (r, after, called, rest) = resolve_services-cons fuel name names g g' e in
      let next = after_service catalog cfg name r after in
      let onwards = resolve_services-Extends fuel names next g' rest in
      let same = after_service_clean name r after (no_errors onwards clean) in
      let onwards' = subst (λ h. Extends h g') same onwards in
      NewClosed-trans g after g'
        (service_closed fuel g name r after called (no_errors onwards' clean))
        (subst (λ h. NewClosed h g') same
          (resolve_services-NewClosed fuel names next g' rest clean))
        onwards'
