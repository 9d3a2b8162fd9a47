-- ===== src/Registry/Resolver/Outcome.antt =====
-- How a call of `resolveService` can go, and that every call only extends the graph.
use sdbx.Registry.Conditions.{matches_activation_conditions}
use mathlib.Core.Path.{subst}
use sdbx.Base.{
  ℕ, zero, suc, String, true, false, ◌≡◌, refl, ap, ◌∙◌, List, Option, none, some, Result, ok, err,
  Check, fine, Bool-cases, inl, inr,
}
use sdbx.Config.{Config}
use sdbx.Registry.Types.{ServiceDefinition}
use sdbx.Registry.Types.Resolved.{ResolutionGraph, Cause, ValidationError}
use sdbx.Registry.Resolver.{
  Catalog, is_resolved, resolve_dependencies, with_warnings, enter, resolve_loaded, resolve_service,
  has_errors, collect_dependencies, finish,
}
use sdbx.Registry.Resolver.Growth.{
  Extends, Extends-refl, Extends-trans, Grows, resolve_dependencies-Extends, with_warnings-Extends,
  enter-Extends,
}

pair-eq :
    {A B : Type 0} {a c : A} {b d : B}
    → ◌≡◌ {A = Option (A × B)} (some (a, b)) (some (c, d))
    → (c ≡ a) × (b ≡ d)
pair-eq e = (cc, cc)

module _ (catalog : Catalog) (cfg : Config) where
  -- How a call of `resolveService` that returned went.
  pub data Outcome (fuel : ℕ) (g : ResolutionGraph) (name : String) (r : Check Cause)
      (g' : ResolutionGraph) : Type 0 where
    known : is_resolved g name ≡ true → r ≡ fine → g ≡ g' → Outcome fuel g name r g'
    failed : (cause : Cause) → r ≡ err cause → g ≡ g' → Outcome fuel g name r g'
    inactive : is_resolved g name ≡ false → r ≡ fine → g ≡ g' → Outcome fuel g name r g'
    rejected :
        (cause : Cause) (es : List ValidationError)
        → r ≡ err cause
        → with_warnings name es g ≡ g'
        → Outcome fuel g name r g'
    entered :
        (def : ServiceDefinition) (source : String)
        → is_resolved g name ≡ false
        → catalog.get_service name ≡ ok (def, source)
        → matches_activation_conditions def.conditions (some cfg) ≡ true
        → has_errors (catalog.validate_for_source def source) ≡ false
        → r ≡ fine
        → resolve_dependencies
            (resolve_service catalog cfg fuel)
            name
            (collect_dependencies def cfg)
            (enter catalog cfg name def source
              (with_warnings name (catalog.validate_for_source def source) g))
          ≡ some g'
        → Outcome fuel g name r g'

  module _ (fuel : ℕ) (g : ResolutionGraph) (name : String) (r : Check Cause) (g' : ResolutionGraph)
      (fresh : is_resolved g name ≡ false) where
    finished :
        (def : ServiceDefinition) (source : String)
        → catalog.get_service name ≡ ok (def, source)
        → matches_activation_conditions def.conditions (some cfg) ≡ true
        → has_errors (catalog.validate_for_source def source) ≡ false
        → (o : Option ResolutionGraph)
        → resolve_dependencies
            (resolve_service catalog cfg fuel)
            name
            (collect_dependencies def cfg)
            (enter catalog cfg name def source
              (with_warnings name (catalog.validate_for_source def source) g))
          ≡ o
        → finish catalog cfg o ≡ some (r, g')
        → Outcome fuel g name r g'
    finished def source got active valid none h e = cc
    finished def source got active valid (some k) h e =
        let same : k ≡ g' = cc in entered def source fresh got active valid (cc) (h ∙ ap some same)

    loaded :
        (def : ServiceDefinition) (source : String)
        → catalog.get_service name ≡ ok (def, source)
        → resolve_loaded catalog cfg (resolve_service catalog cfg fuel) name def source g
          ≡ some (r, g')
        → Outcome fuel g name r g'
    unfolding resolve_loaded
    loaded def source got e =
        elim (Bool-cases (matches_activation_conditions def.conditions (some cfg))) [
          | inr off ↦ let (same_r, same_g) = pair-eq (rw off at e) in inactive fresh same_r same_g
          | inl on ↦ elim (Bool-cases (has_errors (catalog.validate_for_source def source))) [
            | inl bad ↦
                let (same_r, same_g) = pair-eq (rw (on, bad) at e) in
                rejected _ (catalog.validate_for_source def source) same_r same_g
            | inr good ↦ finished def source got on good _ refl (rw (on, good) at e)
          ]
        ]

    fetched :
        (found : Result Cause (ServiceDefinition × String))
        → catalog.get_service name ≡ found
        → resolve_service catalog cfg (suc fuel) g name ≡ some (r, g')
        → Outcome fuel g name r g'
    unfolding resolve_service
    fetched (err cause) got e =
        let (same_r, same_g) = pair-eq (rw (fresh, got, resolve_service) at e) in
        failed cause same_r same_g
    fetched (ok (def, source)) got e = loaded def source got (rw (fresh, got, resolve_service) at e)

  pub resolve_service-Outcome :
      (fuel : ℕ) (g : ResolutionGraph) (name : String) (r : Check Cause) (g' : ResolutionGraph)
      → resolve_service catalog cfg (suc fuel) g name ≡ some (r, g')
      → Outcome fuel g name r g'
  unfolding resolve_service
  resolve_service-Outcome fuel g name r g' e = elim (Bool-cases (is_resolved g name)) [
    | inl old ↦ let (same_r, same_g) = pair-eq (rw old at e) in known old same_r same_g
    | inr new ↦ fetched fuel g name r g' new (catalog.get_service name) refl e
  ]

  -- Every call only extends the graph.
  pub resolve_service-Grows : (fuel : ℕ) → Grows (resolve_service catalog cfg fuel)
  unfolding resolve_service with_warnings
  resolve_service-Grows zero g name r g' e = cc
  resolve_service-Grows (suc fuel) g name r g' e =
      elim (resolve_service-Outcome fuel g name r g' e) [
        | known _ _ same ↦ subst (Extends g) same (Extends-refl g)
        | failed _ _ same ↦ subst (Extends g) same (Extends-refl g)
        | inactive _ _ same ↦ subst (Extends g) same (Extends-refl g)
        | rejected _ es _ same ↦ subst (Extends g) same (with_warnings-Extends name es g)
        | entered def source new _ _ _ _ deps ↦
            let es = catalog.validate_for_source def source in
            Extends-trans (with_warnings-Extends name es g) (
              Extends-trans
                (enter-Extends catalog cfg name def source (with_warnings name es g) new)
                (resolve_dependencies-Extends (resolve_service catalog cfg fuel)
                  (resolve_service-Grows fuel) name (collect_dependencies def cfg)
                  (enter catalog cfg name def source (with_warnings name es g)) g' deps))
      ]
