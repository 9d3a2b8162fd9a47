-- ===== src/Registry/Resolver/Invariants.antt =====
-- What holds of the graph through all of resolution: each service is entered once, under its name,
-- from a definition that the configuration activates and that passes validation.
use sdbx.Base.{
  ℕ, zero, suc, ◌+◌, String, true, false, ◌≡◌, refl, sym, ap, ◌∙◌, ◌==◌, List, [], ◌∷◌, Option,
  none, some, ok, err, Check, eq_iff, arith, Bool-cases, eq-cases, inl, inr, if◌then◌else◌,
}
use mathlib.Core.Path.{subst}
use sdbx.Base.Maps.{Map, lookup, insert, keys, has, lookup-insert}
use sdbx.Base.Order.{count}
use sdbx.Config.{Config}
use sdbx.Registry.Types.{ServiceDefinition}
use sdbx.Registry.Types.Resolved.{
  ResolvedService, ResolutionError, ResolutionGraph, Cause, ValidationError,
}
use sdbx.Registry.Conditions.{matches_activation_conditions}
use sdbx.Registry.TopologicalSort.Counting.{has-count}
use sdbx.Registry.TopologicalSort.Rounds.{IsMap}
use sdbx.Registry.Resolver.{
  Catalog, Call, is_resolved, add_error, after_dependency, resolve_dependencies, with_warnings,
  resolved_service, enter, resolve_service, has_errors, collect_dependencies, resolve_services,
  after_service,
}
use sdbx.Registry.Resolver.Growth.{resolve_dependencies-cons}
use sdbx.Registry.Resolver.Outcome.{
  known, failed, inactive, rejected, entered, resolve_service-Outcome,
}

-- What a property of graphs has to survive.
pub record Rule (catalog : Catalog) (cfg : Config) (P : ResolutionGraph → Type 0) : Type 0 where
  pub warned :
      (name : String) (es : List ValidationError) (g : ResolutionGraph)
      → P g
      → P (with_warnings name es g)
  pub added :
      (name : String) (def : ServiceDefinition) (source : String) (g : ResolutionGraph)
      → is_resolved g name ≡ false
      → catalog.get_service name ≡ ok (def, source)
      → matches_activation_conditions def.conditions (some cfg) ≡ true
      → has_errors (catalog.validate_for_source def source) ≡ false
      → P g
      → P (enter catalog cfg name def source g)
  pub failed : (e : ResolutionError) (g : ResolutionGraph) → P g → P (add_error e g)

module _ (catalog : Catalog) (cfg : Config) (P : ResolutionGraph → Type 0)
    (rule : Rule catalog cfg P) where
  after_dependency_inv :
      (service dep : String) (r : Check Cause) (g : ResolutionGraph)
      → P g
      → P (after_dependency service dep r g)
  unfolding after_dependency
  after_dependency_inv service dep (err cause) g p = rule.failed _ g p
  after_dependency_inv service dep (ok _) g p = elim (Bool-cases (is_resolved g dep)) [
    | inl e ↦ rw e p
    | inr e ↦ rw e (rule.failed _ g p)
  ]

  abbrev Keeps : Call → Type 0
  Keeps call =
      (g : ResolutionGraph) (name : String) (r : Check Cause) (g' : ResolutionGraph)
      → call g name ≡ some (r, g')
      → P g
      → P g'

  dependencies_inv :
      (call : Call)
      → Keeps call
      → (service : String) (deps : List String) (g g' : ResolutionGraph)
      → resolve_dependencies call service deps g ≡ some g'
      → P g
      → P g'
  unfolding resolve_dependencies
  dependencies_inv call keeps service [] g g' e p = let same : g ≡ g' = cc in subst P same p
  dependencies_inv call keeps service (dep ∷ deps) g g' e p =
      let (r, after, called, rest) = resolve_dependencies-cons call service dep deps g g' e in
      dependencies_inv call keeps service deps _ g' rest
        (after_dependency_inv service dep r after (keeps g dep r after called p))

  service_inv : (fuel : ℕ) → Keeps (resolve_service catalog cfg fuel)
  unfolding resolve_service
  service_inv zero g name r g' e p = cc
  service_inv (suc fuel) g name r g' e p =
      elim (resolve_service-Outcome catalog cfg fuel g name r g' e) [
        | known _ _ same ↦ subst P same p
        | failed _ _ same ↦ subst P same p
        | inactive _ _ same ↦ subst P same p
        | rejected _ es _ same ↦ subst P same (rule.warned name es g p)
        | entered def source new got active valid _ deps ↦
            let es = catalog.validate_for_source def source in
            dependencies_inv (resolve_service catalog cfg fuel) (service_inv fuel) name
              (collect_dependencies def cfg)
              (enter catalog cfg name def source (with_warnings name es g)) g' deps
              (rule.added name def source (with_warnings name es g) (unfold with_warnings in new)
                got active valid (rule.warned name es g p))
      ]

  after_service_inv :
      (name : String) (r : Check Cause) (g : ResolutionGraph)
      → P g
      → P (after_service catalog cfg name r g)
  after_service_inv name (ok _) g p = p
  after_service_inv name (err cause) g p = rule.failed _ g p

  pub resolve_services_inv :
      (fuel : ℕ) (names : List String) (g g' : ResolutionGraph)
      → resolve_services catalog cfg fuel names g ≡ some g'
      → P g
      → P g'
  unfolding resolve_services
  resolve_services_inv fuel [] g g' e p = let same : g ≡ g' = cc in subst P same p
  resolve_services_inv fuel (name ∷ names) g g' e p =
      step (resolve_service catalog cfg fuel g name) refl (resolve_services_inv fuel names)
    where
      step :
          (o : Option (Check Cause × ResolutionGraph))
          → resolve_service catalog cfg fuel g name ≡ o
          → ((h h' : ResolutionGraph)
              → resolve_services catalog cfg fuel names h ≡ some h'
              → P h
              → P h')
          → P g'
      step none h rec = let bad : none ≡ some g' = rw (h, resolve_services) at e in cc
      step (some (r, after)) h rec =
          rec (after_service catalog cfg name r after) g' (rw (h, resolve_services) at e)
            (after_service_inv name r after (service_inv fuel g name r after h p))

-- A service of the graph, and where it came from.
pub record IsJustified (catalog : Catalog) (cfg : Config) (name : String) (s : ResolvedService)
    : Type 0 where
  pub def : ServiceDefinition
  pub source : String
  pub loaded : catalog.get_service name ≡ ok (def, source)
  pub active : matches_activation_conditions def.conditions (some cfg) ≡ true
  pub valid : has_errors (catalog.validate_for_source def source) ≡ false
  pub entry : s ≡ resolved_service catalog cfg name def source

abbrev pub AllJustified : Catalog → Config → ResolutionGraph → Type 0
AllJustified catalog cfg g =
    (name : String) (s : ResolvedService)
    → lookup name g.services ≡ some s
    → IsJustified catalog cfg name s

count-keys-insert {ℓ} :
    {V : Type ℓ} (k name : String) (v : V) (m : Map V)
    → count k (keys (insert name v m))
      ≡ count k (keys m) + (if has name m then 0 else if name == k then 1 else 0)
unfolding insert lookup
count-keys-insert k name v [] = ground arith
count-keys-insert k name v ((j, w) ∷ m) =
    ground (arith, count-keys-insert k name v m, eq_iff j name, eq_iff j k, eq_iff name k)

pub IsMap-rule : (catalog : Catalog) (cfg : Config) → Rule catalog cfg (λ g. IsMap g.services)
unfolding with_warnings enter
IsMap-rule catalog cfg = record {
  warned = λ name es g p. p;
  added = λ name def source g new got active valid p k.
      rw (count-keys-insert k name (resolved_service catalog cfg name def source) g.services) (
        ground (
          arith,
          p k,
          has-count name g.services,
          eq_iff name k,
          ap (λ z. count z (keys g.services)) {x = name} {y = k},
        ));
  failed = λ e g p. p;
}

pub lookup-enter :
    (catalog : Catalog) (cfg : Config) (name : String) (def : ServiceDefinition) (source : String)
    (g : ResolutionGraph) (k : String)
    → lookup k (enter catalog cfg name def source g).services ≡ (
        if name == k
        then some (resolved_service catalog cfg name def source)
        else lookup k g.services)
unfolding enter
lookup-enter catalog cfg name def source g k =
    lookup-insert name k (resolved_service catalog cfg name def source) g.services

pub AllJustified-rule :
    (catalog : Catalog) (cfg : Config) → Rule catalog cfg (AllJustified catalog cfg)
unfolding with_warnings
AllJustified-rule catalog cfg = record {
  warned = λ name es g p. p;
  added = λ name def source g new got active valid p k s e. elim (eq-cases name k) [
    | inl (same, t) ↦ record {
      def = def;
      source = source;
      loaded = rw (← same) got;
      active = active;
      valid = valid;
      entry = cc (
        rw t at (sym (lookup-enter catalog cfg name def source g k) ∙ e),
        ap (λ z. resolved_service catalog cfg z def source) same,
      );
    }
    | inr (other, t) ↦ p k s (rw t at (sym (lookup-enter catalog cfg name def source g k) ∙ e))
  ];
  failed = λ e g p. p;
}
