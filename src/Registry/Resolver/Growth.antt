-- ===== src/Registry/Resolver/Growth.antt =====
-- Resolution only adds to the graph: a resolved service stays as it is, and no error is dropped.
use mathlib.Core.Path.{subst}
use mathlib.Core.List.{append_assoc, append-nil}
use sdbx.Base.{
  String, false, ◌≡◌, refl, sym, ap, ◌∙◌, List, [], ◌∷◌, ◌++◌, Option, none, some, ok, err, Check,
  eq_iff, arith, Bool-cases, inl, inr,
}
use sdbx.Base.Maps.{lookup, lookup-insert}
use sdbx.Config.{Config}
use sdbx.Registry.Types.{ServiceDefinition}
use sdbx.Registry.Types.Resolved.{
  ResolvedService, ResolutionError, ResolutionGraph, Cause, ValidationError,
}
use sdbx.Registry.Resolver.{
  Catalog, Call, is_resolved, after_dependency, resolve_dependencies, with_warnings,
  resolved_service, enter,
}

pub record Extends (g g' : ResolutionGraph) : Type 0 where
  pub services :
      (k : String) (s : ResolvedService)
      → lookup k g.services ≡ some s
      → lookup k g'.services ≡ some s
  pub more : List ResolutionError
  pub errors : g'.errors ≡ g.errors ++ more

pub Extends-refl : (g : ResolutionGraph) → Extends g g
Extends-refl g = record { services = λ k s h. h; more = []; errors = sym (append-nil g.errors) }

pub Extends-trans : {g h k : ResolutionGraph} → Extends g h → Extends h k → Extends g k
Extends-trans {g} {h} {k} a b = record {
  services = λ name s e. b.services name s (a.services name s e);
  more = a.more ++ b.more;
  errors = b.errors ∙ ap (λ es. es ++ b.more) a.errors ∙ append_assoc g.errors a.more b.more;
}

-- A call that only extends the graph, whenever it returns.
abbrev pub Grows : Call → Type 0
Grows call =
    (g : ResolutionGraph) (name : String) (r : Check Cause) (g' : ResolutionGraph)
    → call g name ≡ some (r, g')
    → Extends g g'

pub after_dependency-Extends :
    (service dep : String) (r : Check Cause) (g : ResolutionGraph)
    → Extends g (after_dependency service dep r g)
unfolding after_dependency
after_dependency-Extends service dep (err cause) g = record {
  services = λ k s h. h;
  more = _;
  errors = refl;
}
after_dependency-Extends service dep (ok _) g = elim (Bool-cases (is_resolved g dep)) [
  | inl e ↦ rw e (Extends-refl g)
  | inr e ↦ rw e (record { services = λ k s h. h; more = _; errors = refl })
]

-- The loop over the dependencies either is done or makes a call that returns.
pub resolve_dependencies-cons :
    (call : Call) (service dep : String) (deps : List String) (g g' : ResolutionGraph)
    → resolve_dependencies call service (dep ∷ deps) g ≡ some g'
    → (r : Check Cause) × (after : ResolutionGraph) × (call g dep ≡ some (r, after))
      × (resolve_dependencies call service deps (after_dependency service dep r after) ≡ some g')
unfolding resolve_dependencies
resolve_dependencies-cons call service dep deps g g' e = split (call g dep) refl
  where
    split :
        (o : Option (Check Cause × ResolutionGraph))
        → call g dep ≡ o
        → (r : Check Cause) × (after : ResolutionGraph) × (call g dep ≡ some (r, after))
          × (resolve_dependencies call service deps (after_dependency service dep r after)
              ≡ some g')
    split none h = let bad : none ≡ some g' = rw (h, resolve_dependencies) at e in cc
    split (some (r, after)) h = (r, after, h, rw (h, resolve_dependencies) at e)

pub resolve_dependencies-Extends :
    (call : Call)
    → Grows call
    → (service : String) (deps : List String) (g g' : ResolutionGraph)
    → resolve_dependencies call service deps g ≡ some g'
    → Extends g g'
unfolding resolve_dependencies
resolve_dependencies-Extends call grows service [] g g' e =
    let same : g ≡ g' = cc in subst (Extends g) same (Extends-refl g)
resolve_dependencies-Extends call grows service (dep ∷ deps) g g' e =
    let (r, after, called, rest) = resolve_dependencies-cons call service dep deps g g' e in
    Extends-trans (grows g dep r after called) (
      Extends-trans (after_dependency-Extends service dep r after)
        (resolve_dependencies-Extends call grows service deps _ g' rest))

pub with_warnings-Extends :
    (name : String) (es : List ValidationError) (g : ResolutionGraph)
    → Extends g (with_warnings name es g)
unfolding with_warnings
with_warnings-Extends name es g = record {
  services = λ k s h. h;
  more = [];
  errors = sym (append-nil g.errors);
}

module _ (catalog : Catalog) (cfg : Config) where
  pub enter-Extends :
      (name : String) (def : ServiceDefinition) (source : String) (g : ResolutionGraph)
      → is_resolved g name ≡ false
      → Extends g (enter catalog cfg name def source g)
  unfolding enter
  enter-Extends name def source g h = record {
    services = λ k s e.
        rw (lookup-insert name k (resolved_service catalog cfg name def source) g.services)
          (ground (arith, eq_iff name k, ap (λ n. lookup n g.services) {x = name} {y = k}));
    more = [];
    errors = sym (append-nil g.errors);
  }
