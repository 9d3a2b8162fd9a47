-- ===== src/Registry/Sources/Confined.antt =====
-- internal/registry/registry.go with resolver.go: what the trust of its source allows a service of a
-- resolved graph.
use mathlib.Core.Path.{subst}
use sdbx.Base.{
  ℕ, ◌≤◌, String, List, [], ◌∷◌, some, ok, ◌≡◌, refl, sym, ap, ◌∙◌, inl, inr, arith, eq_refl,
}
use sdbx.Base.Maps.{lookup}
use sdbx.Config.{Config}
use sdbx.Registry.Types.{ServiceDefinition}
use sdbx.Registry.Types.Resolved.{ResolutionGraph, ResolvedService}
use sdbx.Registry.Resolver.{resolve, has_errors, resolved_service}
use sdbx.Registry.Resolver.Invariants.{IsJustified}
use sdbx.Registry.Resolver.Complete.{resolve-IsComplete}
use sdbx.Registry.Validator.Container.{Library}
use sdbx.Registry.Validator.Trust.{validate_with_trust_level}
use sdbx.Registry.Validator.Granted.{IsTrusted, validate_with_trust_level-IsTrusted}
use sdbx.Registry.Sources.{SourceProvider}
use sdbx.Registry.Sources.Managed.{Outside, get_source}
use sdbx.Registry.Sources.Lookup.{validate_for_source}
use sdbx.Registry.Sources.Listing.{catalog_of}
use sdbx.Registry.Sources.Order.{named, Holds}
use sdbx.Registry.Sources.Reachable.{IsReachable, IsReachable-IsRegistry}
use sdbx.Registry.Sources.Supplied.{IsFirst, IsFirst-Holds, get_service-IsSupplied}

Holds-named :
    (src : SourceProvider) (ts : List SourceProvider) → Holds src ts → 1 ≤ named src.name ts
Holds-named src [] h = absurd h
Holds-named src (t ∷ ts) (inl same) =
    subst (λ x. 1 ≤ named x.name (t ∷ ts)) same (rw (eq_refl t.name) (omega arith))
Holds-named src (t ∷ ts) (inr h) = omega (arith, Holds-named src ts h)

-- The first source of a name, where no two sources share one.
get_source_unique :
    (src : SourceProvider) (ts : List SourceProvider)
    → Holds src ts
    → named src.name ts ≤ 1
    → get_source src.name ts ≡ ok src
unfolding get_source
get_source_unique src [] h once = absurd h
get_source_unique src (t ∷ ts) (inl same) once =
    subst (λ x. get_source x.name (t ∷ ts) ≡ ok x) same (rw (eq_refl t.name) refl)
get_source_unique src (t ∷ ts) (inr h) once =
    ground (arith, Holds-named src ts h, get_source_unique src ts h)

validate_for_source-eq :
    (lib : Library) (def : ServiceDefinition) (name : String) (src : SourceProvider)
    (sources : List SourceProvider)
    → get_source name sources ≡ ok src
    → validate_for_source sources lib def name ≡ validate_with_trust_level lib def src.trust_level
unfolding validate_for_source
validate_for_source-eq lib def name src sources h = rw (h, validate_for_source) refl

-- What the registry guarantees of a service of a resolved graph.
pub record IsConfined (lib : Library) (sources : List SourceProvider) (name : String)
    (s : ResolvedService) : Type 0 where
  pub provider : SourceProvider
  pub provider_name : provider.name ≡ s.source
  pub first : IsFirst name s.definition provider sources
  pub identity : s.definition.metadata.name ≡ name
  pub trusted : IsTrusted lib s.definition provider.trust_level

module _ (outside : Outside) (lib : Library) (calculate_hash : ServiceDefinition → String)
    (sources : List SourceProvider) (cfg : Config) where
  justified-IsConfined :
      IsReachable outside sources
      → (name : String) (s : ResolvedService)
      → IsJustified (catalog_of lib sources calculate_hash) cfg name s
      → IsConfined lib sources name s
  unfolding resolved_service
  justified-IsConfined reached name s j =
      let registry = IsReachable-IsRegistry outside sources reached in
      let it = get_service-IsSupplied sources name j.def j.source j.loaded in
      let held = IsFirst-Holds name j.def it.provider sources it.first in
      let provider =
        subst (λ x. get_source x sources ≡ ok it.provider) it.provider_name
          (get_source_unique it.provider sources held (registry.unique it.provider.name)) in
      let checked = validate_for_source-eq lib j.def j.source it.provider sources provider in
      subst (IsConfined lib sources name) (sym j.entry) (record {
        provider = it.provider;
        provider_name = it.provider_name;
        first = it.first;
        identity = it.identity;
        trusted =
            validate_with_trust_level-IsTrusted lib j.def it.provider.trust_level
              (sym (ap has_errors checked) ∙ j.valid);
      })

  -- If `Resolve` returns a graph that records no error, on a registry that the program reaches, then
  -- each service of the graph comes from the first enabled source that has it, under the name of its
  -- definition, and what it may do is within the trust of that source: each permission that it needs
  -- is granted, its image is from an allowed registry, and it does not mount the Docker socket
  -- under the path that the validator knows.
  pub resolve-IsConfined :
      IsReachable outside sources
      → (fuel : ℕ) (g : ResolutionGraph)
      → resolve (catalog_of lib sources calculate_hash) cfg fuel ≡ some (ok g)
      → g.errors ≡ []
      → (name : String) (s : ResolvedService) → lookup name g.services ≡ some s
      → IsConfined lib sources name s
  resolve-IsConfined reached fuel g run clean name s found_it =
      justified-IsConfined reached name s (
        (resolve-IsComplete (catalog_of lib sources calculate_hash) cfg fuel g run clean).justified
          name s found_it)
