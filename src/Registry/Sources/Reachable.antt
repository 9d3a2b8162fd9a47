-- ===== src/Registry/Sources/Reachable.antt =====
-- internal/registry/registry.go: the registries that the program can reach.
use mathlib.Core.Path.{subst}
use sdbx.Base.{
  ok-injective, err-ne-ok, ℕ, ◌+◌, ◌≤◌, String, ◌==◌, List, [], ◌∷◌, ◌++◌, ok, if◌then◌else◌, ◌≡◌,
  refl, ◌⊎◌, inl, inr, All, All-append, arith, eq_iff, Bool-cases, >>-eq-ok, >>=-eq-ok,
  Result-cases,
}
use sdbx.Config.{contains}
use sdbx.Registry.Sources.{Source, SourceProvider}
use sdbx.Registry.Sources.Configuration.{
  validate_source_config, validate_configured_sources, validate_names,
}
use sdbx.Registry.Sources.Order.{named, named-append, Holds-snoc}
use sdbx.Registry.Sources.Managed.{
  Outside, embedded_source, create_source_provider, create_enabled, new_registry, add_source,
  remove_source, parse_source_cache_ttl,
}
use sdbx.Registry.Sources.WellFormed.{
  IsProvider, IsRegistry, sort_by_priority-IsRegistry, create_source_provider-name,
  add_source-IsRegistry, remove_source-IsRegistry,
}

-- The configured sources of a name.
abbrev configured_as : String → List Source → ℕ
configured_as name [] = 0
configured_as name (s ∷ ss) = (if s.name == name then 1 else 0) + configured_as name ss

module _ (outside : Outside) where
  validate_names-once :
      (seen : List String) (ss : List Source)
      → validate_names outside.parse_url seen ss ≡ ok tt
      → (name : String) → configured_as name ss ≤ (if contains seen name then 0 else 1)
  unfolding validate_names contains
  validate_names-once seen [] h name = omega arith
  validate_names-once seen (s ∷ ss) h name = elim (Bool-cases (contains seen s.name)) [
    | inl taken ↦ absurd (err-ne-ok (rw taken at h))
    | inr free ↦ elim (Result-cases (validate_source_config outside.parse_url s)) [
      | inl (_, good) ↦ ground (
        arith,
        validate_names-once (s.name ∷ seen) ss (rw (free, good) at h) name,
        eq_iff s.name name,
        eq_iff name s.name,
      )
      | inr (reason, wrong) ↦ absurd (err-ne-ok (rw (free, wrong) at h))
    ]
  ]

  -- The first source is left out, or its provider stands before the others.
  create_enabled-step :
      (s : Source) (ss : List Source) (providers : List SourceProvider)
      → create_enabled outside (s ∷ ss) ≡ ok providers
      → (create_enabled outside ss ≡ ok providers)
        ⊎ ((p : SourceProvider) × (kept : List SourceProvider) × (create_source_provider outside s
              ≡ ok p)
            × (create_enabled outside ss ≡ ok kept)
            × ((p ∷ kept) ≡ providers))
  unfolding create_enabled
  create_enabled-step s ss providers h = elim (Bool-cases s.enabled) [
    | inr off ↦ inl (rw off at h)
    | inl on ↦ elim (Result-cases (create_source_provider outside s)) [
      | inl (p, made) ↦
          let (kept, rest, same) = >>=-eq-ok (create_enabled outside ss) _ (rw (made, on) at h) in
          inr (p, kept, made, rest, ok-injective same)
      | inr (reason, wrong) ↦ absurd (err-ne-ok (rw (wrong, on) at h))
    ]
  ]

  named_first :
      (p : SourceProvider) (s : Source) (kept : List SourceProvider) (ss : List Source)
      (name : String)
      → p.name ≡ s.name
      → named name kept ≤ configured_as name ss
      → named name (p ∷ kept) ≤ configured_as name (s ∷ ss)
  named_first p s kept ss name same fewer = rw same (omega arith)

  create_enabled-named :
      (ss : List Source) (providers : List SourceProvider)
      → create_enabled outside ss ≡ ok providers
      → (name : String) → named name providers ≤ configured_as name ss
  unfolding create_enabled
  create_enabled-named [] providers h name =
      subst (λ p. named name p ≤ 0) (ok-injective h) (omega arith)
  create_enabled-named (s ∷ ss) providers h name = elim (create_enabled-step s ss providers h) [
    | inl rest ↦ omega (arith, create_enabled-named ss providers rest name)
    | inr (p, kept, made, rest, same) ↦
        subst (λ x. named name x ≤ configured_as name (s ∷ ss)) same
          (named_first p s kept ss name (create_source_provider-name outside s p made)
            (create_enabled-named ss kept rest name))
  ]

  create_enabled-All :
      (ss : List Source) (providers : List SourceProvider)
      → create_enabled outside ss ≡ ok providers
      → All (IsProvider outside) providers
  unfolding create_enabled
  create_enabled-All [] providers h = subst (All (IsProvider outside)) (ok-injective h) tt
  create_enabled-All (s ∷ ss) providers h = elim (create_enabled-step s ss providers h) [
    | inl rest ↦ create_enabled-All ss providers rest
    | inr (p, kept, made, rest, same) ↦
        subst (All (IsProvider outside)) same (inr (s, made), create_enabled-All ss kept rest)
  ]

  enabled_once :
      (configured : List Source) (providers : List SourceProvider) (name : String)
      → configured_as name configured ≤ (if contains ("embedded" ∷ []) name then 0 else 1)
      → named name providers ≤ configured_as name configured
      → named name (providers ++ (embedded_source outside ∷ [])) ≤ 1
  unfolding contains
  enabled_once configured providers name once fewer = ground (
    arith,
    named-append name providers (embedded_source outside ∷ []),
    eq_iff "embedded" name,
    eq_iff name "embedded",
  )

  -- `New` returns a registry in order.
  new_registry-IsRegistry :
      (ttl : String) (configured : List Source) (sources : List SourceProvider)
      → new_registry outside ttl configured ≡ ok sources
      → IsRegistry outside sources
  unfolding new_registry validate_configured_sources
  new_registry-IsRegistry ttl configured sources h =
      let (_, _, checked) = >>=-eq-ok (parse_source_cache_ttl outside ttl) _ h in
      let (valid, made) =
        >>-eq-ok (validate_configured_sources outside.parse_url configured) _ checked in
      let (providers, created, same) = >>=-eq-ok (create_enabled outside configured) _ made in
      subst (IsRegistry outside) (ok-injective same) (
        sort_by_priority-IsRegistry outside (providers ++ (embedded_source outside ∷ []))
          (λ name.
            enabled_once configured providers name
              (validate_names-once ("embedded" ∷ []) configured valid name)
              (create_enabled-named configured providers created name))
          (Holds-snoc (embedded_source outside) (embedded_source outside) providers (inr refl))
          (All-append (IsProvider outside) providers (embedded_source outside ∷ [])
            (create_enabled-All configured providers created) (inl refl, tt)))

-- What changes the sources of a registry.
pub data Step (outside : Outside) : List SourceProvider → List SourceProvider → Type 0 where
  added :
      (src : Source) {before after : List SourceProvider}
      → add_source outside src before ≡ ok after
      → Step outside before after
  removed :
      (name : String) {before after : List SourceProvider}
      → remove_source name before ≡ ok after
      → Step outside before after

-- The registries that `New` and any number of changes lead to.
pub data IsReachable (outside : Outside) : List SourceProvider → Type 0 where
  created :
      (ttl : String) (configured : List Source) {sources : List SourceProvider}
      → new_registry outside ttl configured ≡ ok sources
      → IsReachable outside sources
  changed :
      {before after : List SourceProvider}
      → IsReachable outside before
      → Step outside before after
      → IsReachable outside after

-- Every registry that `New` returns, and every one that `AddSource` and `RemoveSource` make of it,
-- holds the embedded catalog, each source name once, and no source behind one of lower priority; each
-- other source was created from a configuration that `ValidateSourceConfig` accepts.
pub IsReachable-IsRegistry :
    (outside : Outside) (sources : List SourceProvider)
    → IsReachable outside sources
    → IsRegistry outside sources
IsReachable-IsRegistry outside sources (created ttl configured h) =
    new_registry-IsRegistry outside ttl configured sources h
IsReachable-IsRegistry outside sources (changed {before} {after} reached (added src h)) =
    add_source-IsRegistry outside src before after (IsReachable-IsRegistry outside before reached) h
IsReachable-IsRegistry outside sources (changed {before} {after} reached (removed name h)) =
    remove_source-IsRegistry outside name before after
      (IsReachable-IsRegistry outside before reached) h
