-- ===== src/Registry/Sources/WellFormed.antt =====
-- internal/registry/registry.go: what every registry keeps, from `New` through `AddSource` and
-- `RemoveSource`.
use sdbx.Base.{
  ok-injective, err-ne-ok, ◌≤◌, String, false, ◌==◌, List, [], ◌∷◌, ◌++◌, ok, ◌≡◌, refl, sym, ap,
  ◌⊎◌, inl, inr, All, All-append, arith, eq_iff, eq-cases, Bool-cases, >>-eq-ok, >>=-eq-ok,
}
use mathlib.Core.Path.{subst}
use sdbx.Base.Int.{gt}
use sdbx.Registry.Sources.{Source, SourceProvider}
use sdbx.Registry.Sources.Configuration.{validate_source_config}
use sdbx.Registry.Sources.Order.{
  named, IsSorted, Holds, named-append, named-sort_onto, Holds-sort_onto, Holds-snoc, All-sort_onto,
  IsSorted-sort_onto,
}
use sdbx.Registry.Sources.Managed.{
  Outside, sort_by_priority, has_name, remove_source, embedded_source, create_source_provider,
  add_source,
}

-- The embedded catalog, or a source that passed `ValidateSourceConfig`, with its own trust.
abbrev pub IsProvider : Outside → SourceProvider → Type 0
IsProvider outside s =
    (s ≡ embedded_source outside) ⊎ ((src : Source) × (create_source_provider outside src ≡ ok s))

-- The sources of a registry: each name once, the embedded catalog among them, none behind one of
-- lower priority, and each of them created from a valid configuration.
pub record IsRegistry (outside : Outside) (sources : List SourceProvider) : Type 0 where
  pub unique : (name : String) → named name sources ≤ 1
  pub catalog : Holds (embedded_source outside) sources
  pub sorted : IsSorted sources
  pub created : All (IsProvider outside) sources

module _ (outside : Outside) where
  -- The sort of a list of providers, each of its own name, with the catalog among them.
  pub sort_by_priority-IsRegistry :
      (ss : List SourceProvider)
      → ((name : String) → named name ss ≤ 1)
      → Holds (embedded_source outside) ss
      → All (IsProvider outside) ss
      → IsRegistry outside (sort_by_priority ss)
  unfolding sort_by_priority
  sort_by_priority-IsRegistry ss unique catalog created = record {
    unique =
        λ name. omega (arith, named-sort_onto (embedded_source outside) name [] ss, unique name);
    catalog = Holds-sort_onto (embedded_source outside) [] ss (inr catalog);
    sorted = IsSorted-sort_onto [] ss tt;
    created = All-sort_onto (IsProvider outside) [] ss tt created;
  }

  pub create_source_provider-name :
      (src : Source) (s : SourceProvider)
      → create_source_provider outside src ≡ ok s
      → s.name ≡ src.name
  unfolding create_source_provider
  create_source_provider-name src s h =
      let (_, made) = >>-eq-ok (validate_source_config outside.parse_url src) _ h in
      elim (eq-cases src.source_type "local") [
        | inl (_, t) ↦ sym (ap (λ p. p.name) (ok-injective (rw t at made)))
        | inr (_, t) ↦ elim (eq-cases src.source_type "git") [
          | inl (_, u) ↦ sym (ap (λ p. p.name) (ok-injective (rw (t, u) at made)))
          | inr (_, u) ↦ absurd (err-ne-ok (rw (t, u) at made))
        ]
      ]

  has_name-named :
      (name : String) (ss : List SourceProvider) → has_name name ss ≡ false → named name ss ≡ 0
  unfolding has_name
  has_name-named name [] h = refl
  has_name-named name (s ∷ ss) h = ground (arith, has_name-named name ss)

  -- `AddSource` keeps the invariant.
  pub add_source-IsRegistry :
      (src : Source) (before after : List SourceProvider)
      → IsRegistry outside before
      → add_source outside src before ≡ ok after
      → IsRegistry outside after
  unfolding add_source
  add_source-IsRegistry src before after it h = elim (Bool-cases (has_name src.name before)) [
    | inl taken ↦ absurd (err-ne-ok (rw taken at h))
    | inr free ↦
        let (s, made, same) = >>=-eq-ok (create_source_provider outside src) _ (rw free at h) in
        subst (IsRegistry outside) (ok-injective same) (
          sort_by_priority-IsRegistry (before ++ (s ∷ []))
            (λ name. ground (
              arith,
              it.unique name,
              named-append name before (s ∷ []),
              has_name-named src.name before free,
              create_source_provider-name src s made,
              eq_iff s.name name,
            ))
            (Holds-snoc (embedded_source outside) s before (inl it.catalog))
            (All-append (IsProvider outside) before (s ∷ []) it.created (inr (src, made), tt)))
  ]

-- What `RemoveSource` does when it succeeds.
pub data Removed (name : String) : List SourceProvider → List SourceProvider → Type 0 where
  here :
      (s : SourceProvider) (ss : List SourceProvider)
      → s.name ≡ name
      → (s.source_type == "embedded") ≡ false
      → Removed name (s ∷ ss) ss
  there :
      (s : SourceProvider) {ss ts : List SourceProvider}
      → Removed name ss ts
      → Removed name (s ∷ ss) (s ∷ ts)

remove_source-Removed :
    (name : String) (before after : List SourceProvider)
    → remove_source name before ≡ ok after
    → Removed name before after
unfolding remove_source
remove_source-Removed name [] after h = cc
remove_source-Removed name (s ∷ ss) after h = elim (eq-cases s.name name) [
  | inl (same, t) ↦ elim (Bool-cases (s.source_type == "embedded")) [
    | inl built_in ↦ absurd (err-ne-ok (rw (t, built_in) at h))
    | inr other ↦
        subst (Removed name (s ∷ ss)) (ok-injective (rw (t, other) at h)) (here s ss same other)
  ]
  | inr (other, t) ↦
      let (kept, made, same) = >>=-eq-ok (remove_source name ss) _ (rw t at h) in
      subst (Removed name (s ∷ ss)) (ok-injective same)
        (there s (remove_source-Removed name ss kept made))
]

pub Removed-All {ℓ} :
    (P : SourceProvider → Type ℓ) {name : String} {before after : List SourceProvider}
    → Removed name before after
    → All P before
    → All P after
Removed-All P (here s ss same other) h = h.1
Removed-All P (there s r) h = (h.0, Removed-All P r h.1)

pub Removed-named :
    {name : String} {before after : List SourceProvider}
    → Removed name before after
    → (x : String) → named x after ≤ named x before
Removed-named (here s ss same other) x = omega arith
Removed-named (there s r) x = omega (arith, Removed-named r x)

Removed-IsSorted :
    {name : String} {before after : List SourceProvider}
    → Removed name before after
    → IsSorted before
    → IsSorted after
Removed-IsSorted (here s ss same other) h = h.1
Removed-IsSorted (there s r) h =
    (Removed-All (λ t. gt t.priority s.priority ≡ false) r h.0, Removed-IsSorted r h.1)

module _ (outside : Outside) where
  Removed-Holds :
      {name : String} {before after : List SourceProvider}
      → Removed name before after
      → Holds (embedded_source outside) before
      → Holds (embedded_source outside) after
  Removed-Holds (here s ss same other) (inl built_in) =
      let bad = ap (λ t. t.source_type == "embedded") built_in in cc
  Removed-Holds (here s ss same other) (inr h) = h
  Removed-Holds (there s r) (inl same) = inl same
  Removed-Holds (there s r) (inr h) = inr (Removed-Holds r h)

  pub remove_source-IsRegistry :
      (name : String) (before after : List SourceProvider)
      → IsRegistry outside before
      → remove_source name before ≡ ok after
      → IsRegistry outside after
  remove_source-IsRegistry name before after it h =
      let r = remove_source-Removed name before after h in
      record {
        unique = λ x. omega (arith, Removed-named r x, it.unique x);
        catalog = Removed-Holds r it.catalog;
        sorted = Removed-IsSorted r it.sorted;
        created = Removed-All (IsProvider outside) r it.created;
      }
