-- ===== src/Registry/Sources/Order.antt =====
-- internal/registry/registry.go: the sort of the sources by priority, and what it keeps.
use sdbx.Base.{
  ℕ, ◌+◌, String, false, ◌==◌, List, [], ◌∷◌, ◌++◌, if◌then◌else◌, ◌≡◌, refl, ◌⊎◌, inl, inr, All,
  arith, Bool-cases,
}
use sdbx.Base.Int.{gt, gt-false_trans, gt_asym}
use sdbx.Registry.Sources.{SourceProvider}
use sdbx.Registry.Sources.Managed.{insert_source, sort_onto}

-- The sources that go by a name.
abbrev pub named : String → List SourceProvider → ℕ
named name [] = 0
named name (s ∷ ss) = (if s.name == name then 1 else 0) + named name ss

-- No source stands behind one of lower priority.
abbrev pub IsSorted : List SourceProvider → Type 0
IsSorted [] = Unit
IsSorted (s ∷ ss) = All (λ t. gt t.priority s.priority ≡ false) ss × IsSorted ss

abbrev pub Holds : SourceProvider → List SourceProvider → Type 0
Holds s [] = ⊥
Holds s (t ∷ ts) = (t ≡ s) ⊎ Holds s ts

named-insert_source :
    (name : String) (s : SourceProvider) (ts : List SourceProvider)
    → named name (insert_source s ts) ≡ named name (s ∷ ts)
unfolding insert_source
named-insert_source name s [] = refl
named-insert_source name s (t ∷ ts) = ground (arith, named-insert_source name s ts)

All-insert_source {ℓ} :
    (P : SourceProvider → Type ℓ) (s : SourceProvider) (ts : List SourceProvider)
    → P s
    → All P ts
    → All P (insert_source s ts)
unfolding insert_source
All-insert_source P s [] p ps = (p, tt)
All-insert_source P s (t ∷ ts) p (q, qs) = elim (Bool-cases (gt s.priority t.priority)) [
  | inl before ↦ rw before (p, (q, qs))
  | inr behind ↦ rw behind (q, All-insert_source P s ts p qs)
]

All-below :
    (s t : SourceProvider) (us : List SourceProvider)
    → gt t.priority s.priority ≡ false
    → All (λ u. gt u.priority t.priority ≡ false) us
    → All (λ u. gt u.priority s.priority ≡ false) us
All-below s t [] h hs = tt
All-below s t (u ∷ us) h (k, ks) =
    (gt-false_trans u.priority t.priority s.priority k h, All-below s t us h ks)

IsSorted-insert_source :
    (s : SourceProvider) (ts : List SourceProvider) → IsSorted ts → IsSorted (insert_source s ts)
unfolding insert_source
IsSorted-insert_source s [] h = (tt, tt)
IsSorted-insert_source s (t ∷ ts) (below, rest) = elim (Bool-cases (gt s.priority t.priority)) [
  | inl before ↦ rw before (
      let last = gt_asym s.priority t.priority before in
      ((last, All-below s t ts last below), (below, rest)))
  | inr behind ↦ rw behind (
    All-insert_source (λ u. gt u.priority t.priority ≡ false) s ts behind below,
    IsSorted-insert_source s ts rest,
  )
]

Holds-insert_source :
    (s : SourceProvider) (ts : List SourceProvider) (u : SourceProvider)
    → Holds u (s ∷ ts)
    → Holds u (insert_source s ts)
unfolding insert_source
Holds-insert_source s [] u h = h
Holds-insert_source s (t ∷ ts) u h = elim (Bool-cases (gt s.priority t.priority)) [
  | inl before ↦ rw before h
  | inr behind ↦ rw behind (elim h [
    | inl same ↦ inr (Holds-insert_source s ts u (inl same))
    | inr (inl same) ↦ inl same
    | inr (inr later) ↦ inr (Holds-insert_source s ts u (inr later))
  ])
]

pub named-append :
    (name : String) (ss ts : List SourceProvider)
    → named name (ss ++ ts) ≡ named name ss + named name ts
named-append name [] ts = omega arith
named-append name (s ∷ ss) ts = omega (arith, named-append name ss ts)

module _ (u : SourceProvider) where
  pub named-sort_onto :
      (name : String) (ss ts : List SourceProvider)
      → named name (sort_onto ss ts) ≡ named name ss + named name ts
  unfolding sort_onto
  named-sort_onto name ss [] = omega arith
  named-sort_onto name ss (t ∷ ts) =
      omega (arith, named-sort_onto name (insert_source t ss) ts, named-insert_source name t ss)

  pub Holds-sort_onto :
      (ss ts : List SourceProvider) → Holds u ss ⊎ Holds u ts → Holds u (sort_onto ss ts)
  unfolding sort_onto
  Holds-sort_onto ss [] (inl h) = h
  Holds-sort_onto ss [] (inr h) = absurd h
  Holds-sort_onto ss (t ∷ ts) (inl h) =
      Holds-sort_onto (insert_source t ss) ts (inl (Holds-insert_source t ss u (inr h)))
  Holds-sort_onto ss (t ∷ ts) (inr (inl same)) =
      Holds-sort_onto (insert_source t ss) ts (inl (Holds-insert_source t ss u (inl same)))
  Holds-sort_onto ss (t ∷ ts) (inr (inr later)) =
      Holds-sort_onto (insert_source t ss) ts (inr later)

pub All-sort_onto {ℓ} :
    (P : SourceProvider → Type ℓ) (ss ts : List SourceProvider)
    → All P ss
    → All P ts
    → All P (sort_onto ss ts)
unfolding sort_onto
All-sort_onto P ss [] hs ks = hs
All-sort_onto P ss (t ∷ ts) hs (k, ks) =
    All-sort_onto P (insert_source t ss) ts (All-insert_source P t ss k hs) ks

pub IsSorted-sort_onto : (ss ts : List SourceProvider) → IsSorted ss → IsSorted (sort_onto ss ts)
unfolding sort_onto
IsSorted-sort_onto ss [] h = h
IsSorted-sort_onto ss (t ∷ ts) h =
    IsSorted-sort_onto (insert_source t ss) ts (IsSorted-insert_source t ss h)

-- One more source in a list that has none of its name.
pub Holds-snoc :
    (u s : SourceProvider) (ss : List SourceProvider)
    → Holds u ss ⊎ (s ≡ u)
    → Holds u (ss ++ (s ∷ []))
Holds-snoc u s [] (inl h) = absurd h
Holds-snoc u s [] (inr same) = inl same
Holds-snoc u s (t ∷ ts) (inr same) = inr (Holds-snoc u s ts (inr same))
Holds-snoc u s (t ∷ ts) (inl (inl same)) = inl same
Holds-snoc u s (t ∷ ts) (inl (inr later)) = inr (Holds-snoc u s ts (inl later))
