-- ===== src/Registry/TopologicalSort/Counting.antt =====
-- Counting texts in lists: membership, removal, and comparison of two lists by their counts.
use sdbx.Base.{
  ℕ, suc, ◌+◌, ◌≤◌, ◌<◌, String, Bool, ◌≡◌, refl, ◌==◌, List, [], ◌∷◌, ◌++◌, eq_iff, arith, ltb,
  length, if◌then◌else◌, eq-cases, inl, inr, ◌||◌,
}
use sdbx.Base.Maps.{Map, lookup, keys, has}
use sdbx.Base.Order.{count}
use sdbx.Config.{contains}

-- 1 for a test that holds, 0 for one that does not.
abbrev pub one_if : Bool → ℕ
one_if b = if b then 1 else 0

pub contains-count : (xs : List String) (a : String) → contains xs a ≡ ltb 0 (count a xs)
unfolding contains
contains-count [] a = refl
contains-count (x ∷ xs) a = ground (arith, contains-count xs a)

pub count-append :
    (name : String) (front back : List String)
    → count name (front ++ back) ≡ count name front + count name back
count-append name (x ∷ front) back = let rest = count-append name front back in omega (arith, rest)
count-append name [] back = omega arith

pub has-count {ℓ} : {V : Type ℓ} (k : String) (m : Map V) → has k m ≡ ltb 0 (count k (keys m))
unfolding lookup
has-count k [] = refl
has-count k ((j, v) ∷ m) = ground (arith, has-count k m)

-- A list that contains a text, without one occurrence of it.
remove :
    (a : String) (ys : List String)
    → 0 < count a ys
    → (rest : List String) × (length ys ≡ suc (length rest))
      × ((b : String) → count b ys ≡ one_if (a == b) + count b rest)
remove a [] h = absurd (omega arith)
remove a (y ∷ ys) h = elim (eq-cases y a) [
  | inl (e, t) ↦ (ys, refl, λ b. rw e)
  | inr (e, t) ↦
      let (rest, len, counts) = remove a ys (ground arith) in
      (y ∷ rest, omega arith, λ b. omega (arith, counts b))
]

-- What is left of a list when all texts of another one are taken out of it.
pub difference :
    (xs ys : List String)
    → ((a : String) → count a xs ≤ count a ys)
    → (rest : List String) × (length ys ≡ length xs + length rest)
      × ((a : String) → count a ys ≡ count a xs + count a rest)
difference [] ys h = (ys, omega arith, λ a. omega arith)
difference (x ∷ xs) ys h =
    let (less, len, counts) = remove x ys (ground (arith, h x, eq_iff x x)) in
    let (rest, len', counts') = difference xs less (λ a. ground (arith, h a, counts a)) in
    (rest, omega arith, λ a. omega (arith, counts a, counts' a))

pub length-le_of_count :
    (xs ys : List String) → ((a : String) → count a xs ≤ count a ys) → length xs ≤ length ys
length-le_of_count xs ys h = let (rest, len, counts) = difference xs ys h in omega arith

pub count-eq_of_length :
    (xs ys : List String)
    → ((a : String) → count a xs ≤ count a ys)
    → length xs ≡ length ys
    → (a : String) → count a xs ≡ count a ys
count-eq_of_length xs ys h len a =
    let (rest, total, counts) = difference xs ys h in none_left rest (counts a) (omega arith)
  where
    none_left :
        (rest : List String)
        → count a ys ≡ count a xs + count a rest
        → length rest ≡ 0
        → count a xs ≡ count a ys
    none_left [] e z = omega arith
    none_left (r ∷ rest) e z = absurd (omega arith)

pub contains-append :
    (xs : List String) (a b : String) → contains (xs ++ (a ∷ [])) b ≡ (contains xs b || (a == b))
unfolding contains
contains-append [] a b = ground arith
contains-append (x ∷ xs) a b = ground (arith, contains-append xs a b)
