-- ===== src/Base/Order.antt =====
-- sort.Strings: texts in the order of their code points, which is the order of their UTF-8 bytes.
use mathlib.Core.Logic.{inl, inr}
use Prim.Native.Nat.{ℕ, suc, ◌+◌}
use Prim.Native.String.{String}
use mathlib.Core.Path.{◌≡◌, refl}
use mathlib.Core.Bool.{Bool, true, false, ◌&&◌, ◌||◌}
use mathlib.Core.List.{List, [], ◌∷◌}
use native.Mathlib.Omega.{arith}
use sdbx.Base.Tests.{ltb, nat_eq, ◌==◌, Bool-cases, if◌then◌else◌}
use sdbx.Base.Lists.{length, All}
use sdbx.Base.Text.{codes}

codes_le : List ℕ → List ℕ → Bool
codes_le [] t = true
codes_le (c ∷ s) [] = false
codes_le (c ∷ s) (d ∷ t) = ltb c d || nat_eq c d && codes_le s t

unfoldable pub text_le : String → String → Bool
unfolding codes_le
text_le s t = codes_le (codes s) (codes t)

codes_le_total : (s t : List ℕ) → codes_le s t ≡ false → codes_le t s ≡ true
unfolding codes_le
codes_le_total [] t h = cc
codes_le_total (c ∷ s) [] h = refl
codes_le_total (c ∷ s) (d ∷ t) h = ground (arith, codes_le_total s t)

codes_le_trans : (s t u : List ℕ) → codes_le s t ≡ true → codes_le t u ≡ true → codes_le s u ≡ true
unfolding codes_le
codes_le_trans [] t u h k = refl
codes_le_trans (c ∷ s) [] u h k = cc
codes_le_trans (c ∷ s) (d ∷ t) [] h k = cc
codes_le_trans (c ∷ s) (d ∷ t) (e ∷ u) h k = ground (arith, codes_le_trans s t u)

unfoldable pub insert_sorted : String → List String → List String
insert_sorted x [] = x ∷ []
insert_sorted x (y ∷ ys) =
    let rest = insert_sorted x ys in if text_le x y then x ∷ y ∷ ys else y ∷ rest

unfoldable pub sort_strings : List String → List String
unfolding insert_sorted text_le
sort_strings [] = []
sort_strings (x ∷ xs) = insert_sorted x (sort_strings xs)

-- How often a text occurs in a list.
abbrev pub count : String → List String → ℕ
count a [] = 0
count a (x ∷ xs) = (if x == a then 1 else 0) + count a xs

count-insert_sorted :
    (a x : String) (ys : List String)
    → count a (insert_sorted x ys) ≡ (if x == a then 1 else 0) + count a ys
unfolding insert_sorted
count-insert_sorted a x [] = refl
count-insert_sorted a x (y ∷ ys) = ground (arith, count-insert_sorted a x ys)

-- Sorting keeps every text as often as it occurs.
pub count-sort_strings : (a : String) (xs : List String) → count a (sort_strings xs) ≡ count a xs
unfolding sort_strings
count-sort_strings a [] = refl
count-sort_strings a (x ∷ xs) =
    ground (arith, count-sort_strings a xs, count-insert_sorted a x (sort_strings xs))

length-insert_sorted :
    (x : String) (ys : List String) → length (insert_sorted x ys) ≡ suc (length ys)
unfolding insert_sorted
length-insert_sorted x [] = refl
length-insert_sorted x (y ∷ ys) = ground (arith, length-insert_sorted x ys)

pub length-sort_strings : (xs : List String) → length (sort_strings xs) ≡ length xs
unfolding sort_strings
length-sort_strings [] = refl
length-sort_strings (x ∷ xs) =
    ground (arith, length-sort_strings xs, length-insert_sorted x (sort_strings xs))

-- Each text is at most every later one.
abbrev pub IsSorted : List String → Type 0
IsSorted [] = Unit
IsSorted (x ∷ xs) = All (λ y. text_le x y ≡ true) xs × IsSorted xs

All-insert_sorted :
    (x y : String) (ys : List String)
    → text_le x y ≡ true
    → All (λ z. text_le x z ≡ true) ys
    → All (λ z. text_le x z ≡ true) (insert_sorted y ys)
unfolding insert_sorted
All-insert_sorted x y [] h hs = (h, tt)
All-insert_sorted x y (z ∷ zs) h (k, ks) = ground (arith, All-insert_sorted x y zs h ks)

All-le_trans :
    (x y : String) (ys : List String)
    → text_le x y ≡ true
    → All (λ z. text_le y z ≡ true) ys
    → All (λ z. text_le x z ≡ true) ys
All-le_trans x y [] h hs = tt
All-le_trans x y (z ∷ zs) h (k, ks) =
    (unfold text_le in codes_le_trans (codes x) (codes y) (codes z) h k, All-le_trans x y zs h ks)

IsSorted-insert_sorted :
    (x : String) (ys : List String) → IsSorted ys → IsSorted (insert_sorted x ys)
unfolding insert_sorted
IsSorted-insert_sorted x [] h = (tt, tt)
IsSorted-insert_sorted x (y ∷ ys) (k, ks) = elim (Bool-cases (text_le x y)) [
  | inl le ↦ rw le ((le, All-le_trans x y ys le k), (k, ks))
  | inr gt ↦ rw gt (
    All-insert_sorted y x ys (unfold text_le in codes_le_total (codes x) (codes y) gt) k,
    IsSorted-insert_sorted x ys ks,
  )
]

pub sort_strings-IsSorted : (xs : List String) → IsSorted (sort_strings xs)
unfolding sort_strings
sort_strings-IsSorted [] = tt
sort_strings-IsSorted (x ∷ xs) =
    IsSorted-insert_sorted x (sort_strings xs) (sort_strings-IsSorted xs)
