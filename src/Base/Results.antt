-- ===== src/Base/Results.antt =====
-- Go's `(T, error)`: a value or an error, with `do`.
use mathlib.Core.Path.{◌≡◌, refl}
use mathlib.Core.Logic.{◌≢◌, ◌⊎◌, inl, inr}
use mathlib.Core.Bool.{Bool, true, false}
use mathlib.Core.List.{List, [], ◌∷◌}
use sdbx.Base.Lists.{All}

pub data Result {ℓ κ} (E : Type κ) (A : Type ℓ) : Type (ℓ ⊔ κ) where
  ok : A → Result E A
  err : E → Result E A

pub Result-cases {ℓ κ} :
    {E : Type κ} {A : Type ℓ} (r : Result E A) → ((a : A) × (r ≡ ok a)) ⊎ ((e : E) × (r ≡ err e))
Result-cases (ok a) = inl (a, refl)
Result-cases (err e) = inr (e, refl)

module _ {ℓ κ} {E : Type κ} {A : Type ℓ} where
  pub ok-injective : {a b : A} → ◌≡◌ {A = Result E A} (ok a) (ok b) → a ≡ b
  ok-injective h = cc

  pub err-ne-ok : {e : E} {a : A} → ◌≢◌ {A = Result E A} (err e) (ok a)
  err-ne-ok h = cc

module _ {ℓ κ μ} {E : Type μ} {A : Type ℓ} {B : Type κ} where
  infixl 5 ◌>>=◌
  abbrev pub ◌>>=◌ : Result E A → (A → Result E B) → Result E B
  ok a >>= f = f a
  err e >>= f = err e

  -- Where a chain of two calls returns without an error, so does each of the two.
  pub >>=-eq-ok :
      (first : Result E A) (rest : A → Result E B) {out : B}
      → (first >>= rest) ≡ ok out
      → (mid : A) × (first ≡ ok mid) × (rest mid ≡ ok out)
  >>=-eq-ok (err e) rest same = cc
  >>=-eq-ok (ok mid) rest same = (mid, refl, same)

-- A call that returns only an `error`.
abbrev pub Check {κ} : Type κ → Type κ
Check E = Result E (Unit {0})

module _ {κ} {E : Type κ} where
  abbrev pub fine : Result E (Unit {0})
  fine = ok tt

  infixl 5 ◌>>◌
  abbrev pub ◌>>◌ {ℓ} : {B : Type ℓ} → Result E (Unit {0}) → Result E B → Result E B
  ok _ >> k = k
  err e >> k = err e

  -- if b { return e }
  abbrev pub fail_if : Bool → E → Result E (Unit {0})
  fail_if true e = err e
  fail_if false e = ok tt

  -- The first error among the calls on the elements of a list.
  abbrev pub for_each {ℓ} : {A : Type ℓ} → (A → Result E (Unit {0})) → List A → Result E (Unit {0})
  for_each f [] = ok tt
  for_each f (x ∷ xs) = f x >> for_each f xs

  pub >>-eq-ok {ℓ} :
      {B : Type ℓ} (m : Result E (Unit {0})) (k : Result E B) {b : B}
      → (m >> k) ≡ ok b
      → (m ≡ ok tt) × (k ≡ ok b)
  >>-eq-ok (ok _) k h = (refl, h)
  >>-eq-ok (err e) k h = cc

  pub fail_if-eq-ok : (b : Bool) (e : E) → fail_if b e ≡ ok tt → b ≡ false
  fail_if-eq-ok true e h = cc
  fail_if-eq-ok false e h = refl

  pub for_each-eq-ok {ℓ} :
      {A : Type ℓ} (f : A → Result E (Unit {0})) (xs : List A)
      → for_each f xs ≡ ok tt
      → All (λ x. f x ≡ ok tt) xs
  for_each-eq-ok f [] h = tt
  for_each-eq-ok f (x ∷ xs) h =
      let (first, rest) = >>-eq-ok (f x) (for_each f xs) h in (first, for_each-eq-ok f xs rest)
