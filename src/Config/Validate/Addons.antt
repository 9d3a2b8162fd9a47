-- ===== src/Config/Validate/Addons.antt =====
-- The addon list under validation, and under enabling and disabling.
use sdbx.Base.{
  String, Bool, true, false, ◌≡◌, refl, ◌≢◌, List, [], ◌∷◌, ◌++◌, ok, eq_iff, arith, All, keep,
}
use sdbx.Config.{contains}
use sdbx.Config.Patterns.{identifier_regex}
use sdbx.Config.Validate.{validate_addons}

abbrev pub Absent : String → List String → Type 0
Absent a xs = All (λ x. x ≢ a) xs

-- No name occurs twice.
abbrev pub Distinct : List String → Type 0
Distinct [] = Unit
Distinct (x ∷ xs) = Absent x xs × Distinct xs

pub Absent-contains : (a : String) (xs : List String) → contains xs a ≡ false → Absent a xs
unfolding contains
Absent-contains a [] h = tt
Absent-contains a (x ∷ xs) h = (ground (arith, eq_iff x a), Absent-contains a xs (ground arith))

pub contains_of_Absent : (a : String) (xs : List String) → Absent a xs → contains xs a ≡ false
unfolding contains
contains_of_Absent a [] h = refl
contains_of_Absent a (x ∷ xs) (p, h) = ground (arith, eq_iff x a, contains_of_Absent a xs h)

-- The names of the list are identifiers, distinct, and none of them was seen before.
pub record IsAccepted (seen addons : List String) : Type 0 where
  pub identifiers : All (λ a. identifier_regex a ≡ true) addons
  pub distinct : Distinct addons
  pub fresh : All (λ a. contains seen a ≡ false) addons

seen-cons :
    (a : String) (seen xs : List String)
    → All (λ x. contains (a ∷ seen) x ≡ false) xs
    → Absent a xs × All (λ x. contains seen x ≡ false) xs
unfolding contains
seen-cons a seen [] h = (tt, tt)
seen-cons a seen (x ∷ xs) (p, h) =
    let (absent, fresh) = seen-cons a seen xs h in
    ((ground (arith, eq_iff a x), absent), (ground arith, fresh))

cons-seen :
    (a : String) (seen xs : List String)
    → Absent a xs
    → All (λ x. contains seen x ≡ false) xs
    → All (λ x. contains (a ∷ seen) x ≡ false) xs
unfolding contains
cons-seen a seen [] h k = tt
cons-seen a seen (x ∷ xs) (p, h) (q, k) = (ground (arith, eq_iff a x), cons-seen a seen xs h k)

pub validate_addons-IsAccepted :
    (seen addons : List String) → validate_addons seen addons ≡ ok tt → IsAccepted seen addons
unfolding validate_addons
validate_addons-IsAccepted seen [] h = record { identifiers = tt; distinct = tt; fresh = tt }
validate_addons-IsAccepted seen (a ∷ xs) h =
    let rest = validate_addons-IsAccepted (a ∷ seen) xs (ground arith) in
    let (absent, fresh) = seen-cons a seen xs rest.fresh in
    record {
      identifiers = (ground arith, rest.identifiers);
      distinct = (absent, rest.distinct);
      fresh = (ground arith, fresh);
    }

pub validate_addons_of_IsAccepted :
    (seen addons : List String) → IsAccepted seen addons → validate_addons seen addons ≡ ok tt
unfolding validate_addons
validate_addons_of_IsAccepted seen [] h = refl
validate_addons_of_IsAccepted seen (a ∷ xs) h = ground (
  arith,
  validate_addons_of_IsAccepted (a ∷ seen) xs (record {
    identifiers = h.identifiers.1;
    distinct = h.distinct.1;
    fresh = cons-seen a seen xs h.distinct.0 h.fresh.1;
  }),
)

Absent-append : (x a : String) (xs : List String) → Absent x xs → a ≢ x → Absent x (xs ++ (a ∷ []))
Absent-append x a [] h k = (k, tt)
Absent-append x a (y ∷ ys) (p, h) k = (p, Absent-append x a ys h k)

pub Distinct-append :
    (a : String) (xs : List String) → Distinct xs → Absent a xs → Distinct (xs ++ (a ∷ []))
Distinct-append a [] d h = (tt, tt)
Distinct-append a (x ∷ xs) (p, d) (q, h) =
    (Absent-append x a xs p (λ e. q (ground arith)), Distinct-append a xs d h)

Absent-keep :
    (f : String → Bool) (x : String) (xs : List String) → Absent x xs → Absent x (keep f xs)
Absent-keep f x [] h = tt
Absent-keep f x (y ∷ ys) (p, h) = ground (arith, Absent-keep f x ys h)

pub Distinct-keep : (f : String → Bool) (xs : List String) → Distinct xs → Distinct (keep f xs)
Distinct-keep f [] d = tt
Distinct-keep f (x ∷ xs) (p, d) = ground (arith, Distinct-keep f xs d, Absent-keep f x xs p)
