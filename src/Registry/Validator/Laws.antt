-- ===== src/Registry/Validator/Laws.antt =====
-- What is left of the reports of a definition without an error.
use sdbx.Base.{
  ℕ, suc, String, Bool, true, false, ◌||◌, List, [], ◌∷◌, ◌++◌, ◌≡◌, refl, Message, All, arith,
}
use sdbx.Registry.Types.Resolved.{ValidationError}
use sdbx.Registry.Resolver.{has_errors}
use sdbx.Registry.Validator.Report.{report, each}

-- No report is an error; there may be warnings.
abbrev pub IsQuiet : List ValidationError → Type 0
IsQuiet errors = has_errors errors ≡ false

has_errors-append :
    (xs ys : List ValidationError) → has_errors (xs ++ ys) ≡ (has_errors xs || has_errors ys)
unfolding has_errors
has_errors-append [] ys = refl
has_errors-append (x ∷ xs) ys = ground (arith, has_errors-append xs ys)

pub IsQuiet-append : (xs ys : List ValidationError) → IsQuiet (xs ++ ys) → IsQuiet xs × IsQuiet ys
IsQuiet-append xs ys h = ground (arith, has_errors-append xs ys)

-- The checks behind the first ones.
pub past : (xs ys : List ValidationError) → IsQuiet (xs ++ ys) → IsQuiet ys
past xs ys h = (IsQuiet-append xs ys h).1

pub report-IsQuiet :
    (b : Bool) (field : String) (message : Message) → IsQuiet (report b field message) → b ≡ false
unfolding report has_errors
report-IsQuiet true field message h = h
report-IsQuiet false field message h = refl

-- A report, and the checks behind it.
pub report-append :
    (b : Bool) (field : String) (message : Message) (rest : List ValidationError)
    → IsQuiet (report b field message ++ rest)
    → (b ≡ false) × IsQuiet rest
report-append b field message rest h =
    let (first, later) = IsQuiet-append (report b field message) rest h in
    (report-IsQuiet b field message first, later)

-- A check that is quiet on every element.
pub each-IsQuiet {ℓ κ} :
    {A : Type ℓ} (P : A → Type κ) (f : ℕ → A → List ValidationError) (i : ℕ) (xs : List A)
    → ((j : ℕ) (x : A) → IsQuiet (f j x) → P x)
    → IsQuiet (each f i xs)
    → All P xs
unfolding each
each-IsQuiet P f i [] step h = tt
each-IsQuiet P f i (x ∷ xs) step h =
    let (first, later) = IsQuiet-append (f i x) (each f (suc i) xs) h in
    (step i x first, each-IsQuiet P f (suc i) xs step later)
