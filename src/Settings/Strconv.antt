-- ===== src/Settings/Strconv.antt =====
-- strconv.ParseBool and strconv.Atoi, which internal/settings/manager.go reads its values with.
use sdbx.Base.{
  ℕ, zero, suc, ◌+◌, ◌*◌, ◌-◌, String, Bool, true, false, List, [], ◌∷◌, Option, none, some, nat_eq,
  leb, codes, in_range, if◌then◌else◌, ◌≡◌, refl,
}
use sdbx.Base.Int.{ℤ, pos, negsuc}
use sdbx.Config.{contains}

-- `none` is its error.
unfoldable pub parse_bool : String → Option Bool
unfolding contains
parse_bool s =
    if contains ("1" ∷ "t" ∷ "T" ∷ "true" ∷ "TRUE" ∷ "True" ∷ []) s
    then some true
    else if contains ("0" ∷ "f" ∷ "F" ∷ "false" ∷ "FALSE" ∷ "False" ∷ []) s
    then some false
    else none

digits_value : ℕ → List ℕ → Option ℕ
digits_value n [] = some n
digits_value n (c ∷ s) =
    let rest = digits_value (n * 10 + (c - 48)) s in if in_range 48 57 c then rest else none

-- The digits behind the sign, at least one.
unsigned : List ℕ → Option ℕ
unfolding digits_value
unsigned [] = none
unsigned (c ∷ s) = digits_value 0 (c ∷ s)

-- 2 ^ 63, the range of an `int` on the platforms that the program is built for.
abbrev limit : ℕ
limit = 9223372036854775808

abbrev negated : ℕ → ℤ
negated zero = pos 0
negated (suc n) = negsuc n

in_bounds : Bool → Option ℕ → Option ℤ
in_bounds negative none = none
in_bounds true (some n) = if leb n limit then some (negated n) else none
in_bounds false (some n) = if leb limit n then none else some (pos n)

signed : List ℕ → Option ℤ
unfolding in_bounds unsigned
signed [] = none
signed (c ∷ s) =
    if nat_eq c 45
    then in_bounds true (unsigned s)
    else if nat_eq c 43
    then in_bounds false (unsigned s)
    else in_bounds false (unsigned (c ∷ s))

-- `none` is its error.
unfoldable pub atoi : String → Option ℤ
unfolding signed
atoi s = signed (codes s)

strconv_test :
    (atoi "8080" ≡ some (pos 8080))
    × (atoi "-1" ≡ some (negsuc 0))
    × (atoi "+7" ≡ some (pos 7))
    × (atoi "-" ≡ none)
    × (atoi "1_0" ≡ none)
    × (atoi "9223372036854775808" ≡ none)
    × (parse_bool "yes" ≡ none)
unfolding atoi parse_bool
strconv_test = (refl, refl, refl, refl, refl, refl, refl)
