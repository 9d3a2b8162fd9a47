-- ===== src/Base/Text.antt =====
-- Texts as Go strings: code points, trimming and splitting, and unrendered messages.
use Prim.Native.Nat.{ℕ}
use Prim.Native.Char.{code}
use Prim.Native.String
use Prim.Native.String.{String}
use mathlib.Core.Path.{◌≡◌, refl}
use mathlib.Core.Bool.{Bool, true, false, ◌&&◌, ◌||◌}
use mathlib.Core.List.{List, [], ◌∷◌}
use native.Mathlib.Omega.{arith}
use sdbx.Base.Tests.{leb, nat_eq, ◌==◌, if◌then◌else◌}

-- The code points of a text, as `for _, r := range s` visits them.
abbrev pub codes : String → List ℕ
codes String.[] = []
codes (String.◌∷◌ c s) = code c ∷ codes s

-- What fmt.Sprintf is called with: error texts are compared, never parsed, so they stay unrendered.
pub record Message : Type 0 where
  pub format : String
  pub args : List String

abbrev pub plain : String → Message
plain s = record { format = s; args = [] }

infixr 60 ◌<>◌
abbrev pub ◌<>◌ : String → String → String
s <> t = String.◌++◌ s t

abbrev pub in_range : ℕ → ℕ → ℕ → Bool
in_range lo hi c = leb lo c && leb c hi

-- unicode.IsSpace
unfoldable pub is_space : ℕ → Bool
is_space c =
    in_range 9 13 c
    || nat_eq c 0x20
    || nat_eq c 0x85
    || nat_eq c 0xa0
    || nat_eq c 0x1680
    || in_range 0x2000 0x200a c
    || nat_eq c 0x2028
    || nat_eq c 0x2029
    || nat_eq c 0x202f
    || nat_eq c 0x205f
    || nat_eq c 0x3000

-- unicode.IsControl
unfoldable pub is_control : ℕ → Bool
is_control c = leb c 0x1f || in_range 0x7f 0x9f c

trim_left : String → String
trim_left String.[] = ""
trim_left (String.◌∷◌ c s) =
    let rest = trim_left s in if is_space (code c) then rest else String.◌∷◌ c s

trim_right : String → String
trim_right String.[] = ""
trim_right (String.◌∷◌ c s) =
    let rest = trim_right s in if rest == "" && is_space (code c) then "" else String.◌∷◌ c rest

-- strings.TrimSpace
unfoldable pub trim_space : String → String
unfolding trim_left trim_right is_space
trim_space s = trim_right (trim_left s)

attach : ℕ → ℕ → List (List ℕ) → List (List ℕ)
attach sep c [] = (c ∷ []) ∷ []
attach sep c (part ∷ parts) = if nat_eq c sep then [] ∷ part ∷ parts else (c ∷ part) ∷ parts

-- strings.Split at a one-character separator, on code points. The result has at least one part.
unfoldable pub split : ℕ → List ℕ → List (List ℕ)
unfolding attach
split sep [] = [] ∷ []
split sep (c ∷ s) = attach sep c (split sep s)

-- strings.HasPrefix
unfoldable pub has_prefix : List ℕ → List ℕ → Bool
has_prefix s [] = true
has_prefix [] (c ∷ p) = false
has_prefix (d ∷ s) (c ∷ p) = nat_eq d c && has_prefix s p

-- Equality of lists of code points.
abbrev pub codes_eq : List ℕ → List ℕ → Bool
codes_eq [] [] = true
codes_eq [] (d ∷ t) = false
codes_eq (c ∷ s) [] = false
codes_eq (c ∷ s) (d ∷ t) = nat_eq c d && codes_eq s t

pub codes_eq→eq : (s t : List ℕ) → codes_eq s t ≡ true → s ≡ t
codes_eq→eq [] [] h = refl
codes_eq→eq [] (d ∷ t) h = ground arith
codes_eq→eq (c ∷ s) [] h = ground arith
codes_eq→eq (c ∷ s) (d ∷ t) h = ground (arith, codes_eq→eq s t)

pub codes_eq_refl : (s : List ℕ) → codes_eq s s ≡ true
codes_eq_refl [] = refl
codes_eq_refl (c ∷ s) = ground (arith, codes_eq_refl s)

trim_test : trim_space "  a b\n" ≡ "a b"
unfolding trim_space
trim_test = refl

split_test : split b'/' (codes "/a//b") ≡ [] ∷ codes "a" ∷ [] ∷ codes "b" ∷ []
unfolding split
split_test = refl
