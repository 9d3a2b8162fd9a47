-- ===== src/Config/Patterns.antt =====
-- The regular expressions of internal/config, as tests on code points, and the scalar checks.
use sdbx.Base.{
  ℕ, String, ◌≡◌, refl, Bool, true, false, ◌&&◌, ◌||◌, not, List, [], ◌∷◌, leb, nat_eq, all, any,
  length, codes, codes_eq, in_range, split, if◌then◌else◌,
}

abbrev pub is_digit : ℕ → Bool
is_digit c = in_range b'0' b'9' c

abbrev pub is_lower : ℕ → Bool
is_lower c = in_range b'a' b'z' c

abbrev pub is_upper : ℕ → Bool
is_upper c = in_range b'A' b'Z' c

abbrev pub is_letter : ℕ → Bool
is_letter c = is_lower c || is_upper c

abbrev pub is_alnum : ℕ → Bool
is_alnum c = is_letter c || is_digit c

-- A text of one to `limit + 1` characters, the first of class `head` and the others of class `tail`.
abbrev pub name_of : (ℕ → Bool) → (ℕ → Bool) → ℕ → List ℕ → Bool
name_of head tail limit [] = false
name_of head tail limit (c ∷ s) = head c && leb (length s) limit && all tail s

-- ^[a-z0-9][a-z0-9-]{0,62}$
unfoldable pub identifier_regex : String → Bool
identifier_regex s =
    name_of (λ c. is_lower c || is_digit c) (λ c. is_lower c || is_digit c || nat_eq c b'-') 62
      (codes s)

-- ^[A-Za-z0-9][A-Za-z0-9_.-]{0,63}$
unfoldable pub admin_user_regex : String → Bool
admin_user_regex s =
    name_of is_alnum (λ c. is_alnum c || nat_eq c b'_' || nat_eq c b'.' || nat_eq c b'-') 63
      (codes s)

abbrev three_octal : List ℕ → Bool
three_octal (a ∷ b ∷ c ∷ []) = in_range b'0' b'7' a && in_range b'0' b'7' b && in_range b'0' b'7' c
three_octal _ = false

abbrev four_octal : List ℕ → Bool
four_octal [] = false
four_octal (z ∷ s) = nat_eq z b'0' && three_octal s

-- ^0?[0-7]{3}$
unfoldable pub umask_regex : String → Bool
umask_regex s = three_octal (codes s) || four_octal (codes s)

-- Whether the last character of a text is of a class.
unfoldable pub last_is : (ℕ → Bool) → List ℕ → Bool
last_is p [] = false
last_is p (c ∷ []) = p c
last_is p (c ∷ d ∷ s) = last_is p (d ∷ s)

-- [a-zA-Z0-9]([a-zA-Z0-9\-]{0,61}[a-zA-Z0-9])?
domain_label : List ℕ → Bool
unfolding last_is
domain_label [] = false
domain_label (c ∷ s) =
    is_alnum c
    && leb (length s) 62
    && all (λ d. is_alnum d || nat_eq d b'-') s
    && last_is is_alnum (c ∷ s)

-- One or more labels, then [a-zA-Z]{2,}
domain_parts : List (List ℕ) → Bool
unfolding domain_label
domain_parts [] = false
domain_parts (top ∷ []) = false
domain_parts (l ∷ top ∷ []) = domain_label l && leb 2 (length top) && all is_letter top
domain_parts (l ∷ m ∷ n ∷ rest) = domain_label l && domain_parts (m ∷ n ∷ rest)

-- ^([a-zA-Z0-9]([a-zA-Z0-9\-]{0,61}[a-zA-Z0-9])?\.)+[a-zA-Z]{2,}$
unfoldable pub domain_regex : String → Bool
unfolding domain_parts split
domain_regex s = domain_parts (split b'.' (codes s))

-- [A-Za-z0-9._~-]+
abbrev route_segment : List ℕ → Bool
route_segment s =
    not (codes_eq s [])
    && all (λ c. is_alnum c || nat_eq c b'.' || nat_eq c b'_' || nat_eq c b'~' || nat_eq c b'-') s

-- ^/(?:[A-Za-z0-9._~-]+(?:/[A-Za-z0-9._~-]+)*)?$
abbrev route_path_codes : List ℕ → Bool
route_path_codes [] = false
route_path_codes (c ∷ s) = nat_eq c b'/' && (codes_eq s [] || all route_segment (split b'/' s))

unfoldable pub route_path_regex : String → Bool
unfolding split
route_path_regex s = route_path_codes (codes s)

abbrev has_dots : List ℕ → Bool
has_dots s = codes_eq s (b'.' ∷ []) || codes_eq s (b'.' ∷ b'.' ∷ [])

-- strings.TrimPrefix(value, "/")
abbrev trim_slash : List ℕ → List ℕ
trim_slash [] = []
trim_slash (c ∷ s) = if nat_eq c b'/' then s else c ∷ s

unfoldable pub is_safe_route_path : String → Bool
unfolding split route_path_regex
is_safe_route_path value =
    if not (route_path_regex value)
    then false
    else not (any has_dots (split b'/' (trim_slash (codes value))))

-- ^/dev/dri/renderD[0-9]{1,5}$
abbrev render_number : List ℕ → List ℕ → Bool
render_number [] s = leb 1 (length s) && leb (length s) 5 && all is_digit s
render_number (p ∷ ps) [] = false
render_number (p ∷ ps) (c ∷ s) = nat_eq c p && render_number ps s

unfoldable pub drm_render_device_pattern : String → Bool
drm_render_device_pattern s = render_number (codes "/dev/dri/renderD") (codes s)

domain_tests :
    (domain_regex "sdbx.example.com" ≡ true)
    × (domain_regex "localhost" ≡ false)
    × (domain_regex "a-.example.com" ≡ false)
    × (domain_regex "a..com" ≡ false)
    × (domain_regex "a.c" ≡ false)
unfolding domain_regex
domain_tests = (refl, refl, refl, refl, refl)

umask_tests :
    (umask_regex "002" ≡ true)
    × (umask_regex "0022" ≡ true)
    × (umask_regex "1022" ≡ false)
    × (umask_regex "8" ≡ false)
unfolding umask_regex
umask_tests = (refl, refl, refl, refl)

route_path_tests :
    (is_safe_route_path "/" ≡ true)
    × (is_safe_route_path "/tv/a.b" ≡ true)
    × (is_safe_route_path "/a/../b" ≡ false)
    × (is_safe_route_path "/a//b" ≡ false)
unfolding is_safe_route_path
route_path_tests = (refl, refl, refl, refl)

device_tests :
    (drm_render_device_pattern "/dev/dri/renderD128" ≡ true)
    × (drm_render_device_pattern "/dev/dri/renderD" ≡ false)
    × (drm_render_device_pattern "/dev/dri/renderD123456" ≡ false)
unfolding drm_render_device_pattern
device_tests = (refl, refl, refl)
