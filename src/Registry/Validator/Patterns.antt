-- ===== src/Registry/Validator/Patterns.antt =====
-- The regular expressions of internal/registry/validator.go and image_resolver.go, as tests on code
-- points, and the two searches for every match.
use sdbx.Base.{
  ℕ, String, Bool, true, false, not, ◌&&◌, ◌||◌, List, [], ◌∷◌, Option, none, some, nat_eq, codes,
  codes_eq, all, split, if◌then◌else◌, ◌≡◌, refl,
}
use sdbx.Config.Patterns.{is_digit, is_lower, is_upper, is_alnum, name_of, last_is}

abbrev is_name_char : ℕ → Bool
is_name_char c = is_lower c || is_digit c || nat_eq c b'-'

-- A text behind a given prefix, with a test of the rest.
abbrev behind : List ℕ → (List ℕ → Bool) → List ℕ → Bool
behind [] p s = p s
behind (x ∷ xs) p [] = false
behind (x ∷ xs) p (c ∷ s) = nat_eq c x && behind xs p s

-- [a-z][a-z0-9_]* and the like, of any length
abbrev word_of : (ℕ → Bool) → (ℕ → Bool) → List ℕ → Bool
word_of head tail [] = false
word_of head tail (c ∷ s) = head c && all tail s

abbrev one_of : List String → List ℕ → Bool
one_of [] s = false
one_of (t ∷ ts) s = codes_eq s (codes t) || one_of ts s

-- [a-z0-9][a-z0-9-]{0,62}
abbrev label : List ℕ → Bool
label s = name_of (λ c. is_lower c || is_digit c) is_name_char 62 s

-- ^capability:[A-Z][A-Z0-9_]*$
unfoldable pub capability_permission_pattern : String → Bool
capability_permission_pattern s =
    behind (codes "capability:") (word_of is_upper (λ c. is_upper c || is_digit c || nat_eq c b'_'))
      (codes s)

-- ^secret:[a-z][a-z0-9_]*$
unfoldable pub secret_permission_pattern : String → Bool
secret_permission_pattern s =
    behind (codes "secret:") (word_of is_lower (λ c. is_lower c || is_digit c || nat_eq c b'_'))
      (codes s)

-- ^network:(?:edge|app|download|management)$
unfoldable pub network_permission_pattern : String → Bool
network_permission_pattern s =
    behind (codes "network:") (one_of ("edge" ∷ "app" ∷ "download" ∷ "management" ∷ [])) (codes s)

-- ^service-network:[a-z0-9][a-z0-9-]{0,62}$
unfoldable pub service_network_permission_pattern : String → Bool
service_network_permission_pattern s = behind (codes "service-network:") label (codes s)

-- ^service-override:[a-z0-9][a-z0-9-]{0,62}$
unfoldable pub service_override_permission_pattern : String → Bool
service_override_permission_pattern s = behind (codes "service-override:") label (codes s)

-- ^route:(?:admin-only|protected|native-auth|public)$
unfoldable pub route_permission_pattern : String → Bool
route_permission_pattern s =
    behind (codes "route:") (one_of ("admin-only" ∷ "protected" ∷ "native-auth" ∷ "public" ∷ []))
      (codes s)

-- ^[a-z][a-z0-9-]{0,31}$
unfoldable pub launcher_icon_pattern : String → Bool
launcher_icon_pattern s = name_of is_lower is_name_char 31 (codes s)

-- ^[a-z][a-z0-9-]*[a-z0-9]$|^[a-z]$
service_name_codes : List ℕ → Bool
unfolding last_is
service_name_codes [] = false
service_name_codes (c ∷ s) =
    is_lower c && all is_name_char s && last_is (λ d. is_lower d || is_digit d) (c ∷ s)

unfoldable pub is_valid_service_name : String → Bool
unfolding service_name_codes
is_valid_service_name s = service_name_codes (codes s)

unfoldable pub is_valid_subdomain : String → Bool
unfolding service_name_codes
is_valid_subdomain s = service_name_codes (codes s)

-- What was read of a path component: nothing or a separator, a letter or digit, one underscore.
pub data Progress : Type 0 where
  wants_alnum in_alnum after_underscore : Progress

component_step : Progress → ℕ → Option Progress
component_step wants_alnum c = if is_lower c || is_digit c then some in_alnum else none
component_step in_alnum c =
    if is_lower c || is_digit c
    then some in_alnum
    else if nat_eq c b'_'
    then some after_underscore
    else if nat_eq c b'.' || nat_eq c b'-'
    then some wants_alnum
    else none
component_step after_underscore c =
    if is_lower c || is_digit c
    then some in_alnum
    else if nat_eq c b'_'
    then some wants_alnum
    else none

is_done : Option Progress → Bool
is_done none = false
is_done (some wants_alnum) = false
is_done (some in_alnum) = true
is_done (some after_underscore) = false

component_from : Option Progress → List ℕ → Option Progress
unfolding component_step
component_from o [] = o
component_from none (c ∷ s) = none
component_from (some p) (c ∷ s) = component_from (component_step p c) s

-- [a-z0-9]+(?:(?:[._-]|__)[a-z0-9]+)*
component : List ℕ → Bool
unfolding component_from is_done
component s = is_done (component_from (some wants_alnum) s)

with_port : List (List ℕ) → Bool
unfolding component
with_port [] = false
with_port (name ∷ []) = component name
with_port (name ∷ port ∷ []) = component name && not (codes_eq port []) && all is_digit port
with_port (name ∷ port ∷ more ∷ rest) = false

repository_parts : List (List ℕ) → Bool
unfolding with_port component split
repository_parts [] = false
repository_parts (first ∷ rest) = with_port (split b':' first) && all component rest

-- ^[a-z0-9]+(?:(?:[._-]|__)[a-z0-9]+)*(?::[0-9]+)?(?:/[a-z0-9]+(?:(?:[._-]|__)[a-z0-9]+)*)*$
unfoldable pub image_repository_pattern : String → Bool
unfolding repository_parts split
image_repository_pattern s = repository_parts (split b'/' (codes s))

-- ^[A-Za-z0-9_][A-Za-z0-9_.-]{0,127}$
unfoldable pub image_tag_pattern : String → Bool
image_tag_pattern s =
    name_of (λ c. is_alnum c || nat_eq c b'_')
      (λ c. is_alnum c || nat_eq c b'_' || nat_eq c b'.' || nat_eq c b'-') 127 (codes s)

image_test :
    (image_repository_pattern "ghcr.io/org/a__b-c.d" ≡ true)
    × (image_repository_pattern "localhost:5000/x" ≡ true)
    × (image_repository_pattern "a/b:5" ≡ false)
    × (image_repository_pattern "a--b" ≡ false)
    × (image_repository_pattern "a//b" ≡ false)
unfolding image_repository_pattern
image_test = (refl, refl, refl, refl, refl)

permission_test :
    (capability_permission_pattern "capability:NET_ADMIN" ≡ true)
    × (secret_permission_pattern "secret:1x" ≡ false)
    × (route_permission_pattern "route:public" ≡ true)
    × (network_permission_pattern "network:edges" ≡ false)
    × (is_valid_service_name "a-b" ≡ true)
    × (is_valid_service_name "a-" ≡ false)
    × (is_valid_service_name "a" ≡ true)
unfolding capability_permission_pattern secret_permission_pattern route_permission_pattern
    network_permission_pattern is_valid_service_name
permission_test = (refl, refl, refl, refl, refl, refl, refl)
