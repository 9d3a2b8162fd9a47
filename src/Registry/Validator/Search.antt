-- ===== src/Registry/Validator/Search.antt =====
-- regexp.FindAllStringSubmatch of the patterns with one group, on texts.
use Prim.Native.Char.{code}
use sdbx.Base.{
  ℕ, zero, suc, ◌+◌, String, Bool, true, false, ◌&&◌, ◌||◌, List, [], ◌∷◌, Option, none, some,
  nat_eq, codes, length, if◌then◌else◌, ◌≡◌, refl,
}
use sdbx.Config.Patterns.{is_digit, is_lower, is_upper, is_letter, is_alnum}

-- The longest prefix of at most `limit` characters of a class.
take_class : (ℕ → Bool) → ℕ → String → String
take_class p zero s = ""
take_class p (suc limit) String.[] = ""
take_class p (suc limit) (String.◌∷◌ c s) =
    let rest = take_class p limit s in if p (code c) then String.◌∷◌ c rest else ""

-- A group: a first character of one class, and the characters of another class behind it.
group : (ℕ → Bool) → (ℕ → Bool) → ℕ → String → Option String
unfolding take_class
group head tail limit String.[] = none
group head tail limit (String.◌∷◌ c s) =
    if head (code c) then some (String.◌∷◌ c (take_class tail limit s)) else none

-- The group behind a literal prefix.
group_behind : List ℕ → (String → Option String) → String → Option String
group_behind [] g s = g s
group_behind (x ∷ xs) g String.[] = none
group_behind (x ∷ xs) g (String.◌∷◌ c s) = if nat_eq (code c) x then group_behind xs g s else none

-- A match at the start of a text: its group, and the number of characters behind the first one.
abbrev Hit : Type 0
Hit = Option (String × ℕ)

abbrev skip_of : Hit → ℕ → ℕ
skip_of none skip = skip
skip_of (some (_, n)) skip = n

abbrev emit : Hit → List String → List String
emit none rest = rest
emit (some (found, _)) rest = found ∷ rest

abbrev hit_at : (String → Hit) → ℕ → String → Hit
hit_at m zero s = m s
hit_at m (suc skip) s = none

abbrev less : ℕ → ℕ
less zero = zero
less (suc n) = n

-- The matches of a text from left to right, without an overlap.
find_all : (String → Hit) → ℕ → String → List String
find_all m skip String.[] = []
find_all m skip (String.◌∷◌ c s) =
    let hit = hit_at m skip (String.◌∷◌ c s) in
    let rest = find_all m (skip_of hit (less skip)) s in emit hit rest

with_length : ℕ → Option String → Hit
with_length n none = none
with_length n (some s) = some (s, n + length (codes s))

-- service:([a-z0-9][a-z0-9-]{0,62})
unfoldable pub service_references : String → List String
unfolding find_all group group_behind with_length
service_references s =
    find_all
      (λ t. with_length 7 (
        group_behind (codes "service:")
          (group (λ c. is_lower c || is_digit c) (λ c. is_lower c || is_digit c || nat_eq c b'-')
            62)
          t))
      0 s

-- [A-Za-z][A-Za-z0-9_]* behind a prefix of n + 1 characters; a text is shorter than the limit
abbrev identifier_limit : String → ℕ
identifier_limit s = length (codes s)

-- \.Config\.([A-Za-z][A-Za-z0-9_]*)
unfoldable pub config_references : String → List String
unfolding find_all group group_behind with_length
config_references s =
    find_all
      (λ t. with_length 7 (
        group_behind (codes ".Config.")
          (group is_letter (λ c. is_alnum c || nat_eq c b'_') (identifier_limit s)) t))
      0 s

is_blank : ℕ → Bool
is_blank c = nat_eq c 9 || nat_eq c 10 || nat_eq c 12 || nat_eq c 13 || nat_eq c 32

root_group : ℕ → String → Option String
unfolding group group_behind
root_group limit s =
    group_behind (codes ".") (group is_upper (λ c. is_alnum c || nat_eq c b'_') limit) s

-- A character of [\s({], and the group behind it.
root_behind : ℕ → String → Hit
unfolding with_length root_group is_blank
root_behind limit String.[] = none
root_behind limit (String.◌∷◌ c s) =
    if is_blank (code c) || nat_eq (code c) b'(' || nat_eq (code c) b'{'
    then with_length 1 (root_group limit s)
    else none

-- The first match may stand at the start of the text.
root_from : Hit → ℕ → String → List String
unfolding find_all root_behind
root_from none limit s = find_all (root_behind limit) 0 s
root_from (some (found, n)) limit s = found ∷ find_all (root_behind limit) (suc n) s

-- (?:^|[\s({])\.([A-Z][A-Za-z0-9_]*)
unfoldable pub root_references : String → List String
unfolding root_from root_group with_length
root_references s =
    root_from (with_length 0 (root_group (identifier_limit s) s)) (identifier_limit s) s

is_secret_end : List ℕ → Bool
unfolding is_blank
is_secret_end [] = false
is_secret_end (c ∷ s) = nat_eq c b'.' || is_blank c || nat_eq c b'}' || nat_eq c b'['

secret_at : List ℕ → List ℕ → Bool
unfolding is_secret_end
secret_at [] s = is_secret_end s
secret_at (x ∷ xs) [] = false
secret_at (x ∷ xs) (c ∷ s) = nat_eq c x && secret_at xs s

secret_in : List ℕ → Bool
unfolding secret_at
secret_in [] = false
secret_in (c ∷ s) = secret_at (codes ".Secrets") (c ∷ s) || secret_in s

-- \.Secrets(?:[.\s}\[])
unfoldable pub catalog_secrets_reference : String → Bool
unfolding secret_in
catalog_secrets_reference s = secret_in (codes s)

search_test :
    (service_references "service:vpn service:gluetun-2x" ≡ "vpn" ∷ "gluetun-2x" ∷ [])
    × (config_references "{{ .Config.PUID }}:{{ .Config.PGID }}" ≡ "PUID" ∷ "PGID" ∷ [])
    × (root_references ".A {{ .Config.X }}{{.Env}}" ≡ "A" ∷ "Config" ∷ "Env" ∷ [])
    × (catalog_secrets_reference "{{ .Secrets.x }}" ≡ true)
unfolding service_references config_references root_references catalog_secrets_reference
search_test = (refl, refl, refl, refl)
