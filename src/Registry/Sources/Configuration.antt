-- ===== src/Registry/Sources/Configuration.antt =====
-- internal/registry/git.go and registry.go: the validation of the configured sources.
use sdbx.Base.{
  ℕ, String, Bool, true, false, ◌==◌, ◌!=◌, not, ◌&&◌, ◌||◌, List, [], ◌∷◌, Option, none, some,
  Message, plain, Result, ok, err, Check, fine, fail_if, ◌>>◌, nat_eq, length, all, any, codes,
  codes_eq, split, has_prefix, in_range, if◌then◌else◌, ◌<>◌, ◌≡◌, refl, zero, suc,
}
use sdbx.Base.Paths.{is_abs, clean, render}
use sdbx.Config.{contains}
use sdbx.Config.Patterns.{is_digit, is_lower, is_alnum, name_of}
use sdbx.Registry.Validator.Permissions.{is_valid_catalog_permission}
use sdbx.Registry.Validator.Report.{say_of}
use sdbx.Registry.Sources.{Source}

-- What `url.Parse` returns: the user part, and whether it holds a password.
pub record ParsedUrl : Type 0 where
  pub scheme : String
  pub user : Option Bool
  pub hostname : String

is_hex : ℕ → Bool
is_hex c = is_digit c || in_range b'a' b'f' c || in_range b'A' b'F' c

hex_digest : String → Bool
unfolding is_hex
hex_digest s =
    all is_hex (codes s) && (nat_eq (length (codes s)) 40 || nat_eq (length (codes s)) 64)

-- ^(?:[0-9a-fA-F]{40}|[0-9a-fA-F]{64})$
unfoldable pub immutable_git_ref_pattern : String → Bool
unfolding hex_digest
immutable_git_ref_pattern s = hex_digest s

-- ^[a-z][a-z0-9-]{0,62}$
unfoldable pub source_name_pattern : String → Bool
source_name_pattern s =
    name_of is_lower (λ c. is_lower c || is_digit c || nat_eq c b'-') 62 (codes s)

is_base64 : ℕ → Bool
is_base64 c = is_alnum c || nat_eq c b'+' || nat_eq c b'/'

digest_rest : ℕ → List ℕ → Bool
unfolding is_base64
digest_rest zero [] = true
digest_rest zero (c ∷ []) = nat_eq c b'='
digest_rest zero (c ∷ d ∷ s) = false
digest_rest (suc n) [] = false
digest_rest (suc n) (c ∷ s) = is_base64 c && digest_rest n s

after : List ℕ → List ℕ → Option (List ℕ)
after [] s = some s
after (p ∷ ps) [] = none
after (p ∷ ps) (c ∷ s) = if nat_eq p c then after ps s else none

-- ^SHA256:[A-Za-z0-9+/]{43}=?$
unfoldable pub ssh_fingerprint : String → Bool
unfolding digest_rest after
ssh_fingerprint s = elim (after (codes "SHA256:") (codes s)) [
  | none ↦ false
  | some rest ↦ digest_rest 43 rest
]

-- ^(?:[0-9A-Fa-f]{40}|[0-9A-Fa-f]{64})$ and the fingerprints of SSH keys.
unfoldable pub is_valid_signing_fingerprint : String → Bool
unfolding hex_digest
is_valid_signing_fingerprint s = hex_digest s || ssh_fingerprint s

-- fmt.Errorf("… %s: %w", name, reason)
abbrev pub within : String → String → Message → Message
within prefix name reason = record { format = prefix <> reason.format; args = name ∷ reason.args }

-- A text that is not empty, of one class of characters.
word : (ℕ → Bool) → List ℕ → Bool
word p [] = false
word p (c ∷ s) = all p (c ∷ s)

host_and_path : List (List ℕ) → Bool
unfolding word
host_and_path (host ∷ path ∷ []) =
    word (λ c. is_alnum c || nat_eq c b'.' || nat_eq c b'-') host
    && word
        (λ c.
          is_alnum c
          || nat_eq c b'.'
          || nat_eq c b'_'
          || nat_eq c b'~'
          || nat_eq c b'/'
          || nat_eq c b'-')
        path
host_and_path _ = false

user_and_rest : List (List ℕ) → Bool
unfolding word split host_and_path
user_and_rest (user ∷ rest ∷ []) =
    word (λ c. is_alnum c || nat_eq c b'.' || nat_eq c b'_' || nat_eq c b'-') user
    && host_and_path (split b':' rest)
user_and_rest _ = false

-- ^[A-Za-z0-9._-]+@[A-Za-z0-9.-]+:[A-Za-z0-9._~/-]+$
unfoldable pub scp_like_git_url : String → Bool
unfolding user_and_rest split
scp_like_git_url s = user_and_rest (split b'@' (codes s))

is_url_space : ℕ → Bool
is_url_space c = nat_eq c 13 || nat_eq c 10 || nat_eq c 9 || nat_eq c 32

-- The switch on the scheme of a URL.
validate_scheme : ParsedUrl → Check Message
validate_scheme parsed =
    if parsed.scheme == "https"
    then elim parsed.user [
      | none ↦ fine
      | some _ ↦ err (plain "source URL must not contain credentials; use a credential helper")
    ]
    else if parsed.scheme == "ssh"
    then elim parsed.user [
      | none ↦ fine
      | some has_password ↦ fail_if has_password (plain "source URL must not contain a password")
    ]
    else err (plain "source URL must use HTTPS or SSH")

validate_parsed : Result String ParsedUrl → Check Message
unfolding validate_scheme
validate_parsed (err reason) = err (say_of "invalid source URL: %w" reason)
validate_parsed (ok parsed) =
    validate_scheme parsed
    >> fail_if (parsed.hostname == "") (plain "source URL must include a host")

-- A loop over a list that refuses an element of bad form, or one that was met before.
each_once : (String → Bool) → String → String → List String → List String → Check Message
each_once is_valid invalid duplicate seen [] = fine
each_once is_valid invalid duplicate seen (x ∷ xs) =
    fail_if (not (is_valid x)) (say_of invalid x)
    >> (fail_if (contains seen x) (say_of duplicate x)
        >> each_once is_valid invalid duplicate (x ∷ seen) xs)

is_valid_grant : String → Bool
is_valid_grant permission =
    permission == "*"
    || is_valid_catalog_permission permission
    || permission == "capability:*"
    || permission == "secret:*"

host_name : List ℕ → Bool
unfolding word
host_name s = word (λ c. is_lower c || is_digit c || nat_eq c b'.' || nat_eq c b'-') s

registry_parts : List (List ℕ) → Bool
unfolding host_name word
registry_parts (host ∷ []) = host_name host
registry_parts (host ∷ port ∷ []) = host_name host && word is_digit port
registry_parts _ = false

-- ^[a-z0-9.-]+(?::[0-9]+)?$
is_valid_registry : String → Bool
unfolding registry_parts split
is_valid_registry registry = registry == "*" || registry_parts (split b':' (codes registry))

module _ (parse_url : String → Result String ParsedUrl) where
  unfoldable pub validate_git_source_url : String → Check Message
  unfolding is_url_space validate_parsed
  validate_git_source_url raw_url =
      if raw_url == "" || any is_url_space (codes raw_url)
      then err (plain "source URL is required and must not contain whitespace")
      else if scp_like_git_url raw_url
      then fine
      else validate_parsed (parse_url raw_url)

  unfoldable pub validate_git_source_config : Source → Check Message
  unfolding each_once is_valid_grant is_valid_registry
  validate_git_source_config src =
      let path = render (clean src.path) in
      fail_if (not (source_name_pattern src.name))
        (plain "source name must be lowercase alphanumeric with hyphens")
      >> (validate_git_source_url src.url
          >> (fail_if (not (immutable_git_ref_pattern src.ref)) (
                if src.legacy_branch != ""
                then say_of
                    "mutable branch %q is no longer supported; configure an exact 40- or 64-character commit ref"
                    src.legacy_branch
                else plain "source ref must be an exact 40- or 64-character commit hash")
              >> (fail_if (not (is_valid_signing_fingerprint src.signing_key)) (
                    plain "signingKey must be a full OpenPGP or SHA256 SSH signing-key fingerprint")
                  >> (fail_if
                        (src.path != ""
                          && (is_abs src.path
                              || codes_eq path (codes "..")
                              || has_prefix path (codes "../")))
                        (plain "source path must stay within the Git repository")
                      >> (each_once is_valid_grant "invalid catalog permission grant %q"
                            "duplicate catalog permission grant %q" []
                            src.trust.allow_catalog_permissions
                          >> each_once is_valid_registry "invalid allowed registry %q"
                              "duplicate allowed registry %q" [] src.trust.allowed_registries)))))

  unfoldable pub validate_source_config : Source → Check Message
  validate_source_config src =
      if src.source_type == "git"
      then validate_git_source_config src
      else if src.source_type == "local"
      then fail_if (not (source_name_pattern src.name))
          (plain "source name must be lowercase alphanumeric with hyphens")
      else err (say_of "unsupported configurable source type %q" src.source_type)

  -- The loop of `validateConfiguredSources`, behind the names of the sources met so far.
  unfoldable pub validate_names : List String → List Source → Check Message
  validate_names source_names [] = fine
  validate_names source_names (source ∷ sources) =
      if contains source_names source.name
      then err (say_of "duplicate or reserved source name: %s" source.name)
      else elim (validate_source_config source) [
        | err reason ↦ err (within "invalid source %s: " source.name reason)
        | ok _ ↦ validate_names (source.name ∷ source_names) sources
      ]

  unfoldable pub validate_configured_sources : List Source → Check Message
  validate_configured_sources sources = validate_names ("embedded" ∷ []) sources

ref_test :
    (immutable_git_ref_pattern "0123456789abcdefABCDEF0123456789abcdef01" ≡ true)
    × (immutable_git_ref_pattern "main" ≡ false)
    × (is_valid_signing_fingerprint "SHA256:0123456789012345678901234567890123456789+/A" ≡ true)
    × (is_valid_signing_fingerprint "SHA256:0123456789012345678901234567890123456789+/A==" ≡ false)
unfolding immutable_git_ref_pattern is_valid_signing_fingerprint ssh_fingerprint
ref_test = (refl, refl, refl, refl)

url_test :
    (scp_like_git_url "git@github.com:get-sdbx/sdbx.git" ≡ true)
    × (scp_like_git_url "git@github.com" ≡ false)
    × (is_valid_registry "ghcr.io:443" ≡ true)
    × (is_valid_registry "ghcr.io:" ≡ false)
unfolding scp_like_git_url is_valid_registry
url_test = (refl, refl, refl, refl)
