-- ===== src/Registry/Lock.antt =====
-- internal/registry/lock.go and types.go: the types of a lock file, and the tests on its texts.
pub mod Validate
pub mod Images
pub mod Immutable
pub mod Pinned
pub mod Resolves
pub mod Selected
mod Tests
use Prim.Native.Char.{Char, code}
use sdbx.Base.{
  ℕ, zero, suc, String, Bool, true, false, ◌==◌, ◌!=◌, not, ◌&&◌, ◌||◌, List, [], ◌∷◌, Option, none,
  some, Message, plain, Result, ok, err, Check, fine, fail_if, for_each, ◌>>◌, nat_eq, ◌+◌, length,
  all, codes, codes_eq, has_prefix, if◌then◌else◌, ◌<>◌, ◌≡◌, refl,
}
use sdbx.Base.Int.{ℤ, pos, negsuc}
use sdbx.Base.Maps.{Map, lookup, has}
use sdbx.Base.Paths.{CleanPath, is_abs, clean, render}
use sdbx.Config.{contains}
use sdbx.Registry.Validator.Report.{say_of, say_both}
use sdbx.Registry.Validator.Patterns.{image_tag_pattern}
use sdbx.Registry.Validator.Security.{image_reference, repository_registry}
use sdbx.Registry.Sources.Configuration.{
  immutable_git_ref_pattern, is_valid_signing_fingerprint, within,
}

-- `generated_at` is the time in nanoseconds since the zero time.
pub record LockFileMetadata : Type 0 where
  pub version : ℤ
  pub generated_at : ℤ
  pub cli_version : String
  pub catalog_version : String
  pub config_digest : String
  pub catalog_digest : String

pub record LockedSource : Type 0 where
  pub source_type : String
  pub url : String
  pub path : String
  pub ref : String
  pub commit : String
  pub signing_key : String
  pub priority : ℤ
  pub permissions : List String
  pub registries : List String
  pub digest : String
  pub verified : Bool

pub record LockedImage : Type 0 where
  pub registry : String
  pub repository : String
  pub tag : String
  pub digest : String
  pub platform : String
  pub platform_digest : String
  pub platform_digests : Map String

pub record LockedService : Type 0 where
  pub source : String
  pub definition_version : String
  pub definition_digest : String
  pub image : LockedImage
  pub resolved_from : String

pub record LockFile : Type 0 where
  pub api_version : String
  pub kind : String
  pub metadata : LockFileMetadata
  pub sources : Map LockedSource
  pub services : Map LockedService
  pub install_order : List String
  pub generated_files : Map String

abbrev pub lock_schema_version : ℕ
lock_schema_version = 2

-- value[n:]
abbrev drop_text : ℕ → String → String
drop_text zero s = s
drop_text (suc n) String.[] = ""
drop_text (suc n) (String.◌∷◌ c s) = drop_text n s

-- A text with another character than ASCII fails in both, whatever its length in bytes.
unfoldable pub is_sha256_digest : String → Bool
is_sha256_digest value =
    nat_eq (length (codes value)) (7 + 64)
    && has_prefix (codes value) (codes "sha256:")
    && immutable_git_ref_pattern (drop_text 7 value)

-- strings.Split(value, "/")
abbrev add_char : Char → List String → List String
add_char c [] = String.◌∷◌ c "" ∷ []
add_char c (part ∷ parts) =
    if nat_eq (code c) b'/' then "" ∷ part ∷ parts else String.◌∷◌ c part ∷ parts

abbrev split_slashes : String → List String
split_slashes String.[] = "" ∷ []
split_slashes (String.◌∷◌ c s) = add_char c (split_slashes s)

abbrev two_or_three : List String → Bool
two_or_three parts = nat_eq (length parts) 2 || nat_eq (length parts) 3

unfoldable pub is_valid_platform : String → Bool
is_valid_platform value =
    let parts = split_slashes value in
    two_or_three parts && all (λ part. not (part == "") && image_tag_pattern part) parts

abbrev pub generated_config_prefix : String
generated_config_prefix = "@config/"

unfoldable pub clean_generated_file_path : String → Result Message CleanPath
clean_generated_file_path path =
    let cleaned = render (clean path) in
    if path == "" || is_abs path
    then err (plain "path must be relative")
    else if codes_eq cleaned (codes ".")
        || codes_eq cleaned (codes "..")
        || has_prefix cleaned (codes "../")
    then err (plain "path escapes its managed root")
    else ok (clean path)

pub data GeneratedFileRoot : Type 0 where
  project_root config_root : GeneratedFileRoot

abbrev at_root :
    String
    → GeneratedFileRoot
    → Result Message CleanPath
    → Result Message (GeneratedFileRoot × CleanPath)
at_root key root (err reason) = err (within "invalid generated file key %q: " key reason)
at_root key root (ok path) = ok (root, path)

unfoldable pub split_generated_file_key : String → Result Message (GeneratedFileRoot × CleanPath)
split_generated_file_key key =
    if has_prefix (codes key) (codes generated_config_prefix)
    then at_root key config_root (clean_generated_file_path (drop_text 8 key))
    else at_root key project_root (clean_generated_file_path key)

key_test :
    (is_sha256_digest "sha256:0123456789abcdef0123456789abcdef0123456789abcdef0123456789abcdef"
      ≡ true)
    × (is_sha256_digest "sha256:0123456789abcdef" ≡ false)
    × (is_valid_platform "linux/arm/v7" ≡ true)
    × (is_valid_platform "linux" ≡ false)
    × (is_valid_platform "linux//v7" ≡ false)
unfolding is_sha256_digest is_valid_platform image_tag_pattern immutable_git_ref_pattern has_prefix
key_test = (refl, refl, refl, refl, refl)
