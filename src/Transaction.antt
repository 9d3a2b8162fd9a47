-- ===== src/Transaction.antt =====
-- internal/generator/transaction.go: the journal that the initializer and every runtime change write
-- before they touch a file of the project, and the checks that it passes before it is believed.
pub mod PathWithin
pub mod Journal
pub mod UniquePaths
pub mod Files
pub mod Promotion
pub mod Elsewhere
pub mod Restores
pub mod Recovery
mod Tests
mod Disk
use sdbx.Base.{
  ℕ, zero, suc, ◌>>◌, for_each, String, Bool, true, false, ◌==◌, ◌!=◌, not, ◌&&◌, ◌||◌, List, [],
  ◌∷◌, Option, none, some, Result, ok, err, Check, fine, fail_if, any, all, length, nat_eq,
  in_range, has_prefix, codes, codes_eq, Message, plain, if◌then◌else◌, ◌+◌,
}
use sdbx.Base.Int.{ℤ, pos, negsuc, below}
use sdbx.Base.Paths.{
  CleanPath, Element, dotdot, is_abs, is_own_dir, clean, rel, path_eq, render, slashes,
}

pub record TransactionEntry : Type 0 where
  pub kind : String
  pub source : String
  pub target : String
  pub backup : String
  pub existed : Bool
  pub original_mode : ℕ
  pub original_uid : Option ℤ
  pub original_gid : Option ℤ
  pub desired_mode : ℕ
  pub staged_digest : String
  pub backup_digest : String

pub record TransactionManifest : Type 0 where
  pub version : ℤ
  pub state : String
  pub project_root : String
  pub secrets_root : String
  pub allowed_roots : List String
  pub entries : List TransactionEntry

abbrev pub transaction_schema_version : ℕ
transaction_schema_version = 3

abbrev pub digest_transaction_version : ℕ
digest_transaction_version = 2

abbrev pub legacy_transaction_version : ℕ
legacy_transaction_version = 1

-- The test on the relative path. An element of it never starts with a slash.
abbrev pub stays_inside : Option (List Element) → Bool
stays_inside none = false
stays_inside (some []) = true
stays_inside (some (p ∷ ps)) = not (codes_eq p dotdot)

unfoldable pub path_within : String → String → Bool
path_within root target = stays_inside (rel (clean root) (clean target))

unfoldable pub paths_overlap : String → String → Bool
paths_overlap left right = path_within left right || path_within right left

abbrev pub is_seen : CleanPath → List CleanPath → Bool
is_seen p seen = any (λ q. path_eq q p) seen

-- The loop of `uniqueCleanPaths`, with the paths seen so far.
unfoldable pub unique_from : List CleanPath → List String → List CleanPath
unique_from seen [] = []
unique_from seen (path ∷ paths) =
    let p = clean path in
    let rest = unique_from (if is_seen p seen then seen else p ∷ seen) paths in
    if is_seen p seen then rest else p ∷ rest

unfoldable pub unique_clean_paths : List String → List CleanPath
unique_clean_paths paths = unique_from [] paths

unfoldable pub path_depth : String → ℕ
path_depth path = slashes (render (clean path))

abbrev drop_codes : ℕ → List ℕ → List ℕ
drop_codes zero s = s
drop_codes (suc n) [] = []
drop_codes (suc n) (c ∷ s) = drop_codes n s

-- A text with another character than ASCII fails in both, whatever its length in bytes.
unfoldable pub valid_transaction_digest : String → Bool
valid_transaction_digest value =
    if not (has_prefix (codes value) (codes "sha256:"))
      || not (nat_eq (length (codes value)) (7 + 64))
    then false
    else all (λ c. in_range b'0' b'9' c || in_range b'a' b'f' c) (drop_codes 7 (codes value))

abbrev pub is_nil {ℓ} : {A : Type ℓ} → Option A → Bool
is_nil none = true
is_nil (some a) = false

pub data JournalError : Type 0 where
  unsupported_version cannot_record_ownership : ℤ → JournalError
  refused : Message → JournalError

abbrev about : String → String → JournalError
about format arg = refused (record { format = format; args = arg ∷ [] })

abbrev refused_plain : String → JournalError
refused_plain message = refused (plain message)

-- version < n
abbrev pub is_older : TransactionManifest → ℕ → Bool
is_older manifest n = below manifest.version n

-- filepath.Dir of a cleaned absolute path is the path itself
abbrev pub is_root : CleanPath → Bool
is_root p = elim p.parts [ [] ↦ true | _ ∷ _ ↦ false ]

abbrev is_version : ℤ → ℕ → Bool
is_version (pos v) n = nat_eq v n
is_version (negsuc v) n = false

xor : Bool → Bool → Bool
xor true b = not b
xor false b = b

abbrev pub check_root : String → Check JournalError
check_root root =
    fail_if (not (is_abs root) || is_own_dir root)
      (about "unsafe initializer transaction root %q" root)

-- The checks on the head of a journal.
unfoldable pub validate_header : TransactionManifest → String → Check JournalError
unfolding xor
validate_header manifest project_root = do
  fail_if
      (not (is_version manifest.version transaction_schema_version)
        && not (is_version manifest.version digest_transaction_version)
        && not (is_version manifest.version legacy_transaction_version))
      (unsupported_version manifest.version)
  fail_if (not (path_eq (clean manifest.project_root) (clean project_root)))
      (refused_plain "initializer transaction belongs to a different project")
  fail_if (not (is_abs manifest.secrets_root) || is_root (clean manifest.secrets_root))
      (refused_plain "initializer transaction has an unsafe secrets root")
  fail_if
      (manifest.state != "prepared"
        && manifest.state != "promoting"
        && manifest.state != "committed")
      (about "invalid initializer transaction state %q" manifest.state)
  fail_if (nat_eq (length manifest.allowed_roots) 0)
      (refused_plain "initializer transaction has no allowed roots")
  for_each check_root manifest.allowed_roots

-- The digests of a file entry of a journal that has digests.
unfoldable pub validate_digests : TransactionEntry → Check JournalError
unfolding xor
validate_digests entry = do
  fail_if (not (valid_transaction_digest entry.staged_digest))
      (about "initializer transaction staged digest is invalid for %s" entry.target)
  fail_if
      (xor entry.existed (entry.backup_digest != "")
        || entry.backup_digest != "" && not (valid_transaction_digest entry.backup_digest))
      (about "initializer transaction backup digest is invalid for %s" entry.target)

-- The checks on one entry, all but the one for a duplicate target.
unfoldable pub validate_entry : TransactionManifest → String → TransactionEntry → Check JournalError
unfolding xor
validate_entry manifest transaction_root entry = do
  fail_if (entry.kind != "dir" && entry.kind != "file")
      (about "invalid initializer transaction entry kind %q" entry.kind)
  fail_if (entry.kind == "dir" && (entry.staged_digest != "" || entry.backup_digest != ""))
      (refused_plain "initializer transaction directory entry has file digests")
  fail_if (xor (is_nil entry.original_uid) (is_nil entry.original_gid))
      (about "initializer transaction ownership is incomplete for %s" entry.target)
  fail_if (entry.kind != "file" && not (is_nil entry.original_uid))
      (refused_plain "initializer transaction directory entry has file ownership")
  fail_if (is_older manifest transaction_schema_version && not (is_nil entry.original_uid))
      (cannot_record_ownership manifest.version)
  (if not (is_older manifest digest_transaction_version) && entry.kind == "file"
      then validate_digests entry
      else fine)
  fail_if (not (path_within transaction_root entry.source))
      (about "initializer transaction source escapes journal: %s" entry.source)
  fail_if (entry.backup != "" && not (path_within transaction_root entry.backup))
      (about "initializer transaction backup escapes journal: %s" entry.backup)
  fail_if
      (not (any (λ root. path_within root entry.target) manifest.allowed_roots)
        || path_within transaction_root entry.target)
      (about "initializer transaction target is outside managed roots: %s" entry.target)

-- The loop over the entries, with the targets seen so far.
unfoldable pub validate_entries :
    TransactionManifest → String → List CleanPath → List TransactionEntry → Check JournalError
validate_entries manifest transaction_root seen [] = fine
validate_entries manifest transaction_root seen (entry ∷ entries) =
    let target = clean entry.target in
    let rest = validate_entries manifest transaction_root (target ∷ seen) entries in
    validate_entry manifest transaction_root entry
    >> fail_if (is_seen target seen)
        (about "duplicate initializer transaction target %s" entry.target)
    >> rest

unfoldable pub validate_transaction_manifest :
    TransactionManifest → String → String → Check JournalError
validate_transaction_manifest manifest project_root transaction_root =
    validate_header manifest project_root
    >> validate_entries manifest transaction_root [] manifest.entries
