-- ===== src/Transaction/Journal.antt =====
-- internal/generator/transaction.go: what an accepted journal can make the recovery do.
use sdbx.Base.{
  String, true, false, ◌!=◌, List, [], ◌∷◌, ◌≡◌, ◌≢◌, sym, ◌⊎◌, ok, ◌>>◌, >>-eq-ok, fail_if-eq-ok,
  for_each-eq-ok, All, All-map, any, arith, eq_iff, or-false,
}
use mathlib.Core.Path.{subst}
use sdbx.Base.Paths.Laws.{path_eq→eq, path_eq_refl}
use sdbx.Base.Paths.{CleanPath, is_abs, is_own_dir, clean, path_eq}
use sdbx.Transaction.{
  TransactionEntry, TransactionManifest, path_within, validate_header, validate_entry,
  validate_entries, validate_transaction_manifest, validate_digests, valid_transaction_digest,
  is_older, is_seen, xor, check_root,
}

-- An entry that the recovery can act on: what it reads is in the journal, and what it changes is
-- below a managed root and not in the journal.
pub record IsConfined (manifest : TransactionManifest) (journal : String) (e : TransactionEntry)
    : Type 0 where
  pub kind : (e.kind ≡ "dir") ⊎ (e.kind ≡ "file")
  pub source : path_within journal e.source ≡ true
  pub backup : (e.backup ≡ "") ⊎ (path_within journal e.backup ≡ true)
  pub managed : any (λ root. path_within root e.target) manifest.allowed_roots ≡ true
  pub outside : path_within journal e.target ≡ false
  pub digests :
      is_older manifest 2 ≡ false
      → e.kind ≡ "file"
      → (valid_transaction_digest e.staged_digest ≡ true) × (e.existed ≡ (e.backup_digest != ""))

validate_entry-IsConfined :
    (manifest : TransactionManifest) (journal : String) (e : TransactionEntry)
    → validate_entry manifest journal e ≡ ok tt
    → IsConfined manifest journal e
unfolding validate_entry validate_digests xor
validate_entry-IsConfined manifest journal e h = record {
  kind = ground (arith, eq_iff e.kind "dir", eq_iff e.kind "file");
  source = ground arith;
  backup = ground (arith, eq_iff e.backup "");
  managed = ground arith;
  outside = ground arith;
  digests =
      λ young file. (ground (arith, eq_iff e.kind "file"), ground (arith, eq_iff e.kind "file"));
}

-- No two entries have the same cleaned target.
abbrev pub HasDistinctTargets : List TransactionEntry → Type 0
HasDistinctTargets [] = Unit
HasDistinctTargets (e ∷ es) = All (λ d. clean e.target ≢ clean d.target) es × HasDistinctTargets es

abbrev IsNew : List CleanPath → TransactionEntry → Type 0
IsNew seen e = is_seen (clean e.target) seen ≡ false

record IsListOk (manifest : TransactionManifest) (journal : String) (seen : List CleanPath)
    (es : List TransactionEntry) : Type 0 where
  confined : All (IsConfined manifest journal) es
  fresh : All (IsNew seen) es
  distinct : HasDistinctTargets es

differs : (p q : CleanPath) → path_eq p q ≡ false → p ≢ q
differs p q h same = cc (subst (λ r. path_eq p r ≡ false) (sym same) h, path_eq_refl p)

validate_entries-IsListOk :
    (manifest : TransactionManifest) (journal : String) (seen : List CleanPath)
    (es : List TransactionEntry)
    → validate_entries manifest journal seen es ≡ ok tt
    → IsListOk manifest journal seen es
unfolding validate_entries
validate_entries-IsListOk manifest journal seen [] h = record {
  confined = tt;
  fresh = tt;
  distinct = tt;
}
validate_entries-IsListOk manifest journal seen (e ∷ es) h =
    let (both, rest) = >>-eq-ok (validate_entry manifest journal e >> _) _ h in
    let (one, new) = >>-eq-ok (validate_entry manifest journal e) _ both in
    let later = validate_entries-IsListOk manifest journal (clean e.target ∷ seen) es rest in
    record {
      confined = (validate_entry-IsConfined manifest journal e one, later.confined);
      fresh = (
        fail_if-eq-ok _ _ new,
        All-map (IsNew (clean e.target ∷ seen)) (IsNew seen) es (λ d n. (or-false _ _ n).1)
            later.fresh,
      );
      distinct = (
        All-map (IsNew (clean e.target ∷ seen)) _ es
            (λ d n. differs (clean e.target) (clean d.target) (or-false _ _ n).0) later.fresh,
        later.distinct,
      );
    }

abbrev pub IsDedicatedRoot : String → Type 0
IsDedicatedRoot root = (is_abs root ≡ true) × (is_own_dir root ≡ false)

pub record IsTrusted (manifest : TransactionManifest) (project journal : String) : Type 0 where
  pub own_project : clean manifest.project_root ≡ clean project
  pub roots : All IsDedicatedRoot manifest.allowed_roots
  pub entries : All (IsConfined manifest journal) manifest.entries
  pub distinct : HasDistinctTargets manifest.entries

validate_header-roots :
    (manifest : TransactionManifest) (project : String)
    → validate_header manifest project ≡ ok tt
    → (path_eq (clean manifest.project_root) (clean project) ≡ true)
      × All (λ root. check_root root ≡ ok tt) manifest.allowed_roots
unfolding validate_header
validate_header-roots manifest project h =
    (ground arith, for_each-eq-ok check_root manifest.allowed_roots (ground arith))

check_root-IsDedicatedRoot : (root : String) → check_root root ≡ ok tt → IsDedicatedRoot root
check_root-IsDedicatedRoot root h = ground arith

-- A journal that the recovery accepts belongs to the project; each of its roots is absolute and not
-- its own parent; each of its entries is a file or a directory whose source and backup are in the
-- journal's directory and whose target is below one of the roots and not in the journal's
-- directory; no two entries have the same cleaned target; and from version 2 on a file has a
-- well-formed digest, and a backup digest exactly if it existed.
pub validate_transaction_manifest-IsTrusted :
    (manifest : TransactionManifest) (project journal : String)
    → validate_transaction_manifest manifest project journal ≡ ok tt
    → IsTrusted manifest project journal
unfolding validate_transaction_manifest
validate_transaction_manifest-IsTrusted manifest project journal h =
    let (head, entries) = >>-eq-ok (validate_header manifest project) _ h in
    let (own, roots) = validate_header-roots manifest project head in
    let listed = validate_entries-IsListOk manifest journal [] manifest.entries entries in
    record {
      own_project = path_eq→eq _ _ own;
      roots =
          All-map (λ root. check_root root ≡ ok tt) IsDedicatedRoot manifest.allowed_roots
            check_root-IsDedicatedRoot roots;
      entries = listed.confined;
      distinct = listed.distinct;
    }
