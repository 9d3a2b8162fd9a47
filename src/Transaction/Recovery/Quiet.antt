-- ===== src/Transaction/Recovery/Quiet.antt =====
-- A rollback reports no error where the calls on files do not fail and the backups are whole.
use sdbx.Base.{
  String, true, false, ◌==◌, List, [], ◌∷◌, some, ok, ◌≡◌, ◌⊎◌, refl, sym, ◌∙◌, inl, inr, All,
  eq_iff, Bool-cases, err, Check,
}
use mathlib.Core.Path.{subst}
use sdbx.Transaction.{TransactionEntry, path_within}
use sdbx.Transaction.Files.{FileSystem, Laws, missing, other}
use sdbx.Transaction.Promotion.{
  lift, compare_digest, verify_digest, restore_content, restore_verified, restore_transaction_file,
  remove_found, remove_transaction_target_file, rollback_existing, rollback_file, rollback_dir,
  rollback_entry, rollback_transaction, remove_errors, perm, owner_of,
}
use sdbx.Transaction.Elsewhere.{rollback_transaction-content}
use sdbx.Transaction.Restores.{IsOutside, inside_differs}

-- The calls that undo an entry do not fail on the files of `t`: the backup of a file that existed is
-- read, and the file is written and read back; one that did not is gone or is removed; a directory
-- that existed gets its mode, and one that did not is gone or is removed.
pub record IsUndoable {S Data IoError : Type 0} (fs : FileSystem S Data IoError) (laws : Laws fs)
    (e : TransactionEntry) (t : S) : Type 0 where
  pub writes :
      e.kind ≡ "file"
      → e.existed ≡ true
      → (d : Data) → laws.content t e.backup ≡ some d
      → let (done, after) =
          fs.write_file_atomic e.target d 0o755
            (perm e.original_mode)
            (owner_of fs e.original_uid e.original_gid)
            t in
        (fs.read_regular_file t e.backup ≡ ok d)
        × (done ≡ ok tt)
        × (fs.read_regular_file after e.target ≡ ok d)
  pub removes :
      e.kind ≡ "file"
      → e.existed ≡ false
      → (fs.lstat t e.target ≡ missing)
        ⊎ (fs.lstat t e.target ≡ other) × ((fs.remove e.target t).0 ≡ ok tt)
  pub modes :
      e.kind ≡ "dir" → e.existed ≡ true → (fs.chmod e.target (perm e.original_mode) t).0 ≡ ok tt
  pub removes_dir :
      e.kind ≡ "dir"
      → e.existed ≡ false
      → ((fs.remove e.target t).0 ≡ ok tt)
        ⊎ (problem : IoError) × ((fs.remove e.target t).0 ≡ err problem)
          × (fs.is_not_exist problem ≡ true)

-- The rollback undoes its entries from the last to the first, each on the files that the later ones
-- left.
abbrev pub IsUnobstructed :
    {S Data IoError : Type 0}
    → (fs : FileSystem S Data IoError) → Laws fs
    → List TransactionEntry
    → S
    → Type 0
IsUnobstructed fs laws [] s = Unit {0}
IsUnobstructed fs laws (e ∷ es) s =
    IsUndoable fs laws e (rollback_transaction fs es s).1 × IsUnobstructed fs laws es s

module _ {S Data IoError : Type 0} (fs : FileSystem S Data IoError) (laws : Laws fs) where
  -- The backup of an existing file is there, with its digest.
  abbrev pub HasWhole : S → TransactionEntry → Type 0
  HasWhole s e =
      e.kind ≡ "file"
      → e.existed ≡ true
      → (d : Data) × (laws.content s e.backup ≡ some d) × (fs.sum d ≡ e.backup_digest)

  verified :
      (s : S) (p expected : String) (d : Data)
      → fs.read_regular_file s p ≡ ok d
      → fs.sum d ≡ expected
      → verify_digest fs s p expected ≡ ok tt
  unfolding verify_digest compare_digest
  verified s p expected d reads same =
      let equal : (fs.sum d == expected) ≡ true = (eq_iff (fs.sum d) expected).1 same in
      elim (Bool-cases (expected == "")) [
        | inl e ↦ rw e refl
        | inr e ↦ rw (e, reads, compare_digest, equal) refl
      ]

  restored_quiet :
      (entry : TransactionEntry) (s : S) (d : Data)
      → fs.sum d ≡ entry.backup_digest
      → fs.read_regular_file s entry.backup ≡ ok d
      → (let (done, after) =
            fs.write_file_atomic entry.target d 0o755
              (perm entry.original_mode)
              (owner_of fs entry.original_uid entry.original_gid)
              s in
          (done ≡ ok tt) × (fs.read_regular_file after entry.target ≡ ok d))
      → (rollback_existing fs true entry s).0 ≡ []
  unfolding rollback_existing restore_verified restore_content restore_transaction_file
  restored_quiet entry s d same reads (stored, reads_back) =
      let checked = verified s entry.backup entry.backup_digest d reads same in
      let after =
        (fs.write_file_atomic entry.target d 0o755 (perm entry.original_mode)
          (owner_of fs entry.original_uid entry.original_gid) s).1 in
      let again = verified after entry.target entry.backup_digest d reads_back same in
      rw (checked, restore_verified, reads, restore_content, stored, again) refl

  removed_quiet :
      (entry : TransactionEntry) (s : S)
      → (fs.lstat s entry.target ≡ missing)
        ⊎ (fs.lstat s entry.target ≡ other) × ((fs.remove entry.target s).0 ≡ ok tt)
      → (rollback_existing fs false entry s).0 ≡ []
  unfolding rollback_existing remove_transaction_target_file remove_found lift
  removed_quiet entry s (inl is) = rw (is, remove_found) refl
  removed_quiet entry s (inr (is, gone)) = rw (is, remove_found, gone) refl

  remove_errors_quiet :
      (r : Check IoError)
      → (r ≡ ok tt) ⊎ (problem : IoError) × (r ≡ err problem) × (fs.is_not_exist problem ≡ true)
      → remove_errors fs r ≡ []
  unfolding remove_errors
  remove_errors_quiet r (inl done) = rw (done, remove_errors) refl
  remove_errors_quiet r (inr (problem, failed, gone)) = rw (failed, remove_errors, gone) refl

  dir_quiet :
      (entry : TransactionEntry) (s : S)
      → entry.kind ≡ "dir"
      → IsUndoable fs laws entry s
      → (rollback_dir fs entry s).0 ≡ []
  unfolding rollback_dir lift
  dir_quiet entry s kind can = elim (Bool-cases entry.existed) [
    | inl e ↦ rw (e, can.modes kind e) refl
    | inr e ↦ rw e (remove_errors_quiet (fs.remove entry.target s).0 (can.removes_dir kind e))
  ]

  existing_quiet :
      (e : TransactionEntry) (s : S)
      → e.kind ≡ "file"
      → HasWhole s e
      → IsUndoable fs laws e s
      → (rollback_existing fs e.existed e s).0 ≡ []
  existing_quiet e s kind whole can = elim (Bool-cases e.existed) [
    | inl x ↦
        (let (d, found, same) = whole kind x in
          subst (λ b. (rollback_existing fs b e s).0 ≡ []) (sym x)
            (let (reads, stored, reads_back) = can.writes kind x d found in
              restored_quiet e s d same reads (stored, reads_back)))
    | inr x ↦
        subst (λ b. (rollback_existing fs b e s).0 ≡ []) (sym x)
          (removed_quiet e s (can.removes kind x))
  ]

  entry_quiet :
      (e : TransactionEntry) (s : S)
      → HasWhole s e
      → IsUndoable fs laws e s
      → (rollback_entry fs e s).0 ≡ []
  unfolding rollback_entry rollback_file
  entry_quiet e s whole can = elim (Bool-cases (e.kind == "file")) [
    | inl f ↦ rw f (existing_quiet e s ((eq_iff e.kind "file").0 f) whole can)
    | inr f ↦ elim (Bool-cases (e.kind == "dir")) [
      | inl d ↦ rw (f, d) (dir_quiet e s ((eq_iff e.kind "dir").0 d) can)
      | inr d ↦ rw (f, d) refl
    ]
  ]

  -- The rollback from a state in which the backups are whole.
  pub rollback_quiet :
      (journal : String) (es : List TransactionEntry) (s : S)
      → All (IsOutside fs laws journal) es
      → All (λ e. e.kind ≡ "file" → e.existed ≡ true → path_within journal e.backup ≡ true) es
      → All (HasWhole s) es
      → IsUnobstructed fs laws es s
      → (rollback_transaction fs es s).0 ≡ []
  unfolding rollback_transaction
  rollback_quiet journal [] s outside inside whole clear = refl
  rollback_quiet journal (e ∷ es) s (out, outside) (within, inside) (one, whole) (can, clear) =
      let mid = (rollback_transaction fs es s).1 in
      let early = rollback_quiet journal es s outside inside whole clear in
      let still : HasWhole mid e = λ kind existed.
        (let (d, found, same) = one kind existed in
          (
            d,
            rollback_transaction-content fs laws es s e.backup
                  (inside_differs fs laws journal e.backup es (within kind existed) outside)
                ∙ found,
            same,
          )) in
      let late = entry_quiet e mid still can in rw (early, late) refl
