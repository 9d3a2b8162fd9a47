-- ===== src/Transaction/Promotion.antt =====
-- internal/generator/transaction.go: promoting the entries of a journal, and rolling them back.
use Prim.Native.Nat.{ℕ, ◌%◌}
use sdbx.Base.{
  String, Bool, true, false, ◌==◌, ◌!=◌, not, List, [], ◌∷◌, ◌++◌, Option, none, some, Result, ok,
  err, Check, fine, if◌then◌else◌,
}
use sdbx.Base.Int.{ℤ}
use sdbx.Transaction.{TransactionEntry, path_within}
use sdbx.Transaction.Files.{FileSystem, Info, missing, directory, other, failed}

pub data TransactionError (IoError : Type 0) : Type 0 where
  io : IoError → TransactionError IoError
  -- the digest that was found and the one that was wanted
  digest_mismatch : String → String → TransactionError IoError
  unsupported_kind : String → TransactionError IoError
  refusing_to_remove_directory : String → TransactionError IoError

-- os.FileMode.Perm
unfoldable pub perm : ℕ → ℕ
perm mode = mode % 512

module _ {S Data IoError : Type 0} (fs : FileSystem S Data IoError) where
  unfoldable pub lift : Check IoError → Check (TransactionError IoError)
  lift (ok _) = fine
  lift (err e) = err (io e)

  unfoldable pub compare_digest : String → Result IoError Data → Check (TransactionError IoError)
  compare_digest expected (err e) = err (io e)
  compare_digest expected (ok d) =
      if fs.sum d != expected then err (digest_mismatch (fs.sum d) expected) else fine

  -- `verifyTransactionFileDigest`; a journal of version 1 has no digests.
  unfoldable pub verify_digest : S → String → String → Check (TransactionError IoError)
  unfolding compare_digest
  verify_digest s path expected =
      if expected == "" then fine else compare_digest expected (fs.read_regular_file s path)

  -- The states behind a call that may fail: what is not reached leaves the state as it is.
  unfoldable pub then_do :
      Check (TransactionError IoError) × S
      → (S → Check (TransactionError IoError) × S)
      → Check (TransactionError IoError) × S
  then_do (ok _, s) next = next s
  then_do (err e, s) next = (err e, s)

  unfoldable pub write_staged :
      String → TransactionEntry → Result IoError Data → S → Check (TransactionError IoError) × S
  unfolding lift
  write_staged secrets_root entry (err e) s = (err (io e), s)
  write_staged secrets_root entry (ok bytes) s =
      let (r, after) =
        fs.write_file_atomic entry.target bytes
          (if path_within secrets_root entry.target then 0o700 else 0o755) (perm entry.desired_mode)
          none s in
      (lift r, after)

  -- One round of the loop of `applyTransaction`.
  unfoldable pub apply_entry : String → TransactionEntry → S → Check (TransactionError IoError) × S
  unfolding lift then_do write_staged
  apply_entry secrets_root entry s =
      if entry.kind == "dir"
      then (let (r, after) = fs.ensure_dir entry.target (perm entry.desired_mode) s in
          (lift r, after))
      else if entry.kind == "file"
      then then_do (verify_digest s entry.source entry.staged_digest, s)
          (λ s.
            then_do (write_staged secrets_root entry (fs.read_regular_file s entry.source) s)
              (λ after. (verify_digest after entry.target entry.staged_digest, after)))
      else (err (unsupported_kind entry.kind), s)

  unfoldable pub apply_transaction :
      String → List TransactionEntry → S → Check (TransactionError IoError) × S
  unfolding then_do
  apply_transaction secrets_root [] s = (fine, s)
  apply_transaction secrets_root (entry ∷ entries) s =
      then_do (apply_entry secrets_root entry s)
        (λ after. apply_transaction secrets_root entries after)

  abbrev pub errors_of : Check (TransactionError IoError) → List (TransactionError IoError)
  errors_of (ok _) = []
  errors_of (err e) = e ∷ []

  unfoldable pub owner_of : Option ℤ → Option ℤ → Option (ℤ × ℤ)
  owner_of none gid = none
  owner_of (some uid) none = none
  owner_of (some uid) (some gid) = some (uid, gid)

  unfoldable pub restore_transaction_file : TransactionEntry → Data → S → Check IoError × S
  unfolding owner_of
  restore_transaction_file entry bytes s =
      fs.write_file_atomic entry.target bytes 0o755 (perm entry.original_mode)
        (owner_of entry.original_uid entry.original_gid) s

  unfoldable pub remove_found : String → Info IoError → S → Check (TransactionError IoError) × S
  unfolding lift
  remove_found path missing s = (fine, s)
  remove_found path directory s = (err (refusing_to_remove_directory path), s)
  remove_found path (failed e) s = (err (io e), s)
  remove_found path other s = (let (r, after) = fs.remove path s in (lift r, after))

  unfoldable pub remove_transaction_target_file : String → S → Check (TransactionError IoError) × S
  unfolding remove_found
  remove_transaction_target_file path s = remove_found path (fs.lstat s path) s

  -- The content of the backup is written back, and what was written is verified in any case.
  unfoldable pub restore_content :
      TransactionEntry → Result IoError Data → S → List (TransactionError IoError) × S
  unfolding lift
  restore_content entry (err e) s = (io e ∷ [], s)
  restore_content entry (ok bytes) s =
      let (r, after) = restore_transaction_file entry bytes s in
      (
        errors_of (lift r) ++ errors_of (verify_digest after entry.target entry.backup_digest),
        after,
      )

  unfoldable pub restore_verified :
      TransactionEntry → Check (TransactionError IoError) → S → List (TransactionError IoError) × S
  unfolding restore_content
  restore_verified entry (err e) s = (e ∷ [], s)
  restore_verified entry (ok _) s = restore_content entry (fs.read_regular_file s entry.backup) s

  -- By whether the file existed.
  unfoldable pub rollback_existing :
      Bool → TransactionEntry → S → List (TransactionError IoError) × S
  unfolding restore_verified
  rollback_existing true entry s =
      restore_verified entry (verify_digest s entry.backup entry.backup_digest) s
  rollback_existing false entry s =
      let (r, after) = remove_transaction_target_file entry.target s in (errors_of r, after)

  unfoldable pub rollback_file : TransactionEntry → S → List (TransactionError IoError) × S
  rollback_file entry s = rollback_existing entry.existed entry s

  -- A directory that is gone is no error.
  unfoldable pub remove_errors : Check IoError → List (TransactionError IoError)
  remove_errors (ok _) = []
  remove_errors (err e) = if not (fs.is_not_exist e) then io e ∷ [] else []

  unfoldable pub rollback_dir : TransactionEntry → S → List (TransactionError IoError) × S
  unfolding lift remove_errors
  rollback_dir entry s =
      if entry.existed
      then (let (r, after) = fs.chmod entry.target (perm entry.original_mode) s in
          (errors_of (lift r), after))
      else (let (r, after) = fs.remove entry.target s in (remove_errors r, after))

  unfoldable pub rollback_entry : TransactionEntry → S → List (TransactionError IoError) × S
  unfolding rollback_file rollback_dir
  rollback_entry entry s =
      if entry.kind == "file"
      then rollback_file entry s
      else if entry.kind == "dir"
      then rollback_dir entry s
      else ([], s)

  -- The loop from the last entry to the first; an error does not stop it.
  unfoldable pub rollback_transaction :
      List TransactionEntry → S → List (TransactionError IoError) × S
  rollback_transaction [] s = ([], s)
  rollback_transaction (entry ∷ entries) s =
      let (errors, mid) = rollback_transaction entries s in
      let (more, after) = rollback_entry entry mid in (errors ++ more, after)
