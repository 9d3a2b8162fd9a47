-- ===== src/Transaction/Elsewhere.antt =====
-- internal/generator/transaction.go: promoting or rolling back an entry changes the content of no
-- other path than the entry's target.
use sdbx.Base.{
  String, Bool, true, false, ◌==◌, List, [], ◌∷◌, Result, ok, err, Check, ◌≡◌, ◌≢◌, refl, ◌∙◌, inl,
  inr, Bool-cases, All,
}
use sdbx.Transaction.{TransactionEntry}
use sdbx.Transaction.Files.{FileSystem, Laws, Info, missing, directory, other, failed}
use sdbx.Transaction.Promotion.{
  TransactionError, perm, then_do, write_staged, apply_entry, apply_transaction, restore_content,
  restore_verified, restore_transaction_file, remove_found, remove_transaction_target_file,
  rollback_file, rollback_existing, rollback_dir, rollback_entry, rollback_transaction,
  verify_digest,
}

module _ {S Data IoError : Type 0} (fs : FileSystem S Data IoError) (laws : Laws fs) where
  then_do-content :
      (first : Check (TransactionError IoError) × S)
      (next : S → Check (TransactionError IoError) × S) (s : S) (q : String)
      → laws.content first.1 q ≡ laws.content s q
      → ((t : S) → laws.content (next t).1 q ≡ laws.content t q)
      → laws.content (then_do fs first next).1 q ≡ laws.content s q
  unfolding then_do
  then_do-content (ok _, t) next s q h k = k t ∙ h
  then_do-content (err e, t) next s q h k = h

  write_staged-content :
      (root : String) (entry : TransactionEntry) (r : Result IoError Data) (s : S) (q : String)
      → q ≢ entry.target
      → laws.content (write_staged fs root entry r s).1 q ≡ laws.content s q
  unfolding write_staged
  write_staged-content root entry (err e) s q h = refl
  write_staged-content root entry (ok d) s q h = laws.write_elsewhere entry.target d _ _ _ s q h

  pub apply_entry-content :
      (root : String) (entry : TransactionEntry) (s : S) (q : String)
      → q ≢ entry.target
      → laws.content (apply_entry fs root entry s).1 q ≡ laws.content s q
  unfolding apply_entry
  apply_entry-content root entry s q h = elim (Bool-cases (entry.kind == "dir")) [
    | inl e ↦ rw e (laws.ensure entry.target (perm entry.desired_mode) s q)
    | inr e ↦ elim (Bool-cases (entry.kind == "file")) [
      | inl f ↦
          rw (e, f)
            (then_do-content _ _ s q refl λ t.
              then_do-content _ _ t q
                (write_staged-content root entry (fs.read_regular_file t entry.source) t q h)
                λ u. refl)
      | inr f ↦ rw (e, f) refl
    ]
  ]

  pub apply_transaction-content :
      (root : String) (entries : List TransactionEntry) (s : S) (q : String)
      → All (λ e. q ≢ e.target) entries
      → laws.content (apply_transaction fs root entries s).1 q ≡ laws.content s q
  unfolding apply_transaction
  apply_transaction-content root [] s q h = refl
  apply_transaction-content root (entry ∷ entries) s q (h, hs) =
      then_do-content (apply_entry fs root entry s) _ s q (apply_entry-content root entry s q h)
        λ t. apply_transaction-content root entries t q hs

  restore_content-content :
      (entry : TransactionEntry) (r : Result IoError Data) (s : S) (q : String)
      → q ≢ entry.target
      → laws.content (restore_content fs entry r s).1 q ≡ laws.content s q
  unfolding restore_content restore_transaction_file
  restore_content-content entry (err e) s q h = refl
  restore_content-content entry (ok d) s q h = laws.write_elsewhere entry.target d _ _ _ s q h

  restore_verified-content :
      (entry : TransactionEntry) (r : Check (TransactionError IoError)) (s : S) (q : String)
      → q ≢ entry.target
      → laws.content (restore_verified fs entry r s).1 q ≡ laws.content s q
  unfolding restore_verified
  restore_verified-content entry (err e) s q h = refl
  restore_verified-content entry (ok _) s q h =
      restore_content-content entry (fs.read_regular_file s entry.backup) s q h

  remove_found-content :
      (path : String) (info : Info IoError) (s : S) (q : String)
      → q ≢ path
      → laws.content (remove_found fs path info s).1 q ≡ laws.content s q
  unfolding remove_found
  remove_found-content path missing s q h = refl
  remove_found-content path directory s q h = refl
  remove_found-content path other s q h = laws.remove_elsewhere path s q h
  remove_found-content path (failed e) s q h = refl

  rollback_existing-content :
      (existed : Bool) (entry : TransactionEntry) (s : S) (q : String)
      → q ≢ entry.target
      → laws.content (rollback_existing fs existed entry s).1 q ≡ laws.content s q
  unfolding rollback_existing remove_transaction_target_file
  rollback_existing-content true entry s q h =
      restore_verified-content entry (verify_digest fs s entry.backup entry.backup_digest) s q h
  rollback_existing-content false entry s q h =
      remove_found-content entry.target (fs.lstat s entry.target) s q h

  rollback_dir-content :
      (entry : TransactionEntry) (s : S) (q : String)
      → q ≢ entry.target
      → laws.content (rollback_dir fs entry s).1 q ≡ laws.content s q
  unfolding rollback_dir
  rollback_dir-content entry s q h = elim (Bool-cases entry.existed) [
    | inl e ↦ rw e (laws.mode entry.target (perm entry.original_mode) s q)
    | inr e ↦ rw e (laws.remove_elsewhere entry.target s q h)
  ]

  pub rollback_entry-content :
      (entry : TransactionEntry) (s : S) (q : String)
      → q ≢ entry.target
      → laws.content (rollback_entry fs entry s).1 q ≡ laws.content s q
  unfolding rollback_entry rollback_file
  rollback_entry-content entry s q h = elim (Bool-cases (entry.kind == "file")) [
    | inl e ↦ rw e (rollback_existing-content entry.existed entry s q h)
    | inr e ↦ elim (Bool-cases (entry.kind == "dir")) [
      | inl f ↦ rw (e, f) (rollback_dir-content entry s q h)
      | inr f ↦ rw (e, f) refl
    ]
  ]

  pub rollback_transaction-content :
      (entries : List TransactionEntry) (s : S) (q : String)
      → All (λ e. q ≢ e.target) entries
      → laws.content (rollback_transaction fs entries s).1 q ≡ laws.content s q
  unfolding rollback_transaction
  rollback_transaction-content [] s q h = refl
  rollback_transaction-content (entry ∷ entries) s q (h, hs) =
      rollback_entry-content entry _ q h ∙ rollback_transaction-content entries s q hs
