-- ===== src/Transaction/Restores.antt =====
-- internal/generator/transaction.go: a rollback that reports no error puts the files back.
use sdbx.Base.{
  String, Bool, true, false, ◌==◌, List, [], ◌∷◌, ◌++◌, Option, none, Result, ok, err, Check, ◌≡◌,
  ◌≢◌, refl, sym, ap, ◌∙◌, All, All-map, eq_iff,
}
use mathlib.Core.Path.{subst}
use sdbx.Base.Paths.{clean}
use sdbx.Transaction.{TransactionEntry, TransactionManifest, path_within}
use sdbx.Transaction.Journal.{IsTrusted, IsConfined, HasDistinctTargets}
use sdbx.Transaction.Files.{FileSystem, Laws, Info, missing, directory, other, failed}
use sdbx.Transaction.Promotion.{
  TransactionError, restore_content, restore_verified, restore_transaction_file, remove_found,
  remove_transaction_target_file, rollback_file, rollback_existing, rollback_entry,
  rollback_transaction, apply_transaction, verify_digest, lift, errors_of,
}
use sdbx.Transaction.Elsewhere.{
  rollback_entry-content, rollback_transaction-content, apply_transaction-content,
}

append-nil-left {ℓ} : {A : Type ℓ} (xs ys : List A) → xs ++ ys ≡ [] → (xs ≡ []) × (ys ≡ [])
append-nil-left [] ys h = (refl, h)
append-nil-left (x ∷ xs) ys h = cc h

pub All-zip {ℓ κ μ ν} :
    {A : Type ℓ} (P : A → Type κ) (Q : A → Type μ) (R : A → Type ν) (xs : List A)
    → ((x : A) → P x → Q x → R x)
    → All P xs
    → All Q xs
    → All R xs
All-zip P Q R [] f h k = tt
All-zip P Q R (x ∷ xs) f (p, h) (q, k) = (f x p q, All-zip P Q R xs f h k)

All-front {ℓ κ} : {A : Type ℓ} (P : A → Type κ) (xs ys : List A) → All P (xs ++ ys) → All P xs
All-front P [] ys h = tt
All-front P (x ∷ xs) ys (p, h) = (p, All-front P xs ys h)

module _ {S Data IoError : Type 0} (fs : FileSystem S Data IoError) (laws : Laws fs) where
  -- What the recovery of one file is to give: the content of the backup, or no file.
  abbrev pub wanted : Bool → TransactionEntry → S → Option Data
  wanted true entry s = laws.content s entry.backup
  wanted false entry s = none

  errors_of-lift : (r : Check IoError) → errors_of fs (lift fs r) ≡ [] → r ≡ ok tt
  unfolding lift
  errors_of-lift (ok _) h = refl
  errors_of-lift (err e) h = cc h

  restore_content-restores :
      (entry : TransactionEntry) (r : Result IoError Data) (s : S)
      → fs.read_regular_file s entry.backup ≡ r
      → (restore_content fs entry r s).0 ≡ []
      → laws.content (restore_content fs entry r s).1 entry.target ≡ laws.content s entry.backup
  unfolding restore_content restore_transaction_file
  restore_content-restores entry (err e) s was h = cc h
  restore_content-restores entry (ok d) s was h =
      let quiet = errors_of-lift _ (append-nil-left _ _ h).0 in
      laws.written entry.target d _ _ _ s quiet ∙ sym (laws.read s entry.backup d was)

  restore_verified-restores :
      (entry : TransactionEntry) (r : Check (TransactionError IoError)) (s : S)
      → (restore_verified fs entry r s).0 ≡ []
      → laws.content (restore_verified fs entry r s).1 entry.target ≡ laws.content s entry.backup
  unfolding restore_verified
  restore_verified-restores entry (err e) s h = cc h
  restore_verified-restores entry (ok _) s h =
      restore_content-restores entry (fs.read_regular_file s entry.backup) s refl h

  remove_found-removes :
      (path : String) (info : Info IoError) (s : S)
      → fs.lstat s path ≡ info
      → errors_of fs (remove_found fs path info s).0 ≡ []
      → laws.content (remove_found fs path info s).1 path ≡ none
  unfolding remove_found
  remove_found-removes path missing s was h = laws.absent s path was
  remove_found-removes path directory s was h = cc h
  remove_found-removes path (failed e) s was h = cc h
  remove_found-removes path other s was h = laws.removed path s (errors_of-lift _ h)

  rollback_existing-restores :
      (existed : Bool) (entry : TransactionEntry) (s : S)
      → (rollback_existing fs existed entry s).0 ≡ []
      → laws.content (rollback_existing fs existed entry s).1 entry.target ≡ wanted existed entry s
  unfolding rollback_existing remove_transaction_target_file
  rollback_existing-restores true entry s h =
      restore_verified-restores entry (verify_digest fs s entry.backup entry.backup_digest) s h
  rollback_existing-restores false entry s h =
      remove_found-removes entry.target (fs.lstat s entry.target) s refl h

  rollback_entry-file :
      (entry : TransactionEntry) (s : S)
      → entry.kind ≡ "file"
      → rollback_entry fs entry s ≡ rollback_existing fs entry.existed entry s
  unfolding rollback_entry rollback_file
  rollback_entry-file entry s file =
      let e : (entry.kind == "file") ≡ true = (eq_iff entry.kind "file").1 file in rw e refl

  rollback_entry-restores :
      (entry : TransactionEntry) (s : S)
      → entry.kind ≡ "file"
      → (rollback_entry fs entry s).0 ≡ []
      → laws.content (rollback_entry fs entry s).1 entry.target ≡ wanted entry.existed entry s
  rollback_entry-restores entry s file =
      subst (λ o. o.0 ≡ [] → laws.content o.1 entry.target ≡ wanted entry.existed entry s)
        (sym (rollback_entry-file entry s file)) (rollback_existing-restores entry.existed entry s)

  pub wanted_same :
      (existed : Bool) (entry : TransactionEntry) (mid s : S)
      → (existed ≡ true → laws.content mid entry.backup ≡ laws.content s entry.backup)
      → wanted existed entry mid ≡ wanted existed entry s
  wanted_same true entry mid s h = h refl
  wanted_same false entry mid s h = refl

  module _ (journal : String) where
    abbrev pub IsOutside : TransactionEntry → Type 0
    IsOutside e = path_within journal e.target ≡ false

    abbrev pub HasBackup : TransactionEntry → Type 0
    HasBackup e = e.kind ≡ "file" → e.existed ≡ true → path_within journal e.backup ≡ true

    pub inside_differs :
        (q : String) (es : List TransactionEntry)
        → path_within journal q ≡ true
        → All IsOutside es
        → All (λ e. q ≢ e.target) es
    inside_differs q es inside outside =
        All-map IsOutside (λ e. q ≢ e.target) es
          (λ e out same. cc (subst (λ p. path_within journal p ≡ true) same inside, out)) outside

    abbrev pub Restored : S → S → TransactionEntry → Type 0
    Restored after s e = e.kind ≡ "file" → laws.content after e.target ≡ wanted e.existed e s

    pub rollback_transaction-restores :
        (es : List TransactionEntry) (s : S)
        → HasDistinctTargets es
        → All IsOutside es
        → All HasBackup es
        → (rollback_transaction fs es s).0 ≡ []
        → All (Restored (rollback_transaction fs es s).1 s) es
    unfolding rollback_transaction
    rollback_transaction-restores [] s distinct outside backups quiet = tt
    rollback_transaction-restores (e ∷ es) s (apart, distinct) (out, outside) (backup, backups)
          quiet =
        let mid = (rollback_transaction fs es s).1 in
        let after = (rollback_entry fs e mid).1 in
        let (early, late) = append-nil-left _ _ quiet in
        let later = rollback_transaction-restores es s distinct outside backups early in
        (
          λ file.
              rollback_entry-restores e mid file late
              ∙ wanted_same e.existed e mid s λ existed.
                rollback_transaction-content fs laws es s e.backup
                  (inside_differs e.backup es (backup file existed) outside),
          All-zip _ _ (Restored after s) es
              (λ d differ restored file.
                rollback_entry-content fs laws e mid d.target (λ same. differ (ap clean (sym same)))
                ∙ restored file)
              apart later,
        )

    -- What the preparation records of a file before the first change: its content is in the journal,
    -- or there is no file.
    pub record IsRecorded (s : S) (e : TransactionEntry) : Type 0 where
      pub inside : e.kind ≡ "file" → e.existed ≡ true → path_within journal e.backup ≡ true
      pub kept : e.kind ≡ "file" → wanted e.existed e s ≡ laws.content s e.target

    -- If the entries of a trusted journal record the files of a state, then however far their
    -- promotion from that state came, a rollback that reports no error gives every file the content
    -- that it had in that state, or removes it if there was none.
    pub interrupted_promotion_restores :
        (manifest : TransactionManifest) (project : String) (done rest : List TransactionEntry)
        (s : S)
        → IsTrusted manifest project journal
        → All (IsRecorded s) manifest.entries
        → manifest.entries ≡ done ++ rest
        → (rollback_transaction fs manifest.entries
            (apply_transaction fs manifest.secrets_root done s).1).0
          ≡ []
        → All
            (λ e.
              e.kind ≡ "file"
              → laws.content
                  (rollback_transaction fs manifest.entries
                    (apply_transaction fs manifest.secrets_root done s).1).1
                  e.target
                ≡ laws.content s e.target)
            manifest.entries
    interrupted_promotion_restores manifest project done rest s trusted recorded split quiet =
        let mid = (apply_transaction fs manifest.secrets_root done s).1 in
        let outside =
          All-map (IsConfined manifest journal) IsOutside manifest.entries (λ e c. c.outside)
            trusted.entries in
        let backups =
          All-map (IsRecorded s) HasBackup manifest.entries (λ e r. r.inside) recorded in
        let restored =
          rollback_transaction-restores manifest.entries mid trusted.distinct outside backups
            quiet in
        let promoted =
          All-front IsOutside done rest (subst (λ es. All IsOutside es) split outside) in
        All-zip _ _ _ manifest.entries
          (λ e r back file.
            back file
            ∙ wanted_same e.existed e mid s (λ existed.
              apply_transaction-content fs laws manifest.secrets_root done s e.backup
                (inside_differs e.backup done (r.inside file existed) promoted))
            ∙ r.kept file)
          recorded restored
