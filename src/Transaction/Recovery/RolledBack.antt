-- ===== src/Transaction/Recovery/RolledBack.antt =====
-- A rollback without an error restores the files, and removing the journal keeps them.
use sdbx.Base.{
  String, true, false, List, [], ◌∷◌, Option, Message, Result, ok, err, Check, ◌≡◌, ◌≢◌, ◌⊎◌, refl,
  ◌∙◌, inl, inr, All, All-map, Bool-cases,
}
use mathlib.Core.Path.{subst}
use sdbx.Transaction.{TransactionEntry, TransactionManifest, path_within}
use sdbx.Transaction.Journal.{HasDistinctTargets}
use sdbx.Transaction.Files.{FileSystem, Laws}
use sdbx.Transaction.Promotion.{TransactionError, rollback_transaction}
use sdbx.Transaction.Restores.{
  IsRecorded, IsOutside, HasBackup, Restored, All-zip, wanted, wanted_same,
  rollback_transaction-restores,
}
use sdbx.Transaction.Recovery.{
  JournalSystem, DirInfo, remove_private, remove_inspected, remove_transaction_dir,
  recover_rolled_back,
}
use sdbx.Transaction.Recovery.Steps.{JournalLaws, IsPromoted, IsRestored, manifest_path}
use sdbx.Transaction.Recovery.Phases.{IsPrepared, target_differs}

module _ {S Data IoError : Type 0} (fs : FileSystem S Data IoError) (laws : Laws fs)
    (js : JournalSystem S Data IoError) (journal_laws : JournalLaws laws js) (journal : String)
    (m : TransactionManifest) {start : S}
    (ready : IsPrepared fs laws js journal_laws journal m start) where
  -- The files of the entries at the end of a recovery.
  abbrev pub AllOrNothing : S → Type 0
  AllOrNothing s = IsRestored fs laws js journal m start s ⊎ IsPromoted fs laws js journal m start s

  remove_private-content :
      (r : Check Message) (s : S) (q : String)
      → path_within journal q ≡ false
      → laws.content (remove_private fs js journal r s).1 q ≡ laws.content s q
  unfolding remove_private
  remove_private-content (err e) s q out = refl
  remove_private-content (ok _) s q out = journal_laws.removed_elsewhere journal s q out

  remove_inspected-content :
      (r : Result IoError DirInfo) (s : S) (q : String)
      → path_within journal q ≡ false
      → laws.content (remove_inspected fs js journal r s).1 q ≡ laws.content s q
  unfolding remove_inspected
  remove_inspected-content (err e) s q out = elim (Bool-cases (fs.is_not_exist e)) [
    | inl is ↦ rw is refl
    | inr is ↦ rw is refl
  ]
  remove_inspected-content (ok info) s q out = remove_private-content _ s q out

  -- What holds of the contents of the targets is kept by the removal of the journal.
  pub removed :
      (wanted : TransactionEntry → Option Data) (s : S)
      → All (λ e. e.kind ≡ "file" → laws.content s e.target ≡ wanted e) m.entries
      → All
          (λ e.
            e.kind ≡ "file"
            → laws.content (remove_transaction_dir fs js journal s).1 e.target ≡ wanted e)
          m.entries
  unfolding remove_transaction_dir
  removed wanted s held =
      All-zip (IsOutside fs laws journal) _ _ m.entries
        (λ e out was file.
          remove_inspected-content (js.lstat_dir s journal) s e.target out ∙ was file)
        ready.outside held

  pub unchanged :
      (s : S)
      → ((q : String)
          → q ≢ manifest_path fs laws js journal m
          → laws.content s q ≡ laws.content start q)
      → IsRestored fs laws js journal m start s
  unchanged s same =
      All-map (IsOutside fs laws journal) _ m.entries
        (λ e out file. same e.target (target_differs fs laws js journal_laws journal m ready e out))
        ready.outside

  IsSafe : TransactionEntry → Type 0
  IsSafe e = IsRecorded fs laws journal start e × (e.backup ≢ manifest_path fs laws js journal m)

  -- A rollback without an error, where the journal has what it had at the start.
  pub rolled_back :
      (s : S)
      → HasDistinctTargets m.entries
      → ((q : String)
          → path_within journal q ≡ true
          → q ≢ manifest_path fs laws js journal m
          → laws.content s q ≡ laws.content start q)
      → (rollback_transaction fs m.entries s).0 ≡ []
      → IsRestored fs laws js journal m start (rollback_transaction fs m.entries s).1
  unfolding IsSafe
  rolled_back s distinct kept quiet =
      let after = (rollback_transaction fs m.entries s).1 in
      let safe =
        All-zip (IsRecorded fs laws journal start) _ IsSafe m.entries (λ e r a. (r, a.1))
          ready.recorded ready.apart in
      let backups =
        All-map (IsRecorded fs laws journal start) (HasBackup fs laws journal) m.entries
          (λ e r. r.inside) ready.recorded in
      let restored =
        rollback_transaction-restores fs laws journal m.entries s distinct ready.outside backups
          quiet in
      All-zip (Restored fs laws journal after s) IsSafe _ m.entries
        (λ e back safe file.
          back file
          ∙ wanted_same fs laws e.existed e s start
              (λ existed. kept e.backup (safe.0.inside file existed) safe.1)
          ∙ safe.0.kept file)
        restored safe

  pub recover_rolled_back-IsRestored :
      (rolled : List (TransactionError IoError) × S) {after : S}
      → (rolled.0 ≡ [] → IsRestored fs laws js journal m start rolled.1)
      → recover_rolled_back fs js journal rolled ≡ (ok tt, after)
      → AllOrNothing after
  unfolding recover_rolled_back
  recover_rolled_back-IsRestored ([], s) back h =
      inl (subst (λ o. IsRestored fs laws js journal m start o.1) h (removed _ s (back refl)))
  recover_rolled_back-IsRestored (e ∷ es, s) back h = cc
