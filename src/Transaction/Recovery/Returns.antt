-- ===== src/Transaction/Recovery/Returns.antt =====
-- A recovery succeeds where no call that it makes fails.
use sdbx.Base.{
  String, true, List, [], ◌∷◌, Option, none, some, ok, err, ◌≡◌, ◌≢◌, refl, ◌∙◌, All, All-map,
}
use sdbx.Transaction.{
  TransactionManifest, path_within, validate_transaction_manifest, TransactionEntry,
}
use sdbx.Transaction.Files.{FileSystem, Laws}
use sdbx.Transaction.Promotion.{TransactionError, rollback_transaction}
use sdbx.Transaction.Restores.{All-zip, IsRecorded}
use sdbx.Transaction.Recovery.{
  JournalSystem, DirInfo, with_state, transaction_root, remove_private, remove_inspected,
  remove_transaction_dir, recover_rolled_back, recover_trusted, recover_decoded, recover_read,
  recover_private, recover_inspected, recover_from, recover_project_transaction,
  validate_private_transaction_dir,
}
use sdbx.Transaction.Recovery.Steps.{JournalLaws, manifest_path, ◌⟶*◌}
use sdbx.Transaction.Recovery.Phases.{
  IsPrepared, Phase, untouched, prepared, promoting, committed, moments-Phase,
}
use sdbx.Transaction.Recovery.AllOrNothing.{decoded}
use sdbx.Transaction.Recovery.Quiet.{IsUnobstructed, HasWhole, rollback_quiet}

-- On the files of `t` the journal is a private directory of the user, and is removed.
pub record IsRemovable {S Data IoError : Type 0} (js : JournalSystem S Data IoError)
    (journal : String) (t : S) : Type 0 where
  pub info : DirInfo
  pub found : js.lstat_dir t journal ≡ ok info
  pub private : validate_private_transaction_dir js.euid info journal ≡ ok tt
  pub removed : (js.remove_all journal t).0 ≡ ok tt

-- The calls of a recovery on the journal do not fail on the files of `s`, nor on what the rollback
-- makes of them.
pub record Answers {S Data IoError : Type 0} (fs : FileSystem S Data IoError) (laws : Laws fs)
    (js : JournalSystem S Data IoError) (journal manifest_file : String)
    (entries : List TransactionEntry) (s : S) : Type 0 where
  pub now : IsRemovable js journal s
  pub after : IsRemovable js journal (rollback_transaction fs entries s).1
  pub reads :
      (d : Data) → laws.content s manifest_file ≡ some d → js.read_journal s manifest_file ≡ ok d
  pub misses :
      laws.content s manifest_file ≡ none
      → (e : IoError) × (js.read_journal s manifest_file ≡ err e) × (fs.is_not_exist e ≡ true)

-- The manifest is accepted in each of its states.
pub record IsAccepted (m : TransactionManifest) (root journal : String) : Type 0 where
  pub when_prepared : validate_transaction_manifest (with_state "prepared" m) root journal ≡ ok tt
  pub when_promoting : validate_transaction_manifest (with_state "promoting" m) root journal ≡ ok tt
  pub when_committed : validate_transaction_manifest (with_state "committed" m) root journal ≡ ok tt

module _ {S Data IoError : Type 0} (fs : FileSystem S Data IoError) (laws : Laws fs)
    (js : JournalSystem S Data IoError) (journal_laws : JournalLaws laws js) (journal : String)
    (m : TransactionManifest) {start : S}
    (ready : IsPrepared fs laws js journal_laws journal m start)
    (whole : All (HasWhole fs laws start) m.entries) (root : String)
    (accepted : IsAccepted m root journal) (s : S)
    (answers : Answers fs laws js journal (manifest_path fs laws js journal m) m.entries s)
    (clear : IsUnobstructed fs laws m.entries s) where
  remove_ok :
      (t : S) → IsRemovable js journal t → (remove_transaction_dir fs js journal t).0 ≡ ok tt
  unfolding remove_transaction_dir remove_inspected remove_private
  remove_ok t it = rw (it.found, remove_inspected, it.private, remove_private, it.removed) refl

  rolled_back_ok :
      (rolled : List (TransactionError IoError) × S)
      → rolled.0 ≡ []
      → IsRemovable js journal rolled.1
      → (recover_rolled_back fs js journal rolled).0 ≡ ok tt
  unfolding recover_rolled_back
  rolled_back_ok ([], t) quiet it = remove_ok t it
  rolled_back_ok (e ∷ es, t) quiet it = cc

  -- Where the journal has what it had at the start, the rollback reports no error.
  quiet :
      ((q : String)
        → path_within journal q ≡ true
        → q ≢ manifest_path fs laws js journal m
        → laws.content s q ≡ laws.content start q)
      → (rollback_transaction fs m.entries s).0 ≡ []
  quiet kept =
      let inside : All
          (λ e. e.kind ≡ "file" → e.existed ≡ true → path_within journal e.backup ≡ true)
          m.entries =
        All-map (IsRecorded fs laws journal start) _ m.entries (λ e r. r.inside) ready.recorded in
      let apart : All (λ e. e.backup ≢ manifest_path fs laws js journal m) m.entries =
        All-map
          (λ e.
            (e.source ≢ manifest_path fs laws js journal m)
            × (e.backup ≢ manifest_path fs laws js journal m))
          _ m.entries (λ e a. a.1) ready.apart in
      let still : All
          (λ e.
            e.kind ≡ "file"
            → e.existed ≡ true
            → laws.content s e.backup ≡ laws.content start e.backup)
          m.entries =
        All-zip _ _ _ m.entries (λ e i a file existed. kept e.backup (i file existed) a) inside
          apart in
      let there : All (HasWhole fs laws s) m.entries =
        All-zip _ _ _ m.entries
          (λ e same w file existed.
            (let (d, found, sum) = w file existed in (d, same file existed ∙ found, sum)))
          still whole in
      rollback_quiet fs laws journal m.entries s ready.outside inside there clear

  recover_decoded_ok :
      (d : Data)
      → Phase fs laws js journal_laws journal m start s
      → laws.content s (manifest_path fs laws js journal m) ≡ some d
      → (recover_decoded fs js root journal (js.decode d) s).0 ≡ ok tt
  unfolding recover_decoded recover_trusted
  recover_decoded_ok d (untouched h same) k = absurd (cc (h, k))
  recover_decoded_ok d (prepared h same) k =
      rw
        (
          decoded fs laws js journal_laws journal m ready "prepared" s d h k,
          recover_decoded,
          accepted.when_prepared,
          recover_trusted,
        )
        (rolled_back_ok (rollback_transaction fs m.entries s) (quiet (λ q i apart. same q apart))
          answers.after)
  recover_decoded_ok d (promoting h same) k =
      rw
        (
          decoded fs laws js journal_laws journal m ready "promoting" s d h k,
          recover_decoded,
          accepted.when_promoting,
          recover_trusted,
        )
        (rolled_back_ok (rollback_transaction fs m.entries s) (quiet same) answers.after)
  recover_decoded_ok d (committed h done) k =
      rw
        (
          decoded fs laws js journal_laws journal m ready "committed" s d h k,
          recover_decoded,
          accepted.when_committed,
          recover_trusted,
        )
        (remove_ok s answers.now)

  recover_read_ok :
      (content : Option Data)
      → laws.content s (manifest_path fs laws js journal m) ≡ content
      → Phase fs laws js journal_laws journal m start s
      → (recover_read fs js root journal
          (js.read_journal s (manifest_path fs laws js journal m))
          s).0
        ≡ ok tt
  unfolding recover_read
  recover_read_ok (some d) is phase =
      rw (answers.reads d is, recover_read) (recover_decoded_ok d phase is)
  recover_read_ok none is phase =
      let (e, failed, missing) = answers.misses is in
      rw (failed, recover_read, missing) (remove_ok s answers.now)

  recover_inspected_ok :
      Phase fs laws js journal_laws journal m start s
      → (recover_inspected fs js root journal (js.lstat_dir s journal) s).0 ≡ ok tt
  unfolding recover_inspected recover_private
  recover_inspected_ok phase =
      let it = answers.now in
      rw (it.found, recover_inspected, it.private, recover_private)
        (recover_read_ok (laws.content s (manifest_path fs laws js journal m)) refl phase)

-- A recovery returns without an error at whatever moment the promotion of a prepared transaction was
-- interrupted, and however often its recovery was, if the backups had their digests at the start, the
-- manifest is accepted in each of its states, and no call that the recovery makes from that moment on
-- fails: the journal is a private directory that is read and removed, and the rollback, which undoes
-- the entries from the last to the first, reads, writes and removes its files and directories. A file or a
-- directory that is gone already need not be removed.
pub recover_project_transaction_returns :
    {S Data IoError : Type 0} (fs : FileSystem S Data IoError) (laws : Laws fs)
    (js : JournalSystem S Data IoError) (journal_laws : JournalLaws laws js)
    (m : TransactionManifest) (project_dir root : String) (start s : S)
    → js.abs project_dir ≡ ok root
    → IsPrepared fs laws js journal_laws (transaction_root root) m start
    → All (HasWhole fs laws start) m.entries
    → IsAccepted m root (transaction_root root)
    → ◌⟶*◌ fs laws js (transaction_root root) m start start s
    → Answers fs laws js
        (transaction_root root)
        (manifest_path fs laws js (transaction_root root) m)
        m.entries
        s
    → IsUnobstructed fs laws m.entries s
    → (recover_project_transaction fs js project_dir s).0 ≡ ok tt
unfolding recover_project_transaction recover_from
recover_project_transaction_returns fs laws js journal_laws m project_dir root start s found ready
      whole accepted moments answers clear =
    rw (found, recover_from)
      (recover_inspected_ok fs laws js journal_laws (transaction_root root) m ready whole root
        accepted s answers clear
        (moments-Phase fs laws js journal_laws (transaction_root root) m ready moments))
