-- ===== src/Transaction/Recovery/AllOrNothing.antt =====
-- Whatever moment a transaction was interrupted at, its recovery leaves all files or none promoted.
use sdbx.Base.{
  String, true, false, ◌==◌, none, some, Message, Result, ok, err, Check, ◌≡◌, ◌≢◌, ◌⊎◌, refl, inl,
  inr, Bool-cases,
}
use mathlib.Core.Path.{subst}
use sdbx.Transaction.{TransactionManifest, JournalError, path_within}
use sdbx.Transaction.Journal.{IsTrusted, HasDistinctTargets}
use sdbx.Transaction.Files.{FileSystem, Laws}
use sdbx.Transaction.Promotion.{rollback_transaction}
use sdbx.Transaction.Recovery.{
  JournalSystem, DirInfo, with_state, transaction_root, recover_trusted, recover_decoded,
  recover_read, recover_private, recover_inspected, recover_from, recover_project_transaction,
}
use sdbx.Transaction.Recovery.Steps.{
  JournalLaws, Recorded, IsPromoted, IsRestored, manifest_path, ◌⟶*◌,
}
use sdbx.Transaction.Recovery.Phases.{
  IsPrepared, Phase, untouched, prepared, promoting, committed, moments-Phase,
}
use sdbx.Transaction.Recovery.RolledBack.{
  AllOrNothing, removed, unchanged, rolled_back, recover_rolled_back-IsRestored,
}

module _ {S Data IoError : Type 0} (fs : FileSystem S Data IoError) (laws : Laws fs)
    (js : JournalSystem S Data IoError) (journal_laws : JournalLaws laws js) (journal : String)
    (m : TransactionManifest) {start : S}
    (ready : IsPrepared fs laws js journal_laws journal m start) where
  -- The manifest that the recovery reads.
  pub decoded :
      (state : String) (s : S) (d : Data)
      → Recorded fs laws js journal m state s
      → laws.content s (manifest_path fs laws js journal m) ≡ some d
      → js.decode d ≡ some (with_state state m)
  decoded state s d h k =
      let same : js.encode (with_state state m) ≡ d = cc (h, k) in
      subst (λ c. js.decode c ≡ some (with_state state m)) same
        (journal_laws.round_trip (with_state state m))

  recover_trusted-pending :
      (state : String) (s : S) {after : S} (checked : Check JournalError)
      → (state == "committed") ≡ false
      → HasDistinctTargets m.entries
      → ((q : String)
          → path_within journal q ≡ true
          → q ≢ manifest_path fs laws js journal m
          → laws.content s q ≡ laws.content start q)
      → recover_trusted fs js journal (with_state state m) checked s ≡ (ok tt, after)
      → AllOrNothing fs laws js journal_laws journal m ready after
  unfolding recover_trusted
  recover_trusted-pending state s (err e) pending distinct kept h = cc
  recover_trusted-pending state s (ok _) pending distinct kept h =
      recover_rolled_back-IsRestored fs laws js journal_laws journal m ready
        (rollback_transaction fs m.entries s)
        (rolled_back fs laws js journal_laws journal m ready s distinct kept) (rw pending at h)

  recover_trusted-committed :
      (s : S) {after : S} (checked : Check JournalError)
      → IsPromoted fs laws js journal m start s
      → recover_trusted fs js journal (with_state "committed" m) checked s ≡ (ok tt, after)
      → AllOrNothing fs laws js journal_laws journal m ready after
  unfolding recover_trusted
  recover_trusted-committed s (err e) done h = cc
  recover_trusted-committed s (ok _) done h = inr (
      subst (λ o. IsPromoted fs laws js journal m start o.1) h
        (removed fs laws js journal_laws journal m ready _ s done))

  -- Where the manifest is gone, nothing was changed.
  nothing_changed :
      (s : S)
      → Phase fs laws js journal_laws journal m start s
      → laws.content s (manifest_path fs laws js journal m) ≡ none
      → IsRestored fs laws js journal m start s
  nothing_changed s (untouched h same) k = unchanged fs laws js journal_laws journal m ready s same
  nothing_changed s (prepared h same) k = absurd (cc (h, k))
  nothing_changed s (promoting h same) k = absurd (cc (h, k))
  nothing_changed s (committed h done) k = absurd (cc (h, k))

  module _ (root : String) (distinct : HasDistinctTargets m.entries) where
    recover_decoded-AllOrNothing :
        (s : S) (d : Data) {after : S}
        → Phase fs laws js journal_laws journal m start s
        → laws.content s (manifest_path fs laws js journal m) ≡ some d
        → recover_decoded fs js root journal (js.decode d) s ≡ (ok tt, after)
        → AllOrNothing fs laws js journal_laws journal m ready after
    unfolding recover_decoded
    recover_decoded-AllOrNothing s d (untouched h same) k done = absurd (cc (h, k))
    recover_decoded-AllOrNothing s d (prepared h same) k done =
        recover_trusted-pending "prepared" s _ refl distinct (λ q i apart. same q apart)
          (rw (decoded "prepared" s d h k, recover_decoded) at done)
    recover_decoded-AllOrNothing s d (promoting h same) k done =
        recover_trusted-pending "promoting" s _ refl distinct same
          (rw (decoded "promoting" s d h k, recover_decoded) at done)
    recover_decoded-AllOrNothing s d (committed h promoted) k done =
        recover_trusted-committed s _ promoted
          (rw (decoded "committed" s d h k, recover_decoded) at done)

    recover_read-AllOrNothing :
        (s : S) (r : Result IoError Data) {after : S}
        → js.read_journal s (manifest_path fs laws js journal m) ≡ r
        → Phase fs laws js journal_laws journal m start s
        → recover_read fs js root journal r s ≡ (ok tt, after)
        → AllOrNothing fs laws js journal_laws journal m ready after
    unfolding recover_read
    recover_read-AllOrNothing s (ok d) was phase h =
        recover_decoded-AllOrNothing s d phase (journal_laws.read s _ d was) h
    recover_read-AllOrNothing s (err e) was phase h = elim (Bool-cases (fs.is_not_exist e)) [
      | inl is ↦ inl (
          subst (λ o. IsRestored fs laws js journal m start o.1) (rw is at h)
            (removed fs laws js journal_laws journal m ready _ s
              (nothing_changed s phase (journal_laws.unread s _ e was is))))
      | inr is ↦ absurd (let impossible = rw is at h in cc)
    ]

    recover_private-AllOrNothing :
        (s : S) (r : Check Message) {after : S}
        → Phase fs laws js journal_laws journal m start s
        → recover_private fs js root journal r s ≡ (ok tt, after)
        → AllOrNothing fs laws js journal_laws journal m ready after
    unfolding recover_private
    recover_private-AllOrNothing s (err e) phase h = cc
    recover_private-AllOrNothing s (ok _) phase h =
        recover_read-AllOrNothing s (js.read_journal s (manifest_path fs laws js journal m)) refl
          phase h

    recover_inspected-AllOrNothing :
        (s : S) (r : Result IoError DirInfo) {after : S}
        → js.lstat_dir s journal ≡ r
        → Phase fs laws js journal_laws journal m start s
        → recover_inspected fs js root journal r s ≡ (ok tt, after)
        → AllOrNothing fs laws js journal_laws journal m ready after
    unfolding recover_inspected
    recover_inspected-AllOrNothing s (ok info) was phase h =
        recover_private-AllOrNothing s _ phase h
    recover_inspected-AllOrNothing s (err e) was phase h = elim (Bool-cases (fs.is_not_exist e)) [
      | inl is ↦ inl (
          subst (λ o. IsRestored fs laws js journal m start o.1) (rw is at h)
            (nothing_changed s phase (journal_laws.gone s journal _ e was is ready.inside)))
      | inr is ↦ absurd (let impossible = rw is at h in cc)
    ]

-- At whatever moment the promotion of a prepared transaction was interrupted, and however often its
-- recovery was, a recovery that returns without an error leaves all files or none of them promoted:
-- every file of the journal has the content that it had at the start, or no content if there was
-- none, or every one has the content that was staged for it. An interruption inside the removal of
-- the journal is not among the moments.
pub recover_project_transaction-AllOrNothing :
    {S Data IoError : Type 0} (fs : FileSystem S Data IoError) (laws : Laws fs)
    (js : JournalSystem S Data IoError) (journal_laws : JournalLaws laws js)
    (m : TransactionManifest) (project_dir root : String) (start s after : S)
    → js.abs project_dir ≡ ok root
    → IsTrusted m root (transaction_root root)
    → IsPrepared fs laws js journal_laws (transaction_root root) m start
    → ◌⟶*◌ fs laws js (transaction_root root) m start start s
    → recover_project_transaction fs js project_dir s ≡ (ok tt, after)
    → IsRestored fs laws js (transaction_root root) m start after
      ⊎ IsPromoted fs laws js (transaction_root root) m start after
unfolding recover_project_transaction recover_from
recover_project_transaction-AllOrNothing fs laws js journal_laws m project_dir root start s after
      found trusted ready moments h =
    recover_inspected-AllOrNothing fs laws js journal_laws (transaction_root root) m ready root
      trusted.distinct s (js.lstat_dir s (transaction_root root)) refl
      (moments-Phase fs laws js journal_laws (transaction_root root) m ready moments)
      (rw (found, recover_from) at h)
