-- ===== src/Transaction/Recovery/Settled.antt =====
-- How the end of GenerateProjectTransactional settles: by cases on what each call returns.
use sdbx.Base.{String, ok, err, Check, ◌≡◌, ◌≢◌, refl, ◌∙◌, All-map}
use sdbx.Transaction.{TransactionManifest}
use sdbx.Transaction.Journal.{IsTrusted, IsConfined}
use sdbx.Transaction.Files.{FileSystem, Laws}
use sdbx.Transaction.Promotion.{TransactionError, lift, apply_transaction}
use sdbx.Transaction.Restores.{IsOutside, All-zip}
use sdbx.Transaction.Recovery.{
  JournalSystem, Promoted, record_commit, commit_promoted, own_promoted, repair_promoted,
  promote_begun, promote_prepared, promote, write_manifest, with_state,
}
use sdbx.Transaction.Recovery.Steps.{
  JournalLaws, Recorded, IsPromoted, manifest_path, prepare, begin, chown, here, later, commit,
}
use sdbx.Transaction.Recovery.Phases.{IsPrepared, write_manifest_lem, target_differs}
use sdbx.Transaction.Recovery.RolledBack.{unchanged}
use sdbx.Transaction.Recovery.Promotes.{apply_transaction-ok}
use sdbx.Transaction.Recovery.Promotes.{lift-ok}
use sdbx.Transaction.Recovery.Runs.{
  All-self, IsOpen, Moment, IsSettled, failed, apply_transaction-IsOpen,
}

module _ {S Data IoError : Type 0} (fs : FileSystem S Data IoError) (laws : Laws fs)
    (js : JournalSystem S Data IoError) (journal_laws : JournalLaws laws js) (journal : String)
    (m : TransactionManifest) {start : S}
    (ready : IsPrepared fs laws js journal_laws journal m start) (root : String)
    (trusted : IsTrusted m root journal) where
  abbrev Settled : Promoted fs js → Type 0
  Settled = IsSettled fs laws js journal_laws journal m ready root trusted

  abbrev Open : S → Type 0
  Open = IsOpen fs laws js journal_laws journal m ready root trusted

  abbrev At : S → Type 0
  At = Moment fs laws js journal_laws journal m ready root trusted

  -- A write of the manifest that reports no error has written it.
  recorded :
      (state : String) (s : S)
      → (write_manifest fs js journal (with_state state m) s).0 ≡ ok tt
      → Recorded fs laws js journal m state (write_manifest fs js journal (with_state state m) s).1
  unfolding write_manifest
  recorded state s h =
      laws.written (manifest_path fs laws js journal m) (js.encode (with_state state m)) _ _ _ s
        (lift-ok fs laws _ h)

  elsewhere :
      (state : String) (s : S) (q : String)
      → q ≢ manifest_path fs laws js journal m
      → laws.content (write_manifest fs js journal (with_state state m) s).1 q ≡ laws.content s q
  elsewhere state s = (write_manifest_lem fs laws js journal_laws journal m state s).1

  record_commit-IsSettled :
      (w : Check (TransactionError IoError) × S)
      → At w.1
      → IsPromoted fs laws js journal m start w.1
      → Settled (record_commit fs js w)
  unfolding record_commit
  record_commit-IsSettled (ok _, s) moment done = record {
    moment = moment;
    promoted = λ _. done;
    restored = λ e h _. cc;
  }
  record_commit-IsSettled (err e, s) moment done = record {
    moment = moment;
    promoted = λ h. cc;
    restored = λ _ _ h. cc;
  }

  commit_promoted-IsSettled :
      (c : Check (TransactionError IoError)) (s : S)
      → Open s
      → IsPromoted fs laws js journal m start s
      → Settled (commit_promoted fs js journal m (c, s))
  unfolding commit_promoted
  commit_promoted-IsSettled (err e) s h done =
      failed fs laws js journal_laws journal m ready root trusted e s h
  commit_promoted-IsSettled (ok _) s (moment, h) done =
      record_commit-IsSettled (write_manifest fs js journal (with_state "committed" m) s)
        (later moment (commit h done))
        (All-zip (IsOutside fs laws journal) _ _ m.entries
          (λ e out was file.
            elsewhere "committed" s e.target
              (target_differs fs laws js journal_laws journal m ready e out)
            ∙ was file)
          ready.outside done)

  -- A call that changes owners only.
  chowned :
      (s t : S)
      → ((q : String) → laws.content t q ≡ laws.content s q)
      → Open s
      → IsPromoted fs laws js journal m start s
      → Open t × IsPromoted fs laws js journal m start t
  chowned s t same (moment, h) done = (
    (later moment (chown same), same (manifest_path fs laws js journal m) ∙ h),
    All-map _ _ m.entries (λ e was file. same e.target ∙ was file) done,
  )

  module _ (repair own : S → Check IoError × S)
      (repair_keeps : (s : S) (q : String) → laws.content (repair s).1 q ≡ laws.content s q)
      (own_keeps : (s : S) (q : String) → laws.content (own s).1 q ≡ laws.content s q) where
    own_promoted-IsSettled :
        (c : Check (TransactionError IoError)) (s : S)
        → Open s
        → IsPromoted fs laws js journal m start s
        → Settled (own_promoted fs js repair own journal m (c, s))
    unfolding own_promoted
    own_promoted-IsSettled (err e) s h done =
        failed fs laws js journal_laws journal m ready root trusted e s h
    own_promoted-IsSettled (ok _) s h done =
        let (open_, promoted) = chowned s (own s).1 (own_keeps s) h done in
        commit_promoted-IsSettled (lift fs (own s).0) (own s).1 open_ promoted

    repair_promoted-IsSettled :
        (o : Check (TransactionError IoError) × S)
        → Open o.1
        → (o.0 ≡ ok tt → IsPromoted fs laws js journal m start o.1)
        → Settled (repair_promoted fs js repair own journal m o)
    unfolding repair_promoted
    repair_promoted-IsSettled (err e, s) h done =
        failed fs laws js journal_laws journal m ready root trusted e s h
    repair_promoted-IsSettled (ok _, s) h done =
        let (open_, promoted) = chowned s (repair s).1 (repair_keeps s) h (done refl) in
        own_promoted-IsSettled (lift fs (repair s).0) (repair s).1 open_ promoted

    -- What the journal has at a moment is what it had at the start.
    promote_begun-IsSettled :
        (o : Check (TransactionError IoError) × S)
        → At o.1
        → ((q : String)
            → q ≢ manifest_path fs laws js journal m
            → laws.content o.1 q ≡ laws.content start q)
        → (o.0 ≡ ok tt → Recorded fs laws js journal m "promoting" o.1)
        → Settled (promote_begun fs js repair own journal m o)
    unfolding promote_begun
    promote_begun-IsSettled (err e, s) moment same h = record {
      moment = moment;
      promoted = λ h. cc;
      restored = λ _ _ _. unchanged fs laws js journal_laws journal m ready s same;
    }
    promote_begun-IsSettled (ok _, s) moment same h =
        repair_promoted-IsSettled (apply_transaction fs m.secrets_root m.entries s)
          (apply_transaction-IsOpen fs laws js journal_laws journal m ready root trusted m.entries s
            (All-self m.entries) (moment, h refl))
          (λ applied.
            All-zip _
              (λ e.
                (e.source ≢ manifest_path fs laws js journal m)
                × (e.backup ≢ manifest_path fs laws js journal m))
              _ m.entries (λ e done apart file. done file ∙ same e.source apart.0)
              (apply_transaction-ok fs laws journal m.secrets_root m.entries s trusted.distinct
                ready.outside
                (All-map (IsConfined m journal) _ m.entries (λ e c. c.source) trusted.entries)
                applied)
              ready.apart)

    promote_prepared-IsSettled :
        (o : Check (TransactionError IoError) × S)
        → At o.1
        → ((q : String)
            → q ≢ manifest_path fs laws js journal m
            → laws.content o.1 q ≡ laws.content start q)
        → (o.0 ≡ ok tt → Recorded fs laws js journal m "prepared" o.1)
        → Settled (promote_prepared fs js repair own journal m o)
    unfolding promote_prepared
    promote_prepared-IsSettled (err e, s) moment same h = record {
      moment = moment;
      promoted = λ h. cc;
      restored = λ _ _ _. unchanged fs laws js journal_laws journal m ready s same;
    }
    promote_prepared-IsSettled (ok _, s) moment same h =
        promote_begun-IsSettled (write_manifest fs js journal (with_state "promoting" m) s)
          (later moment (begin (h refl)))
          (λ q differ. elsewhere "promoting" s q differ ∙ same q differ) (recorded "promoting" s)

    -- The end of `GenerateProjectTransactional`, from the first write of a trusted manifest on, passes
    -- only states that the steps of a transaction reach. If it reports no error, every file has its
    -- staged content; if it reports one and lets the journal be removed, every file is as it was.
    pub promote-IsSettled :
        IsSettled fs laws js journal_laws journal m ready root trusted
          (promote fs js repair own journal m start)
    unfolding promote
    promote-IsSettled =
        promote_prepared-IsSettled (write_manifest fs js journal (with_state "prepared" m) start)
          (later here (prepare ready.unwritten)) (elsewhere "prepared" start)
          (recorded "prepared" start)
