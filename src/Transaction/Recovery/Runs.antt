-- ===== src/Transaction/Recovery/Runs.antt =====
-- What the end of GenerateProjectTransactional does, and that it passes the moments of the steps only.
use sdbx.Base.{String, true, List, [], ◌∷◌, ok, err, Check, ◌≡◌, refl, ◌∙◌, All, All-map}
use mathlib.Core.List.{Memᴰ}
use sdbx.Transaction.{TransactionEntry, TransactionManifest}
use sdbx.Transaction.Journal.{IsTrusted}
use sdbx.Transaction.Files.{FileSystem, Laws}
use sdbx.Transaction.Promotion.{
  TransactionError, then_do, apply_entry, apply_transaction, rollback_entry, rollback_transaction,
}
use sdbx.Transaction.Elsewhere.{apply_entry-content, rollback_entry-content}
use sdbx.Transaction.Restores.{IsOutside}
use sdbx.Transaction.Recovery.{JournalSystem, Promoted, undo}
use sdbx.Transaction.Recovery.Steps.{
  JournalLaws, Recorded, IsPromoted, IsRestored, manifest_path, apply, roll_back, ◌⟶*◌, later,
}
use sdbx.Transaction.Recovery.Phases.{
  IsPrepared, moments-Phase, of_promoting, outside_differs, All-Mem,
}
use sdbx.Transaction.Recovery.RolledBack.{rolled_back}

pub All-self {ℓ} : {A : Type ℓ} (xs : List A) → All (λ x. Memᴰ x xs) xs
All-self [] = tt
All-self (x ∷ xs) = (Memᴰ.head refl, All-map _ _ xs (λ y mem. Memᴰ.tail mem) (All-self xs))

module _ {S Data IoError : Type 0} (fs : FileSystem S Data IoError) (laws : Laws fs)
    (js : JournalSystem S Data IoError) (journal_laws : JournalLaws laws js) (journal : String)
    (m : TransactionManifest) {start : S}
    (ready : IsPrepared fs laws js journal_laws journal m start) (root : String)
    (trusted : IsTrusted m root journal) where
  abbrev pub Moment : S → Type 0
  Moment s = ◌⟶*◌ fs laws js journal m start start s

  abbrev pub Promoting : S → Type 0
  Promoting s = Recorded fs laws js journal m "promoting" s

  -- A moment of the run at which the manifest says "promoting".
  abbrev pub IsOpen : S → Type 0
  IsOpen s = Moment s × Promoting s

  apply-IsOpen :
      (e : TransactionEntry) (s : S)
      → Memᴰ e m.entries
      → IsOpen s
      → IsOpen (apply_entry fs m.secrets_root e s).1
  apply-IsOpen e s mem (r, h) = (
    later r (apply h mem),
    apply_entry-content fs laws m.secrets_root e s (manifest_path fs laws js journal m) (
          outside_differs fs laws js journal_laws journal m e (manifest_path fs laws js journal m)
            (All-Mem (IsOutside fs laws journal) mem ready.outside) ready.inside)
        ∙ h,
  )

  roll_back-IsOpen :
      (e : TransactionEntry) (s : S)
      → Memᴰ e m.entries
      → IsOpen s
      → IsOpen (rollback_entry fs e s).1
  roll_back-IsOpen e s mem (r, h) = (
    later r (roll_back h mem),
    rollback_entry-content fs laws e s (manifest_path fs laws js journal m) (
          outside_differs fs laws js journal_laws journal m e (manifest_path fs laws js journal m)
            (All-Mem (IsOutside fs laws journal) mem ready.outside) ready.inside)
        ∙ h,
  )

  then_do-IsOpen :
      (first : Check (TransactionError IoError) × S)
      (next : S → Check (TransactionError IoError) × S)
      → IsOpen first.1
      → (IsOpen first.1 → IsOpen (next first.1).1)
      → IsOpen (then_do fs first next).1
  unfolding then_do
  then_do-IsOpen (ok _, s) next h k = k h
  then_do-IsOpen (err e, s) next h k = h

  pub apply_transaction-IsOpen :
      (es : List TransactionEntry) (s : S)
      → All (λ e. Memᴰ e m.entries) es
      → IsOpen s
      → IsOpen (apply_transaction fs m.secrets_root es s).1
  unfolding apply_transaction
  apply_transaction-IsOpen [] s mems h = h
  apply_transaction-IsOpen (e ∷ es) s (mem, mems) h =
      then_do-IsOpen (apply_entry fs m.secrets_root e s) _ (apply-IsOpen e s mem h)
        (apply_transaction-IsOpen es (apply_entry fs m.secrets_root e s).1 mems)

  rollback_transaction-IsOpen :
      (es : List TransactionEntry) (s : S)
      → All (λ e. Memᴰ e m.entries) es
      → IsOpen s
      → IsOpen (rollback_transaction fs es s).1
  unfolding rollback_transaction
  rollback_transaction-IsOpen [] s mems h = h
  rollback_transaction-IsOpen (e ∷ es) s (mem, mems) h =
      roll_back-IsOpen e (rollback_transaction fs es s).1 mem
        (rollback_transaction-IsOpen es s mems h)

  -- How the run ends: in a moment of the transaction, with every file promoted if it reports no error,
  -- and as before if it reports one and lets the journal be removed.
  pub record IsSettled (o : Promoted fs js) : Type 0 where
    pub moment : Moment o.state
    pub promoted : o.result ≡ ok tt → IsPromoted fs laws js journal m start o.state
    pub restored :
        (e : TransactionError IoError)
        → o.result ≡ err e
        → o.cleanup ≡ true
        → IsRestored fs laws js journal m start o.state

  undo-IsSettled :
      (e : TransactionError IoError) (rolled : List (TransactionError IoError) × S)
      → Moment rolled.1
      → (rolled.0 ≡ [] → IsRestored fs laws js journal m start rolled.1)
      → IsSettled (undo fs js e rolled)
  unfolding undo
  undo-IsSettled e ([], s) moment back = record {
    moment = moment;
    promoted = λ h. cc;
    restored = λ _ _ _. back refl;
  }
  undo-IsSettled e (r ∷ rs, s) moment back = record {
    moment = moment;
    promoted = λ h. cc;
    restored = λ _ _ h. cc;
  }

  pub failed :
      (e : TransactionError IoError) (s : S)
      → IsOpen s
      → IsSettled (undo fs js e (rollback_transaction fs m.entries s))
  failed e s h =
      undo-IsSettled e (rollback_transaction fs m.entries s)
        (rollback_transaction-IsOpen m.entries s (All-self m.entries) h).0
        (rolled_back fs laws js journal_laws journal m ready s trusted.distinct (
          of_promoting fs laws js journal_laws journal m
            (moments-Phase fs laws js journal_laws journal m ready h.0) h.1))
