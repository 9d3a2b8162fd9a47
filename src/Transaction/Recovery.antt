-- ===== src/Transaction/Recovery.antt =====
-- internal/generator/transaction.go: the journal on the disk, RecoverProjectTransaction, and the end
-- of GenerateProjectTransactional, from the manifest on.
pub mod Steps
pub mod Phases
pub mod RolledBack
pub mod AllOrNothing
pub mod Promotes
pub mod Runs
pub mod Settled
pub mod Quiet
pub mod Returns
mod Sample
mod Tests
use Prim.Native.Nat.{ℕ, ◌%◌}
use sdbx.Base.{
  String, Bool, true, false, ◌==◌, ◌!=◌, not, ◌||◌, List, [], ◌∷◌, Option, none, some, Message,
  Result, ok, err, Check, fine, fail_if, ◌>>◌, nat_eq, if◌then◌else◌, ◌<>◌,
}
use sdbx.Transaction.{
  TransactionEntry, TransactionManifest, JournalError, validate_transaction_manifest,
}
use sdbx.Transaction.Files.{FileSystem}
use sdbx.Transaction.Promotion.{TransactionError, lift, apply_transaction, rollback_transaction}

-- os.FileInfo of a directory: its permission bits, and the owner where the system tells it.
pub record DirInfo : Type 0 where
  pub is_symlink : Bool
  pub is_dir : Bool
  pub permissions : ℕ
  pub uid : Option ℕ

-- The other calls of the transaction: filepath.Abs, os.Lstat of a directory, securefs.ReadRegularFile
-- with the limit of the journal, os.RemoveAll, os.Geteuid, and encoding/json on the manifest.
pub record JournalSystem (S Data IoError : Type 0) : Type 0 where
  pub abs : String → Result IoError String
  pub lstat_dir : S → String → Result IoError DirInfo
  pub read_journal : S → String → Result IoError Data
  pub remove_all : String → S → Check IoError × S
  pub euid : ℕ
  pub encode : TransactionManifest → Data
  pub decode : Data → Option TransactionManifest

pub data RecoveryError (IoError : Type 0) : Type 0 where
  resolve_root : IoError → RecoveryError IoError
  inspect : IoError → RecoveryError IoError
  not_private : Message → RecoveryError IoError
  read_failed : IoError → RecoveryError IoError
  not_parsed : RecoveryError IoError
  not_trusted : JournalError → RecoveryError IoError
  rollback_failed : List (TransactionError IoError) → RecoveryError IoError
  remove_failed : IoError → RecoveryError IoError

-- filepath.Join of a cleaned absolute path and a name
unfoldable pub join : String → String → String
join root name = if root == "/" then "/" <> name else root <> "/" <> name

abbrev pub project_transaction_dir_name : String
project_transaction_dir_name = ".sdbx-init-transaction"

abbrev pub transaction_root : String → String
transaction_root root = join root project_transaction_dir_name

abbrev pub transaction_manifest_name : String
transaction_manifest_name = "manifest.json"

abbrev owned_by_other : ℕ → Option ℕ → Bool
owned_by_other euid none = false
owned_by_other euid (some uid) = not (nat_eq uid euid)

abbrev about : String → String → Message
about format path = record { format = format; args = path ∷ [] }

-- The group and the others have the last six bits of the mode.
unfoldable pub validate_private_transaction_dir : ℕ → DirInfo → String → Check Message
validate_private_transaction_dir euid info path =
    fail_if (info.is_symlink || not info.is_dir)
      (about "initializer transaction %s must be a directory, not a symlink" path)
    >> (fail_if (not (nat_eq (info.permissions % 64) 0))
          (about "initializer transaction %s must not be accessible by group or other users" path)
        >> fail_if (owned_by_other euid info.uid)
            (about "initializer transaction %s is not owned by the current user" path))

-- The state "committed" and the others.
abbrev pub with_state : String → TransactionManifest → TransactionManifest
with_state state m = record m { state = state }

module _ {S Data IoError : Type 0} (fs : FileSystem S Data IoError)
    (js : JournalSystem S Data IoError) where
  abbrev Outcome : Type 0
  Outcome = Check (RecoveryError IoError) × S

  abbrev removal : Check IoError → Check (RecoveryError IoError)
  removal (ok _) = fine
  removal (err e) = err (remove_failed e)

  unfoldable pub remove_private : String → Check Message → S → Outcome
  remove_private path (err message) s = (err (not_private message), s)
  remove_private path (ok _) s = (let (r, after) = js.remove_all path s in (removal r, after))

  unfoldable pub remove_inspected : String → Result IoError DirInfo → S → Outcome
  remove_inspected path (err e) s = if fs.is_not_exist e then (fine, s) else (err (inspect e), s)
  remove_inspected path (ok info) s =
      remove_private path (validate_private_transaction_dir js.euid info path) s

  unfoldable pub remove_transaction_dir : String → S → Outcome
  remove_transaction_dir path s = remove_inspected path (js.lstat_dir s path) s

  unfoldable pub recover_rolled_back : String → List (TransactionError IoError) × S → Outcome
  recover_rolled_back journal ([], s) = remove_transaction_dir journal s
  recover_rolled_back journal (e ∷ errors, s) = (err (rollback_failed (e ∷ errors)), s)

  unfoldable pub recover_trusted : String → TransactionManifest → Check JournalError → S → Outcome
  recover_trusted journal m (err e) s = (err (not_trusted e), s)
  recover_trusted journal m (ok _) s =
      if m.state != "committed"
      then recover_rolled_back journal (rollback_transaction fs m.entries s)
      else remove_transaction_dir journal s

  unfoldable pub recover_decoded : String → String → Option TransactionManifest → S → Outcome
  recover_decoded root journal none s = (err not_parsed, s)
  recover_decoded root journal (some m) s =
      recover_trusted journal m (validate_transaction_manifest m root journal) s

  -- Without a manifest no destination was changed.
  unfoldable pub recover_read : String → String → Result IoError Data → S → Outcome
  recover_read root journal (err e) s =
      if fs.is_not_exist e then remove_transaction_dir journal s else (err (read_failed e), s)
  recover_read root journal (ok bytes) s = recover_decoded root journal (js.decode bytes) s

  unfoldable pub recover_private : String → String → Check Message → S → Outcome
  recover_private root journal (err message) s = (err (not_private message), s)
  recover_private root journal (ok _) s =
      recover_read root journal (js.read_journal s (join journal transaction_manifest_name)) s

  unfoldable pub recover_inspected : String → String → Result IoError DirInfo → S → Outcome
  recover_inspected root journal (err e) s =
      if fs.is_not_exist e then (fine, s) else (err (inspect e), s)
  recover_inspected root journal (ok info) s =
      recover_private root journal (validate_private_transaction_dir js.euid info journal) s

  unfoldable pub recover_from : Result IoError String → S → Outcome
  recover_from (err e) s = (err (resolve_root e), s)
  recover_from (ok root) s =
      let journal = transaction_root root in
      recover_inspected root journal (js.lstat_dir s journal) s

  unfoldable pub recover_project_transaction : String → S → Outcome
  recover_project_transaction project_dir s = recover_from (js.abs project_dir) s

  abbrev is_pending : Result IoError DirInfo → Result IoError Bool
  is_pending (ok _) = ok true
  is_pending (err e) = if fs.is_not_exist e then ok false else err e

  abbrev pending_from : Result IoError String → S → Result IoError Bool
  pending_from (err e) s = err e
  pending_from (ok root) s = is_pending (js.lstat_dir s (transaction_root root))

  unfoldable pub project_transaction_pending : String → S → Result IoError Bool
  project_transaction_pending project_dir s = pending_from (js.abs project_dir) s

  -- `writeTransactionManifest`
  unfoldable pub write_manifest :
      String → TransactionManifest → S → Check (TransactionError IoError) × S
  write_manifest journal m s =
      let (r, after) =
        fs.write_file_atomic (join journal transaction_manifest_name) (js.encode m) 0o700 0o600 none
          s in
      (lift fs r, after)

  -- The errors of the end of GenerateProjectTransactional, and whether the deferred call then removes
  -- the journal.
  pub record Promoted : Type 0 where
    pub result : Check (TransactionError IoError)
    pub rollback_errors : List (TransactionError IoError)
    pub cleanup : Bool
    pub state : S

  abbrev returns : Check (TransactionError IoError) → Bool → S → Promoted
  returns r cleanup s = record { result = r; rollback_errors = []; cleanup = cleanup; state = s }

  -- The rollback behind a failed promotion.
  unfoldable pub undo : TransactionError IoError → List (TransactionError IoError) × S → Promoted
  undo e ([], s) = returns (err e) true s
  undo e (r ∷ rs, s) = record {
    result = err e;
    rollback_errors = r ∷ rs;
    cleanup = false;
    state = s;
  }

  unfoldable pub record_commit : Check (TransactionError IoError) × S → Promoted
  record_commit (err e, s) = returns (err e) false s
  record_commit (ok _, s) = returns fine true s

  unfoldable pub commit_promoted :
      String → TransactionManifest → Check (TransactionError IoError) × S → Promoted
  commit_promoted journal m (err e, s) = undo e (rollback_transaction fs m.entries s)
  commit_promoted journal m (ok _, s) =
      record_commit (write_manifest journal (with_state "committed" m) s)

  module _ (repair own : S → Check IoError × S) where
    -- applyVolumeOwnership, behind repairTransactionManagedFileOwnership
    unfoldable pub own_promoted :
        String → TransactionManifest → Check (TransactionError IoError) × S → Promoted
    own_promoted journal m (err e, s) = undo e (rollback_transaction fs m.entries s)
    own_promoted journal m (ok _, s) =
        let (r, after) = own s in commit_promoted journal m (lift fs r, after)

    unfoldable pub repair_promoted :
        String → TransactionManifest → Check (TransactionError IoError) × S → Promoted
    repair_promoted journal m (err e, s) = undo e (rollback_transaction fs m.entries s)
    repair_promoted journal m (ok _, s) =
        let (r, after) = repair s in own_promoted journal m (lift fs r, after)

    unfoldable pub promote_begun :
        String → TransactionManifest → Check (TransactionError IoError) × S → Promoted
    promote_begun journal m (err e, s) = returns (err e) true s
    promote_begun journal m (ok _, s) =
        repair_promoted journal m (apply_transaction fs m.secrets_root m.entries s)

    unfoldable pub promote_prepared :
        String → TransactionManifest → Check (TransactionError IoError) × S → Promoted
    promote_prepared journal m (err e, s) = returns (err e) true s
    promote_prepared journal m (ok _, s) =
        promote_begun journal m (write_manifest journal (with_state "promoting" m) s)

    -- From the first write of the manifest on, which is behind its validation.
    unfoldable pub promote : String → TransactionManifest → S → Promoted
    promote journal m s =
        promote_prepared journal m (write_manifest journal (with_state "prepared" m) s)
