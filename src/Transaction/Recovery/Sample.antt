-- ===== src/Transaction/Recovery/Sample.antt =====
-- A transaction on a disk whose files are texts or the manifest, interrupted behind its first file.
use sdbx.Base.{
  has_prefix, String, true, false, ◌==◌, Option, none, some, Result, ok, err, ◌≡◌, ◌≢◌, refl,
  if◌then◌else◌, inl, eq_iff, arith,
}
use mathlib.Core.List.{Memᴰ}
use sdbx.Transaction.{
  TransactionManifest, path_within, validate_transaction_manifest, validate_header,
  validate_entries, validate_entry, validate_digests, valid_transaction_digest,
}
use sdbx.Transaction.Journal.{IsTrusted, validate_transaction_manifest-IsTrusted}
use sdbx.Transaction.Promotion.{apply_entry}
use sdbx.Transaction.Recovery.{
  JournalSystem, DirInfo, join, transaction_root, with_state, validate_private_transaction_dir,
  remove_private, remove_inspected, remove_transaction_dir, recover_rolled_back, recover_trusted,
  recover_decoded, recover_read, recover_private, recover_inspected, recover_from,
  recover_project_transaction, write_manifest, undo, record_commit, commit_promoted, own_promoted,
  repair_promoted, promote_begun, promote_prepared, promote,
}
use sdbx.Transaction.Recovery.Steps.{JournalLaws, ◌⟶*◌, here, later, prepare, begin, apply}
use sdbx.Transaction.Recovery.Phases.{IsPrepared}
use sdbx.Transaction.Disk.{
  Disk, put, found, found-ok, found-err, disk_files, disk_laws, running, not_file,
}
use sdbx.Transaction.Tests.{journal, manifest, compose_file, paths, backup_inside}

pub data Content : Type 0 where
  text : String → Content
  written : TransactionManifest → Content

abbrev pub as_manifest : Content → Option TransactionManifest
as_manifest (text s) = none
as_manifest (written m) = some m

abbrev pub private_dir : DirInfo
private_dir = record { is_symlink = false; is_dir = true; permissions = 0o700; uid = some 1000 }

abbrev pub system : JournalSystem (Disk Content) Content (Unit {0})
system = record {
  abs = λ p. ok "/srv/sdbx";
  lstat_dir = λ s p. ok private_dir;
  read_journal = λ s p. found (s p);
  remove_all = λ dir s. (ok tt, λ q. if path_within dir q then none else s q);
  euid = 1000;
  encode = written;
  decode = as_manifest;
}

pub not_found : {e : Unit {0}} → ◌≢◌ {A = Result (Unit {0}) DirInfo} (ok private_dir) (err e)
not_found h = cc

abbrev pub system_laws : JournalLaws {fs = disk_files} disk_laws system
system_laws = record {
  atomic = λ p d dir_mode mode owner s. inl (disk_laws.written p d dir_mode mode owner s refl);
  read = λ s p d h. found-ok (s p) d h;
  unread = λ s p e h _. found-err (s p) e h;
  gone = λ s dir p e h _ _. absurd (not_found h);
  removed_elsewhere = λ dir s q out. rw out refl;
  round_trip = λ m. refl;
}

-- The disk behind the preparation.
abbrev pub ready_disk : Disk Content
ready_disk = put "/srv/sdbx/.sdbx-init-transaction/stage/project/compose.yaml" (some (text "new")) (
    put "/srv/sdbx/compose.yaml" (some (text "old"))
      (put "/srv/sdbx/.sdbx-init-transaction/rollback/000001" (some (text "old")) (λ p. none)))

pub differ : (a b : String) → (a == b) ≡ false → a ≢ b
differ a b h same = ground (arith, eq_iff a b)

unfoldable pub evaluation : Unit {0}
unfolding running paths has_prefix join validate_private_transaction_dir remove_private
    remove_inspected remove_transaction_dir recover_rolled_back recover_trusted recover_decoded
    recover_read recover_private recover_inspected recover_from recover_project_transaction
    write_manifest undo record_commit commit_promoted own_promoted repair_promoted promote_begun
    promote_prepared promote validate_transaction_manifest validate_header validate_entries
    validate_entry validate_digests valid_transaction_digest
evaluation = tt

abbrev pub file : String
file = "/srv/sdbx/.sdbx-init-transaction/manifest.json"

pub inside :
    path_within (transaction_root "/srv/sdbx") (join (transaction_root "/srv/sdbx") "manifest.json")
    ≡ true
unfolding evaluation
inside = refl

pub ready_disk-IsPrepared :
    IsPrepared disk_files disk_laws system system_laws
      (transaction_root "/srv/sdbx")
      manifest
      ready_disk
unfolding evaluation
ready_disk-IsPrepared = record {
  inside = inside;
  unwritten = refl;
  recorded = (
    record { inside = λ h. absurd (not_file h); kept = λ h. absurd (not_file h) },
    (record { inside = λ _ _. backup_inside; kept = λ _. refl }, tt),
  );
  outside = (refl, (refl, tt));
  apart = (
    (
      differ "/srv/sdbx/.sdbx-init-transaction/stage/project/configs" file refl,
      differ "" file refl,
    ),
    (
      (
        differ "/srv/sdbx/.sdbx-init-transaction/stage/project/compose.yaml" file refl,
        differ "/srv/sdbx/.sdbx-init-transaction/rollback/000001" file refl,
      ),
      tt,
    ),
  );
}

pub trusted : IsTrusted manifest "/srv/sdbx" (transaction_root "/srv/sdbx")
unfolding evaluation
trusted = validate_transaction_manifest-IsTrusted manifest "/srv/sdbx" journal refl

-- Behind the two writes of the manifest and the promotion of the second entry.
abbrev pub interrupted : Disk Content
interrupted =
    (apply_entry disk_files manifest.secrets_root compose_file
      (write_manifest disk_files system (transaction_root "/srv/sdbx")
        (with_state "promoting" manifest)
        (write_manifest disk_files system (transaction_root "/srv/sdbx")
          (with_state "prepared" manifest) ready_disk).1).1).1

pub interrupted_content : interrupted "/srv/sdbx/compose.yaml" ≡ some (text "new")
unfolding evaluation
interrupted_content = refl

pub moment :
    ◌⟶*◌ disk_files disk_laws system
      (transaction_root "/srv/sdbx")
      manifest
      ready_disk
      ready_disk
      interrupted
unfolding evaluation
moment =
    later (later (later here (prepare refl)) (begin refl)) (apply refl (Memᴰ.tail (Memᴰ.head refl)))

abbrev pub recovered : Disk Content
recovered = (recover_project_transaction disk_files system "." interrupted).1
