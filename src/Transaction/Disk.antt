-- ===== src/Transaction/Disk.antt =====
-- A disk that keeps one content for each path satisfies the laws of the file system; the rollback of
-- a promoted file on it.
use sdbx.Base.{
  String, true, ◌==◌, [], Option, none, some, Result, ok, err, ◌≡◌, ◌≢◌, refl, ap, sym,
  if◌then◌else◌, inl, inr, eq_iff, eq_refl, arith, All, eq-cases,
}
use sdbx.Transaction.Files.{FileSystem, Laws, Info, missing, other}
use sdbx.Transaction.Promotion.{
  lift, compare_digest, then_do, write_staged, apply_entry, apply_transaction, verify_digest,
  restore_content, restore_verified, restore_transaction_file, owner_of, rollback_existing,
  rollback_file, rollback_dir, rollback_entry, rollback_transaction,
}
use sdbx.Transaction.Restores.{IsRecorded}
use sdbx.Transaction.Tests.{journal, digest, manifest, compose_file, backup_inside}

abbrev pub Disk : Type 0 → Type 0
Disk A = String → Option A

module _ {A : Type 0} where
  abbrev pub put : String → Option A → Disk A → Disk A
  put p content disk q = if p == q then content else disk q

  abbrev pub seen : Option A → Info (Unit {0})
  seen none = missing
  seen (some d) = other

  abbrev pub found : Option A → Result (Unit {0}) A
  found none = err tt
  found (some d) = ok d

  abbrev pub disk_files : FileSystem (Disk A) A (Unit {0})
  disk_files = record {
    lstat = λ s p. seen (s p);
    read_regular_file = λ s p. found (s p);
    sum = λ d. digest;
    ensure_dir = λ p mode s. (ok tt, s);
    write_file_atomic = λ p d dir_mode mode owner s. (ok tt, put p (some d) s);
    chmod = λ p mode s. (ok tt, s);
    remove = λ p s. (ok tt, put p none s);
    is_not_exist = λ e. true;
  }

  pub found-ok : (o : Option A) (d : A) → found o ≡ ok d → o ≡ some d
  found-ok none d h = cc h
  found-ok (some c) d h = ap (λ r. elim r [ ok x ↦ some x | err _ ↦ none ]) h

  pub found-err : (o : Option A) (e : Unit {0}) → found o ≡ err e → o ≡ none
  found-err none e h = refl
  found-err (some c) e h = cc h

  pub seen-missing : (o : Option A) → seen o ≡ missing → o ≡ none
  seen-missing none h = refl
  seen-missing (some d) h = cc h

  pub put-same : (p : String) (content : Option A) (s : Disk A) → put p content s p ≡ content
  put-same p content s = rw (eq_refl p) refl

  pub put-other :
      (p : String) (content : Option A) (s : Disk A) (q : String) → q ≢ p → put p content s q ≡ s q
  put-other p content s q h = elim (eq-cases p q) [
    | inl (same, _) ↦ absurd (h (sym same))
    | inr (_, e) ↦ rw e refl
  ]

  abbrev pub disk_laws : Laws disk_files
  disk_laws = record {
    content = λ s p. s p;
    read = λ s p d h. found-ok (s p) d h;
    absent = λ s p h. seen-missing (s p) h;
    ensure = λ p mode s q. refl;
    mode = λ p mode s q. refl;
    written = λ p d dir_mode mode owner s h. put-same p (some d) s;
    write_elsewhere = λ p d dir_mode mode owner s q h. put-other p (some d) s q h;
    removed = λ p s h. put-same p none s;
    remove_elsewhere = λ p s q h. put-other p none s q h;
  }

-- The disk behind the preparation: the staged file, the old one, and its copy in the journal.
abbrev prepared : Disk String
prepared = put "/srv/sdbx/.sdbx-init-transaction/stage/project/compose.yaml" (some "new") (
    put "/srv/sdbx/compose.yaml" (some "old")
      (put "/srv/sdbx/.sdbx-init-transaction/rollback/000001" (some "old") (λ p. none)))

unfoldable pub running : Unit {0}
unfolding apply_transaction apply_entry then_do write_staged verify_digest compare_digest lift
    rollback_transaction rollback_entry rollback_file rollback_dir rollback_existing
    restore_verified restore_content restore_transaction_file owner_of
running = tt

promoted : (apply_transaction disk_files manifest.secrets_root manifest.entries prepared).0 ≡ ok tt
unfolding running
promoted = refl

promoted_content :
    (apply_transaction disk_files manifest.secrets_root manifest.entries prepared).1
      compose_file.target
    ≡ some "new"
unfolding running
promoted_content = refl

rolled_back :
    (rollback_transaction disk_files manifest.entries
      (apply_transaction disk_files manifest.secrets_root manifest.entries prepared).1).0
    ≡ []
unfolding running
rolled_back = refl

pub not_file : ◌≢◌ {A = String} "dir" "file"
not_file h = ground (arith, eq_iff "dir" "file")

recorded : All (IsRecorded disk_files disk_laws journal prepared) manifest.entries
recorded = (
  record { inside = λ h. absurd (not_file h); kept = λ h. absurd (not_file h) },
  (record { inside = λ _ _. backup_inside; kept = λ _. refl }, tt),
)
