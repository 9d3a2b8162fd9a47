-- ===== src/Transaction/Recovery/Tests.antt =====
-- The recovery and the promotion of the sample.
use sdbx.Base.{true, Option, none, some, ok, err, Check, ◌≡◌, ◌⊎◌, refl, inl}
use sdbx.Transaction.Recovery.{
  transaction_root, recover_project_transaction, project_transaction_pending, promote,
}
use sdbx.Transaction.Recovery.Steps.{manifest_path, IsRestored, IsPromoted}
use sdbx.Transaction.Recovery.Quiet.{IsUnobstructed}
use sdbx.Transaction.Recovery.Returns.{
  IsRemovable, Answers, IsAccepted, recover_project_transaction_returns,
}
use sdbx.Transaction.Recovery.Runs.{IsSettled}
use sdbx.Transaction.Recovery.Settled.{promote-IsSettled}
use sdbx.Transaction.Recovery.AllOrNothing.{recover_project_transaction-AllOrNothing}
use sdbx.Transaction.Disk.{Disk, found, disk_files, disk_laws, not_file}
use sdbx.Transaction.Tests.{manifest}
use sdbx.Transaction.Recovery.Sample.{
  Content, private_dir, system, system_laws, ready_disk, evaluation, ready_disk-IsPrepared, trusted,
  interrupted, moment, recovered, text,
}

recovered_content : recovered "/srv/sdbx/compose.yaml" ≡ some (text "old")
unfolding evaluation
recovered_content = refl

recovers : recover_project_transaction disk_files system "." interrupted ≡ (ok tt, recovered)
unfolding evaluation
recovers = refl

pending_test : project_transaction_pending disk_files system "." ready_disk ≡ ok true
unfolding project_transaction_pending
pending_test = refl

recover_project_transaction-AllOrNothing_example :
    IsRestored disk_files disk_laws system
      (transaction_root "/srv/sdbx")
      manifest
      ready_disk
      recovered
    ⊎ IsPromoted disk_files disk_laws system
        (transaction_root "/srv/sdbx")
        manifest
        ready_disk
        recovered
recover_project_transaction-AllOrNothing_example =
    recover_project_transaction-AllOrNothing disk_files disk_laws system system_laws manifest "."
      "/srv/sdbx" ready_disk interrupted recovered refl trusted ready_disk-IsPrepared moment
      recovers

-- Two calls that change owners only.
abbrev chown_nothing : Disk Content → Check (Unit {0}) × Disk Content
chown_nothing s = (ok tt, s)

promote_test :
    (promote disk_files system chown_nothing chown_nothing
      (transaction_root "/srv/sdbx")
      manifest
      ready_disk).result
    ≡ ok tt
unfolding evaluation
promote_test = refl

promote-IsSettled_example :
    IsSettled disk_files disk_laws system system_laws
      (transaction_root "/srv/sdbx")
      manifest
      ready_disk-IsPrepared
      "/srv/sdbx"
      trusted
      (promote disk_files system chown_nothing chown_nothing
        (transaction_root "/srv/sdbx")
        manifest
        ready_disk)
promote-IsSettled_example =
    promote-IsSettled disk_files disk_laws system system_laws (transaction_root "/srv/sdbx")
      manifest ready_disk-IsPrepared "/srv/sdbx" trusted chown_nothing chown_nothing (λ s q. refl)
      (λ s q. refl)

read_back : {A : Type 0} (o : Option A) (d : A) → o ≡ some d → found o ≡ ok d
read_back o d h = rw h refl

missed : {A : Type 0} (o : Option A) → o ≡ none → found o ≡ err tt
missed o h = rw h refl

removable : (t : Disk Content) → IsRemovable system (transaction_root "/srv/sdbx") t
unfolding evaluation
removable t = record { info = private_dir; found = refl; private = refl; removed = refl }

answers :
    Answers disk_files disk_laws system
      (transaction_root "/srv/sdbx")
      (manifest_path disk_files disk_laws system (transaction_root "/srv/sdbx") manifest)
      manifest.entries
      interrupted
unfolding evaluation
answers = record {
  now = removable interrupted;
  after = removable _;
  reads = λ d h. read_back _ d h;
  misses = λ h. (tt, missed _ h, refl);
}

clear : IsUnobstructed disk_files disk_laws manifest.entries interrupted
unfolding evaluation
clear = (
  record {
    writes = λ h. absurd (not_file h);
    removes = λ h. absurd (not_file h);
    modes = λ h existed. refl;
    removes_dir = λ h gone. inl refl;
  },
  (
    record {
      writes = λ h existed d found. (read_back _ d found, refl, refl);
      removes = λ h gone. cc gone;
      modes = λ h existed. refl;
      removes_dir = λ h gone. inl refl;
    },
    tt,
  ),
)

in_each_state : IsAccepted manifest "/srv/sdbx" (transaction_root "/srv/sdbx")
unfolding evaluation
in_each_state = record { when_prepared = refl; when_promoting = refl; when_committed = refl }

recover_project_transaction_returns_example :
    (recover_project_transaction disk_files system "." interrupted).0 ≡ ok tt
recover_project_transaction_returns_example =
    recover_project_transaction_returns disk_files disk_laws system system_laws manifest "."
      "/srv/sdbx" ready_disk interrupted refl ready_disk-IsPrepared
      ((λ h. absurd (not_file h)), ((λ _ _. (text "old", refl, refl)), tt)) in_each_state moment
      answers clear
