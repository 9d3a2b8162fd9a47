-- ===== src/Transaction/Tests.antt =====
-- A journal with a directory and a file that replaces another one.
use sdbx.Base.{String, true, false, ◌≡◌, ◌↔◌, refl, [], ◌∷◌, none, some, ok, has_prefix}
use sdbx.Base.Int.{pos}
use sdbx.Base.Paths.{
  clean, rel, strip, relative, up_for_each, path_eq, is_abs, is_own_dir, render, slashes,
}
use sdbx.Transaction.{
  TransactionEntry, TransactionManifest, path_within, paths_overlap, unique_clean_paths,
  unique_from, path_depth, valid_transaction_digest, validate_header, validate_digests,
  validate_entry, validate_entries, validate_transaction_manifest,
}
use sdbx.Transaction.PathWithin.{IsBelow, path_within_iff}
use sdbx.Transaction.Journal.{IsTrusted, validate_transaction_manifest-IsTrusted}

abbrev pub journal : String
journal = "/srv/sdbx/.sdbx-init-transaction"

abbrev pub digest : String
digest = "sha256:0123456789abcdef0123456789abcdef0123456789abcdef0123456789abcdef"

abbrev pub config_dir : TransactionEntry
config_dir = record {
  kind = "dir";
  source = "/srv/sdbx/.sdbx-init-transaction/stage/project/configs";
  target = "/srv/sdbx/configs";
  backup = "";
  existed = true;
  original_mode = 0o755;
  original_uid = none;
  original_gid = none;
  desired_mode = 0o755;
  staged_digest = "";
  backup_digest = "";
}

abbrev pub compose_file : TransactionEntry
compose_file = record {
  kind = "file";
  source = "/srv/sdbx/.sdbx-init-transaction/stage/project/compose.yaml";
  target = "/srv/sdbx/compose.yaml";
  backup = "/srv/sdbx/.sdbx-init-transaction/rollback/000001";
  existed = true;
  original_mode = 0o644;
  original_uid = some (pos 1000);
  original_gid = some (pos 1000);
  desired_mode = 0o644;
  staged_digest = digest;
  backup_digest = digest;
}

abbrev pub manifest : TransactionManifest
manifest = record {
  version = pos 3;
  state = "promoting";
  project_root = "/srv/sdbx";
  secrets_root = "/srv/sdbx/secrets";
  allowed_roots = "/srv/sdbx" ∷ "/srv/sdbx/configs" ∷ [];
  entries = config_dir ∷ compose_file ∷ [];
}

unfoldable pub paths : Unit {0}
unfolding path_within rel strip relative up_for_each clean path_eq is_abs is_own_dir
paths = tt

pub accepted : validate_transaction_manifest manifest "/srv/sdbx/" journal ≡ ok tt
unfolding validate_transaction_manifest validate_header validate_entries validate_entry
    validate_digests valid_transaction_digest has_prefix paths
accepted = refl

validate_transaction_manifest-IsTrusted_example : IsTrusted manifest "/srv/sdbx/" journal
validate_transaction_manifest-IsTrusted_example =
    validate_transaction_manifest-IsTrusted manifest "/srv/sdbx/" journal accepted

pub backup_inside : path_within journal compose_file.backup ≡ true
unfolding paths
backup_inside = refl

abs_root : is_abs "/srv/sdbx/" ≡ true
unfolding is_abs
abs_root = refl

abs_target : is_abs "/srv/./sdbx/configs" ≡ true
unfolding is_abs
abs_target = refl

path_within_iff_example :
    (path_within "/srv/sdbx/" "/srv/./sdbx/configs" ≡ true)
    ↔ IsBelow (clean "/srv/sdbx/").parts (clean "/srv/./sdbx/configs").parts
path_within_iff_example = path_within_iff "/srv/sdbx/" "/srv/./sdbx/configs" abs_root abs_target

outside : path_within "/srv/sdbx" "/srv/sdbx/../other" ≡ false
unfolding paths
outside = refl

overlap : paths_overlap "/srv/sdbx/secrets" "/srv/sdbx" ≡ true
unfolding paths_overlap paths
overlap = refl

depth : path_depth "/srv//sdbx/configs/" ≡ 3
unfolding path_depth slashes render clean
depth = refl

unique : unique_clean_paths ("/a" ∷ "/a/b/.." ∷ "/b" ∷ []) ≡ clean "/a" ∷ clean "/b" ∷ []
unfolding unique_clean_paths unique_from paths
unique = refl
