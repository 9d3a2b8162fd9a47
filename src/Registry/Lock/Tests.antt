-- ===== src/Registry/Lock/Tests.antt =====
-- A lock file at which the theorems on it are applied.
use sdbx.Base.{
  String, true, false, [], ◌∷◌, none, some, plain, ok, err, ◌≡◌, refl, ◌⊎◌, All, split, has_prefix,
  keep,
}
use sdbx.Base.Int.{pos}
use sdbx.Base.Maps.{lookup, insert}
use sdbx.Base.Paths.{clean, render, is_abs}
use sdbx.Config.{contains}
use sdbx.Registry.Validator.Report.{before, has_infix, holds_text, say_of}
use sdbx.Registry.Validator.Patterns.{image_repository_pattern, image_tag_pattern}
use sdbx.Registry.Validator.Security.{image_reference, repository_registry}
use sdbx.Registry.Sources.Configuration.{
  immutable_git_ref_pattern, ssh_fingerprint, is_valid_signing_fingerprint,
}
use sdbx.Registry.Lock.{
  LockFile, LockedSource, LockedService, is_sha256_digest, is_valid_platform,
  clean_generated_file_path, split_generated_file_key,
}
use sdbx.Registry.Lock.Validate.{
  validate_metadata, validate_identity, validate_locked_source, validate_install_order,
  validate_image_identity, holds_digest, validate_image_digests, validate_platform_digest,
  validate_locked_service, validate_generated_file, validate_lock, validate_lock_file,
}
use sdbx.Registry.Lock.Images.{
  ResolvedImage, LockedImageResolver, Fallback, same_digests, same_image, conflicts, pin,
  pin_services, new_locked_image_resolver, new_updating_image_resolver, resolve_missing,
  resolve_reference, resolve_image, select_variant, select_platform_digest, digest_at, pinned,
}
use sdbx.Registry.Lock.Pinned.{IsLock, validate_lock_file-IsLock}
use sdbx.Registry.Lock.Resolves.{new_updating_image_resolver-All}
use sdbx.Registry.Lock.Selected.{is_variant, select_platform_digest-is_variant}

abbrev catalog_digest : String
catalog_digest = "sha256:0123456789abcdef0123456789abcdef0123456789abcdef0123456789abcdef"

abbrev image_digest : String
image_digest = "sha256:00000000000000000000000000000000000000000000000000000000000000ff"

abbrev embedded : LockedSource
embedded = record {
  source_type = "embedded";
  url = "";
  path = "";
  ref = catalog_digest;
  commit = catalog_digest;
  signing_key = "";
  priority = pos 0;
  permissions = [];
  registries = [];
  digest = catalog_digest;
  verified = true;
}

abbrev sonarr : LockedService
sonarr = record {
  source = "embedded";
  definition_version = "1.0.0";
  definition_digest = catalog_digest;
  image = record {
    registry = "lscr.io";
    repository = "lscr.io/linuxserver/sonarr";
    tag = "4.0.0";
    digest = image_digest;
    platform = "linux/arm/v7";
    platform_digest = image_digest;
    platform_digests = ("linux/arm/v7", image_digest) ∷ [];
  };
  resolved_from = "embedded";
}

abbrev lock : LockFile
lock = record {
  api_version = "sdbx.one/v1";
  kind = "LockFile";
  metadata = record {
    version = pos 2;
    generated_at = pos 1;
    cli_version = "2.0.0";
    catalog_version = catalog_digest;
    config_digest = image_digest;
    catalog_digest = catalog_digest;
  };
  sources = ("embedded", embedded) ∷ [];
  services = ("sonarr", sonarr) ∷ [];
  install_order = "sonarr" ∷ [];
  generated_files = ("@config/traefik/traefik.yml", image_digest) ∷ [];
}

evaluation : Unit {0}
unfolding lookup insert contains split has_prefix clean render is_abs before has_infix holds_text
    image_repository_pattern image_tag_pattern image_reference repository_registry
    immutable_git_ref_pattern ssh_fingerprint is_valid_signing_fingerprint is_sha256_digest
    is_valid_platform clean_generated_file_path split_generated_file_key validate_metadata
    validate_identity validate_locked_source validate_install_order validate_image_identity
    holds_digest validate_image_digests validate_platform_digest validate_locked_service
    validate_generated_file validate_lock validate_lock_file same_digests same_image conflicts pin
    pin_services new_locked_image_resolver new_updating_image_resolver resolve_missing
    resolve_reference resolve_image select_variant select_platform_digest
evaluation = tt

abbrev asking : Fallback
asking repository tag = err (plain "no route to the registry")

abbrev resolver : LockedImageResolver
resolver = record {
  images = ("lscr.io/linuxserver/sonarr:4.0.0", pinned sonarr) ∷ [];
  fallback = some asking;
}

refusal_test :
    (validate_lock_file none true ≡ err (plain "lock file is nil"))
    × (validate_lock_file (some (record lock { install_order = [] })) true
        ≡ err (plain "install order does not contain every locked service"))
    × (validate_lock_file
          (some (record lock { generated_files = ("/etc/passwd", image_digest) ∷ [] }))
          true
        ≡ err (record {
          format = "invalid generated file key %q: path must be relative";
          args = "/etc/passwd" ∷ [];
        }))
unfolding evaluation
refusal_test = (refl, refl, refl)

select_test :
    (select_platform_digest "linux/arm64"
        (("linux/arm64/v8", image_digest) ∷ ("linux/arm64/v9", catalog_digest) ∷ [])
      ≡ err (record {
        format = "platform %s has multiple variant manifests (%s and %s)";
        args = "linux/arm64" ∷ "linux/arm64/v8" ∷ "linux/arm64/v9" ∷ [];
      }))
    × (select_platform_digest "linux/amd64" []
        ≡ err (say_of "platform %s is not present in the image index" "linux/amd64"))
unfolding evaluation
select_test = (refl, refl)

validate_lock_file-IsLock_example : IsLock lock
unfolding evaluation
validate_lock_file-IsLock_example = validate_lock_file-IsLock lock refl

new_updating_image_resolver-All_example :
    All
      (λ e.
        (resolved : ResolvedImage) × (resolve_image e.1.image.repository e.1.image.tag resolver
          ≡ (ok resolved, resolver))
        × (resolved.digest ≡ e.1.image.digest))
      lock.services
unfolding evaluation
new_updating_image_resolver-All_example = new_updating_image_resolver-All lock asking resolver refl

abbrev target : String
target = "linux/arm64"

abbrev chosen : String × String
chosen = ("linux/arm64/v8", image_digest)

select_platform_digest-is_variant_example :
    (is_sha256_digest chosen.1 ≡ true)
    × (((chosen.0 ≡ target) × (lookup target (chosen ∷ []) ≡ some chosen.1))
        ⊎ ((is_sha256_digest (digest_at (lookup target (chosen ∷ []))) ≡ false)
            × (keep (is_variant target) (chosen ∷ []) ≡ chosen ∷ [])))
unfolding evaluation
select_platform_digest-is_variant_example =
    select_platform_digest-is_variant target (chosen ∷ []) chosen refl
