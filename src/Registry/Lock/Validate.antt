-- ===== src/Registry/Lock/Validate.antt =====
-- internal/registry/lock.go: ValidateLockFile, one definition for each of its loops.
use sdbx.Base.{
  String, Bool, false, ◌==◌, ◌!=◌, not, ◌||◌, List, [], ◌∷◌, Option, none, some, ℕ, Message, plain,
  ok, err, Check, fine, fail_if, for_each, ◌>>◌, nat_eq, length, if◌then◌else◌, ◌<>◌, suc,
}
use sdbx.Base.Int.{ℤ, pos, negsuc}
use sdbx.Base.Maps.{Map, lookup, has}
use sdbx.Config.{contains}
use sdbx.Registry.Validator.Report.{decimal, say_of, say_both}
use sdbx.Registry.Validator.Security.{image_reference, repository_registry}
use sdbx.Registry.Sources.Configuration.{
  immutable_git_ref_pattern, is_valid_signing_fingerprint, within,
}
use sdbx.Registry.Lock.{
  LockFile, LockFileMetadata, LockedSource, LockedService, LockedImage, lock_schema_version,
  is_sha256_digest, is_valid_platform, split_generated_file_key,
}

abbrev is_number : ℤ → ℕ → Bool
is_number (pos v) n = nat_eq v n
is_number (negsuc v) n = false

-- %d
abbrev integer : ℤ → String
integer (pos n) = decimal n
integer (negsuc n) = "-" <> decimal (suc n)

unfoldable pub validate_metadata : LockFileMetadata → Check Message
validate_metadata metadata =
    fail_if (not (is_number metadata.version lock_schema_version)) (
      say_of "unsupported lock schema version %d; regenerate with sdbx lock"
        (integer metadata.version))
    >> (fail_if (metadata.cli_version == "") (plain "lock metadata cliVersion is required")
        >> (fail_if (is_number metadata.generated_at 0)
              (plain "lock metadata generatedAt is required")
            >> (fail_if (not (is_sha256_digest metadata.catalog_version))
                  (plain "lock metadata catalogVersion must be a content-addressed sha256 version")
                >> (fail_if (not (is_sha256_digest metadata.config_digest))
                      (plain "lock metadata configDigest must be a full sha256 digest")
                    >> (fail_if (not (is_sha256_digest metadata.catalog_digest))
                          (plain "lock metadata catalogDigest must be a full sha256 digest")
                        >> fail_if (metadata.catalog_version != metadata.catalog_digest) (
                            plain
                              "lock metadata catalogVersion must match catalogDigest in schema v2"))))))

-- The switch on the type of a source.
unfoldable pub validate_identity : String → LockedSource → Check Message
validate_identity name source =
    if source.source_type == "embedded"
    then fail_if
        (not source.verified || source.ref != source.digest || source.commit != source.digest)
        (say_of "locked embedded source %s is not content-addressed" name)
    else if source.source_type == "git"
    then fail_if (source.ref != source.commit)
        (say_of "locked Git source %s ref and commit differ" name)
      >> fail_if
          (not source.verified
            || not (immutable_git_ref_pattern source.ref)
            || not (is_valid_signing_fingerprint source.signing_key))
          (say_of "locked Git source %s is not verifiably immutable" name)
    else if source.source_type == "local"
    then fail_if (source.ref != source.digest || source.commit != source.digest)
        (say_of "locked local source %s identity does not match its digest" name)
    else err (say_both "locked source %s has unsupported type %q" name source.source_type)

unfoldable pub validate_locked_source : String × LockedSource → Check Message
validate_locked_source (name, source) =
    fail_if (source.source_type == "" || source.ref == "" || source.commit == "")
      (say_of "locked source %s has incomplete identity" name)
    >> (fail_if (not (is_sha256_digest source.digest))
          (say_of "locked source %s has invalid digest" name)
        >> validate_identity name source)

-- The loop over the install order, behind the names seen so far, and the test on their number.
unfoldable pub validate_install_order :
    Map LockedService → List String → List String → Check Message
validate_install_order services seen [] =
    fail_if (not (nat_eq (length seen) (length services)))
      (plain "install order does not contain every locked service")
validate_install_order services seen (name ∷ names) =
    fail_if (contains seen name) (say_of "duplicate service %s in install order" name)
    >> (fail_if (not (has name services))
          (say_of "install order references unlocked service %s" name)
        >> validate_install_order services (name ∷ seen) names)

unfoldable pub validate_image_identity : String → LockedImage → Check Message
validate_image_identity name image =
    fail_if (image.registry == "" || image.repository == "" || image.tag == "")
      (say_of "locked service %s has incomplete image identity" name)
    >> elim (image_reference image.repository image.tag) [
      | err reason ↦ err (within "locked service %s has invalid image identity: " name reason)
      | ok _ ↦ fail_if (repository_registry image.repository != image.registry) (record {
        format = "locked service %s registry %s does not match repository registry %s";
        args = name ∷ image.registry ∷ repository_registry image.repository ∷ [];
      })
    ]

-- m[k] == v, where a missing key reads as the empty text
unfoldable pub holds_digest : Option String → String → Bool
holds_digest none digest = "" == digest
holds_digest (some found) digest = found == digest

-- The two tests under `requireImageDigests`.
unfoldable pub validate_image_digests : String → LockedImage → Check Message
validate_image_digests name image =
    fail_if (not (is_sha256_digest image.digest))
      (say_of "locked service %s is missing an immutable image digest" name)
    >> (fail_if (not (is_valid_platform image.platform))
          (say_of "locked service %s has invalid target platform" name)
        >> (fail_if (not (is_sha256_digest image.platform_digest))
              (say_of "locked service %s is missing a platform digest" name)
            >> fail_if
                (not (
                  holds_digest (lookup image.platform image.platform_digests)
                    image.platform_digest))
                (say_of "locked service %s platform digest is not present in the manifest index"
                  name)))

unfoldable pub validate_platform_digest : String → String × String → Check Message
validate_platform_digest name (platform, digest) =
    fail_if (not (is_valid_platform platform) || not (is_sha256_digest digest))
      (say_of "locked service %s has invalid platform digest" name)

unfoldable pub validate_locked_service :
    Map LockedSource → Bool → String × LockedService → Check Message
validate_locked_service sources require_image_digests (name, service) =
    fail_if (not (has service.source sources))
      (say_both "locked service %s references missing source %s" name service.source)
    >> (fail_if (service.definition_version == "" || service.resolved_from == "")
          (say_of "locked service %s has incomplete definition provenance" name)
        >> (fail_if (not (is_sha256_digest service.definition_digest))
              (say_of "locked service %s has invalid definition digest" name)
            >> (validate_image_identity name service.image
                >> ((if require_image_digests
                      then validate_image_digests name service.image
                      else fine)
                    >> for_each (validate_platform_digest name) service.image.platform_digests))))

unfoldable pub validate_generated_file : String × String → Check Message
validate_generated_file (path, digest) = elim (split_generated_file_key path) [
  | err reason ↦ err reason
  | ok _ ↦
      fail_if (not (is_sha256_digest digest))
        (say_of "locked generated file %s has invalid digest" path)
]

unfoldable pub validate_lock : LockFile → Bool → Check Message
validate_lock lock require_image_digests =
    fail_if (lock.api_version != "sdbx.one/v1" || lock.kind != "LockFile")
      (plain "invalid lock identity")
    >> (validate_metadata lock.metadata
        >> (fail_if (nat_eq (length lock.sources) 0 || nat_eq (length lock.services) 0)
              (plain "lock must contain at least one source and service")
            >> (for_each validate_locked_source lock.sources
                >> (validate_install_order lock.services [] lock.install_order
                    >> (for_each (validate_locked_service lock.sources require_image_digests)
                          lock.services
                        >> for_each validate_generated_file lock.generated_files)))))

unfoldable pub validate_lock_file : Option LockFile → Bool → Check Message
validate_lock_file none require_image_digests = err (plain "lock file is nil")
validate_lock_file (some lock) require_image_digests = validate_lock lock require_image_digests
