-- ===== src/Registry/Lock/Images.antt =====
-- internal/registry/lock.go: the resolver that answers with the digests of a lock, and the choice of
-- the manifest for a platform. The fallback is the resolver that asks a registry.
use sdbx.Base.{
  plain, String, Bool, true, false, ◌==◌, ◌!=◌, not, ◌&&◌, ◌||◌, [], ◌∷◌, ◌++◌, Option, none, some,
  Message, Result, ok, err, ◌>>◌, nat_eq, length, all, codes, has_prefix, if◌then◌else◌,
}
use sdbx.Base.Maps.{Map, lookup, insert}
use sdbx.Registry.Validator.Report.{say_of}
use sdbx.Registry.Validator.Security.{image_reference}
use sdbx.Registry.Sources.Configuration.{within}
use sdbx.Registry.Lock.{LockFile, LockedService, is_sha256_digest}
use sdbx.Registry.Lock.Validate.{validate_lock_file}

pub record ResolvedImage : Type 0 where
  pub digest : String
  pub platform_digests : Map String

-- An `ImageDigestResolver` other than that of a lock, at one moment.
abbrev pub Fallback : Type 0
Fallback = String → String → Result Message ResolvedImage

pub record LockedImageResolver : Type 0 where
  pub images : Map ResolvedImage
  pub fallback : Option Fallback

-- reflect.DeepEqual on the copies that cloneSortedMap makes: a map without an entry is nil.
unfoldable pub same_digests : Map String → Map String → Bool
same_digests old new =
    nat_eq (length old) (length new)
    && all (λ e. elim (lookup e.0 new) [ none ↦ false | some digest ↦ digest == e.1 ]) old

unfoldable pub same_image : ResolvedImage → ResolvedImage → Bool
same_image old new =
    old.digest == new.digest && same_digests old.platform_digests new.platform_digests

unfoldable pub conflicts : Option ResolvedImage → ResolvedImage → Bool
conflicts none resolved = false
conflicts (some existing) resolved = not (same_image existing resolved)

abbrev pub pinned : LockedService → ResolvedImage
pinned service = record {
  digest = service.image.digest;
  platform_digests = service.image.platform_digests;
}

-- What an iteration does with the reference of the service's image.
unfoldable pub pin :
    String
    → LockedService
    → Map ResolvedImage
    → Result Message String
    → Result Message (Map ResolvedImage)
pin name service images (err reason) =
    err (within "locked service %s has invalid image reference: " name reason)
pin name service images (ok reference) =
    if conflicts (lookup reference images) (pinned service)
    then err (say_of "lock contains conflicting digests for image %s" reference)
    else ok (insert reference (pinned service) images)

unfoldable pub pin_services :
    Map LockedService → Map ResolvedImage → Result Message (Map ResolvedImage)
pin_services [] images = ok images
pin_services ((name, service) ∷ services) images =
    elim (pin name service images (image_reference service.image.repository service.image.tag)) [
      | err reason ↦ err reason
      | ok more ↦ pin_services services more
    ]

abbrev resolver_of :
    Option Fallback → Result Message (Map ResolvedImage) → Result Message LockedImageResolver
resolver_of fallback (err reason) = err reason
resolver_of fallback (ok images) = ok (record { images = images; fallback = fallback })

abbrev pub services_of : Option LockFile → Map LockedService
services_of none = []
services_of (some lock) = lock.services

unfoldable pub new_locked_image_resolver : Option LockFile → Result Message LockedImageResolver
new_locked_image_resolver lock =
    validate_lock_file lock true >> resolver_of none (pin_services (services_of lock) [])

abbrev with_fallback :
    Fallback → Result Message LockedImageResolver → Result Message LockedImageResolver
with_fallback ask (err reason) = err reason
with_fallback ask (ok r) = ok (record r { fallback = some ask })

unfoldable pub new_updating_image_resolver :
    Option LockFile → Option Fallback → Result Message LockedImageResolver
new_updating_image_resolver lock none = err (plain "fallback image resolver is required")
new_updating_image_resolver lock (some ask) = with_fallback ask (new_locked_image_resolver lock)

-- Asking the fallback, and what it answers is kept.
unfoldable pub resolve_missing :
    Option Fallback
    → String
    → String
    → String
    → LockedImageResolver
    → Result Message ResolvedImage × LockedImageResolver
resolve_missing none reference repository tag r =
    (err (say_of "image %s is not present in the existing lock" reference), r)
resolve_missing (some ask) reference repository tag r = elim (ask repository tag) [
  | err reason ↦ (err reason, r)
  | ok resolved ↦ (ok resolved, record r { images = insert reference resolved r.images })
]

unfoldable pub resolve_reference :
    Result Message String
    → String
    → String
    → LockedImageResolver
    → Result Message ResolvedImage × LockedImageResolver
resolve_reference (err reason) repository tag r = (err reason, r)
resolve_reference (ok reference) repository tag r = elim (lookup reference r.images) [
  | some resolved ↦ (ok resolved, r)
  | none ↦ resolve_missing r.fallback reference repository tag r
]

-- `Resolve` of lockedImageResolver.
unfoldable pub resolve_image :
    String → String → LockedImageResolver → Result Message ResolvedImage × LockedImageResolver
resolve_image repository tag r = resolve_reference (image_reference repository tag) repository tag r

-- The loop of `selectPlatformDigest`, behind the platform and the digest that matched.
unfoldable pub select_variant :
    String → Map String → String → String → Result Message (String × String)
select_variant target [] matched_platform matched_digest =
    if matched_platform == ""
    then err (say_of "platform %s is not present in the image index" target)
    else ok (matched_platform, matched_digest)
select_variant target ((platform, digest) ∷ rest) matched_platform matched_digest =
    let skipped = select_variant target rest matched_platform matched_digest in
    let taken = select_variant target rest platform digest in
    if not (has_prefix (codes platform) (codes target ++ codes "/"))
      || not (is_sha256_digest digest)
    then skipped
    else if matched_platform != ""
    then err (record {
      format = "platform %s has multiple variant manifests (%s and %s)";
      args = target ∷ matched_platform ∷ platform ∷ [];
    })
    else taken

-- m[k], where a missing key reads as the empty text
abbrev pub digest_at : Option String → String
digest_at none = ""
digest_at (some digest) = digest

unfoldable pub select_platform_digest : String → Map String → Result Message (String × String)
select_platform_digest target platform_digests =
    let digest = digest_at (lookup target platform_digests) in
    if is_sha256_digest digest
    then ok (target, digest)
    else select_variant target platform_digests "" ""
