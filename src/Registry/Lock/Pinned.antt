-- ===== src/Registry/Lock/Pinned.antt =====
-- What a lock file that passes its validation records.
use sdbx.Base.{
  String, true, false, ◌==◌, ◌!=◌, not, ◌||◌, ◌≡◌, refl, [], Option, none, some, ok, inl, inr,
  arith, eq_iff, All, All-map, length, fail_if, fail_if-eq-ok, >>-eq-ok, for_each, for_each-eq-ok,
  err-ne-ok, nat_eq, Result-cases,
}
use sdbx.Base.Maps.{Map, lookup, keys, has}
use sdbx.Base.Order.{count}
use sdbx.Registry.Validator.Security.{image_reference, repository_registry}
use sdbx.Registry.Lock.{
  LockFile, LockedSource, LockedService, LockedImage, is_sha256_digest, is_valid_platform,
  split_generated_file_key,
}
use sdbx.Registry.Lock.Validate.{
  validate_lock_file, validate_lock, validate_locked_source, validate_install_order,
  validate_locked_service, validate_image_identity, validate_image_digests,
  validate_platform_digest, holds_digest, validate_generated_file, validate_metadata,
}
use sdbx.Registry.Lock.Immutable.{IsImmutable, order_from, validate_locked_source-IsImmutable}

-- An image that names one content for one platform.
pub record IsPinned (image : LockedImage) : Type 0 where
  reference : String
  pub is_reference : image_reference image.repository image.tag ≡ ok reference
  pub same_registry : repository_registry image.repository ≡ image.registry
  pub content : is_sha256_digest image.digest ≡ true
  pub platform : is_valid_platform image.platform ≡ true
  pub in_index : lookup image.platform image.platform_digests ≡ some image.platform_digest
  pub digests : All (λ e. is_sha256_digest e.1 ≡ true) image.platform_digests

pub no_digest : is_sha256_digest "" ≡ false
unfolding is_sha256_digest
no_digest = refl

index_lem :
    (found : Option String) (digest : String)
    → holds_digest found digest ≡ true
    → is_sha256_digest digest ≡ true
    → found ≡ some digest
unfolding holds_digest
index_lem none digest h content = ground (arith, no_digest, eq_iff "" digest)
index_lem (some d) digest h content = ground (arith, eq_iff d digest)

digest_lem :
    (name : String) (e : String × String)
    → validate_platform_digest name e ≡ ok tt
    → is_sha256_digest e.1 ≡ true
unfolding validate_platform_digest
digest_lem name (platform, digest) h = ground arith

identity_lem :
    (name : String) (image : LockedImage)
    → validate_image_identity name image ≡ ok tt
    → (reference : String) × (image_reference image.repository image.tag ≡ ok reference)
      × (repository_registry image.repository ≡ image.registry)
unfolding validate_image_identity
identity_lem name image h =
    let (_, rest) =
      >>-eq-ok (fail_if (image.registry == "" || image.repository == "" || image.tag == "") _) _
        h in
    elim (Result-cases (image_reference image.repository image.tag)) [
      | inl (reference, is) ↦ (
        reference,
        is,
        (let same = rw is at rest in
            ground (arith, eq_iff (repository_registry image.repository) image.registry)),
      )
      | inr (reason, is) ↦ absurd (err-ne-ok (rw is at rest))
    ]

pinned_lem :
    (name : String) (image : LockedImage)
    → validate_image_identity name image ≡ ok tt
    → validate_image_digests name image ≡ ok tt
    → for_each (validate_platform_digest name) image.platform_digests ≡ ok tt
    → IsPinned image
unfolding validate_image_digests
pinned_lem name image identity digests h =
    let (reference, is, same) = identity_lem name image identity in
    let (content, d1) = >>-eq-ok (fail_if (not (is_sha256_digest image.digest)) _) _ digests in
    let (valid, d2) = >>-eq-ok (fail_if (not (is_valid_platform image.platform)) _) _ d1 in
    let (target, d3) = >>-eq-ok (fail_if (not (is_sha256_digest image.platform_digest)) _) _ d2 in
    let bad = fail_if-eq-ok (not (is_sha256_digest image.digest)) _ content in
    let unknown = fail_if-eq-ok (not (is_valid_platform image.platform)) _ valid in
    let wrong = fail_if-eq-ok (not (is_sha256_digest image.platform_digest)) _ target in
    let found = lookup image.platform image.platform_digests in
    let absent = fail_if-eq-ok (not (holds_digest found image.platform_digest)) _ d3 in
    record {
      reference = reference;
      is_reference = is;
      same_registry = same;
      content = ground arith;
      platform = ground arith;
      in_index = index_lem found image.platform_digest (ground arith) (ground arith);
      digests =
          All-map _ _ image.platform_digests (digest_lem name)
            (for_each-eq-ok _ image.platform_digests h);
    }

-- A service of a source of the lock, with a pinned image.
pub record IsLockedService (sources : Map LockedSource) (service : LockedService) : Type 0 where
  pub has_source : has service.source sources ≡ true
  pub definition : is_sha256_digest service.definition_digest ≡ true
  pub image : IsPinned service.image

validate_locked_service-IsLockedService :
    (sources : Map LockedSource) (e : String × LockedService)
    → validate_locked_service sources true e ≡ ok tt
    → IsLockedService sources e.1
unfolding validate_locked_service
validate_locked_service-IsLockedService sources (name, service) h =
    let (known, h1) = >>-eq-ok (fail_if (not (has service.source sources)) _) _ h in
    let (_, h2) =
      >>-eq-ok (fail_if (service.definition_version == "" || service.resolved_from == "") _) _ h1 in
    let (content, h3) =
      >>-eq-ok (fail_if (not (is_sha256_digest service.definition_digest)) _) _ h2 in
    let (identity, h4) = >>-eq-ok (validate_image_identity name service.image) _ h3 in
    let (digests, h5) = >>-eq-ok (validate_image_digests name service.image) _ h4 in
    let missing = fail_if-eq-ok (not (has service.source sources)) _ known in
    let wrong = fail_if-eq-ok (not (is_sha256_digest service.definition_digest)) _ content in
    record {
      has_source = ground arith;
      definition = ground arith;
      image = pinned_lem name service.image identity digests h5;
    }

-- A lock that determines the project: every source, definition and image names one content, and the
-- install order holds every service once.
pub record IsLock (lock : LockFile) : Type 0 where
  pub sources : All (λ e. IsImmutable e.1) lock.sources
  pub order : (name : String) → count name lock.install_order ≡ count name (keys lock.services)
  pub services : All (λ e. IsLockedService lock.sources e.1) lock.services
  pub generated : All (λ e. is_sha256_digest e.1 ≡ true) lock.generated_files

generated_lem :
    (e : String × String) → validate_generated_file e ≡ ok tt → is_sha256_digest e.1 ≡ true
unfolding validate_generated_file
generated_lem (path, digest) h = elim (Result-cases (split_generated_file_key path)) [
  | inl (found, is) ↦ (let same = rw (is, validate_generated_file) at h in ground arith)
  | inr (reason, is) ↦ absurd (err-ne-ok (rw (is, validate_generated_file) at h))
]

-- A lock file that is accepted with the digests of its images required determines the project. Each
-- source has a digest, and is its own content if it is embedded or local; a Git source is a verified
-- full commit with the fingerprint of its signing key. The install order holds every locked service
-- as often as the map of services does, and nothing else. Each service belongs to a locked source;
-- its definition and its image have digests, the image comes from the registry that the lock names,
-- and the digest for its platform is the one of the index. Generated files have digests.
pub validate_lock_file-IsLock :
    (lock : LockFile) → validate_lock_file (some lock) true ≡ ok tt → IsLock lock
unfolding validate_lock_file validate_lock
validate_lock_file-IsLock lock h =
    let (_, h1) =
      >>-eq-ok (fail_if (lock.api_version != "sdbx.one/v1" || lock.kind != "LockFile") _) _ h in
    let (_, h2) = >>-eq-ok (validate_metadata lock.metadata) _ h1 in
    let (_, h3) =
      >>-eq-ok (fail_if (nat_eq (length lock.sources) 0 || nat_eq (length lock.services) 0) _) _
        h2 in
    let (sources, h4) = >>-eq-ok (for_each validate_locked_source lock.sources) _ h3 in
    let (order, h5) = >>-eq-ok (validate_install_order lock.services [] lock.install_order) _ h4 in
    let (services, files) =
      >>-eq-ok (for_each (validate_locked_service lock.sources true) lock.services) _ h5 in
    record {
      sources =
          All-map _ _ lock.sources validate_locked_source-IsImmutable
            (for_each-eq-ok _ lock.sources sources);
      order = λ name.
          let whole =
            order_from lock.services [] lock.install_order name (λ y. omega arith) order in
          omega (arith, whole);
      services =
          All-map _ _ lock.services (validate_locked_service-IsLockedService lock.sources)
            (for_each-eq-ok _ lock.services services);
      generated =
          All-map _ _ lock.generated_files generated_lem
            (for_each-eq-ok _ lock.generated_files files);
    }
