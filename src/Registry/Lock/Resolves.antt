-- ===== src/Registry/Lock/Resolves.antt =====
-- A resolver that is built from a lock answers with the digests of the lock.
use sdbx.Base.{
  String, true, false, ◌≡◌, refl, sym, ap, [], ◌∷◌, some, Result, ok, err, Message, inl, inr, arith,
  eq_iff, eq_refl, All, All-map, ok-injective, err-ne-ok, Result-cases, Bool-cases, eq-cases,
}
use sdbx.Base.Maps.{Map, lookup, insert, lookup-insert}
use sdbx.Registry.Validator.Security.{image_reference}
use sdbx.Registry.Lock.{LockFile, LockedService}
use sdbx.Registry.Lock.Validate.{validate_lock_file}
use sdbx.Registry.Lock.Images.{
  ResolvedImage, Fallback, LockedImageResolver, conflicts, same_image, pinned, pin, pin_services,
  new_locked_image_resolver, new_updating_image_resolver, resolve_image, resolve_reference,
}

-- The images have the digest for the reference.
Holds : Map ResolvedImage → String → String → Type 0
Holds images reference digest =
    (resolved : ResolvedImage) × (lookup reference images ≡ some resolved)
    × (resolved.digest ≡ digest)

conflicts_lem :
    (old new : ResolvedImage) → conflicts (some old) new ≡ false → new.digest ≡ old.digest
unfolding conflicts same_image
conflicts_lem old new h = ground (arith, eq_iff old.digest new.digest)

newest :
    (reference : String) (new : ResolvedImage) (images : Map ResolvedImage)
    → lookup reference (insert reference new images) ≡ some new
newest reference new images =
    let read = lookup-insert reference reference new images in ground (arith, eq_refl reference)

insert-Holds :
    (images : Map ResolvedImage) (reference stored digest : String) (new : ResolvedImage)
    → conflicts (lookup stored images) new ≡ false
    → Holds images reference digest
    → Holds (insert stored new images) reference digest
unfolding Holds
insert-Holds images reference stored digest new calm (old, found, same) =
    elim (eq-cases stored reference) [
      | inl (equal, is) ↦ (
        new,
        (let read = lookup-insert stored reference new images in ground arith),
        (let agree = conflicts_lem old new (rw (equal, found) at calm) in cc),
      )
      | inr (_, is) ↦
          (old, (let read = lookup-insert stored reference new images in ground arith), same)
    ]

-- The image that an iteration pins.
pin_lem :
    (name : String) (service : LockedService) (images out : Map ResolvedImage)
    (answer : Result Message String)
    → pin name service images answer ≡ ok out
    → (reference : String) × (answer ≡ ok reference)
      × (conflicts (lookup reference images) (pinned service) ≡ false)
      × (out ≡ insert reference (pinned service) images)
unfolding pin
pin_lem name service images out (err reason) h = absurd (err-ne-ok h)
pin_lem name service images out (ok reference) h =
    elim (Bool-cases (conflicts (lookup reference images) (pinned service))) [
      | inl is ↦ absurd (err-ne-ok (rw is at h))
      | inr is ↦ (reference, refl, is, sym (ok-injective (rw is at h)))
    ]

-- The pin of a service: its image has a reference, and the images have its digest for it.
IsPin : Map ResolvedImage → LockedService → Type 0
IsPin images service =
    (reference : String) × (image_reference service.image.repository service.image.tag
      ≡ ok reference)
    × Holds images reference service.image.digest

-- What the images hold stays, and what the loop passes is held.
pin_services_lem :
    (services : Map LockedService) (images out : Map ResolvedImage)
    → pin_services services images ≡ ok out
    → ((reference digest : String) → Holds images reference digest → Holds out reference digest)
      × All (λ e. IsPin out e.1) services
unfolding pin_services IsPin Holds
pin_services_lem [] images out h = ((λ reference digest held. rw (ok-injective h) at held), tt)
pin_services_lem ((name, service) ∷ services) images out h =
    let answer = image_reference service.image.repository service.image.tag in
    elim (Result-cases (pin name service images answer)) [
      | inl (more, is) ↦
          (let (reference, named, calm, grown) = pin_lem name service images more answer is in
            let (stays, rest) = pin_services_lem services more out (rw (is, pin_services) at h) in
            let kept : (r d : String) → Holds images r d → Holds more r d =
              λ r d held. rw grown (insert-Holds images r reference d (pinned service) calm held) in
            let held : Holds more reference service.image.digest =
              (pinned service, rw grown (newest reference (pinned service) images), refl) in
            (
              (λ r d was. stays r d (kept r d was)),
              ((reference, named, stays reference service.image.digest held), rest),
            ))
      | inr (reason, is) ↦ absurd (err-ne-ok (rw (is, pin_services) at h))
    ]

-- What a resolver answers, where its images pin the service.
answers :
    (r : LockedImageResolver) (service : LockedService)
    → IsPin r.images service
    → (resolved : ResolvedImage) × (resolve_image service.image.repository service.image.tag r
        ≡ (ok resolved, r))
      × (resolved.digest ≡ service.image.digest)
unfolding IsPin Holds resolve_image resolve_reference
answers r service (reference, named, (resolved, found, same)) =
    (resolved, rw (named, resolve_reference, found) refl, same)

with_fallback_lem :
    (lock : LockFile) (ask : Fallback) (r : LockedImageResolver)
    → new_updating_image_resolver (some lock) (some ask) ≡ ok r
    → pin_services lock.services [] ≡ ok r.images
unfolding new_updating_image_resolver new_locked_image_resolver
with_fallback_lem lock ask r h = elim (Result-cases (validate_lock_file (some lock) true)) [
  | inl (_, fits) ↦ elim (Result-cases (pin_services lock.services [])) [
    | inl (images, is) ↦ rw is (ap (λ s. ok s.images) (ok-injective (rw (fits, is) at h)))
    | inr (_, is) ↦ absurd (err-ne-ok (rw (fits, is) at h))
  ]
  | inr (_, fits) ↦ absurd (err-ne-ok (rw fits at h))
]

-- The resolver that an update of a lock uses answers for the image of every locked service with the
-- digest of the lock, whatever the resolver behind it would say, and does not change by that.
pub new_updating_image_resolver-All :
    (lock : LockFile) (ask : Fallback) (r : LockedImageResolver)
    → new_updating_image_resolver (some lock) (some ask) ≡ ok r
    → All
        (λ e.
          (resolved : ResolvedImage) × (resolve_image e.1.image.repository e.1.image.tag r
            ≡ (ok resolved, r))
          × (resolved.digest ≡ e.1.image.digest))
        lock.services
new_updating_image_resolver-All lock ask r h =
    All-map _ _ lock.services (λ e. answers r e.1)
      (pin_services_lem lock.services [] r.images (with_fallback_lem lock ask r h)).1
