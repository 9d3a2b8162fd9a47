-- ===== src/Registry/Lock/Immutable.antt =====
-- The sources and the install order of a lock file that passes its validation.
use sdbx.Base.{
  ◌+◌, ◌≤◌, String, true, false, ◌==◌, not, ◌||◌, ◌≡◌, refl, List, [], ◌∷◌, ok, ◌⊎◌, arith, eq_iff,
  length, fail_if, fail_if-eq-ok, >>-eq-ok, nat_eq,
}
use sdbx.Base.Maps.{Map, keys, has}
use sdbx.Base.Order.{count}
use sdbx.Config.{contains}
use sdbx.Registry.TopologicalSort.Counting.{contains-count, has-count, count-eq_of_length}
use sdbx.Registry.Sources.Configuration.{immutable_git_ref_pattern, is_valid_signing_fingerprint}
use sdbx.Registry.Lock.{LockedSource, LockedService, is_sha256_digest}
use sdbx.Registry.Lock.Validate.{validate_locked_source, validate_identity, validate_install_order}

length-keys {ℓ} : {V : Type ℓ} (m : Map V) → length (keys m) ≡ length m
length-keys [] = refl
length-keys (e ∷ m) = omega (arith, length-keys m)

few_more :
    (services : Map LockedService) (seen : List String) (name y : String)
    → contains seen name ≡ false
    → has name services ≡ true
    → count y seen ≤ count y (keys services)
    → count y (name ∷ seen) ≤ count y (keys services)
few_more services seen name y new listed few =
    ground (arith, contains-count seen name, has-count name services, eq_iff name y)

-- What the loop has seen so far are services, each once.
pub order_from :
    (services : Map LockedService) (seen names : List String) (x : String)
    → ((y : String) → count y seen ≤ count y (keys services))
    → validate_install_order services seen names ≡ ok tt
    → count x seen + count x names ≡ count x (keys services)
unfolding validate_install_order
order_from services seen [] x few h =
    let same = fail_if-eq-ok (not (nat_eq (length seen) (length services))) _ h in
    let as_long : length seen ≡ length (keys services) = ground (arith, length-keys services) in
    let counts = count-eq_of_length seen (keys services) few as_long x in omega (arith, counts)
order_from services seen (name ∷ names) x few h =
    let (fresh, rest) = >>-eq-ok (fail_if (contains seen name) _) _ h in
    let (known, more) = >>-eq-ok (fail_if (not (has name services)) _) _ rest in
    let new = fail_if-eq-ok (contains seen name) _ fresh in
    let missing = fail_if-eq-ok (not (has name services)) _ known in
    let listed : has name services ≡ true = ground arith in
    let tail =
      order_from services (name ∷ seen) names x
        (λ y. few_more services seen name y new listed (few y)) more in
    omega (arith, tail)

-- A source that names one content.
pub record IsImmutable (source : LockedSource) : Type 0 where
  pub digest : is_sha256_digest source.digest ≡ true
  pub identity :
      ((source.source_type ≡ "git")
        × (source.ref ≡ source.commit)
        × (source.verified ≡ true)
        × (immutable_git_ref_pattern source.ref ≡ true)
        × (is_valid_signing_fingerprint source.signing_key ≡ true))
      ⊎ ((source.ref ≡ source.digest)
          × (source.commit ≡ source.digest)
          × ((source.source_type ≡ "local")
              ⊎ ((source.source_type ≡ "embedded") × (source.verified ≡ true))))

validate_identity_lem :
    (name : String) (source : LockedSource)
    → validate_identity name source ≡ ok tt
    → is_sha256_digest source.digest ≡ true
    → IsImmutable source
unfolding validate_identity
validate_identity_lem name source h content = record {
  digest = content;
  identity = ground (
    arith,
    eq_iff source.source_type "embedded",
    eq_iff source.source_type "git",
    eq_iff source.source_type "local",
    eq_iff source.ref source.digest,
    eq_iff source.commit source.digest,
    eq_iff source.ref source.commit,
  );
}

pub validate_locked_source-IsImmutable :
    (e : String × LockedSource) → validate_locked_source e ≡ ok tt → IsImmutable e.1
unfolding validate_locked_source
validate_locked_source-IsImmutable (name, source) h =
    let (_, rest) =
      >>-eq-ok (fail_if (source.source_type == "" || source.ref == "" || source.commit == "") _) _
        h in
    let (content, same) = >>-eq-ok (fail_if (not (is_sha256_digest source.digest)) _) _ rest in
    let wrong = fail_if-eq-ok (not (is_sha256_digest source.digest)) _ content in
    validate_identity_lem name source same (ground arith)
