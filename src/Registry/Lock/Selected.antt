-- ===== src/Registry/Lock/Selected.antt =====
-- The manifest that is chosen for a platform.
use sdbx.Base.{
  String, Bool, true, false, ◌==◌, ◌&&◌, ◌≡◌, refl, sym, ap, List, [], ◌∷◌, ◌++◌, ℕ, Option, none,
  some, ok, ◌⊎◌, inl, inr, arith, All, keep, codes, has_prefix, ok-injective, err-ne-ok, Bool-cases,
  eq-cases,
}
use sdbx.Base.Maps.{Map, lookup}
use sdbx.Registry.Lock.{is_sha256_digest}
use sdbx.Registry.Lock.Pinned.{no_digest}
use sdbx.Registry.Lock.Images.{select_platform_digest, select_variant, digest_at}

-- A variant of the platform, such as linux/arm/v7 of linux/arm, with a digest.
unfoldable pub is_variant : String → String × String → Bool
is_variant target e = has_prefix (codes e.0) (codes target ++ codes "/") && is_sha256_digest e.1

no_empty : (front : List ℕ) → has_prefix [] (front ++ codes "/") ≡ false
unfolding has_prefix
no_empty [] = refl
no_empty (c ∷ front) = refl

variant_named : (target p d : String) → is_variant target (p, d) ≡ true → (p == "") ≡ false
unfolding is_variant
variant_named target p d h = elim (eq-cases p "") [
  | inl (same, _) ↦
      absurd (let none_left = no_empty (codes target) in let clash = rw same at h in ground arith)
  | inr (_, is) ↦ is
]

-- Behind a match, no other variant is left, and the match is returned.
matched_lem :
    (target platform digest : String) (rest : Map String) (out : String × String)
    → (platform == "") ≡ false
    → select_variant target rest platform digest ≡ ok out
    → (out ≡ (platform, digest)) × (keep (is_variant target) rest ≡ [])
unfolding select_variant is_variant
matched_lem target platform digest [] out matched h = (sym (ok-injective (rw matched at h)), refl)
matched_lem target platform digest ((p, d) ∷ rest) out matched h =
    let later = matched_lem target platform digest rest out matched in
    elim (Bool-cases (is_variant target (p, d))) [
      | inl is ↦ ground arith
      | inr is ↦ ground (arith, later)
    ]

select_variant_lem :
    (target : String) (entries : Map String) (out : String × String)
    → select_variant target entries "" "" ≡ ok out
    → keep (is_variant target) entries ≡ out ∷ []
unfolding select_variant is_variant
select_variant_lem target [] out h = absurd (err-ne-ok h)
select_variant_lem target ((p, d) ∷ rest) out h =
    let later = select_variant_lem target rest out in
    elim (Bool-cases (is_variant target (p, d))) [
      | inl is ↦
          let (same, alone) =
            matched_lem target p d rest out (variant_named target p d is) (ground arith) in
          rw (is, alone) (ap (λ e. e ∷ []) (sym same))
      | inr is ↦ ground (arith, later)
    ]

found_lem :
    (found : Option String)
    → is_sha256_digest (digest_at found) ≡ true
    → found ≡ some (digest_at found)
found_lem none h = absurd (let none_left = no_digest in ground arith)
found_lem (some digest) h = refl

keep-All {ℓ} : {A : Type ℓ} (p : A → Bool) (xs : List A) → All (λ x. p x ≡ true) (keep p xs)
keep-All p [] = tt
keep-All p (x ∷ xs) = elim (Bool-cases (p x)) [
  | inl is ↦ rw is (is, keep-All p xs)
  | inr is ↦ rw is (keep-All p xs)
]

variant_digest :
    (target : String) (e : String × String)
    → is_variant target e ≡ true
    → is_sha256_digest e.1 ≡ true
unfolding is_variant
variant_digest target e h = ground arith

-- A choice of the manifest for a platform is that of the platform itself, if the index has a digest
-- for it; if not, it is the one variant of the platform that has a digest.
pub select_platform_digest-is_variant :
    (target : String) (index : Map String) (out : String × String)
    → select_platform_digest target index ≡ ok out
    → (is_sha256_digest out.1 ≡ true)
      × (((out.0 ≡ target) × (lookup target index ≡ some out.1))
          ⊎ ((is_sha256_digest (digest_at (lookup target index)) ≡ false)
              × (keep (is_variant target) index ≡ out ∷ [])))
unfolding select_platform_digest
select_platform_digest-is_variant target index out h =
    elim (Bool-cases (is_sha256_digest (digest_at (lookup target index)))) [
      | inl is ↦
          (let same = ok-injective (rw (is, select_platform_digest) at h) in
            rw (sym same) (is, inl (refl, found_lem (lookup target index) is)))
      | inr is ↦
          (let alone = select_variant_lem target index out (rw (is, select_platform_digest) at h) in
            let chosen = rw alone at (keep-All (is_variant target) index) in
            (variant_digest target out chosen.0, inr (is, alone)))
    ]
