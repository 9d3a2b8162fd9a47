-- ===== src/Registry/Sources/Offered.antt =====
-- internal/registry/registry.go: the services that ListServices offers.
use mathlib.Core.Path.{subst}
use sdbx.Base.{
  ok-injective, err-ne-ok, ◌+◌, ◌≤◌, String, true, false, ◌==◌, List, [], ◌∷◌, ◌++◌, map, ok,
  if◌then◌else◌, ◌≡◌, refl, sym, ap, ◌∙◌, inl, inr, All, All-append, arith, eq_iff, Bool-cases,
  >>-eq-ok, >>=-eq-ok, Result-cases,
}
use sdbx.Base.Order.{
  count, insert_sorted, sort_strings, count-sort_strings, IsSorted, sort_strings-IsSorted, text_le,
}
use sdbx.Config.{contains}
use sdbx.Registry.Types.{ServiceDefinition}
use sdbx.Registry.Resolver.{ServiceInfo, has_errors}
use sdbx.Registry.Validator.Container.{Library}
use sdbx.Registry.Validator.Trust.{validate_with_trust_level}
use sdbx.Registry.Validator.Granted.{IsTrusted, validate_with_trust_level-IsTrusted}
use sdbx.Registry.Sources.{SourceProvider, found}
use sdbx.Registry.Sources.Order.{Holds}
use sdbx.Registry.Sources.Lookup.{validate_service_source_boundary}
use sdbx.Registry.Sources.Listing.{
  insert_service, sort_services, info_of, Listed, accept, list_name, list_names, list_source,
  list_sources, list_services,
}
use sdbx.Registry.Sources.Supplied.{boundary-cases, Loaded-cases, else-eq}

module _ (lib : Library) (sources : List SourceProvider) where
  -- A service that a source of the registry may offer.
  pub record IsOffered (svc : ServiceInfo) : Type 0 where
    pub provider : SourceProvider
    pub held : Holds provider sources
    pub enabled : provider.is_enabled ≡ true
    pub def : ServiceDefinition
    pub loaded : provider.services.load_service svc.name ≡ found def
    pub within_boundary : validate_service_source_boundary sources provider svc.name def ≡ ok tt
    pub trusted : IsTrusted lib def provider.trust_level
    pub info : svc ≡ info_of provider def

  -- The loops keep the names that were seen, each once, and what was accepted.
  record IsListed (listed : Listed) : Type 0 where
    offered : All IsOffered listed.services
    names : (name : String) → count name (map (λ svc. svc.name) listed.services) ≤ 1
    seen_all :
        (name : String)
        → contains listed.seen name ≡ false
        → count name (map (λ svc. svc.name) listed.services) ≡ 0

  -- What `accept` has checked of a service that it takes in.
  accept-step :
      (src : SourceProvider) (name : String) (listed : Listed) (def : ServiceDefinition)
      (after : Listed)
      → accept lib sources src name listed def ≡ ok after
      → (validate_service_source_boundary sources src name def ≡ ok tt)
        × (has_errors (validate_with_trust_level lib def src.trust_level) ≡ false)
        × (record {
          seen = name ∷ listed.seen;
          services = listed.services ++ (info_of src def ∷ []);
        }
            ≡ after)
  unfolding accept
  accept-step src name listed def after h =
      let (boundary, rest) = >>-eq-ok (validate_service_source_boundary sources src name def) _ h in
      elim (Bool-cases (has_errors (validate_with_trust_level lib def src.trust_level))) [
        | inl bad ↦ absurd (err-ne-ok (rw bad at rest))
        | inr good ↦ (boundary, good, ok-injective (rw good at rest))
      ]

  count-snoc :
      (x : String) (svc : ServiceInfo) (ss : List ServiceInfo)
      → count x (map (λ s. s.name) (ss ++ (svc ∷ [])))
        ≡ count x (map (λ s. s.name) ss) + (if svc.name == x then 1 else 0)
  count-snoc x svc [] = omega arith
  count-snoc x svc (s ∷ ss) = omega (arith, count-snoc x svc ss)

  listed_once :
      (name : String) (svc : ServiceInfo) (listed : Listed)
      → svc.name ≡ name
      → contains listed.seen name ≡ false
      → IsListed listed
      → (x : String)
      → (count x (map (λ s. s.name) (listed.services ++ (svc ∷ []))) ≤ 1)
        × (contains (name ∷ listed.seen) x ≡ false
            → count x (map (λ s. s.name) (listed.services ++ (svc ∷ []))) ≡ 0)
  unfolding contains
  listed_once name svc listed same new it x =
      rw (count-snoc x svc listed.services, same)
        (
          ground (arith, it.names x, it.seen_all x, eq_iff name x),
          λ h. ground (arith, it.seen_all x, eq_iff name x, eq_iff x name),
        )

  accept-IsListed :
      (src : SourceProvider) (name : String) (listed : Listed) (def : ServiceDefinition)
      (after : Listed)
      → Holds src sources
      → src.is_enabled ≡ true
      → src.services.load_service name ≡ found def
      → contains listed.seen name ≡ false
      → IsListed listed
      → accept lib sources src name listed def ≡ ok after
      → IsListed after
  unfolding info_of
  accept-IsListed src name listed def after held on loaded new it h =
      let (boundary, quiet, same) = accept-step src name listed def after h in
      let (identity, _) = boundary-cases sources src name def boundary in
      let once = listed_once name (info_of src def) listed identity new it in
      subst IsListed same (record {
        offered = All-append IsOffered listed.services (info_of src def ∷ []) it.offered (
          record {
            provider = src;
            held = held;
            enabled = on;
            def = def;
            loaded = subst (λ n. src.services.load_service n ≡ found def) (sym identity) loaded;
            within_boundary =
                subst (λ n. validate_service_source_boundary sources src n def ≡ ok tt)
                  (sym identity) boundary;
            trusted = validate_with_trust_level-IsTrusted lib def src.trust_level quiet;
            info = refl;
          },
          tt,
        );
        names = λ x. (once x).0;
        seen_all = λ x. (once x).1;
      })

  list_name-IsListed :
      (src : SourceProvider) (name : String) (listed after : Listed)
      → Holds src sources
      → src.is_enabled ≡ true
      → IsListed listed
      → list_name lib sources src name listed ≡ ok after
      → IsListed after
  unfolding list_name
  list_name-IsListed src name listed after held on it h =
      elim (Bool-cases (contains listed.seen name)) [
        | inl old ↦ subst IsListed (ok-injective (rw old at h)) it
        | inr new ↦ elim (Loaded-cases (src.services.load_service name)) [
          | inl (def, e) ↦
              accept-IsListed src name listed def after held on e new it (rw (e, new) at h)
          | inr (inl e) ↦ absurd (err-ne-ok (rw (e, new) at h))
          | inr (inr (reason, e)) ↦ absurd (err-ne-ok (rw (e, new) at h))
        ]
      ]

  list_names-IsListed :
      (src : SourceProvider) (names : List String) (listed after : Listed)
      → Holds src sources
      → src.is_enabled ≡ true
      → IsListed listed
      → list_names lib sources src names listed ≡ ok after
      → IsListed after
  unfolding list_names
  list_names-IsListed src [] listed after held on it h = subst IsListed (ok-injective h) it
  list_names-IsListed src (name ∷ names) listed after held on it h =
      let (mid, first, rest) = >>=-eq-ok (list_name lib sources src name listed) _ h in
      list_names-IsListed src names mid after held on
        (list_name-IsListed src name listed mid held on it first) rest

  list_source-IsListed :
      (src : SourceProvider) (listed after : Listed)
      → Holds src sources
      → IsListed listed
      → list_source lib sources src listed ≡ ok after
      → IsListed after
  unfolding list_source
  list_source-IsListed src listed after held it h = elim (Bool-cases src.is_enabled) [
    | inr off ↦ subst IsListed (ok-injective (rw off at h)) it
    | inl on ↦ elim (Result-cases src.services.list_services) [
      | inl (names, e) ↦
          list_names-IsListed src names listed after held on it
            (rw e at (sym (else-eq _ _ src.is_enabled on) ∙ h))
      | inr (reason, e) ↦ absurd (err-ne-ok (rw (e, on) at h))
    ]
  ]

  list_sources-IsListed :
      (ss : List SourceProvider) (listed after : Listed)
      → All (λ s. Holds s sources) ss
      → IsListed listed
      → list_sources lib sources ss listed ≡ ok after
      → IsListed after
  unfolding list_sources
  list_sources-IsListed [] listed after held it h = subst IsListed (ok-injective h) it
  list_sources-IsListed (src ∷ ss) listed after (held, more) it h =
      let (mid, first, rest) = >>=-eq-ok (list_source lib sources src listed) _ h in
      list_sources-IsListed ss mid after more (list_source-IsListed src listed mid held it first)
        rest

module _ {ℓ} (P : ServiceInfo → Type ℓ) where
  All-insert_service :
      (s : ServiceInfo) (ts : List ServiceInfo) → P s → All P ts → All P (insert_service s ts)
  unfolding insert_service
  All-insert_service s [] p ps = (p, tt)
  All-insert_service s (t ∷ ts) p (q, qs) = elim (Bool-cases (text_le s.name t.name)) [
    | inl first ↦ rw first (p, (q, qs))
    | inr behind ↦ rw behind (q, All-insert_service s ts p qs)
  ]

  All-sort_services : (ss : List ServiceInfo) → All P ss → All P (sort_services ss)
  unfolding sort_services
  All-sort_services [] h = h
  All-sort_services (s ∷ ss) (p, ps) =
      All-insert_service s (sort_services ss) p (All-sort_services ss ps)

names-insert_service :
    (s : ServiceInfo) (ts : List ServiceInfo)
    → map (λ t. t.name) (insert_service s ts) ≡ insert_sorted s.name (map (λ t. t.name) ts)
unfolding insert_service insert_sorted
names-insert_service s [] = refl
names-insert_service s (t ∷ ts) = ground (arith, names-insert_service s ts)

-- The names of the sorted services are the sorted names.
names-sort_services :
    (ss : List ServiceInfo)
    → map (λ t. t.name) (sort_services ss) ≡ sort_strings (map (λ t. t.name) ss)
unfolding sort_services sort_strings
names-sort_services [] = refl
names-sort_services (s ∷ ss) =
    names-insert_service s (sort_services ss) ∙ ap (insert_sorted s.name) (names-sort_services ss)

Holds-all :
    (ss ts : List SourceProvider)
    → ((s : SourceProvider) → Holds s ss → Holds s ts)
    → All (λ s. Holds s ts) ss
Holds-all [] ts h = tt
Holds-all (s ∷ ss) ts h = (h s (inl refl), Holds-all ss ts (λ u held. h u (inr held)))

-- The services that `ListServices` returns are in the order of their names, each name once; each is
-- the summary of a definition that an enabled source of the registry holds under that name, within
-- the boundary of the catalog and the trust of the source.
pub record IsListing (lib : Library) (sources : List SourceProvider) (services : List ServiceInfo)
    : Type 0 where
  pub offered : All (IsOffered lib sources) services
  pub sorted : IsSorted (map (λ svc. svc.name) services)
  pub once : (name : String) → count name (map (λ svc. svc.name) services) ≤ 1

pub list_services-IsListing :
    (lib : Library) (sources : List SourceProvider) (services : List ServiceInfo)
    → list_services lib sources ≡ ok services
    → IsListing lib sources services
unfolding list_services
list_services-IsListing lib sources services h =
    let (listed, run, same) = >>=-eq-ok (list_sources lib sources sources _) _ h in
    let it =
      list_sources-IsListed lib sources sources _ listed
        (Holds-all sources sources (λ s held. held))
        (record { offered = tt; names = λ name. omega arith; seen_all = λ name _. refl }) run in
    let order = names-sort_services listed.services in
    subst (IsListing lib sources) (ok-injective same) (record {
      offered = All-sort_services (IsOffered lib sources) listed.services it.offered;
      sorted =
          subst IsSorted (sym order)
            (sort_strings-IsSorted (map (λ svc. svc.name) listed.services));
      once = λ name.
          rw (order, count-sort_strings name (map (λ svc. svc.name) listed.services))
            (it.names name);
    })
