-- ===== src/Registry/Sources/Supplied.antt =====
-- internal/registry/registry.go: the source of a service that GetService returns.
use mathlib.Core.Path.{subst}
use sdbx.Base.{
  err-ne-ok, String, Bool, true, false, not, List, [], ◌∷◌, Result, ok, if◌then◌else◌, ◌≡◌, ◌≢◌,
  refl, sym, ap, ◌∙◌, ◌⊎◌, inl, inr, arith, eq-cases, Bool-cases, >>-eq-ok, >>=-eq-ok,
}
use sdbx.Config.{contains}
use sdbx.Registry.Types.{ServiceDefinition}
use sdbx.Registry.Types.Resolved.{Cause}
use sdbx.Registry.Validator.Permissions.{override_of}
use sdbx.Registry.Validator.Trust.{catalog_permission_granted}
use sdbx.Registry.Sources.{SourceProvider, Loaded, found, not_found, load_failed}
use sdbx.Registry.Sources.Lookup.{
  validate_service_lookup_name, embedded_service_exists, validate_override,
  validate_service_source_boundary, search_sources, get_service,
}
use sdbx.Registry.Sources.Order.{Holds}

module _ (name : String) (def : ServiceDefinition) (src : SourceProvider) where
  -- The first enabled source that has the service.
  abbrev pub IsFirst : List SourceProvider → Type 0
  IsFirst [] = ⊥
  IsFirst (t ∷ ts) =
      ((t ≡ src) × (src.is_enabled ≡ true) × (src.services.load_service name ≡ found def))
      ⊎ ((t.is_enabled ≡ true → t.services.load_service name ≡ not_found) × IsFirst ts)

  pub IsFirst-Holds : (ts : List SourceProvider) → IsFirst ts → Holds src ts
  IsFirst-Holds [] h = h
  IsFirst-Holds (t ∷ ts) (inl (same, on, loaded)) = inl same
  IsFirst-Holds (t ∷ ts) (inr (_, h)) = inr (IsFirst-Holds ts h)

  pub IsFirst-loaded :
      (ts : List SourceProvider)
      → IsFirst ts
      → (src.is_enabled ≡ true) × (src.services.load_service name ≡ found def)
  IsFirst-loaded [] h = absurd h
  IsFirst-loaded (t ∷ ts) (inl (same, on, loaded)) = (on, loaded)
  IsFirst-loaded (t ∷ ts) (inr (_, h)) = IsFirst-loaded ts h

-- The source of a service that `GetService` returns, and the boundary to the embedded catalog.
pub record IsSupplied (sources : List SourceProvider) (name : String) (def : ServiceDefinition)
    (source : String) : Type 0 where
  pub provider : SourceProvider
  pub provider_name : provider.name ≡ source
  pub first : IsFirst name def provider sources
  pub identity : def.metadata.name ≡ name
  pub override :
      provider.source_type ≢ "embedded"
      → embedded_service_exists name sources ≡ ok true
      → (contains def.permissions (override_of name) ≡ true)
        × (catalog_permission_granted
              (override_of name)
              provider.trust_level.allow_catalog_permissions
            ≡ true)
  pub addition :
      provider.source_type ≢ "embedded"
      → embedded_service_exists name sources ≡ ok false
      → contains def.permissions (override_of name) ≡ false

validate_override-granted :
    (src : SourceProvider) (name : String) (def : ServiceDefinition) (embedded : Bool)
    → validate_override src name def embedded ≡ ok tt
    → (embedded ≡ true
        → (contains def.permissions (override_of name) ≡ true)
          × (catalog_permission_granted (override_of name) src.trust_level.allow_catalog_permissions
              ≡ true))
      × (embedded ≡ false → contains def.permissions (override_of name) ≡ false)
unfolding validate_override
validate_override-granted src name def embedded h = (λ e. ground arith, λ e. ground arith)

pub Loaded-cases :
    (l : Loaded)
    → ((def : ServiceDefinition) × (l ≡ found def))
      ⊎ ((l ≡ not_found) ⊎ ((reason : String) × (l ≡ load_failed reason)))
Loaded-cases (found def) = inl (def, refl)
Loaded-cases not_found = inr (inl refl)
Loaded-cases (load_failed reason) = inr (inr (reason, refl))

pub else-eq {ℓ} : {A : Type ℓ} (a c : A) (b : Bool) → b ≡ true → (if not b then a else c) ≡ c
else-eq a c b h = rw h refl

bool-eq : {a b : Bool} → ◌≡◌ {A = Result Cause Bool} (ok a) (ok b) → a ≡ b
bool-eq h = cc

pair-injective :
    {a b : ServiceDefinition} {s t : String}
    → ◌≡◌ {A = Result Cause (ServiceDefinition × String)} (ok (a, s)) (ok (b, t))
    → (a ≡ b) × (s ≡ t)
pair-injective h = (cc, cc)

module _ (sources : List SourceProvider) where
  -- A first source, within the boundary.
  abbrev IsFound : String → List SourceProvider → ServiceDefinition → String → Type 0
  IsFound name ts def source =
      (src : SourceProvider) × IsFirst name def src ts
      × (src.name ≡ source)
      × (validate_service_source_boundary sources src name def ≡ ok tt)

  later :
      (name : String) (t : SourceProvider) (ts : List SourceProvider) (def : ServiceDefinition)
      (source : String)
      → (t.is_enabled ≡ true → t.services.load_service name ≡ not_found)
      → IsFound name ts def source
      → IsFound name (t ∷ ts) def source
  later name t ts def source ahead (src, first, same, boundary) =
      (src, inr (ahead, first), same, boundary)

  search_sources-IsFirst :
      (name : String) (ts : List SourceProvider) (def : ServiceDefinition) (source : String)
      → search_sources sources name ts ≡ ok (def, source)
      → (src : SourceProvider) × IsFirst name def src ts
        × (src.name ≡ source)
        × (validate_service_source_boundary sources src name def ≡ ok tt)
  unfolding search_sources
  search_sources-IsFirst name [] def source h = cc
  search_sources-IsFirst name (t ∷ ts) def source h = elim (Bool-cases t.is_enabled) [
    | inr off ↦
        later name t ts def source (λ on. cc)
          (search_sources-IsFirst name ts def source (rw off at h))
    | inl on ↦ elim (Loaded-cases (t.services.load_service name)) [
      | inl (d, e) ↦
          let (boundary, same) =
            >>-eq-ok (validate_service_source_boundary sources t name d) _
              (rw e at (sym (else-eq _ _ t.is_enabled on) ∙ h)) in
          let (def_eq, name_eq) = pair-injective same in
          (
            t,
            inl (refl, on, e ∙ ap found def_eq),
            name_eq,
            subst (λ x. validate_service_source_boundary sources t name x ≡ ok tt) def_eq boundary,
          )
      | inr (inl e) ↦
          later name t ts def source (λ _. e)
            (search_sources-IsFirst name ts def source (rw (e, on) at h))
      | inr (inr (reason, e)) ↦ absurd (err-ne-ok (rw (e, on) at h))
    ]
  ]

  pub boundary-cases :
      (src : SourceProvider) (name : String) (def : ServiceDefinition)
      → validate_service_source_boundary sources src name def ≡ ok tt
      → (def.metadata.name ≡ name)
        × ((src.source_type ≡ "embedded")
            ⊎ ((embedded : Bool) × (embedded_service_exists name sources ≡ ok embedded)
                × (validate_override src name def embedded ≡ ok tt)))
  unfolding validate_service_source_boundary
  boundary-cases src name def h = elim (eq-cases def.metadata.name name) [
    | inr (other, e) ↦ absurd (err-ne-ok (rw e at h))
    | inl (same, e) ↦ (
      same,
      elim (eq-cases src.source_type "embedded") [
        | inl (built_in, _) ↦ inl built_in
        | inr (_, k) ↦ inr (>>=-eq-ok (embedded_service_exists name sources) _ (rw (e, k) at h))
      ],
    )
  ]

  -- A service that `GetService` returns comes from the first enabled source that has it.
  pub get_service-IsSupplied :
      (name : String) (def : ServiceDefinition) (source : String)
      → get_service sources name ≡ ok (def, source)
      → IsSupplied sources name def source
  unfolding get_service validate_service_source_boundary
  get_service-IsSupplied name def source h =
      let (_, search) = >>-eq-ok (validate_service_lookup_name name) _ h in
      let (src, first, same, boundary) = search_sources-IsFirst name sources def source search in
      let (identity, kind) = boundary-cases src name def boundary in
      record {
        provider = src;
        provider_name = same;
        first = first;
        identity = identity;
        override = λ other exists. elim kind [
          | inl built_in ↦ absurd (other built_in)
          | inr (embedded, e, passed) ↦
              (validate_override-granted src name def embedded passed).0 (bool-eq (sym e ∙ exists))
        ];
        addition = λ other exists. elim kind [
          | inl built_in ↦ absurd (other built_in)
          | inr (embedded, e, passed) ↦
              (validate_override-granted src name def embedded passed).1 (bool-eq (sym e ∙ exists))
        ];
      }
