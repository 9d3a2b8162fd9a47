-- ===== src/Registry/Validator/Granted.antt =====
-- internal/registry/validator.go: what a definition may do that passes under a trust level.
use sdbx.Registry.Validator.Definition.{
  validate_metadata, validate_presentation, validate_integrations,
}
use sdbx.Base.{
  ℕ, String, true, false, List, [], ◌∷◌, ◌≡◌, ◌≢◌, refl, ◌⊎◌, All, arith, eq_iff, Message, Result,
  ok, err, or-false,
}
use sdbx.Config.{contains}
use sdbx.Registry.Types.{ServiceDefinition, ImageSpec, VolumeMount}
use sdbx.Registry.Validator.Report.{each}
use sdbx.Registry.Validator.Selectors.{validate_conditions}
use sdbx.Registry.Validator.Network.{validate_routing, validate_networking}
use sdbx.Registry.Validator.Templates.{validate_catalog_templates}
use sdbx.Registry.Validator.Security.{
  validate_security, image_reference, repository_registry, declared_registry, validate_reference,
  validate_image, validate_socket, is_docker_socket_path, warn_privileges, validate_memory_device,
}
use sdbx.Registry.Validator.Laws.{
  IsQuiet, IsQuiet-append, report-IsQuiet, report-append, past, each-IsQuiet,
}
use sdbx.Registry.Validator.Container.{Library, validate_spec}
use sdbx.Registry.Validator.Permitted.{validate_permissions-HasExactPermissions}
use sdbx.Registry.Validator.Permissions.{needs, validate_permissions}
use sdbx.Registry.Validator.Trust.{
  TrustLevel, validate, validate_grants, catalog_permission_granted, validate_with_trust_level,
  validate_trusted_registry,
}

validate_grants-All :
    (list ps : List String)
    → IsQuiet (validate_grants list ps)
    → (p : String) → contains ps p ≡ true
    → catalog_permission_granted p list ≡ true
unfolding validate_grants contains
validate_grants-All list [] h p held = ground arith
validate_grants-All list (q ∷ ps) h p held =
    let (found, later) = report-append _ _ _ _ h in
    ground (arith, validate_grants-All list ps later p, eq_iff q p, eq_iff p q)

-- The errors of the parts of a definition, from those of the whole.
pub record HasQuietParts (lib : Library) (def : ServiceDefinition) : Type 0 where
  pub metadata : IsQuiet (validate_metadata def.metadata)
  pub spec : IsQuiet (validate_spec lib def.spec)
  pub conditions : IsQuiet (validate_conditions def)
  pub routing : IsQuiet (validate_routing def)
  pub networking : IsQuiet (validate_networking def)
  pub templates : IsQuiet (validate_catalog_templates lib def)
  pub permissions : IsQuiet (validate_permissions lib def)
  pub security : IsQuiet (validate_security def)

pub validate-HasQuietParts :
    (lib : Library) (def : ServiceDefinition) → IsQuiet (validate lib def) → HasQuietParts lib def
unfolding validate
validate-HasQuietParts lib def h =
    let (metadata, rest) = IsQuiet-append (validate_metadata def.metadata) _ h in
    let rest = past (validate_presentation def) _ rest in
    let (spec, rest) = IsQuiet-append (validate_spec lib def.spec) _ rest in
    let (conditions, rest) = IsQuiet-append (validate_conditions def) _ rest in
    let (routing, rest) = IsQuiet-append (validate_routing def) _ rest in
    let rest = past (validate_integrations def) _ rest in
    let (networking, rest) = IsQuiet-append (validate_networking def) _ rest in
    let (templates, rest) = IsQuiet-append (validate_catalog_templates lib def) _ rest in
    let (permissions, security) =
      IsQuiet-append (validate_permissions lib def) (validate_security def) rest in
    record {
      metadata = metadata;
      spec = spec;
      conditions = conditions;
      routing = routing;
      networking = networking;
      templates = templates;
      permissions = permissions;
      security = security;
    }

-- The image can be named, and comes from the registry that it is declared with.
pub record HasOwnImage (image : ImageSpec) : Type 0 where
  pub reference : String
  pub is_reference : image_reference image.repository image.tag ≡ ok reference
  pub same_registry : repository_registry image.repository ≡ declared_registry image

validate_reference-HasOwnImage :
    (image : ImageSpec) (r : Result Message String)
    → image_reference image.repository image.tag ≡ r
    → IsQuiet (validate_reference image r)
    → HasOwnImage image
unfolding validate_reference
validate_reference-HasOwnImage image (err message) e h =
    let bad = report-IsQuiet true "spec.image" message h in cc
validate_reference-HasOwnImage image (ok reference) e h = record {
  reference = reference;
  is_reference = e;
  same_registry =
      let same = report-IsQuiet _ _ _ h in
      ground (arith, eq_iff (repository_registry image.repository) (declared_registry image));
}

-- No mount of the Docker socket, on either side.
abbrev pub IsNoSocket : VolumeMount → Type 0
IsNoSocket vol =
    (is_docker_socket_path vol.host_path ≡ false)
    × (is_docker_socket_path vol.container_path ≡ false)

validate_socket-IsNoSocket :
    (i : ℕ) (vol : VolumeMount) → IsQuiet (validate_socket i vol) → IsNoSocket vol
unfolding validate_socket
validate_socket-IsNoSocket i vol h = or-false _ _ (report-IsQuiet _ _ _ h)

-- What the trust of a source allows a definition.
pub record IsTrusted (lib : Library) (def : ServiceDefinition) (trust : TrustLevel) : Type 0 where
  pub granted :
      (p : String)
      → p ≢ ""
      → contains (needs lib def) p ≡ true
      → catalog_permission_granted p trust.allow_catalog_permissions ≡ true
  pub image : HasOwnImage def.spec.image
  pub registry :
      (contains trust.allowed_registries "*" ≡ true)
      ⊎ (contains trust.allowed_registries (repository_registry def.spec.image.repository) ≡ true)
  pub no_socket : All IsNoSocket def.spec.volumes

validate_security-safe :
    (def : ServiceDefinition)
    → IsQuiet (validate_security def)
    → HasOwnImage def.spec.image × All IsNoSocket def.spec.volumes
unfolding validate_security validate_image
validate_security-safe def h =
    let rest = past (warn_privileges def.spec) _ h in
    let (image, rest) = IsQuiet-append (validate_image def.spec.image) _ rest in
    let sockets =
      past (each (λ _ device. validate_memory_device device) 0 def.spec.container.devices)
        (each validate_socket 0 def.spec.volumes) rest in
    let (reference, _) =
      IsQuiet-append
        (validate_reference def.spec.image
          (image_reference def.spec.image.repository def.spec.image.tag))
        _ image in
    (
      validate_reference-HasOwnImage def.spec.image _ refl reference,
      each-IsQuiet IsNoSocket validate_socket 0 def.spec.volumes validate_socket-IsNoSocket sockets,
    )

validate_trusted_registry-allowed :
    (allowed : List String) (def : ServiceDefinition)
    → IsQuiet (validate_trusted_registry allowed def)
    → HasOwnImage def.spec.image
    → (contains allowed "*" ≡ true)
      ⊎ (contains allowed (repository_registry def.spec.image.repository) ≡ true)
unfolding validate_trusted_registry
validate_trusted_registry-allowed allowed def h own =
    let refused = report-IsQuiet _ _ _ h in rw own.same_registry (ground arith)

-- A definition that passes under a trust level needs no permission that the level does not grant,
-- takes its image from a registry of the level, and does not mount the Docker socket
-- under the path that the validator knows.
pub validate_with_trust_level-IsTrusted :
    (lib : Library) (def : ServiceDefinition) (trust : TrustLevel)
    → IsQuiet (validate_with_trust_level lib def trust)
    → IsTrusted lib def trust
unfolding validate_with_trust_level
validate_with_trust_level-IsTrusted lib def trust h =
    let (own, added) = IsQuiet-append (validate lib def) _ h in
    let (grants, registry) =
      IsQuiet-append (validate_grants trust.allow_catalog_permissions def.permissions) _ added in
    let parts = validate-HasQuietParts lib def own in
    let exact = validate_permissions-HasExactPermissions lib def parts.permissions in
    let (image, no_socket) = validate_security-safe def parts.security in
    record {
      granted = λ p nonempty need.
          validate_grants-All trust.allow_catalog_permissions def.permissions grants p
            (exact.declared p nonempty need);
      image = image;
      registry = validate_trusted_registry-allowed trust.allowed_registries def registry image;
      no_socket = no_socket;
    }
