-- ===== src/Registry/Validator/Trust.antt =====
-- internal/registry/validator.go: Validate, and what a source's trust level adds to it.
use sdbx.Base.{
  ℕ, String, Bool, false, ◌==◌, not, ◌&&◌, ◌||◌, List, [], ◌∷◌, ◌++◌, has_prefix, codes, codes_eq,
}
use mathlib.Core.List.{reverse}
use sdbx.Config.{contains}
use sdbx.Registry.Types.{ServiceDefinition}
use sdbx.Registry.Types.Resolved.{ValidationError}
use sdbx.Registry.Validator.Report.{report, say_of}
use sdbx.Registry.Validator.Definition.{
  validate_metadata, validate_presentation, validate_integrations,
}
use sdbx.Registry.Validator.Container.{Library, validate_spec}
use sdbx.Registry.Validator.Selectors.{validate_conditions}
use sdbx.Registry.Validator.Network.{validate_routing, validate_networking}
use sdbx.Registry.Validator.Security.{validate_security, declared_registry}
use sdbx.Registry.Validator.Permissions.{validate_permissions}
use sdbx.Registry.Validator.Templates.{validate_catalog_templates}

unfoldable pub validate : Library → ServiceDefinition → List ValidationError
validate lib def =
    validate_metadata def.metadata
    ++ (validate_presentation def
        ++ (validate_spec lib def.spec
            ++ (validate_conditions def
                ++ (validate_routing def
                    ++ (validate_integrations def
                        ++ (validate_networking def
                            ++ (validate_catalog_templates lib def
                                ++ (validate_permissions lib def ++ validate_security def))))))))

pub record TrustLevel : Type 0 where
  pub allow_catalog_permissions : List String
  pub allowed_registries : List String

-- A grant that ends in ":*", without its star.
open_grant : List ℕ → List ℕ → List ℕ
open_grant [] acc = acc
open_grant (c ∷ s) acc = open_grant s (c ∷ acc)

-- strings.HasSuffix(grant, ":*") && strings.HasPrefix(permission, strings.TrimSuffix(grant, "*"))
is_open_for : List ℕ → String → Bool
is_open_for [] permission = false
is_open_for (c ∷ rest) permission =
    codes_eq (c ∷ []) (codes "*")
    && has_prefix rest (codes ":")
    && has_prefix (codes permission) (reverse rest)

unfoldable pub grants : String → String → Bool
unfolding open_grant is_open_for
grants grant permission =
    grant == "*" || grant == permission || is_open_for (open_grant (codes grant) []) permission

unfoldable pub catalog_permission_granted : String → List String → Bool
catalog_permission_granted permission [] = false
catalog_permission_granted permission (grant ∷ list) =
    grants grant permission || catalog_permission_granted permission list

-- The loop over the declared permissions.
unfoldable pub validate_grants : List String → List String → List ValidationError
validate_grants list [] = []
validate_grants list (permission ∷ permissions) =
    report (not (catalog_permission_granted permission list)) "permissions"
      (say_of "catalog permission %q is not granted to this source" permission)
    ++ validate_grants list permissions

-- The registries of a trust level: all of them after a "*".
unfoldable pub validate_trusted_registry : List String → ServiceDefinition → List ValidationError
validate_trusted_registry allowed def =
    report (not (contains allowed "*") && not (contains allowed (declared_registry def.spec.image)))
      "spec.image.registry"
      (say_of "registry %s not allowed by trust level" (declared_registry def.spec.image))

unfoldable pub validate_with_trust_level :
    Library → ServiceDefinition → TrustLevel → List ValidationError
validate_with_trust_level lib def trust =
    validate lib def
    ++ (validate_grants trust.allow_catalog_permissions def.permissions
        ++ validate_trusted_registry trust.allowed_registries def)
