-- ===== src/Registry/Sources/Lookup.antt =====
-- internal/registry/registry.go: GetService, ValidateForSource and the boundary between the
-- embedded catalog and the other sources.
use sdbx.Base.{
  String, Bool, true, false, ◌==◌, ◌!=◌, not, List, [], ◌∷◌, Result, ok, err, Check, fine, ◌>>◌,
  ◌>>=◌, if◌then◌else◌,
}
use sdbx.Config.{contains}
use sdbx.Registry.Types.{ServiceDefinition}
use sdbx.Registry.Types.Resolved.{Cause, refused, ValidationError}
use sdbx.Registry.Validator.Report.{report}
use sdbx.Registry.Validator.Patterns.{is_valid_service_name}
use sdbx.Registry.Validator.Container.{Library}
use sdbx.Registry.Validator.Permissions.{override_of}
use sdbx.Registry.Validator.Trust.{validate_with_trust_level, catalog_permission_granted}
use sdbx.Registry.Sources.{SourceProvider, Loaded, found, not_found, load_failed}
use sdbx.Registry.Sources.Managed.{get_source}

abbrev pub refuse : String → List String → Cause
refuse format args = refused (record { format = format; args = args })

unfoldable pub validate_service_lookup_name : String → Check Cause
validate_service_lookup_name name =
    if is_valid_service_name name
    then fine
    else err
        (refuse "invalid service name %q: use lowercase letters, numbers, and hyphens" (name ∷ []))

abbrev pub exists_in : String → Loaded → Result Cause Bool
exists_in name (found def) = ok true
exists_in name not_found = ok false
exists_in name (load_failed reason) =
    err (refuse "load embedded service identity %s: %w" (name ∷ reason ∷ []))

-- The first embedded source decides.
unfoldable pub embedded_service_exists : String → List SourceProvider → Result Cause Bool
embedded_service_exists name [] = err (refuse "embedded catalog source is missing" [])
embedded_service_exists name (source ∷ sources) =
    if source.source_type == "embedded"
    then exists_in name (source.services.load_service name)
    else embedded_service_exists name sources

-- A definition of another source, beside a service of the catalog or not.
unfoldable pub validate_override : SourceProvider → String → ServiceDefinition → Bool → Check Cause
validate_override source name definition embedded =
    let declared = contains definition.permissions (override_of name) in
    if not embedded
    then (if declared
        then err (
            refuse "service %s from source %s declares unused catalog permission %q"
              (name ∷ source.name ∷ override_of name ∷ []))
        else fine)
    else if not declared
    then err (
        refuse
          "service %s from source %s overrides the embedded catalog without declaring catalog permission %q"
          (name ∷ source.name ∷ override_of name ∷ []))
    else if not
        (catalog_permission_granted (override_of name) source.trust_level.allow_catalog_permissions)
    then err (
        refuse "service %s from source %s requires ungranted catalog permission %q"
          (name ∷ source.name ∷ override_of name ∷ []))
    else fine

module _ (sources : List SourceProvider) where
  unfoldable pub validate_service_source_boundary :
      SourceProvider → String → ServiceDefinition → Check Cause
  validate_service_source_boundary source name definition =
      if definition.metadata.name != name
      then err (
          refuse "service %s from source %s declares metadata name %s"
            (name ∷ source.name ∷ definition.metadata.name ∷ []))
      else if source.source_type == "embedded"
      then fine
      else embedded_service_exists name sources >>= validate_override source name definition

  abbrev pub checked :
      SourceProvider → String → ServiceDefinition → Result Cause (ServiceDefinition × String)
  checked src name def = validate_service_source_boundary src name def >> ok (def, src.name)

  -- The loop of `GetService` over the sources that are left.
  unfoldable pub search_sources :
      String → List SourceProvider → Result Cause (ServiceDefinition × String)
  search_sources name [] = err (refuse "service %s not found in any source" (name ∷ []))
  search_sources name (src ∷ rest) =
      if not src.is_enabled
      then search_sources name rest
      else elim (src.services.load_service name) [
        | found def ↦ checked src name def
        | not_found ↦ search_sources name rest
        | load_failed reason ↦
            err (
              refuse "failed to load service %s from source %s: %w" (name ∷ src.name ∷ reason ∷ []))
      ]

  unfoldable pub get_service : String → Result Cause (ServiceDefinition × String)
  get_service name = validate_service_lookup_name name >> search_sources name sources

  unfoldable pub validate_for_source : Library → ServiceDefinition → String → List ValidationError
  validate_for_source lib def source_name = elim (get_source source_name sources) [
    | err reason ↦ report true "source" reason
    | ok source ↦ validate_with_trust_level lib def source.trust_level
  ]
