-- ===== src/Registry/Validator/Templates.antt =====
-- internal/registry/validator.go: which fields of a definition may hold a template, and what a
-- template may read.
use sdbx.Base.{
  String, Bool, true, ◌==◌, not, ◌&&◌, ◌||◌, List, [], ◌∷◌, ◌++◌, ◌<>◌, if◌then◌else◌, Message,
  Option, none, some,
}
use sdbx.Config.{contains}
use sdbx.Registry.Types.{ServiceDefinition}
use sdbx.Registry.Types.Resolved.{ValidationError}
use sdbx.Registry.Validator.Report.{report, say, say_of, holds_text}
use sdbx.Registry.Validator.Search.{config_references, root_references, catalog_secrets_reference}
use sdbx.Registry.Validator.Container.{Library}
use sdbx.Registry.Validator.Fields.{Field, catalog_string_fields}

abbrev pub allowed_config_fields : List String
allowed_config_fields =
    "Domain" ∷ "Timezone" ∷ "ConfigPath" ∷ "DataPath" ∷ "DownloadsPath" ∷ "MediaPath"
    ∷ "SecretsPath" ∷ "ProjectDir" ∷ "PUID" ∷ "PGID" ∷ "Umask" ∷ "VPNEnabled" ∷ "VPNProvider"
    ∷ "VPNCountry" ∷ "TorrentPort" ∷ "Expose" ∷ "Routing" ∷ "Plex" ∷ []

abbrev pub templatable_fields : List String
templatable_fields =
    "spec.container.name_template" ∷ "spec.container.command" ∷ "spec.container.user"
    ∷ "spec.container.working_dir" ∷ "spec.container.conditional_devices.device"
    ∷ "spec.container.conditional_devices.when" ∷ "spec.environment.static.value"
    ∷ "spec.environment.conditional.value" ∷ "spec.environment.conditional.when"
    ∷ "spec.environment.envFile" ∷ "spec.volumes.hostPath" ∷ "spec.volumes.containerPath"
    ∷ "spec.volumes.when" ∷ "spec.ports.static" ∷ "spec.ports.conditional.port"
    ∷ "spec.ports.conditional.when" ∷ "spec.networking.modeTemplate"
    ∷ "spec.networking.networks.when" ∷ "spec.dependencies.conditional.when" ∷ []

-- The map `seen` and the errors so far.
pub record Findings : Type 0 where
  pub seen : List String
  pub errors : List ValidationError

-- An error under a key that was not seen before.
unfoldable pub note : Bool → String → Message → Findings → Findings
note bad key message f =
    if bad && not (contains f.seen key)
    then record { seen = key ∷ f.seen; errors = f.errors ++ report true "templates" message }
    else f

-- The loop over the matches of a search.
unfoldable pub note_references :
    (String → Bool) → String → String → List String → Findings → Findings
note_references allowed prefix format [] f = f
note_references allowed prefix format (field ∷ fields) f =
    note_references allowed prefix format fields
      (note (not (allowed field)) (prefix <> field) (say_of format field) f)

abbrev pub root_allowed : String → Bool
root_allowed field = field == "Config" || field == "Name"

abbrev pub config_allowed : String → Bool
config_allowed field = contains allowed_config_fields field

unfoldable pub note_syntax : String → Option String → Findings → Findings
note_syntax value none f = f
note_syntax value (some message) f =
    note true ("syntax:" <> value) (say_of "catalog template syntax is invalid: %v" message) f

module _ (lib : Library) where
  -- A template in a field that may hold one. A text that parses is not marked as seen, which makes no
  -- difference: it parses again.
  unfoldable pub note_template : String → Findings → Findings
  unfolding note_syntax
  note_template value f =
      note_references config_allowed "Config."
        "catalog template access to .Config.%s is not allowed" (config_references value)
        (note_references root_allowed "root." "catalog template access to .%s is not allowed"
          (root_references value)
          (note (catalog_secrets_reference value) "Secrets"
            (say
              "catalog templates cannot access secret values directly; declare and mount a file-backed secret")
            (note_syntax value (lib.parse_error value) f)))

  unfoldable pub note_field : Field → Findings → Findings
  note_field (field, value) f =
      if not (holds_text value "{{")
      then f
      else if not (contains templatable_fields field)
      then note true ("unsupported:" <> field)
          (say_of "catalog templates are not supported in %s" field) f
      else note_template value f

  unfoldable pub note_fields : List Field → Findings → Findings
  note_fields [] f = f
  note_fields (field ∷ fields) f = note_fields fields (note_field field f)

  unfoldable pub validate_catalog_templates : ServiceDefinition → List ValidationError
  validate_catalog_templates def =
      (note_fields (catalog_string_fields def) (record { seen = []; errors = [] })).errors
