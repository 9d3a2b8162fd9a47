-- ===== src/Registry/Validator/Definition.antt =====
-- internal/registry/validator.go: the checks of the metadata, the launcher entry and the integrations.
use sdbx.Base.{
  String, Bool, true, ◌==◌, ◌!=◌, not, ◌&&◌, ◌||◌, List, [], ◌∷◌, ◌++◌, Option, none, some, any,
  length, codes, is_control, if◌then◌else◌, ltb,
}
use sdbx.Base.Maps.{Map, lookup}
use sdbx.Config.{contains}
use sdbx.Registry.Types.{
  ServiceDefinition, ServiceMetadata, LauncherPresentation, UnpackerrIntegration,
}
use sdbx.Registry.Types.Resolved.{ValidationError}
use sdbx.Registry.Validator.Report.{report, advise, say, say_of, say_both, holds_text}
use sdbx.Registry.Validator.Patterns.{launcher_icon_pattern, is_valid_service_name}

abbrev categories : List String
categories = "media" ∷ "downloads" ∷ "management" ∷ "utility" ∷ "networking" ∷ "auth" ∷ []

unfoldable pub is_valid_category : String → Bool
unfolding contains
is_valid_category category = contains categories category

unfoldable pub validate_metadata : ServiceMetadata → List ValidationError
validate_metadata m =
    (if m.name == ""
      then report true "metadata.name" (say "name is required")
      else report (not (is_valid_service_name m.name)) "metadata.name"
          (say "name must be lowercase alphanumeric with hyphens"))
    ++ report (m.version == "") "metadata.version" (say "version is required")
    ++ (if m.category == ""
        then report true "metadata.category" (say "category is required")
        else report (not (is_valid_category m.category)) "metadata.category"
            (say_of "invalid category: %s" m.category))
    ++ advise (m.description == "") "metadata.description" (say "description is recommended")

abbrev launcher_groups : List String
launcher_groups = "media" ∷ "downloads" ∷ "management" ∷ "utilities" ∷ []

-- A launcher entry of a definition whose routing is enabled or not.
unfoldable pub validate_launcher : Bool → Option LauncherPresentation → List ValidationError
unfolding contains
validate_launcher routed none = []
validate_launcher routed (some launcher) =
    report (not launcher.enabled) "presentation.launcher.enabled"
      (say "declared launcher entries must be enabled; omit the block to hide a service")
    ++ report (not routed) "presentation.launcher" (say "launcher entries require a routed service")
    ++ report (not (contains launcher_groups launcher.group)) "presentation.launcher.group"
        (say "must be one of media, downloads, management, or utilities")
    ++ report (launcher.icon != "" && not (launcher_icon_pattern launcher.icon))
        "presentation.launcher.icon"
        (say "must be a lowercase icon token without a path, URL, extension, or markup")
    ++ report (ltb 80 (length (codes launcher.subtitle))) "presentation.launcher.subtitle"
        (say "must not exceed 80 characters")
    ++ report
        (holds_text launcher.subtitle "{{"
          || holds_text launcher.subtitle "}}"
          || any is_control (codes launcher.subtitle))
        "presentation.launcher.subtitle" (say "must not contain templates or control characters")

unfoldable pub validate_presentation : ServiceDefinition → List ValidationError
validate_presentation def = validate_launcher def.routing.enabled def.presentation.launcher

pub record UnpackerrContract : Type 0 where
  pub url_env_var : String
  pub api_key_env_var : String
  pub internal_url : String

abbrev pub contracts : Map UnpackerrContract
contracts =
    (
      "sonarr",
      record {
        url_env_var = "UN_SONARR_0_URL";
        api_key_env_var = "UN_SONARR_0_API_KEY";
        internal_url = "http://sdbx-sonarr:8989";
      },
    )
    ∷ (
      "radarr",
      record {
        url_env_var = "UN_RADARR_0_URL";
        api_key_env_var = "UN_RADARR_0_API_KEY";
        internal_url = "http://sdbx-radarr:7878";
      },
    )
    ∷ (
      "lidarr",
      record {
        url_env_var = "UN_LIDARR_0_URL";
        api_key_env_var = "UN_LIDARR_0_API_KEY";
        internal_url = "http://sdbx-lidarr:8686";
      },
    )
    ∷ (
      "whisparr",
      record {
        url_env_var = "UN_WHISPARR_0_URL";
        api_key_env_var = "UN_WHISPARR_0_API_KEY";
        internal_url = "http://sdbx-whisparr:6969";
      },
    )
    ∷ []

contract_field : String → String → String → String → List ValidationError
contract_field name path got want =
    report (got != want) path (say_both "must be %q for %s" want name)

validate_contract : String → UnpackerrIntegration → Option UnpackerrContract → List ValidationError
unfolding contract_field
validate_contract name integration none =
    report true "integrations.unpackerr"
      (say "is supported only for sonarr, radarr, lidarr, or whisparr")
validate_contract name integration (some contract) =
    contract_field name "integrations.unpackerr.urlEnvVar" integration.url_env_var
      contract.url_env_var
    ++ contract_field name "integrations.unpackerr.apiKeyEnvVar" integration.api_key_env_var
        contract.api_key_env_var
    ++ contract_field name "integrations.unpackerr.internalUrl" integration.internal_url
        contract.internal_url

unfoldable pub validate_unpackerr : String → Option UnpackerrIntegration → List ValidationError
unfolding validate_contract
validate_unpackerr name none = []
validate_unpackerr name (some integration) =
    report (not integration.enabled) "integrations.unpackerr.enabled"
      (say "declared Unpackerr integrations must be enabled; omit the block otherwise")
    ++ validate_contract name integration (lookup name contracts)

unfoldable pub validate_integrations : ServiceDefinition → List ValidationError
validate_integrations def = validate_unpackerr def.metadata.name def.integrations.unpackerr
