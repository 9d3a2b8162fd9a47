-- ===== src/Config/Tests.antt =====
-- The theorems about the configuration, at small configurations.
use sdbx.Base.{◌≡◌, ◌↔◌, refl, [], ◌∷◌, ◌==◌, none, some, ok, trim_space}
use sdbx.Base.Paths.{clean}
use sdbx.Config.{
  Config, default_config, contains, is_addon_enabled, enable_addon, disable_addon,
  set_exposure_mode,
}
use sdbx.Config.Patterns.{
  identifier_regex, admin_user_regex, umask_regex, domain_regex, is_safe_route_path,
  drm_render_device_pattern,
}
use sdbx.Config.Checks.{
  Host, validate_safe_scalar, validate_managed_path, validate_plex, validate_domain,
  validate_expose, validate_routing,
}
use sdbx.Config.Validate.{
  validate_vpn, validate_paths, validate_identity, validate_scalars, validate_credentials,
  validate_addons, validate_override, validate,
}
use sdbx.Config.Validate.Sound.{IsCoherent, validate-IsCoherent, HasBounds, validate-HasBounds}
use sdbx.Config.Validate.Changes.{disable_addon-enable_addon, set_exposure_mode-validate_expose}
use sdbx.Config.Validate.ManagedPaths.{
  IsDedicated, HasDedicatedPaths, validate_managed_path_iff, validate-HasDedicatedPaths,
}

-- A host that knows one time zone and no addresses.
abbrev host : Host
host = record {
  load_location = λ zone. zone == "Europe/Paris";
  parse_address = λ email. some email;
  parse_addr = λ _. none;
}

abbrev with_sonarr : Config
with_sonarr = record default_config { addons = "sonarr" ∷ "radarr" ∷ [] }

abbrev with_email : Config
with_email = record default_config {
  expose = record default_config.expose {
    tls = record default_config.expose.tls { email = "me@example.com" };
  };
}

checks : Unit {0}
unfolding validate validate_plex validate_domain validate_expose validate_routing validate_vpn
    validate_paths validate_managed_path validate_identity validate_scalars validate_safe_scalar
    validate_credentials validate_addons validate_override clean trim_space identifier_regex
    admin_user_regex umask_regex domain_regex is_safe_route_path drm_render_device_pattern contains
checks = tt

validate-with_sonarr : validate host with_sonarr ≡ ok tt
unfolding checks
validate-with_sonarr = refl

validate_addons-with_sonarr : validate_addons [] with_sonarr.addons ≡ ok tt
unfolding checks
validate_addons-with_sonarr = refl

validate_expose-with_email : validate_expose with_email ≡ ok tt
unfolding checks
validate_expose-with_email = refl

validate-IsCoherent_example : IsCoherent with_sonarr
validate-IsCoherent_example = validate-IsCoherent host with_sonarr validate-with_sonarr

validate-HasBounds_example : HasBounds with_sonarr
validate-HasBounds_example = validate-HasBounds host with_sonarr validate-with_sonarr

validate-HasDedicatedPaths_example : HasDedicatedPaths with_sonarr
validate-HasDedicatedPaths_example =
    validate-HasDedicatedPaths host with_sonarr validate-with_sonarr

validate_managed_path_iff_example :
    (validate_managed_path "data_path" "a/../../b" ≡ ok tt) ↔ IsDedicated (clean "a/../../b")
validate_managed_path_iff_example = validate_managed_path_iff "data_path" "a/../../b"

disable_addon-enable_addon_example :
    disable_addon "lidarr" (enable_addon "lidarr" with_sonarr) ≡ with_sonarr
unfolding is_addon_enabled
disable_addon-enable_addon_example = disable_addon-enable_addon with_sonarr "lidarr" refl

set_exposure_mode-validate_expose_example :
    validate_expose (set_exposure_mode "direct" with_email) ≡ ok tt
unfolding contains trim_space
set_exposure_mode-validate_expose_example =
    set_exposure_mode-validate_expose with_email "direct" validate_expose-with_email refl
      (λ _. refl)
