-- ===== src/Settings/Tests.antt =====
-- Changes of settings on a default project, and the witnesses of the theorems on them.
use sdbx.Generator.{Generator, planned, activate_config_services}
use sdbx.Base.Maps.{lookup}
use sdbx.Config.Patterns.{
  identifier_regex, admin_user_regex, umask_regex, domain_regex, is_safe_route_path,
  drm_render_device_pattern,
}
use sdbx.Base.Paths.{clean}
use sdbx.Base.{String, true, false, List, [], ◌∷◌, none, some, ok, err, ◌≡◌, refl, trim_space, ◌==◌}
use sdbx.Config.{Config, default_config, set_exposure_mode, effective_tunnel_protocol, contains}
use sdbx.Config.Checks.{
  Host, validate_safe_scalar, validate_managed_path, validate_plex, validate_domain,
  validate_expose, validate_routing,
}
use sdbx.Config.Validate.{
  validate, validate_vpn, validate_paths, validate_identity, validate_scalars, validate_credentials,
  validate_addons, validate_override,
}
use sdbx.Registry.Types.Resolved.{other_cause, ResolutionGraph}
use sdbx.Registry.Samples.{catalog, authelia, entry}
use sdbx.Settings.{
  regenerate_failed, generator_failed, vpn_not_acknowledged, apply, setting_of, apply_setting,
  values, value,
}
use sdbx.Settings.Manager.{
  Manager, check_vpn, ready, relocked, settle, regenerate_locked, regenerate, set_changed,
  set_ready, set, after_plan,
}
use sdbx.Settings.Strconv.{parse_bool}
use sdbx.Settings.Store.{IsStored, apply-IsStored}
use sdbx.Settings.Outcome.{IsChanged, set-IsChanged, set_restores}

abbrev host : Host
host = record {
  load_location = λ zone. zone == "Europe/Paris";
  parse_address = λ email. some email;
  parse_addr = λ _. none;
}

-- What `Plan` resolves in the runs: a graph of one service.
abbrev graph : ResolutionGraph
graph = record {
  services = ("authelia", entry "authelia" authelia []) ∷ [];
  order = "authelia" ∷ [];
  errors = [];
  warnings = [];
}

abbrev Domains : Type 0
Domains = List String

abbrev writing : Generator (Unit {0}) (Unit {0}) Domains
writing = record {
  generate_runtime_files = λ c dir catalog files. (ok tt, none, files);
  regenerate_runtime_with_updated_lock =
      λ c dir catalog lock version image files. (ok lock, some graph, c.domain ∷ files);
}

abbrev full : Generator (Unit {0}) (Unit {0}) Domains
full = record writing {
  regenerate_runtime_with_updated_lock =
      λ c dir catalog lock version image files. (err (other_cause "disk full"), some graph, files);
}

abbrev manager : Manager (Unit {0}) (Unit {0})
manager = record {
  project_dir = "/srv/sdbx";
  config = some default_config;
  registry = some catalog;
  lock = some tt;
  cli_version = "1.0.0";
  image_resolver = some tt;
  allow_unprotected_downloads = false;
}

setting : Unit {0}
unfolding set set_ready set_changed settle regenerate regenerate_locked relocked ready check_vpn
    apply apply_setting setting_of parse_bool set_exposure_mode values value validate validate_plex
    validate_domain validate_expose validate_routing validate_vpn validate_paths
    validate_managed_path validate_identity validate_scalars validate_safe_scalar
    validate_credentials validate_addons validate_override clean trim_space identifier_regex
    admin_user_regex umask_regex domain_regex is_safe_route_path drm_render_device_pattern contains
    lookup effective_tunnel_protocol after_plan planned activate_config_services
setting = tt

unprotected_test :
    (set host writing "vpn_enabled" "false" manager []).result ≡ err vpn_not_acknowledged
unfolding setting
unprotected_test = refl

set_restores_example : (set host full "domain" "media.example.com" manager []).manager ≡ manager
unfolding setting
set_restores_example =
    set_restores host full "domain" "media.example.com" manager []
      (regenerate_failed (generator_failed (other_cause "disk full"))) refl

set-IsChanged_example :
    IsChanged host writing "domain" "media.example.com" manager []
      (set host writing "domain" "media.example.com" manager [])
unfolding setting
set-IsChanged_example =
    set-IsChanged host writing "domain" "media.example.com" manager []
      (record { key = "domain"; value = "media.example.com"; regenerated = true }) refl

abbrev tunnelled : Config
tunnelled = set_exposure_mode "cloudflared" default_config

apply-IsStored_example : IsStored default_config "expose_mode" "cloudflared" tunnelled
unfolding setting
apply-IsStored_example = apply-IsStored default_config "expose_mode" "cloudflared" tunnelled refl
