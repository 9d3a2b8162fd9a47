-- ===== src/Routing/Tests.antt =====
-- The routing of two services under an accepted configuration with an override.
use sdbx.Base.{◌≡◌, ◌↔◌, refl, [], ◌∷◌, ◌==◌, none, some, ok, trim_space}
use sdbx.Base.Maps.{lookup}
use sdbx.Base.Paths.{clean}
use sdbx.Config.{Config, expose_mode_lan, default_config, contains}
use sdbx.Config.Patterns.{
  identifier_regex, admin_user_regex, umask_regex, domain_regex, is_safe_route_path,
  drm_render_device_pattern,
}
use sdbx.Config.Checks.{
  Host, validate_safe_scalar, validate_managed_path, validate_plex, validate_domain,
  validate_expose, validate_routing,
}
use sdbx.Config.Validate.{
  validate_vpn, validate_paths, validate_identity, validate_scalars, validate_credentials,
  validate_addons, validate_override, validate,
}
use sdbx.Registry.Samples.{authelia, traefik}
use sdbx.Routing.{strategy, subdomain, path, hostname, shared_hostname, url, rule}
use sdbx.Settings.{effective_lan_port}
use sdbx.Registry.Validator.Report.{decimal}
use sdbx.Routing.Plex.{
  plex_advertise_urls, join_urls, lan_binding, join_host_port, plex_advertise_urls_iff,
}
use sdbx.Routing.Agreement.{Agree, url-rule}

abbrev host : Host
host = record {
  load_location = λ zone. zone == "Europe/Paris";
  parse_address = λ email. some email;
  parse_addr = λ _. none;
}

abbrev with_override : Config
with_override = record default_config {
  services = ("authelia", record { routing = "path"; subdomain = ""; path = "/login" }) ∷ [];
}

accepted : validate host with_override ≡ ok tt
unfolding validate validate_plex validate_domain validate_expose validate_routing validate_vpn
    validate_paths validate_identity validate_scalars validate_credentials validate_addons
    validate_override validate_safe_scalar validate_managed_path identifier_regex admin_user_regex
    umask_regex domain_regex is_safe_route_path drm_render_device_pattern contains clean trim_space
accepted = refl

url-override : url with_override authelia ≡ "https://sdbx.sdbx.example.com/login"
unfolding url strategy hostname shared_hostname path lookup
url-override = refl

rule-default : rule with_override traefik ≡ "Host(`traefik.sdbx.example.com`)"
unfolding rule strategy hostname subdomain lookup
rule-default = refl

url-rule_example : Agree (url with_override authelia) (rule with_override authelia)
url-rule_example = url-rule with_override authelia

plex_test :
    plex_advertise_urls
      (record default_config {
        domain = "example.com";
        plex = record default_config.plex { lan_address = "fd00::10" };
      })
      traefik
    ≡ "http://[fd00::10]:32400/"
unfolding plex_advertise_urls join_urls lan_binding join_host_port effective_lan_port decimal
plex_test = refl

plex_advertise_urls_iff_example :
    (plex_advertise_urls with_override authelia ≡ "")
    ↔ ((with_override.plex.lan_address ≡ "") × (with_override.expose.mode ≡ expose_mode_lan))
plex_advertise_urls_iff_example = plex_advertise_urls_iff with_override authelia
