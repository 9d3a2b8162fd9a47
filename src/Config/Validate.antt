-- ===== src/Config/Validate.antt =====
-- The later parts of `Validate` in internal/config/config.go, and the whole of it, in its order.
pub mod Addons
pub mod Changes
pub mod ManagedPaths
pub mod Sound
use sdbx.Base.{
  String, Bool, true, false, ◌≡◌, refl, ◌&&◌, ◌||◌, not, List, [], ◌∷◌, Option, none, some, Message,
  plain, Result, ok, err, Check, fine, fail_if, for_each, ◌>>◌, ◌==◌, ◌!=◌, ◌<>◌, any, codes,
  has_prefix, is_control, trim_space, if◌then◌else◌,
}
use sdbx.Base.Int.{ℤ, below, above}
use sdbx.Base.Maps.{Map}
use sdbx.Base.Paths.{CleanPath, Element, dotdot, clean}
use sdbx.Base.{codes_eq}
use sdbx.Config.{
  Config, PlexConfig, ServiceOverride, contains, effective_tunnel_protocol, default_config,
  expose_mode_direct, tunnel_protocol_http2, tunnel_protocol_quic, tunnel_protocol_auto,
  routing_strategy_path, routing_strategy_subdomain, auth_factor_one, auth_factor_two,
}
use sdbx.Config.Patterns.{
  identifier_regex, admin_user_regex, umask_regex, domain_regex, is_safe_route_path,
  drm_render_device_pattern,
}
use sdbx.Config.Checks.{
  ValidationError, invalid, Host, validate_safe_scalar, validate_managed_path, validate_plex,
  validate_domain, validate_expose, validate_routing,
}

unfoldable pub validate_vpn : Config → Check ValidationError
validate_vpn c = do
  fail_if (c.vpn_enabled && c.vpn_provider == "")
      (invalid "vpn_provider" "vpn_provider is required when VPN is enabled")
  fail_if (trim_space c.vpn_username != "") (
      invalid "vpn_username"
        "is no longer supported; move provider credentials to configs/gluetun/gluetun.env and remove this key")
  fail_if (below c.torrent_port 1 || above c.torrent_port 65535)
      (invalid "torrent_peer_port" "must be between 1 and 65535")

abbrev managed_paths : Config → List (String × String)
managed_paths c =
    ("config_path", c.config_path)
    ∷ ("data_path", c.data_path)
    ∷ ("downloads_path", c.downloads_path)
    ∷ ("media_path", c.media_path)
    ∷ ("secrets_path", c.secrets_path)
    ∷ []

unfoldable pub validate_paths : Config → Check ValidationError
validate_paths c = do
  fail_if (c.config_path == "") (invalid "config_path" "config_path cannot be empty")
  fail_if (c.data_path == "") (invalid "data_path" "data_path cannot be empty")
  fail_if (c.media_path == "") (invalid "media_path" "media_path cannot be empty")
  fail_if (c.downloads_path == "") (invalid "downloads_path" "downloads_path cannot be empty")
  fail_if (c.secrets_path == "") (invalid "secrets_path" "secrets_path cannot be empty")
  for_each (λ (p : String × String). validate_managed_path p.0 p.1) (managed_paths c)

unfoldable pub validate_identity : Config → Check ValidationError
validate_identity c = do
  fail_if (below c.puid 0 || above c.puid 65535) (invalid "puid" "must be between 0 and 65535")
  fail_if (below c.pgid 0 || above c.pgid 65535) (invalid "pgid" "must be between 0 and 65535")
  fail_if (not (umask_regex c.umask)) (invalid "umask" "must be a three- or four-digit octal mask")

abbrev scalars : Config → List (String × String)
scalars c =
    ("domain", c.domain)
    ∷ ("timezone", c.timezone)
    ∷ ("config_path", c.config_path)
    ∷ ("data_path", c.data_path)
    ∷ ("downloads_path", c.downloads_path)
    ∷ ("media_path", c.media_path)
    ∷ ("secrets_path", c.secrets_path)
    ∷ ("vpn_provider", c.vpn_provider)
    ∷ ("vpn_country", c.vpn_country)
    ∷ ("expose.tls.provider", c.expose.tls.provider)
    ∷ ("expose.tls.email", c.expose.tls.email)
    ∷ ("expose.tls.cert_file", c.expose.tls.cert_file)
    ∷ ("expose.tls.key_file", c.expose.tls.key_file)
    ∷ ("routing.base_domain", c.routing.base_domain)
    ∷ ("auth.factor", c.auth.factor)
    ∷ ("admin_user", c.admin_user)
    ∷ ("admin_password_hash", c.admin_password_hash)
    ∷ []

unfoldable pub validate_scalars : Config → Check ValidationError
validate_scalars c = for_each (λ (s : String × String). validate_safe_scalar s.0 s.1) (scalars c)

-- err != nil || address.Address != c.Expose.TLS.Email
not_plain : Option String → String → Bool
not_plain none email = true
not_plain (some address) email = address != email

unfoldable pub validate_credentials : Host → Config → Check ValidationError
unfolding not_plain has_prefix
validate_credentials host c = do
  fail_if
      (c.expose.tls.email != ""
        && not_plain (host.parse_address c.expose.tls.email) c.expose.tls.email)
      (invalid "expose.tls.email" "must be a plain email address")
  fail_if (c.admin_user != "" && not (admin_user_regex c.admin_user))
      (invalid "admin_user" "contains unsupported characters")
  fail_if
      (c.admin_password_hash != ""
        && not (has_prefix (codes c.admin_password_hash) (codes "$argon2id$")))
      (invalid "admin_password_hash" "must be an Argon2id hash")
  fail_if (c.vpn_provider != "" && not (identifier_regex c.vpn_provider))
      (invalid "vpn_provider" "contains unsupported characters")

-- The loop over the addons, with the names that it has seen.
unfoldable pub validate_addons : List String → List String → Check ValidationError
unfolding contains
validate_addons seen [] = fine
validate_addons seen (addon ∷ rest) =
    fail_if (not (identifier_regex addon)) (record {
      field = "addons";
      message = record { format = "invalid service name %q"; args = addon ∷ [] };
    })
    >> fail_if (contains seen addon) (record {
      field = "addons";
      message = record { format = "duplicate service %q"; args = addon ∷ [] };
    })
    >> validate_addons (addon ∷ seen) rest

-- One round of the loop over the service overrides.
unfoldable pub validate_override : String × ServiceOverride → Check ValidationError
validate_override (name, override) = do
  fail_if (not (identifier_regex name)) (record {
    field = "services";
    message = record { format = "invalid service name %q"; args = name ∷ [] };
  })
  validate_safe_scalar ("services." <> name <> ".routing") override.routing
  validate_safe_scalar ("services." <> name <> ".subdomain") override.subdomain
  validate_safe_scalar ("services." <> name <> ".path") override.path
  fail_if
      (override.routing != ""
        && override.routing != routing_strategy_path
        && override.routing != routing_strategy_subdomain)
      (invalid ("services." <> name <> ".routing") "must be path or subdomain")
  fail_if (override.subdomain != "" && not (identifier_regex override.subdomain))
      (invalid ("services." <> name <> ".subdomain") "must be a valid DNS label")
  fail_if (override.path != "" && not (is_safe_route_path override.path)) (
      invalid ("services." <> name <> ".path")
        "must be a clean absolute URL path using letters, digits, dot, underscore, tilde, or hyphen")

unfoldable pub validate : Host → Config → Check ValidationError
validate host c = do
  validate_plex host c.plex
  validate_domain host c
  validate_expose c
  validate_routing c
  validate_vpn c
  validate_paths c
  validate_identity c
  validate_scalars c
  validate_credentials host c
  validate_addons [] c.addons
  for_each validate_override c.services
