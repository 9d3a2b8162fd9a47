-- ===== src/Config/Checks.antt =====
-- The parts of `Validate` in internal/config/config.go and plex.go up to the routing checks, one
-- definition for each group of checks. What the standard library reads from its databases is `Host`.
use sdbx.Base.{
  String, Bool, true, ◌&&◌, ◌||◌, not, List, [], ◌∷◌, Option, none, some, Message, plain, err,
  Check, fine, fail_if, ◌>>◌, ◌==◌, ◌!=◌, any, codes, is_control, trim_space, if◌then◌else◌,
}
use sdbx.Base.Int.{below, above}
use sdbx.Base.Paths.{Element, dotdot, clean}
use sdbx.Base.{codes_eq}
use sdbx.Config.{
  Config, PlexConfig, contains, effective_tunnel_protocol, expose_mode_direct,
  tunnel_protocol_http2, tunnel_protocol_quic, tunnel_protocol_auto, routing_strategy_path,
  auth_factor_one, auth_factor_two,
}
use sdbx.Config.Patterns.{identifier_regex, domain_regex, drm_render_device_pattern}

-- internal/config/errors.go
pub record ValidationError : Type 0 where
  pub field : String
  pub message : Message

abbrev pub invalid : String → String → ValidationError
invalid field message = record { field = field; message = plain message }

-- netip.Addr
pub record Addr : Type 0 where
  pub zone : String
  pub is_4in6 : Bool
  pub is_private : Bool
  pub is_loopback : Bool

-- time.LoadLocation, mail.ParseAddress and netip.ParseAddr
pub record Host : Type 0 where
  pub load_location : String → Bool
  pub parse_address : String → Option String
  pub parse_addr : String → Option Addr

-- The texts of the model are valid UTF-8, so the first check of the source never fails.
unfoldable pub validate_safe_scalar : String → String → Check ValidationError
unfolding is_control
validate_safe_scalar field value =
    fail_if (any is_control (codes value)) (invalid field "must not contain control characters")

-- The checks on an absolute path and on a relative one.
unfoldable pub managed_absolute : String → List Element → Check ValidationError
managed_absolute field [] = err (invalid field "must not be a filesystem root")
managed_absolute field (p ∷ ps) = fine

unfoldable pub managed_relative : String → List Element → Check ValidationError
managed_relative field [] = err (invalid field "must name a dedicated directory")
managed_relative field (p ∷ ps) =
    fail_if (codes_eq p dotdot)
      (invalid field "relative path must stay inside the project directory")

unfoldable pub validate_managed_path : String → String → Check ValidationError
unfolding managed_absolute managed_relative
validate_managed_path field value =
    let p = clean value in
    if p.rooted then managed_absolute field p.parts else managed_relative field p.parts

bad_addr : Option Addr → Bool
bad_addr none = true
bad_addr (some a) = a.zone != "" || a.is_4in6 || not a.is_private && not a.is_loopback

module _ (host : Host) where
  unfoldable pub validate_plex : PlexConfig → Check ValidationError
  unfolding bad_addr
  validate_plex p = do
    fail_if (p.hardware_device != "" && not (drm_render_device_pattern p.hardware_device)) (
        invalid "plex.hardware_device"
          "must be a canonical /dev/dri/renderD<number> device path or empty to disable")
    fail_if (p.amd_vaapi && p.hardware_device == "") (
        invalid "plex.amd_vaapi"
          "requires plex.hardware_device; the AMD compatibility package is opt-in")
    fail_if (p.lan_address != "" && bad_addr (host.parse_addr p.lan_address)) (
        invalid "plex.lan_address"
          "must be a private or loopback IP address, or empty to disable; wildcard and public addresses are not allowed")
    fail_if (below p.lan_port 0 || above p.lan_port 65535)
        (invalid "plex.lan_port" "must be between 1 and 65535, or 0 for the default 32400")

  unfoldable pub validate_domain : Config → Check ValidationError
  validate_domain c = do
    fail_if (c.domain == "") (invalid "domain" "domain is required")
    fail_if (not (domain_regex c.domain)) (invalid "domain" "invalid domain format")
    fail_if (c.timezone == "") (invalid "timezone" "timezone is required")
    fail_if (not (host.load_location c.timezone))
        (invalid "timezone" "must be a valid IANA time zone")

abbrev pub valid_expose_modes : List String
valid_expose_modes = "lan" ∷ "direct" ∷ "cloudflared" ∷ []

abbrev pub tunnel_protocols : List String
tunnel_protocols = tunnel_protocol_http2 ∷ tunnel_protocol_quic ∷ tunnel_protocol_auto ∷ []

-- The branch of direct exposure, and the other one.
unfoldable pub validate_tls : Config → Check ValidationError
validate_tls c =
    if c.expose.mode == expose_mode_direct
    then (do
      fail_if (c.expose.tls.provider != "acme")
          (invalid "expose.tls.provider" "must be acme when expose.mode is direct")
      fail_if (trim_space c.expose.tls.email == "")
          (invalid "expose.tls.email" "ACME contact email is required when expose.mode is direct"))
    else fail_if (c.expose.tls.provider != "")
        (invalid "expose.tls.provider" "must be empty unless expose.mode is direct")

unfoldable pub validate_expose : Config → Check ValidationError
unfolding validate_tls contains effective_tunnel_protocol
validate_expose c = do
  fail_if (not (contains valid_expose_modes c.expose.mode))
      (invalid "expose.mode" "must be one of: lan, direct, cloudflared")
  fail_if (not (contains tunnel_protocols (effective_tunnel_protocol c)))
      (invalid "expose.tunnel_protocol" "must be one of: http2, quic, auto")
  validate_tls c
  fail_if (c.expose.tls.cert_file != "" || c.expose.tls.key_file != "")
      (invalid "expose.tls" "custom certificate files are not supported in v1")

abbrev valid_routing_strategies : List String
valid_routing_strategies = "subdomain" ∷ "path" ∷ []

unfoldable pub validate_routing : Config → Check ValidationError
unfolding contains
validate_routing c = do
  fail_if (not (contains valid_routing_strategies c.routing.strategy))
      (invalid "routing.strategy" "must be one of: subdomain, path")
  fail_if (c.routing.strategy == routing_strategy_path && c.routing.base_domain == "")
      (invalid "routing.base_domain" "base_domain is required when using path routing")
  fail_if (c.routing.base_domain != "" && not (identifier_regex c.routing.base_domain))
      (invalid "routing.base_domain" "must be a valid DNS label")
  fail_if (c.auth.factor != auth_factor_one && c.auth.factor != auth_factor_two)
      (invalid "auth.factor" "must be one_factor or two_factor")
