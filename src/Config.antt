-- ===== src/Config.antt =====
-- internal/config/config.go and plex.go: the project configuration, its defaults, and the methods
-- that read or change it. A nil map is the empty map here, except for `active_services`: nil is `none`.
pub mod Patterns
pub mod Checks
pub mod Validate
mod Tests
use sdbx.Base.{
  ℕ, String, Bool, true, false, List, [], ◌∷◌, ◌==◌, ◌!=◌, ◌&&◌, ◌||◌, not, ◌++◌, keep, any,
  if◌then◌else◌, Option, none,
}
use sdbx.Base.Int.{ℤ, pos}
use sdbx.Base.Maps.{Map}

abbrev pub expose_mode_cloudflared : String
expose_mode_cloudflared = "cloudflared"

abbrev pub expose_mode_direct : String
expose_mode_direct = "direct"

abbrev pub expose_mode_lan : String
expose_mode_lan = "lan"

abbrev pub tunnel_protocol_http2 : String
tunnel_protocol_http2 = "http2"

abbrev pub tunnel_protocol_quic : String
tunnel_protocol_quic = "quic"

abbrev pub tunnel_protocol_auto : String
tunnel_protocol_auto = "auto"

abbrev pub routing_strategy_path : String
routing_strategy_path = "path"

abbrev pub routing_strategy_subdomain : String
routing_strategy_subdomain = "subdomain"

abbrev pub auth_factor_one : String
auth_factor_one = "one_factor"

abbrev pub auth_factor_two : String
auth_factor_two = "two_factor"

pub record TlsConfig : Type 0 where
  pub provider : String
  pub email : String
  pub cert_file : String
  pub key_file : String

pub record ExposeConfig : Type 0 where
  pub mode : String
  pub tls : TlsConfig
  pub tunnel_protocol : String

pub record RoutingConfig : Type 0 where
  pub strategy : String
  pub base_domain : String

pub record AuthenticationConfig : Type 0 where
  pub factor : String

pub record ServiceOverride : Type 0 where
  pub routing : String
  pub subdomain : String
  pub path : String

pub record PlexConfig : Type 0 where
  pub hardware_device : String
  pub amd_vaapi : Bool
  pub lan_address : String
  pub lan_port : ℤ

pub record Config : Type 0 where
  pub domain : String
  pub timezone : String
  pub expose : ExposeConfig
  pub routing : RoutingConfig
  pub auth : AuthenticationConfig
  pub config_path : String
  pub data_path : String
  pub downloads_path : String
  pub media_path : String
  pub secrets_path : String
  pub plex_enabled : Bool
  pub jellyfin_enabled : Bool
  pub plex : PlexConfig
  pub puid : ℤ
  pub pgid : ℤ
  pub umask : String
  pub vpn_enabled : Bool
  pub vpn_provider : String
  pub vpn_username : String
  pub vpn_country : String
  pub torrent_port : ℤ
  pub addons : List String
  pub services : Map ServiceOverride
  pub admin_user : String
  pub admin_password_hash : String
  pub active_services : Option (Map Bool)
  pub project_dir : String
  pub expose_mode : String

abbrev pub default_config : Config
default_config = record {
  domain = "sdbx.example.com";
  timezone = "Europe/Paris";
  expose = record {
    mode = expose_mode_lan;
    tls = record { provider = ""; email = ""; cert_file = ""; key_file = "" };
    tunnel_protocol = tunnel_protocol_http2;
  };
  routing = record { strategy = "subdomain"; base_domain = "sdbx" };
  auth = record { factor = auth_factor_one };
  config_path = "./configs";
  data_path = "./data";
  downloads_path = "./data/downloads";
  media_path = "./data/media";
  secrets_path = "./secrets";
  plex_enabled = false;
  jellyfin_enabled = false;
  plex = record { hardware_device = ""; amd_vaapi = false; lan_address = ""; lan_port = pos 0 };
  puid = pos 1000;
  pgid = pos 1000;
  umask = "002";
  vpn_enabled = false;
  vpn_provider = "";
  vpn_username = "";
  vpn_country = "";
  torrent_port = pos 6881;
  addons = [];
  services = [];
  admin_user = "";
  admin_password_hash = "";
  active_services = none;
  project_dir = "";
  expose_mode = "";
}

unfoldable pub set_exposure_mode : String → Config → Config
set_exposure_mode mode c =
    if mode == expose_mode_direct
    then record c {
      expose = record c.expose { mode = mode; tls = record c.expose.tls { provider = "acme" } };
    }
    else record c {
      expose = record c.expose {
        mode = mode;
        tls = record c.expose.tls { provider = ""; email = "" };
      };
    }

unfoldable pub effective_tunnel_protocol : Config → String
effective_tunnel_protocol c =
    if c.expose.tunnel_protocol == "" then tunnel_protocol_http2 else c.expose.tunnel_protocol

unfoldable pub contains : List String → String → Bool
contains [] val = false
contains (item ∷ slice) val = item == val || contains slice val

unfoldable pub is_addon_enabled : Config → String → Bool
unfolding contains
is_addon_enabled c addon = contains c.addons addon

unfoldable pub enable_addon : String → Config → Config
enable_addon addon c =
    if not (is_addon_enabled c addon) then record c { addons = c.addons ++ (addon ∷ []) } else c

unfoldable pub disable_addon : String → Config → Config
disable_addon addon c = record c { addons = keep (λ a. a != addon) c.addons }

unfoldable pub needs_tls : Config → Bool
needs_tls c = c.expose.mode == expose_mode_direct

unfoldable pub is_cloudflared : Config → Bool
is_cloudflared c = c.expose.mode == expose_mode_cloudflared

unfoldable pub is_lan_mode : Config → Bool
is_lan_mode c = c.expose.mode == expose_mode_lan

-- The two `if` statements of the function, in turn.
default_provider : ExposeConfig → ExposeConfig
default_provider e =
    if e.mode == expose_mode_direct && e.tls.provider == ""
    then record e { tls = record e.tls { provider = "acme" } }
    else e

drop_provider : ExposeConfig → ExposeConfig
drop_provider e =
    if e.mode != expose_mode_direct && e.tls.provider == "acme"
    then record e { tls = record e.tls { provider = "" } }
    else e

unfoldable pub normalize_legacy_tls : Config → Config
unfolding default_provider drop_provider
normalize_legacy_tls c = record c { expose = drop_provider (default_provider c.expose) }

-- The steps of `Parse` between decoding and validation, for the keys that the file holds.
unfoldable pub migrate : Bool → Bool → Config → Config
unfolding normalize_legacy_tls
migrate has_plex has_jellyfin c =
    let plex = if not has_plex && not has_jellyfin then record c { plex_enabled = true } else c in
    normalize_legacy_tls (
      if plex.expose_mode != "" && plex.expose.mode == ""
      then record plex { expose = record plex.expose { mode = plex.expose_mode } }
      else plex)
