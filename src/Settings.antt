-- ===== src/Settings.antt =====
-- internal/settings/manager.go: reading and changing single settings of a project.
pub mod Strconv
pub mod Manager
pub mod Store
pub mod Outcome
mod Tests
use sdbx.Base.{
  ℕ, String, Bool, true, false, ◌==◌, not, ◌&&◌, ◌||◌, List, [], ◌∷◌, Option, none, some, Result,
  ok, err, Check, fine, ◌>>◌, ◌>>=◌, trim_space, if◌then◌else◌,
}
use sdbx.Base.Int.{ℤ, pos, negsuc}
use sdbx.Base.Maps.{Map, lookup}
use sdbx.Config.{Config, PlexConfig, set_exposure_mode, effective_tunnel_protocol}
use sdbx.Config.Checks.{Host, ValidationError}
use sdbx.Config.Validate.{validate}
use sdbx.Registry.Types.Resolved.{Cause}
use sdbx.Registry.Resolver.{Catalog}
use sdbx.Settings.Strconv.{parse_bool, atoi}

-- The arms of the switch of `apply`.
pub data Setting : Type 0 where
  domain timezone plex_enabled jellyfin_enabled plex_hardware_device plex_amd_vaapi : Setting
  plex_lan_address plex_lan_port expose_mode expose_tls_email expose_tunnel_protocol : Setting
  routing_strategy routing_base_domain auth_factor config_path data_path downloads_path : Setting
  media_path secrets_path puid pgid umask vpn_enabled vpn_provider vpn_country : Setting
  torrent_peer_port : Setting

-- What an `interface{}` of `Values` holds.
pub data SettingValue : Type 0 where
  text : String → SettingValue
  flag : Bool → SettingValue
  number : ℤ → SettingValue
  names : List String → SettingValue

pub data Error : Type 0 where
  project_directory_required config_required registry_required : Error
  not_boolean not_integer invalid_key : String → Error
  vpn_not_acknowledged : Error
  invalid_config : ValidationError → Error
  lock_required lock_requires_version_and_resolver : Error
  regenerate_failed : Error → Error
  generator_failed : Cause → Error

-- The labels of the switch, in turn; three settings have a second one.
abbrev pub labels : Map Setting
labels =
    ("domain", domain)
    ∷ ("timezone", timezone)
    ∷ ("plex_enabled", plex_enabled)
    ∷ ("jellyfin_enabled", jellyfin_enabled)
    ∷ ("plex.hardware_device", plex_hardware_device)
    ∷ ("plex.amd_vaapi", plex_amd_vaapi)
    ∷ ("plex.lan_address", plex_lan_address)
    ∷ ("plex.lan_port", plex_lan_port)
    ∷ ("expose_mode", expose_mode)
    ∷ ("expose.mode", expose_mode)
    ∷ ("expose.tls.email", expose_tls_email)
    ∷ ("expose.tunnel_protocol", expose_tunnel_protocol)
    ∷ ("routing_strategy", routing_strategy)
    ∷ ("routing.strategy", routing_strategy)
    ∷ ("routing_base_domain", routing_base_domain)
    ∷ ("routing.base_domain", routing_base_domain)
    ∷ ("auth.factor", auth_factor)
    ∷ ("config_path", config_path)
    ∷ ("data_path", data_path)
    ∷ ("downloads_path", downloads_path)
    ∷ ("media_path", media_path)
    ∷ ("secrets_path", secrets_path)
    ∷ ("puid", puid)
    ∷ ("pgid", pgid)
    ∷ ("umask", umask)
    ∷ ("vpn_enabled", vpn_enabled)
    ∷ ("vpn_provider", vpn_provider)
    ∷ ("vpn_country", vpn_country)
    ∷ ("torrent_peer_port", torrent_peer_port)
    ∷ []

unfoldable pub setting_of : String → Option Setting
unfolding lookup
setting_of key = lookup key labels

abbrev pub is_zero : ℤ → Bool
is_zero (pos ℕ.zero) = true
is_zero (pos (ℕ.suc n)) = false
is_zero (negsuc n) = false

unfoldable pub effective_lan_port : ℤ → ℤ
effective_lan_port port = if is_zero port then pos 32400 else port

unfoldable pub values : Option Config → Map SettingValue
values none = []
values (some c) =
    ("domain", text c.domain)
    ∷ ("timezone", text c.timezone)
    ∷ ("plex_enabled", flag c.plex_enabled)
    ∷ ("jellyfin_enabled", flag c.jellyfin_enabled)
    ∷ ("plex.hardware_device", text c.plex.hardware_device)
    ∷ ("plex.amd_vaapi", flag c.plex.amd_vaapi)
    ∷ ("plex.lan_address", text c.plex.lan_address)
    ∷ ("plex.lan_port", number (effective_lan_port c.plex.lan_port))
    ∷ ("expose.mode", text c.expose.mode)
    ∷ ("expose.tunnel_protocol", text (effective_tunnel_protocol c))
    ∷ ("expose.tls.email", text c.expose.tls.email)
    ∷ ("routing.strategy", text c.routing.strategy)
    ∷ ("routing.base_domain", text c.routing.base_domain)
    ∷ ("auth.factor", text c.auth.factor)
    ∷ ("config_path", text c.config_path)
    ∷ ("data_path", text c.data_path)
    ∷ ("downloads_path", text c.downloads_path)
    ∷ ("media_path", text c.media_path)
    ∷ ("secrets_path", text c.secrets_path)
    ∷ ("puid", number c.puid)
    ∷ ("pgid", number c.pgid)
    ∷ ("umask", text c.umask)
    ∷ ("vpn_enabled", flag c.vpn_enabled)
    ∷ ("vpn_provider", text c.vpn_provider)
    ∷ ("vpn_country", text c.vpn_country)
    ∷ ("torrent_peer_port", number c.torrent_port)
    ∷ ("addons", names c.addons)
    ∷ []

unfoldable pub value : Option Config → String → Option SettingValue
value cfg key = lookup key (values cfg)

with_flag : String → Option Bool → (Bool → Config) → Result Error Config
with_flag key none update = err (not_boolean key)
with_flag key (some parsed) update = ok (update parsed)

with_number : String → Option ℤ → (ℤ → Config) → Result Error Config
with_number key none update = err (not_integer key)
with_number key (some parsed) update = ok (update parsed)

-- One arm of the switch.
unfoldable pub apply_setting : Setting → Config → String → Result Error Config
unfolding with_flag with_number
apply_setting domain c v = ok (record c { domain = v })
apply_setting timezone c v = ok (record c { timezone = v })
apply_setting plex_enabled c v =
    with_flag "plex_enabled" (parse_bool v) (λ b. record c { plex_enabled = b })
apply_setting jellyfin_enabled c v =
    with_flag "jellyfin_enabled" (parse_bool v) (λ b. record c { jellyfin_enabled = b })
apply_setting plex_hardware_device c v =
    ok (record c { plex = record c.plex { hardware_device = v } })
apply_setting plex_amd_vaapi c v =
    with_flag "plex.amd_vaapi" (parse_bool v)
      (λ b. record c { plex = record c.plex { amd_vaapi = b } })
apply_setting plex_lan_address c v = ok (record c { plex = record c.plex { lan_address = v } })
apply_setting plex_lan_port c v =
    with_number "plex.lan_port" (atoi v) (λ n. record c { plex = record c.plex { lan_port = n } })
apply_setting expose_mode c v = ok (set_exposure_mode v c)
apply_setting expose_tls_email c v =
    ok
      (record c { expose = record c.expose { tls = record c.expose.tls { email = trim_space v } } })
apply_setting expose_tunnel_protocol c v =
    ok (record c { expose = record c.expose { tunnel_protocol = v } })
apply_setting routing_strategy c v = ok (record c { routing = record c.routing { strategy = v } })
apply_setting routing_base_domain c v =
    ok (record c { routing = record c.routing { base_domain = v } })
apply_setting auth_factor c v = ok (record c { auth = record { factor = v } })
apply_setting config_path c v = ok (record c { config_path = v })
apply_setting data_path c v = ok (record c { data_path = v })
apply_setting downloads_path c v = ok (record c { downloads_path = v })
apply_setting media_path c v = ok (record c { media_path = v })
apply_setting secrets_path c v = ok (record c { secrets_path = v })
apply_setting puid c v = with_number "puid" (atoi v) (λ n. record c { puid = n })
apply_setting pgid c v = with_number "pgid" (atoi v) (λ n. record c { pgid = n })
apply_setting umask c v = ok (record c { umask = v })
apply_setting vpn_enabled c v =
    with_flag "vpn_enabled" (parse_bool v) (λ b. record c { vpn_enabled = b })
apply_setting vpn_provider c v = ok (record c { vpn_provider = v })
apply_setting vpn_country c v = ok (record c { vpn_country = v })
apply_setting torrent_peer_port c v =
    with_number "torrent_peer_port" (atoi v) (λ n. record c { torrent_port = n })

unfoldable pub apply : Config → String → String → Result Error Config
apply c key v = elim (setting_of key) [
  | none ↦ err (invalid_key key)
  | some setting ↦ apply_setting setting c v
]
