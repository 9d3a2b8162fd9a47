-- ===== src/Settings/Store.antt =====
-- internal/settings/manager.go: the settings as a map from keys to values, which `apply` updates.
use sdbx.Base.{
  String, Bool, true, false, ◌==◌, not, ◌&&◌, ◌||◌, [], ◌∷◌, Option, none, some, Result, ok, err,
  ◌≡◌, ◌≢◌, refl, sym, ap, ◌∙◌, inl, inr, arith, eq_iff, Bool-cases, trim_space, if◌then◌else◌,
  Option-cases, ok-injective, err-ne-ok,
}
use mathlib.Core.Path.{subst}
use sdbx.Base.Int.{ℤ}
use sdbx.Base.Maps.{Map, lookup}
use sdbx.Config.{
  Config, set_exposure_mode, effective_tunnel_protocol, expose_mode_direct, tunnel_protocol_http2,
}
use sdbx.Settings.Strconv.{parse_bool, atoi}
use sdbx.Settings.{
  Setting, domain, timezone, plex_enabled, jellyfin_enabled, plex_hardware_device, plex_amd_vaapi,
  plex_lan_address, plex_lan_port, expose_mode, expose_tls_email, expose_tunnel_protocol,
  routing_strategy, routing_base_domain, auth_factor, config_path, data_path, downloads_path,
  media_path, secrets_path, puid, pgid, umask, vpn_enabled, vpn_provider, vpn_country,
  torrent_peer_port, SettingValue, text, flag, number, Error, not_boolean, not_integer, setting_of,
  values, value, with_flag, with_number, apply_setting, apply, effective_lan_port,
}

-- The key under which a setting is read.
abbrev pub key_of : Setting → String
key_of domain = "domain"
key_of timezone = "timezone"
key_of plex_enabled = "plex_enabled"
key_of jellyfin_enabled = "jellyfin_enabled"
key_of plex_hardware_device = "plex.hardware_device"
key_of plex_amd_vaapi = "plex.amd_vaapi"
key_of plex_lan_address = "plex.lan_address"
key_of plex_lan_port = "plex.lan_port"
key_of expose_mode = "expose.mode"
key_of expose_tls_email = "expose.tls.email"
key_of expose_tunnel_protocol = "expose.tunnel_protocol"
key_of routing_strategy = "routing.strategy"
key_of routing_base_domain = "routing.base_domain"
key_of auth_factor = "auth.factor"
key_of config_path = "config_path"
key_of data_path = "data_path"
key_of downloads_path = "downloads_path"
key_of media_path = "media_path"
key_of secrets_path = "secrets_path"
key_of puid = "puid"
key_of pgid = "pgid"
key_of umask = "umask"
key_of vpn_enabled = "vpn_enabled"
key_of vpn_provider = "vpn_provider"
key_of vpn_country = "vpn_country"
key_of torrent_peer_port = "torrent_peer_port"

abbrev flag_read : Option Bool → Option SettingValue
flag_read none = none
flag_read (some b) = some (flag b)

abbrev number_read : (ℤ → ℤ) → Option ℤ → Option SettingValue
number_read shown none = none
number_read shown (some n) = some (number (shown n))

-- How the text of a setting is read: `none` if it is refused. An empty tunnel protocol and the LAN
-- port 0 stand for their defaults.
abbrev pub read : Setting → String → Option SettingValue
read plex_enabled v = flag_read (parse_bool v)
read jellyfin_enabled v = flag_read (parse_bool v)
read plex_amd_vaapi v = flag_read (parse_bool v)
read vpn_enabled v = flag_read (parse_bool v)
read plex_lan_port v = number_read effective_lan_port (atoi v)
read puid v = number_read (λ n. n) (atoi v)
read pgid v = number_read (λ n. n) (atoi v)
read torrent_peer_port v = number_read (λ n. n) (atoi v)
read expose_tls_email v = some (text (trim_space v))
read expose_tunnel_protocol v = some (text (if v == "" then tunnel_protocol_http2 else v))
read domain v = some (text v)
read timezone v = some (text v)
read plex_hardware_device v = some (text v)
read plex_lan_address v = some (text v)
read expose_mode v = some (text v)
read routing_strategy v = some (text v)
read routing_base_domain v = some (text v)
read auth_factor v = some (text v)
read config_path v = some (text v)
read data_path v = some (text v)
read downloads_path v = some (text v)
read media_path v = some (text v)
read secrets_path v = some (text v)
read umask v = some (text v)
read vpn_provider v = some (text v)
read vpn_country v = some (text v)

-- The value of a key of a map replaced.
abbrev pub replace : String → SettingValue → Map SettingValue → Map SettingValue
replace key new [] = []
replace key new ((k, old) ∷ m) = (k, if k == key then new else old) ∷ replace key new m

abbrev is_mode : Setting → Bool
is_mode expose_mode = true
is_mode _ = false

-- Another exposure mode than direct drops the contact address.
abbrev pub drops_email : Setting → String → Bool
drops_email setting v = is_mode setting && not (v == expose_mode_direct)

abbrev pub also : Setting → String → Map SettingValue → Map SettingValue
also setting v m = if drops_email setting v then replace "expose.tls.email" (text "") m else m

-- A setting that is read as a value is written as that value, and nothing else changes.
abbrev IsWritten : Setting → String → Config → Option SettingValue → Result Error Config → Type 0
IsWritten setting v c none result = (e : Error) × (result ≡ err e)
IsWritten setting v c (some new) result =
    (after : Config) × (result ≡ ok after)
    × (values (some after) ≡ also setting v (replace (key_of setting) new (values (some c))))
    × (value (some after) (key_of setting) ≡ some new)

with_flag-IsWritten :
    (setting : Setting) (v key : String) (c : Config) (o : Option Bool) (update : Bool → Config)
    → ((b : Bool)
        → (values (some (update b))
            ≡ also setting v (replace (key_of setting) (flag b) (values (some c))))
          × (value (some (update b)) (key_of setting) ≡ some (flag b)))
    → IsWritten setting v c (flag_read o) (with_flag key o update)
unfolding with_flag
with_flag-IsWritten setting v key c none update h = (not_boolean key, refl)
with_flag-IsWritten setting v key c (some b) update h = (update b, refl, (h b).0, (h b).1)

with_number-IsWritten :
    (setting : Setting) (v key : String) (c : Config) (shown : ℤ → ℤ) (o : Option ℤ)
    (update : ℤ → Config)
    → ((n : ℤ)
        → (values (some (update n))
            ≡ also setting v (replace (key_of setting) (number (shown n)) (values (some c))))
          × (value (some (update n)) (key_of setting) ≡ some (number (shown n))))
    → IsWritten setting v c (number_read shown o) (with_number key o update)
unfolding with_number
with_number-IsWritten setting v key c shown none update h = (not_integer key, refl)
with_number-IsWritten setting v key c shown (some n) update h = (update n, refl, (h n).0, (h n).1)

apply_setting-IsWritten :
    (setting : Setting) (c : Config) (v : String)
    → IsWritten setting v c (read setting v) (apply_setting setting c v)
unfolding apply_setting values value lookup effective_tunnel_protocol set_exposure_mode
apply_setting-IsWritten domain c v = (_, refl, refl, refl)
apply_setting-IsWritten timezone c v = (_, refl, refl, refl)
apply_setting-IsWritten plex_hardware_device c v = (_, refl, refl, refl)
apply_setting-IsWritten plex_lan_address c v = (_, refl, refl, refl)
apply_setting-IsWritten expose_tls_email c v = (_, refl, refl, refl)
apply_setting-IsWritten expose_tunnel_protocol c v = (_, refl, refl, refl)
apply_setting-IsWritten routing_strategy c v = (_, refl, refl, refl)
apply_setting-IsWritten routing_base_domain c v = (_, refl, refl, refl)
apply_setting-IsWritten auth_factor c v = (_, refl, refl, refl)
apply_setting-IsWritten config_path c v = (_, refl, refl, refl)
apply_setting-IsWritten data_path c v = (_, refl, refl, refl)
apply_setting-IsWritten downloads_path c v = (_, refl, refl, refl)
apply_setting-IsWritten media_path c v = (_, refl, refl, refl)
apply_setting-IsWritten secrets_path c v = (_, refl, refl, refl)
apply_setting-IsWritten umask c v = (_, refl, refl, refl)
apply_setting-IsWritten vpn_provider c v = (_, refl, refl, refl)
apply_setting-IsWritten vpn_country c v = (_, refl, refl, refl)
apply_setting-IsWritten expose_mode c v = elim (Bool-cases (v == expose_mode_direct)) [
  | inl direct ↦ (set_exposure_mode v c, refl, rw direct refl, rw direct refl)
  | inr other ↦ (set_exposure_mode v c, refl, rw other refl, rw other refl)
]
apply_setting-IsWritten plex_enabled c v =
    with_flag-IsWritten plex_enabled v "plex_enabled" c (parse_bool v)
      (λ b. record c { plex_enabled = b }) (λ b. (refl, refl))
apply_setting-IsWritten jellyfin_enabled c v =
    with_flag-IsWritten jellyfin_enabled v "jellyfin_enabled" c (parse_bool v)
      (λ b. record c { jellyfin_enabled = b }) (λ b. (refl, refl))
apply_setting-IsWritten plex_amd_vaapi c v =
    with_flag-IsWritten plex_amd_vaapi v "plex.amd_vaapi" c (parse_bool v)
      (λ b. record c { plex = record c.plex { amd_vaapi = b } }) (λ b. (refl, refl))
apply_setting-IsWritten vpn_enabled c v =
    with_flag-IsWritten vpn_enabled v "vpn_enabled" c (parse_bool v)
      (λ b. record c { vpn_enabled = b }) (λ b. (refl, refl))
apply_setting-IsWritten plex_lan_port c v =
    with_number-IsWritten plex_lan_port v "plex.lan_port" c effective_lan_port (atoi v)
      (λ n. record c { plex = record c.plex { lan_port = n } }) (λ n. (refl, refl))
apply_setting-IsWritten puid c v =
    with_number-IsWritten puid v "puid" c (λ n. n) (atoi v) (λ n. record c { puid = n })
      (λ n. (refl, refl))
apply_setting-IsWritten pgid c v =
    with_number-IsWritten pgid v "pgid" c (λ n. n) (atoi v) (λ n. record c { pgid = n })
      (λ n. (refl, refl))
apply_setting-IsWritten torrent_peer_port c v =
    with_number-IsWritten torrent_peer_port v "torrent_peer_port" c (λ n. n) (atoi v)
      (λ n. record c { torrent_port = n }) (λ n. (refl, refl))

lookup-replace_other :
    (k x : String) (new : SettingValue) (m : Map SettingValue)
    → x ≢ k
    → lookup x (replace k new m) ≡ lookup x m
unfolding lookup
lookup-replace_other k x new [] h = refl
lookup-replace_other k x new ((j, old) ∷ m) h =
    ground (arith, lookup-replace_other k x new m h, eq_iff j k, eq_iff j x, eq_iff x k)

-- The keys that a change of a setting is seen at.
abbrev pub touches : Setting → String → String → Bool
touches setting v x = x == key_of setting || drops_email setting v && x == "expose.tls.email"

-- A configuration after the change of the setting that a label names: the setting reads as the value
-- that the text stands for, and every key that the change is not seen at reads as before.
pub record IsStored (c : Config) (key v : String) (after : Config) : Type 0 where
  pub setting : Setting
  pub label : setting_of key ≡ some setting
  pub new : SettingValue
  pub is_read : read setting v ≡ some new
  pub own : value (some after) (key_of setting) ≡ some new
  pub others : (x : String) → touches setting v x ≡ false → value (some after) x ≡ value (some c) x

-- What a change is seen at, for a key that it is not seen at.
lookup-also :
    (setting : Setting) (v x : String) (new : SettingValue) (m : Map SettingValue)
    → touches setting v x ≡ false
    → lookup x (also setting v (replace (key_of setting) new m)) ≡ lookup x m
lookup-also setting v x new m h = ground (
  arith,
  lookup-replace_other (key_of setting) x new m,
  lookup-replace_other "expose.tls.email" x (text "") (replace (key_of setting) new m),
  eq_iff x (key_of setting),
  eq_iff x "expose.tls.email",
)

stored :
    (setting : Setting) (c : Config) (key v : String) (o : Option SettingValue)
    (r : Result Error Config) (after : Config)
    → setting_of key ≡ some setting
    → read setting v ≡ o
    → IsWritten setting v c o r
    → r ≡ ok after
    → IsStored c key v after
unfolding value
stored setting c key v none r after label e (reason, failed) h = absurd (err-ne-ok (sym failed ∙ h))
stored setting c key v (some new) r after label e (written, done, update, own) h =
    let same = ok-injective (sym done ∙ h) in
    subst (IsStored c key v) same (record {
      setting = setting;
      label = label;
      new = new;
      is_read = e;
      own = own;
      others =
          λ x quiet. ap (lookup x) update ∙ lookup-also setting v x new (values (some c)) quiet;
    })

-- A change that `apply` makes is a change of the setting that the key names: it reads as the value
-- that the text stands for, and the other settings read as before. Only a change of the exposure mode
-- to another than direct is seen at a second key, that of the contact address.
pub apply-IsStored :
    (c : Config) (key v : String) (after : Config)
    → apply c key v ≡ ok after
    → IsStored c key v after
unfolding apply
apply-IsStored c key v after h = elim (Option-cases (setting_of key)) [
  | inl unknown ↦ absurd (err-ne-ok (rw (unknown, apply) at h))
  | inr (setting, label) ↦
      stored setting c key v (read setting v) (apply_setting setting c v) after label refl
        (apply_setting-IsWritten setting c v) (rw (label, apply) at h)
]
