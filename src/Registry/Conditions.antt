-- ===== src/Registry/Conditions.antt =====
-- internal/registry/conditions.go: which services and dependencies a configuration activates.
pub mod Laws
use sdbx.Base.{
  ℕ, suc, ◌+◌, String, Bool, true, false, ◌≡◌, refl, ◌≢◌, ◌⊎◌, inl, inr, ◌==◌, ◌!=◌, ◌&&◌, ◌||◌,
  not, List, [], ◌∷◌, Option, none, some, nat_eq, arith, eq_iff, trim_space, if◌then◌else◌,
}
use sdbx.Config.{
  Config, default_config, contains, expose_mode_lan, expose_mode_direct, expose_mode_cloudflared,
}
use sdbx.Registry.Types.{Conditions}

abbrev vpn_on : String
vpn_on = "{{ .Config.VPNEnabled }}"

abbrev vpn_off : String
vpn_off = "{{ not .Config.VPNEnabled }}"

abbrev expose_lan : String
expose_lan = "{{ eq .Config.Expose.Mode \"lan\" }}"

abbrev expose_not_lan : String
expose_not_lan = "{{ ne .Config.Expose.Mode \"lan\" }}"

abbrev expose_direct : String
expose_direct = "{{ eq .Config.Expose.Mode \"direct\" }}"

abbrev expose_not_direct : String
expose_not_direct = "{{ ne .Config.Expose.Mode \"direct\" }}"

abbrev expose_tunnel : String
expose_tunnel = "{{ eq .Config.Expose.Mode \"cloudflared\" }}"

abbrev expose_not_tunnel : String
expose_not_tunnel = "{{ ne .Config.Expose.Mode \"cloudflared\" }}"

abbrev expose_host_ports : String
expose_host_ports = "{{ or (eq .Config.Expose.Mode \"lan\") (eq .Config.Expose.Mode \"direct\") }}"

abbrev routing_path : String
routing_path = "{{ eq .Config.Routing.Strategy \"path\" }}"

abbrev routing_subdomain : String
routing_subdomain = "{{ eq .Config.Routing.Strategy \"subdomain\" }}"

abbrev plex_hardware : String
plex_hardware = "{{ ne .Config.Plex.HardwareDevice \"\" }}"

abbrev plex_lan : String
plex_lan = "{{ ne .Config.Plex.LANBinding \"\" }}"

abbrev plex_amd_vaapi : String
plex_amd_vaapi = "{{ .Config.Plex.AMDVAAPI }}"

abbrev plex_advertise : String
plex_advertise = "{{ ne .Config.Plex.AdvertiseURLs \"\" }}"

abbrev pub supported_dependency_conditions : List String
supported_dependency_conditions =
    vpn_on ∷ vpn_off ∷ expose_lan ∷ expose_not_lan ∷ expose_direct ∷ expose_not_direct
    ∷ expose_tunnel ∷ expose_not_tunnel ∷ expose_host_ports ∷ []

abbrev pub supported_catalog_conditions : List String
supported_catalog_conditions =
    vpn_on ∷ vpn_off ∷ expose_lan ∷ expose_not_lan ∷ expose_direct ∷ expose_not_direct
    ∷ expose_tunnel ∷ expose_not_tunnel ∷ expose_host_ports ∷ routing_path ∷ routing_subdomain
    ∷ plex_hardware ∷ plex_lan ∷ plex_amd_vaapi ∷ plex_advertise ∷ []

unfoldable pub canonical_catalog_condition : String → String
canonical_catalog_condition condition = trim_space condition

unfoldable pub is_supported_catalog_condition : String → Bool
is_supported_catalog_condition condition =
    contains supported_catalog_conditions (canonical_catalog_condition condition)

unfoldable pub is_supported_dependency_condition : String → Bool
is_supported_dependency_condition condition =
    contains supported_dependency_conditions (canonical_catalog_condition condition)

abbrev one_if : Bool → ℕ
one_if b = if b then 1 else 0

unfoldable pub selectors : Conditions → ℕ
selectors c = one_if c.always + one_if c.require_addon + one_if (c.require_config != "")

-- The switch on the configuration selector.
unfoldable pub require_config_holds : String → Config → Bool
require_config_holds selector cfg =
    if selector == "vpn_enabled"
    then cfg.vpn_enabled
    else if selector == "cloudflared"
    then cfg.expose.mode == expose_mode_cloudflared
    else if selector == "plex_enabled"
    then cfg.plex_enabled
    else if selector == "jellyfin_enabled"
    then cfg.jellyfin_enabled
    else false

-- The configuration is a pointer, and a nil one matches nothing.
unfoldable pub matches_activation_conditions : Conditions → Option Config → Bool
unfolding selectors require_config_holds
matches_activation_conditions conditions none = false
matches_activation_conditions conditions (some cfg) =
    if not (nat_eq (selectors conditions) 1)
    then false
    else if conditions.always || conditions.require_addon
    then true
    else require_config_holds conditions.require_config cfg

-- The switch of `evaluateDependencyCondition`, on the canonical condition.
unfoldable pub dependency_condition_holds : String → Config → Bool
dependency_condition_holds condition cfg =
    if condition == vpn_on
    then cfg.vpn_enabled
    else if condition == vpn_off
    then not cfg.vpn_enabled
    else if condition == expose_lan
    then cfg.expose.mode == expose_mode_lan
    else if condition == expose_not_lan
    then cfg.expose.mode != expose_mode_lan
    else if condition == expose_direct
    then cfg.expose.mode == expose_mode_direct
    else if condition == expose_not_direct
    then cfg.expose.mode != expose_mode_direct
    else if condition == expose_tunnel
    then cfg.expose.mode == expose_mode_cloudflared
    else if condition == expose_not_tunnel
    then cfg.expose.mode != expose_mode_cloudflared
    else if condition == expose_host_ports
    then cfg.expose.mode == expose_mode_lan || cfg.expose.mode == expose_mode_direct
    else false

unfoldable pub evaluate_dependency_condition : String → Option Config → Bool
unfolding dependency_condition_holds
evaluate_dependency_condition condition none = false
evaluate_dependency_condition condition (some cfg) =
    dependency_condition_holds (canonical_catalog_condition condition) cfg

-- A service is active exactly when one selector is set and that selector holds.
pub data Activates (c : Conditions) (cfg : Config) : Type 0 where
  always : c.always ≡ true → c.require_addon ≡ false → c.require_config ≡ "" → Activates c cfg
  addon : c.always ≡ false → c.require_addon ≡ true → c.require_config ≡ "" → Activates c cfg
  by_config :
      c.always ≡ false
      → c.require_addon ≡ false
      → c.require_config ≢ ""
      → require_config_holds c.require_config cfg ≡ true
      → Activates c cfg
