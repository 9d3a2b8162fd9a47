-- ===== src/Registry/Conditions/Laws.antt =====
-- When a service is active, and that unknown conditions match nothing.
use sdbx.Base.{String, true, ◌≡◌, ◌↔◌, some, eq_iff, arith, Bool-cases, inl, inr, eq_sym}
use sdbx.Config.{Config, contains}
use sdbx.Registry.Types.{Conditions}
use sdbx.Registry.Conditions.{
  Activates, always, addon, by_config, matches_activation_conditions, evaluate_dependency_condition,
  dependency_condition_holds, canonical_catalog_condition, is_supported_dependency_condition,
  supported_dependency_conditions, vpn_on, vpn_off, expose_lan, expose_not_lan, expose_direct,
  expose_not_direct, expose_tunnel, expose_not_tunnel, expose_host_ports,
}

Activates-of :
    (c : Conditions) (cfg : Config)
    → matches_activation_conditions c (some cfg) ≡ true
    → Activates c cfg
unfolding matches_activation_conditions
Activates-of c cfg h = elim (Bool-cases c.always) [
  | inl a ↦ always a (ground arith) (ground (arith, eq_iff c.require_config ""))
  | inr a ↦ elim (Bool-cases c.require_addon) [
    | inl r ↦ addon a r (ground (arith, eq_iff c.require_config ""))
    | inr r ↦ by_config a r (ground (arith, eq_iff c.require_config "")) (ground arith)
  ]
]

of-Activates :
    (c : Conditions) (cfg : Config)
    → Activates c cfg
    → matches_activation_conditions c (some cfg) ≡ true
unfolding matches_activation_conditions
of-Activates c cfg (always a r e) = ground (arith, eq_iff c.require_config "")
of-Activates c cfg (addon a r e) = ground (arith, eq_iff c.require_config "")
of-Activates c cfg (by_config a r e h) = ground (arith, eq_iff c.require_config "")

-- A service is activated exactly when one of its three selectors is set, the other two are not, and
-- the configuration selector, if it is the one, holds of the configuration.
pub matches_activation_conditions_iff :
    (c : Conditions) (cfg : Config)
    → (matches_activation_conditions c (some cfg) ≡ true) ↔ Activates c cfg
matches_activation_conditions_iff c cfg = (Activates-of c cfg, of-Activates c cfg)

switch_supported :
    (t : String) (cfg : Config)
    → dependency_condition_holds t cfg ≡ true
    → contains supported_dependency_conditions t ≡ true
unfolding contains dependency_condition_holds
switch_supported t cfg h =
    rw
      (
        eq_sym vpn_on t,
        eq_sym vpn_off t,
        eq_sym expose_lan t,
        eq_sym expose_not_lan t,
        eq_sym expose_direct t,
        eq_sym expose_not_direct t,
        eq_sym expose_tunnel t,
        eq_sym expose_not_tunnel t,
        eq_sym expose_host_ports t,
      )
      (ground arith)

-- A dependency condition that the validator does not support never holds, whatever the
-- configuration: evaluation fails closed.
pub evaluate_dependency_condition_supported :
    (condition : String) (cfg : Config)
    → evaluate_dependency_condition condition (some cfg) ≡ true
    → is_supported_dependency_condition condition ≡ true
unfolding evaluate_dependency_condition is_supported_dependency_condition contains
    dependency_condition_holds
evaluate_dependency_condition_supported condition cfg h =
    switch_supported (canonical_catalog_condition condition) cfg h
