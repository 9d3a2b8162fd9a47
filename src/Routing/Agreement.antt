-- ===== src/Routing/Agreement.antt =====
-- internal/routing/routing.go: the URL that is shown for a service and the rule that serves it agree.
use sdbx.Base.{
  String, ◌==◌, ◌≡◌, refl, ◌⊎◌, inl, inr, ok, arith, eq_iff, Bool-cases, ◌<>◌, [], ◌∷◌,
  for_each-eq-ok, All,
}
use sdbx.Base.Maps.{Map, lookup}
use sdbx.Config.{Config, ServiceOverride, routing_strategy_path, routing_strategy_subdomain}
use sdbx.Config.Checks.{Host, validate_routing}
use sdbx.Config.Validate.{validate_override, validate}
use sdbx.Config.Validate.Sound.{validate-Passed}
use sdbx.Registry.Types.{ServiceDefinition}
use sdbx.Routing.{strategy, override_or, hostname, path, url, rule}

-- A URL and a Traefik rule for the same host, and for the same path prefix if there is one.
abbrev pub Agree : String → String → Type 0
Agree u r =
    (h : String) × ((u ≡ ("https://" <> h)) × (r ≡ ("Host(`" <> h <> "`)"))
      ⊎ (p : String) × (u ≡ ("https://" <> h <> p))
        × (r ≡ ("Host(`" <> h <> "`) && PathPrefix(`" <> p <> "`)")))

-- The rule of a service serves the host, and the path if there is one, of its URL.
pub url-rule :
    (cfg : Config) (definition : ServiceDefinition)
    → Agree (url cfg definition) (rule cfg definition)
unfolding url rule
url-rule cfg definition = elim (Bool-cases (strategy cfg definition == routing_strategy_path)) [
  | inl e ↦ rw e (hostname cfg definition, inr (path cfg definition, refl, refl))
  | inr e ↦ rw e (hostname cfg definition, inl (refl, refl))
]

abbrev pub IsStrategy : String → Type 0
IsStrategy s = (s ≡ routing_strategy_path) ⊎ (s ≡ routing_strategy_subdomain)

abbrev HasStrategy : ServiceOverride → Type 0
HasStrategy o = (o.routing ≡ "") ⊎ IsStrategy o.routing

validate_override-HasStrategy :
    (name : String) (o : ServiceOverride) → validate_override (name, o) ≡ ok tt → HasStrategy o
unfolding validate_override
validate_override-HasStrategy name o h = ground (
  arith,
  eq_iff o.routing "",
  eq_iff o.routing routing_strategy_path,
  eq_iff o.routing routing_strategy_subdomain,
)

validate_routing-IsStrategy :
    (c : Config) → validate_routing c ≡ ok tt → IsStrategy c.routing.strategy
unfolding validate_routing
validate_routing-IsStrategy c h = ground (
  arith,
  eq_iff routing_strategy_path c.routing.strategy,
  eq_iff routing_strategy_subdomain c.routing.strategy,
)

override_or-IsStrategy :
    (name default : String) (services : Map ServiceOverride)
    → All (λ e. validate_override e ≡ ok tt) services
    → IsStrategy default
    → IsStrategy (override_or (lookup name services) (λ o. o.routing) default)
unfolding lookup
override_or-IsStrategy name default [] h d = d
override_or-IsStrategy name default ((key, o) ∷ services) (h, hs) d =
    let later = override_or-IsStrategy name default services hs d in
    elim (Bool-cases (key == name)) [
      | inl e ↦ rw e (elim (validate_override-HasStrategy key o h) [
        | inl unset ↦ rw unset d
        | inr known ↦ elim known [ inl k ↦ rw k (inl refl) | inr k ↦ rw k (inr refl) ]
      ])
      | inr e ↦ rw e later
    ]

-- Under an accepted configuration, every service is routed by a path or by a subdomain.
pub strategy-IsStrategy :
    (host : Host) (c : Config) (definition : ServiceDefinition)
    → validate host c ≡ ok tt
    → IsStrategy (strategy c definition)
unfolding strategy
strategy-IsStrategy host c definition h =
    let p = validate-Passed host c h in
    elim (Bool-cases definition.routing.force_subdomain) [
      | inl e ↦ rw e (inr refl)
      | inr e ↦ rw e (
          override_or-IsStrategy definition.metadata.name c.routing.strategy c.services
            (for_each-eq-ok validate_override c.services p.services)
            (validate_routing-IsStrategy c p.routing))
    ]
