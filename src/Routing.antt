-- ===== src/Routing.antt =====
-- internal/routing/routing.go: the host name, the URL and the Traefik rule of a routed service.

pub mod Agreement
pub mod Plex
mod Tests
use sdbx.Base.{String, ◌==◌, ◌!=◌, Option, none, some, ◌<>◌, if◌then◌else◌}
use sdbx.Base.Maps.{lookup}
use sdbx.Config.{Config, ServiceOverride, routing_strategy_path, routing_strategy_subdomain}
use sdbx.Registry.Types.{ServiceDefinition}

-- A field of the service's override, if the configuration has one and the field is set.
abbrev override_or : Option ServiceOverride → (ServiceOverride → String) → String → String
override_or none field default = default
override_or (some override) field default = if field override != "" then field override else default

unfoldable pub strategy : Config → ServiceDefinition → String
strategy cfg definition =
    if definition.routing.force_subdomain
    then routing_strategy_subdomain
    else override_or (lookup definition.metadata.name cfg.services) (λ o. o.routing)
        cfg.routing.strategy

unfoldable pub subdomain : Config → ServiceDefinition → String
subdomain cfg definition =
    override_or (lookup definition.metadata.name cfg.services) (λ o. o.subdomain)
      definition.routing.subdomain

unfoldable pub path : Config → ServiceDefinition → String
path cfg definition =
    override_or (lookup definition.metadata.name cfg.services) (λ o. o.path) definition.routing.path

unfoldable pub shared_hostname : Config → String
shared_hostname cfg =
    if cfg.routing.base_domain == ""
    then cfg.domain
    else cfg.routing.base_domain <> "." <> cfg.domain

unfoldable pub hostname : Config → ServiceDefinition → String
hostname cfg definition =
    if strategy cfg definition == routing_strategy_subdomain
    then subdomain cfg definition <> "." <> cfg.domain
    else shared_hostname cfg

unfoldable pub url : Config → ServiceDefinition → String
url cfg definition =
    if strategy cfg definition == routing_strategy_path
    then "https://" <> hostname cfg definition <> path cfg definition
    else "https://" <> hostname cfg definition

unfoldable pub rule : Config → ServiceDefinition → String
rule cfg definition =
    if strategy cfg definition == routing_strategy_path
    then "Host(`" <> hostname cfg definition <> "`) && PathPrefix(`" <> path cfg definition <> "`)"
    else "Host(`" <> hostname cfg definition <> "`)"
