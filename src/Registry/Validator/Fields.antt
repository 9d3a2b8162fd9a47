-- ===== src/Registry/Validator/Fields.antt =====
-- internal/registry/validator.go: the texts of a definition. The reflection of
-- `collectCatalogStringFields` over its structs is written out, field by field.
use sdbx.Base.{String, List, [], ◌∷◌, ◌++◌, map, Option, none, some, ◌<>◌}
use sdbx.Base.Maps.{Map}
use sdbx.Registry.Types.{
  ServiceDefinition, ServiceMetadata, LauncherPresentation, ServiceSpec, ContainerSpec, EnvVar,
  ValueSource, HealthCheck, RoutingConfig, UnpackerrIntegration,
}

-- The field of a text, and the text.
abbrev pub Field : Type 0
Field = String × String

abbrev pub all_of : String → List String → List Field
all_of field values = map (λ v. (field, v)) values

abbrev pub flat {ℓ} : {A : Type ℓ} → (A → List Field) → List A → List Field
flat f [] = []
flat f (x ∷ xs) = f x ++ flat f xs

abbrev optional {ℓ} : {A : Type ℓ} → (A → List Field) → Option A → List Field
optional f none = []
optional f (some x) = f x

abbrev entries : String → Map String → List Field
entries field m = flat (λ e. (field, e.0) ∷ (field, e.1) ∷ []) m

source_fields : String → ValueSource → List Field
source_fields field s =
    (field <> ".secretRef", s.secret_ref) ∷ (field <> ".configRef", s.config_ref) ∷ []

env_fields : String → EnvVar → List Field
unfolding source_fields
env_fields field e =
    (field <> ".name", e.name)
    ∷ (field <> ".value", e.value)
    ∷ optional (source_fields (field <> ".valueFrom")) e.value_from

metadata_fields : ServiceMetadata → List Field
metadata_fields m =
    ("metadata.name", m.name)
    ∷ ("metadata.version", m.version)
    ∷ ("metadata.category", m.category)
    ∷ ("metadata.description", m.description)
    ∷ ("metadata.homepage", m.homepage)
    ∷ ("metadata.documentation", m.documentation)
    ∷ ("metadata.maintainer", m.maintainer)
    ∷ all_of "metadata.tags" m.tags

launcher_fields : LauncherPresentation → List Field
launcher_fields l =
    ("presentation.launcher.group", l.group)
    ∷ ("presentation.launcher.icon", l.icon)
    ∷ ("presentation.launcher.subtitle", l.subtitle)
    ∷ []

container_fields : ContainerSpec → List Field
container_fields c =
    ("spec.container.name_template", c.name_template)
    ∷ ("spec.container.restart", c.restart)
    ∷ ("spec.container.hostname", c.hostname)
    ∷ ("spec.container.user", c.user)
    ∷ ("spec.container.command", c.command)
    ∷ ("spec.container.working_dir", c.working_dir)
    ∷ ("spec.container.shm_size", c.shm_size)
    ∷ (entries "spec.container.sysctls" c.sysctls
        ++ entries "spec.container.customLabels" c.custom_labels
        ++ all_of "spec.container.tmpfs" c.tmpfs
        ++ ("spec.container.stopGracePeriod", c.stop_grace)
          ∷ all_of "spec.container.capabilities.add" c.capabilities.add
        ++ all_of "spec.container.capabilities.drop" c.capabilities.drop
        ++ all_of "spec.container.devices" c.devices
        ++ flat
            (λ d.
              ("spec.container.conditional_devices.device", d.device)
              ∷ ("spec.container.conditional_devices.when", d.when)
              ∷ [])
            c.conditional_devices)

health_fields : String → HealthCheck → List Field
health_fields field h =
    all_of (field <> ".test") h.test
    ++ (field <> ".interval", h.interval)
      ∷ (field <> ".timeout", h.timeout)
      ∷ (field <> ".start_period", h.start_period)
      ∷ []

spec_fields : ServiceSpec → List Field
unfolding container_fields env_fields health_fields
spec_fields s =
    ("spec.image.repository", s.image.repository)
    ∷ ("spec.image.tag", s.image.tag)
    ∷ ("spec.image.registry", s.image.registry)
    ∷ (container_fields s.container
        ++ flat (env_fields "spec.environment.static") s.environment.static
        ++ flat
            (λ e.
              env_fields "spec.environment.conditional" e.env_var
              ++ ("spec.environment.conditional.when", e.when) ∷ [])
            s.environment.conditional
        ++ all_of "spec.environment.envFile" s.environment.env_file
        ++ flat
            (λ v.
              ("spec.volumes.name", v.name)
              ∷ ("spec.volumes.hostPath", v.host_path)
              ∷ ("spec.volumes.containerPath", v.container_path)
              ∷ ("spec.volumes.when", v.when)
              ∷ [])
            s.volumes
        ++ all_of "spec.ports.static" s.ports.static
        ++ flat
            (λ p.
              ("spec.ports.conditional.port", p.port)
              ∷ ("spec.ports.conditional.when", p.when)
              ∷ [])
            s.ports.conditional
        ++ flat
            (λ n.
              ("spec.networking.networks.name", n.name)
              ∷ ("spec.networking.networks.when", n.when)
              ∷ [])
            s.networking.networks
        ++ ("spec.networking.mode", s.networking.mode)
          ∷ ("spec.networking.modeTemplate", s.networking.mode_template)
          ∷ optional (health_fields "spec.healthcheck") s.health_check
        ++ optional (health_fields "spec.healthCheck") s.health_check_camel
        ++ all_of "spec.dependencies.required" s.dependencies.required
        ++ flat
            (λ d.
              ("spec.dependencies.conditional.name", d.name)
              ∷ ("spec.dependencies.conditional.condition", d.condition)
              ∷ ("spec.dependencies.conditional.when", d.when)
              ∷ [])
            s.dependencies.conditional)

routing_fields : RoutingConfig → List Field
routing_fields r =
    ("routing.subdomain", r.subdomain)
    ∷ ("routing.path", r.path)
    ∷ ("routing.pathRouting.strategy", r.path_routing.strategy)
    ∷ ("routing.pathRouting.urlBaseEnvVar", r.path_routing.url_base_env_var)
    ∷ ("routing.auth.mode", r.auth.mode)
    ∷ ("routing.traefik.network", r.traefik.network)
    ∷ []

unpackerr_fields : UnpackerrIntegration → List Field
unpackerr_fields u =
    ("integrations.unpackerr.urlEnvVar", u.url_env_var)
    ∷ ("integrations.unpackerr.apiKeyEnvVar", u.api_key_env_var)
    ∷ ("integrations.unpackerr.internalUrl", u.internal_url)
    ∷ []

-- `collectCatalogStringFields` of a definition.
unfoldable pub catalog_string_fields : ServiceDefinition → List Field
unfolding metadata_fields launcher_fields spec_fields routing_fields unpackerr_fields
catalog_string_fields def =
    ("apiVersion", def.api_version)
    ∷ ("kind", def.kind)
    ∷ (metadata_fields def.metadata
        ++ ("applicationAuth.mode", def.application_auth.mode)
          ∷ optional launcher_fields def.presentation.launcher
        ++ all_of "permissions" def.permissions
        ++ spec_fields def.spec
        ++ routing_fields def.routing
        ++ flat
            (λ s.
              ("secrets.name", s.name)
              ∷ ("secrets.type", s.type)
              ∷ ("secrets.description", s.description)
              ∷ [])
            def.secrets
        ++ optional unpackerr_fields def.integrations.unpackerr
        ++ ("conditions.requireConfig", def.conditions.require_config) ∷ [])
