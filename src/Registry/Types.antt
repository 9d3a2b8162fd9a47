-- ===== src/Registry/Types.antt =====
-- internal/registry/types.go: a service definition and its parts. Pointers that may be nil are
-- options, and the enumerations that YAML decodes stay texts, since any text can be decoded.
pub mod Resolved
use sdbx.Base.{String, Bool, ◌==◌, ◌||◌, List, Option, Message}
use sdbx.Base.Int.{ℤ}
use sdbx.Base.Maps.{Map}

pub record ServiceMetadata : Type 0 where
  pub name : String
  pub version : String
  pub category : String
  pub description : String
  pub homepage : String
  pub documentation : String
  pub maintainer : String
  pub tags : List String

pub record LauncherPresentation : Type 0 where
  pub enabled : Bool
  pub group : String
  pub icon : String
  pub subtitle : String

pub record Presentation : Type 0 where
  pub launcher : Option LauncherPresentation

pub record ApplicationAuthConfig : Type 0 where
  pub mode : String

pub record ImageSpec : Type 0 where
  pub repository : String
  pub tag : String
  pub registry : String

pub record ConditionalDevice : Type 0 where
  pub device : String
  pub when : String

pub record CapabilitiesSpec : Type 0 where
  pub add : List String
  pub drop : List String

pub record ContainerSpec : Type 0 where
  pub name_template : String
  pub restart : String
  pub hostname : String
  pub user : String
  pub command : String
  pub working_dir : String
  pub shm_size : String
  pub sysctls : Map String
  pub custom_labels : Map String
  pub privileged : Bool
  pub read_only_root : Bool
  pub tmpfs : List String
  pub pids_limit : ℤ
  pub stop_grace : String
  pub capabilities : CapabilitiesSpec
  pub devices : List String
  pub conditional_devices : List ConditionalDevice
  pub init : Bool

pub record ValueSource : Type 0 where
  pub secret_ref : String
  pub config_ref : String

pub record EnvVar : Type 0 where
  pub name : String
  pub value : String
  pub value_from : Option ValueSource

pub record ConditionalEnvVar : Type 0 where
  pub env_var : EnvVar
  pub when : String

pub record EnvironmentSpec : Type 0 where
  pub static : List EnvVar
  pub conditional : List ConditionalEnvVar
  pub env_file : List String

pub record VolumeMount : Type 0 where
  pub name : String
  pub host_path : String
  pub container_path : String
  pub read_only : Bool
  pub when : String
  pub chown : Bool
  pub chown_uid : ℤ
  pub chown_gid : ℤ

pub record ConditionalPort : Type 0 where
  pub port : String
  pub when : String

pub record PortSpec : Type 0 where
  pub static : List String
  pub conditional : List ConditionalPort

pub record NetworkRef : Type 0 where
  pub name : String
  pub when : String

pub record NetworkSpec : Type 0 where
  pub networks : List NetworkRef
  pub mode : String
  pub mode_template : String

pub record HealthCheck : Type 0 where
  pub test : List String
  pub interval : String
  pub timeout : String
  pub retries : ℤ
  pub start_period : String

pub record ConditionalDependency : Type 0 where
  pub name : String
  pub condition : String
  pub when : String

pub record DependencySpec : Type 0 where
  pub required : List String
  pub conditional : List ConditionalDependency

pub record ServiceSpec : Type 0 where
  pub image : ImageSpec
  pub container : ContainerSpec
  pub environment : EnvironmentSpec
  pub volumes : List VolumeMount
  pub ports : PortSpec
  pub networking : NetworkSpec
  pub health_check : Option HealthCheck
  pub health_check_camel : Option HealthCheck
  pub dependencies : DependencySpec

pub record PathRoutingConfig : Type 0 where
  pub strategy : String
  pub url_base_env_var : String

pub record AuthConfig : Type 0 where
  pub mode : String

pub record TraefikConfig : Type 0 where
  pub network : String

pub record RoutingConfig : Type 0 where
  pub enabled : Bool
  pub port : ℤ
  pub subdomain : String
  pub path : String
  pub path_routing : PathRoutingConfig
  pub auth : AuthConfig
  pub force_subdomain : Bool
  pub traefik : TraefikConfig

pub record SecretDef : Type 0 where
  pub name : String
  pub type : String
  pub length : ℤ
  pub optional : Bool
  pub description : String

pub record CloudflaredIntegration : Type 0 where
  pub enabled : Bool

pub record UnpackerrIntegration : Type 0 where
  pub enabled : Bool
  pub url_env_var : String
  pub api_key_env_var : String
  pub internal_url : String

pub record Integrations : Type 0 where
  pub cloudflared : Option CloudflaredIntegration
  pub unpackerr : Option UnpackerrIntegration

pub record Conditions : Type 0 where
  pub always : Bool
  pub require_addon : Bool
  pub require_config : String

pub record ServiceDefinition : Type 0 where
  pub api_version : String
  pub kind : String
  pub metadata : ServiceMetadata
  pub application_auth : ApplicationAuthConfig
  pub presentation : Presentation
  pub permissions : List String
  pub spec : ServiceSpec
  pub routing : RoutingConfig
  pub secrets : List SecretDef
  pub integrations : Integrations
  pub conditions : Conditions

abbrev pub auth_mode_admin_only : String
auth_mode_admin_only = "admin-only"

abbrev pub auth_mode_protected : String
auth_mode_protected = "protected"

unfoldable pub requires_forward_auth : AuthConfig → Bool
requires_forward_auth a = a.mode == auth_mode_admin_only || a.mode == auth_mode_protected
