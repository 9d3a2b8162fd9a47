-- ===== src/Registry/Validator/Permissions.antt =====
-- internal/registry/validator.go: the permissions that a definition needs, those that it declares,
-- and those that a source is trusted with.
use sdbx.Base.{
  ℕ, suc, String, Bool, true, false, ◌==◌, ◌!=◌, not, ◌&&◌, ◌||◌, List, [], ◌∷◌, ◌++◌, map, Option,
  none, some, codes, has_prefix, trim_space, ◌<>◌, if◌then◌else◌,
}
use sdbx.Base.Order.{sort_strings}
use sdbx.Config.{contains}
use sdbx.Registry.Types.{ServiceDefinition, VolumeMount, NetworkSpec, EnvVar, ValueSource}
use sdbx.Registry.Types.Resolved.{ValidationError}
use sdbx.Registry.Validator.Report.{report, say_of, item, holds_text, trim_quotes}
use sdbx.Registry.Validator.Patterns.{
  capability_permission_pattern, secret_permission_pattern, network_permission_pattern,
  service_network_permission_pattern, service_override_permission_pattern, route_permission_pattern,
}
use sdbx.Registry.Validator.Search.{service_references}
use sdbx.Registry.Validator.Container.{Library}
use sdbx.Registry.Validator.Network.{auth_modes}
use sdbx.Registry.Validator.Security.{is_docker_socket_path}

unfoldable pub required_catalog_path_permission : String → String
required_catalog_path_permission value =
    if holds_text value ".Config.SecretsPath"
    then "secrets-path"
    else if holds_text value ".Config.ProjectDir"
    then "project-path"
    else if holds_text value ".Config.DownloadsPath"
    then "downloads-path"
    else if holds_text value ".Config.MediaPath"
    then "media-path"
    else if holds_text value ".Config.ConfigPath"
    then "config-path"
    else if holds_text value ".Config.DataPath"
    then "data-path"
    else if has_prefix (codes (trim_quotes value)) (codes "/") && not (is_docker_socket_path value)
    then "host-mount"
    else if trim_space value != ""
    then "project-path"
    else ""

-- `add` of a permission that the test asks for.
abbrev pub need : Bool → String → List String
need test permission = if test then permission ∷ [] else []

abbrev pub some_of {ℓ} : {A : Type ℓ} → List A → Bool
some_of [] = false
some_of (x ∷ xs) = true

volume_needs : List VolumeMount → List String
volume_needs [] = []
volume_needs (volume ∷ volumes) =
    need volume.chown "host-chown"
    ++ (required_catalog_path_permission volume.host_path ∷ volume_needs volumes)

abbrev source_needs : Option ValueSource → List String
source_needs none = []
source_needs (some source) = need (source.secret_ref != "") ("secret:" <> source.secret_ref)

env_needs : List EnvVar → List String
env_needs [] = []
env_needs (env ∷ envs) = source_needs env.value_from ++ env_needs envs

network_needs : NetworkSpec → List String
network_needs n =
    (if n.mode != "host" && not (has_prefix (codes n.mode) (codes "service:"))
      then map (λ network. "network:" <> network.name) n.networks
      else [])
    ++ map (λ service. "service-network:" <> service) (service_references n.mode)
    ++ map (λ service. "service-network:" <> service) (service_references n.mode_template)

-- Every permission that `RequiredCatalogPermissions` adds, as often as it does.
unfoldable pub needs : Library → ServiceDefinition → List String
unfolding volume_needs env_needs network_needs
needs lib def =
    need def.spec.container.privileged "privileged"
    ++ need
        (def.spec.networking.mode == "host" || holds_text def.spec.networking.mode_template "host")
        "host-network"
    ++ map (λ capability. "capability:" <> lib.to_upper capability)
        def.spec.container.capabilities.add
    ++ need (some_of def.spec.container.devices || some_of def.spec.container.conditional_devices)
        "device"
    ++ volume_needs def.spec.volumes
    ++ map required_catalog_path_permission def.spec.environment.env_file
    ++ need (some_of def.spec.ports.static || some_of def.spec.ports.conditional) "host-port"
    ++ need (def.routing.enabled && contains auth_modes def.routing.auth.mode)
        ("route:" <> def.routing.auth.mode)
    ++ network_needs def.spec.networking
    ++ env_needs def.spec.environment.static
    ++ env_needs (map (λ env. env.env_var) def.spec.environment.conditional)
    ++ map (λ secret. "secret:" <> secret.name) def.secrets

-- The keys of the map `required`: no empty text, and each text once.
unfoldable pub distinct : List String → List String
distinct [] = []
distinct (permission ∷ permissions) =
    let rest = distinct permissions in
    if permission == "" || contains rest permission then rest else permission ∷ rest

unfoldable pub required_catalog_permissions : Library → ServiceDefinition → List String
required_catalog_permissions lib def = sort_strings (distinct (needs lib def))

abbrev pub plain_permissions : List String
plain_permissions =
    "privileged" ∷ "host-network" ∷ "device" ∷ "host-chown" ∷ "host-mount" ∷ "config-path"
    ∷ "data-path" ∷ "downloads-path" ∷ "host-port" ∷ "media-path" ∷ "project-path" ∷ "secrets-path"
    ∷ []

unfoldable pub is_valid_catalog_permission : String → Bool
is_valid_catalog_permission p =
    if contains plain_permissions p
    then true
    else if has_prefix (codes p) (codes "capability:")
    then capability_permission_pattern p
    else if has_prefix (codes p) (codes "secret:")
    then secret_permission_pattern p
    else if has_prefix (codes p) (codes "network:")
    then network_permission_pattern p
    else if has_prefix (codes p) (codes "service-network:")
    then service_network_permission_pattern p
    else if has_prefix (codes p) (codes "service-override:")
    then service_override_permission_pattern p
    else if has_prefix (codes p) (codes "route:")
    then route_permission_pattern p
    else false

-- The permission to replace the embedded service of the same name.
abbrev pub override_of : String → String
override_of name = "service-override:" <> name

module _ (name : String) (required : List String) where
  -- The error of one declared permission, among those declared before it.
  unfoldable pub validate_declared : ℕ → List String → String → List ValidationError
  validate_declared i declared p =
      if not (is_valid_catalog_permission p)
      then report true (item "permissions" i "") (say_of "unknown catalog permission %q" p)
      else if contains declared p
      then report true (item "permissions" i "") (say_of "duplicate catalog permission %q" p)
      else report (p != override_of name && not (contains required p)) (item "permissions" i "")
          (say_of "unused catalog permission %q" p)

  unfoldable pub declare : List String → String → List String
  declare declared p = if is_valid_catalog_permission p then p ∷ declared else declared

  -- The loop over the declared permissions: its errors, and the permissions declared behind it.
  unfoldable pub validate_declarations :
      ℕ → List String → List String → List ValidationError × List String
  validate_declarations i declared [] = ([], declared)
  validate_declarations i declared (p ∷ ps) =
      let (errors, final) = validate_declarations (suc i) (declare declared p) ps in
      (validate_declared i declared p ++ errors, final)

-- The loop over the required permissions.
unfoldable pub validate_required : List String → List String → List ValidationError
validate_required declared [] = []
validate_required declared (p ∷ ps) =
    report (not (contains declared p)) "permissions"
      (say_of "required catalog permission %q is not declared" p)
    ++ validate_required declared ps

unfoldable pub validate_permissions : Library → ServiceDefinition → List ValidationError
validate_permissions lib def =
    let required = required_catalog_permissions lib def in
    let (errors, declared) =
      validate_declarations def.metadata.name required 0 [] def.permissions in
    errors ++ validate_required declared required
