-- ===== src/Registry/Validator/Selectors.antt =====
-- internal/registry/validator.go: validateConditions.
use sdbx.Base.{
  ℕ, suc, String, Bool, true, false, ◌==◌, ◌!=◌, not, ◌&&◌, ◌||◌, List, [], ◌∷◌, ◌++◌, Option, none,
  some, nat_eq, trim_space, if◌then◌else◌, ◌<>◌,
}
use sdbx.Base.Maps.{Map, lookup, insert}
use sdbx.Config.{contains}
use sdbx.Registry.Types.{
  ServiceDefinition, ServiceSpec, Conditions, ConditionalDevice, ConditionalDependency,
}
use sdbx.Registry.Types.Resolved.{ValidationError}
use sdbx.Registry.Conditions.{
  selectors, canonical_catalog_condition, is_supported_catalog_condition,
  is_supported_dependency_condition,
}
use sdbx.Registry.Validator.Report.{report, say, say_of, say_both, each, item, holds_text}
use sdbx.Registry.Validator.Patterns.{is_valid_service_name}

abbrev pub supported_require_config : List String
supported_require_config = "vpn_enabled" ∷ "cloudflared" ∷ "plex_enabled" ∷ "jellyfin_enabled" ∷ []

abbrev pub supported_dependency_startup_conditions : List String
supported_dependency_startup_conditions =
    "" ∷ "service_started" ∷ "service_healthy" ∷ "service_completed_successfully" ∷ []

unfoldable pub validate_selectors : Conditions → List ValidationError
validate_selectors c =
    report (c.require_config != "" && not (contains supported_require_config c.require_config))
      "conditions.requireConfig" (say_of "unsupported config selector %q" c.require_config)
    ++ report (not (nat_eq (selectors c) 1)) "conditions"
        (say "exactly one activation selector is required: always, requireAddon, or requireConfig")

-- `validateWhen` of a condition that is canonical already.
unfoldable pub validate_canonical : String → Bool → Bool → String → List ValidationError
validate_canonical field required dependency condition =
    if condition == ""
    then report required field (say "conditional field must declare a when expression")
    else report
        (not (
          if dependency
          then is_supported_dependency_condition condition
          else is_supported_catalog_condition condition))
        field (say_of "unsupported catalog condition %q" condition)

unfoldable pub validate_when : String → String → Bool → Bool → List ValidationError
unfolding validate_canonical
validate_when field condition required dependency =
    validate_canonical field required dependency (canonical_catalog_condition condition)

unfoldable pub validate_device : ℕ → ConditionalDevice → List ValidationError
validate_device i device =
    validate_when (item "spec.container.conditional_devices" i ".when") device.when true false
    ++ report
        (trim_space device.device == ""
          || holds_text device.device "/dev/mem"
          || holds_text device.device "/dev/kmem")
        (item "spec.container.conditional_devices" i ".device")
        (say "device mapping is empty or unsafe")

-- The errors of `validateDependencyName`, with the fields of the names seen so far.
unfoldable pub repeated : String → String → Option String → List ValidationError
repeated field name none = []
repeated field name (some previous) =
    report true field (say_both "dependency %q is already declared at %s" name previous)

unfoldable pub validate_dependency_name :
    String → Map String → String → String → List ValidationError
unfolding repeated
validate_dependency_name self seen field name =
    if not (is_valid_service_name name)
    then report true field
        (say "dependency name must be canonical lowercase alphanumeric with hyphens")
    else report (name == self) field (say "service cannot depend on itself")
      ++ repeated field name (lookup name seen)

abbrev is_new : Option String → Bool
is_new none = true
is_new (some field) = false

-- The names seen after one more.
unfoldable pub note_dependency : Map String → String → String → Map String
note_dependency seen field name =
    if is_valid_service_name name && is_new (lookup name seen) then insert name field seen else seen

unfoldable pub validate_conditional_dependencies :
    String → Map String → ℕ → List ConditionalDependency → List ValidationError
validate_conditional_dependencies self seen i [] = []
validate_conditional_dependencies self seen i (dependency ∷ rest) =
    let field = item "spec.dependencies.conditional" i "" in
    validate_dependency_name self seen (field <> ".name") dependency.name
    ++ (validate_when (field <> ".when") dependency.when true true
        ++ (report (not (contains supported_dependency_startup_conditions dependency.condition))
              (field <> ".condition")
              (say_of "unsupported dependency condition %q" dependency.condition)
            ++ validate_conditional_dependencies self
                (note_dependency seen (field <> ".name") dependency.name) (suc i) rest))

-- The loop over the required dependencies, and the one over the conditional ones behind it.
unfoldable pub validate_dependencies :
    String → Map String → ℕ → List String → List ConditionalDependency → List ValidationError
validate_dependencies self seen i [] conditional =
    validate_conditional_dependencies self seen 0 conditional
validate_dependencies self seen i (name ∷ names) conditional =
    let field = item "spec.dependencies.required" i "" in
    validate_dependency_name self seen field name
    ++ validate_dependencies self (note_dependency seen field name) (suc i) names conditional

-- The conditions of the parts of the specification.
unfoldable pub validate_conditional_parts : ServiceSpec → List ValidationError
validate_conditional_parts spec =
    each
      (λ i env. validate_when (item "spec.environment.conditional" i ".when") env.when false false)
      0 spec.environment.conditional
    ++ each (λ i volume. validate_when (item "spec.volumes" i ".when") volume.when false false) 0
        spec.volumes
    ++ each (λ i port. validate_when (item "spec.ports.conditional" i ".when") port.when true false)
        0 spec.ports.conditional
    ++ each validate_device 0 spec.container.conditional_devices
    ++ each
        (λ i network.
          validate_when (item "spec.networking.networks" i ".when") network.when false false)
        0 spec.networking.networks

unfoldable pub validate_conditions : ServiceDefinition → List ValidationError
validate_conditions def =
    validate_selectors def.conditions
    ++ (validate_conditional_parts def.spec
        ++ validate_dependencies def.metadata.name [] 0 def.spec.dependencies.required
            def.spec.dependencies.conditional)
