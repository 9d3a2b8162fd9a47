-- ===== src/Registry/Validator/Container.antt =====
-- internal/registry/validator.go: validateSpec and validateEnvironmentValueSource.
use sdbx.Base.{
  ℕ, suc, String, Bool, true, false, ◌==◌, ◌!=◌, not, ◌&&◌, ◌||◌, List, [], ◌∷◌, ◌++◌, Option, none,
  some, length, nat_eq, codes, codes_eq, has_prefix, if◌then◌else◌, ◌<>◌,
}
use sdbx.Base.Int.{ℤ, pos, negsuc, below}
use sdbx.Base.Paths.{clean, render}
use sdbx.Config.{contains}
use sdbx.Registry.Types.{
  ServiceSpec, ContainerSpec, VolumeMount, EnvVar, ConditionalEnvVar, ValueSource, HealthCheck,
}
use sdbx.Registry.Types.Resolved.{ValidationError}
use sdbx.Registry.Validator.Report.{report, advise, say, say_of, each, item, holds_text, before}

-- What the checks take from the standard library: time.ParseDuration (`none` is its error),
-- strings.ToUpper, and the error with which text/template refuses a template that may call the
-- functions of the catalog.
pub record Library : Type 0 where
  pub parse_duration : String → Option ℤ
  pub to_upper : String → String
  pub parse_error : String → Option String

abbrev is_positive : Option ℤ → Bool
is_positive none = false
is_positive (some d) = not (below d 1)

abbrev pub is_zero : ℤ → Bool
is_zero (pos n) = nat_eq n 0
is_zero (negsuc n) = false

abbrev differ : Bool → Bool → Bool
differ true b = not b
differ false b = b

-- strings.HasPrefix(path, "/") and path.Clean(path) == path
unfoldable pub is_clean_path : String → Bool
is_clean_path path =
    has_prefix (codes path) (codes "/") && codes_eq (render (clean path)) (codes path)

-- The loop over the tmpfs mounts, with the paths seen so far.
unfoldable pub validate_tmpfs : ℕ → List String → List String → List ValidationError
validate_tmpfs i seen [] = []
validate_tmpfs i seen (mount ∷ mounts) =
    let path = before b':' mount in
    report (not (is_clean_path path)) (item "spec.container.tmpfs" i "")
      (say "tmpfs mount must use a clean absolute container path")
    ++ report (contains seen path) (item "spec.container.tmpfs" i "")
        (say_of "tmpfs path %s is declared more than once" path)
    ++ validate_tmpfs (suc i) (path ∷ seen) mounts

unfoldable pub validate_volume : ℕ → VolumeMount → List ValidationError
validate_volume i vol =
    report (vol.host_path == "") (item "spec.volumes" i ".hostPath") (say "hostPath is required")
    ++ report (vol.container_path == "") (item "spec.volumes" i ".containerPath")
        (say "containerPath is required")
    ++ report (differ (is_zero vol.chown_uid) (is_zero vol.chown_gid)) (item "spec.volumes" i "")
        (say "chownUID and chownGID must be set together")
    ++ report ((not (is_zero vol.chown_uid) || not (is_zero vol.chown_gid)) && not vol.chown)
        (item "spec.volumes" i "") (say "fixed ownership requires chown: true")
    ++ report (below vol.chown_uid 0 || below vol.chown_gid 0) (item "spec.volumes" i "")
        (say "fixed ownership IDs must be positive")

-- The source of a variable with the given value.
unfoldable pub validate_value_source : String → String → Option ValueSource → List ValidationError
validate_value_source field value none = []
validate_value_source field value (some source) =
    report (value != "") field (say "environment variable cannot set both value and valueFrom")
    ++ report (source.secret_ref != "") (field <> ".valueFrom.secretRef") (
        say
          "inline secret environment values are forbidden; mount a declared Compose secret and use the application's file-backed secret option")
    ++ report (source.config_ref != "") (field <> ".valueFrom.configRef")
        (say "configRef environment values are not implemented")

unfoldable pub validate_environment_value_source : String → EnvVar → List ValidationError
validate_environment_value_source field env = validate_value_source field env.value env.value_from

abbrev no_source : Option ValueSource → Bool
no_source none = true
no_source (some source) = false

unfoldable pub validate_static : ℕ → EnvVar → List ValidationError
validate_static i env =
    report (env.name == "") (item "spec.environment.static" i ".name")
      (say "environment variable name is required")
    ++ report (env.value == "" && no_source env.value_from) (item "spec.environment.static" i "")
        (say "environment variable must have value or valueFrom")
    ++ validate_environment_value_source (item "spec.environment.static" i "") env

unfoldable pub validate_conditional : ℕ → ConditionalEnvVar → List ValidationError
validate_conditional i env =
    report (env.env_var.name == "") (item "spec.environment.conditional" i ".name")
      (say "environment variable name is required")
    ++ report (env.when == "") (item "spec.environment.conditional" i ".when")
        (say "conditional environment variable must have 'when' condition")
    ++ validate_environment_value_source (item "spec.environment.conditional" i "") env.env_var

unfoldable pub validate_health_check : Option HealthCheck → List ValidationError
validate_health_check none = []
validate_health_check (some check) =
    report (nat_eq (length check.test) 0) "spec.healthcheck.test"
      (say "health check test command is required")

module _ (lib : Library) where
  unfoldable pub validate_container : ContainerSpec → List ValidationError
  validate_container c =
      (if c.name_template == ""
        then report true "spec.container.name_template" (say "container name template is required")
        else advise (not (holds_text c.name_template "{{")) "spec.container.name_template"
            (say "container name template should use Go template syntax"))
      ++ report (below c.pids_limit 0) "spec.container.pidsLimit"
          (say "process limit must be positive")
      ++ report (c.stop_grace != "" && not (is_positive (lib.parse_duration c.stop_grace)))
          "spec.container.stopGracePeriod" (say "must be a positive Go duration such as 30s")
      ++ validate_tmpfs 0 [] c.tmpfs

  unfoldable pub validate_spec : ServiceSpec → List ValidationError
  validate_spec spec =
      report (spec.image.repository == "") "spec.image.repository"
        (say "image repository is required")
      ++ validate_container spec.container
      ++ each validate_volume 0 spec.volumes
      ++ each validate_static 0 spec.environment.static
      ++ each validate_conditional 0 spec.environment.conditional
      ++ validate_health_check spec.health_check
