-- ===== src/Registry/Validator/Security.antt =====
-- internal/registry/validator.go: validateSecurity; image_resolver.go: imageReference and
-- repositoryRegistry.
use sdbx.Base.{
  ℕ, String, Bool, true, ◌==◌, ◌!=◌, not, ◌&&◌, ◌||◌, List, [], ◌∷◌, ◌++◌, Message, Result, ok, err,
  ◌<>◌, if◌then◌else◌,
}
use sdbx.Config.{contains}
use sdbx.Registry.Types.{ServiceDefinition, ServiceSpec, ImageSpec, VolumeMount}
use sdbx.Registry.Types.Resolved.{ValidationError}
use sdbx.Registry.Validator.Report.{
  report, advise, say, say_of, say_both, each, item, holds_text, before, trim_quotes,
}
use sdbx.Registry.Validator.Patterns.{image_repository_pattern, image_tag_pattern}

abbrev pub allowed_registries : List String
allowed_registries = "docker.io" ∷ "ghcr.io" ∷ "lscr.io" ∷ "quay.io" ∷ "registry.k8s.io" ∷ []

abbrev pub dangerous_caps : List String
dangerous_caps =
    "NET_ADMIN" ∷ "SYS_ADMIN" ∷ "SYS_PTRACE" ∷ "SYS_MODULE" ∷ "SYS_RAWIO" ∷ "SYS_TIME"
    ∷ "DAC_READ_SEARCH" ∷ []

unfoldable pub image_reference : String → String → Result Message String
image_reference repository tag =
    if not (image_repository_pattern repository)
    then err (say_of "invalid image repository %q" repository)
    else if not (image_tag_pattern tag)
    then err (say_of "invalid image tag %q" tag)
    else ok (repository <> ":" <> tag)

unfoldable pub repository_registry : String → String
repository_registry repository =
    let first = before b'/' repository in
    if not (holds_text repository "/")
      || not (holds_text first ".") && not (holds_text first ":") && first != "localhost"
    then "docker.io"
    else first

-- The registry that an image is declared to come from.
unfoldable pub declared_registry : ImageSpec → String
declared_registry image = if image.registry == "" then "docker.io" else image.registry

unfoldable pub validate_reference : ImageSpec → Result Message String → List ValidationError
validate_reference image (err message) = report true "spec.image" message
validate_reference image (ok reference) =
    report (repository_registry image.repository != declared_registry image) "spec.image.registry" (
      say_both "declared registry %s does not match repository registry %s"
        (declared_registry image) (repository_registry image.repository))

unfoldable pub is_docker_socket_path : String → Bool
is_docker_socket_path path = trim_quotes path == "/var/run/docker.sock"

unfoldable pub validate_image : ImageSpec → List ValidationError
unfolding validate_reference
validate_image image =
    validate_reference image (image_reference image.repository image.tag)
    ++ advise (not (contains allowed_registries (declared_registry image))) "spec.image.registry"
        (say_of "registry %s is not in allowed list" (declared_registry image))

unfoldable pub validate_socket : ℕ → VolumeMount → List ValidationError
validate_socket i vol =
    report (is_docker_socket_path vol.host_path || is_docker_socket_path vol.container_path)
      (item "spec.volumes" i "") (say "Docker socket mounts are not supported")

-- The warnings of `validateSecurity` before the image.
unfoldable pub warn_privileges : ServiceSpec → List ValidationError
warn_privileges spec =
    advise spec.container.privileged "spec.container.privileged"
      (say "privileged mode grants nearly unrestricted host access")
    ++ each
        (λ _ capability.
          advise (contains dangerous_caps capability) "spec.container.capabilities.add"
            (say_of "dangerous capability %s requires explicit approval" capability))
        0 spec.container.capabilities.add
    ++ advise (spec.networking.mode == "host") "spec.networking.mode"
        (say "host network mode bypasses network isolation")

unfoldable pub validate_memory_device : String → List ValidationError
validate_memory_device device =
    report (holds_text device "/dev/mem" || holds_text device "/dev/kmem") "spec.container.devices"
      (say_of "dangerous device mapping: %s" device)

unfoldable pub validate_security : ServiceDefinition → List ValidationError
validate_security def =
    warn_privileges def.spec
    ++ (validate_image def.spec.image
        ++ (each (λ _ device. validate_memory_device device) 0 def.spec.container.devices
            ++ each validate_socket 0 def.spec.volumes))
