-- ===== src/Registry/Validator/Network.antt =====
-- internal/registry/validator.go: validateRouting and validateNetworking.
use sdbx.Base.{
  ℕ, suc, String, Bool, true, false, ◌!=◌, not, ◌&&◌, ◌||◌, List, [], ◌∷◌, ◌++◌, if◌then◌else◌,
}
use sdbx.Base.Int.{below, above}
use sdbx.Config.{contains}
use sdbx.Config.Patterns.{is_safe_route_path}
use sdbx.Registry.Types.{ServiceDefinition, RoutingConfig, NetworkRef}
use sdbx.Registry.Types.Resolved.{ValidationError}
use sdbx.Registry.Validator.Report.{report, say, say_of, item}
use sdbx.Registry.Validator.Patterns.{is_valid_subdomain}

abbrev pub application_auth_modes : List String
application_auth_modes =
    "none" ∷ "identity-provider" ∷ "sdbx-managed-forms" ∷ "sdbx-managed-password"
    ∷ "sdbx-managed-api-key" ∷ "service-managed" ∷ "upstream-default" ∷ []

abbrev pub auth_modes : List String
auth_modes = "admin-only" ∷ "protected" ∷ "native-auth" ∷ "public" ∷ []

abbrev pub route_networks : List String
route_networks = "app" ∷ "download" ∷ "management" ∷ []

abbrev pub path_strategies : List String
path_strategies = "stripPrefix" ∷ "urlBase" ∷ "none" ∷ "" ∷ []

-- isValidRoutePath is the test of internal/config on the same regular expression.
unfoldable pub is_valid_route_path : String → Bool
is_valid_route_path value = is_safe_route_path value

-- The checks of an enabled route.
unfoldable pub validate_route : RoutingConfig → List ValidationError
validate_route r =
    report (below r.port 1 || above r.port 65535) "routing.port"
      (say "port must be between 1 and 65535")
    ++ report (r.subdomain != "" && not (is_valid_subdomain r.subdomain)) "routing.subdomain"
        (say "subdomain must be lowercase alphanumeric with hyphens")
    ++ report (r.path != "" && not (is_valid_route_path r.path)) "routing.path"
        (say "path must be a clean absolute URL path")
    ++ report (not (contains auth_modes r.auth.mode)) "routing.auth.mode"
        (say "must be one of admin-only, protected, native-auth, or public")
    ++ report (not (contains route_networks r.traefik.network)) "routing.traefik.network"
        (say "must be one of app, download, or management")
    ++ report (not (contains path_strategies r.path_routing.strategy))
        "routing.pathRouting.strategy" (say_of "invalid strategy: %s" r.path_routing.strategy)

unfoldable pub validate_routing : ServiceDefinition → List ValidationError
validate_routing def =
    report (not (contains application_auth_modes def.application_auth.mode)) "applicationAuth.mode"
      (say "must explicitly identify the native application credential owner")
    ++ (if not def.routing.enabled then [] else validate_route def.routing)

abbrev pub valid_networks : List String
valid_networks = "edge" ∷ "app" ∷ "download" ∷ "management" ∷ []

-- The loop over the networks: its errors, with the networks declared so far.
unfoldable pub validate_networks : ℕ → List String → List NetworkRef → List ValidationError
validate_networks i declared [] = []
validate_networks i declared (network ∷ networks) =
    let known = contains valid_networks network.name in
    (if not known
      then report true (item "spec.networking.networks" i ".name")
          (say "must be one of edge, app, download, or management")
      else report (contains declared network.name) (item "spec.networking.networks" i ".name")
          (say_of "network %s is declared more than once" network.name))
    ++ validate_networks (suc i) (if known then network.name ∷ declared else declared) networks

-- The networks that the loop has declared.
unfoldable pub declared_networks : List NetworkRef → List String
declared_networks [] = []
declared_networks (network ∷ networks) =
    let rest = declared_networks networks in
    if contains valid_networks network.name then network.name ∷ rest else rest

abbrev pub is_empty : List String → Bool
is_empty [] = true
is_empty (x ∷ xs) = false

unfoldable pub validate_networking : ServiceDefinition → List ValidationError
validate_networking def =
    let declared = declared_networks def.spec.networking.networks in
    validate_networks 0 [] def.spec.networking.networks
    ++ report (is_empty declared && def.spec.networking.mode != "host") "spec.networking.networks"
        (say "at least one trust-boundary network is required")
    ++ report
        (contains declared "edge"
          && def.metadata.name != "traefik"
          && def.metadata.name != "cloudflared")
        "spec.networking.networks"
        (say "edge network membership is reserved for Traefik and Cloudflared")
    ++ report
        (def.routing.enabled
          && def.routing.traefik.network != ""
          && not (contains declared def.routing.traefik.network))
        "routing.traefik.network" (say "must also be declared in spec.networking.networks")
