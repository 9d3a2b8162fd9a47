-- ===== src/Cloudflare.antt =====
-- internal/cloudflare/routes.go: the host names and URLs that a tunnel has to serve for one graph.
-- The two sets are lists without a duplicate; a plan holds them sorted.
pub mod Routes
mod Tests
use sdbx.Base.{
  String, Bool, true, false, ◌==◌, ◌!=◌, not, ◌||◌, List, [], ◌∷◌, map, Option, none, some, Result,
  ok, err, ◌<>◌, if◌then◌else◌,
}
use sdbx.Base.Maps.{Map, lookup}
use sdbx.Base.Order.{sort_strings}
use sdbx.Config.{Config, contains, expose_mode_cloudflared}
use sdbx.Registry.Types.{ServiceDefinition}
use sdbx.Registry.Types.Resolved.{ResolvedService, ResolutionError, ResolutionGraph}
use sdbx.Routing.{shared_hostname, hostname, url}

abbrev pub management_mode : String
management_mode = "remote"

abbrev pub origin_service : String
origin_service = "http://traefik:8081"

pub record Route : Type 0 where
  pub hostname : String
  pub service : String

pub record Plan : Type 0 where
  pub management : String
  pub routes : List Route
  pub urls : List String

pub data PlanError : Type 0 where
  configuration_required graph_required mode_required : PlanError
  resolution_failed : ResolutionError → PlanError

-- set[key] = struct{}{}
unfoldable pub add_key : String → List String → List String
add_key key set = if contains set key then set else key ∷ set

-- The variables `hostnames` and `urls`.
pub record Sets : Type 0 where
  pub hostnames : List String
  pub urls : List String

-- The definition of a service that is resolved, enabled and routed.
abbrev pub routed : Option ResolvedService → Option ServiceDefinition
routed none = none
routed (some resolved) =
    if not resolved.enabled || not resolved.final_definition.routing.enabled
    then none
    else some resolved.final_definition

unfoldable pub add_service : Config → Option ServiceDefinition → Sets → Sets
add_service cfg none sets = sets
add_service cfg (some definition) sets = record {
  hostnames = add_key (hostname cfg definition) sets.hostnames;
  urls = add_key (url cfg definition) sets.urls;
}

unfoldable pub add_services : Config → Map ResolvedService → List String → Sets → Sets
add_services cfg services [] sets = sets
add_services cfg services (name ∷ names) sets =
    add_services cfg services names (add_service cfg (routed (lookup name services)) sets)

unfoldable pub dashboard : Config → Sets
dashboard cfg = record {
  hostnames = shared_hostname cfg ∷ [];
  urls = ("https://" <> shared_hostname cfg) ∷ [];
}

unfoldable pub plan_of : Sets → Plan
plan_of sets = record {
  management = management_mode;
  routes =
      map (λ h. record { hostname = h; service = origin_service }) (sort_strings sets.hostnames);
  urls = sort_strings sets.urls;
}

unfoldable pub plan_checked :
    Config → ResolutionGraph → List ResolutionError → Result PlanError Plan
plan_checked cfg graph (e ∷ errors) = err (resolution_failed e)
plan_checked cfg graph [] =
    ok (plan_of (add_services cfg graph.services graph.order (dashboard cfg)))

unfoldable pub build_plan : Option Config → Option ResolutionGraph → Result PlanError Plan
build_plan none graph = err configuration_required
build_plan (some cfg) none = err graph_required
build_plan (some cfg) (some graph) =
    if cfg.expose.mode != expose_mode_cloudflared
    then err mode_required
    else plan_checked cfg graph graph.errors
