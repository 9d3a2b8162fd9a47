-- ===== src/Cloudflare/Tests.antt =====
-- The plan of a small graph: two routed services, and one that is not routed.
use sdbx.Base.{true, false, ◌≡◌, refl, [], ◌∷◌, ok, String, map, some, ◌⊎◌, ◌<>◌}
use sdbx.Base.Maps.{lookup}
use sdbx.Base.Order.{sort_strings, insert_sorted, text_le, count}
use sdbx.Config.{Config, default_config, contains}
use sdbx.Registry.Types.{ServiceDefinition}
use sdbx.Registry.Types.Resolved.{ResolutionGraph}
use sdbx.Registry.Samples.{authelia, traefik, entry}
use sdbx.Routing.{strategy, subdomain, hostname, shared_hostname, url}
use sdbx.Cloudflare.{
  Plan, origin_service, add_key, add_service, add_services, dashboard, plan_of, plan_checked,
  build_plan,
}
use sdbx.Cloudflare.Routes.{IsPlan, build_plan-IsPlan, hosts_of, url_is_routed, IsAddress}

abbrev tunnel : Config
tunnel = record default_config { expose = record default_config.expose { mode = "cloudflared" } }

abbrev routed_at : String → ServiceDefinition → ServiceDefinition
routed_at name definition = record definition {
  routing = record definition.routing { enabled = true; subdomain = name };
}

abbrev graph : ResolutionGraph
graph = record {
  services =
      ("authelia", entry "authelia" (routed_at "auth" authelia) [])
      ∷ (
        "traefik",
        entry "traefik" (record traefik { routing = record traefik.routing { enabled = false } })
            [],
      )
      ∷ ("tv", entry "tv" (routed_at "tv" authelia) [])
      ∷ [];
  order = "authelia" ∷ "traefik" ∷ "tv" ∷ [];
  errors = [];
  warnings = [];
}

abbrev plan : Plan
plan = record {
  management = "remote";
  routes =
      map (λ h. record { hostname = h; service = origin_service })
        ("auth.sdbx.example.com" ∷ "sdbx.sdbx.example.com" ∷ "tv.sdbx.example.com" ∷ []);
  urls =
      "https://auth.sdbx.example.com" ∷ "https://sdbx.sdbx.example.com"
      ∷ "https://tv.sdbx.example.com" ∷ [];
}

built : build_plan (some tunnel) (some graph) ≡ ok plan
unfolding build_plan plan_checked plan_of dashboard add_services add_service add_key contains lookup
    sort_strings insert_sorted text_le url hostname shared_hostname subdomain strategy
built = refl

build_plan-IsPlan_example : IsPlan tunnel graph plan
build_plan-IsPlan_example = build_plan-IsPlan tunnel graph built

url_is_routed_example :
    (h : String) × (count h (hosts_of plan) ≡ 1)
    × ((h ≡ shared_hostname tunnel) × ("https://tv.sdbx.example.com" ≡ ("https://" <> h))
        ⊎ IsAddress tunnel graph.services graph.order "https://tv.sdbx.example.com" h)
url_is_routed_example = url_is_routed tunnel graph "https://tv.sdbx.example.com" built refl
