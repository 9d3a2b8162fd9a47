-- ===== src/Cloudflare/Routes.antt =====
-- internal/cloudflare/routes.go: a plan has every public host name and URL of the graph, once each.
use sdbx.Base.{
  String, Bool, true, false, ◌==◌, ◌||◌, List, [], ◌∷◌, map, Option, none, some, Result, ok, err,
  ◌≡◌, refl, sym, ap, ◌∙◌, ◌⊎◌, inl, inr, arith, Bool-cases, eq-cases, eq_iff, eq_refl, any, All,
  ◌↔◌, ◌<>◌, if◌then◌else◌,
}
use sdbx.Base.Maps.{Map, lookup}
use sdbx.Base.Order.{sort_strings, count, count-sort_strings, IsSorted, sort_strings-IsSorted}
use mathlib.Core.Path.{subst}
use sdbx.Config.{Config, contains, expose_mode_cloudflared, routing_strategy_path}
use sdbx.Registry.Types.{ServiceDefinition}
use sdbx.Registry.Types.Resolved.{ResolvedService, ResolutionError, ResolutionGraph}
use sdbx.Registry.TopologicalSort.Counting.{one_if, contains-count}
use sdbx.Routing.{shared_hostname, hostname, url, strategy, path}
use sdbx.Cloudflare.{
  Plan, Route, Sets, PlanError, origin_service, add_key, routed, add_service, add_services,
  dashboard, plan_of, plan_checked, build_plan,
}

-- Whether a service has a text for its host name, or for its URL.
abbrev pub yields : (ServiceDefinition → String) → Option ServiceDefinition → String → Bool
yields f none x = false
yields f (some definition) x = f definition == x

count-add_key :
    (k : String) (set : List String) (p : String → Bool)
    → ((x : String) → count x set ≡ one_if (p x))
    → (x : String) → count x (add_key k set) ≡ one_if (k == x || p x)
unfolding add_key
count-add_key k set p h x = elim (Bool-cases (contains set k)) [
  | inl old ↦ rw old (ground (arith, contains-count set k, h k, h x, eq_iff k x))
  | inr new ↦ rw new (ground (arith, contains-count set k, h k, h x, eq_iff k x))
]

or_swap : (a b c : Bool) → (a || (b || c)) ≡ ((b || a) || c)
or_swap a b c = ground arith

module _ (f : ServiceDefinition → String) (services : Map ResolvedService) where
  add_one : Option ServiceDefinition → List String → List String
  add_one none set = set
  add_one (some definition) set = add_key (f definition) set

  -- The loop, for one of the two sets.
  add_each : List String → List String → List String
  add_each [] set = set
  add_each (name ∷ names) set = add_each names (add_one (routed (lookup name services)) set)

  count-add_one :
      (o : Option ServiceDefinition) (set : List String) (p : String → Bool)
      → ((x : String) → count x set ≡ one_if (p x))
      → (x : String) → count x (add_one o set) ≡ one_if (yields f o x || p x)
  unfolding add_one
  count-add_one none set p h x = h x
  count-add_one (some definition) set p h x = count-add_key (f definition) set p h x

  abbrev pub is_wanted : List String → String → Bool
  is_wanted names x = any (λ name. yields f (routed (lookup name services)) x) names

  count-add_each :
      (names set : List String) (p : String → Bool)
      → ((x : String) → count x set ≡ one_if (p x))
      → (x : String) → count x (add_each names set) ≡ one_if (is_wanted names x || p x)
  unfolding add_each
  count-add_each [] set p h x = h x
  count-add_each (name ∷ names) set p h x =
      let o = routed (lookup name services) in
      count-add_each names (add_one o set) (λ y. yields f o y || p y) (count-add_one o set p h) x
      ∙ ap one_if (or_swap (is_wanted names x) (yields f o x) (p x))

-- The two sets behind the loop.
add_services-hostnames :
    (cfg : Config) (services : Map ResolvedService) (names : List String) (sets : Sets)
    → (add_services cfg services names sets).hostnames
      ≡ add_each (hostname cfg) services names sets.hostnames
unfolding add_services add_each add_service add_one
add_services-hostnames cfg services [] sets = refl
add_services-hostnames cfg services (name ∷ names) sets =
    add_services-hostnames cfg services names (add_service cfg (routed (lookup name services)) sets)
    ∙ ap (add_each (hostname cfg) services names) (one (routed (lookup name services)))
  where
    one :
        (o : Option ServiceDefinition)
        → (add_service cfg o sets).hostnames ≡ add_one (hostname cfg) services o sets.hostnames
    one none = refl
    one (some definition) = refl

add_services-urls :
    (cfg : Config) (services : Map ResolvedService) (names : List String) (sets : Sets)
    → (add_services cfg services names sets).urls ≡ add_each (url cfg) services names sets.urls
unfolding add_services add_each add_service add_one
add_services-urls cfg services [] sets = refl
add_services-urls cfg services (name ∷ names) sets =
    add_services-urls cfg services names (add_service cfg (routed (lookup name services)) sets)
    ∙ ap (add_each (url cfg) services names) (one (routed (lookup name services)))
  where
    one :
        (o : Option ServiceDefinition)
        → (add_service cfg o sets).urls ≡ add_one (url cfg) services o sets.urls
    one none = refl
    one (some definition) = refl

abbrev pub hosts_of : Plan → List String
hosts_of plan = map (λ r. r.hostname) plan.routes

abbrev to_origin : List String → List Route
to_origin hosts = map (λ h. record { hostname = h; service = origin_service }) hosts

hosts-to_origin : (hosts : List String) → map (λ r. r.hostname) (to_origin hosts) ≡ hosts
hosts-to_origin [] = refl
hosts-to_origin (h ∷ hosts) = ap (λ hs. h ∷ hs) (hosts-to_origin hosts)

All-to_origin : (hosts : List String) → All (λ r. r.service ≡ origin_service) (to_origin hosts)
All-to_origin [] = tt
All-to_origin (h ∷ hosts) = (refl, All-to_origin hosts)

-- The plan of a graph without an error: the host name of the dashboard and those of the routed
-- services, and their URLs, each once and sorted; every route leads to the private entrypoint.
pub record IsPlan (cfg : Config) (graph : ResolutionGraph) (plan : Plan) : Type 0 where
  pub hosts :
      (h : String)
      → count h (hosts_of plan)
        ≡ one_if (is_wanted (hostname cfg) graph.services graph.order h || shared_hostname cfg == h)
  pub pages :
      (u : String)
      → count u plan.urls
        ≡ one_if (
            is_wanted (url cfg) graph.services graph.order u
            || ("https://" <> shared_hostname cfg) == u)
  pub hosts_sorted : IsSorted (hosts_of plan)
  pub urls_sorted : IsSorted plan.urls
  pub origin : All (λ r. r.service ≡ origin_service) plan.routes

plan_of-IsPlan :
    (cfg : Config) (graph : ResolutionGraph)
    → IsPlan cfg graph (plan_of (add_services cfg graph.services graph.order (dashboard cfg)))
unfolding plan_of dashboard
plan_of-IsPlan cfg graph =
    let sets = add_services cfg graph.services graph.order (dashboard cfg) in
    let hosts = add_services-hostnames cfg graph.services graph.order (dashboard cfg) in
    let urls = add_services-urls cfg graph.services graph.order (dashboard cfg) in
    let listed = hosts-to_origin (sort_strings sets.hostnames) in
    record {
      hosts = λ h.
          ap (count h) listed
          ∙ count-sort_strings h sets.hostnames
          ∙ ap (count h) hosts
          ∙ count-add_each (hostname cfg) graph.services graph.order (shared_hostname cfg ∷ [])
              (λ x. shared_hostname cfg == x) (λ x. single (shared_hostname cfg) x) h;
      pages = λ u.
          count-sort_strings u sets.urls
          ∙ ap (count u) urls
          ∙ count-add_each (url cfg) graph.services graph.order
              (("https://" <> shared_hostname cfg) ∷ [])
              (λ x. ("https://" <> shared_hostname cfg) == x)
              (λ x. single ("https://" <> shared_hostname cfg) x) u;
      hosts_sorted = subst IsSorted (sym listed) (sort_strings-IsSorted sets.hostnames);
      urls_sorted = sort_strings-IsSorted sets.urls;
      origin = All-to_origin (sort_strings sets.hostnames);
    }
  where
    single : (a x : String) → count x (a ∷ []) ≡ one_if (a == x)
    single a x = ground arith

or-true : (a b : Bool) → b ≡ true → (a || b) ≡ true
or-true a b h = ground arith

one_if-true : (b : Bool) → one_if b ≡ 1 → b ≡ true
one_if-true b h = ground arith

ok-injective : {a b : Plan} → ◌≡◌ {A = Result PlanError Plan} (ok a) (ok b) → a ≡ b
ok-injective h =
    ap (λ r. elim r [ ok x ↦ x | err _ ↦ record { management = ""; routes = []; urls = [] } ]) h

plan_checked-IsPlan :
    (cfg : Config) (graph : ResolutionGraph) (errors : List ResolutionError) {plan : Plan}
    → plan_checked cfg graph errors ≡ ok plan
    → IsPlan cfg graph plan
unfolding plan_checked
plan_checked-IsPlan cfg graph (e ∷ errors) h = cc h
plan_checked-IsPlan cfg graph [] h =
    subst (λ plan. IsPlan cfg graph plan) (ok-injective h) (plan_of-IsPlan cfg graph)

-- A plan that `BuildPlan` returns routes the host name of the dashboard and the host name of each
-- enabled and routed service of the graph's order, and no other, each exactly once; it lists the
-- URLs of the same services and of the dashboard, each exactly once; both are sorted, and every
-- route leads to the private entrypoint.
pub build_plan-IsPlan :
    (cfg : Config) (graph : ResolutionGraph) {plan : Plan}
    → build_plan (some cfg) (some graph) ≡ ok plan
    → IsPlan cfg graph plan
unfolding build_plan
build_plan-IsPlan cfg graph h = elim (Bool-cases (cfg.expose.mode == expose_mode_cloudflared)) [
  | inl e ↦ plan_checked-IsPlan cfg graph graph.errors (rw e at h)
  | inr e ↦ cc (rw e at h)
]

plan_checked-ok :
    (cfg : Config) (graph : ResolutionGraph) (errors : List ResolutionError)
    → ((plan : Plan) × (plan_checked cfg graph errors ≡ ok plan)) ↔ (errors ≡ [])
unfolding plan_checked
plan_checked-ok cfg graph [] = (λ _. refl, λ _. (_, refl))
plan_checked-ok cfg graph (e ∷ errors) = (λ (plan, h). cc h, λ h. cc h)

-- `BuildPlan` returns a plan exactly when the exposure mode is cloudflared and the graph records no
-- error.
pub build_plan_iff :
    (cfg : Config) (graph : ResolutionGraph)
    → ((plan : Plan) × (build_plan (some cfg) (some graph) ≡ ok plan))
      ↔ ((cfg.expose.mode ≡ expose_mode_cloudflared) × (graph.errors ≡ []))
unfolding build_plan
build_plan_iff cfg graph = elim (eq-cases cfg.expose.mode expose_mode_cloudflared) [
  | inl (same, e) ↦ rw e (
    λ p. (same, (plan_checked-ok cfg graph graph.errors).0 p),
    λ (_, clear). (plan_checked-ok cfg graph graph.errors).1 clear,
  )
  | inr (other, e) ↦ rw e (λ (plan, h). cc h, λ (same, _). absurd (other same))
]

-- `u` is the address of a public service of the names at its host name `h`: the host alone, or the
-- host and the service's path where the service is routed by path.
pub record IsAddress (cfg : Config) (services : Map ResolvedService) (names : List String)
    (u h : String) : Type 0 where
  pub name : String
  pub listed : contains names name ≡ true
  pub definition : ServiceDefinition
  pub public : routed (lookup name services) ≡ some definition
  pub host : h ≡ hostname cfg definition
  pub address : u ≡ (
      if strategy cfg definition == routing_strategy_path
      then "https://" <> h <> path cfg definition
      else "https://" <> h)

yields-IsAddress :
    (cfg : Config) (services : Map ResolvedService) (name : String) (names : List String)
    (u : String) (o : Option ServiceDefinition)
    → routed (lookup name services) ≡ o
    → yields (url cfg) o u ≡ true
    → (h : String) × (yields (hostname cfg) o h ≡ true) × IsAddress cfg services (name ∷ names) u h
unfolding url contains
yields-IsAddress cfg services name names u none found h = cc h
yields-IsAddress cfg services name names u (some definition) found h = (
  hostname cfg definition,
  eq_refl (hostname cfg definition),
  record {
    name = name;
    listed = rw (eq_refl name) refl;
    definition = definition;
    public = found;
    host = refl;
    address = sym ((eq_iff (url cfg definition) u).0 h);
  },
)

later-IsAddress :
    (cfg : Config) (services : Map ResolvedService) (name : String) (names : List String)
    (u h : String)
    → IsAddress cfg services names u h
    → IsAddress cfg services (name ∷ names) u h
unfolding contains
later-IsAddress cfg services name names u h a = record {
  name = a.name;
  listed = let listed = a.listed in ground arith;
  definition = a.definition;
  public = a.public;
  host = a.host;
  address = a.address;
}

is_wanted-IsAddress :
    (cfg : Config) (services : Map ResolvedService) (names : List String) (u : String)
    → is_wanted (url cfg) services names u ≡ true
    → (h : String) × (is_wanted (hostname cfg) services names h ≡ true)
      × IsAddress cfg services names u h
is_wanted-IsAddress cfg services [] u h = cc h
is_wanted-IsAddress cfg services (name ∷ names) u h =
    let o = routed (lookup name services) in
    elim (Bool-cases (yields (url cfg) o u)) [
      | inl e ↦
          let (host, here, address) = yields-IsAddress cfg services name names u o refl e in
          (host, rw here refl, address)
      | inr e ↦
          let (host, later, address) = is_wanted-IsAddress cfg services names u (rw e at h) in
          (
            host,
            or-true (yields (hostname cfg) o host) _ later,
            later-IsAddress cfg services name names u host address,
          )
    ]

-- Every URL of a plan is that of the dashboard, at the shared host name, or that of an enabled and
-- routed service of the graph's order, at its host name: "https://" and the host name, and behind
-- them nothing, or the path of the service if it is routed by path. The plan has a route for the
-- host name.
pub url_is_routed :
    (cfg : Config) (graph : ResolutionGraph) {plan : Plan} (u : String)
    → build_plan (some cfg) (some graph) ≡ ok plan
    → count u plan.urls ≡ 1
    → (h : String) × (count h (hosts_of plan) ≡ 1)
      × ((h ≡ shared_hostname cfg) × (u ≡ ("https://" <> h))
          ⊎ IsAddress cfg graph.services graph.order u h)
url_is_routed cfg graph {plan} u built listed =
    let p = build_plan-IsPlan cfg graph built in
    elim (Bool-cases (is_wanted (url cfg) graph.services graph.order u)) [
      | inl e ↦
          let (h, wanted, address) = is_wanted-IsAddress cfg graph.services graph.order u e in
          (h, rw wanted at (p.hosts h), inr address)
      | inr e ↦
          let same : (("https://" <> shared_hostname cfg) == u) ≡ true =
            one_if-true _ (sym (rw e at (p.pages u)) ∙ listed) in
          (
            shared_hostname cfg,
            p.hosts (shared_hostname cfg) ∙ ap one_if (or-true _ _ (eq_refl (shared_hostname cfg))),
            inl (refl, sym ((eq_iff _ _).0 same)),
          )
    ]
