-- ===== src/Registry/TopologicalSort/Rounds.antt =====
-- The loop of `topologicalSort` keeps its invariant: degrees count the dependencies that have no
-- place yet, and a service is queued or placed, once, exactly when that count is 0.
use sdbx.Base.{
  ℕ, zero, suc, ◌+◌, ◌-◌, ◌≤◌, String, ◌≡◌, refl, ap, ◌∙◌, ◌==◌, not, ◌&&◌, List, [], ◌∷◌, ◌++◌,
  Option, none, some, arith, ltb, leb, nat_eq, keep, length, eq-cases, inl, inr, if◌then◌else◌,
}
use sdbx.Base.Maps.{lookup, keys, has, lookup-insert}
use sdbx.Base.Order.{count, count-sort_strings}
use sdbx.Config.{contains}
use sdbx.Registry.Types.Resolved.{ResolvedService}
use sdbx.Registry.TopologicalSort.{
  Services, State, degree, dependents, repeat, adj_list, decrement, decrement_all,
}
use sdbx.Registry.TopologicalSort.Counting.{one_if, count-append}

abbrev pub dependencies_of : Option ResolvedService → List String
dependencies_of none = []
dependencies_of (some svc) = svc.dependencies

-- The dependencies that the graph records for a service.
abbrev pub dependencies : Services → String → List String
dependencies services name = dependencies_of (lookup name services)

-- A Go map holds each key once.
abbrev pub IsMap : Services → Type 0
IsMap services = (k : String) → count k (keys services) ≤ 1

-- The dependencies in the graph that are not among the placed services.
abbrev pub open_count : Services → List String → List String → ℕ
open_count services placed deps =
    length (keep (λ d. has d services && not (contains placed d)) deps)

decrement-degree :
    (name x : String) (s : State) → degree (decrement name s) x ≡ degree s x - one_if (name == x)
unfolding decrement
decrement-degree name x s =
    rw (lookup-insert name x (degree s name - 1) s.degrees)
      (elim (eq-cases name x) [ inl (e, t) ↦ rw (t, e) refl | inr (e, t) ↦ rw t (omega arith) ])

decrement-queue :
    (name x : String) (s : State)
    → count x (decrement name s).queue
      ≡ count x s.queue + one_if (name == x && nat_eq (degree s name) 1)
unfolding decrement
decrement-queue name x s =
    ground
      (arith, count-sort_strings x (s.queue ++ (name ∷ [])), count-append x s.queue (name ∷ []))

pub decrement_all-degree :
    (names : List String) (x : String) (s : State)
    → degree (decrement_all names s) x ≡ degree s x - count x names
unfolding decrement_all
decrement_all-degree [] x s = omega arith
decrement_all-degree (name ∷ names) x s =
    omega (arith, decrement_all-degree names x (decrement name s), decrement-degree name x s)

-- A service joins the queue once, when its degree falls to 0.
pub decrement_all-queue :
    (names : List String) (x : String) (s : State)
    → count x (decrement_all names s).queue
      ≡ count x s.queue + one_if (ltb 0 (degree s x) && leb (degree s x) (count x names))
unfolding decrement_all
decrement_all-queue [] x s = ground arith
decrement_all-queue (name ∷ names) x s = elim (eq-cases name x) [
  | inl (e, t) ↦ ground (
    arith,
    decrement_all-queue names x (decrement name s),
    decrement-queue name x s,
    decrement-degree name x s,
    ap (degree s) e,
  )
  | inr (e, t) ↦ ground (
    arith,
    decrement_all-queue names x (decrement name s),
    decrement-queue name x s,
    decrement-degree name x s,
  )
]

pub decrement_all-order :
    (names : List String) (s : State) → (decrement_all names s).order ≡ s.order
unfolding decrement_all decrement
decrement_all-order [] s = refl
decrement_all-order (name ∷ names) s = decrement_all-order names (decrement name s)

count-repeat : (x name : String) (n : ℕ) → count x (repeat n name) ≡ (if name == x then n else 0)
unfolding repeat
count-repeat x name zero = ground arith
count-repeat x name (suc n) = ground (arith, count-repeat x name n)

not_key :
    (node x : String) (services : Services)
    → count x (keys services) ≡ 0
    → count x (dependents node services) ≡ 0
unfolding dependents
not_key node x [] h = refl
not_key node x ((name, svc) ∷ rest) h = ground (
  arith,
  not_key node x rest,
  count-append x (repeat (count node svc.dependencies) name) (dependents node rest),
  count-repeat x name (count node svc.dependencies),
)

-- A service stands in the adjacency list of a node as often as it lists the node.
count-dependents :
    (node x : String) (services : Services)
    → count x (keys services) ≤ 1
    → count x (dependents node services) ≡ count node (dependencies services x)
unfolding dependents lookup
count-dependents node x [] h = refl
count-dependents node x ((name, svc) ∷ rest) h = elim (eq-cases name x) [
  | inl (e, t) ↦ rw t (
      ground (
        arith,
        not_key node x rest,
        count-append x (repeat (count node svc.dependencies) name) (dependents node rest),
        count-repeat x name (count node svc.dependencies),
      ))
  | inr (e, t) ↦ rw t (
      ground (
        arith,
        count-dependents node x rest,
        count-append x (repeat (count node svc.dependencies) name) (dependents node rest),
        count-repeat x name (count node svc.dependencies),
      ))
]

pub count-adj_list :
    (node x : String) (services : Services)
    → IsMap services
    → count x (adj_list services node) ≡ count node (dependencies services x)
unfolding adj_list
count-adj_list node x services h =
    count-sort_strings x (dependents node services) ∙ count-dependents node x services (h x)
