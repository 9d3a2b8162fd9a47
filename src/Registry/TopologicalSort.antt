-- ===== src/Registry/TopologicalSort.antt =====
-- `topologicalSort` of internal/registry/resolver.go: Kahn's algorithm with a sorted queue. The
-- entries of the service map stand in any order; the result does not read it.
pub mod Counting
pub mod Rounds
pub mod Start
pub mod Correct
pub mod Order
pub mod Acyclic
use sdbx.Base.{
  ℕ, zero, suc, ◌+◌, ◌-◌, String, Bool, true, false, ◌==◌, not, ◌&&◌, List, [], ◌∷◌, ◌++◌, map,
  Option, none, some, Result, ok, err, nat_eq, keep, length, if◌then◌else◌,
}
use sdbx.Base.Maps.{Map, lookup, insert, keys, has}
use sdbx.Base.Order.{sort_strings, count}
use sdbx.Registry.Types.Resolved.{ResolvedService, Cause, circular_dependency}

abbrev pub Services : Type 0
Services = Map ResolvedService

-- inDegree[name]: the dependencies of a service that are in the graph, each as often as listed.
unfoldable pub in_degree : Services → ResolvedService → ℕ
in_degree services svc = length (keep (λ dep. has dep services) svc.dependencies)

-- The services that depend on a node, each as often as it lists the node.
repeat : ℕ → String → List String
repeat zero name = []
repeat (suc n) name = name ∷ repeat n name

unfoldable pub dependents : String → Services → List String
unfolding repeat
dependents node [] = []
dependents node ((name, svc) ∷ rest) =
    repeat (count node svc.dependencies) name ++ dependents node rest

-- adjList[node], sorted
unfoldable pub adj_list : Services → String → List String
adj_list services node = sort_strings (dependents node services)

pub record State : Type 0 where
  pub degrees : Map ℕ
  pub queue : List String
  pub order : List String

abbrev pub degree_of : Option ℕ → ℕ
degree_of none = 0
degree_of (some d) = d

abbrev pub degree : State → String → ℕ
degree s name = degree_of (lookup name s.degrees)

initial_degrees : Services → Services → Map ℕ
initial_degrees all [] = []
initial_degrees all ((name, svc) ∷ rest) = (name, in_degree all svc) ∷ initial_degrees all rest

zero_names : Map ℕ → List String
zero_names [] = []
zero_names ((name, d) ∷ rest) =
    let more = zero_names rest in if nat_eq d 0 then name ∷ more else more

unfoldable pub start : Services → State
unfolding initial_degrees zero_names
start services = record {
  degrees = initial_degrees services services;
  queue = sort_strings (zero_names (initial_degrees services services));
  order = [];
}

-- inDegree[dependent]--, and the test for zero: the degree has just become 0 if it was 1.
unfoldable pub decrement : String → State → State
decrement name s = record s {
  degrees = insert name (degree s name - 1) s.degrees;
  queue = if nat_eq (degree s name) 1 then sort_strings (s.queue ++ (name ∷ [])) else s.queue;
}

unfoldable pub decrement_all : List String → State → State
decrement_all [] s = s
decrement_all (name ∷ names) s = decrement_all names (decrement name s)

-- One round of the loop, for the node at the head of the queue.
unfoldable pub visit : Services → String → List String → State → State
visit services node queue s =
    decrement_all (adj_list services node)
      (record s { queue = queue; order = s.order ++ (node ∷ []) })

unfoldable pub loop : ℕ → Services → State → State
loop zero services s = s
loop (suc fuel) services s = elim s.queue [
  | [] ↦ s
  | node ∷ queue ↦ loop fuel services (visit services node queue s)
]

unfoldable pub topological_sort : Services → Result Cause (List String)
topological_sort services =
    let final = loop (length services) services (start services) in
    if not (nat_eq (length final.order) (length services))
    then err circular_dependency
    else ok final.order
