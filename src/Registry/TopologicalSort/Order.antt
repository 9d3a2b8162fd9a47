-- ===== src/Registry/TopologicalSort/Order.antt =====
-- What the order of `topologicalSort` promises, and that a graph with no cycle has one.
use mathlib.Core.List.{append_assoc, append-nil}
use sdbx.Base.{
  ℕ, zero, suc, ◌+◌, ◌≤◌, String, true, ◌≡◌, refl, sym, ap, ◌∙◌, List, [], ◌∷◌, ◌++◌, ok, eq_iff,
  eq_refl, arith, length, length-append,
}
use sdbx.Base.Maps.{keys, has}
use sdbx.Base.Order.{count}
use sdbx.Config.{contains}
use sdbx.Registry.TopologicalSort.{Services, State, visit, loop, start, topological_sort}
use sdbx.Registry.TopologicalSort.Counting.{
  count-append, has-count, length-le_of_count, count-eq_of_length,
}
use sdbx.Registry.TopologicalSort.Rounds.{dependencies, IsMap, open_count}
use sdbx.Registry.TopologicalSort.Start.{Invariant, start-Invariant}
use sdbx.Registry.TopologicalSort.Correct.{head-IsReady, visit-order, visit-Invariant}

-- Every dependency of the service that is in the graph is among the placed services.
abbrev pub Supported : Services → List String → String → Type 0
Supported services placed x =
    (d : String)
    → contains (dependencies services x) d ≡ true
    → has d services ≡ true
    → contains placed d ≡ true

-- Every service of the list has its dependencies among those before it.
abbrev pub IsOrdered : Services → List String → List String → Type 0
IsOrdered services seen [] = Unit
IsOrdered services seen (x ∷ xs) =
    Supported services seen x × IsOrdered services (seen ++ (x ∷ [])) xs

IsOrdered-append :
    (services : Services) (seen xs : List String) (x : String)
    → IsOrdered services seen xs
    → Supported services (seen ++ xs) x
    → IsOrdered services seen (xs ++ (x ∷ []))
IsOrdered-append services seen [] x h k = (rw append-nil at k, tt)
IsOrdered-append services seen (y ∷ ys) x (p, h) k =
    (p, IsOrdered-append services (seen ++ (y ∷ [])) ys x h (rw append_assoc k))

Supported_of_closed :
    (services : Services) (placed deps : List String) (d : String)
    → open_count services placed deps ≡ 0
    → contains deps d ≡ true
    → has d services ≡ true
    → contains placed d ≡ true
unfolding contains
Supported_of_closed services placed [] d z h k = cc
Supported_of_closed services placed (e ∷ deps) d z h k =
    ground (arith, Supported_of_closed services placed deps d, eq_iff e d)

pub closed_of_Supported :
    (services : Services) (placed deps : List String)
    → ((d : String) → contains deps d ≡ true → has d services ≡ true → contains placed d ≡ true)
    → open_count services placed deps ≡ 0
unfolding contains
closed_of_Supported services placed [] h = refl
closed_of_Supported services placed (e ∷ deps) h = ground (
  arith,
  closed_of_Supported services placed deps (λ d c k. h d (ground arith) k),
  h e,
  eq_refl e,
)

-- The invariant together with the order of what is placed.
pub record Progress (services : Services) (s : State) : Type 0 where
  pub inv : Invariant services s
  pub order : IsOrdered services [] s.order

visit-Progress :
    (services : Services) (h : IsMap services) (s : State) (node : String) (queue : List String)
    → Progress services s
    → s.queue ≡ node ∷ queue
    → Progress services (visit services node queue s)
visit-Progress services h s node queue p e = record {
  inv = visit-Invariant services h s node queue p.inv e;
  order = rw (visit-order services node queue s) (
      IsOrdered-append services [] s.order node p.order λ d c k.
        Supported_of_closed services s.order (dependencies services node) d
          (head-IsReady services s node queue p.inv e).closed c k);
}

loop-Progress :
    (fuel : ℕ) (services : Services) (s : State)
    → IsMap services
    → Progress services s
    → Progress services (loop fuel services s)
unfolding loop
loop-Progress zero services s h p = p
loop-Progress (suc fuel) services s h p =
    step (λ s' p'. loop-Progress fuel services s' h p') s.queue refl
  where
    step :
        ((s' : State) → Progress services s' → Progress services (loop fuel services s'))
        → (queue : List String) → s.queue ≡ queue
        → Progress services (loop (suc fuel) services s)
    step rec [] e = rw (e, loop) p
    step rec (node ∷ queue) e =
        rw (e, loop)
          (rec (visit services node queue s) (visit-Progress services h s node queue p e))

pub placed-le-keys :
    (services : Services) (s : State)
    → Invariant services s
    → (x : String) → count x s.queue + count x s.order ≤ count x (keys services)
placed-le-keys services s inv x = ground (arith, inv.placed x, has-count x services)

pub length-keys : (services : Services) → length (keys services) ≡ length services
length-keys [] = refl
length-keys (e ∷ services) = ap suc (length-keys services)

pub queued-le :
    (services : Services) (s : State)
    → Invariant services s
    → length s.queue + length s.order ≤ length services
queued-le services s inv = omega (
  arith,
  length-le_of_count (s.queue ++ s.order) (keys services)
      (λ x. omega (arith, placed-le-keys services s inv x, count-append x s.queue s.order)),
  length-append s.queue s.order,
  length-keys services,
)

-- With as many rounds as there are services left to place, the loop ends with an empty queue.
loop-queue :
    (fuel : ℕ) (services : Services) (s : State)
    → IsMap services
    → Progress services s
    → length services ≤ fuel + length s.order
    → (loop fuel services s).queue ≡ []
unfolding loop
loop-queue zero services s h p enough = no_room s.queue (omega (arith, queued-le services s p.inv))
  where
    no_room : (queue : List String) → length queue ≡ 0 → queue ≡ []
    no_room [] z = refl
    no_room (x ∷ xs) z = absurd (omega arith)
loop-queue (suc fuel) services s h p enough =
    step (λ s' p' more. loop-queue fuel services s' h p' more) s.queue refl
  where
    step :
        ((s' : State)
          → Progress services s'
          → length services ≤ fuel + length s'.order
          → (loop fuel services s').queue ≡ [])
        → (queue : List String) → s.queue ≡ queue
        → (loop (suc fuel) services s).queue ≡ []
    step rec [] e = rw (e, loop) e
    step rec (node ∷ queue) e =
        rw (e, loop)
          (rec (visit services node queue s) (visit-Progress services h s node queue p e) (
            omega (
              arith,
              ap length (visit-order services node queue s),
              length-append s.order (node ∷ []),
            )))

-- The state in which the loop of `topologicalSort` ends.
abbrev pub final : Services → State
final services = loop (length services) services (start services)

start-Progress : (services : Services) → IsMap services → Progress services (start services)
unfolding start
start-Progress services h = record { inv = start-Invariant services h; order = tt }

pub record Ended (services : Services) (s : State) : Type 0 where
  pub progress : Progress services s
  pub queue : s.queue ≡ []

pub final-Ended : (services : Services) → IsMap services → Ended services (final services)
final-Ended services h =
    let p = start-Progress services h in
    record {
      progress = loop-Progress (length services) services (start services) h p;
      queue = loop-queue (length services) services (start services) h p (omega arith);
    }

-- An order that `topologicalSort` returns holds every service of the graph once and nothing else,
-- and each service stands behind those of its dependencies that are in the graph.
pub topological_sort-IsOrdered :
    (services : Services) (order : List String)
    → IsMap services
    → topological_sort services ≡ ok order
    → IsOrdered services [] order × ((x : String) → count x order ≡ count x (keys services))
unfolding topological_sort
topological_sort-IsOrdered services order h e =
    let s = final services in
    let ended = final-Ended services h in
    let full : length s.order ≡ length services = ground arith in
    let same : s.order ≡ order = ground arith in
    (
      rw same at ended.progress.order,
      rw same at (
          count-eq_of_length s.order (keys services)
            (λ x. omega (arith, placed-le-keys services s ended.progress.inv x))
            (full ∙ sym (length-keys services))),
    )
