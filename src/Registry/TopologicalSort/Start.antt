-- ===== src/Registry/TopologicalSort/Start.antt =====
-- The invariant of the loop, and that the state before the first round has it.
use sdbx.Base.{
  ℕ, ◌+◌, ◌≤◌, String, ◌≡◌, refl, sym, ◌&&◌, List, [], ◌∷◌, arith, nat_eq, keep, length, eq-cases,
  inl, inr,
}
use sdbx.Base.Maps.{Map, lookup, keys, has}
use sdbx.Base.Order.{count, count-sort_strings}
use sdbx.Config.{contains}
use sdbx.Registry.TopologicalSort.{
  Services, State, degree, degree_of, in_degree, initial_degrees, zero_names, start,
}
use sdbx.Registry.TopologicalSort.Counting.{one_if}
use sdbx.Registry.TopologicalSort.Rounds.{dependencies, IsMap, open_count}

pub record Invariant (services : Services) (s : State) : Type 0 where
  pub degrees : (x : String) → degree s x ≡ open_count services s.order (dependencies services x)
  pub placed :
      (x : String)
      → count x s.queue + count x s.order ≡ one_if (has x services && nat_eq (degree s x) 0)

open_count_start :
    (services : Services) (deps : List String)
    → open_count services [] deps ≡ length (keep (λ d. has d services) deps)
unfolding contains
open_count_start services [] = refl
open_count_start services (d ∷ deps) = ground (arith, open_count_start services deps)

lookup-initial_degrees :
    (all rest : Services) (x : String)
    → degree_of (lookup x (initial_degrees all rest)) ≡ open_count all [] (dependencies rest x)
unfolding lookup initial_degrees in_degree
lookup-initial_degrees all [] x = refl
lookup-initial_degrees all ((name, svc) ∷ rest) x = elim (eq-cases name x) [
  | inl (e, t) ↦ rw t (sym (open_count_start all svc.dependencies))
  | inr (e, t) ↦ rw t (lookup-initial_degrees all rest x)
]

has-initial_degrees :
    (all rest : Services) (x : String) → has x (initial_degrees all rest) ≡ has x rest
unfolding lookup initial_degrees
has-initial_degrees all [] x = refl
has-initial_degrees all ((name, svc) ∷ rest) x = ground (arith, has-initial_degrees all rest x)

keys-initial_degrees :
    (all rest : Services) (x : String)
    → count x (keys (initial_degrees all rest)) ≡ count x (keys rest)
unfolding initial_degrees
keys-initial_degrees all [] x = refl
keys-initial_degrees all ((name, svc) ∷ rest) x = ground (arith, keys-initial_degrees all rest x)

no_zero : (m : Map ℕ) (x : String) → count x (keys m) ≡ 0 → count x (zero_names m) ≡ 0
unfolding zero_names
no_zero [] x h = refl
no_zero ((name, d) ∷ m) x h = ground (arith, no_zero m x)

count-zero_names :
    (m : Map ℕ) (x : String)
    → count x (keys m) ≤ 1
    → count x (zero_names m) ≡ one_if (has x m && nat_eq (degree_of (lookup x m)) 0)
unfolding zero_names lookup
count-zero_names [] x h = refl
count-zero_names ((name, d) ∷ m) x h = elim (eq-cases name x) [
  | inl (e, t) ↦ rw t (ground (arith, no_zero m x))
  | inr (e, t) ↦ rw t (ground (arith, count-zero_names m x))
]

pub start-Invariant : (services : Services) → IsMap services → Invariant services (start services)
unfolding start
start-Invariant services h =
    let m = initial_degrees services services in
    record {
      degrees = lookup-initial_degrees services services;
      placed = λ x. ground (
        arith,
        count-sort_strings x (zero_names m),
        count-zero_names m x,
        keys-initial_degrees services services x,
        has-initial_degrees services services x,
        h x,
      );
    }
