-- ===== src/Registry/TopologicalSort/Acyclic.antt =====
-- `topologicalSort` reports a circular dependency exactly for graphs with a cycle: a graph has no
-- cycle when its services can be ranked with each dependency below its dependents.
use mathlib.Core.List.{append_assoc}
use sdbx.Base.{
  ℕ, zero, suc, ◌≤◌, ◌<◌, String, true, false, ◌≡◌, ◌↔◌, refl, ap, ◌==◌, List, [], ◌∷◌, ◌++◌,
  Option, none, some, ok, eq_refl, arith, length, eq-cases, inl, inr, if◌then◌else◌,
}
use sdbx.Base.Maps.{lookup, keys, has, is_some}
use sdbx.Base.Order.{count}
use sdbx.Config.{contains}
use sdbx.Registry.Types.Resolved.{ResolvedService}
use sdbx.Registry.TopologicalSort.{Services, State, topological_sort}
use sdbx.Registry.TopologicalSort.Counting.{
  contains-count, has-count, length-le_of_count, count-append,
}
use sdbx.Registry.TopologicalSort.Rounds.{dependencies, dependencies_of, IsMap}
use sdbx.Registry.TopologicalSort.Order.{
  IsOrdered, closed_of_Supported, Ended, final, final-Ended, length-keys, queued-le,
  topological_sort-IsOrdered,
}

-- Each dependency that is in the graph has a lower rank than the service that lists it.
abbrev pub IsRanked : (String → ℕ) → Services → Type 0
IsRanked rank services =
    (x d : String)
    → contains (dependencies services x) d ≡ true
    → has d services ≡ true
    → rank d < rank x

module _ (rank : String → ℕ) (services : Services) (ranked : IsRanked rank services) (s : State)
    (ended : Ended services s) where
  all_placed : (n : ℕ) (x : String) → rank x < n → has x services ≡ true → contains s.order x ≡ true
  all_placed zero x h k = elim h [ ]
  all_placed (suc n) x h k =
      let inv = ended.progress.inv in
      let closed =
        closed_of_Supported services s.order (dependencies services x)
          (λ d c k'. all_placed n d (omega (arith, ranked x d c k')) k') in
      ground (
        arith,
        inv.placed x,
        inv.degrees x,
        closed,
        ap (count x) ended.queue,
        contains-count s.order x,
      )

  full_order : IsMap services → length s.order ≡ length services
  full_order h = omega (
    arith,
    length-le_of_count (keys services) s.order (λ x. ground (
      arith,
      h x,
      has-count x services,
      contains-count s.order x,
      all_placed (suc (rank x)) x (omega arith),
    )),
    queued-le services s ended.progress.inv,
    length-keys services,
  )

-- The place of a text in a list, or the length of the list.
abbrev position : List String → String → ℕ
position [] x = 0
position (y ∷ ys) x = if y == x then 0 else suc (position ys x)

position-lt :
    (xs ys : List String) (d : String) → contains xs d ≡ true → position (xs ++ ys) d < length xs
unfolding contains
position-lt [] ys d h = cc
position-lt (x ∷ xs) ys d h = ground (arith, position-lt xs ys d)

position-append :
    (xs ys : List String) (x : String)
    → contains xs x ≡ false
    → position (xs ++ x ∷ ys) x ≡ length xs
unfolding contains
position-append [] ys x h = rw (eq_refl x)
position-append (z ∷ xs) ys x h = ground (arith, position-append xs ys x)

not-contains_of_count :
    (xs ys : List String) (x : String) → count x (xs ++ x ∷ ys) ≤ 1 → contains xs x ≡ false
not-contains_of_count xs ys x h =
    ground (arith, contains-count xs x, count-append x xs (x ∷ ys), eq_refl x)

-- In an ordered list a dependency of a service has an earlier place than the service.
position_of_IsOrdered :
    (services : Services) (seen xs : List String) (x d : String)
    → IsOrdered services seen xs
    → count x (seen ++ xs) ≤ 1
    → contains xs x ≡ true
    → contains (dependencies services x) d ≡ true
    → has d services ≡ true
    → position (seen ++ xs) d < position (seen ++ xs) x
unfolding contains
position_of_IsOrdered services seen [] x d o h c k k' = cc
position_of_IsOrdered services seen (y ∷ ys) x d (p, o) h c k k' = elim (eq-cases y x) [
  | inl (e, t) ↦
      let before = p d (rw e k) k' in
      let absent =
        not-contains_of_count seen ys x (rw (ap (λ z. count x (seen ++ z ∷ ys)) e) at h) in
      rw e (rw (position-append seen ys x absent) (position-lt seen (x ∷ ys) d before))
  | inr (e, t) ↦ rw append_assoc at (
      position_of_IsOrdered services (seen ++ (y ∷ [])) ys x d o (rw append_assoc h) (ground arith)
        k k')
]

known_of_dependency :
    (d : String) (found : Option ResolvedService)
    → contains (dependencies_of found) d ≡ true
    → is_some found ≡ true
unfolding contains
known_of_dependency d none c = cc
known_of_dependency d (some svc) c = refl

sorted_of_full :
    (services : Services)
    → length (final services).order ≡ length services
    → topological_sort services ≡ ok (final services).order
unfolding topological_sort
sorted_of_full services full = ground arith

IsRanked-of_order :
    (services : Services) (order : List String)
    → IsMap services
    → topological_sort services ≡ ok order
    → IsRanked (position order) services
IsRanked-of_order services order h e x d c k =
    let (ordered, counts) = topological_sort-IsOrdered services order h e in
    position_of_IsOrdered services [] order x d ordered (omega (arith, counts x, h x))
      (ground (
        arith,
        counts x,
        contains-count order x,
        has-count x services,
        known_of_dependency d (lookup x services) c,
      ))
      c k

-- A graph has an order exactly when its services can be ranked with every dependency below the
-- services that list it: `topologicalSort` fails for the cyclic graphs and only for those.
pub topological_sort_iff_acyclic :
    (services : Services)
    → IsMap services
    → ((order : List String) × (topological_sort services ≡ ok order))
      ↔ ((rank : String → ℕ) × IsRanked rank services)
topological_sort_iff_acyclic services h = (
  (λ (order, e). (position order, IsRanked-of_order services order h e)),
  (λ (rank, ranked).
      let full = full_order rank services ranked (final services) (final-Ended services h) h in
      ((final services).order, sorted_of_full services full)),
)
