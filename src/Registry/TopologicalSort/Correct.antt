-- ===== src/Registry/TopologicalSort/Correct.antt =====
-- Each round of the loop keeps the invariant.
use sdbx.Registry.Types.Resolved.{ResolvedService}
use sdbx.Base.{
  ◌+◌, ◌-◌, String, true, false, ◌≡◌, refl, ap, ◌∙◌, not, ◌&&◌, List, [], ◌∷◌, ◌++◌, Option, none,
  some, eq_iff, eq_refl, arith, ltb, leb, eq-cases, inl, inr, if◌then◌else◌,
}
use sdbx.Base.Maps.{lookup, has, is_some}
use sdbx.Base.Order.{count}
use sdbx.Config.{contains}
use sdbx.Registry.TopologicalSort.{Services, State, degree, adj_list, visit}
use sdbx.Registry.TopologicalSort.Counting.{one_if, contains-count, contains-append, count-append}
use sdbx.Registry.TopologicalSort.Rounds.{
  dependencies, IsMap, open_count, count-adj_list, decrement_all-degree, decrement_all-queue,
  decrement_all-order, dependencies_of,
}
use sdbx.Registry.TopologicalSort.Start.{Invariant}

open_count-append :
    (services : Services) (placed : List String) (node : String) (deps : List String)
    → open_count services placed deps
      ≡ open_count services (placed ++ (node ∷ [])) deps
        + (if has node services && not (contains placed node) then count node deps else 0)
open_count-append services placed node [] = ground arith
open_count-append services placed node (d ∷ deps) = elim (eq-cases node d) [
  | inl (e, t) ↦
      rw (contains-append placed node d)
        (ground (arith, open_count-append services placed node deps, eq_iff d node, eq_iff node d))
  | inr (e, t) ↦
      rw (contains-append placed node d)
        (ground (arith, open_count-append services placed node deps, eq_iff d node, eq_iff node d))
]

no_dependencies :
    (services : Services) (placed : List String) (found : Option ResolvedService)
    → is_some found ≡ false
    → open_count services placed (dependencies_of found) ≡ 0
no_dependencies services placed none h = refl
no_dependencies services placed (some svc) h = cc

-- The node at the head of the queue: it is a service of the graph, has no open dependency, and is
-- not placed yet.
pub record IsReady (services : Services) (s : State) (node : String) : Type 0 where
  pub known : has node services ≡ true
  pub closed : open_count services s.order (dependencies services node) ≡ 0
  pub unplaced : contains s.order node ≡ false

pub head-IsReady :
    (services : Services) (s : State) (node : String) (queue : List String)
    → Invariant services s
    → s.queue ≡ node ∷ queue
    → IsReady services s node
head-IsReady services s node queue inv e =
    let q = ap (count node) e in
    record {
      known = ground (arith, inv.placed node, q, eq_refl node);
      closed = ground (arith, inv.placed node, inv.degrees node, q, eq_refl node);
      unplaced = ground (arith, inv.placed node, q, eq_refl node, contains-count s.order node);
    }

pub visit-order :
    (services : Services) (node : String) (queue : List String) (s : State)
    → (visit services node queue s).order ≡ s.order ++ (node ∷ [])
unfolding visit
visit-order services node queue s = decrement_all-order (adj_list services node) _

module _ (services : Services) (h : IsMap services) (s : State) (node : String)
    (queue : List String) (inv : Invariant services s) (e : s.queue ≡ node ∷ queue) where
  visit-degree :
      (x : String)
      → degree (visit services node queue s) x ≡ degree s x - count node (dependencies services x)
  unfolding visit
  visit-degree x =
      decrement_all-degree (adj_list services node) x _
      ∙ ap (λ n. degree s x - n) (count-adj_list node x services h)

  visit-queue :
      (x : String)
      → count x (visit services node queue s).queue
        ≡ count x queue
          + one_if (ltb 0 (degree s x) && leb (degree s x) (count node (dependencies services x)))
  unfolding visit
  visit-queue x =
      decrement_all-queue (adj_list services node) x _
      ∙ ap (λ n. count x queue + one_if (ltb 0 (degree s x) && leb (degree s x) n))
          (count-adj_list node x services h)

  -- The open dependencies of a service before and after the node is placed.
  open_count-visit :
      (x : String)
      → open_count services s.order (dependencies services x)
        ≡ open_count services (s.order ++ (node ∷ [])) (dependencies services x)
          + count node (dependencies services x)
  open_count-visit x =
      let r = head-IsReady services s node queue inv e in
      open_count-append services s.order node (dependencies services x)
      ∙ rw (r.known, r.unplaced) refl

  unknown-closed : (x : String) → has x services ≡ false → degree s x ≡ 0
  unknown-closed x no_key =
      inv.degrees x ∙ no_dependencies services s.order (lookup x services) no_key

  pub visit-Invariant : Invariant services (visit services node queue s)
  visit-Invariant = record {
    degrees = λ x.
        rw (visit-order services node queue s)
          (omega (arith, visit-degree x, inv.degrees x, open_count-visit x));
    placed = λ x. rw (visit-order services node queue s) (
        ground (
          arith,
          visit-degree x,
          visit-queue x,
          inv.placed x,
          inv.degrees x,
          open_count-visit x,
          unknown-closed x,
          ap (count x) e,
          count-append x s.order (node ∷ []),
        ));
  }
