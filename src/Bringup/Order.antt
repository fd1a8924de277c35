-- ===== src/Bringup/Order.antt =====
-- The loop of `BringupOrder` from the start, with fuel for every node.
use Prim.Native.String.{String}
use conductor_ros.Prelude.{
  ℕ, zero, suc, ◌≤◌, ◌≡◌, refl, sym, ◌∙◌, Bool, List, [], ◌∷◌, ◌==◌, arith, length,
}
use conductor_ros.Prelude.Names.{
  mem, Distinct, keep, mem-keep, keep-Distinct, pending, pending-le-length, pending-nil,
}
use conductor_ros.Bringup.Deps.{Deps, edges_of}
use conductor_ros.Bringup.Kahn.{Queue, position, take_ready, drain, start_queue}
use conductor_ros.Bringup.Edges.{depends_on, mem-edges_of, edges_of-IsCounted}
use conductor_ros.Bringup.Sort.{mem-sort_by, sort_by-Distinct}
use conductor_ros.Bringup.Invariant.{Ordered, Graph, Inv, take_ready-Inv, take_ready_measure}

module _ (nodes : List String) (edges : String → List String) (g : Graph nodes edges) where
  -- With fuel for the nodes that are left, the loop ends with no node ready.
  drain_lem :
      (fuel : ℕ) (q : Queue) (ready : List String)
      → q.ready ≡ ready
      → Inv nodes edges q
      → pending q.order nodes ≤ fuel
      → Inv nodes edges (drain edges nodes fuel q) × ((drain edges nodes fuel q).ready ≡ [])
  unfolding drain
  drain_lem zero q [] e i h = (i, e)
  drain_lem (suc fuel) q [] e i h = rw (e, drain) (i, e)
  drain_lem zero q (n ∷ rest) e i h =
      absurd (omega (arith, take_ready_measure nodes edges g q i n rest e))
  drain_lem (suc fuel) q (n ∷ rest) e i h =
      rw (e, drain)
        (drain_lem fuel (take_ready edges nodes n rest q) _ refl
          (take_ready-Inv nodes edges g q i n rest e)
          (omega (arith, take_ready_measure nodes edges g q i n rest e)))

abbrev pub dependencies : Deps → List String → String → List String
dependencies deps nodes n = (edges_of deps nodes n).edges

module _ (nodes : List String) (deps : Deps) (distinct : Distinct nodes) where
  graph : Graph nodes (dependencies deps nodes)
  graph = record {
    distinct = distinct;
    once = λ x. (edges_of-IsCounted deps nodes x).distinct;
    within = λ x p h. unfold depends_on in ground (arith, mem-edges_of deps nodes x p, h);
  }

  abbrev free : String → Bool
  free n = (edges_of deps nodes n).indegree == 0

  start-Inv : Inv nodes (dependencies deps nodes) (start_queue nodes deps)
  unfolding start_queue mem
  start-Inv = record {
    same = refl;
    distinct =
        sort_by-Distinct (position nodes) (keep free nodes) (keep-Distinct free nodes distinct);
    within = λ x h.
        ground (arith, mem-sort_by (position nodes) x (keep free nodes), mem-keep free x nodes, h);
    counts = λ x node out.
        (edges_of-IsCounted deps nodes x).counted ∙ sym (pending-nil (dependencies deps nodes x));
    waiting = λ x node out.
        mem-sort_by (position nodes) x (keep free nodes) ∙ mem-keep free x nodes ∙ rw node;
    ordered = Ordered.start;
  }

  unfoldable pub final : Queue
  final = drain (dependencies deps nodes) nodes (length nodes) (start_queue nodes deps)

  fuel_enough : pending (start_queue nodes deps).order nodes ≤ length nodes
  unfolding start_queue
  fuel_enough = pending-le-length [] nodes

  pub final_lem : Inv nodes (dependencies deps nodes) final × (final.ready ≡ [])
  unfolding final
  final_lem =
      drain_lem nodes (dependencies deps nodes) graph (length nodes) (start_queue nodes deps) _ refl
        start-Inv fuel_enough
