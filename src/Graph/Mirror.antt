-- ===== src/Graph/Mirror.antt =====
-- internal/graph/graph.go: the loop of the static `BringupOrder` keeps what the runtime's keeps.
use Prim.Native.String.{String}
use text.Mathlib.Text.{◌==◌ as str_eq}
use text.Mathlib.TextEquality.{eq_iff}
use conductor_ros.Prelude.{
  ℕ, zero, suc, ◌+◌, ◌≤◌, ◌≡◌, refl, sym, ap, ◌∙◌, Bool, false, ◌||◌, List, [], ◌∷◌, ◌++◌, ◌==◌,
  leb, length, inl, inr, Bool-cases, arith,
}
use conductor_ros.Prelude.Names.{
  mem, mem-append, Distinct, append-Distinct, apart_of-Distinct, left_of-Distinct,
  right_of-Distinct, mem-keep, keep-Distinct, pending, pending-le-length, pending-nil,
}
use conductor_ros.Bringup.Kahn.{Queue, position, insert_by, sort_by, release_all, take_ready}
use conductor_ros.Bringup.Sort.{mem-insert_by, mem-sort_by, sort_by-Distinct}
use conductor_ros.Bringup.Invariant.{Ordered, Graph, Inv, take_ready-Inv, take_ready_measure}
use conductor_ros.Bringup.Promise.{none_of-mem}
use conductor_ros.Graph.Order.{take_next, drain_sorted, start_static}

insert_by-once :
    (key : String → ℕ) (x : String) (xs : List String)
    → Distinct (insert_by key x xs)
    → Distinct (x ∷ xs)
unfolding insert_by mem
insert_by-once key x [] d = d
insert_by-once key x (y ∷ ys) d = elim (Bool-cases (leb (key x) (key y))) [
  | inl e ↦ rw e at d
  | inr e ↦
      let (out, d') : (mem y (insert_by key x ys) ≡ false) × Distinct (insert_by key x ys) =
        rw e at d in
      let (once, rest) = insert_by-once key x ys d' in
      let apart : (str_eq x y || mem y ys) ≡ false = sym (mem-insert_by key x y ys) ∙ out in
      (ground (arith, apart, once, eq_iff x y, eq_iff y x), (ground (arith, apart), rest))
]

sort_by-once : (key : String → ℕ) (xs : List String) → Distinct (sort_by key xs) → Distinct xs
unfolding sort_by
sort_by-once key [] d = tt
sort_by-once key (x ∷ xs) d =
    let (out, rest) = insert_by-once key x (sort_by key xs) d in
    (sym (mem-sort_by key x xs) ∙ out, sort_by-once key xs rest)

-- The second of two lists in another order, with the same names.
reorder :
    (xs ys zs : List String)
    → ((x : String) → mem x zs ≡ mem x ys)
    → Distinct zs
    → Distinct (xs ++ ys)
    → Distinct (xs ++ zs)
reorder xs ys zs same d whole =
    append-Distinct xs zs (left_of-Distinct xs ys whole) d
      (λ x h. same x ∙ apart_of-Distinct xs ys x whole h)

module _ (nodes : List String) (edges : String → List String) (g : Graph nodes edges) where
  abbrev with_ready : Queue → List String → Queue
  with_ready q ready = record q { ready = ready }

  -- The invariant does not see in which order the ready nodes stand.
  ready-Inv :
      (q : Queue) (ready : List String)
      → ((x : String) → mem x ready ≡ mem x q.ready)
      → Distinct (q.order ++ ready)
      → Inv nodes edges q
      → Inv nodes edges (with_ready q ready)
  ready-Inv q ready same d i = record {
    same = i.same;
    distinct = d;
    within = λ x h.
        i.within x
          (mem-append x q.order q.ready ∙ ground (arith, mem-append x q.order ready, h, same x));
    counts = i.counts;
    waiting = λ x node out. same x ∙ i.waiting x node out;
    ordered = i.ordered;
  }

  module _ (q : Queue) (i : Inv nodes edges q) where
    abbrev sorted : Queue
    sorted = with_ready q (sort_by (position nodes) q.ready)

    sorted-Inv : Inv nodes edges sorted
    sorted-Inv =
        ready-Inv q (sort_by (position nodes) q.ready) (λ x. mem-sort_by (position nodes) x q.ready)
          (reorder q.order q.ready _ (λ x. mem-sort_by (position nodes) x q.ready)
            (sort_by-Distinct (position nodes) q.ready
              (right_of-Distinct q.order q.ready i.distinct))
            i.distinct)
          i

    module _ (n : String) (rest : List String)
        (e : sort_by (position nodes) q.ready ≡ n ∷ rest) where
      take_next-Inv : Inv nodes edges (take_next edges nodes n rest q)
      unfolding take_next take_ready
      take_next-Inv =
          let unlocked =
            (release_all edges n (q.done ++ n ∷ [])
              (record { indegree = q.indegree; unlocked = [] }) nodes).unlocked in
          let after = take_ready-Inv nodes edges g sorted sorted-Inv n rest e in
          let done' = q.order ++ n ∷ [] in
          let tail = right_of-Distinct done' _ after.distinct in
          let same : (x : String)
              → mem x (rest ++ unlocked) ≡ mem x (rest ++ sort_by (position nodes) unlocked) =
            λ x.
              mem-append x rest unlocked
              ∙ ground (
                arith,
                mem-append x rest (sort_by (position nodes) unlocked),
                mem-sort_by (position nodes) x unlocked,
              ) in
          ready-Inv (take_ready edges nodes n rest sorted) (rest ++ unlocked) same
            (reorder done' _ (rest ++ unlocked) same
              (reorder rest (sort_by (position nodes) unlocked) unlocked
                (λ x. sym (mem-sort_by (position nodes) x unlocked))
                (sort_by-once (position nodes) unlocked (right_of-Distinct rest _ tail)) tail)
              after.distinct)
            after

      take_next_measure :
          pending q.order nodes ≡ pending (take_next edges nodes n rest q).order nodes + 1
      unfolding take_next take_ready
      take_next_measure = take_ready_measure nodes edges g sorted sorted-Inv n rest e

    none_ready : sort_by (position nodes) q.ready ≡ [] → q.ready ≡ []
    unfolding mem
    none_ready e =
        none_of-mem q.ready (λ x. sym (mem-sort_by (position nodes) x q.ready) ∙ ap (mem x) e)

  -- With fuel for the nodes that are left, the loop ends with no node ready.
  drain_sorted_lem :
      (fuel : ℕ) (q : Queue) (ready : List String)
      → sort_by (position nodes) q.ready ≡ ready
      → Inv nodes edges q
      → pending q.order nodes ≤ fuel
      → Inv nodes edges (drain_sorted edges nodes fuel q)
        × ((drain_sorted edges nodes fuel q).ready ≡ [])
  unfolding drain_sorted
  drain_sorted_lem zero q [] e i h = (i, none_ready q i e)
  drain_sorted_lem (suc fuel) q [] e i h = rw (e, drain_sorted) (i, none_ready q i e)
  drain_sorted_lem zero q (n ∷ rest) e i h = absurd (omega (arith, take_next_measure q i n rest e))
  drain_sorted_lem (suc fuel) q (n ∷ rest) e i h =
      rw (e, drain_sorted)
        (drain_sorted_lem fuel (take_next edges nodes n rest q) _ refl (take_next-Inv q i n rest e)
          (omega (arith, h, take_next_measure q i n rest e)))

  abbrev free : String → Bool
  free n = length (edges n) == 0

  start-Inv : Inv nodes edges (start_static edges nodes)
  unfolding mem
  start-Inv = record {
    same = refl;
    distinct = keep-Distinct free nodes g.distinct;
    within = λ x h. ground (arith, mem-keep free x nodes, h);
    counts = λ x node out. sym (pending-nil (edges x));
    waiting = λ x node out. mem-keep free x nodes ∙ rw node refl;
    ordered = Ordered.start;
  }

  abbrev pub static_final : Queue
  static_final = drain_sorted edges nodes (length nodes) (start_static edges nodes)

  pub static_final_lem : Inv nodes edges static_final × (static_final.ready ≡ [])
  static_final_lem =
      drain_sorted_lem (length nodes) (start_static edges nodes) _ refl start-Inv
        (pending-le-length [] nodes)
