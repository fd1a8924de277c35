-- ===== src/Graph/Agreement.antt =====
-- internal/graph/graph.go and bringup.go: the two orders of the nodes, from the same dependencies.
use Prim.Native.String.{String}
use conductor_ros.Prelude.{
  ◌≡◌, refl, sym, ap, ◌∙◌, true, false, not, List, [], ◌∷◌, ◌++◌, inl, inr, Bool-cases, arith,
}
use conductor_ros.Prelude.Names.{
  mem, mem-append, mem-snoc, Distinct, keep_cong, pending_some, str_eq-of,
}
use conductor_ros.Bringup.Deps.{Deps}
use conductor_ros.Bringup.Kahn.{Queue, bringup_order}
use conductor_ros.Bringup.Edges.{depends_on, mem-edges_of}
use conductor_ros.Bringup.Invariant.{Ordered, Graph, Inv}
use conductor_ros.Bringup.Order.{dependencies, final, final_lem}
use conductor_ros.Bringup.Promise.{before_of-Ordered, left_split}
use conductor_ros.Graph.Order.{order_of}
use conductor_ros.Graph.Mirror.{static_final, static_final_lem}

-- What one loop orders, another that has ended orders as well, if its dependencies are no more.
Ordered-too :
    (nodes : List String) (edges edges' : String → List String) (q : Queue) (xs : List String)
    → Inv nodes edges' q
    → q.ready ≡ []
    → ((x p : String) → mem x nodes ≡ true → mem p (edges' x) ≡ true → mem p (edges x) ≡ true)
    → Ordered edges xs
    → ((x : String) → mem x xs ≡ true → mem x nodes ≡ true)
    → (x : String) → mem x xs ≡ true
    → mem x q.order ≡ true
Ordered-too nodes edges edges' q _ i idle fewer Ordered.start within x h =
    absurd (unfold mem in cc h)
Ordered-too nodes edges edges' q _ i idle fewer (Ordered.add xs n ys o free made) within x h =
    let before : (y : String) → mem y xs ≡ true → mem y q.order ≡ true =
      Ordered-too nodes edges edges' q xs i idle fewer o
        (λ y k. within y (ap (mem y) made ∙ mem-snoc y n xs ∙ rw k refl)) in
    elim (Bool-cases (mem x q.order)) [
      | inl done ↦ done
      | inr out ↦ elim (Bool-cases (mem x xs)) [
        | inl old ↦ before x old
        | inr new ↦
            let node = within x h in
            let not_ready : mem x q.ready ≡ false = ap (mem x) idle ∙ (unfold mem in refl) in
            let (p, needed, missing) =
              pending_some q.order (edges' x)
                (ground (arith, i.counts x node out, i.waiting x node out, not_ready)) in
            let same : n ≡ x =
              str_eq-of n x (ground (arith, mem-snoc x n xs, ap (mem x) made, h, new)) in
            absurd (
              cc (
                before p (free p (ap (λ z. mem p (edges z)) same ∙ fewer x p node needed)),
                missing,
              ))
      ]
    ]

module _ (nodes : List String) (edges : String → List String) (deps : Deps)
    (distinct : Distinct nodes) (once : (x : String) → Distinct (edges x))
    (same : (x p : String) → mem p (edges x) ≡ depends_on deps nodes x p) where
  graph : Graph nodes edges
  unfolding depends_on
  graph = record { distinct = distinct; once = once; within = λ x p h. ground (arith, same x p, h) }

  runtime : Queue
  runtime = final nodes deps distinct

  static : Queue
  static = static_final nodes edges graph

  agree : (x : String) → mem x static.order ≡ mem x runtime.order
  unfolding runtime static
  agree x =
      let (i, idle) = static_final_lem nodes edges graph in
      let (i', idle') = final_lem nodes deps distinct in
      let to : mem x static.order ≡ true → mem x runtime.order ≡ true =
        Ordered-too nodes edges (dependencies deps nodes) _ static.order i' idle'
          (λ y p k h. same y p ∙ sym (mem-edges_of deps nodes y p) ∙ h) i.ordered
          (λ y h. i.within y (mem-append y static.order static.ready ∙ rw h refl)) x in
      let back : mem x runtime.order ≡ true → mem x static.order ≡ true =
        Ordered-too nodes (dependencies deps nodes) edges _ runtime.order i idle
          (λ y p k h. mem-edges_of deps nodes y p ∙ sym (same y p) ∙ h) i'.ordered
          (λ y h. i'.within y (mem-append y runtime.order runtime.ready ∙ rw h refl)) x in
      ground (arith, to, back)

  -- From the same dependencies between nodes of distinct names, the static BringupOrder reports the
  -- same nodes as cycles, in the same order, as the runtime's.
  pub cycles_agree : (order_of edges nodes).cycles ≡ (bringup_order nodes deps).cycles
  unfolding order_of bringup_order runtime static final
  cycles_agree =
      let (i, idle) = static_final_lem nodes edges graph in
      let (i', idle') = final_lem nodes deps distinct in
      keep_cong (λ n. not (mem n static.done)) (λ n. not (mem n runtime.done)) nodes
        (λ x h. ap not (ap (mem x) i.same ∙ agree x ∙ ap (mem x) (sym i'.same)))

  -- From the same dependencies between nodes of distinct names, a node that is not among its
  -- cycles stands in the static order after every node that it consumes from.
  pub static_first :
      (before : List String) (x : String) (after : List String) (p : String)
      → (order_of edges nodes).order ≡ before ++ x ∷ after
      → mem x (order_of edges nodes).cycles ≡ false
      → depends_on deps nodes x p ≡ true
      → mem p before ≡ true
  unfolding order_of
  static_first before x after p e out h =
      let (i, idle) = static_final_lem nodes edges graph in
      let (rest, split) = left_split _ _ before x after e out in
      before_of-Ordered edges _ before x rest p i.ordered split (same x p ∙ h)
