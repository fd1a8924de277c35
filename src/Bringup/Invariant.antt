-- ===== src/Bringup/Invariant.antt =====
-- What the loop of `BringupOrder` keeps, and that it ends with no node ready.
use Prim.Native.String.{String}
use text.Mathlib.Text.{◌==◌ as str_eq}
use text.Mathlib.TextPositions.{eq_refl}
use mathlib.Core.List.{append_assoc}
use conductor_ros.Prelude.{
  ◌+◌, ◌-◌, ◌<◌, ◌≡◌, refl, sym, ap, ◌∙◌, true, false, ◌&&◌, List, [], ◌∷◌, ◌++◌, ◌==◌,
  if◌then◌else◌, arith, Bool-cases, inl, inr,
}
use conductor_ros.Prelude.Names.{
  mem, mem-append, mem-snoc, Distinct, append-Distinct, apart_of-Distinct, mem-keep, keep-Distinct,
  pending, pending_snoc, pending_zero,
}
use conductor_ros.Bringup.Kahn.{Queue, Unlocking, release_all, position, sort_by, take_ready}
use conductor_ros.Bringup.Sort.{mem-sort_by, sort_by-Distinct}
use conductor_ros.Bringup.Release.{waits, freed, indegree-release_all, unlocked-release_all}

-- Each node of the list has its dependencies before it.
pub data Ordered (edges : String → List String) : List String → Type 0 where
  start : Ordered edges []
  add :
      (xs : List String) (n : String) (ys : List String)
      → Ordered edges xs
      → ((p : String) → mem p (edges n) ≡ true → mem p xs ≡ true)
      → ys ≡ xs ++ n ∷ []
      → Ordered edges ys

pub record Graph (nodes : List String) (edges : String → List String) : Type 0 where
  pub distinct : Distinct nodes
  pub once : (x : String) → Distinct (edges x)
  pub within : (x p : String) → mem p (edges x) ≡ true → mem p nodes ≡ true

pub record Inv (nodes : List String) (edges : String → List String) (q : Queue) : Type 0 where
  pub same : q.done ≡ q.order
  pub distinct : Distinct (q.order ++ q.ready)
  pub within : (x : String) → mem x (q.order ++ q.ready) ≡ true → mem x nodes ≡ true
  pub counts :
      (x : String)
      → mem x nodes ≡ true
      → mem x q.order ≡ false
      → q.indegree x ≡ pending q.order (edges x)
  pub waiting :
      (x : String)
      → mem x nodes ≡ true
      → mem x q.order ≡ false
      → mem x q.ready ≡ (q.indegree x == 0)
  pub ordered : Ordered edges q.order

module _ (nodes : List String) (edges : String → List String) (g : Graph nodes edges) (q : Queue)
    (i : Inv nodes edges q) (n : String) (rest : List String) (e : q.ready ≡ n ∷ rest) where
  is_ready : mem n q.ready ≡ true
  is_ready = rw e (unfold mem in ground (arith, eq_refl n))

  n_out : mem n q.order ≡ false
  n_out = elim (Bool-cases (mem n q.order)) [
    | inl h ↦ cc (apart_of-Distinct q.order q.ready n i.distinct h, is_ready)
    | inr h ↦ h
  ]

  n_node : mem n nodes ≡ true
  n_node = i.within n (rw (mem-append, is_ready) (ground arith))

  n_free : (p : String) → mem p (edges n) ≡ true → mem p q.order ≡ true
  n_free p h =
      pending_zero q.order (edges n) p
        (ground (arith, i.counts n n_node n_out, i.waiting n n_node n_out, is_ready)) h

  -- The indegree of a node that waits for `n` is not 0.
  blocked :
      (x : String)
      → mem x nodes ≡ true
      → mem x q.order ≡ false
      → mem n (edges x) ≡ true
      → 0 < q.indegree x
  blocked x node out h =
      ground (arith, i.counts x node out, pending_snoc n q.order (edges x) (g.once x) n_out, h)

  done' : List String
  done' = q.order ++ n ∷ []

  released : Unlocking
  released = release_all edges n done' (record { indegree = q.indegree; unlocked = [] }) nodes

  -- A node that is still left: not done, and not `n`.
  left_out : (x : String) → mem x done' ≡ false → (mem x q.order ≡ false) × (str_eq n x ≡ false)
  unfolding done'
  left_out x h = ground (arith, mem-snoc x n q.order)

  falls :
      (x : String)
      → mem x nodes ≡ true
      → mem x done' ≡ false
      → released.indegree x ≡ (if mem n (edges x) then q.indegree x - 1 else q.indegree x)
  unfolding released waits
  falls x node out =
      indegree-release_all edges n done' (record { indegree = q.indegree; unlocked = [] }) nodes x
        g.distinct
      ∙ rw (node, out)

  mem-unlocked :
      (x : String)
      → mem x (sort_by (position nodes) released.unlocked)
        ≡ (mem x nodes && freed edges n done' q.indegree x)
  unfolding released
  mem-unlocked x =
      mem-sort_by (position nodes) x released.unlocked
      ∙ rw
          (unlocked-release_all edges n done' (record { indegree = q.indegree; unlocked = [] })
            nodes g.distinct)
          (mem-keep (freed edges n done' q.indegree) x nodes)

  counts' :
      (x : String)
      → mem x nodes ≡ true
      → mem x done' ≡ false
      → released.indegree x ≡ pending done' (edges x)
  unfolding done'
  counts' x node out = ground (
    arith,
    falls x node out,
    left_out x out,
    i.counts x node (left_out x out).0,
    pending_snoc n q.order (edges x) (g.once x) n_out,
  )

  still_ready :
      (x : String) → mem x nodes ≡ true → mem x done' ≡ false → mem x rest ≡ (q.indegree x == 0)
  still_ready x node out =
      let (not_done, other) = left_out x out in
      let both : mem x (n ∷ rest) ≡ (q.indegree x == 0) = rw e at (i.waiting x node not_done) in
      unfold mem in ground (arith, both, other)

  freed_lem :
      (x : String)
      → mem x done' ≡ false
      → freed edges n done' q.indegree x ≡ (mem n (edges x) && q.indegree x - 1 == 0)
  unfolding freed
  freed_lem x out = rw out

  waiting' :
      (x : String)
      → mem x nodes ≡ true
      → mem x done' ≡ false
      → mem x (rest ++ sort_by (position nodes) released.unlocked) ≡ (released.indegree x == 0)
  waiting' x node out =
      rw (mem-append, mem-unlocked x, node)
        (elim (Bool-cases (mem n (edges x))) [
          | inl h ↦ ground (
            arith,
            still_ready x node out,
            falls x node out,
            freed_lem x out,
            h,
            blocked x node (left_out x out).0 h,
          )
          | inr h ↦ ground (arith, still_ready x node out, falls x node out, freed_lem x out, h)
        ])

  -- A freed node is not done and was not ready.
  unlocked_fresh :
      (x : String)
      → mem x (done' ++ rest) ≡ true
      → mem x (sort_by (position nodes) released.unlocked) ≡ false
  unlocked_fresh x h = elim (Bool-cases (mem x nodes)) [
    | inr no_node ↦ mem-unlocked x ∙ rw no_node
    | inl node ↦ elim (Bool-cases (mem x done')) [
      | inl is_done ↦ mem-unlocked x ∙ rw node (unfold freed in rw is_done)
      | inr out ↦ elim (Bool-cases (mem n (edges x))) [
        | inl waiting ↦ absurd (
            ground (
              arith,
              mem-append x done' rest,
              h,
              out,
              still_ready x node out,
              blocked x node (left_out x out).0 waiting,
            ))
        | inr free ↦ mem-unlocked x ∙ rw (node, freed_lem x out, free)
      ]
    ]
  ]

  taken : Queue
  taken = record {
    ready = rest ++ sort_by (position nodes) released.unlocked;
    order = done';
    done = done';
    indegree = released.indegree;
  }

  take_ready_lem : take_ready edges nodes n rest q ≡ taken
  unfolding take_ready taken released done'
  take_ready_lem =
      ap
        (λ (d : List String).
          let u =
            release_all edges n (d ++ n ∷ []) (record { indegree = q.indegree; unlocked = [] })
              nodes in
          let q' : Queue = record {
            ready = rest ++ sort_by (position nodes) u.unlocked;
            order = q.order ++ n ∷ [];
            done = d ++ n ∷ [];
            indegree = u.indegree;
          } in
          q')
        i.same

  regroup : done' ++ rest ≡ q.order ++ q.ready
  unfolding done'
  regroup = append_assoc q.order (n ∷ []) rest ∙ ap (λ (xs : List String). q.order ++ xs) (sym e)

  unlocked-Distinct : Distinct (sort_by (position nodes) released.unlocked)
  unfolding released
  unlocked-Distinct = sort_by-Distinct (position nodes) released.unlocked (
      rw
        (unlocked-release_all edges n done' (record { indegree = q.indegree; unlocked = [] }) nodes
          g.distinct)
        (keep-Distinct (freed edges n done' q.indegree) nodes g.distinct))

  taken-Inv : Inv nodes edges taken
  unfolding taken done'
  taken-Inv = record {
    same = refl;
    distinct = rw (← append_assoc) (
        append-Distinct (done' ++ rest) _ (rw regroup i.distinct) unlocked-Distinct unlocked_fresh);
    within = λ x h. elim (Bool-cases (mem x (done' ++ rest))) [
      | inl old ↦ i.within x (rw regroup at old)
      | inr new ↦ ground (
        arith,
        mem-unlocked x,
        mem-append x (done' ++ rest) (sort_by (position nodes) released.unlocked),
        rw (← append_assoc) at h,
      )
    ];
    counts = counts';
    waiting = waiting';
    ordered = Ordered.add q.order n (q.order ++ n ∷ []) i.ordered n_free refl;
  }

  pub take_ready-Inv : Inv nodes edges (take_ready edges nodes n rest q)
  take_ready-Inv = rw take_ready_lem taken-Inv

  -- One node fewer is left.
  pub take_ready_measure :
      pending q.order nodes ≡ pending (take_ready edges nodes n rest q).order nodes + 1
  unfolding take_ready
  take_ready_measure = rw n_node at (pending_snoc n q.order nodes g.distinct n_out)
