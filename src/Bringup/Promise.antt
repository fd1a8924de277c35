-- ===== src/Bringup/Promise.antt =====
-- What `BringupOrder` promises to the application that activates the nodes.
use Prim.Native.String.{String}
use text.Mathlib.TextPositions.{eq_refl}
use conductor_ros.Prelude.{
  ℕ, zero, suc, ◌<◌, ◌≡◌, refl, sym, ◌∙◌, true, false, not, ◌&&◌, List, [], ◌∷◌, ◌++◌, arith,
  Bool-cases, inl, inr, ◌⊎◌,
}
use conductor_ros.Prelude.Names.{
  mem, mem-append, Distinct, append-Distinct, keep, mem-keep, keep-Distinct, pending, pending_some,
  left_of-Distinct,
}
use conductor_ros.Bringup.Deps.{Deps}
use conductor_ros.Bringup.Kahn.{bringup_order}
use conductor_ros.Bringup.Edges.{depends_on, mem-edges_of}
use conductor_ros.Bringup.Invariant.{Ordered}
use conductor_ros.Bringup.Order.{dependencies, final, final_lem}

here :
    (before : List String) (x : String) (after : List String) → mem x (before ++ x ∷ after) ≡ true
unfolding mem
here before x after = ground (arith, mem-append x before (x ∷ after), eq_refl x)

-- Where a name stands in a joined list.
snoc_split :
    (xs : List String) (n : String) (before : List String) (x : String) (after : List String)
    → xs ++ n ∷ [] ≡ before ++ x ∷ after
    → ((rest : List String) × (xs ≡ before ++ x ∷ rest)) ⊎ ((before ≡ xs) × (x ≡ n))
snoc_split [] n [] x after e = inr (cc, cc)
snoc_split [] n (b ∷ []) x after e = absurd cc
snoc_split [] n (b ∷ (c ∷ bs)) x after e = absurd cc
snoc_split (y ∷ ys) n [] x after e = inl (ys, cc)
snoc_split (y ∷ ys) n (b ∷ bs) x after e = elim (snoc_split ys n bs x after cc) [
  | inl (rest, same) ↦ inl (rest, cc)
  | inr (same, at_end) ↦ inr (cc, at_end)
]

pub left_split :
    (xs ys before : List String) (x : String) (after : List String)
    → xs ++ ys ≡ before ++ x ∷ after
    → mem x ys ≡ false
    → (rest : List String) × (xs ≡ before ++ x ∷ rest)
left_split [] ys before x after e out = absurd (cc (here before x after, out))
left_split (y ∷ xs) ys [] x after e out = (xs, cc)
left_split (y ∷ xs) ys (b ∷ bs) x after e out =
    let (rest, same) = left_split xs ys bs x after (cc) out in (rest, cc)

pub before_of-Ordered :
    (edges : String → List String) (xs before : List String) (x : String) (after : List String)
    (p : String)
    → Ordered edges xs
    → xs ≡ before ++ x ∷ after
    → mem p (edges x) ≡ true
    → mem p before ≡ true
before_of-Ordered edges _ before x after p Ordered.start e h =
    absurd (unfold mem in cc (here before x after))
before_of-Ordered edges _ before x after p (Ordered.add xs n ys o free made) e h =
    elim (snoc_split xs n before x after (sym made ∙ e)) [
      | inl (rest, same) ↦ before_of-Ordered edges xs before x rest p o same h
      | inr (same, at_end) ↦ rw same (free p (rw (← at_end) h))
    ]

pub none_of-mem : (xs : List String) → ((x : String) → mem x xs ≡ false) → xs ≡ []
none_of-mem [] h = refl
none_of-mem (y ∷ ys) h = absurd (cc (h y, here [] y ys))

module _ (nodes : List String) (deps : Deps) (distinct : Distinct nodes) where
  done : List String
  done = (final nodes deps distinct).order

  left : List String
  left = keep (λ n. not (mem n (final nodes deps distinct).done)) nodes

  bringup_order_lem : bringup_order nodes deps ≡ record { order = done ++ left; cycles = left }
  unfolding bringup_order final done left
  bringup_order_lem = refl

  mem-left : (x : String) → mem x left ≡ (mem x nodes && not (mem x done))
  unfolding left done
  mem-left x =
      mem-keep (λ n. not (mem n (final nodes deps distinct).done)) x nodes
      ∙ rw (final_lem nodes deps distinct).0.same

  done_within : (x : String) → mem x done ≡ true → mem x nodes ≡ true
  unfolding done
  done_within x h = (final_lem nodes deps distinct).0.within x (rw (mem-append, h))

  done_Ordered : Ordered (dependencies deps nodes) done
  unfolding done
  done_Ordered = (final_lem nodes deps distinct).0.ordered

  order_Distinct : Distinct (done ++ left)
  unfolding done left
  order_Distinct =
      let (i, no_ready) = final_lem nodes deps distinct in
      append-Distinct done left (left_of-Distinct done (final nodes deps distinct).ready i.distinct)
        (keep-Distinct (λ n. not (mem n (final nodes deps distinct).done)) nodes distinct)
        λ x h. mem-left x ∙ rw h (ground arith)

  -- A node that the loop left behind has a dependency that is not done.
  still_waits :
      (x : String)
      → mem x nodes ≡ true
      → mem x done ≡ false
      → 0 < pending done (dependencies deps nodes x)
  unfolding done
  still_waits x node out =
      let (i, no_ready) = final_lem nodes deps distinct in
      let idle : mem x (final nodes deps distinct).ready ≡ false =
        rw no_ready (unfold mem in refl) in
      ground (arith, i.waiting x node out, i.counts x node out, idle)

  -- With the nodes' names distinct, the order has each name once, and exactly the nodes' names.
  pub order_permutes :
      Distinct (bringup_order nodes deps).order
      × ((x : String) → mem x (bringup_order nodes deps).order ≡ mem x nodes)
  order_permutes =
      rw bringup_order_lem
        (order_Distinct, λ x. ground (arith, mem-append x done left, mem-left x, done_within x))

  -- With the nodes' names distinct, a node that is not among the reported cycles
  -- stands in the order after every other node whose endpoints it consumes.
  pub dependencies_first :
      (before : List String) (x : String) (after : List String) (p : String)
      → (bringup_order nodes deps).order ≡ before ++ x ∷ after
      → mem x (bringup_order nodes deps).cycles ≡ false
      → depends_on deps nodes x p ≡ true
      → mem p before ≡ true
  dependencies_first before x after p e out h =
      let (rest, same) =
        left_split done left before x after (rw bringup_order_lem at e)
          (rw bringup_order_lem at out) in
      before_of-Ordered (dependencies deps nodes) done before x rest p done_Ordered same
        (mem-edges_of deps nodes x p ∙ h)

  -- With the nodes' names distinct, each reported node waits for another reported
  -- node: what is called a cycle is never a node that could have been ordered.
  pub cycles_justified :
      (x : String)
      → mem x (bringup_order nodes deps).cycles ≡ true
      → (p : String) × (depends_on deps nodes x p ≡ true)
        × (mem p (bringup_order nodes deps).cycles ≡ true)
  cycles_justified x h =
      let stuck : mem x left ≡ true = rw bringup_order_lem at h in
      let waits =
        still_waits x (ground (arith, mem-left x, stuck)) (ground (arith, mem-left x, stuck)) in
      let (p, edge, out) = pending_some done (dependencies deps nodes x) waits in
      let needs : depends_on deps nodes x p ≡ true = sym (mem-edges_of deps nodes x p) ∙ edge in
      (
        p,
        needs,
        rw bringup_order_lem (mem-left p ∙ (unfold depends_on in ground (arith, needs, out))),
      )

  rank_below :
      (rank : String → ℕ)
      → ((x p : String) → depends_on deps nodes x p ≡ true → rank p < rank x)
      → (bound : ℕ) (x : String) → rank x < bound
      → mem x (bringup_order nodes deps).cycles ≡ false
  rank_below rank falls zero x h = elim h [ ]
  rank_below rank falls (suc bound) x h =
      elim (Bool-cases (mem x (bringup_order nodes deps).cycles)) [
        | inr out ↦ out
        | inl stuck ↦
            let (p, needs, also) = cycles_justified x stuck in
            absurd (cc (also, rank_below rank falls bound p (omega (arith, falls x p needs))))
      ]

  -- With the nodes' names distinct and no cycle among the dependencies (some rank
  -- falls along each of them), no node is reported.
  pub acyclic_complete :
      (rank : String → ℕ)
      → ((x p : String) → depends_on deps nodes x p ≡ true → rank p < rank x)
      → (bringup_order nodes deps).cycles ≡ []
  acyclic_complete rank falls =
      none_of-mem (bringup_order nodes deps).cycles
        λ x. rank_below rank falls (suc (rank x)) x (omega arith)
