-- ===== src/App/Promise.antt =====
-- run.go: `bringUp` over the order that bringup.go gives.
use Prim.Native.String.{String}
use text.Mathlib.Text.{◌==◌ as str_eq}
use text.Mathlib.TextPositions.{eq_refl}
use conductor_ros.Prelude.{
  ◌≡◌, sym, ap, ◌∙◌, true, false, ◌||◌, none, some, List, ◌∷◌, ◌++◌, ◌⊎◌, inl, inr, Bool-cases,
  arith,
}
use conductor_ros.Prelude.Names.{mem, mem-append, Distinct, str_eq-of}
use conductor_ros.Lifecycle.States.{State}
use conductor_ros.Bringup.Deps.{Deps}
use conductor_ros.Bringup.Kahn.{bringup_order}
use conductor_ros.Bringup.Edges.{depends_on}
use conductor_ros.Bringup.Promise.{order_permutes, dependencies_first}
use conductor_ros.App.Nodes.{Fleet, Outcomes, BringUpError, bring_up}
use conductor_ros.App.Up.{NodesUp, bring_nodes-NodesUp}

module _ (outcomes : Outcomes) (nodes : List String) (deps : Deps) (f : Fleet)
    (distinct : Distinct nodes)
    (fresh : (x : String) → mem x nodes ≡ true → (f x).state ≡ State.unconfigured) where
  up_lem : NodesUp (bringup_order nodes deps).order f (bring_up outcomes nodes deps f)
  unfolding bring_up
  up_lem =
      let (once, same) = order_permutes nodes deps distinct in
      bring_nodes-NodesUp outcomes (bringup_order nodes deps).order f once
        λ x h. fresh x (sym (same x) ∙ h)

  -- From nodes of distinct names that are all Unconfigured, bringUp succeeds only with
  -- every node Active.
  pub bring_up_succeeded :
      (f' : Fleet)
      → bring_up outcomes nodes deps f ≡ (none, f')
      → (x : String) → mem x nodes ≡ true
      → (f' x).state ≡ State.active
  bring_up_succeeded f' e x h =
      let up : NodesUp (bringup_order nodes deps).order f (none, f') = rw e at up_lem in
      up x ((order_permutes nodes deps distinct).1 x ∙ h)

  -- How the node that failed divides the nodes.
  record Divided (e : BringUpError) (f' : Fleet) : Type 0 where
    before : List String
    after : List String
    split : (bringup_order nodes deps).order ≡ before ++ e.node ∷ after
    actives : (x : String) → mem x before ≡ true → (f' x).state ≡ State.active
    here : ((f' e.node).state ≡ State.unconfigured) ⊎ ((f' e.node).state ≡ State.inactive)
    rest : (x : String) → mem x after ≡ true → f' x ≡ f x

  divided :
      (e : BringUpError) (f' : Fleet) → bring_up outcomes nodes deps f ≡ (some e, f') → Divided e f'
  divided e f' h =
      let up : NodesUp (bringup_order nodes deps).order f (some e, f') = rw h at up_lem in
      let (before, after, split, actives, here, rest) = up in
      record {
        before = before;
        after = after;
        split = split;
        actives = actives;
        here = here;
        rest = rest;
      }

  part :
      (e : BringUpError) (f' : Fleet) (v : Divided e f') (x : String)
      → mem x nodes ≡ (mem x v.before || (str_eq e.node x || mem x v.after))
  unfolding mem
  part e f' v x =
      sym ((order_permutes nodes deps distinct).1 x)
      ∙ ap (mem x) v.split
      ∙ mem-append x v.before (e.node ∷ v.after)

  is_node : (e : BringUpError) (f' : Fleet) → Divided e f' → mem e.node nodes ≡ true
  is_node e f' v = ground (arith, part e f' v e.node, eq_refl e.node)

  placed :
      (e : BringUpError) (f' : Fleet)
      → Divided e f'
      → (x : String) → mem x nodes ≡ true
      → ((f' x).state ≡ State.active)
        ⊎ ((f' x ≡ f x)
            ⊎ ((e.node ≡ x)
                × (((f' x).state ≡ State.unconfigured) ⊎ ((f' x).state ≡ State.inactive))))
  placed e f' v x node = elim (Bool-cases (mem x v.before)) [
    | inl k ↦ inl (v.actives x k)
    | inr k ↦ elim (Bool-cases (str_eq e.node x)) [
      | inl here ↦
          let same : e.node ≡ x = str_eq-of e.node x here in inr (inr (same, rw same at v.here))
      | inr other ↦ inr (inl (v.rest x (ground (arith, part e f' v x, node, other, k))))
    ]
  ]

  -- From nodes of distinct names that are all Unconfigured, bringUp fails at one of them; and
  -- every node is Active then, or untouched, or the one that failed, which is Unconfigured or
  -- Inactive.
  pub bring_up_failed :
      (e : BringUpError) (f' : Fleet)
      → bring_up outcomes nodes deps f ≡ (some e, f')
      → (x : String) → mem x nodes ≡ true
      → (mem e.node nodes ≡ true)
        × (((f' x).state ≡ State.active)
            ⊎ ((f' x ≡ f x)
                ⊎ ((e.node ≡ x)
                    × (((f' x).state ≡ State.unconfigured) ⊎ ((f' x).state ≡ State.inactive)))))
  bring_up_failed e f' h x node =
      (is_node e f' (divided e f' h), placed e f' (divided e f' h) x node)

  -- From nodes of distinct names that are all Unconfigured, where bringUp fails at a node that
  -- is not among the reported cycles, every other node whose endpoints it consumes is Active.
  pub bring_up_needs :
      (e : BringUpError) (f' : Fleet)
      → bring_up outcomes nodes deps f ≡ (some e, f')
      → mem e.node (bringup_order nodes deps).cycles ≡ false
      → (p : String) → depends_on deps nodes e.node p ≡ true
      → (f' p).state ≡ State.active
  bring_up_needs e f' h out p needs =
      let v = divided e f' h in
      v.actives p
        (dependencies_first nodes deps distinct v.before e.node v.after p v.split out needs)
