-- ===== src/App/Down.antt =====
-- run.go: `shutDown` over the order that bringup.go gives.
use Prim.Native.String.{String}
use text.Mathlib.Text.{◌==◌ as str_eq}
use text.Mathlib.TextPositions.{eq_refl}
use conductor_ros.Prelude.{
  ◌≡◌, refl, ap, ◌∙◌, true, false, Option, none, some, List, [], ◌∷◌, if◌then◌else◌, ◌⊎◌, inl, inr,
  Bool-cases, if_case,
}
use conductor_ros.Prelude.Names.{mem, Distinct, str_eq-of}
use conductor_ros.Lifecycle.States.{
  State, Transition, deactivate, same_state, is_primary, goal_of, shutdown_for,
}
use conductor_ros.Lifecycle.Machine.{
  Failure, Outcome, Lifecycle, run_hook, for_transition, transition,
}
use conductor_ros.Lifecycle.Outcomes.{transition_failed, transition_succeeded, shutdown_for_lem}
use conductor_ros.Bringup.Deps.{Deps}
use conductor_ros.Bringup.Kahn.{bringup_order}
use conductor_ros.Bringup.Promise.{order_permutes}
use conductor_ros.App.Nodes.{Fleet, Outcomes, deactivate_node, shut_node, shut_nodes, shut_down}

active_of : (s : State) → same_state s State.active ≡ true → s ≡ State.active
unfolding same_state
active_of State.active h = refl
active_of _ h = cc

deactivates : goal_of State.active deactivate ≡ some State.inactive
unfolding goal_of
deactivates = refl

nothing_left : shutdown_for State.finalized ≡ none
unfolding shutdown_for
nothing_left = refl

module _ (outcomes : Outcomes) where
  shut_nodes_lem :
      (order : List String) (f : Fleet) (x : String)
      → Distinct order
      → shut_nodes outcomes order f x ≡ (if mem x order then shut_node outcomes x (f x) else f x)
  unfolding shut_nodes mem
  shut_nodes_lem [] f x d = refl
  shut_nodes_lem (n ∷ ns) f x (out, d) = elim (Bool-cases (str_eq n x)) [
    | inl e ↦
        let same : n ≡ x = str_eq-of n x e in
        let absent : mem x ns ≡ false = rw same at out in
        let untouched : shut_nodes outcomes ns f x ≡ f x =
          shut_nodes_lem ns f x d ∙ rw absent refl in
        rw (same, eq_refl x, untouched) refl
    | inr e ↦ rw e (shut_nodes_lem ns f x d)
  ]

  -- With the nodes' names distinct, shutDown does to each node what the loop's body does to
  -- that node alone, in whatever order the nodes come and whatever fails on others; no other
  -- node is touched.
  pub shut_down_each :
      (nodes : List String) (deps : Deps) (f : Fleet) (x : String)
      → Distinct nodes
      → shut_down outcomes nodes deps f x
        ≡ (if mem x nodes then shut_node outcomes x (f x) else f x)
  unfolding shut_down
  shut_down_each nodes deps f x d =
      let (once, same) = order_permutes nodes deps d in
      shut_nodes_lem (bringup_order nodes deps).order f x once ∙ rw (same x)

  -- What deactivating leaves of a node.
  record Rests (l l' : Lifecycle) : Type 0 where
    primary : is_primary l'.state ≡ true
    hooks : l'.hooks ≡ l.hooks

  transition-Rests :
      (t : Transition) (o : Outcome) (l : Lifecycle) (g : State)
      → is_primary l.state ≡ true
      → goal_of l.state t ≡ some g
      → is_primary g ≡ true
      → Rests l (transition t o l).1
  transition-Rests t o l g h e k = ended_by (run_hook (for_transition l.hooks t) o) refl
    where
      ended_by :
          (r : Option Failure)
          → run_hook (for_transition l.hooks t) o ≡ r
          → Rests l (transition t o l).1
      ended_by none q = rw (transition_succeeded t o l g e q) (record { primary = k; hooks = refl })
      ended_by (some x) q =
          rw (transition_failed t o l g x e q) (record { primary = h; hooks = refl })

  deactivate_node-Rests :
      (n : String) (l : Lifecycle)
      → is_primary l.state ≡ true
      → Rests l (deactivate_node outcomes n l)
  unfolding deactivate_node
  deactivate_node-Rests n l h =
      if_case (Rests l) (same_state l.state State.active)
        (λ is_active.
          transition-Rests deactivate (outcomes n deactivate) l State.inactive h
            (rw (active_of l.state is_active) deactivates) refl)
        (λ _. record { primary = h; hooks = refl })

  shut_node_lem :
      (n : String) (l : Lifecycle)
      → is_primary l.state ≡ true
      → ((s : State) (t : Transition)
          → shutdown_for s ≡ some t
          → run_hook (for_transition l.hooks t) (outcomes n t) ≡ none)
      → (shut_node outcomes n l).state ≡ State.finalized
  unfolding shut_node
  shut_node_lem n l h ok =
      ended_by (shutdown_for_lem (deactivate_node outcomes n l).state rests.primary)
    where
      l' : Lifecycle
      l' = deactivate_node outcomes n l

      rests : Rests l l'
      rests = deactivate_node-Rests n l h

      after : Option Transition → Lifecycle
      after k = elim k [ none ↦ l' | some t ↦ (transition t (outcomes n t) l').1 ]

      ended_by :
          (l'.state ≡ State.finalized)
            ⊎ ((t : Transition) × (shutdown_for l'.state ≡ some t)
                × (goal_of l'.state t ≡ some State.finalized))
          → (shut_node outcomes n l).state ≡ State.finalized
      ended_by (inl e) =
          ap (λ (k : Option Transition). (after k).state) (ap shutdown_for e ∙ nothing_left) ∙ e
      ended_by (inr (t, e, g)) =
          let succeeds =
            ap (λ h'. run_hook (for_transition h' t) (outcomes n t)) rests.hooks
            ∙ ok l'.state t e in
          ap (λ (k : Option Transition). (after k).state) e
          ∙ ap (λ (r : Option Failure × Lifecycle). r.1.state)
              (transition_succeeded t (outcomes n t) l' State.finalized g succeeds)

  -- With the nodes' names distinct, shutDown takes a node from any primary state to Finalized
  -- if its shutdown hook does not fail, even if its deactivation does.
  pub shut_down_finalizes :
      (nodes : List String) (deps : Deps) (f : Fleet) (x : String)
      → Distinct nodes
      → mem x nodes ≡ true
      → is_primary (f x).state ≡ true
      → ((s : State) (t : Transition)
          → shutdown_for s ≡ some t
          → run_hook (for_transition (f x).hooks t) (outcomes x t) ≡ none)
      → (shut_down outcomes nodes deps f x).state ≡ State.finalized
  shut_down_finalizes nodes deps f x d h primary ok =
      rw (shut_down_each nodes deps f x d, h) (shut_node_lem x (f x) primary ok)
