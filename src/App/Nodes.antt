-- ===== src/App/Nodes.antt =====
-- run.go: `bringUp` and `shutDown` of an application, over the lifecycles of its nodes.
use Prim.Native.String.{String}
use text.Mathlib.Text.{◌==◌ as str_eq}
use conductor_ros.Prelude.{Option, none, some, List, [], ◌∷◌, if◌then◌else◌}
use conductor_ros.Lifecycle.States.{
  State, Transition, configure, activate, deactivate, same_state, shutdown_for,
}
use conductor_ros.Lifecycle.Machine.{Failure, Outcome, Lifecycle, transition}
use conductor_ros.Bringup.Deps.{Deps}
use conductor_ros.Bringup.Kahn.{bringup_order}

-- The nodes' lifecycles by name.
abbrev pub Fleet : Type 0
Fleet = String → Lifecycle

abbrev pub put : Fleet → String → Lifecycle → Fleet
put f n l x = if str_eq n x then l else f x

-- What a hook that the application starts comes to.
abbrev pub Outcomes : Type 0
Outcomes = String → Transition → Outcome

-- The error of `bringUp`: the node, the transition, and why it failed.
pub record BringUpError : Type 0 where
  pub node : String
  pub t : Transition
  pub why : Failure

module _ (outcomes : Outcomes) where
  -- The inner loop of `bringUp`.
  unfoldable pub bring_node : String → List Transition → Lifecycle → Option BringUpError × Lifecycle
  unfolding transition
  bring_node n [] l = (none, l)
  bring_node n (t ∷ ts) l =
      let (failure, l') = transition t (outcomes n t) l in
      elim failure [
        | none ↦ bring_node n ts l'
        | some e ↦ (some (record { node = n; t = t; why = e }), l')
      ]

  unfoldable pub bring_nodes : List String → Fleet → Option BringUpError × Fleet
  unfolding bring_node
  bring_nodes [] f = (none, f)
  bring_nodes (n ∷ ns) f =
      let (failure, l) = bring_node n (configure ∷ (activate ∷ [])) (f n) in
      elim failure [ none ↦ bring_nodes ns (put f n l) | some e ↦ (some e, put f n l) ]

  -- The body of the loop of `shutDown`.
  unfoldable pub deactivate_node : String → Lifecycle → Lifecycle
  unfolding transition
  deactivate_node n l =
      if same_state l.state State.active
      then (transition deactivate (outcomes n deactivate) l).1
      else l

  unfoldable pub shut_node : String → Lifecycle → Lifecycle
  unfolding deactivate_node transition
  shut_node n l =
      let l' = deactivate_node n l in
      elim (shutdown_for l'.state) [ none ↦ l' | some t ↦ (transition t (outcomes n t) l').1 ]

  -- The loop of `shutDown`, which runs from the end of the order.
  unfoldable pub shut_nodes : List String → Fleet → Fleet
  unfolding shut_node
  shut_nodes [] f = f
  shut_nodes (n ∷ ns) f = let f' = shut_nodes ns f in put f' n (shut_node n (f' n))

  unfoldable pub bring_up : List String → Deps → Fleet → Option BringUpError × Fleet
  unfolding bring_nodes bringup_order
  bring_up nodes deps f = bring_nodes (bringup_order nodes deps).order f

  unfoldable pub shut_down : List String → Deps → Fleet → Fleet
  unfolding shut_nodes bringup_order
  shut_down nodes deps f = shut_nodes (bringup_order nodes deps).order f
