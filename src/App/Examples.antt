-- ===== src/App/Examples.antt =====
-- run.go on two nodes, and its theorems at them.
use Prim.Native.String.{String}
use text.Mathlib.Text.{◌==◌ as str_eq}
use conductor_ros.Prelude.{
  ◌≡◌, refl, true, false, Option, none, some, List, [], ◌∷◌, if◌then◌else◌, ◌⊎◌, ◌==◌, arith,
}
use conductor_ros.Prelude.Names.{mem, Distinct, keep}
use conductor_ros.Lifecycle.States.{State, Transition, activate, deactivate, goal_of, shutdown_for}
use conductor_ros.Lifecycle.Machine.{
  Failure, Outcome, Hooks, new_lifecycle, run_hook, for_transition,
}
use conductor_ros.Bringup.Deps.{Deps}
use conductor_ros.Bringup.Kahn.{bringup_order}
use conductor_ros.Bringup.Edges.{depends_on, overlap}
use conductor_ros.App.Nodes.{Fleet, Outcomes, BringUpError, bring_up}
use conductor_ros.App.Promise.{bring_up_succeeded, bring_up_failed, bring_up_needs}

abbrev nodes : List String
nodes = "planner" ∷ ("maps" ∷ [])

abbrev deps : Deps
deps n =
    if str_eq n "planner"
    then some (record { provides = []; consumes = "map" ∷ [] })
    else some (record { provides = "map" ∷ []; consumes = [] })

abbrev all_hooks : Hooks
all_hooks = record {
  configure = true;
  activate = true;
  deactivate = true;
  cleanup = true;
  shutdown = true;
}

abbrev fleet : Fleet
fleet n = new_lifecycle all_hooks

-- Every hook succeeds; the planner's activation fails; every deactivation fails.
abbrev fine : Outcomes
fine n t = Outcome.returned none

abbrev no_plan : Outcomes
no_plan n t =
    if str_eq n "planner"
    then (if t == activate then Outcome.returned (some 7) else Outcome.returned none)
    else Outcome.returned none

abbrev stuck : Outcomes
stuck n t = if t == deactivate then Outcome.returned (some 7) else Outcome.returned none

nodes-Distinct : Distinct nodes
unfolding mem
nodes-Distinct = (refl, (refl, tt))

fleet_fresh : (x : String) → mem x nodes ≡ true → (fleet x).state ≡ State.unconfigured
unfolding new_lifecycle
fleet_fresh x h = refl

abbrev after : Outcomes → Option BringUpError × Fleet
after o = bring_up o nodes deps fleet

abbrev error_of : Option BringUpError → BringUpError
error_of none = record { node = ""; t = 0; why = Failure.not_accepting }
error_of (some e) = e

fine_ok : after fine ≡ (none, (after fine).1)
unfolding bring_up goal_of keep mem new_lifecycle
fine_ok = refl

no_plan_fails : after no_plan ≡ (some (error_of (after no_plan).0), (after no_plan).1)
unfolding bring_up goal_of keep mem new_lifecycle
no_plan_fails = refl

planner_fails : (error_of (after no_plan).0).node ≡ "planner"
unfolding bring_up goal_of keep mem new_lifecycle
planner_fails = refl

maps_node : mem "maps" nodes ≡ true
unfolding mem
maps_node = refl

bring_up_succeeded_example : ((after fine).1 "maps").state ≡ State.active
bring_up_succeeded_example =
    bring_up_succeeded fine nodes deps fleet nodes-Distinct fleet_fresh (after fine).1 fine_ok
      "maps" maps_node

bring_up_failed_example :
    (mem (error_of (after no_plan).0).node nodes ≡ true)
    × ((((after no_plan).1 "maps").state ≡ State.active)
        ⊎ (((after no_plan).1 "maps" ≡ fleet "maps")
            ⊎ (((error_of (after no_plan).0).node ≡ "maps")
                × ((((after no_plan).1 "maps").state ≡ State.unconfigured)
                    ⊎ (((after no_plan).1 "maps").state ≡ State.inactive)))))
bring_up_failed_example =
    bring_up_failed no_plan nodes deps fleet nodes-Distinct fleet_fresh (error_of (after no_plan).0)
      (after no_plan).1 no_plan_fails "maps" maps_node

not_cyclic : mem (error_of (after no_plan).0).node (bringup_order nodes deps).cycles ≡ false
unfolding bring_up goal_of keep mem new_lifecycle
not_cyclic = refl

needs_map : depends_on deps nodes (error_of (after no_plan).0).node "maps" ≡ true
unfolding bring_up goal_of keep mem new_lifecycle depends_on overlap
needs_map = refl

bring_up_needs_example : ((after no_plan).1 "maps").state ≡ State.active
bring_up_needs_example =
    bring_up_needs no_plan nodes deps fleet nodes-Distinct fleet_fresh (error_of (after no_plan).0)
      (after no_plan).1 no_plan_fails not_cyclic "maps" needs_map

abbrev running : Fleet
running n = record {
  state = State.active;
  hooks = all_hooks;
  publishes = true;
  events = [];
  work = [];
  transitions = 2;
  gauge = State.active;
}

shutdown_fine :
    (s : State) (t : Transition)
    → shutdown_for s ≡ some t
    → run_hook (for_transition (running "maps").hooks t) (stuck "maps" t) ≡ none
unfolding shutdown_for run_hook for_transition
shutdown_fine s t h = ground arith
