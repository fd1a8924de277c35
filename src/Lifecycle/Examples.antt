-- ===== src/Lifecycle/Examples.antt =====
-- Concrete lives of a managed node, and the theorems at concrete inputs.
use conductor_ros.Prelude.{false, ◌≡◌, refl, inl, true, none, some, List, [], ◌∷◌, ◌++◌, ◌&&◌}
use conductor_ros.Lifecycle.States.{
  State, goal_of, configure, activate, active_shutdown, intermediate_state,
}
use conductor_ros.Lifecycle.Machine.{
  Hooks, Failure, Outcome, Work, Lifecycle, run_hook, for_transition, new_lifecycle,
  begin_transition, commit_transition, Pending, transition,
}
use conductor_ros.Lifecycle.Services.{
  transition_msg, change_state, change_state_iff, get_available_transitions, lists, is_none,
}
use conductor_ros.Lifecycle.Outcomes.{published, transition_failed}
use conductor_ros.Lifecycle.History.{Request, drive, Tracks, bound, bound-Tracks, drive-Tracks}
use conductor_ros.Lifecycle.Serial.{Calls, Step, Reach, Serial, Reach-Serial, idle}
use conductor_ros.Lifecycle.Race.{Reach-out_of_order}

abbrev all_hooks : Hooks
all_hooks = record {
  configure = true;
  activate = true;
  deactivate = true;
  cleanup = true;
  shutdown = true;
}

abbrev fine : Outcome
fine = Outcome.returned none

abbrev fresh : Lifecycle
fresh = bound all_hooks

abbrev inactive_node : Lifecycle
inactive_node = record fresh { state = State.inactive }

abbrev busy : List Request
busy =
    record { t = configure; outcome = fine }
    ∷ record { t = activate; outcome = Outcome.returned (some 3) }
    ∷ record { t = activate; outcome = fine }
    ∷ record { t = 77; outcome = fine }
    ∷ record { t = active_shutdown; outcome = Outcome.refused }
    ∷ []

busy_state :
    ((drive fresh busy).state ≡ State.active) × ((drive fresh busy).work ≡ Work.started ∷ [])
unfolding drive transition goal_of new_lifecycle
busy_state = (refl, refl)

drive-Tracks_example : Tracks (drive fresh busy)
drive-Tracks_example = drive-Tracks fresh busy (bound-Tracks all_hooks)

transition_failed_example : transition activate Outcome.quit inactive_node ≡ (
  some Failure.shut_down_during,
  record inactive_node { events = published inactive_node activate State.error_processing },
)
unfolding new_lifecycle goal_of run_hook for_transition
transition_failed_example =
    transition_failed activate Outcome.quit inactive_node State.active Failure.shut_down_during refl
      refl

change_state_iff_example : (change_state (transition_msg activate) fine inactive_node).0 ≡ (
    lists (get_available_transitions inactive_node) (transition_msg activate).id
    && is_none (run_hook (for_transition inactive_node.hooks (transition_msg activate).id) fine))
change_state_iff_example = change_state_iff (transition_msg activate) fine inactive_node

abbrev activation : Pending
activation = record { t = activate; start = State.inactive; goal = State.active }

abbrev one_call : Calls
one_call = record {
  life = record inactive_node { state = State.activating };
  hooking = activation ∷ [];
  owed = [];
  adrift = [];
  closed = false;
}

one_call-Reach : Reach (idle inactive_node) one_call
unfolding begin_transition goal_of intermediate_state
one_call-Reach = Reach.next Reach.here (Step.request _ activate _ _ refl)

-- The node quits while the hook runs, and the call gives up on it.
abbrev cut_off : Calls
cut_off = record {
  life = commit_transition activation (some Failure.shut_down_during) one_call.life;
  hooking = [];
  owed = record { pending = activation; failure = some Failure.shut_down_during } ∷ [];
  adrift = activation ∷ [];
  closed = true;
}

cut_off-Reach : Reach (idle inactive_node) cut_off
cut_off-Reach =
    Reach.next (Reach.next one_call-Reach (Step.quits _))
      (Step.gives_up _ activation [] [] refl refl)

Reach-Serial_example : Serial cut_off
Reach-Serial_example = Reach-Serial (λ h. refl, inl (refl, refl)) cut_off-Reach

Reach-out_of_order_example :
    (d : Calls) × Reach (idle inactive_node) d
    × (d.hooking ≡ [])
    × (d.owed ≡ [])
    × (d.life.state ≡ State.inactive)
    × (d.life.work ≡ (inactive_node.work ++ Work.stopped ∷ []) ++ Work.started ∷ [])
Reach-out_of_order_example = Reach-out_of_order inactive_node refl
