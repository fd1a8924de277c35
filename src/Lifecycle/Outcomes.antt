-- ===== src/Lifecycle/Outcomes.antt =====
-- What one transition does to the node, on every branch.
use conductor_ros.Prelude.{
  ◌+◌, ◌≡◌, ◌⊎◌, true, false, none, some, List, [], ◌∷◌, ◌++◌, if◌then◌else◌, arith, refl, inl, inr,
}
use conductor_ros.Lifecycle.States.{
  State, Transition, goal_of, same_state, is_primary, intermediate_state, result_of, shutdown_for,
}
use conductor_ros.Lifecycle.Machine.{
  Failure, Outcome, run_hook, Event, Work, Lifecycle, for_transition, transition,
}

-- What the node publishes of a transition, if it publishes at all.
abbrev pub published : Lifecycle → Transition → State → List Event
published l t goal =
    if l.publishes
    then l.events ++ record { t = t; start = l.state; goal = goal } ∷ []
    else l.events

-- A transition that the table lacks is refused, and changes nothing.
pub transition_refused :
    (t : Transition) (o : Outcome) (l : Lifecycle)
    → goal_of l.state t ≡ none
    → transition t o l ≡ (some (Failure.not_valid t l.state), l)
unfolding transition
transition_refused t o l h = ground arith

-- A hook that fails leaves the node in the state that it came from; only the event tells.
pub transition_failed :
    (t : Transition) (o : Outcome) (l : Lifecycle) (g : State) (e : Failure)
    → goal_of l.state t ≡ some g
    → run_hook (for_transition l.hooks t) o ≡ some e
    → transition t o l ≡ (some e, record l { events = published l t State.error_processing })
unfolding transition
transition_failed t o l g e h k = ground arith

-- What the node's `onActive` and `onInactive` functions are called for: entering Active, and
-- leaving it.
abbrev pub notified : State → State → List Work → List Work
notified start goal w =
    if same_state goal State.active
    then w ++ Work.started ∷ []
    else if same_state start State.active
    then w ++ Work.stopped ∷ []
    else w

-- A transition that the table has and whose hook succeeds takes the node to the table's goal, calls
-- the work functions where Active is entered or left, counts, and publishes the event.
pub transition_succeeded :
    (t : Transition) (o : Outcome) (l : Lifecycle) (g : State)
    → goal_of l.state t ≡ some g
    → run_hook (for_transition l.hooks t) o ≡ none
    → transition t o l ≡ (
      none,
      record l {
        state = g;
        events = published l t g;
        work = notified l.state g l.work;
        transitions = l.transitions + 1;
        gauge = g;
      },
    )
unfolding transition
transition_succeeded t o l g h k = ground arith

-- From Finalized nothing leads on: every request is refused, whatever its number.
pub finalized_absorbs :
    (t : Transition) (o : Outcome) (l : Lifecycle)
    → l.state ≡ State.finalized
    → transition t o l ≡ (some (Failure.not_valid t State.finalized), l)
unfolding transition goal_of
finalized_absorbs t o l h = ground arith

-- The goals in the table are states in which a node can rest, and so are the states it starts in;
-- the intermediate states are not.
pub goal_of-is_primary :
    (s : State) (t : Transition) (g : State)
    → goal_of s t ≡ some g
    → (is_primary s ≡ true) × (is_primary g ≡ true) × (is_primary (intermediate_state t) ≡ false)
unfolding goal_of intermediate_state
goal_of-is_primary s t g h = ground arith

-- `result_of` foretells where a transition that is accepted lands.
pub result_of-goal_of :
    (s : State) (t : Transition) (g r : State) → goal_of s t ≡ some g → result_of t ≡ some r → g ≡ r
unfolding goal_of result_of
result_of-goal_of s t g r h k = ground arith

-- `shutdown_for` offers a transition exactly from the three states that have one, and that
-- transition leads to Finalized.
pub shutdown_for_lem :
    (s : State)
    → is_primary s ≡ true
    → (s ≡ State.finalized)
      ⊎ ((t : Transition) × (shutdown_for s ≡ some t) × (goal_of s t ≡ some State.finalized))
unfolding goal_of shutdown_for
shutdown_for_lem State.unconfigured h = inr (_, refl, refl)
shutdown_for_lem State.inactive h = inr (_, refl, refl)
shutdown_for_lem State.active h = inr (_, refl, refl)
shutdown_for_lem State.finalized h = inl refl
shutdown_for_lem _ h = cc
