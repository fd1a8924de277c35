-- ===== src/Lifecycle/Services.antt =====
-- lifecycle.go: the four services that `bindLifecycle` serves.
use Prim.Native.String.{String}
use mathlib.Core.List.{map}
use conductor_ros.Prelude.{
  ℕ, ◌≡◌, Bool, not, ◌&&◌, ◌||◌, true, false, Option, none, some, List, [], ◌∷◌, ◌==◌,
  if◌then◌else◌, arith,
}
use conductor_ros.Lifecycle.States.{
  State, Transition, Row, transition_table, goal_of, same_state, state_id, state_string,
  transition_string,
}
use conductor_ros.Lifecycle.Machine.{Outcome, Lifecycle, transition, run_hook, for_transition}

-- `stateMsg` and `transitionMsg`.
pub record StateMsg : Type 0 where
  pub id : ℕ
  pub label : String

unfoldable pub state_msg : State → StateMsg
state_msg s = record { id = state_id s; label = state_string s }

pub record TransitionMsg : Type 0 where
  pub id : ℕ
  pub label : String

unfoldable pub transition_msg : Transition → TransitionMsg
transition_msg t = record { id = t; label = transition_string t }

pub record TransitionDescription : Type 0 where
  pub t : TransitionMsg
  pub start_state : StateMsg
  pub goal_state : StateMsg

abbrev pub is_none {ℓ} : {A : Type ℓ} → Option A → Bool
is_none none = true
is_none (some a) = false

-- `change_state`: the response says whether the transition succeeded.
unfoldable pub change_state : TransitionMsg → Outcome → Lifecycle → Bool × Lifecycle
change_state req o l = let (failure, l') = transition req.id o l in (is_none failure, l')

unfoldable pub get_state : Lifecycle → StateMsg
get_state l = state_msg l.state

unfoldable pub get_available_states : List StateMsg
unfolding state_msg
get_available_states = map state_msg (
    State.unknown ∷ State.unconfigured ∷ State.inactive ∷ State.active ∷ State.finalized
    ∷ State.configuring ∷ State.cleaning_up ∷ State.shutting_down ∷ State.activating
    ∷ State.deactivating ∷ State.error_processing ∷ [])

-- The rows of the table that start in `current`, in the table's order (Go ranges over the map in
-- an order of its own).
unfoldable pub rows_from : State → List Row → List Row
rows_from current [] = []
rows_from current (r ∷ rows) =
    let rest = rows_from current rows in if same_state r.from current then r ∷ rest else rest

unfoldable pub describe : Row → TransitionDescription
describe r = record {
  t = transition_msg r.t;
  start_state = state_msg r.from;
  goal_state = state_msg r.goal;
}

unfoldable pub get_available_transitions : Lifecycle → List TransitionDescription
get_available_transitions l = map describe (rows_from l.state transition_table)

-- Whether a response of `get_available_transitions` has a transition of the number `t`.
unfoldable pub lists : List TransitionDescription → Transition → Bool
lists [] t = false
lists (d ∷ ds) t = d.t.id == t || lists ds t

lists-goal_of :
    (s : State) (t : Transition)
    → lists (map describe (rows_from s transition_table)) t ≡ not (is_none (goal_of s t))
unfolding lists describe transition_msg rows_from same_state goal_of
lists-goal_of s t = ground arith

-- `change_state` succeeds for a transition exactly where `get_available_transitions` lists it and
-- the node's hook, if it has one, does not fail.
pub change_state_iff :
    (req : TransitionMsg) (o : Outcome) (l : Lifecycle)
    → (change_state req o l).0 ≡ (
        lists (get_available_transitions l) req.id
        && is_none (run_hook (for_transition l.hooks req.id) o))
unfolding change_state get_available_transitions transition
change_state_iff req o l = ground (arith, lists-goal_of l.state req.id)
