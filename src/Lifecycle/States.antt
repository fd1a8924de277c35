-- ===== src/Lifecycle/States.antt =====
-- lifecycle_wire.go: the states, the transitions, and the table of the managed-node design.
use Prim.Native.String.{String}
use conductor_ros.Prelude.{
  ℕ, Bool, ◌&&◌, true, false, Option, none, some, List, [], ◌∷◌, ◌==◌, if◌then◌else◌,
}

-- `State`, by its constants.
pub data State : Type 0 where
  unknown unconfigured inactive active finalized configuring cleaning_up shutting_down activating
        deactivating error_processing :
      State

unfoldable pub state_id : State → ℕ
state_id State.unknown = 0
state_id State.unconfigured = 1
state_id State.inactive = 2
state_id State.active = 3
state_id State.finalized = 4
state_id State.configuring = 10
state_id State.cleaning_up = 11
state_id State.shutting_down = 12
state_id State.activating = 13
state_id State.deactivating = 14
state_id State.error_processing = 15

unfoldable pub state_string : State → String
state_string State.unconfigured = "unconfigured"
state_string State.inactive = "inactive"
state_string State.active = "active"
state_string State.finalized = "finalized"
state_string State.configuring = "configuring"
state_string State.cleaning_up = "cleaningup"
state_string State.shutting_down = "shuttingdown"
state_string State.activating = "activating"
state_string State.deactivating = "deactivating"
state_string State.error_processing = "errorprocessing"
state_string State.unknown = "unknown"

-- `Transition` is the uint8 of the request: any number may arrive.
abbrev pub Transition : Type 0
Transition = ℕ

abbrev pub create : Transition
create = 0

abbrev pub configure : Transition
configure = 1

abbrev pub cleanup : Transition
cleanup = 2

abbrev pub activate : Transition
activate = 3

abbrev pub deactivate : Transition
deactivate = 4

abbrev pub unconfigured_shutdown : Transition
unconfigured_shutdown = 5

abbrev pub inactive_shutdown : Transition
inactive_shutdown = 6

abbrev pub active_shutdown : Transition
active_shutdown = 7

abbrev pub destroy : Transition
destroy = 8

unfoldable pub transition_string : Transition → String
transition_string t =
    if t == create
    then "create"
    else if t == configure
    then "configure"
    else if t == cleanup
    then "cleanup"
    else if t == activate
    then "activate"
    else if t == deactivate
    then "deactivate"
    else if t == unconfigured_shutdown
    then "shutdown"
    else if t == inactive_shutdown
    then "shutdown"
    else if t == active_shutdown
    then "shutdown"
    else if t == destroy
    then "destroy"
    else "unknown"

-- The comparison of two `State` values.
unfoldable pub same_state : State → State → Bool
unfolding state_id
same_state a b = state_id a == state_id b

-- A row of `transitionTable`: the key's state and transition, and the goal.
pub record Row : Type 0 where
  pub from : State
  pub t : Transition
  pub goal : State

abbrev row : State → Transition → State → Row
row s t g = record { from = s; t = t; goal = g }

abbrev pub transition_table : List Row
transition_table =
    row State.unconfigured configure State.inactive
    ∷ row State.unconfigured unconfigured_shutdown State.finalized
    ∷ row State.inactive activate State.active
    ∷ row State.inactive cleanup State.unconfigured
    ∷ row State.inactive inactive_shutdown State.finalized
    ∷ row State.active deactivate State.inactive
    ∷ row State.active active_shutdown State.finalized
    ∷ []

-- A look-up of the key `{s, t}` in such a table.
unfoldable pub find_goal : List Row → State → Transition → Option State
find_goal [] s t = none
find_goal (r ∷ rows) s t =
    let rest = find_goal rows s t in if same_state r.from s && r.t == t then some r.goal else rest

unfoldable pub goal_of : State → Transition → Option State
unfolding find_goal same_state
goal_of s t = find_goal transition_table s t

-- `intermediateState`; a missing key gives the zero value, `StateUnknown`.
unfoldable pub intermediate_state : Transition → State
intermediate_state t =
    if t == configure
    then State.configuring
    else if t == cleanup
    then State.cleaning_up
    else if t == activate
    then State.activating
    else if t == deactivate
    then State.deactivating
    else if t == unconfigured_shutdown
    then State.shutting_down
    else if t == inactive_shutdown
    then State.shutting_down
    else if t == active_shutdown
    then State.shutting_down
    else State.unknown

unfoldable pub result_of : Transition → Option State
result_of t =
    if t == configure
    then some State.inactive
    else if t == activate
    then some State.active
    else if t == deactivate
    then some State.inactive
    else if t == cleanup
    then some State.unconfigured
    else none

unfoldable pub shutdown_for : State → Option Transition
shutdown_for State.unconfigured = some unconfigured_shutdown
shutdown_for State.inactive = some inactive_shutdown
shutdown_for State.active = some active_shutdown
shutdown_for _ = none

-- The states in which a node can rest.
abbrev pub is_primary : State → Bool
is_primary State.unconfigured = true
is_primary State.inactive = true
is_primary State.active = true
is_primary State.finalized = true
is_primary _ = false
