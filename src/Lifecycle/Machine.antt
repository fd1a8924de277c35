-- ===== src/Lifecycle/Machine.antt =====
-- lifecycle.go: the state machine of one node, its hooks, and one transition.
use conductor_ros.Prelude.{
  ℕ, ◌+◌, Bool, ◌||◌, true, false, Option, none, some, List, [], ◌∷◌, ◌++◌, ◌==◌, if◌then◌else◌,
}
use conductor_ros.Lifecycle.States.{
  State, Transition, configure, cleanup, activate, deactivate, unconfigured_shutdown,
  inactive_shutdown, active_shutdown, same_state, goal_of, intermediate_state,
}

-- `lifecycleHooks`: which of the optional callbacks the node has. Their bodies are the
-- application's; what a call of one comes to is an `Outcome`.
pub record Hooks : Type 0 where
  pub configure : Bool
  pub activate : Bool
  pub deactivate : Bool
  pub cleanup : Bool
  pub shutdown : Bool

unfoldable pub for_transition : Hooks → Transition → Bool
for_transition h t =
    if t == configure
    then h.configure
    else if t == activate
    then h.activate
    else if t == deactivate
    then h.deactivate
    else if t == cleanup
    then h.cleanup
    else if t == unconfigured_shutdown || t == inactive_shutdown || t == active_shutdown
    then h.shutdown
    else false

-- The errors that a transition reports.
pub data Failure : Type 0 where
  not_valid : Transition → State → Failure
  not_accepting : Failure
  shut_down_during : Failure
  hook_failed : ℕ → Failure

-- What becomes of a hook that is handed to the node's executor: the mailbox refuses it, the node
-- quits before it is done, or it returns, perhaps with an error.
pub data Outcome : Type 0 where
  refused quit : Outcome
  returned : Option ℕ → Outcome

-- `runHook`; a missing hook succeeds.
unfoldable pub run_hook : Bool → Outcome → Option Failure
run_hook false o = none
run_hook true Outcome.refused = some Failure.not_accepting
run_hook true Outcome.quit = some Failure.shut_down_during
run_hook true (Outcome.returned none) = none
run_hook true (Outcome.returned (some e)) = some (Failure.hook_failed e)

-- `transitionEventMsg`, without its stamp.
pub record Event : Type 0 where
  pub t : Transition
  pub start : State
  pub goal : State

-- A call of the node's `onActive` or `onInactive` functions.
pub data Work : Type 0 where
  started stopped : Work

-- `lifecycle` with the parts of its node that a transition touches: `publishes` is whether
-- `eventPub` is set; `events`, `work`, `transitions` and `gauge` collect what was published,
-- called and counted, the latest last.
pub record Lifecycle : Type 0 where
  pub state : State
  pub hooks : Hooks
  pub publishes : Bool
  pub events : List Event
  pub work : List Work
  pub transitions : ℕ
  pub gauge : State

unfoldable pub new_lifecycle : Hooks → Lifecycle
new_lifecycle h = record {
  state = State.unconfigured;
  hooks = h;
  publishes = false;
  events = [];
  work = [];
  transitions = 0;
  gauge = State.unknown;
}

unfoldable pub publish_event : Transition → State → State → Lifecycle → Lifecycle
publish_event t start goal l =
    if l.publishes
    then record l { events = l.events ++ record { t = t; start = start; goal = goal } ∷ [] }
    else l

-- A transition whose hook is running: `start` and `goal` are locals of the call.
pub record Pending : Type 0 where
  pub t : Transition
  pub start : State
  pub goal : State

-- The first critical section of `transition`: the table decides, and the node enters the
-- intermediate state.
unfoldable pub begin_transition : Transition → Lifecycle → Option Pending × Lifecycle
begin_transition t l = elim (goal_of l.state t) [
  | none ↦ (none, l)
  | some goal ↦ (
    some (record { t = t; start = l.state; goal = goal }),
    record l { state = intermediate_state t },
  )
]

unfoldable pub notify : State → State → Lifecycle → Lifecycle
notify start goal l =
    if same_state goal State.active
    then record l { work = l.work ++ Work.started ∷ [] }
    else if same_state start State.active
    then record l { work = l.work ++ Work.stopped ∷ [] }
    else l

-- The second critical section, once the hook has come to an end: a transition that failed puts
-- the node back where it came from.
unfoldable pub commit_transition : Pending → Option Failure → Lifecycle → Lifecycle
commit_transition p (some e) l = record l { state = p.start }
commit_transition p none l = record l { state = p.goal }

-- What `transition` does after the second section: it calls the work functions, keeps the
-- metrics, and publishes the event. An error is an event alone.
unfoldable pub settle_transition : Pending → Option Failure → Lifecycle → Lifecycle
unfolding publish_event notify
settle_transition p (some e) l = publish_event p.t p.start State.error_processing l
settle_transition p none l =
    let l' = notify p.start p.goal l in
    publish_event p.t p.start p.goal
      (record l' { gauge = p.goal; transitions = l'.transitions + 1 })

-- `lifecycle.transition`, where nothing else drives the node: `none` is success.
unfoldable pub transition : Transition → Outcome → Lifecycle → Option Failure × Lifecycle
unfolding begin_transition commit_transition settle_transition run_hook for_transition
transition t o l =
    let (begun, l') = begin_transition t l in
    elim begun [
      | none ↦ (some (Failure.not_valid t l.state), l')
      | some p ↦
          let failure = run_hook (for_transition l.hooks t) o in
          (failure, settle_transition p failure (commit_transition p failure l'))
    ]
