-- ===== src/Mission/Run.antt =====
-- mission.go: `run`, the loop that drives a mission, and what it calls.
use Prim.Native.String.{String}
use text.Mathlib.Text.{◌==◌ as str_eq}
use conductor_ros.Prelude.{
  ℕ, ◌+◌, Bool, true, false, not, ◌&&◌, ◌||◌, Option, none, some, List, [], ◌∷◌, if◌then◌else◌, leb,
  ltb,
}
use conductor_ros.Mission.Wire.{StepDef, Machine, find_step, declared, is_terminal}

-- `MissionStatus`.
pub data MissionStatus : Type 0 where
  mission_idle mission_running mission_done mission_failed mission_canceled : MissionStatus

-- Errors of a handler: `gotoStep`, the two errors of a context, its own, and one
-- with another in it (`%w`).
pub data StepErr : Type 0 where
  goto_step : String → StepErr
  context_canceled : StepErr
  deadline_exceeded : StepErr
  custom : String → StepErr
  wrapped : String → StepErr → StepErr

-- Errors of a mission: a handler's, as it is or named by its step, and those of the loop.
pub data MissionErr : Type 0 where
  of_handler : StepErr → MissionErr
  in_step : String → StepErr → MissionErr
  no_step : String → MissionErr
  no_such : String → String → MissionErr

-- `errors.As(err, &jump)`.
unfoldable pub as_goto : StepErr → Option String
as_goto (goto_step s) = some s
as_goto context_canceled = none
as_goto deadline_exceeded = none
as_goto (custom _) = none
as_goto (wrapped _ e) = as_goto e

-- `errors.Is(err, context.Canceled)`.
unfoldable pub is_canceled : StepErr → Bool
is_canceled (goto_step _) = false
is_canceled context_canceled = true
is_canceled deadline_exceeded = false
is_canceled (custom _) = false
is_canceled (wrapped _ e) = is_canceled e

-- `missionState`, without the time.
pub record MissionState : Type 0 where
  pub status : MissionStatus
  pub step : String
  pub attempt : ℕ
  pub err : Option MissionErr

-- `Task`, what a handler is called with.
pub record Task : Type 0 where
  pub step : String
  pub attempt : ℕ
  pub err : Option StepErr

-- `missionRunner` while it runs: its state, its counters, whether its context is
-- canceled, and the handlers called so far, the last one first.
pub record Runner : Type 0 where
  pub state : MissionState
  pub transitions : ℕ
  pub entries : String → ℕ
  pub is_stopped : Bool
  pub calls : List Task

-- What happens around one round of the loop: whether the mission's context is
-- canceled before it, while the handler runs or while the retry waits, whether
-- the step's deadline cancels the step's context, and what the handler returns.
pub record Input : Type 0 where
  pub stop_before : Bool
  pub stop_during : Bool
  pub stop_asleep : Bool
  pub expired : Bool
  pub answer : Option StepErr

-- The loop's variables and the runner.
pub record Loop : Type 0 where
  pub step : String
  pub attempt : ℕ
  pub cause : Option StepErr
  pub runner : Runner

pub data Turn : Type 0 where
  goes : Loop → Turn
  ended : Runner → Turn

-- A canceled context stays canceled.
unfoldable pub hear : Bool → Runner → Runner
hear stop r = record {
  state = r.state;
  transitions = r.transitions;
  entries = r.entries;
  is_stopped = r.is_stopped || stop;
  calls = r.calls;
}

unfoldable pub with_state : MissionState → Runner → Runner
with_state s r = record {
  state = s;
  transitions = r.transitions;
  entries = r.entries;
  is_stopped = r.is_stopped;
  calls = r.calls;
}

unfoldable pub set_err : StepErr → Runner → Runner
unfolding with_state
set_err e r =
    with_state
      (record {
        status = r.state.status;
        step = r.state.step;
        attempt = r.state.attempt;
        err = some (of_handler e);
      })
      r

abbrev pub last_step : MissionStatus → String → String
last_step mission_done s = "done"
last_step mission_failed s = "failed"
last_step mission_canceled s = s
last_step mission_idle s = s
last_step mission_running s = s

abbrev pub last_err : Option MissionErr → Option MissionErr → Option MissionErr
last_err (some e) old = some e
last_err none old = old

unfoldable pub finish : MissionStatus → Option MissionErr → Runner → Runner
unfolding with_state
finish status err r =
    with_state
      (record {
        status = status;
        step = last_step status r.state.step;
        attempt = r.state.attempt;
        err = last_err err r.state.err;
      })
      r

-- `enter`, for a declared step.
unfoldable pub enter : String → ℕ → Runner → Runner
enter step attempt r = record {
  state = record { status = r.state.status; step = step; attempt = attempt; err = r.state.err };
  transitions = r.transitions + 1;
  entries = λ s. if str_eq step s then r.entries s + 1 else r.entries s;
  is_stopped = r.is_stopped;
  calls = r.calls;
}

-- `def.handler(t)`.
unfoldable pub call : Task → Runner → Runner
call t r = record {
  state = r.state;
  transitions = r.transitions;
  entries = r.entries;
  is_stopped = r.is_stopped;
  calls = t ∷ r.calls;
}

-- What `runStep` returns.
unfoldable pub run_step : StepDef → Input → Option StepErr
unfolding is_canceled
run_step def i = elim i.answer [
  | none ↦ none
  | some e ↦
      if ltb 0 def.timeout && i.expired && is_canceled e then some deadline_exceeded else some e
]

-- The switch after `runStep`, where the error is no jump.
unfoldable pub settle : StepDef → Loop → Input → Runner → Option StepErr → Turn
unfolding hear finish set_err
settle def l i r none = goes (record { step = def.next; attempt = 1; cause = none; runner = r })
settle def l i r (some e) =
    if r.is_stopped
    then ended (finish mission_canceled none r)
    else if leb l.attempt def.retry
    then if ltb 0 def.backoff && i.stop_asleep
      then ended (finish mission_canceled none (hear true r))
      else goes (record { step = l.step; attempt = l.attempt + 1; cause = none; runner = r })
    else if not (str_eq def.fail "")
    then goes (record { step = def.fail; attempt = 1; cause = some e; runner = set_err e r })
    else ended (finish mission_failed (some (in_step def.name e)) r)

unfoldable pub jump : Machine → StepDef → Runner → String → Turn
unfolding finish declared
jump m def r target =
    if not (declared m.steps target) && not (is_terminal target)
    then ended (finish mission_failed (some (no_such def.name target)) r)
    else goes (record { step = target; attempt = 1; cause = none; runner = r })

unfoldable pub goto_of : Option StepErr → Option String
unfolding as_goto
goto_of none = none
goto_of (some e) = as_goto e

unfoldable pub run_declared : Machine → StepDef → Loop → Input → Runner → Turn
unfolding enter call hear run_step jump settle goto_of
run_declared m def l i r =
    let t : Task = record { step = def.name; attempt = l.attempt; err = l.cause } in
    let r' = hear i.stop_during (call t (enter l.step l.attempt r)) in
    let err = run_step def i in
    elim (goto_of err) [ some target ↦ jump m def r' target | none ↦ settle def l i r' err ]

-- One round of `for`.
unfoldable pub turn : Machine → Loop → Input → Turn
unfolding hear finish find_step run_declared
turn m l i =
    let r = hear i.stop_before l.runner in
    if r.is_stopped
    then ended (finish mission_canceled none r)
    else if str_eq l.step "done"
    then ended (finish mission_done none r)
    else if str_eq l.step "failed"
    then ended (finish mission_failed r.state.err r)
    else elim (find_step m.steps l.step) [
      | none ↦ ended (finish mission_failed (some (no_step l.step)) r)
      | some def ↦ run_declared m def l i r
    ]

-- `run`, for as many rounds as there are inputs.
unfoldable pub run_from : Machine → Turn → List Input → Turn
unfolding turn
run_from m (ended r) is = ended r
run_from m (goes l) [] = goes l
run_from m (goes l) (i ∷ is) = run_from m (turn m l i) is

-- `start_`, of a mission that does not run, and the variables of `run`.
unfoldable pub begin_run : Machine → Runner → Loop
begin_run m r = record {
  step = m.start;
  attempt = 1;
  cause = none;
  runner = record {
    state = record { status = mission_running; step = m.start; attempt = 1; err = none };
    transitions = r.transitions;
    entries = r.entries;
    is_stopped = false;
    calls = [];
  };
}

unfoldable pub run : Machine → Runner → List Input → Turn
unfolding begin_run run_from
run m r is = run_from m (goes (begin_run m r)) is

unfoldable pub runner_of : Turn → Runner
runner_of (goes l) = l.runner
runner_of (ended r) = r
