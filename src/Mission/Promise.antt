-- ===== src/Mission/Promise.antt =====
-- mission.go: what a mission promises.
use Prim.Native.String.{String}
use conductor_ros.Prelude.{◌+◌, ◌≡◌, true, false, some, List, length}
use conductor_ros.Mission.Wire.{StepDef, Machine, wired, wire_mission}
use conductor_ros.Mission.Run.{mission_running, Runner, Input, Turn, goes, ended, run, runner_of}
use conductor_ros.Mission.Log.{Good, Logged, count, is_settled, is_lost, TurnInv}
use conductor_ros.Mission.Rounds.{run-TurnInv, Kept-runner_of}
use conductor_ros.Mission.Wiring.{HasNext, wired-Good}

abbrev pub machine_of : Machine → List StepDef → Machine
machine_of m steps = record { name = m.name; start = m.start; steps = steps }

-- A turn of a run that goes on is running; one that ended it is settled.
abbrev pub Settles : Turn → Type 0
Settles (goes l) = l.runner.state.status ≡ mission_running
Settles (ended r) = (is_settled r.state ≡ true) × (is_lost r.state.err ≡ false)

module _ (m0 : Machine) (steps : List StepDef)
    (w : wire_mission (some m0) steps ≡ wired (machine_of m0 steps)) (n : HasNext steps) where
  abbrev machine : Machine
  machine = machine_of m0 steps

  good : Good machine
  good = wired-Good m0 steps w n

  -- In a run of a mission that wireMission accepted, of steps that each have a next
  -- step, every handler called is a declared step's, with an attempt between 1 and
  -- the step's retries plus 1; and a call is a first attempt, or the attempt after
  -- the call before it, of the same step and without a cause.
  pub run-Logged :
      (b : Runner) (is : List Input) → Logged machine (runner_of (run machine b is)).calls
  run-Logged b is =
      (Kept-runner_of machine b good (run machine b is) (run-TurnInv machine b good is)).logged

  -- In a run of a mission that wireMission accepted, of steps that each have a next step, the
  -- transitions counted are the handlers called, and a step's entries are the calls of its
  -- handler.
  pub run_counts :
      (b : Runner) (is : List Input)
      → let r = runner_of (run machine b is) in
        (r.transitions ≡ b.transitions + length r.calls)
        × ((s : String) → r.entries s ≡ b.entries s + count s r.calls)
  run_counts b is =
      let k = Kept-runner_of machine b good (run machine b is) (run-TurnInv machine b good is) in
      (k.counted, k.entered)

  -- A run of a mission that wireMission accepted, of steps that each have a next step, ends, if
  -- it does, done at the step "done", failed at the step "failed", or canceled, and never because
  -- a round begins at a step that the machine does not have (a Goto of one ends it failed before);
  -- until then its status is running.
  pub run-Settles : (b : Runner) (is : List Input) → Settles (run machine b is)
  run-Settles b is = Settles-turn (run machine b is) (run-TurnInv machine b good is)
    where
      Settles-turn : (t : Turn) → TurnInv machine b t → Settles t
      Settles-turn (goes l) v = v.running
      Settles-turn (ended r) v = (v.settled, v.kept.not_lost)
