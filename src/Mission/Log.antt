-- ===== src/Mission/Log.antt =====
-- mission.go: what the log of handler calls of one run looks like, and how a run ends.
use Prim.Native.String.{String}
use text.Mathlib.Text.{◌==◌ as str_eq}
use conductor_ros.Prelude.{
  ℕ, ◌+◌, ◌≤◌, ◌≡◌, Bool, true, false, ◌||◌, Option, none, some, List, [], ◌∷◌, if◌then◌else◌,
  length, ◌⊎◌,
}
use conductor_ros.Mission.Wire.{StepDef, Machine, find_step, declared, is_terminal, is_bad}
use conductor_ros.Mission.Run.{
  mission_idle, mission_running, mission_done, mission_failed, mission_canceled, StepErr,
  MissionErr, of_handler, in_step, no_step, no_such, MissionState, Task, Runner, Loop, Turn, goes,
  ended,
}

-- What wiring and the binding of its steps establish of a machine.
pub record Good (m : Machine) : Type 0 where
  pub start_declared : declared m.steps m.start ≡ true
  pub has_next :
      (s : String) (d : StepDef) → find_step m.steps s ≡ some d → str_eq d.next "" ≡ false
  pub next_known :
      (s : String) (d : StepDef) → find_step m.steps s ≡ some d → is_bad m.steps d.next ≡ false
  pub fail_known :
      (s : String) (d : StepDef) → find_step m.steps s ≡ some d → is_bad m.steps d.fail ≡ false

-- A call of a declared step's handler, within its retries.
pub record Allowed (m : Machine) (t : Task) : Type 0 where
  pub def : StepDef
  pub found : find_step m.steps t.step ≡ some def
  pub at_least : 1 ≤ t.attempt
  pub at_most : t.attempt ≤ def.retry + 1

-- A first attempt, or the attempt after the last call, of the same step and without a cause.
abbrev pub Continues : String → ℕ → Option StepErr → List Task → Type 0
Continues step attempt cause ts =
    (attempt ≡ 1)
    ⊎ ((last : Task) × (rest : List Task) × (ts ≡ last ∷ rest)
        × (last.step ≡ step)
        × (attempt ≡ last.attempt + 1)
        × (cause ≡ none))

-- The log of a run, the last call first.
abbrev pub Logged : Machine → List Task → Type 0
Logged m [] = Unit
Logged m (t ∷ ts) = Allowed m t × Continues t.step t.attempt t.err ts × Logged m ts

unfoldable pub count : String → List Task → ℕ
count s [] = 0
count s (t ∷ ts) = let rest = count s ts in if str_eq t.step s then rest + 1 else rest

-- A state in which a run may end.
unfoldable pub is_settled : MissionState → Bool
is_settled s = elim s.status [
  | mission_idle ↦ false
  | mission_running ↦ false
  | mission_done ↦ str_eq s.step "done"
  | mission_failed ↦ str_eq s.step "failed"
  | mission_canceled ↦ true
]

-- The error of a loop at a step that the machine does not have.
unfoldable pub is_lost : Option MissionErr → Bool
is_lost none = false
is_lost (some (of_handler _)) = false
is_lost (some (in_step _ _)) = false
is_lost (some (no_step _)) = true
is_lost (some (no_such _ _)) = false

-- `b` is the runner that the run began with.
pub record Kept (m : Machine) (b r : Runner) : Type 0 where
  pub logged : Logged m r.calls
  pub counted : r.transitions ≡ b.transitions + length r.calls
  pub entered : (s : String) → r.entries s ≡ b.entries s + count s r.calls
  pub not_lost : is_lost r.state.err ≡ false

pub record Inv (m : Machine) (b : Runner) (l : Loop) : Type 0 where
  pub known : (declared m.steps l.step || is_terminal l.step) ≡ true
  pub at_least : 1 ≤ l.attempt
  pub at_most : (d : StepDef) → find_step m.steps l.step ≡ some d → l.attempt ≤ d.retry + 1
  pub follows : Continues l.step l.attempt l.cause l.runner.calls
  pub kept : Kept m b l.runner
  pub running : l.runner.state.status ≡ mission_running

pub record Over (m : Machine) (b r : Runner) : Type 0 where
  pub kept : Kept m b r
  pub settled : is_settled r.state ≡ true

abbrev pub TurnInv : Machine → Runner → Turn → Type 0
TurnInv m b (goes l) = Inv m b l
TurnInv m b (ended r) = Over m b r
