-- ===== src/Mission/Wire.antt =====
-- mission.go: steps and how `wireMission` assembles them.
use Prim.Native.String.{String}
use text.Mathlib.Text.{◌==◌ as str_eq}
use conductor_ros.Prelude.{
  ℕ, Bool, false, not, ◌||◌, Option, none, some, List, [], ◌∷◌, ◌++◌, if◌then◌else◌, length, ◌==◌,
}

-- `stepDef`, without its handler and its counter; durations in nanoseconds.
pub record StepDef : Type 0 where
  pub name : String
  pub field : String
  pub next : String
  pub fail : String
  pub timeout : ℕ
  pub retry : ℕ
  pub backoff : ℕ

-- `missionRunner`, what wiring fixes of it; `steps` is `order`, whose names are the keys of the map.
pub record Machine : Type 0 where
  pub name : String
  pub start : String
  pub steps : List StepDef

-- `r.steps[s]`.
unfoldable pub find_step : List StepDef → String → Option StepDef
find_step [] s = none
find_step (d ∷ ds) s = let later = find_step ds s in if str_eq d.name s then some d else later

unfoldable pub declared : List StepDef → String → Bool
declared [] s = false
declared (d ∷ ds) s = str_eq d.name s || declared ds s

abbrev pub is_terminal : String → Bool
is_terminal s = str_eq s "done" || str_eq s "failed"

pub data WireError : Type 0 where
  no_mission : String → WireError
  two_steps : String → WireError
  no_steps : WireError
  no_start : String → WireError
  no_target : String → String → WireError

pub data Wired : Type 0 where
  idle : Wired
  wired : Machine → Wired
  refused : WireError → Wired

-- The first name that an earlier step has.
unfoldable pub find_dup : List StepDef → List StepDef → Option String
unfolding declared
find_dup seen [] = none
find_dup seen (d ∷ ds) =
    let later = find_dup (seen ++ d ∷ []) ds in if declared seen d.name then some d.name else later

-- A tag that names neither nothing, nor a terminal step, nor a declared one.
unfoldable pub is_bad : List StepDef → String → Bool
unfolding declared
is_bad steps target =
    if str_eq target "" || (str_eq target "done" || str_eq target "failed")
    then false
    else not (declared steps target)

unfoldable pub find_bad : List StepDef → List StepDef → Option WireError
unfolding is_bad
find_bad steps [] = none
find_bad steps (d ∷ ds) =
    let later = find_bad steps ds in
    if is_bad steps d.next
    then some (no_target d.name d.next)
    else if is_bad steps d.fail
    then some (no_target d.name d.fail)
    else later

-- `wireMission`: `steps` are the node's steps, the machine's own list is still empty.
unfoldable pub wire_machine : Machine → List StepDef → Wired
unfolding find_dup find_bad declared
wire_machine m steps = elim (find_dup [] steps) [
  | some name ↦ refused (two_steps name)
  | none ↦
      if length steps == 0
      then refused no_steps
      else if not (declared steps m.start)
      then refused (no_start m.start)
      else elim (find_bad steps steps) [
        | some e ↦ refused e
        | none ↦ wired (record { name = m.name; start = m.start; steps = steps })
      ]
]

unfoldable pub wire_mission : Option Machine → List StepDef → Wired
unfolding wire_machine
wire_mission none [] = idle
wire_mission none (d ∷ ds) = refused (no_mission d.field)
wire_mission (some m) steps = wire_machine m steps
