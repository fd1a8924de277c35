-- ===== src/Mission/Binding.antt =====
-- mission.go: how the fields of a node are bound to steps and a mission (`Step.bind`,
-- `Mission.bind`), and then wired.
use Prim.Native.String.{String}
use text.Mathlib.Text.{◌==◌ as str_eq}
use conductor_ros.Prelude.{
  ℕ, zero, suc, ◌^◌, ltb, Bool, not, Option, none, some, List, [], ◌∷◌, if◌then◌else◌, ◌>>=◌,
}
use conductor_ros.Prelude.Int.{ℤ, pos, negsuc}
use conductor_ros.Prelude.Texts.{runes}
use conductor_ros.Mission.Wire.{StepDef, Machine, Wired, wire_mission}
use conductor_ros.Mission.Count.{parse_count}

-- The tags of a Step field, its name in snake case, and whether its handler is there and of the
-- right type.
pub record StepTags : Type 0 where
  pub field : String
  pub name : String
  pub next : String
  pub fail : String
  pub timeout : String
  pub retry : String
  pub backoff : String
  pub handled : Bool

-- The start tag of a Mission field, and its name.
pub record MissionTags : Type 0 where
  pub name : String
  pub start : String

abbrev pub positive_of : Option ℤ → Option ℕ
positive_of none = none
positive_of (some (pos zero)) = none
positive_of (some (pos (suc n))) = some (suc n)
positive_of (some (negsuc n)) = none

abbrev pub nonnegative_of : Option ℤ → Option ℕ
nonnegative_of none = none
nonnegative_of (some (pos n)) = some n
nonnegative_of (some (negsuc n)) = none

-- A tag that is read where it is given.
abbrev pub tag_value : String → Option ℕ → Option ℕ
tag_value tag parsed = if str_eq tag "" then some 0 else parsed

-- A count of 2 ^ 63 or more is a negative int, and no attempt is at most that.
abbrev pub retries_of : ℕ → ℕ
retries_of n = if ltb n (2 ^ 63) then n else 0

module _ (parse_duration : String → Option ℤ) where
  unfoldable pub bind_step : StepTags → Option StepDef
  unfolding parse_count runes
  bind_step t = if not t.handled then none else do
    timeout ← tag_value t.timeout (positive_of (parse_duration t.timeout))
    backoff ← tag_value t.backoff (nonnegative_of (parse_duration t.backoff))
    retry ← tag_value t.retry (parse_count (runes t.retry))
    some (record {
      name = t.name;
      field = t.field;
      next = if str_eq t.next "" then "done" else t.next;
      fail = t.fail;
      timeout = timeout;
      retry = retries_of retry;
      backoff = backoff;
    })

  unfoldable pub bind_steps : List StepTags → Option (List StepDef)
  unfolding bind_step
  bind_steps [] = some []
  bind_steps (t ∷ ts) = do d ← bind_step t; ds ← bind_steps ts; some (d ∷ ds)

-- The Mission fields, with the mission that is bound already.
unfoldable pub bind_missions : Option Machine → List MissionTags → Option (Option Machine)
bind_missions bound [] = some bound
bind_missions bound (m ∷ ms) =
    let rest = bind_missions (some (record { name = m.name; start = m.start; steps = [] })) ms in
    if str_eq m.start "" then none else elim bound [ some other ↦ none | none ↦ rest ]

-- A node's mission, bound and wired.
unfoldable pub node_mission : (String → Option ℤ) → List MissionTags → List StepTags → Option Wired
unfolding bind_missions bind_steps wire_mission
node_mission parse_duration missions steps = do
  mission ← bind_missions none missions
  defs ← bind_steps parse_duration steps
  some (wire_mission mission defs)
