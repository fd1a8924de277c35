-- ===== src/Graph/Machines.antt =====
-- internal/graph/mission.go: the declared missions and which of their steps can be reached.
use Prim.Native.String.{String, compare, ◌++◌ as ◌<>◌}
use text.Mathlib.Text.{◌==◌ as str_eq, is_lt}
use conductor_ros.Prelude.{
  ℕ, zero, suc, Bool, true, false, not, ◌&&◌, Option, none, some, List, [], ◌∷◌, ◌++◌, map,
  if◌then◌else◌, length,
}
use conductor_ros.Prelude.Names.{mem}
use conductor_ros.Graph.Scan.{MissionDecl, StepDecl, Call, Node}
use conductor_ros.Graph.Issues.{Pos, at}

-- `MachineStep`.
pub record MachineStep : Type 0 where
  pub name : String
  pub next : String
  pub fail : String
  pub gotos : List String
  pub timeout : String
  pub retry : String
  pub backoff : String
  pub reachable : Bool
  pub pos : Pos

-- `Machine`.
pub record Machine : Type 0 where
  pub node : String
  pub name : String
  pub start : String
  pub steps : List MachineStep
  pub pos : Pos

-- `appendOnce`.
unfoldable pub append_once : List String → String → List String
unfolding mem
append_once xs v = if mem v xs then xs else xs ++ v ∷ []

unfoldable pub add_targets : List String → List String → List String
unfolding append_once
add_targets out [] = out
add_targets out (t ∷ ts) = add_targets (if str_eq t "" then out else append_once out t) ts

-- `Targets`.
unfoldable pub targets : MachineStep → List String
unfolding add_targets
targets s = add_targets [] (s.next ∷ s.fail ∷ s.gotos)

-- The literal target of a call, where it is a Goto of one argument in the step's own handler.
unfoldable pub goto_target : StepDecl → Call → Option String
goto_target s c =
    if str_eq c.method "Goto" && str_eq c.inside ("On" <> s.field)
    then elim c.args [ [] ↦ none | a ∷ more ↦ elim more [ [] ↦ some a | b ∷ rest ↦ none ] ]
    else none

-- `gotoTargets`, over the calls of the node.
unfoldable pub goto_targets : StepDecl → List String → List Call → List String
unfolding goto_target append_once
goto_targets s out [] = out
goto_targets s out (c ∷ cs) = elim (goto_target s c) [
  | none ↦ goto_targets s out cs
  | some t ↦ goto_targets s (append_once out t) cs
]

-- `index` of `markReachable`: the last step of a name.
unfoldable pub step_of : List MachineStep → String → Option MachineStep
step_of [] name = none
step_of (s ∷ ss) name = elim (step_of ss name) [
  | none ↦ if str_eq s.name name then some s else none
  | some later ↦ some later
]

-- `for _, t := range targets { walk(t) }`, with what `walk` does to the steps seen.
unfoldable pub visit_all :
    (List String → String → List String) → List String → List String → List String
visit_all visit seen [] = seen
visit_all visit seen (t ∷ ts) = visit_all visit (visit seen t) ts

-- `walk`, which adds to the steps seen; the fuel bounds the depth of its calls.
unfoldable pub walk : List MachineStep → ℕ → List String → String → List String
unfolding step_of visit_all targets mem
walk steps zero seen name = seen
walk steps (suc fuel) seen name = elim (step_of steps name) [
  | none ↦ seen
  | some s ↦ elim (mem name seen) [
    | true ↦ seen
    | false ↦ visit_all (walk steps fuel) (seen ++ name ∷ []) (targets s)
  ]
]

abbrev pub step_names : List MachineStep → List String
step_names [] = []
step_names (s ∷ ss) = s.name ∷ step_names ss

-- The step at the index of each name seen is marked; a later step of a name hides an earlier one.
unfoldable pub mark : List String → List MachineStep → List MachineStep
unfolding mem
mark seen [] = []
mark seen (s ∷ ss) =
    record s { reachable = mem s.name seen && not (mem s.name (step_names ss)) } ∷ mark seen ss

-- `markReachable`.
unfoldable pub mark_reachable : Machine → Machine
unfolding walk mark
mark_reachable m = record m {
  steps = mark (walk m.steps (suc (length m.steps)) [] m.start) m.steps;
}

abbrev pub machine_step : Node → StepDecl → MachineStep
machine_step n s = record {
  name = s.name;
  next = if str_eq s.next "" then "done" else s.next;
  fail = s.fail;
  gotos = goto_targets s [] n.calls;
  timeout = s.timeout;
  retry = s.retry;
  backoff = s.backoff;
  reachable = false;
  pos = at s.file s.line;
}

-- The machine of a node, of its first mission.
unfoldable pub machine_of : Node → MissionDecl → Machine
unfolding mark_reachable goto_targets
machine_of n m = mark_reachable (record {
  node = n.name;
  name = m.name;
  start = m.start;
  steps = map (machine_step n) n.steps;
  pos = at m.file m.line;
})

unfoldable pub place_machine : Machine → List Machine → List Machine
place_machine m [] = m ∷ []
place_machine m (x ∷ xs) =
    let rest = place_machine m xs in
    if is_lt (compare x.node m.node) then x ∷ rest else m ∷ (x ∷ xs)

-- `Machines`: sorted by node, as an insertion sort.
unfoldable pub machines : List Node → List Machine
unfolding machine_of place_machine
machines [] = []
machines (n ∷ ns) = elim n.missions [
  | [] ↦ machines ns
  | m ∷ more ↦ place_machine (machine_of n m) (machines ns)
]
