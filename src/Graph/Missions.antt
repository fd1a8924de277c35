-- ===== src/Graph/Missions.antt =====
-- internal/graph/mission.go: `validateMissions`.
use Prim.Native.String.{String}
use text.Mathlib.Text.{◌==◌ as str_eq}
use conductor_ros.Prelude.{Bool, not, ◌&&◌, ◌||◌, none, some, List, [], ◌∷◌, ◌++◌, if◌then◌else◌}
use conductor_ros.Prelude.Names.{mem}
use conductor_ros.Graph.Scan.{MissionDecl, StepDecl, Call, Node}
use conductor_ros.Graph.Std.{Std, is_positive, is_nonnegative}
use conductor_ros.Graph.Issues.{Pos, at, Issue, report, warn, when, gather}
use conductor_ros.Graph.Checks.{sig, check_handler}
use conductor_ros.Graph.Machines.{MachineStep, Machine, goto_target, machines}

-- `terminalStep`.
abbrev pub terminal_step : String → Bool
terminal_step name = str_eq name "done" || str_eq name "failed"

-- `declared`: the names of the node's steps.
abbrev pub declared_names : List StepDecl → List String
declared_names [] = []
declared_names (s ∷ ss) = s.name ∷ declared_names ss

-- A next or fail tag.
unfoldable pub check_target : List String → Pos → String → List Issue
unfolding when mem
check_target names pos t =
    when (not (str_eq t "" || terminal_step t) && not (mem t names)) (report "CND040" pos)

unfoldable pub check_goto : List String → StepDecl → Call → List Issue
unfolding when mem goto_target
check_goto names s c = elim (goto_target s c) [
  | none ↦ []
  | some t ↦ when (not (mem t names) && not (terminal_step t)) (report "CND040" (at c.file c.line))
]

-- A tag that is checked where it is given.
abbrev pub is_refused : String → Bool → Bool
is_refused tag ok = not (str_eq tag "") && not ok

unfoldable pub check_step : Std → Node → StepDecl → List Issue
unfolding check_handler check_target check_goto gather when
check_step std n s =
    let names = declared_names n.steps in
    let pos = at s.file s.line in
    check_handler n s.field (sig 1 1) pos
    ++ (check_target names pos s.next
        ++ (check_target names pos s.fail
            ++ (gather (check_goto names s) n.calls
                ++ (when (is_refused s.timeout (is_positive (std.parse_duration s.timeout)))
                      (report "CND043" pos)
                    ++ (when (is_refused s.backoff (is_nonnegative (std.parse_duration s.backoff)))
                          (report "CND043" pos)
                        ++ when (is_refused s.retry (std.accepts_int s.retry))
                            (report "CND043" pos))))))

-- The start tag, in both of its cases.
unfoldable pub check_start : List String → MissionDecl → List Issue
unfolding when mem
check_start names m =
    when (str_eq m.start "" || not (mem m.start names)) (report "CND041" (at m.file m.line))

-- One node: the shape of its declaration first.
unfoldable pub check_mission : Std → Node → List MissionDecl → List StepDecl → List Issue
unfolding check_start check_step gather
check_mission std n (m ∷ second ∷ more) steps = report "CND041" (at second.file second.line)
check_mission std n [] (s ∷ ss) = report "CND041" (at s.file s.line)
check_mission std n [] [] = []
check_mission std n (m ∷ []) [] = report "CND041" (at m.file m.line)
check_mission std n (m ∷ []) (s ∷ ss) =
    check_start (declared_names (s ∷ ss)) m ++ gather (check_step std n) (s ∷ ss)

abbrev pub warn_unreachable : MachineStep → List Issue
warn_unreachable s = if s.reachable then [] else warn "CND042" s.pos

abbrev pub warn_machine : Machine → List Issue
warn_machine m = gather warn_unreachable m.steps

-- `validateMissions`.
unfoldable pub validate_missions : Std → List Node → List Issue
unfolding check_mission gather machines
validate_missions std nodes =
    gather (λ (n : Node). check_mission std n n.missions n.steps) nodes
    ++ gather warn_machine (machines nodes)
