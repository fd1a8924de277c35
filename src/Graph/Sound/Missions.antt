-- ===== src/Graph/Sound/Missions.antt =====
-- internal/graph/mission.go: the checks of the missions report what is wrong with them.
use Prim.Native.String.{String}
use text.Mathlib.Text.{◌==◌ as str_eq}
use conductor_ros.Prelude.{
  ◌≡◌, refl, ◌↔◌, Bool, true, false, not, ◌&&◌, Option, none, some, List, [], ◌∷◌, All, if_case,
}
use conductor_ros.Prelude.Names.{mem}
use conductor_ros.Prelude.Iff.{
  some_inj, ◌then_iff◌, refused_iff, either_iff, present_iff, times_assoc_iff,
}
use conductor_ros.Graph.Scan.{MissionDecl, StepDecl, Call, Node}
use conductor_ros.Graph.Std.{Std}
use conductor_ros.Graph.Issues.{Pos, at, Issue, when, report}
use conductor_ros.Graph.Silent.{
  Silent, Silent-report, Silent-warned, Silent-nil, append_iff, append-Silent, gather_iff,
  gather-Silent, report_loud,
}
use conductor_ros.Graph.Machines.{MachineStep, goto_target, machines}
use conductor_ros.Graph.Missions.{
  terminal_step, declared_names, check_target, check_goto, is_refused, check_step, check_start,
  check_mission, warn_unreachable, warn_machine, validate_missions,
}
use conductor_ros.Graph.Checks.{sig}
use conductor_ros.Graph.Sound.Fields.{check_handler_iff}
use conductor_ros.Graph.Clean.{Given, TagOk, Known, GotoOk, StepOk, MissionOk}

check_target_iff :
    (names : List String) (pos : Pos) (t : String)
    → Silent (check_target names pos t) ↔ (Given t → Known names t)
unfolding check_target
check_target_iff names pos t =
    Silent-report _ "CND040" pos then_iff either_iff (str_eq t "") (terminal_step t) (mem t names)

Known-iff :
    (names : List String) (t : String)
    → ((not (mem t names) && not (terminal_step t)) ≡ false) ↔ Known names t
Known-iff names t = swapped (mem t names) (terminal_step t)
  where
    swapped : (a b : Bool) → ((not a && not b) ≡ false) ↔ (b ≡ false → a ≡ true)
    swapped true b = (λ h e. refl, λ h. refl)
    swapped false true = (λ h e. absurd (cc e), λ h. refl)
    swapped false false = (λ h e. absurd (cc h), λ h. absurd (cc (h refl)))

check_goto_iff :
    (names : List String) (s : StepDecl) (c : Call)
    → Silent (check_goto names s c) ↔ GotoOk names s c
unfolding check_goto
check_goto_iff names s c = found (goto_target s c)
  where
    found :
        (o : Option String)
        → Silent (elim o as (λ _. List Issue) [
          | none ↦ []
          | some t ↦
              when (not (mem t names) && not (terminal_step t)) (report "CND040" (at c.file c.line))
        ])
          ↔ ((t : String) → o ≡ some t → Known names t)
    found none = (λ h t e. absurd (cc e), λ h. Silent-nil)
    found (some u) =
        Silent-report _ "CND040" _
        then_iff Known-iff names u
        then_iff (λ h t e. rw (some_inj u t e) at h, λ h. h u refl)

pub refused_tag_iff :
    (tag : String) (ok : Bool) (code : String) (pos : Pos)
    → Silent (when (is_refused tag ok) (report code pos)) ↔ TagOk tag ok
refused_tag_iff tag ok code pos = Silent-report _ code pos then_iff refused_iff (str_eq tag "") ok

check_step_iff :
    (std : Std) (n : Node) (s : StepDecl) → Silent (check_step std n s) ↔ StepOk std n s
unfolding check_step
check_step_iff std n s =
    let names = declared_names n.steps in
    append_iff _ _ (check_handler_iff n s.field (sig 1 1) _) (
      append_iff _ _ (check_target_iff names _ s.next) (
        append_iff _ _ (check_target_iff names _ s.fail) (
          append_iff _ _ (gather_iff _ (check_goto_iff names s) n.calls) (
            append_iff _ _ (refused_tag_iff s.timeout _ "CND043" _) (
              append_iff _ _ (refused_tag_iff s.backoff _ "CND043" _)
                (refused_tag_iff s.retry _ "CND043" _))))))

check_mission_iff :
    (std : Std) (n : Node) (ms : List MissionDecl) (ss : List StepDecl)
    → Silent (check_mission std n ms ss) ↔ MissionOk std n ms ss
unfolding check_mission check_start
check_mission_iff std n [] [] = (λ h. tt, λ h. Silent-nil)
check_mission_iff std n [] (s ∷ ss) = (λ h. report_loud _ _ h, λ h. absurd h)
check_mission_iff std n (m ∷ []) [] =
    (λ h. absurd (report_loud _ _ h), unfold mem in λ (g, (h, k)). absurd (cc h))
check_mission_iff std n (m ∷ []) (s ∷ ss) =
    append_iff _ _
      (Silent-report _ "CND041" _
        then_iff present_iff (str_eq m.start "") (mem m.start (declared_names (s ∷ ss))))
      (gather_iff _ (check_step_iff std n) (s ∷ ss))
    then_iff times_assoc_iff
check_mission_iff std n (m ∷ second ∷ more) [] = (λ h. report_loud _ _ h, λ h. absurd h)
check_mission_iff std n (m ∷ second ∷ more) (s ∷ ss) = (λ h. report_loud _ _ h, λ h. absurd h)

warn_unreachable-Silent : (s : MachineStep) → Silent (warn_unreachable s)
warn_unreachable-Silent s =
    if_case Silent s.reachable (λ h. Silent-nil) (λ h. Silent-warned "CND042" s.pos)

pub validate_missions_iff :
    (std : Std) (nodes : List Node)
    → Silent (validate_missions std nodes)
      ↔ All (λ (n : Node). MissionOk std n n.missions n.steps) nodes
unfolding validate_missions
validate_missions_iff std nodes =
    append-Silent _ _ (gather_iff _ (λ n. check_mission_iff std n n.missions n.steps) nodes) (
      gather-Silent warn_machine
        (λ m. gather-Silent warn_unreachable warn_unreachable-Silent m.steps) (machines nodes))
