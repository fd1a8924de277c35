-- ===== src/Graph/Stacks.antt =====
-- internal/graph/lifecycle.go and groups.go: `validateLifecycle` and `validateGroups`.
use Prim.Native.String.{String}
use text.Mathlib.Text.{◌==◌ as str_eq}
use conductor_ros.Prelude.{
  ℕ, ◌+◌, not, ◌&&◌, ◌||◌, Option, none, some, is_some, List, [], ◌∷◌, ◌++◌, if◌then◌else◌, length,
  ◌==◌,
}
use conductor_ros.Prelude.Names.{mem}
use conductor_ros.Prelude.Texts.{has_separator, after_dot}
use conductor_ros.Graph.Scan.{Call, LifecycleDecl, GroupDecl, Node, PlanningGroup, App}
use conductor_ros.Graph.Std.{Std, is_positive}
use conductor_ros.Graph.Issues.{Pos, at, Issue, report, warn, when, gather}
use conductor_ros.Graph.Missions.{is_refused}

abbrev pub node_names : List Node → List String
node_names [] = []
node_names (n ∷ ns) = n.name ∷ node_names ns

-- The loop over the managed nodes of a field, with those seen before.
unfoldable pub check_managed : List String → Pos → List String → List String → List Issue
unfolding when mem has_separator
check_managed ours pos seen [] = []
check_managed ours pos seen (name ∷ names) =
    when (str_eq name "" || (mem name seen || has_separator name)) (report "CND060" pos)
    ++ (when (mem name ours) (warn "CND061" pos)
        ++ check_managed ours pos (seen ++ name ∷ []) names)

unfoldable pub check_stack : Std → List String → LifecycleDecl → List Issue
unfolding check_managed when
check_stack std ours d =
    let pos = at d.file d.line in
    elim d.nodes [
      | [] ↦ report "CND060" pos
      | name ∷ names ↦
          check_managed ours pos [] (name ∷ names)
          ++ when (is_refused d.timeout (is_positive (std.parse_duration d.timeout)))
              (report "CND062" pos)
    ]

abbrev pub check_stacks : Std → List String → Node → List Issue
check_stacks std ours n = gather (check_stack std ours) n.lifecycle

-- `validateLifecycle`.
unfoldable pub validate_lifecycle : Std → List Node → List Issue
unfolding check_stack gather
validate_lifecycle std nodes = gather (check_stacks std (node_names nodes)) nodes

-- `Semantics.Group`.
unfoldable pub group_of : List PlanningGroup → String → Option PlanningGroup
group_of [] name = none
group_of (g ∷ gs) name =
    let later = group_of gs name in if str_eq g.name name then some g else later

-- `byField[field]`: the last group with a name that a field declares.
unfoldable pub by_field : List GroupDecl → String → Option String
by_field [] field = none
by_field (g ∷ gs) field = elim (by_field gs field) [
  | some name ↦ some name
  | none ↦ if str_eq g.field field && not (str_eq g.name "") then some g.name else none
]

unfoldable pub check_group : List PlanningGroup → GroupDecl → List Issue
unfolding when group_of
check_group groups g =
    when (str_eq g.name "" || not (is_some (group_of groups g.name)))
      (report "CND070" (at g.file g.line))

-- The literal argument of a State call of one argument.
unfoldable pub state_arg : Call → Option String
state_arg c =
    if str_eq c.method "State"
    then elim c.args [ [] ↦ none | a ∷ more ↦ elim more [ [] ↦ some a | b ∷ rest ↦ none ] ]
    else none

-- One call of `validateGroupStates`.
unfoldable pub check_state : List PlanningGroup → List GroupDecl → Call → List Issue
unfolding when group_of by_field after_dot mem state_arg
check_state groups decls c = elim (state_arg c) [
  | none ↦ []
  | some state ↦ elim (by_field decls (after_dot c.recv c.recv)) [
    | none ↦ []
    | some name ↦ elim (group_of groups name) [
      | none ↦ []
      | some group ↦ when (not (mem state group.states)) (report "CND071" (at c.file c.line))
    ]
  ]
]

abbrev pub check_groups : List PlanningGroup → Node → List Issue
check_groups groups n =
    gather (check_group groups) n.groups ++ gather (check_state groups n.groups) n.calls

abbrev pub check_missing : Node → List Issue
check_missing n = gather (λ (g : GroupDecl). report "CND070" (at g.file g.line)) n.groups

-- How many groups the nodes declare.
unfoldable pub count_groups : List Node → ℕ
count_groups [] = 0
count_groups (n ∷ ns) = length n.groups + count_groups ns

-- `validateGroups`.
unfoldable pub validate_groups : App → List Issue
unfolding check_group check_state gather count_groups
validate_groups app = if count_groups app.nodes == 0 then [] else elim app.semantics [
  | none ↦ gather check_missing app.nodes
  | some groups ↦ gather (check_groups groups) app.nodes
]
