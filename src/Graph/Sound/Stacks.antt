-- ===== src/Graph/Sound/Stacks.antt =====
-- internal/graph/lifecycle.go and groups.go: the checks of the managed nodes and of the planning
-- groups report what is wrong with them.
use Prim.Native.String.{String}
use text.Mathlib.Text.{◌==◌ as str_eq}
use text.Mathlib.TextPositions.{eq_refl}
use mathlib.Core.Path.{subst}
use conductor_ros.Prelude.{
  ◌≡◌, ◌≢◌, refl, sym, ap, ◌∙◌, ◌↔◌, true, false, not, Option, none, some, is_some, List, [], ◌∷◌,
  ◌++◌, All, length, ◌==◌, if_case, arith, Bool-cases, inl, inr,
}
use conductor_ros.Prelude.Names.{mem, mem-snoc, Distinct, str_eq-of, mem-ne}
use conductor_ros.Prelude.Texts.{has_separator, after_dot}
use conductor_ros.Prelude.Iff.{
  some_inj, ◌then_iff◌, both_iff, or-false_iff, present_iff, is_some_iff, not-false_iff,
}
use conductor_ros.Graph.Scan.{Call, LifecycleDecl, GroupDecl, Node, PlanningGroup, App}
use conductor_ros.Graph.Std.{Std, is_positive}
use conductor_ros.Graph.Issues.{Pos, at, Issue, errors, when, report, gather}
use conductor_ros.Graph.Silent.{
  Silent, Silent-append, Silent-report, Silent-warn, Silent-nil, append_iff, gather_iff,
  report_loud,
}
use conductor_ros.Graph.Missions.{is_refused}
use conductor_ros.Graph.Stacks.{
  node_names, check_managed, check_stack, validate_lifecycle, group_of, by_field, state_arg,
  check_group, check_state, check_groups, check_missing, count_groups, validate_groups,
}
use conductor_ros.Graph.Sound.Missions.{refused_tag_iff}
use conductor_ros.Graph.Clean.{Given, NodeNameOk, StackOk, GroupOk, StateOk, GroupsOk}

-- The names behind those seen: named, each once, and none of them seen.
abbrev FreshNames : List String → List String → Type 0
FreshNames seen [] = Unit
FreshNames seen (x ∷ xs) =
    (Given x × ((mem x seen ≡ false) × (has_separator x ≡ false))) × FreshNames (seen ++ x ∷ []) xs

check_managed_iff :
    (ours : List String) (pos : Pos) (seen xs : List String)
    → Silent (check_managed ours pos seen xs) ↔ FreshNames seen xs
unfolding check_managed
check_managed_iff ours pos seen [] = (λ h. tt, λ h. Silent-nil)
check_managed_iff ours pos seen (x ∷ xs) =
    append_iff _ _
      (Silent-report _ "CND060" pos
        then_iff or-false_iff (str_eq x "") _
        then_iff both_iff (λ h. h, λ h. h) (or-false_iff (mem x seen) (has_separator x)))
      (Silent-append _ _
        then_iff (λ (h, k). k, λ k. (Silent-warn _ "CND061" pos, k))
        then_iff check_managed_iff ours pos (seen ++ x ∷ []) xs)

-- Those seen are told apart from those that follow.
abbrev Apart : List String → List String → Type 0
Apart seen xs =
    ((x : String) → mem x xs ≡ true → mem x seen ≡ false) × (Distinct xs × All NodeNameOk xs)

Apart-cons :
    (seen : List String) (x : String) (xs : List String)
    → (FreshNames (seen ++ x ∷ []) xs → Apart (seen ++ x ∷ []) xs)
    → FreshNames seen (x ∷ xs)
    → Apart seen (x ∷ xs)
unfolding mem
Apart-cons seen x xs ih ((given, (new, whole)), rest) =
    let (out, (d, ok)) = ih rest in
    (
      λ y m. elim (Bool-cases (str_eq x y)) [
        | inl e ↦ ap (λ z. mem z seen) (sym (str_eq-of x y e)) ∙ new
        | inr e ↦ ground (arith, out y (ground arith), mem-snoc y x seen)
      ],
      (
        (
          elim (Bool-cases (mem x xs)) [
            | inl e ↦ absurd (ground (arith, out x e, mem-snoc x x seen, eq_refl x))
            | inr e ↦ e
          ],
          d,
        ),
        ((given, whole), ok),
      ),
    )

cons-Apart :
    (seen : List String) (x : String) (xs : List String)
    → (Apart (seen ++ x ∷ []) xs → FreshNames (seen ++ x ∷ []) xs)
    → Apart seen (x ∷ xs)
    → FreshNames seen (x ∷ xs)
unfolding mem
cons-Apart seen x xs ih (out, ((once, d), ((given, whole), ok))) = (
  (given, (out x (rw (eq_refl x) refl), whole)),
  ih (
    λ y m. ground (arith, out y (ground arith), mem-snoc y x seen, mem-ne y x xs m once),
    (d, ok),
  ),
)

fresh_iff : (seen xs : List String) → FreshNames seen xs ↔ Apart seen xs
unfolding mem
fresh_iff seen [] = (λ h. (λ x m. absurd (cc m), (tt, tt)), λ h. tt)
fresh_iff seen (x ∷ xs) =
    let ih = fresh_iff (seen ++ x ∷ []) xs in (Apart-cons seen x xs ih.0, cons-Apart seen x xs ih.1)

managed_iff :
    (ours : List String) (pos : Pos) (xs : List String)
    → Silent (check_managed ours pos [] xs) ↔ (Distinct xs × All NodeNameOk xs)
unfolding mem
managed_iff ours pos xs =
    check_managed_iff ours pos [] xs
    then_iff fresh_iff [] xs
    then_iff (λ (out, h). h, λ h. (λ x m. refl, h))

check_stack_iff :
    (std : Std) (ours : List String) (d : LifecycleDecl)
    → Silent (check_stack std ours d) ↔ StackOk std d
unfolding check_stack
check_stack_iff std ours d = of_nodes d.nodes
  where
    of_nodes :
        (names : List String)
        → Silent (elim names as (λ _. List Issue) [
          | [] ↦ report "CND060" (at d.file d.line)
          | name ∷ more ↦
              check_managed ours (at d.file d.line) [] (name ∷ more)
              ++ when
                  (is_refused d.timeout (is_positive (std.parse_duration d.timeout)))
                  (report "CND062" (at d.file d.line))
        ])
          ↔ ((names ≢ [])
              × (Distinct names
                  × (All NodeNameOk names
                      × (Given d.timeout → is_positive (std.parse_duration d.timeout) ≡ true))))
    of_nodes [] = (λ h. absurd (report_loud _ _ h), λ (h, k). absurd (h refl))
    of_nodes (name ∷ more) =
        append_iff _ _ (managed_iff ours _ (name ∷ more)) (refused_tag_iff d.timeout _ "CND062" _)
        then_iff (
          λ ((distinct, ok), tag). (λ e. absurd (cc e), (distinct, (ok, tag))),
          λ (some_there, (distinct, (ok, tag))). ((distinct, ok), tag),
        )

pub validate_lifecycle_iff :
    (std : Std) (nodes : List Node)
    → Silent (validate_lifecycle std nodes)
      ↔ All (λ (n : Node). All (StackOk std) n.lifecycle) nodes
unfolding validate_lifecycle
validate_lifecycle_iff std nodes =
    gather_iff _ (λ n. gather_iff _ (check_stack_iff std (node_names nodes)) n.lifecycle) nodes

check_group_iff :
    (groups : List PlanningGroup) (g : GroupDecl) → Silent (check_group groups g) ↔ GroupOk groups g
unfolding check_group
check_group_iff groups g =
    Silent-report _ "CND070" _
    then_iff present_iff (str_eq g.name "") (is_some (group_of groups g.name))
    then_iff both_iff (λ h. h, λ h. h) (is_some_iff (group_of groups g.name))

check_state_iff :
    (groups : List PlanningGroup) (decls : List GroupDecl) (c : Call)
    → Silent (check_state groups decls c) ↔ StateOk groups decls c
unfolding check_state
check_state_iff groups decls c = of_call (state_arg c) (by_field decls (after_dot c.recv c.recv))
  where
    of_group :
        (state : String) (o : Option PlanningGroup)
        → Silent (elim o as (λ _. List Issue) [
          | none ↦ []
          | some group ↦ when (not (mem state group.states)) (report "CND071" (at c.file c.line))
        ])
          ↔ ((group : PlanningGroup) → o ≡ some group → mem state group.states ≡ true)
    of_group state none = (λ h group e. absurd (cc e), λ h. Silent-nil)
    of_group state (some g) =
        Silent-report _ "CND071" _ then_iff not-false_iff (mem state g.states) then_iff (
          λ h group e.
              subst (λ (x : PlanningGroup). mem state x.states ≡ true) (some_inj g group e) h,
          λ h. h g refl,
        )

    of_call :
        (given field : Option String)
        → Silent (elim given as (λ _. List Issue) [
          | none ↦ []
          | some state ↦ elim field [
            | none ↦ []
            | some name ↦ elim (group_of groups name) [
              | none ↦ []
              | some group ↦
                  when (not (mem state group.states)) (report "CND071" (at c.file c.line))
            ]
          ]
        ])
          ↔ ((state name : String) (group : PlanningGroup)
              → given ≡ some state
              → field ≡ some name
              → group_of groups name ≡ some group
              → mem state group.states ≡ true)
    of_call none field = (λ h s n g e. absurd (cc e), λ h. Silent-nil)
    of_call (some s) none = (λ h s' n g e e'. absurd (cc e'), λ h. Silent-nil)
    of_call (some s) (some n) = of_group s (group_of groups n) then_iff (
      λ h s' n' g e e' k.
          subst (λ z. mem z g.states ≡ true) (some_inj s s' e)
            (h g (subst (λ z. group_of groups z ≡ some g) (sym (some_inj n n' e')) k)),
      λ h g k. h s n g refl refl k,
    )

missing_iff : (n : Node) → Silent (check_missing n) ↔ (n.groups ≡ [])
unfolding gather errors
missing_iff n = of_groups n.groups
  where
    of_groups :
        (gs : List GroupDecl)
        → Silent (gather (λ (g : GroupDecl). report "CND070" (at g.file g.line)) gs) ↔ (gs ≡ [])
    of_groups [] = (λ h. refl, λ h. refl)
    of_groups (g ∷ gs) = (λ h. absurd (cc h), λ h. absurd (cc h))

-- No group is declared, so there is nothing to hold to the robot's.
none_declared :
    (groups : Option (List PlanningGroup)) (nodes : List Node)
    → (count_groups nodes == 0) ≡ true
    → All (GroupsOk groups) nodes
unfolding count_groups by_field
none_declared groups [] h = tt
none_declared groups (n ∷ ns) h =
    (of_groups groups (empty n.groups (ground arith)), none_declared groups ns (ground arith))
  where
    empty : (gs : List GroupDecl) → (length gs == 0) ≡ true → gs ≡ []
    empty [] h = refl
    empty (g ∷ gs) h = absurd (ground (arith, h))

    quiet : (gs : List PlanningGroup) (cs : List Call) → All (StateOk gs []) cs
    quiet gs [] = tt
    quiet gs (c ∷ cs) = (λ s name g a e. absurd (cc e), quiet gs cs)

    of_groups : (o : Option (List PlanningGroup)) → n.groups ≡ [] → GroupsOk o n
    of_groups none e = e
    of_groups (some gs) e = rw e (tt, quiet gs n.calls)

pub validate_groups_iff :
    (app : App) → Silent (validate_groups app) ↔ All (GroupsOk app.semantics) app.nodes
unfolding validate_groups
validate_groups_iff app =
    if_case (λ (is : List Issue). Silent is ↔ All (GroupsOk app.semantics) app.nodes)
      (count_groups app.nodes == 0)
      (λ e. (λ h. none_declared app.semantics app.nodes e, λ h. Silent-nil))
      (λ e. of_semantics app.semantics)
  where
    of_semantics :
        (o : Option (List PlanningGroup))
        → Silent (elim o as (λ _. List Issue) [
          | none ↦ gather check_missing app.nodes
          | some groups ↦ gather (check_groups groups) app.nodes
        ])
          ↔ All (GroupsOk o) app.nodes
    of_semantics none = gather_iff _ missing_iff app.nodes
    of_semantics (some groups) =
        gather_iff _
          (λ n.
            append_iff _ _ (gather_iff _ (check_group_iff groups) n.groups)
              (gather_iff _ (check_state_iff groups n.groups) n.calls))
          app.nodes
