-- ===== src/Graph/Sound/Frames.antt =====
-- internal/graph/frames.go: the checks of the frames find an error exactly where there is one.
use Prim.Native.String.{String}
use text.Mathlib.Text.{◌==◌ as str_eq}
use mathlib.Core.Path.{subst}
use conductor_ros.Prelude.{
  ◌≡◌, ◌⊎◌, ◌↔◌, refl, Bool, true, false, not, Option, none, some, List, [], ◌∷◌, All, inl, inr,
}
use conductor_ros.Prelude.Iff.{◌then_iff◌, arrow_iff, some_inj, not-false_iff}
use conductor_ros.Frames.Tree.{Transform, PathError, LookupError, has, connects, lookup_pose}
use conductor_ros.Frames.Shape.{Problem, check_tree}
use conductor_ros.Graph.Scan.{Endpoint, Call, Node, App}
use conductor_ros.Graph.Issues.{Pos, at, report, warn, gather}
use conductor_ros.Graph.Silent.{
  Silent, Silent-append, Silent-nil, Silent-when, Silent-report, Silent-warn, Silent-warned,
  append_iff, gather_iff, report_loud,
}
use conductor_ros.Graph.Frames.{
  unstamped, check_frame, still, lookup_args, check_lookup, validate_lookups, check_node_frames,
  framed_nodes, frame_names, sorted_topics, check_pair_frames, validate_frame_pairs,
  validate_frames, report_problem,
}
use conductor_ros.Graph.Clean.{Given}

-- A frame tag names a declared frame, and messages that can carry it.
abbrev pub FrameOk : App → Endpoint → Type 0
FrameOk app e =
    Given e.frame → (unstamped (app.stamped e.go_type) ≡ false) × (has app.frames e.frame ≡ true)

-- A Lookup call with literal frames has an answer in the declared tree.
abbrev pub LookupOk : App → String → Call → Type 0
LookupOk app field c =
    (target source : String)
    → lookup_args field c ≡ some (target, source)
    → lookup_pose still app.frames target source ≡ inr tt

abbrev pub LookupsOk : App → Node → Type 0
LookupsOk app n = (field : String) → n.tf ≡ some field → All (LookupOk app field) n.calls

abbrev pub NodeFramesOk : App → Node → Type 0
NodeFramesOk app n = All (FrameOk app) n.pubs × (All (FrameOk app) n.subs × LookupsOk app n)

-- Where the endpoints of a topic declare several frames, the first two are connected.
abbrev pub PairOk : App → List String → Type 0
PairOk app [] = Unit
PairOk app (a ∷ []) = Unit
PairOk app (a ∷ b ∷ more) = connects app.frames a b ≡ none

abbrev pub FramesOk : App → Type 0
FramesOk app =
    (check_tree app.frames ≡ [])
    × (All (NodeFramesOk app) app.nodes
        × All (λ topic. PairOk app (frame_names (framed_nodes app.nodes) topic))
            (sorted_topics (framed_nodes app.nodes)))

Given-iff : (tag : String) → (not (str_eq tag "") ≡ true) ↔ Given tag
Given-iff tag = flip (str_eq tag "")
  where
    flip : (b : Bool) → (not b ≡ true) ↔ (b ≡ false)
    flip true = (λ h. absurd (cc h), λ h. absurd (cc h))
    flip false = (λ h. refl, λ h. refl)

check_frame_iff : (app : App) (e : Endpoint) → Silent (check_frame app e) ↔ FrameOk app e
unfolding check_frame
check_frame_iff app e =
    Silent-when (not (str_eq e.frame "")) _
    then_iff when_given
    then_iff arrow_iff (
        append_iff _ _
          (Silent-report (unstamped (app.stamped e.go_type)) "CND057" (at e.file e.line))
          (Silent-report (not (has app.frames e.frame)) "CND050" (at e.file e.line)
            then_iff not-false_iff (has app.frames e.frame)))
  where
    when_given : {P : Type 0} → ((not (str_eq e.frame "") ≡ true) → P) ↔ (Given e.frame → P)
    when_given = (λ h g. h ((Given-iff e.frame).1 g), λ h g. h ((Given-iff e.frame).0 g))

abbrev Posed : Type 0
Posed = LookupError Unit ⊎ Unit

module _ (pos : Pos) where
  posed_iff :
      (r : Posed)
      → Silent (elim r [ inl e ↦ report "CND054" pos | inr pose ↦ [] ])
        ↔ (◌≡◌ {A = Posed} r (inr tt))
  posed_iff (inl e) = (λ h. absurd (report_loud _ pos h), λ h. absurd (cc h))
  posed_iff (inr pose) = (λ h. refl, λ h. Silent-nil)

  tree_iff :
      (tree : Option (List (Transform Unit))) (target source : String)
      → Silent (elim tree [
        | none ↦ report "CND050" pos
        | some ts ↦ elim (lookup_pose still (some ts) target source) [
          | inl e ↦ report "CND054" pos
          | inr pose ↦ []
        ]
      ])
        ↔ (lookup_pose still tree target source ≡ inr tt)
  unfolding lookup_pose
  tree_iff none target source = (λ h. absurd (report_loud _ pos h), λ h. absurd (cc h))
  tree_iff (some ts) target source = posed_iff (lookup_pose still (some ts) target source)

  args_iff :
      (tree : Option (List (Transform Unit))) (o : Option (String × String))
      → Silent (elim o [
        | none ↦ []
        | some (target, source) ↦ elim tree [
          | none ↦ report "CND050" pos
          | some ts ↦ elim (lookup_pose still (some ts) target source) [
            | inl e ↦ report "CND054" pos
            | inr pose ↦ []
          ]
        ]
      ])
        ↔ ((target source : String)
            → ◌≡◌ {A = Option (String × String)} o (some (target, source))
            → lookup_pose still tree target source ≡ inr tt)
  args_iff tree none = (λ h t s e. absurd (cc e), λ h. Silent-nil)
  args_iff tree (some (target, source)) = tree_iff tree target source then_iff (
    λ h t s e.
        subst (λ (x : String × String). lookup_pose still tree x.0 x.1 ≡ inr tt)
          (some_inj (target, source) (t, s) e) h,
    λ h. h target source refl,
  )

check_lookup_iff :
    (app : App) (field : String) (c : Call)
    → Silent (check_lookup app field c) ↔ LookupOk app field c
unfolding check_lookup
check_lookup_iff app field c = args_iff (at c.file c.line) app.frames (lookup_args field c)

fields_iff :
    (app : App) (calls : List Call) (tf : Option String)
    → Silent (elim tf [ none ↦ [] | some field ↦ gather (check_lookup app field) calls ]) ↔ (
        (field : String) → ◌≡◌ {A = Option String} tf (some field) → All (LookupOk app field) calls)
fields_iff app calls none = (λ h f e. absurd (cc e), λ h. Silent-nil)
fields_iff app calls (some field) = gather_iff _ (check_lookup_iff app field) calls then_iff (
  λ h f e. subst (λ x. All (LookupOk app x) calls) (some_inj field f e) h,
  λ h. h field refl,
)

validate_lookups_iff : (app : App) (n : Node) → Silent (validate_lookups app n) ↔ LookupsOk app n
unfolding validate_lookups
validate_lookups_iff app n = fields_iff app n.calls n.tf

check_node_frames_iff :
    (app : App) (n : Node) → Silent (check_node_frames app n) ↔ NodeFramesOk app n
unfolding check_node_frames
check_node_frames_iff app n =
    append_iff _ _ (gather_iff _ (check_frame_iff app) n.pubs)
      (append_iff _ _ (gather_iff _ (check_frame_iff app) n.subs) (validate_lookups_iff app n))

answered :
    (app : App) (pos : Pos) (o : Option PathError)
    → Silent (elim o [ none ↦ warn "CND056" pos | some e ↦ report "CND056" pos ])
      ↔ (◌≡◌ {A = Option PathError} o none)
answered app pos none = (λ h. refl, λ h. Silent-warned _ pos)
answered app pos (some e) = (λ h. absurd (report_loud _ pos h), λ h. absurd (cc h))

check_pair_frames_iff :
    (app : App) (pos : Pos) (names : List String)
    → Silent (check_pair_frames app pos names) ↔ PairOk app names
unfolding check_pair_frames
check_pair_frames_iff app pos [] = (λ h. tt, λ h. Silent-nil)
check_pair_frames_iff app pos (a ∷ []) = (λ h. tt, λ h. Silent-nil)
check_pair_frames_iff app pos (a ∷ b ∷ more) = answered app pos (connects app.frames a b)

problems_iff : (app : App) (ps : List Problem) → Silent (gather (report_problem app) ps) ↔ (ps ≡ [])
unfolding gather
problems_iff app [] = (λ h. refl, λ h. Silent-nil)
problems_iff app (p ∷ ps) = (
  λ h. absurd (report_loud _ _ ((Silent-append (report_problem app p) _).0 h).0),
  λ h. absurd (cc h),
)

pub validate_frames_iff : (app : App) → Silent (validate_frames app) ↔ FramesOk app
unfolding validate_frames validate_frame_pairs
validate_frames_iff app = append_iff _ _ (problems_iff app (check_tree app.frames)) (
    append_iff _ _ (gather_iff _ (check_node_frames_iff app) app.nodes) (
      append_iff {0, 0} {P = Unit} _ _ (λ h. tt, λ h. Silent-warn _ _ _)
        (gather_iff _
          (λ topic. check_pair_frames_iff app _ (frame_names (framed_nodes app.nodes) topic))
          (sorted_topics (framed_nodes app.nodes)))
      then_iff (λ (x, y). y, λ y. (tt, y))))
