-- ===== src/Graph/Frames.antt =====
-- internal/graph/frames.go: `validateFrames`, `validateLookups` and `validateFramePairs`.
use Prim.Native.String.{String, ◌++◌ as ◌<>◌}
use text.Mathlib.Text.{◌==◌ as str_eq}
use conductor_ros.Prelude.{
  Bool, false, not, ◌&&◌, ◌||◌, Option, none, some, is_some, List, [], ◌∷◌, ◌++◌, inl, inr, length,
  ltb, if◌then◌else◌,
}
use conductor_ros.Prelude.Texts.{trim_suffix}
use conductor_ros.Frames.Tree.{Motions, Transform, has, connects, lookup_pose}
use conductor_ros.Frames.Shape.{
  note_all, sort_names, published, Problem, multiple_parents, cycle, disconnected, check_tree,
}
use conductor_ros.Graph.Scan.{Endpoint, Call, Node, App}
use conductor_ros.Graph.Issues.{Pos, nowhere, at, whole, Issue, report, warn, when, gather}

-- `framesPos`.
unfoldable pub frames_pos : App → Pos
frames_pos app =
    if str_eq app.frames_file "" then nowhere else whole (app.dir <> "/" <> app.frames_file)

-- The code of a fault of the tree.
abbrev pub problem_code : Problem → String
problem_code p = elim p [ multiple_parents ↦ "CND051" | cycle ↦ "CND052" | disconnected ↦ "CND053" ]

abbrev pub report_problem : App → Problem → List Issue
report_problem app p = report (problem_code p) (frames_pos app)

-- `stamped, known := app.Stamped[t]; known && !stamped`.
abbrev pub unstamped : Option Bool → Bool
unstamped s = elim s [ none ↦ false | some b ↦ not b ]

-- The frame tag of an endpoint. Without a tree no frame is declared, which has the same code.
unfoldable pub check_frame : App → Endpoint → List Issue
unfolding when has
check_frame app e =
    let pos = at e.file e.line in
    when (not (str_eq e.frame "")) (
      when (unstamped (app.stamped e.go_type)) (report "CND057" pos)
      ++ when (not (has app.frames e.frame)) (report "CND050" pos))

abbrev pub still : Motions Unit
still = record { identity = tt; then_ = λ a b. tt; inverse = λ a. tt }

-- The frames of a Lookup call on the field, if it has two literal arguments: target and source.
unfoldable pub lookup_args : String → Call → Option (String × String)
unfolding trim_suffix
lookup_args field c =
    if str_eq c.method "Lookup" && is_some (trim_suffix ("." <> field) c.recv)
    then elim c.args [
      | [] ↦ none
      | target ∷ more ↦ elim more [
        | [] ↦ none
        | source ∷ rest ↦ elim rest [ [] ↦ some (target, source) | x ∷ xs ↦ none ]
      ]
    ]
    else none

-- One round of the loop of `validateLookups`.
unfoldable pub check_lookup : App → String → Call → List Issue
unfolding lookup_args lookup_pose
check_lookup app field c = elim (lookup_args field c) [
  | none ↦ []
  | some (target, source) ↦ elim app.frames [
    | none ↦ report "CND050" (at c.file c.line)
    | some tree ↦ elim (lookup_pose still (some tree) target source) [
      | inl e ↦ report "CND054" (at c.file c.line)
      | inr pose ↦ []
    ]
  ]
]

-- `validateLookups`.
unfoldable pub validate_lookups : App → Node → List Issue
unfolding check_lookup gather
validate_lookups app n = elim n.tf [
  | none ↦ []
  | some field ↦ gather (check_lookup app field) n.calls
]

-- What validateFrames adds for a node.
unfoldable pub check_node_frames : App → Node → List Issue
unfolding check_frame gather validate_lookups
check_node_frames app n =
    gather (check_frame app) n.pubs ++ (gather (check_frame app) n.subs ++ validate_lookups app n)

unfoldable pub declares_tf : List Node → Bool
declares_tf [] = false
declares_tf (n ∷ ns) = is_some n.tf || declares_tf ns

abbrev pub published_of : App → List (Transform Unit)
published_of app = elim app.frames [ none ↦ [] | some tree ↦ published tree ]

-- An endpoint with a topic and a frame, at its topic: `byTopic` in the order of its entries.
pub record Framed : Type 0 where
  pub topic : String
  pub frame : String
  pub pos : Pos

unfoldable pub framed : List Endpoint → List Framed
framed [] = []
framed (e ∷ es) =
    let rest = framed es in
    if str_eq e.frame "" || str_eq e.topic ""
    then rest
    else record { topic = e.topic; frame = e.frame; pos = at e.file e.line } ∷ rest

unfoldable pub framed_nodes : List Node → List Framed
unfolding framed
framed_nodes [] = []
framed_nodes (n ∷ ns) = framed n.pubs ++ (framed n.subs ++ framed_nodes ns)

unfoldable pub framed_topics : List Framed → List String
framed_topics [] = []
framed_topics (e ∷ es) = e.topic ∷ framed_topics es

-- The frames that the endpoints of a topic declare.
unfoldable pub topic_frames : String → List Framed → List String
topic_frames topic [] = []
topic_frames topic (e ∷ es) =
    let rest = topic_frames topic es in if str_eq e.topic topic then e.frame ∷ rest else rest

-- The place of the last endpoint of a topic, `pos` where there is none.
unfoldable pub last_pos : String → Pos → List Framed → Pos
last_pos topic pos [] = pos
last_pos topic pos (e ∷ es) = last_pos topic (if str_eq e.topic topic then e.pos else pos) es

unfoldable pub check_pair_frames : App → Pos → List String → List Issue
unfolding connects
check_pair_frames app pos [] = []
check_pair_frames app pos (a ∷ []) = []
check_pair_frames app pos (a ∷ b ∷ more) = elim (connects app.frames a b) [
  | none ↦ warn "CND056" pos
  | some e ↦ report "CND056" pos
]

-- `frames` of one topic, sorted.
unfoldable pub frame_names : List Framed → String → List String
unfolding sort_names note_all topic_frames
frame_names es topic = sort_names (note_all [] (topic_frames topic es))

-- `order`, sorted.
unfoldable pub sorted_topics : List Framed → List String
unfolding sort_names note_all framed_topics
sorted_topics es = sort_names (note_all [] (framed_topics es))

-- `validateFramePairs`.
unfoldable pub validate_frame_pairs : App → List Issue
unfolding gather check_pair_frames frame_names sorted_topics framed_nodes last_pos
validate_frame_pairs app =
    let es = framed_nodes app.nodes in
    gather (λ topic. check_pair_frames app (last_pos topic nowhere es) (frame_names es topic))
      (sorted_topics es)

-- `validateFrames`.
unfoldable pub validate_frames : App → List Issue
unfolding gather check_tree check_node_frames when declares_tf validate_frame_pairs published
validate_frames app =
    gather (report_problem app) (check_tree app.frames)
    ++ (gather (check_node_frames app) app.nodes
        ++ (when (ltb 0 (length (published_of app)) && not (declares_tf app.nodes))
              (warn "CND055" (frames_pos app))
            ++ validate_frame_pairs app))
