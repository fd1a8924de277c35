-- ===== src/Graph/Pairs.antt =====
-- internal/graph/graph.go: the checks of the endpoints of one topic, service or action.
use Prim.Native.String.{String}
use text.Mathlib.Text.{◌==◌ as str_eq}
use conductor_ros.Prelude.{
  Bool, true, false, not, ◌&&◌, ◌||◌, Option, none, some, List, [], ◌∷◌, ◌++◌, if◌then◌else◌,
  length, ltb, ◌==◌,
}
use conductor_ros.Prelude.Names.{mem}
use conductor_ros.Bus.Qos.{Qos, qos_profile, reliable, best_effort, volatile, transient_local}
use conductor_ros.Graph.Issues.{Pos, nowhere, Issue, report, warn, when, gather}
use conductor_ros.Graph.Channels.{Channel}
use conductor_ros.Graph.Build.{TopicEndpoint, SvcEndpoint}

-- A set of strings, filled by assignments to a `map[string]bool`.
unfoldable pub add_key : List String → String → List String
unfolding mem
add_key keys k = if mem k keys then keys else keys ++ k ∷ []

unfoldable pub add_keys : List String → List String → List String
unfolding add_key
add_keys keys [] = keys
add_keys keys (k ∷ ks) = add_keys (add_key keys k) ks

-- `len(keys) > 1`.
unfoldable pub disagree : List String → Bool
unfolding add_keys
disagree ks = ltb 1 (length (add_keys [] ks))

-- The keys that the loop of `checkTypes` assigns.
unfoldable pub go_types : List TopicEndpoint → List String
go_types [] = []
go_types (e ∷ es) =
    let rest = go_types es in
    if not e.external && not (str_eq e.go_type "") then e.go_type ∷ rest else rest

unfoldable pub ros_types : List TopicEndpoint → List String
ros_types [] = []
ros_types (e ∷ es) =
    let rest = ros_types es in if not (str_eq e.ros_type "") then e.ros_type ∷ rest else rest

-- `checkTypes`.
unfoldable pub check_types : Channel TopicEndpoint → List Issue
unfolding when disagree go_types ros_types
check_types t =
    let all = t.sources ++ t.sinks in
    when (disagree (go_types all)) (report "CND012" nowhere)
    ++ when (disagree (ros_types all)) (report "CND012" nowhere)

abbrev pub wants_reliable : Qos → Qos → Bool
wants_reliable p s = elim s.reliability [
  | best_effort ↦ false
  | reliable ↦ elim p.reliability [ reliable ↦ false | best_effort ↦ true ]
]

abbrev pub wants_latched : Qos → Qos → Bool
wants_latched p s = elim s.durability [
  | volatile ↦ false
  | transient_local ↦ elim p.durability [ transient_local ↦ false | volatile ↦ true ]
]

-- `qosIncompat`, an issue for each violation.
unfoldable pub qos_incompat : Pos → Qos → Qos → List Issue
unfolding when
qos_incompat pos p s =
    when (wants_reliable p s) (report "CND013" pos)
    ++ when (wants_latched p s) (report "CND013" pos)

-- One pairing: nothing where a profile is unknown.
unfoldable pub check_pair : TopicEndpoint → TopicEndpoint → List Issue
unfolding qos_incompat qos_profile
check_pair p s = elim (qos_profile p.qos) [
  | none ↦ []
  | some pq ↦ elim (qos_profile s.qos) [ none ↦ [] | some sq ↦ qos_incompat s.pos pq sq ]
]

unfoldable pub check_pairs : List TopicEndpoint → List TopicEndpoint → List Issue
unfolding check_pair gather
check_pairs pubs subs = gather (λ (p : TopicEndpoint). gather (check_pair p) subs) pubs

-- `allInternal`.
unfoldable pub all_internal : List TopicEndpoint → Bool
all_internal [] = true
all_internal (e ∷ es) = not e.external && all_internal es

unfoldable pub all_internal_svc : List SvcEndpoint → Bool
all_internal_svc [] = true
all_internal_svc (e ∷ es) = not e.external && all_internal_svc es

-- One topic of the graph.
unfoldable pub check_topic : Channel TopicEndpoint → List Issue
unfolding when gather check_types check_pairs all_internal
check_topic t =
    when (length t.sources == 0) (gather (λ (s : TopicEndpoint). report "CND010" s.pos) t.sinks)
    ++ (when (length t.sinks == 0 && all_internal t.sources)
          (gather (λ (p : TopicEndpoint). warn "CND011" p.pos) t.sources)
        ++ (check_types t ++ check_pairs t.sources t.sinks))

-- The types of a service's endpoints that are not external.
unfoldable pub req_types : List SvcEndpoint → List String
req_types [] = []
req_types (e ∷ es) = let rest = req_types es in if e.external then rest else e.req_type ∷ rest

unfoldable pub res_types : List SvcEndpoint → List String
res_types [] = []
res_types (e ∷ es) = let rest = res_types es in if e.external then rest else e.res_type ∷ rest

-- The second server, where there is one.
abbrev pub second_pos : List SvcEndpoint → Option Pos
second_pos [] = none
second_pos (a ∷ []) = none
second_pos (a ∷ b ∷ more) = some b.pos

unfoldable pub check_servers : String → List SvcEndpoint → List Issue
check_servers code servers = elim (second_pos servers) [ none ↦ [] | some pos ↦ report code pos ]

-- One service of the graph.
unfoldable pub check_service_name : Channel SvcEndpoint → List Issue
unfolding when gather check_servers all_internal_svc disagree req_types res_types
check_service_name s =
    let all = s.sources ++ s.sinks in
    when (length s.sources == 0) (gather (λ (c : SvcEndpoint). report "CND020" c.pos) s.sinks)
    ++ (check_servers "CND022" s.sources
        ++ (when (length s.sinks == 0 && all_internal_svc s.sources)
              (gather (λ (sv : SvcEndpoint). warn "CND021" sv.pos) s.sources)
            ++ when (disagree (req_types all) || disagree (res_types all))
                (report "CND023" nowhere)))

-- One action of the graph.
unfoldable pub check_action_name : Channel SvcEndpoint → List Issue
unfolding when check_servers
check_action_name a =
    check_servers "CND030" a.sources
    ++ when (length a.sources == 0 && ltb 0 (length a.sinks)) (report "CND031" nowhere)
