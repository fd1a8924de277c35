-- ===== src/Graph/Checks.antt =====
-- internal/graph/graph.go: the checks of the fields of one node (`Validate`, its first loop).
use Prim.Native.String.{String, ◌++◌ as ◌<>◌}
use text.Mathlib.Text.{◌==◌ as str_eq}
use conductor_ros.Prelude.{ℕ, Bool, false, not, none, some, is_some, List, ◌++◌}
use conductor_ros.Bus.Qos.{qos_profile}
use conductor_ros.Graph.Scan.{
  MethodSig, same_sig, Endpoint, ServiceEndpoint, ActionEndpoint, Timer, Node, App,
}
use conductor_ros.Graph.Std.{Std, parses_rate}
use conductor_ros.Graph.Issues.{Pos, at, Issue, report, warn, when, gather}

abbrev pub sig : ℕ → ℕ → MethodSig
sig params results = record { params = params; results = results }

-- Whether `n` has the handler of a field, of the wanted shape.
unfoldable pub handles : Node → String → MethodSig → Bool
handles n field want = elim (n.methods ("On" <> field)) [
  | none ↦ false
  | some got ↦ same_sig got want
]

-- `checkHandler`: both of its cases report the same code at the same place.
unfoldable pub check_handler : Node → String → MethodSig → Pos → List Issue
unfolding handles when
check_handler n field want pos = when (not (handles n field want)) (report "CND003" pos)

-- A field that names its topic, service or action by a tag.
unfoldable pub check_name : String → Pos → List Issue
unfolding when
check_name name pos = when (str_eq name "") (report "CND001" pos)

unfoldable pub check_qos : String → Pos → List Issue
unfolding when qos_profile
check_qos qos pos = when (not (is_some (qos_profile qos))) (report "CND002" pos)

unfoldable pub check_message : App → String → Pos → List Issue
unfolding when
check_message app t pos = when (not (is_some (app.messages t))) (warn "CND008" pos)

unfoldable pub check_sub : App → Node → Endpoint → List Issue
unfolding check_name check_qos check_handler check_message
check_sub app n s =
    let pos = at s.file s.line in
    check_name s.topic pos
    ++ (check_qos s.qos pos
        ++ (check_handler n s.field (sig 1 0) pos ++ check_message app s.go_type pos))

unfoldable pub check_pub : App → Endpoint → List Issue
unfolding check_name check_qos check_message
check_pub app p =
    let pos = at p.file p.line in
    check_name p.topic pos ++ (check_qos p.qos pos ++ check_message app p.go_type pos)

unfoldable pub check_timer : Std → Node → Timer → List Issue
unfolding when parses_rate check_handler
check_timer std n t =
    let pos = at t.file t.line in
    when (not (parses_rate std t.rate)) (report "CND004" pos)
    ++ check_handler n t.field (sig 0 0) pos

unfoldable pub check_service : Node → ServiceEndpoint → List Issue
unfolding check_name check_handler
check_service n s =
    let pos = at s.file s.line in check_name s.service pos ++ check_handler n s.field (sig 1 2) pos

unfoldable pub check_client : ServiceEndpoint → List Issue
unfolding check_name
check_client c = check_name c.service (at c.file c.line)

unfoldable pub check_action : Node → ActionEndpoint → List Issue
unfolding check_name check_handler
check_action n a =
    let pos = at a.file a.line in check_name a.action pos ++ check_handler n a.field (sig 1 2) pos

-- The loops over the fields of one node.
unfoldable pub check_node : Std → App → Node → List Issue
unfolding gather check_sub check_pub check_timer check_service check_client check_action
check_node std app n =
    gather (check_sub app n) n.subs
    ++ (gather (check_pub app) n.pubs
        ++ (gather (check_timer std n) n.timers
            ++ (gather (check_service n) n.services
                ++ (gather check_client n.clients ++ gather (check_action n) n.actions))))
