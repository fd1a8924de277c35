-- ===== src/Graph/Sound/Fields.antt =====
-- internal/graph/graph.go: the checks of the fields of a node report what is wrong with them.
use Prim.Native.String.{String, ◌++◌ as ◌<>◌}
use conductor_ros.Prelude.{◌≡◌, ap, ◌↔◌, Bool, true, false, not, Option, none, some, is_some, arith}
use conductor_ros.Prelude.Iff.{◌then_iff◌, unless_iff, is_some_iff}
use conductor_ros.Bus.Qos.{qos_profile}
use conductor_ros.Graph.Scan.{
  MethodSig, same_sig, Endpoint, ServiceEndpoint, ActionEndpoint, Timer, Node, App,
}
use conductor_ros.Graph.Std.{Std, parses_rate}
use conductor_ros.Graph.Issues.{Pos, when, report}
use conductor_ros.Graph.Silent.{
  Silent, Silent-report, Silent-warn, append_iff, append-Silent, gather_iff,
}
use conductor_ros.Graph.Checks.{
  sig, handles, check_handler, check_name, check_qos, check_message, check_sub, check_pub,
  check_timer, check_service, check_client, check_action, check_node,
}
use conductor_ros.Graph.Clean.{
  Given, Handled, KnownQos, SubOk, PubOk, TimerOk, ServerOk, ClientOk, ActionOk, FieldsOk,
}

same_sig_iff : (a b : MethodSig) → (same_sig a b ≡ true) ↔ (a ≡ b)
same_sig_iff a b = (λ h. ground (arith, h), λ h. ground (arith, h))

pub handles_iff :
    (n : Node) (field : String) (want : MethodSig)
    → (handles n field want ≡ true) ↔ Handled n field want
unfolding handles
handles_iff n field want = found (n.methods ("On" <> field)) want
  where
    found :
        (got : Option MethodSig) (want : MethodSig)
        → ((elim got as (λ _. Bool) [ none ↦ false | some g ↦ same_sig g want ]) ≡ true)
          ↔ (got ≡ some want)
    found none want = (λ h. absurd (cc h), λ h. absurd (cc h))
    found (some g) want = same_sig_iff g want then_iff (λ h. ap (λ x. some x) h, λ h. cc h)

pub check_handler_iff :
    (n : Node) (field : String) (want : MethodSig) (pos : Pos)
    → Silent (check_handler n field want pos) ↔ Handled n field want
unfolding check_handler
check_handler_iff n field want pos =
    Silent-report (not (handles n field want)) "CND003" pos
    then_iff unless_iff (handles n field want) (handles_iff n field want)

check_name_iff : (name : String) (pos : Pos) → Silent (check_name name pos) ↔ Given name
unfolding check_name
check_name_iff name pos = Silent-report _ "CND001" pos

pub check_qos_iff :
    (qos : String) (code : String) (pos : Pos)
    → Silent (when (not (is_some (qos_profile qos))) (report code pos)) ↔ KnownQos qos
check_qos_iff qos code pos =
    Silent-report _ code pos
    then_iff unless_iff (is_some (qos_profile qos)) (is_some_iff (qos_profile qos))

check_sub_iff : (app : App) (n : Node) (s : Endpoint) → Silent (check_sub app n s) ↔ SubOk n s
unfolding check_sub check_qos check_message
check_sub_iff app n s = append_iff _ _ (check_name_iff s.topic _) (
    append_iff _ _ (check_qos_iff s.qos "CND002" _)
      (append-Silent _ _ (check_handler_iff n s.field (sig 1 0) _) (Silent-warn _ "CND008" _)))

check_pub_iff : (app : App) (p : Endpoint) → Silent (check_pub app p) ↔ PubOk p
unfolding check_pub check_qos check_message
check_pub_iff app p =
    append_iff _ _ (check_name_iff p.topic _)
      (append-Silent _ _ (check_qos_iff p.qos "CND002" _) (Silent-warn _ "CND008" _))

check_timer_iff :
    (std : Std) (n : Node) (t : Timer) → Silent (check_timer std n t) ↔ TimerOk std n t
unfolding check_timer
check_timer_iff std n t =
    append_iff _ _
      (Silent-report _ "CND004" _ then_iff unless_iff (parses_rate std t.rate) (λ h. h, λ h. h))
      (check_handler_iff n t.field (sig 0 0) _)

check_service_iff : (n : Node) (s : ServiceEndpoint) → Silent (check_service n s) ↔ ServerOk n s
unfolding check_service
check_service_iff n s =
    append_iff _ _ (check_name_iff s.service _) (check_handler_iff n s.field (sig 1 2) _)

check_client_iff : (c : ServiceEndpoint) → Silent (check_client c) ↔ ClientOk c
unfolding check_client
check_client_iff c = check_name_iff c.service _

check_action_iff : (n : Node) (a : ActionEndpoint) → Silent (check_action n a) ↔ ActionOk n a
unfolding check_action
check_action_iff n a =
    append_iff _ _ (check_name_iff a.action _) (check_handler_iff n a.field (sig 1 2) _)

pub check_node_iff :
    (std : Std) (app : App) (n : Node) → Silent (check_node std app n) ↔ FieldsOk std n
unfolding check_node
check_node_iff std app n = append_iff _ _ (gather_iff _ (check_sub_iff app n) n.subs) (
    append_iff _ _ (gather_iff _ (check_pub_iff app) n.pubs) (
      append_iff _ _ (gather_iff _ (check_timer_iff std n) n.timers) (
        append_iff _ _ (gather_iff _ (check_service_iff n) n.services) (
          append_iff _ _ (gather_iff _ check_client_iff n.clients)
            (gather_iff _ (check_action_iff n) n.actions)))))
