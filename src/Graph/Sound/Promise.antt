-- ===== src/Graph/Sound/Promise.antt =====
-- internal/graph/graph.go: what `Validate` promises.
use Prim.Native.String.{String}
use mathlib.Core.Path.{subst}
use conductor_ros.Prelude.{◌≡◌, refl, sym, ◌∙◌, ◌↔◌, false, List, [], ◌++◌, arith}
use conductor_ros.Prelude.Iff.{◌then_iff◌}
use conductor_ros.Prelude.Names.{mem, Distinct}
use conductor_ros.Graph.Scan.{External, App}
use conductor_ros.Graph.Std.{Std}
use conductor_ros.Graph.Issues.{nowhere, Issue, errors, gather}
use conductor_ros.Graph.Silent.{
  Silent, Silent-nil, append_iff, gather_iff, report_loud, errors-sort_issues,
}
use conductor_ros.Graph.Channels.{Channel}
use conductor_ros.Graph.Build.{
  collect, build, sort_channels, Role, publisher, subscriber, unknown, role_of,
}
use conductor_ros.Graph.Pairs.{
  go_types, ros_types, req_types, res_types, check_topic, check_service_name, check_action_name,
}
use conductor_ros.Graph.Agree.{Agree}
use conductor_ros.Graph.Named.{lookup, names}
use conductor_ros.Graph.Offers.{
  publishers, subscribers, servers, clients, action_servers, action_users, collect-publishers,
  collect-subscribers, collect-servers, collect-clients, collect-action_servers,
  collect-action_users,
}
use conductor_ros.Graph.Unique.{collect-Unique, sort_channels-All, All-names}
use conductor_ros.Graph.Validate.{check_external, declaration_issues, graph_issues, validate}
use conductor_ros.Graph.Clean.{
  TopicOk, ServiceOk, ActionNameOk, RoleOk, DeclarationsOk, GraphOk, Clean,
}
use conductor_ros.Graph.Sound.Fields.{check_node_iff, check_qos_iff}
use conductor_ros.Graph.Sound.Frames.{FramesOk, validate_frames_iff}
use conductor_ros.Graph.Sound.Missions.{validate_missions_iff}
use conductor_ros.Graph.Sound.Stacks.{validate_lifecycle_iff, validate_groups_iff}
use conductor_ros.Graph.Sound.Pairs.{check_topic_iff, check_service_name_iff, check_action_name_iff}

check_external_iff : (r : Role) (e : External) → Silent (check_external r e) ↔ RoleOk r e
unfolding check_external
check_external_iff publisher e = check_qos_iff e.qos "CND002" nowhere
check_external_iff subscriber e = check_qos_iff e.qos "CND002" nowhere
check_external_iff unknown e = (λ h. report_loud _ _ h, λ h. absurd h)
check_external_iff _ e = (λ h. tt, λ h. Silent-nil)

declaration_issues_iff :
    (std : Std) (app : App)
    → Silent (declaration_issues std app) ↔ (DeclarationsOk std app × FramesOk app)
unfolding declaration_issues
declaration_issues_iff std app =
    append_iff _ _ (gather_iff _ (check_node_iff std app) app.nodes) (
      append_iff _ _ (validate_missions_iff std app.nodes) (
        append_iff _ _ (validate_frames_iff app) (
          append_iff _ _ (validate_lifecycle_iff std app.nodes) (
            append_iff _ _ (validate_groups_iff app)
              (gather_iff _ (λ e. check_external_iff (role_of e.role) e) app.externals)))))
    then_iff (
      λ (fields, (missions, (frame, rest))). ((fields, (missions, rest)), frame),
      λ ((fields, (missions, rest)), frame). (fields, (missions, (frame, rest))),
    )

module _ {E : Type 0} (Q : List E → List E → Type 0) (nothing : Q [] []) where
  -- A check of every channel of a sorted list, as a check of every name.
  every_name :
      (f : Channel E → List Issue)
      → ((c : Channel E) → Silent (f c) ↔ Q c.sources c.sinks)
      → (cs : List (Channel E)) → Distinct (names cs)
      → Silent (gather f (sort_channels cs))
        ↔ ((n : String) → Q (lookup (λ c. c.sources) n cs) (lookup (λ c. c.sinks) n cs))
  every_name f checks cs d =
      gather_iff f checks (sort_channels cs)
      then_iff sort_channels-All (λ c. Q c.sources c.sinks) cs
      then_iff All-names Q nothing cs d

  reread :
      (xs ys ps ss : String → List E)
      → ((n : String) → xs n ≡ ps n)
      → ((n : String) → ys n ≡ ss n)
      → ((n : String) → Q (xs n) (ys n)) ↔ ((n : String) → Q (ps n) (ss n))
  reread xs ys ps ss e e' = (
    λ h n. subst (λ x. Q x (ss n)) (e n) (subst (λ y. Q (xs n) y) (e' n) (h n)),
    λ h n. subst (λ x. Q x (ys n)) (sym (e n)) (subst (λ y. Q (ps n) y) (sym (e' n)) (h n)),
  )

nothing_agrees : Agree []
unfolding mem
nothing_agrees x y h = absurd (cc h)

no_topic : TopicOk [] []
unfolding go_types ros_types
no_topic = (λ e. refl, (nothing_agrees, (nothing_agrees, tt)))

no_service : ServiceOk [] []
unfolding req_types res_types
no_service = (λ e. refl, (omega arith, (nothing_agrees, nothing_agrees)))

graph_issues_iff : (app : App) → Silent (graph_issues (build app)) ↔ GraphOk app
unfolding graph_issues build
graph_issues_iff app =
    let (t, s, a) = collect-Unique app in
    append_iff _ _
      (every_name TopicOk no_topic check_topic check_topic_iff (collect app).topics t
        then_iff reread TopicOk no_topic _ _ (publishers app) (subscribers app)
            (collect-publishers app) (collect-subscribers app))
      (append_iff _ _
        (every_name ServiceOk no_service check_service_name check_service_name_iff
            (collect app).services s
          then_iff reread ServiceOk no_service _ _ (servers app) (clients app) (collect-servers app)
              (collect-clients app))
        (every_name ActionNameOk (omega arith, λ e. refl) check_action_name check_action_name_iff
            (collect app).actions a
          then_iff reread ActionNameOk (omega arith, λ e. refl) _ _ (action_servers app)
              (action_users app) (collect-action_servers app) (collect-action_users app)))

-- Validate reports no error exactly where the application's declarations are in order, for every
-- name at all what is offered under it fits what is wanted, and the frames are in order: the tree
-- has no fault, frame tags name its frames, literal look-ups have an answer in it, and where the
-- endpoints of a topic declare several frames, links join the first two.
pub validate-Clean :
    (std : Std) (app : App) → (errors (validate std app) ≡ false) ↔ (Clean std app × FramesOk app)
unfolding validate
validate-Clean std app =
    (
      λ h. sym (errors-sort_issues _) ∙ h,
      λ h. errors-sort_issues (declaration_issues std app ++ graph_issues (build app)) ∙ h,
    )
    then_iff append_iff _ _ (declaration_issues_iff std app) (graph_issues_iff app)
    then_iff (λ ((d, f), g). ((d, g), f), λ ((d, g), f). ((d, f), g))
