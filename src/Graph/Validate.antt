-- ===== src/Graph/Validate.antt =====
-- internal/graph/graph.go: `Validate`.
use conductor_ros.Prelude.{not, List, [], ◌++◌, is_some}
use conductor_ros.Bus.Qos.{qos_profile}
use conductor_ros.Graph.Scan.{External, App}
use conductor_ros.Graph.Std.{Std}
use conductor_ros.Graph.Issues.{nowhere, Issue, report, when, gather, sort_issues}
use conductor_ros.Graph.Build.{Role, publisher, subscriber, unknown, role_of, Collected, build}
use conductor_ros.Graph.Checks.{check_node}
use conductor_ros.Graph.Frames.{validate_frames}
use conductor_ros.Graph.Missions.{validate_missions}
use conductor_ros.Graph.Stacks.{validate_lifecycle, validate_groups}
use conductor_ros.Graph.Pairs.{check_topic, check_service_name, check_action_name}

unfoldable pub check_external : Role → External → List Issue
unfolding when qos_profile
check_external publisher e = when (not (is_some (qos_profile e.qos))) (report "CND002" nowhere)
check_external subscriber e = when (not (is_some (qos_profile e.qos))) (report "CND002" nowhere)
check_external unknown e = report "CND005" nowhere
check_external _ e = []

abbrev pub check_role : External → List Issue
check_role e = check_external (role_of e.role) e

-- What is checked of the application's declarations.
unfoldable pub declaration_issues : Std → App → List Issue
unfolding gather check_node validate_missions validate_frames validate_lifecycle validate_groups
    check_external
declaration_issues std app =
    gather (check_node std app) app.nodes
    ++ (validate_missions std app.nodes
        ++ (validate_frames app
            ++ (validate_lifecycle std app.nodes
                ++ (validate_groups app ++ gather check_role app.externals))))

-- What is checked of the graph.
unfoldable pub graph_issues : Collected → List Issue
unfolding gather check_topic check_service_name check_action_name
graph_issues g =
    gather check_topic g.topics
    ++ (gather check_service_name g.services ++ gather check_action_name g.actions)

-- `Validate`, its issues.
unfoldable pub validate : Std → App → List Issue
unfolding declaration_issues build graph_issues sort_issues
validate std app = sort_issues (declaration_issues std app ++ graph_issues (build app))
