-- ===== src/Graph/Build.antt =====
-- internal/graph/graph.go: `Build`, which collects the endpoints of an application by name.
use Prim.Native.String.{String, compare}
use text.Mathlib.Text.{◌==◌ as str_eq, is_lt}
use conductor_ros.Prelude.{Bool, true, false, none, some, List, [], ◌∷◌, if◌then◌else◌, map}
use conductor_ros.Graph.Scan.{Endpoint, ServiceEndpoint, ActionEndpoint, Node, External, App}
use conductor_ros.Graph.Issues.{Pos, nowhere, at}
use conductor_ros.Graph.Channels.{Channel, change, with_source, with_sink}

-- `Endpoint` of package graph.
pub record TopicEndpoint : Type 0 where
  pub node : String
  pub external : Bool
  pub go_type : String
  pub ros_type : String
  pub qos : String
  pub pos : Pos

pub record SvcEndpoint : Type 0 where
  pub node : String
  pub external : Bool
  pub req_type : String
  pub res_type : String
  pub ros_type : String
  pub pos : Pos

-- `app.Messages[t]`, the empty string for a type that is missing.
abbrev pub message_of : App → String → String
message_of app t = elim (app.messages t) [ none ↦ "" | some ros ↦ ros ]

abbrev pub endpoint : App → Node → Endpoint → TopicEndpoint
endpoint app n e = record {
  node = n.name;
  external = false;
  go_type = e.go_type;
  ros_type = message_of app e.go_type;
  qos = e.qos;
  pos = at e.file e.line;
}

abbrev pub svc_endpoint : Node → ServiceEndpoint → SvcEndpoint
svc_endpoint n e = record {
  node = n.name;
  external = false;
  req_type = e.req_type;
  res_type = e.res_type;
  ros_type = "";
  pos = at e.file e.line;
}

abbrev pub act_endpoint : Node → ActionEndpoint → SvcEndpoint
act_endpoint n e = record {
  node = n.name;
  external = false;
  req_type = e.goal_type;
  res_type = e.result_type;
  ros_type = "";
  pos = at e.file e.line;
}

abbrev pub external_endpoint : External → TopicEndpoint
external_endpoint e = record {
  node = "(external)";
  external = true;
  go_type = "";
  ros_type = e.type;
  qos = e.qos;
  pos = nowhere;
}

abbrev pub external_svc : External → SvcEndpoint
external_svc e = record {
  node = "(external)";
  external = true;
  req_type = "";
  res_type = "";
  ros_type = e.type;
  pos = nowhere;
}

module _ {E : Type 0} where
  -- A loop over fields of a node: one without a name is skipped.
  unfoldable pub add_fields :
      (E → Channel E → Channel E) → List (String × E) → List (Channel E) → List (Channel E)
  unfolding change
  add_fields with_endpoint [] cs = cs
  add_fields with_endpoint ((name, e) ∷ es) cs =
      add_fields with_endpoint es (if str_eq name "" then cs else change (with_endpoint e) name cs)

  -- One node: what it offers, then what it takes.
  unfoldable pub add_both :
      List (String × E) → List (String × E) → List (Channel E) → List (Channel E)
  unfolding add_fields
  add_both sources sinks cs = add_fields with_sink sinks (add_fields with_source sources cs)

  -- `sort.Slice` by name, as an insertion sort.
  unfoldable pub place_channel : Channel E → List (Channel E) → List (Channel E)
  place_channel c [] = c ∷ []
  place_channel c (d ∷ ds) =
      let rest = place_channel c ds in
      if is_lt (compare d.name c.name) then d ∷ rest else c ∷ (d ∷ ds)

  unfoldable pub sort_channels : List (Channel E) → List (Channel E)
  unfolding place_channel
  sort_channels [] = []
  sort_channels (c ∷ cs) = place_channel c (sort_channels cs)

abbrev pub topic_sources : App → Node → List (String × TopicEndpoint)
topic_sources app n = map (λ (p : Endpoint). (p.topic, endpoint app n p)) n.pubs

abbrev pub topic_sinks : App → Node → List (String × TopicEndpoint)
topic_sinks app n = map (λ (s : Endpoint). (s.topic, endpoint app n s)) n.subs

abbrev pub service_sources : Node → List (String × SvcEndpoint)
service_sources n = map (λ (s : ServiceEndpoint). (s.service, svc_endpoint n s)) n.services

abbrev pub service_sinks : Node → List (String × SvcEndpoint)
service_sinks n = map (λ (c : ServiceEndpoint). (c.service, svc_endpoint n c)) n.clients

abbrev pub action_sources : Node → List (String × SvcEndpoint)
action_sources n = map (λ (a : ActionEndpoint). (a.action, act_endpoint n a)) n.actions

abbrev pub action_sinks : Node → List (String × SvcEndpoint)
action_sinks n = map (λ (a : ActionEndpoint). (a.action, act_endpoint n a)) n.action_clients

-- The three maps, and the slices that are made of them.
pub record Collected : Type 0 where
  pub topics : List (Channel TopicEndpoint)
  pub services : List (Channel SvcEndpoint)
  pub actions : List (Channel SvcEndpoint)

unfoldable pub add_node : App → Node → Collected → Collected
unfolding add_both
add_node app n g = record {
  topics = add_both (topic_sources app n) (topic_sinks app n) g.topics;
  services = add_both (service_sources n) (service_sinks n) g.services;
  actions = add_both (action_sources n) (action_sinks n) g.actions;
}

unfoldable pub add_nodes : App → List Node → Collected → Collected
unfolding add_node
add_nodes app [] g = g
add_nodes app (n ∷ ns) g = add_nodes app ns (add_node app n g)

-- The cases of the switch on an external's role.
pub data Role : Type 0 where
  publisher subscriber server client action_server action_client unknown : Role

abbrev pub role_of : String → Role
role_of role =
    if str_eq role "publisher"
    then publisher
    else if str_eq role "subscriber"
    then subscriber
    else if str_eq role "server"
    then server
    else if str_eq role "client"
    then client
    else if str_eq role "action_server"
    then action_server
    else if str_eq role "action_client"
    then action_client
    else unknown

unfoldable pub add_external : Role → External → Collected → Collected
unfolding change
add_external publisher e g = record g {
  topics = change (with_source (external_endpoint e)) e.topic g.topics;
}
add_external subscriber e g = record g {
  topics = change (with_sink (external_endpoint e)) e.topic g.topics;
}
add_external server e g = record g {
  services = change (with_source (external_svc e)) e.topic g.services;
}
add_external client e g = record g {
  services = change (with_sink (external_svc e)) e.topic g.services;
}
add_external action_server e g = record g {
  actions = change (with_source (external_svc e)) e.topic g.actions;
}
add_external action_client e g = record g {
  actions = change (with_sink (external_svc e)) e.topic g.actions;
}
add_external unknown e g = g

unfoldable pub add_externals : List External → Collected → Collected
unfolding add_external
add_externals [] g = g
add_externals (e ∷ es) g = add_externals es (add_external (role_of e.role) e g)

unfoldable pub collect : App → Collected
unfolding add_nodes add_externals
collect app =
    add_externals app.externals
      (add_nodes app app.nodes (record { topics = []; services = []; actions = [] }))

-- `Build`.
unfoldable pub build : App → Collected
unfolding collect sort_channels
build app =
    let g = collect app in
    record {
      topics = sort_channels g.topics;
      services = sort_channels g.services;
      actions = sort_channels g.actions;
    }
