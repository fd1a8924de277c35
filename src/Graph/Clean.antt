-- ===== src/Graph/Clean.antt =====
-- What an application without errors looks like, said of its declarations and not of the checks.
use Prim.Native.String.{String, ◌++◌ as ◌<>◌}
use text.Mathlib.Text.{◌==◌ as str_eq}
use conductor_ros.Prelude.{
  ◌≤◌, ◌≡◌, ◌≢◌, Bool, true, false, Option, none, some, List, [], ◌∷◌, ◌++◌, All, length,
}
use conductor_ros.Prelude.Names.{mem, Distinct}
use conductor_ros.Prelude.Texts.{has_separator, after_dot}
use conductor_ros.Bus.Qos.{Qos, qos_profile, reliable, transient_local}
use conductor_ros.Graph.Scan.{
  MethodSig, Endpoint, ServiceEndpoint, ActionEndpoint, Timer, MissionDecl, StepDecl, Call,
  LifecycleDecl, GroupDecl, Node, External, PlanningGroup, App,
}
use conductor_ros.Graph.Std.{Std, parses_rate, is_positive, is_nonnegative}
use conductor_ros.Graph.Build.{
  TopicEndpoint, SvcEndpoint, Role, publisher, subscriber, unknown, role_of,
}
use conductor_ros.Graph.Checks.{sig}
use conductor_ros.Graph.Machines.{goto_target}
use conductor_ros.Graph.Missions.{terminal_step, declared_names}
use conductor_ros.Graph.Stacks.{group_of, by_field, state_arg}
use conductor_ros.Graph.Pairs.{go_types, ros_types, req_types, res_types}
use conductor_ros.Graph.Agree.{Agree}
use conductor_ros.Graph.Offers.{
  publishers, subscribers, servers, clients, action_servers, action_users,
}

abbrev pub Given : String → Type 0
Given s = str_eq s "" ≡ false

-- A tag that is empty or accepted.
abbrev pub TagOk : String → Bool → Type 0
TagOk tag ok = Given tag → ok ≡ true

abbrev pub Handled : Node → String → MethodSig → Type 0
Handled n field want = n.methods ("On" <> field) ≡ some want

abbrev pub KnownQos : String → Type 0
KnownQos qos = (q : Qos) × (qos_profile qos ≡ some q)

abbrev pub SubOk : Node → Endpoint → Type 0
SubOk n s = Given s.topic × (KnownQos s.qos × Handled n s.field (sig 1 0))

abbrev pub PubOk : Endpoint → Type 0
PubOk p = Given p.topic × KnownQos p.qos

abbrev pub TimerOk : Std → Node → Timer → Type 0
TimerOk std n t = (parses_rate std t.rate ≡ true) × Handled n t.field (sig 0 0)

abbrev pub ServerOk : Node → ServiceEndpoint → Type 0
ServerOk n s = Given s.service × Handled n s.field (sig 1 2)

abbrev pub ClientOk : ServiceEndpoint → Type 0
ClientOk c = Given c.service

abbrev pub ActionOk : Node → ActionEndpoint → Type 0
ActionOk n a = Given a.action × Handled n a.field (sig 1 2)

-- The fields of one node.
abbrev pub FieldsOk : Std → Node → Type 0
FieldsOk std n =
    All (SubOk n) n.subs
    × (All PubOk n.pubs
        × (All (TimerOk std n) n.timers
            × (All (ServerOk n) n.services
                × (All ClientOk n.clients × All (ActionOk n) n.actions))))

-- A step that may be named: one of the machine's, or the end of the mission.
abbrev pub Known : List String → String → Type 0
Known names t = terminal_step t ≡ false → mem t names ≡ true

abbrev pub GotoOk : List String → StepDecl → Call → Type 0
GotoOk names s c = (t : String) → goto_target s c ≡ some t → Known names t

abbrev pub StepOk : Std → Node → StepDecl → Type 0
StepOk std n s =
    Handled n s.field (sig 1 1)
    × ((Given s.next → Known (declared_names n.steps) s.next)
        × ((Given s.fail → Known (declared_names n.steps) s.fail)
            × (All (GotoOk (declared_names n.steps) s) n.calls
                × (TagOk s.timeout (is_positive (std.parse_duration s.timeout))
                    × (TagOk s.backoff (is_nonnegative (std.parse_duration s.backoff))
                        × TagOk s.retry (std.accepts_int s.retry))))))

-- No mission and no steps, or one mission that starts at a step.
abbrev pub MissionOk : Std → Node → List MissionDecl → List StepDecl → Type 0
MissionOk std n [] [] = Unit
MissionOk std n [] (s ∷ ss) = ⊥
MissionOk std n (m ∷ []) steps =
    Given m.start × ((mem m.start (declared_names steps) ≡ true) × All (StepOk std n) steps)
MissionOk std n (m ∷ second ∷ more) steps = ⊥

abbrev pub NodeNameOk : String → Type 0
NodeNameOk name = Given name × (has_separator name ≡ false)

-- The managed nodes are named, each once, and there is one.
abbrev pub StackOk : Std → LifecycleDecl → Type 0
StackOk std d =
    (d.nodes ≢ [])
    × (Distinct d.nodes
        × (All NodeNameOk d.nodes × TagOk d.timeout (is_positive (std.parse_duration d.timeout))))

abbrev pub GroupOk : List PlanningGroup → GroupDecl → Type 0
GroupOk groups g = Given g.name × ((group : PlanningGroup) × (group_of groups g.name ≡ some group))

-- A State call on a declared group names a configuration of it.
abbrev pub StateOk : List PlanningGroup → List GroupDecl → Call → Type 0
StateOk groups decls c =
    (state name : String) (group : PlanningGroup)
    → state_arg c ≡ some state
    → by_field decls (after_dot c.recv c.recv) ≡ some name
    → group_of groups name ≡ some group
    → mem state group.states ≡ true

abbrev pub GroupsOk : Option (List PlanningGroup) → Node → Type 0
GroupsOk none n = n.groups ≡ []
GroupsOk (some groups) n = All (GroupOk groups) n.groups × All (StateOk groups n.groups) n.calls

abbrev pub RoleOk : Role → External → Type 0
RoleOk publisher e = KnownQos e.qos
RoleOk subscriber e = KnownQos e.qos
RoleOk unknown e = ⊥
RoleOk _ e = Unit

abbrev pub ExternalOk : External → Type 0
ExternalOk e = RoleOk (role_of e.role) e

-- What a subscriber asks for is offered.
abbrev pub Offers : Qos → Qos → Type 0
Offers p s =
    (s.reliability ≡ reliable → p.reliability ≡ reliable)
    × (s.durability ≡ transient_local → p.durability ≡ transient_local)

abbrev pub Compatible : TopicEndpoint → TopicEndpoint → Type 0
Compatible p s =
    (pq sq : Qos) → qos_profile p.qos ≡ some pq → qos_profile s.qos ≡ some sq → Offers pq sq

abbrev pub TopicOk : List TopicEndpoint → List TopicEndpoint → Type 0
TopicOk pubs subs =
    (pubs ≡ [] → subs ≡ [])
    × (Agree (go_types (pubs ++ subs))
        × (Agree (ros_types (pubs ++ subs)) × All (λ p. All (Compatible p) subs) pubs))

abbrev pub ServiceOk : List SvcEndpoint → List SvcEndpoint → Type 0
ServiceOk sv cl =
    (sv ≡ [] → cl ≡ [])
    × ((length sv ≤ 1) × (Agree (req_types (sv ++ cl)) × Agree (res_types (sv ++ cl))))

abbrev pub ActionNameOk : List SvcEndpoint → List SvcEndpoint → Type 0
ActionNameOk sv cl = (length sv ≤ 1) × (sv ≡ [] → cl ≡ [])

abbrev pub DeclarationsOk : Std → App → Type 0
DeclarationsOk std app =
    All (FieldsOk std) app.nodes
    × (All (λ (n : Node). MissionOk std n n.missions n.steps) app.nodes
        × (All (λ (n : Node). All (StackOk std) n.lifecycle) app.nodes
            × (All (GroupsOk app.semantics) app.nodes × All ExternalOk app.externals)))

-- Of every name at all.
abbrev pub GraphOk : App → Type 0
GraphOk app =
    ((name : String) → TopicOk (publishers app name) (subscribers app name))
    × (((name : String) → ServiceOk (servers app name) (clients app name))
        × ((name : String) → ActionNameOk (action_servers app name) (action_users app name)))

abbrev pub Clean : Std → App → Type 0
Clean std app = DeclarationsOk std app × GraphOk app
