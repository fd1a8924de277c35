-- ===== src/Graph/Examples.antt =====
-- internal/graph on a small application, and its theorems at it.
use Prim.Native.String.{String}
use text.Mathlib.Text.{◌==◌ as str_eq}
use conductor_ros.Prelude.{
  ◌≡◌, ◌↔◌, refl, Bool, true, false, ◌||◌, none, some, List, [], ◌∷◌, ◌++◌, All, if◌then◌else◌,
}
use conductor_ros.Prelude.Int.{pos}
use conductor_ros.Prelude.Names.{mem, Distinct, keep}
use conductor_ros.Frames.Tree.{Transform}
use conductor_ros.Graph.Scan.{Endpoint, StepDecl, Call, Node, App}
use conductor_ros.Graph.Frames.{check_lookup}
use conductor_ros.Graph.Std.{Std}
use conductor_ros.Graph.Issues.{Issue, errors, report, warn, nowhere, at}
use conductor_ros.Graph.Validate.{validate}
use conductor_ros.Graph.Clean.{Clean}
use conductor_ros.Graph.Sound.Frames.{FramesOk}
use conductor_ros.Graph.Sound.Promise.{validate-Clean}
use conductor_ros.Graph.Sound.Served.{Served, validate-Served}
use conductor_ros.Graph.Wires.{StepsFit, Wires, validate-Wires}
use conductor_ros.Graph.Machines.{MachineStep, Machine, step_names, mark_reachable}
use conductor_ros.Graph.Reach.{Reach}
use conductor_ros.Graph.Marked.{mark_reachable-Reach}
use conductor_ros.Graph.Order.{order_of}
use conductor_ros.Graph.Agreement.{cycles_agree, static_first}
use conductor_ros.Bringup.Deps.{Deps, edges_of}
use conductor_ros.Bringup.Kahn.{bringup_order}
use conductor_ros.Bringup.Edges.{depends_on, overlap, mem-edges_of, edges_of-IsCounted}
use conductor_ros.Mission.Count.{parse_count}
use conductor_ros.Prelude.Texts.{runes}

-- Parsers that accept all that is given to them.
abbrev std : Std
std = record {
  parse_duration = λ s. some (pos 1000000000);
  is_positive_float = λ s. true;
  accepts_int = λ s. true;
}

abbrev blank : Node
blank = record {
  name = "";
  subs = [];
  pubs = [];
  services = [];
  clients = [];
  actions = [];
  action_clients = [];
  timers = [];
  missions = [];
  steps = [];
  lifecycle = [];
  groups = [];
  methods = λ m. none;
  calls = [];
  tf = none;
}

abbrev image : String → String → Endpoint
image qos field = record {
  field = field;
  topic = "image";
  qos = qos;
  frame = "eye";
  go_type = "msgs.Image";
  file = "main.go";
  line = 7;
}

abbrev step : String → String → StepDecl
step name next = record {
  field = name;
  name = name;
  next = next;
  fail = "";
  timeout = "";
  retry = "3";
  backoff = "";
  file = "main.go";
  line = 9;
}

abbrev camera : String → Node
camera qos = record blank { name = "camera"; pubs = image qos "Out" ∷ [] }

abbrev look_up : String → Call
look_up frame = record {
  method = "Lookup";
  recv = "v.TF";
  inside = "OnIn";
  args = "laser" ∷ frame ∷ [];
  file = "main.go";
  line = 11;
}

abbrev viewer : Node
viewer = record blank {
  name = "viewer";
  subs = image "" "In" ∷ [];
  missions = record { field = "M"; name = "m"; start = "look"; file = "main.go"; line = 8 } ∷ [];
  steps = step "look" "rest" ∷ step "rest" "" ∷ [];
  calls = look_up "eye" ∷ [];
  tf = some "TF";
  methods = λ m. some (record { params = 1; results = if str_eq m "OnIn" then 0 else 1 });
}

abbrev link : String → String → Transform Unit
link parent child = record {
  parent = parent;
  child = child;
  pose = tt;
  dynamic = false;
  by = "robot";
}

abbrev app : String → App
app qos = record {
  nodes = viewer ∷ camera qos ∷ [];
  messages = λ t. some "sensor_msgs/msg/Image";
  externals = [];
  semantics = none;
  stamped = λ t. some true;
  frames = some (link "base" "laser" ∷ link "base" "eye" ∷ []);
  dir = ".";
  frames_file = "frames.json";
}

validate_test : validate std (app "reliable") ≡ []
unfolding validate
validate_test = refl

-- A publisher that offers less than the subscription asks for.
validate_qos_test : validate std (app "sensor") ≡ report "CND013" (at "main.go" 7)
unfolding validate
validate_qos_test = refl

-- A look-up of a frame that the tree does not have.
lookup_frame_test : check_lookup (app "") "TF" (look_up "nose") ≡ report "CND054" (at "main.go" 11)
unfolding check_lookup
lookup_frame_test = refl

clean : errors (validate std (app "reliable")) ≡ false
unfolding validate errors
clean = refl

validate-Clean_example :
    (errors (validate std (app "reliable")) ≡ false)
    ↔ (Clean std (app "reliable") × FramesOk (app "reliable"))
validate-Clean_example = validate-Clean std (app "reliable")

validate-Served_example :
    All (λ (n : Node). All (Served (app "reliable") n) n.subs) (app "reliable").nodes
validate-Served_example = validate-Served std (app "reliable") clean

-- The handlers of the viewer's steps are of the type that the runtime asks for.
abbrev typed : Node → String → Bool
typed n field = str_eq field "look" || str_eq field "rest"

-- The retry tags are counts and the steps have two names.
fits : All (λ (n : Node). StepsFit (typed n) n) (app "reliable").nodes
unfolding mem parse_count runes
fits = (((refl, (refl, tt)), ((λ g. refl, refl), ((λ g. refl, refl), tt))), ((tt, tt), tt))

validate-Wires_example :
    All (λ (n : Node). Wires std (typed n) n.missions n.steps) (app "reliable").nodes
validate-Wires_example = validate-Wires std (app "reliable") typed clean fits

-- The runtime refuses a retry tag that the static check accepts where Atoi does.
retry_test : parse_count (runes "+3") ≡ none
unfolding parse_count runes
retry_test = refl

abbrev mixed : List Issue
mixed = warn "CND008" nowhere ++ report "CND001" nowhere

-- A machine with a step that nothing leads to.
abbrev plain_step : String → String → String → MachineStep
plain_step name next fail = record {
  name = name;
  next = next;
  fail = fail;
  gotos = [];
  timeout = "";
  retry = "";
  backoff = "";
  reachable = false;
  pos = nowhere;
}

abbrev machine : Machine
machine = record {
  node = "viewer";
  name = "m";
  start = "look";
  steps =
      plain_step "look" "rest" "look"
      ∷ plain_step "lost" "look" ""
      ∷ plain_step "rest" "done" ""
      ∷ [];
  pos = nowhere;
}

abbrev flags : List MachineStep → List Bool
flags [] = []
flags (s ∷ ss) = s.reachable ∷ flags ss

mark_test : flags (mark_reachable machine).steps ≡ true ∷ false ∷ true ∷ []
unfolding mark_reachable mem
mark_test = refl

machine-Distinct : Distinct (step_names machine.steps)
unfolding mem
machine-Distinct = (refl, (refl, (refl, tt)))

mark_reachable-Reach_example :
    All
      (λ (s : MachineStep). (s.reachable ≡ true) ↔ Reach machine.steps machine.start s.name)
      (mark_reachable machine).steps
mark_reachable-Reach_example = mark_reachable-Reach machine machine-Distinct

-- Three nodes, the second of which reads what the first publishes.
abbrev trio : List String
trio = "a" ∷ "b" ∷ "c" ∷ []

abbrev trio_deps : Deps
trio_deps n =
    if str_eq n "a"
    then some (record { provides = "t" ∷ []; consumes = [] })
    else if str_eq n "b"
    then some (record { provides = []; consumes = "t" ∷ [] })
    else none

abbrev trio_edges : String → List String
trio_edges n = (edges_of trio_deps trio n).edges

trio-Distinct : Distinct trio
unfolding mem
trio-Distinct = (refl, (refl, (refl, tt)))

static_test : (order_of trio_edges trio).order ≡ "a" ∷ "b" ∷ "c" ∷ []
unfolding order_of edges_of keep mem
static_test = refl

-- The runtime takes the third node, which was ready from the start, before the second.
runtime_test : (bringup_order trio trio_deps).order ≡ "a" ∷ "c" ∷ "b" ∷ []
unfolding bringup_order keep mem
runtime_test = refl

cycles_agree_example : (order_of trio_edges trio).cycles ≡ (bringup_order trio trio_deps).cycles
cycles_agree_example =
    cycles_agree trio trio_edges trio_deps trio-Distinct
      (λ x. (edges_of-IsCounted trio_deps trio x).distinct) (mem-edges_of trio_deps trio)

static_first_example : mem "a" ("a" ∷ []) ≡ true
static_first_example =
    static_first trio trio_edges trio_deps trio-Distinct
      (λ x. (edges_of-IsCounted trio_deps trio x).distinct) (mem-edges_of trio_deps trio) ("a" ∷ [])
      "b" ("c" ∷ []) "a" static_test (unfold order_of edges_of keep mem in refl)
      (unfold depends_on overlap mem in refl)
