-- ===== src/Graph/Scan.antt =====
-- internal/scan/scan.go and group.go: the scanned model of an application that the checks read.
use Prim.Native.String.{String}
use conductor_ros.Frames.Tree.{Transform}
use conductor_ros.Prelude.{ℕ, Bool, ◌&&◌, Option, List, ◌==◌}

-- `MethodSig`: how many parameters a method takes and how many values it returns.
pub record MethodSig : Type 0 where
  pub params : ℕ
  pub results : ℕ

abbrev pub same_sig : MethodSig → MethodSig → Bool
same_sig a b = (a.params == b.params) && (a.results == b.results)

-- `Endpoint`: a publisher's or a subscriber's field.
pub record Endpoint : Type 0 where
  pub field : String
  pub topic : String
  pub qos : String
  pub frame : String
  pub go_type : String
  pub file : String
  pub line : ℕ

pub record ServiceEndpoint : Type 0 where
  pub field : String
  pub service : String
  pub req_type : String
  pub res_type : String
  pub file : String
  pub line : ℕ

pub record ActionEndpoint : Type 0 where
  pub field : String
  pub action : String
  pub goal_type : String
  pub feedback_type : String
  pub result_type : String
  pub file : String
  pub line : ℕ

pub record Timer : Type 0 where
  pub field : String
  pub rate : String
  pub file : String
  pub line : ℕ

-- `Mission`.
pub record MissionDecl : Type 0 where
  pub field : String
  pub name : String
  pub start : String
  pub file : String
  pub line : ℕ

-- `Step`.
pub record StepDecl : Type 0 where
  pub field : String
  pub name : String
  pub next : String
  pub fail : String
  pub timeout : String
  pub retry : String
  pub backoff : String
  pub file : String
  pub line : ℕ

-- `Call`: a call of a conductor method with literal arguments.
pub record Call : Type 0 where
  pub method : String
  pub recv : String
  pub inside : String
  pub args : List String
  pub file : String
  pub line : ℕ

pub record LifecycleDecl : Type 0 where
  pub field : String
  pub nodes : List String
  pub timeout : String
  pub file : String
  pub line : ℕ

pub record GroupDecl : Type 0 where
  pub field : String
  pub name : String
  pub file : String
  pub line : ℕ

-- `Node`, what the checks of this development read of it.
pub record Node : Type 0 where
  pub name : String
  pub subs : List Endpoint
  pub pubs : List Endpoint
  pub services : List ServiceEndpoint
  pub clients : List ServiceEndpoint
  pub actions : List ActionEndpoint
  pub action_clients : List ActionEndpoint
  pub timers : List Timer
  pub missions : List MissionDecl
  pub steps : List StepDecl
  pub lifecycle : List LifecycleDecl
  pub groups : List GroupDecl
  pub methods : String → Option MethodSig
  pub calls : List Call
  -- The field of its TFDecl.
  pub tf : Option String

pub record External : Type 0 where
  pub topic : String
  pub type : String
  pub role : String
  pub qos : String

-- `PlanningGroup`: its name and the names of its configurations.
pub record PlanningGroup : Type 0 where
  pub name : String
  pub states : List String

-- `App`; `semantics` is absent where the application declares no groups.json, `frames` where it
-- declares no frames.json. The checks look at no pose, so the transforms have none.
pub record App : Type 0 where
  pub nodes : List Node
  pub messages : String → Option String
  pub externals : List External
  pub semantics : Option (List PlanningGroup)
  pub stamped : String → Option Bool
  pub frames : Option (List (Transform Unit))
  pub dir : String
  pub frames_file : String
