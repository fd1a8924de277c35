-- ===== src/Bus/Inproc.antt =====
-- bus.go: the in-process bus. A subscriber's deliver function is a number, and what it was
-- called with is kept in the order of the calls; so is a server's handler.
use Prim.Native.String.{String}
use text.Mathlib.Text.{◌==◌ as str_eq}
use conductor_ros.Prelude.{
  ℕ, ◌-◌, Bool, true, false, Option, none, some, List, [], ◌∷◌, ◌++◌, if◌then◌else◌, ltb, ◌==◌,
  length, drop,
}
use conductor_ros.Bus.Qos.{Qos, is_latched}

-- `TopicSpec`, without the type of its messages.
pub record TopicSpec : Type 0 where
  pub topic : String
  pub qos : Qos
  pub node : String

-- One call of a deliver function.
pub record Delivery (A : Type 0) : Type 0 where
  pub to : ℕ
  pub msg : A

-- `inproc`, and the calls of deliver functions so far, the latest last.
pub record Bus (A : Type 0) : Type 0 where
  pub subs : String → List ℕ
  pub pubs : String → List String
  pub servers : String → Option ℕ
  pub latched : String → List A
  pub delivered : List (Delivery A)

-- What the publish function of a publisher has captured.
pub record Publisher : Type 0 where
  pub topic : String
  pub keep : ℕ

abbrev pub put_at : {B : Type 0} → (String → B) → String → B → String → B
put_at f k v x = if str_eq k x then v else f x

unfoldable pub new_inproc : (A : Type 0) → Bus A
new_inproc A = record {
  subs = λ _. [];
  pubs = λ _. [];
  servers = λ _. none;
  latched = λ _. [];
  delivered = [];
}

unfoldable pub keep_of : Qos → ℕ
keep_of q = if is_latched q then (if q.depth == 0 then 1 else q.depth) else 0

-- The last messages of a history.
unfoldable pub trim : {A : Type 0} → ℕ → List A → List A
trim keep h = if ltb keep (length h) then drop (length h - keep) h else h

-- The calls of a message's delivery to subscribers.
unfoldable pub fan_out : {A : Type 0} → A → List ℕ → List (Delivery A)
fan_out m [] = []
fan_out m (s ∷ ss) = record { to = s; msg = m } ∷ fan_out m ss

unfoldable pub replay : {A : Type 0} → ℕ → List A → List (Delivery A)
replay s [] = []
replay s (m ∷ ms) = record { to = s; msg = m } ∷ replay s ms

module _ {A : Type 0} where
  -- `Publisher`.
  unfoldable pub publisher : TopicSpec → Bus A → Publisher × Bus A
  unfolding keep_of
  publisher spec b = (
    record { topic = spec.topic; keep = keep_of spec.qos },
    record b { pubs = put_at b.pubs spec.topic (b.pubs spec.topic ++ spec.node ∷ []) },
  )

  -- A publish function under the lock, and what it then delivers.
  unfoldable pub retain : Publisher → A → Bus A → Bus A
  unfolding trim
  retain p m b =
      if ltb 0 p.keep
      then record b {
        latched = put_at b.latched p.topic (trim p.keep (b.latched p.topic ++ m ∷ []));
      }
      else b

  unfoldable pub deliver_all : List (Delivery A) → Bus A → Bus A
  deliver_all ds b = record b { delivered = b.delivered ++ ds }

  unfoldable pub publish : Publisher → A → Bus A → Bus A
  unfolding retain deliver_all fan_out
  publish p m b = deliver_all (fan_out m (b.subs p.topic)) (retain p m b)

  -- `Subscribe` under the lock, and what it then delivers.
  unfoldable pub register : TopicSpec → ℕ → Bus A → Bus A
  register spec s b = record b { subs = put_at b.subs spec.topic (b.subs spec.topic ++ s ∷ []) }

  unfoldable pub history : TopicSpec → Bus A → List A
  history spec b = if is_latched spec.qos then b.latched spec.topic else []

  unfoldable pub subscribe : TopicSpec → ℕ → Bus A → Bus A
  unfolding register history deliver_all replay
  subscribe spec s b = deliver_all (replay s (history spec b)) (register spec s b)

  -- `Serve`: whether the service was free.
  unfoldable pub serve : String → ℕ → Bus A → Bool × Bus A
  serve service handle b = elim (b.servers service) [
    | some _ ↦ (false, b)
    | none ↦ (true, record b { servers = put_at b.servers service (some handle) })
  ]

  -- The handler that a client's call finds.
  unfoldable pub find_server : String → Bus A → Option ℕ
  find_server service b = b.servers service
