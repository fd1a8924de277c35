-- ===== src/Bus/Qos.antt =====
-- qos.go: the profiles of a topic.
use Prim.Native.String.{String}
use text.Mathlib.Text.{◌==◌ as str_eq}
use conductor_ros.Prelude.{ℕ, Bool, true, false, Option, none, some, if◌then◌else◌}

pub data Reliability : Type 0 where
  reliable best_effort : Reliability

pub data Durability : Type 0 where
  volatile transient_local : Durability

pub record Qos : Type 0 where
  pub name : String
  pub reliability : Reliability
  pub durability : Durability
  pub depth : ℕ

-- `qosProfiles`.
abbrev pub profile : String → Option Qos
profile name =
    if str_eq name "reliable"
    then some
        (record { name = "reliable"; reliability = reliable; durability = volatile; depth = 10 })
    else if str_eq name "sensor"
    then some
        (record { name = "sensor"; reliability = best_effort; durability = volatile; depth = 5 })
    else if str_eq name "transient"
    then some (record {
      name = "transient";
      reliability = reliable;
      durability = transient_local;
      depth = 1;
    })
    else none

-- `QoSProfile`; the empty tag selects "reliable".
unfoldable pub qos_profile : String → Option Qos
qos_profile name = if str_eq name "" then profile "reliable" else profile name

abbrev pub is_latched : Qos → Bool
is_latched q = elim q.durability [ volatile ↦ false | transient_local ↦ true ]
