-- ===== src/Graph/Channels.antt =====
-- internal/graph/graph.go: what collects the endpoints of one name (`Topic`, `Service`, `ActionName`).
use Prim.Native.String.{String}
use text.Mathlib.Text.{◌==◌ as str_eq}
use conductor_ros.Prelude.{List, [], ◌∷◌, ◌++◌, if◌then◌else◌}

-- `Topic` with its Pubs and Subs; `Service` and `ActionName` with their Servers and Clients.
pub record Channel (E : Type 0) : Type 0 where
  pub name : String
  pub sources : List E
  pub sinks : List E

module _ {E : Type 0} where
  -- The change of the channel of a name, which is made where it is missing: `get(name)` and a write.
  unfoldable pub change : (Channel E → Channel E) → String → List (Channel E) → List (Channel E)
  change f name [] = f (record { name = name; sources = []; sinks = [] }) ∷ []
  change f name (c ∷ cs) =
      let rest = change f name cs in if str_eq c.name name then f c ∷ cs else c ∷ rest

  abbrev pub with_source : E → Channel E → Channel E
  with_source e c = record c { sources = c.sources ++ e ∷ [] }

  abbrev pub with_sink : E → Channel E → Channel E
  with_sink e c = record c { sinks = c.sinks ++ e ∷ [] }
