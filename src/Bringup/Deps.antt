-- ===== src/Bringup/Deps.antt =====
-- bringup.go: what nodes provide and consume, and the edges that follow from it.
use Prim.Native.String.{String}
use text.Mathlib.Text.{◌==◌ as str_eq}
use conductor_ros.Prelude.{ℕ, ◌+◌, ◌||◌, Option, none, some, List, [], ◌∷◌, ◌++◌, if◌then◌else◌}
use conductor_ros.Prelude.Names.{mem}

-- `nodeDeps`: the sets of endpoint names, as lists.
pub record NodeDeps : Type 0 where
  pub provides : List String
  pub consumes : List String

-- `map[string]*nodeDeps`; `none` is a missing key or nil.
abbrev pub Deps : Type 0
Deps = String → Option NodeDeps

abbrev pub provided : Option NodeDeps → List String
provided none = []
provided (some d) = d.provides

abbrev pub consumed : Option NodeDeps → List String
consumed none = []
consumed (some d) = d.consumes

-- `providers[name]`: the nodes that provide an endpoint, in declaration order.
unfoldable pub providers : Deps → List String → String → List String
providers deps [] name = []
providers deps (n ∷ ns) name =
    let rest = providers deps ns name in if mem name (provided (deps n)) then n ∷ rest else rest

-- `edges[n]` and `indegree[n]` while they are filled.
pub record Edges : Type 0 where
  pub edges : List String
  pub indegree : ℕ

unfoldable pub add_edge : String → Edges → String → Edges
add_edge n g provider =
    if str_eq provider n || mem provider g.edges
    then g
    else record { edges = g.edges ++ provider ∷ []; indegree = g.indegree + 1 }

unfoldable pub add_providers : String → Edges → List String → Edges
unfolding add_edge
add_providers n g [] = g
add_providers n g (p ∷ ps) = add_providers n (add_edge n g p) ps

unfoldable pub add_consumed : Deps → List String → String → Edges → List String → Edges
unfolding add_providers providers
add_consumed deps nodes n g [] = g
add_consumed deps nodes n g (name ∷ names) =
    add_consumed deps nodes n (add_providers n g (providers deps nodes name)) names

-- The edges of one node, from an empty set.
unfoldable pub edges_of : Deps → List String → String → Edges
unfolding add_consumed
edges_of deps nodes n =
    add_consumed deps nodes n (record { edges = []; indegree = 0 }) (consumed (deps n))
