-- ===== src/Graph/Order.antt =====
-- internal/graph/graph.go: `dependencies` and the static `BringupOrder`.
use Prim.Native.String.{String}
use text.Mathlib.Text.{◌==◌ as str_eq}
use conductor_ros.Prelude.{ℕ, zero, suc, not, List, [], ◌∷◌, ◌++◌, if◌then◌else◌, length, ◌==◌, map}
use conductor_ros.Prelude.Names.{mem, keep}
use conductor_ros.Bringup.Kahn.{Queue, Bringup, position, sort_by, release_all}
use conductor_ros.Graph.Scan.{Endpoint, ServiceEndpoint, ActionEndpoint, Node}
use conductor_ros.Graph.Channels.{Channel}
use conductor_ros.Graph.Build.{TopicEndpoint, SvcEndpoint, Collected}
use conductor_ros.Graph.Stacks.{node_names}
use conductor_ros.Graph.Pairs.{add_keys}

-- The nodes behind endpoints that are not external.
unfoldable pub inside_topic : List TopicEndpoint → List String
inside_topic [] = []
inside_topic (e ∷ es) = let rest = inside_topic es in if e.external then rest else e.node ∷ rest

unfoldable pub inside_svc : List SvcEndpoint → List String
inside_svc [] = []
inside_svc (e ∷ es) = let rest = inside_svc es in if e.external then rest else e.node ∷ rest

module _ {E : Type 0} where
  unfoldable pub provided_in : (List E → List String) → String → List (Channel E) → List String
  provided_in inside name [] = []
  provided_in inside name (c ∷ cs) =
      let rest = provided_in inside name cs in
      if str_eq c.name name then inside c.sources ++ rest else rest

-- `providers[name]`: topics, services and actions share the map.
unfoldable pub providers_of : Collected → String → List String
unfolding provided_in inside_topic inside_svc
providers_of g name =
    provided_in inside_topic name g.topics
    ++ (provided_in inside_svc name g.services ++ provided_in inside_svc name g.actions)

-- What one node consumes.
abbrev pub consumed_by : Node → List String
consumed_by n =
    map (λ (s : Endpoint). s.topic) n.subs
    ++ (map (λ (c : ServiceEndpoint). c.service) n.clients
        ++ map (λ (a : ActionEndpoint). a.action) n.action_clients)

-- `consumes[name]`.
unfoldable pub consumes_of : List Node → String → List String
consumes_of [] name = []
consumes_of (n ∷ ns) name =
    let rest = consumes_of ns name in if str_eq n.name name then consumed_by n ++ rest else rest

unfoldable pub all_providers : Collected → List String → List String
unfolding providers_of
all_providers g [] = []
all_providers g (name ∷ names) = providers_of g name ++ all_providers g names

-- `dependencies()[n]`, as a set: a node is no dependency of its own.
unfoldable pub needs : Collected → List Node → String → List String
unfolding all_providers consumes_of add_keys keep
needs g nodes n = add_keys [] (keep (λ p. not (str_eq p n)) (all_providers g (consumes_of nodes n)))

module _ (edges : String → List String) where
  -- One round of the loop: what is unlocked goes behind what is ready.
  unfoldable pub take_next : List String → String → List String → Queue → Queue
  unfolding release_all
  take_next nodes n rest q =
      let done' = q.done ++ n ∷ [] in
      let u = release_all edges n done' (record { indegree = q.indegree; unlocked = [] }) nodes in
      record {
        ready = rest ++ u.unlocked;
        order = q.order ++ n ∷ [];
        done = done';
        indegree = u.indegree;
      }

  -- The loop, with fuel: each round first sorts all that is ready.
  unfoldable pub drain_sorted : List String → ℕ → Queue → Queue
  unfolding take_next sort_by position
  drain_sorted nodes zero q = q
  drain_sorted nodes (suc fuel) q = elim (sort_by (position nodes) q.ready) [
    | [] ↦ q
    | n ∷ rest ↦ drain_sorted nodes fuel (take_next nodes n rest q)
  ]

  abbrev pub start_static : List String → Queue
  start_static nodes = record {
    ready = keep (λ n. length (edges n) == 0) nodes;
    order = [];
    done = [];
    indegree = λ n. length (edges n);
  }

  -- `Graph.BringupOrder` over the needs of each node.
  unfoldable pub order_of : List String → Bringup
  unfolding drain_sorted
  order_of nodes =
      let q = drain_sorted nodes (length nodes) (start_static nodes) in
      let left = keep (λ n. not (mem n q.done)) nodes in
      record { order = q.order ++ left; cycles = left }

-- `Graph.BringupOrder`.
unfoldable pub static_order : Collected → List Node → Bringup
unfolding order_of needs
static_order g nodes = order_of (needs g nodes) (node_names nodes)
