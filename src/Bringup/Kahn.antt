-- ===== src/Bringup/Kahn.antt =====
-- bringup.go: `BringupOrder`, Kahn's algorithm over the edges.
use Prim.Native.String.{String}
use text.Mathlib.Text.{◌==◌ as str_eq}
use conductor_ros.Prelude.{
  ℕ, zero, suc, ◌+◌, ◌-◌, not, ◌||◌, List, [], ◌∷◌, ◌++◌, if◌then◌else◌, leb, ◌==◌, length,
}
use conductor_ros.Prelude.Names.{mem, keep}
use conductor_ros.Bringup.Deps.{Deps, edges_of}

-- `position[n]`: the last index of `n`; 0, Go's zero value, for a name that is no node.
unfoldable pub position_from : ℕ → ℕ → List String → String → ℕ
position_from i found [] x = found
position_from i found (n ∷ ns) x = position_from (i + 1) (if str_eq n x then i else found) ns x

unfoldable pub position : List String → String → ℕ
unfolding position_from
position nodes x = position_from 0 0 nodes x

-- `sort.Slice` by position, as an insertion sort.
unfoldable pub insert_by : (String → ℕ) → String → List String → List String
insert_by key x [] = x ∷ []
insert_by key x (y ∷ ys) =
    let rest = insert_by key x ys in if leb (key x) (key y) then x ∷ (y ∷ ys) else y ∷ rest

unfoldable pub sort_by : (String → ℕ) → List String → List String
unfolding insert_by
sort_by key [] = []
sort_by key (x ∷ xs) = insert_by key x (sort_by key xs)

-- A write to a map.
abbrev pub update : (String → ℕ) → String → ℕ → String → ℕ
update f k v x = if str_eq k x then v else f x

-- The loop's variables.
pub record Queue : Type 0 where
  pub ready : List String
  pub order : List String
  pub done : List String
  pub indegree : String → ℕ

pub record Unlocking : Type 0 where
  pub indegree : String → ℕ
  pub unlocked : List String

module _ (edges : String → List String) where
  -- One round of `for _, other := range nodes`, with `n` just done.
  unfoldable pub release : String → List String → Unlocking → String → Unlocking
  release n done u other =
      if mem other done || not (mem n (edges other))
      then u
      else let indegree' = update u.indegree other (u.indegree other - 1) in
        record {
          indegree = indegree';
          unlocked = if indegree' other == 0 then u.unlocked ++ other ∷ [] else u.unlocked;
        }

  unfoldable pub release_all : String → List String → Unlocking → List String → Unlocking
  unfolding release
  release_all n done u [] = u
  release_all n done u (other ∷ others) = release_all n done (release n done u other) others

  -- One round of `for len(ready) > 0`.
  unfoldable pub take_ready : List String → String → List String → Queue → Queue
  unfolding release_all sort_by position
  take_ready nodes n rest q =
      let done' = q.done ++ n ∷ [] in
      let u = release_all n done' (record { indegree = q.indegree; unlocked = [] }) nodes in
      record {
        ready = rest ++ sort_by (position nodes) u.unlocked;
        order = q.order ++ n ∷ [];
        done = done';
        indegree = u.indegree;
      }

  -- The loop, with fuel: each round takes a node that is not done.
  unfoldable pub drain : List String → ℕ → Queue → Queue
  unfolding take_ready
  drain nodes zero q = q
  drain nodes (suc fuel) q = elim q.ready [
    | [] ↦ q
    | n ∷ rest ↦ drain nodes fuel (take_ready nodes n rest q)
  ]

pub record Bringup : Type 0 where
  pub order : List String
  pub cycles : List String

-- `BringupOrder`.
unfoldable pub start_queue : List String → Deps → Queue
unfolding edges_of sort_by position
start_queue nodes deps = record {
  ready = sort_by (position nodes) (keep (λ n. (edges_of deps nodes n).indegree == 0) nodes);
  order = [];
  done = [];
  indegree = λ n. (edges_of deps nodes n).indegree;
}

unfoldable pub bringup_order : List String → Deps → Bringup
unfolding start_queue drain
bringup_order nodes deps =
    let q =
      drain (λ n. (edges_of deps nodes n).edges) nodes (length nodes) (start_queue nodes deps) in
    let left = keep (λ n. not (mem n q.done)) nodes in
    record { order = q.order ++ left; cycles = left }
