-- ===== src/Bringup/Examples.antt =====
-- bringup.go on a small application, and its theorems at it.
use Prim.Native.String.{String}
use conductor_ros.Prelude.{
  ℕ, ◌<◌, ◌≡◌, refl, true, false, some, List, [], ◌∷◌, if◌then◌else◌, arith, Bool-cases, inl, inr,
}
use text.Mathlib.Text.{◌==◌ as str_eq}
use conductor_ros.Prelude.Names.{mem, keep, Distinct, str_eq-of}
use conductor_ros.Bringup.Deps.{Deps}
use conductor_ros.Bringup.Kahn.{bringup_order}
use conductor_ros.Bringup.Edges.{depends_on, overlap}
use conductor_ros.Bringup.Promise.{
  order_permutes, dependencies_first, cycles_justified, acyclic_complete,
}

-- A planner that reads a map and a pose, a localiser that reads the map, and a map server.
abbrev nodes : List String
nodes = "planner" ∷ ("localiser" ∷ ("maps" ∷ []))

abbrev deps : Deps
deps n =
    if str_eq n "planner"
    then some (record { provides = []; consumes = "pose" ∷ ("map" ∷ []) })
    else if str_eq n "localiser"
    then some (record { provides = "pose" ∷ []; consumes = "map" ∷ [] })
    else some (record { provides = "map" ∷ []; consumes = [] })

-- The same, with a map server that listens to the pose.
abbrev loop_deps : Deps
loop_deps n =
    if str_eq n "maps"
    then some (record { provides = "map" ∷ []; consumes = "pose" ∷ [] })
    else deps n

nodes-Distinct : Distinct nodes
unfolding mem
nodes-Distinct = (refl, (refl, (refl, tt)))

order_test :
    bringup_order nodes deps
    ≡ record { order = "maps" ∷ ("localiser" ∷ ("planner" ∷ [])); cycles = [] }
unfolding bringup_order keep mem
order_test = refl

loop_test : bringup_order nodes loop_deps ≡ record { order = nodes; cycles = nodes }
unfolding bringup_order keep mem
loop_test = refl

order_permutes_example :
    Distinct (bringup_order nodes deps).order
    × ((x : String) → mem x (bringup_order nodes deps).order ≡ mem x nodes)
order_permutes_example = order_permutes nodes deps nodes-Distinct

needs_map : depends_on deps nodes "localiser" "maps" ≡ true
unfolding depends_on overlap mem
needs_map = refl

not_stuck : mem "localiser" (bringup_order nodes deps).cycles ≡ false
unfolding bringup_order keep mem
not_stuck = refl

dependencies_first_example : mem "maps" ("maps" ∷ []) ≡ true
dependencies_first_example =
    dependencies_first nodes deps nodes-Distinct ("maps" ∷ []) "localiser" ("planner" ∷ []) "maps"
      (rw order_test) not_stuck needs_map

stuck : mem "maps" (bringup_order nodes loop_deps).cycles ≡ true
unfolding bringup_order keep mem
stuck = refl

cycles_justified_example :
    (p : String) × (depends_on loop_deps nodes "maps" p ≡ true)
    × (mem p (bringup_order nodes loop_deps).cycles ≡ true)
cycles_justified_example = cycles_justified nodes loop_deps nodes-Distinct "maps" stuck

abbrev rank : String → ℕ
rank n = if str_eq n "planner" then 2 else if str_eq n "localiser" then 1 else 0

rank_falls : (x p : String) → depends_on deps nodes x p ≡ true → rank p < rank x
unfolding depends_on overlap mem
rank_falls x p h = elim (Bool-cases (str_eq x "planner")) [
  | inl e ↦ let same : x ≡ "planner" = str_eq-of x "planner" e in ground (arith, same, h)
  | inr e ↦ elim (Bool-cases (str_eq x "localiser")) [
    | inl e' ↦ let same : x ≡ "localiser" = str_eq-of x "localiser" e' in ground (arith, same, h)
    | inr e' ↦ ground (arith, h)
  ]
]

acyclic_complete_example : (bringup_order nodes deps).cycles ≡ []
acyclic_complete_example = acyclic_complete nodes deps nodes-Distinct rank rank_falls
