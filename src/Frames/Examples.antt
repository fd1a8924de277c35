-- ===== src/Frames/Examples.antt =====
-- frames.go on a small tree, and its theorems at it.
use Prim.Native.String.{String}
use conductor_ros.Prelude.{
  ℕ, ◌+◌, ◌≡◌, ◌↔◌, refl, Bool, true, false, none, some, List, [], ◌∷◌, inl, inr,
}
use conductor_ros.Frames.Tree.{Motions, Transform, crosses, declares, connects, lookup_pose}
use conductor_ros.Frames.Promise.{Linked, connects_iff}
use conductor_ros.Frames.Shape.{cycle, check_tree, in_cycle}
use conductor_ros.Frames.Cycles.{Above, in_cycle_iff}
use conductor_ros.Frames.Answers.{Answers, lookup_pose-Answers}

-- Positions on a line, where a step back is as long as the step.
abbrev line : Motions ℕ
line = record { identity = 0; then_ = λ a b. a + b; inverse = λ a. a }

abbrev link : String → String → ℕ → Bool → Transform ℕ
link parent child pose dynamic = record {
  parent = parent;
  child = child;
  pose = pose;
  dynamic = dynamic;
  by = "";
}

abbrev robot : List (Transform ℕ)
robot =
    link "base" "laser" 2 false
    ∷ link "base" "camera" 5 false
    ∷ link "odom" "base" 0 true
    ∷ link "a" "b" 1 false
    ∷ []

lookup_test : lookup_pose line (some robot) "laser" "camera" ≡ inr 7
unfolding lookup_pose
lookup_test = refl

dynamic_test :
    lookup_pose line (some robot) "laser" "odom" ≡ inl (crosses (link "odom" "base" 0 true))
unfolding lookup_pose
dynamic_test = refl

connects_iff_example : (connects (some robot) "odom" "camera" ≡ none) ↔ (
    (declares "odom" robot ≡ true)
    × ((declares "camera" robot ≡ true) × Linked robot "odom" "camera"))
connects_iff_example = connects_iff robot "odom" "camera"

lookup_pose-Answers_example :
    Answers line robot "laser" "odom" (lookup_pose line (some robot) "laser" "odom")
lookup_pose-Answers_example = lookup_pose-Answers line robot "laser" "odom"

-- Two frames that are each other's parent.
abbrev ring : List (Transform ℕ)
ring = link "a" "b" 1 false ∷ link "b" "a" 1 false ∷ link "b" "c" 1 false ∷ []

check_test : check_tree (some ring) ≡ cycle ∷ cycle ∷ []
unfolding check_tree
check_test = refl

in_cycle_iff_example : (in_cycle ring "c" ≡ true) ↔ Above ring "c" "c"
in_cycle_iff_example = in_cycle_iff ring "c"
