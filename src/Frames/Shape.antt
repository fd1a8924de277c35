-- ===== src/Frames/Shape.antt =====
-- frames.go: the frames, the roots and the faults of a declared tree (`Published`, `Frames`, `Roots`,
-- `Check`).
use Prim.Native.String.{String, compare}
use text.Mathlib.Text.{◌==◌ as str_eq, is_lt}
use conductor_ros.Prelude.{
  ℕ, zero, suc, Bool, true, false, not, Option, none, some, List, [], ◌∷◌, ◌++◌, length, ltb,
  if◌then◌else◌,
}
use conductor_ros.Prelude.Names.{mem, keep}
use conductor_ros.Frames.Tree.{Transform, ours, ends}

-- `sort.Strings`.
unfoldable pub insert_name : String → List String → List String
insert_name x [] = x ∷ []
insert_name x (y ∷ ys) =
    let rest = insert_name x ys in if is_lt (compare y x) then y ∷ rest else x ∷ (y ∷ ys)

unfoldable pub sort_names : List String → List String
unfolding insert_name
sort_names [] = []
sort_names (x ∷ xs) = insert_name x (sort_names xs)

-- `if !seen[f] { seen[f] = true; out = append(out, f) }`.
unfoldable pub note : List String → String → List String
unfolding mem
note out f = if mem f out then out else out ++ f ∷ []

unfoldable pub note_all : List String → List String → List String
unfolding note
note_all out [] = out
note_all out (f ∷ fs) = note_all (note out f) fs

-- `FrameProblem`, its kind.
pub data Problem : Type 0 where
  multiple_parents cycle disconnected : Problem

module _ {A : Type 0} where
  -- `FrameTree.Published`.
  unfoldable pub published : List (Transform A) → List (Transform A)
  published [] = []
  published (t ∷ ts) = let rest = published ts in if ours t then t ∷ rest else rest

  -- `FrameTree.Frames`.
  unfoldable pub frames : List (Transform A) → List String
  unfolding ends note_all sort_names
  frames ts = sort_names (note_all [] (ends ts))

  unfoldable pub children : List (Transform A) → List String
  children [] = []
  children (t ∷ ts) = t.child ∷ children ts

  -- `FrameTree.Roots`.
  unfoldable pub roots : List (Transform A) → List String
  unfolding keep mem children frames
  roots ts = keep (λ f. not (mem f (children ts))) (frames ts)

  -- `parents[child]` of Check.
  unfoldable pub parents_of : String → List (Transform A) → List (Transform A)
  parents_of c [] = []
  parents_of c (t ∷ ts) = let rest = parents_of c ts in if str_eq t.child c then t ∷ rest else rest

  -- The frame that Check goes on to from a frame: its first parent.
  unfoldable pub parent_of : List (Transform A) → String → Option String
  unfolding parents_of
  parent_of ts f = elim (parents_of f ts) [ [] ↦ none | t ∷ more ↦ some t.parent ]

  -- The walk of Check along the parents of `f`, which is now at `cur`: whether it comes to `f`.
  unfoldable pub climb : List (Transform A) → String → ℕ → List String → String → Bool
  unfolding parent_of mem
  climb ts f zero seen cur = false
  climb ts f (suc fuel) seen cur = elim (parent_of ts cur) [
    | none ↦ false
    | some p ↦ elim (str_eq p f) [
      | true ↦ true
      | false ↦ elim (mem p seen) [ true ↦ false | false ↦ climb ts f fuel (seen ++ p ∷ []) p ]
    ]
  ]

  unfoldable pub in_cycle : List (Transform A) → String → Bool
  unfolding climb ends
  in_cycle ts f = climb ts f (suc (length (ends ts))) (f ∷ []) f

  unfoldable pub shared_children : List (Transform A) → List String → List Problem
  unfolding parents_of
  shared_children ts [] = []
  shared_children ts (c ∷ cs) =
      let rest = shared_children ts cs in
      if ltb 1 (length (parents_of c ts)) then multiple_parents ∷ rest else rest

  unfoldable pub cycles_of : List (Transform A) → List String → List Problem
  unfolding in_cycle
  cycles_of ts [] = []
  cycles_of ts (f ∷ fs) = let rest = cycles_of ts fs in if in_cycle ts f then cycle ∷ rest else rest

  -- `FrameTree.Check`.
  unfoldable pub check_tree : Option (List (Transform A)) → List Problem
  unfolding shared_children cycles_of sort_names note_all children frames roots
  check_tree none = []
  check_tree (some ts) =
      shared_children ts (sort_names (note_all [] (children ts)))
      ++ (cycles_of ts (frames ts) ++ (if ltb 1 (length (roots ts)) then disconnected ∷ [] else []))
