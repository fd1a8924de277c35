-- ===== src/Graph/Marked.antt =====
-- internal/graph/mission.go: the steps that `markReachable` marks.
use Prim.Native.String.{String}
use text.Mathlib.TextPositions.{eq_refl}
use mathlib.Core.Path.{subst}
use conductor_ros.Prelude.{
  ℕ, zero, suc, ◌≡◌, ◌↔◌, refl, ap, true, some, List, [], ◌∷◌, ◌++◌, All, length, inl, inr,
  Bool-cases, Option-cases, arith,
}
use conductor_ros.Prelude.Names.{mem, Distinct, mem-snoc, pending-le-length, str_eq-of}
use conductor_ros.Graph.Machines.{
  MachineStep, Machine, targets, step_of, visit_all, walk, step_names, mark, mark_reachable,
}
use conductor_ros.Graph.Reach.{Reach, targets_iff, here, there, Visited, walk-Visited}

-- What holds of the start and of the targets of what it holds of, holds of all that is walked.
module _ (steps : List MachineStep) (R : String → Type 0)
    (spreads : (a : String) (s : MachineStep) (t : String) (s' : MachineStep)
      → R a
      → step_of steps a ≡ some s
      → mem t (targets s) ≡ true
      → step_of steps t ≡ some s'
      → R t) where
  abbrev WithinR : List String → Type 0
  WithinR seen = (x : String) → mem x seen ≡ true → R x

  visit_all_sound :
      (visit : List String → String → List String) (ts : List String)
      → ((seen : List String) (t : String)
          → mem t ts ≡ true
          → WithinR seen
          → WithinR (visit seen t))
      → (seen : List String) → WithinR seen
      → WithinR (visit_all visit seen ts)
  unfolding visit_all mem
  visit_all_sound visit [] h seen ok = ok
  visit_all_sound visit (t ∷ ts) h seen ok =
      visit_all_sound visit ts (λ xs u k. h xs u (rw k (ground arith))) (visit seen t)
        (h seen t (rw eq_refl refl) ok)

  walk_sound :
      (fuel : ℕ) (seen : List String) (name : String)
      → ((s : MachineStep) → step_of steps name ≡ some s → R name)
      → WithinR seen
      → WithinR (walk steps fuel seen name)
  unfolding walk
  walk_sound zero seen name start ok = ok
  walk_sound (suc fuel) seen name start ok = elim (Option-cases (step_of steps name)) [
    | inl undeclared ↦ rw (undeclared, walk) ok
    | inr (s, e) ↦ elim (Bool-cases (mem name seen)) [
      | inl old ↦ rw (e, walk, old) ok
      | inr new ↦
          rw (e, walk, new)
            (visit_all_sound (walk steps fuel) (targets s)
              (λ xs t k ok'.
                walk_sound fuel xs t (λ s' e'. spreads name s t s' (start s e) e k e') ok')
              (seen ++ name ∷ [])
              (λ x k. elim (Bool-cases (mem x seen)) [
                | inl old ↦ ok x old
                | inr out ↦
                    let same : name ≡ x =
                      str_eq-of name x (ground (arith, mem-snoc x name seen, k)) in
                    subst R same (start s e)
              ]))
    ]
  ]

-- The walk from the start, with fuel for every step.
abbrev walked : List MachineStep → String → List String
walked steps start = walk steps (suc (length steps)) [] start

length-step_names : (steps : List MachineStep) → length (step_names steps) ≡ length steps
length-step_names [] = refl
length-step_names (s ∷ ss) = ap suc (length-step_names ss)

visited :
    (steps : List MachineStep) (start : String) → Visited steps [] (walked steps start) (start ∷ [])
visited steps start =
    walk-Visited steps (suc (length steps)) [] start
      (omega (arith, pending-le-length [] (step_names steps), length-step_names steps))

walked_complete :
    (steps : List MachineStep) (start name : String)
    → Reach steps start name
    → mem name (walked steps start) ≡ true
unfolding mem
walked_complete steps start _ (here s e) = (visited steps start).reaches start s (rw eq_refl refl) e
walked_complete steps start _ (there a s t s' r e k e') =
    elim ((visited steps start).closed a (walked_complete steps start a r)) [
      | inl h ↦ absurd (cc h)
      | inr f ↦ f s t s' e ((targets_iff s t).1 k) e'
    ]

pub walked_iff :
    (steps : List MachineStep) (start name : String)
    → (mem name (walked steps start) ≡ true) ↔ Reach steps start name
unfolding mem
walked_iff steps start name = (
  λ h.
      walk_sound steps (Reach steps start)
        (λ a s t s' r e k e'. there a s t s' r e ((targets_iff s t).0 k) e') (suc (length steps)) []
        start (λ s e. here s e) (λ x k. absurd (cc k)) name h,
  walked_complete steps start name,
)

mark-All :
    (seen : List String) (P : String → Type 0) (ss : List MachineStep)
    → ((name : String) → (mem name seen ≡ true) ↔ P name)
    → Distinct (step_names ss)
    → All (λ (s : MachineStep). (s.reachable ≡ true) ↔ P s.name) (mark seen ss)
unfolding mark
mark-All seen P [] h d = tt
mark-All seen P (s ∷ ss) h (once, d) = (
  rw once (λ k. (h s.name).0 (ground (arith, k)), λ p. ground (arith, (h s.name).1 p)),
  mark-All seen P ss h d,
)

-- With the steps' names distinct, markReachable marks exactly the steps that the machine can be
-- in: its start and what it can go to from there by a next or fail tag that is given, or by a Goto
-- call.
pub mark_reachable-Reach :
    (m : Machine)
    → Distinct (step_names m.steps)
    → All
        (λ (s : MachineStep). (s.reachable ≡ true) ↔ Reach m.steps m.start s.name)
        (mark_reachable m).steps
unfolding mark_reachable
mark_reachable-Reach m d =
    mark-All (walked m.steps m.start) (Reach m.steps m.start) m.steps (walked_iff m.steps m.start) d
