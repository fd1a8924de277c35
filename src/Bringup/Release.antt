-- ===== src/Bringup/Release.antt =====
-- One round of the loop: which indegrees fall, and which nodes become ready.
use Prim.Native.String.{String}
use text.Mathlib.Text.{◌==◌ as str_eq}
use text.Mathlib.TextPositions.{eq_refl}
use mathlib.Core.List.{append-nil, append_assoc}
use conductor_ros.Prelude.{
  ℕ, ◌-◌, ◌≡◌, refl, sym, ◌∙◌, Bool, false, not, ◌&&◌, List, [], ◌∷◌, ◌++◌, ◌==◌, if◌then◌else◌,
  arith, Bool-cases, inl, inr,
}
use conductor_ros.Prelude.Names.{mem, Distinct, keep, keep_cong, mem-ne, str_eq-of}
use conductor_ros.Bringup.Kahn.{Unlocking, release, release_all}

module _ (edges : String → List String) (n : String) (done : List String) where
  -- The nodes whose indegree falls when `n` is done.
  unfoldable pub waits : String → Bool
  waits other = not (mem other done) && mem n (edges other)

  -- Those whose indegree falls to 0.
  unfoldable pub freed : (String → ℕ) → String → Bool
  freed indegree other = not (mem other done) && mem n (edges other) && indegree other - 1 == 0

  lowered :
      (u : Unlocking) (other x : String)
      → (release edges n done u other).indegree x
        ≡ (if str_eq other x && waits other then u.indegree other - 1 else u.indegree x)
  unfolding release waits
  lowered u other x = ground arith

  unlocked-release :
      (u : Unlocking) (other : String)
      → (release edges n done u other).unlocked
        ≡ (if freed u.indegree other then u.unlocked ++ other ∷ [] else u.unlocked)
  unfolding release freed
  unlocked-release u other = ground (arith, eq_refl other)

  pub indegree-release_all :
      (u : Unlocking) (others : List String) (x : String)
      → Distinct others
      → (release_all edges n done u others).indegree x
        ≡ (if mem x others && waits x then u.indegree x - 1 else u.indegree x)
  unfolding release_all mem
  indegree-release_all u [] x d = refl
  indegree-release_all u (o ∷ os) x (out, d) = elim (Bool-cases (str_eq o x)) [
    | inl e ↦
        let same : o ≡ x = str_eq-of o x e in
        let absent : mem x os ≡ false = rw same at out in
        ground (arith, same, lowered u o x, indegree-release_all (release edges n done u o) os x d)
    | inr e ↦ ground (arith, lowered u o x, indegree-release_all (release edges n done u o) os x d)
  ]

  freed_later :
      (u : Unlocking) (o : String) (os : List String)
      → mem o os ≡ false
      → keep (freed (release edges n done u o).indegree) os ≡ keep (freed u.indegree) os
  freed_later u o os out =
      keep_cong (freed (release edges n done u o).indegree) (freed u.indegree) os
        λ x there. unfold freed in ground (arith, lowered u o x, mem-ne x o os there out)

  pub unlocked-release_all :
      (u : Unlocking) (others : List String)
      → Distinct others
      → (release_all edges n done u others).unlocked ≡ u.unlocked ++ keep (freed u.indegree) others
  unfolding release_all keep
  unlocked-release_all u [] d = sym (append-nil u.unlocked)
  unlocked-release_all u (o ∷ os) (out, d) =
      unlocked-release_all (release edges n done u o) os d
      ∙ rw (freed_later u o os out, unlocked-release u o)
          (elim (Bool-cases (freed u.indegree o)) [
            | inl e ↦ rw e (append_assoc u.unlocked (o ∷ []) _)
            | inr e ↦ rw e
          ])
