-- ===== src/Prelude/Pending.antt =====
-- How many names are left, as more of them are seen.
use Prim.Native.String.{String}
use text.Mathlib.Text.{◌==◌ as str_eq}
use text.Mathlib.TextPositions.{eq_refl}
use Prim.Native.Nat.{◌≤◌, ◌<◌}
use mathlib.Core.Path.{◌≡◌, refl, ap, ◌∙◌}
use mathlib.Core.Logic.{inl, inr}
use mathlib.Core.Bool.{true, false}
use mathlib.Core.List.{List, [], ◌∷◌, ◌++◌}
use native.Mathlib.Omega.{arith}
use conductor_ros.Prelude.Tests.{Bool-cases}
use conductor_ros.Prelude.Names.{mem, mem-snoc, pending, str_eq-of}

-- Seeing more leaves no more to see.
pub pending_anti :
    (xs ys ps : List String)
    → ((x : String) → mem x xs ≡ true → mem x ys ≡ true)
    → pending ys ps ≤ pending xs ps
unfolding pending
pending_anti xs ys [] h = omega arith
pending_anti xs ys (p ∷ ps) h = ground (arith, pending_anti xs ys ps h, h p)

-- Seeing a name that was left leaves less.
pub pending_less :
    (n : String) (xs ps : List String)
    → mem n xs ≡ false
    → mem n ps ≡ true
    → pending (xs ++ n ∷ []) ps < pending xs ps
unfolding pending mem
pending_less n xs [] out h = absurd (cc h)
pending_less n xs (p ∷ ps) out h = elim (Bool-cases (str_eq p n)) [
  | inl e ↦
      let same : p ≡ n = str_eq-of p n e in
      let seen : mem p (xs ++ n ∷ []) ≡ true =
        mem-snoc p n xs ∙ ground (arith, ap (λ z. str_eq n z) same, eq_refl n) in
      let unseen : mem p xs ≡ false = ap (λ z. mem z xs) same ∙ out in
      rw (seen, unseen)
        (omega (arith, pending_anti xs (xs ++ n ∷ []) ps (λ x k. mem-snoc x n xs ∙ rw k refl)))
  | inr e ↦ ground (arith, pending_less n xs ps out, mem-snoc p n xs, str_eq-of n p, str_eq-of p n)
]
