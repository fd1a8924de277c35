-- ===== src/Prelude/Names.antt =====
-- Sets of names as lists of strings: membership, distinct elements, selection.
use Prim.Native.String.{String}
use text.Mathlib.Text.{◌==◌ as str_eq}
use text.Mathlib.TextEquality.{eq_iff}
use text.Mathlib.TextPositions.{eq_refl}
use conductor_ros.Prelude.Tests.{if◌then◌else◌, Bool-cases}
use Prim.Native.Nat.{ℕ, suc, ◌+◌, ◌≤◌, ◌<◌}
use mathlib.Core.Path.{◌≡◌, refl, ap, ◌∙◌}
use mathlib.Core.Logic.{inl, inr}
use mathlib.Core.Bool.{Bool, true, false, ◌&&◌, ◌||◌}
use mathlib.Core.List.{List, [], ◌∷◌, ◌++◌}
use native.Mathlib.Omega.{arith}
use conductor_ros.Prelude.Lists.{length}

unfoldable pub mem : String → List String → Bool
mem x [] = false
mem x (y ∷ ys) = str_eq y x || mem x ys

pub mem-append : (x : String) (xs ys : List String) → mem x (xs ++ ys) ≡ (mem x xs || mem x ys)
unfolding mem
mem-append x [] ys = refl
mem-append x (y ∷ xs) ys = ground (arith, mem-append x xs ys)

pub mem-snoc : (x y : String) (xs : List String) → mem x (xs ++ y ∷ []) ≡ (mem x xs || str_eq y x)
mem-snoc x y xs = rw mem-append (unfold mem in ground arith)

pub str_eq-of : (x y : String) → str_eq x y ≡ true → x ≡ y
str_eq-of x y h = (eq_iff x y).0 h

abbrev pub Distinct : List String → Type 0
Distinct [] = Unit
Distinct (x ∷ xs) = (mem x xs ≡ false) × Distinct xs

unfoldable pub keep : (String → Bool) → List String → List String
keep f [] = []
keep f (x ∷ xs) = let rest = keep f xs in if f x then x ∷ rest else rest

pub mem-keep :
    (f : String → Bool) (x : String) (xs : List String) → mem x (keep f xs) ≡ (mem x xs && f x)
unfolding mem keep
mem-keep f x [] = refl
mem-keep f x (y ∷ xs) = elim (Bool-cases (str_eq y x)) [
  | inl e ↦ let same : y ≡ x = str_eq-of y x e in ground (arith, mem-keep f x xs, ap f same)
  | inr e ↦ ground (arith, mem-keep f x xs)
]

pub keep-Distinct : (f : String → Bool) (xs : List String) → Distinct xs → Distinct (keep f xs)
unfolding keep
keep-Distinct f [] d = tt
keep-Distinct f (x ∷ xs) (out, d) = elim (Bool-cases (f x)) [
  | inl e ↦ rw e (mem-keep f x xs ∙ rw out refl, keep-Distinct f xs d)
  | inr e ↦ rw e (keep-Distinct f xs d)
]

-- Two distinct lists that share no name.
pub append-Distinct :
    (xs ys : List String)
    → Distinct xs
    → Distinct ys
    → ((x : String) → mem x xs ≡ true → mem x ys ≡ false)
    → Distinct (xs ++ ys)
unfolding mem
append-Distinct [] ys dx dy apart = dy
append-Distinct (x ∷ xs) ys (out, dx) dy apart = (
  rw (mem-append, out) (apart x (rw eq_refl refl)),
  append-Distinct xs ys dx dy (λ z h. apart z (rw h (ground arith))),
)

-- How many of `ps` are not in `done`.
unfoldable pub pending : List String → List String → ℕ
pending done [] = 0
pending done (p ∷ ps) = let rest = pending done ps in if mem p done then rest else suc rest

pending_other :
    (n : String) (done ps : List String)
    → mem n ps ≡ false
    → pending (done ++ n ∷ []) ps ≡ pending done ps
unfolding pending mem
pending_other n done [] h = refl
pending_other n done (p ∷ ps) h =
    ground (arith, mem-snoc p n done, pending_other n done ps, eq_iff p n, eq_iff n p)

pub pending_snoc :
    (n : String) (done ps : List String)
    → Distinct ps
    → mem n done ≡ false
    → pending done ps ≡ pending (done ++ n ∷ []) ps + (if mem n ps then 1 else 0)
unfolding pending mem
pending_snoc n done [] d h = omega arith
pending_snoc n done (p ∷ ps) (out, d) h = elim (Bool-cases (str_eq p n)) [
  | inl e ↦
      let same : p ≡ n = str_eq-of p n e in
      let absent : mem n ps ≡ false = rw same at out in
      ground (
        arith,
        same,
        mem-snoc p n done,
        pending_other n done ps,
        eq_iff n p,
        pending_snoc n done ps d,
      )
  | inr e ↦ ground (arith, mem-snoc p n done, pending_snoc n done ps d, eq_iff n p, eq_iff p n)
]

pub pending_zero :
    (done ps : List String) (p : String) → pending done ps ≡ 0 → mem p ps ≡ true → mem p done ≡ true
unfolding pending mem
pending_zero done [] p z h = cc
pending_zero done (q ∷ ps) p z h = elim (Bool-cases (str_eq q p)) [
  | inl e ↦ let same : q ≡ p = str_eq-of q p e in ground (arith, same, ap (λ x. mem x done) same)
  | inr e ↦ ground (arith, pending_zero done ps p)
]

-- Some of them are left, so there is one.
pub pending_some :
    (done ps : List String)
    → 0 < pending done ps
    → (p : String) × (mem p ps ≡ true) × (mem p done ≡ false)
unfolding pending mem
pending_some done [] h = elim h [ ]
pending_some done (q ∷ ps) h = elim (Bool-cases (mem q done)) [
  | inl e ↦
      let (p, there, out) = pending_some done ps (ground arith) in (p, rw there (ground arith), out)
  | inr e ↦ (q, rw eq_refl refl, e)
]

pub pending-le-length : (done ps : List String) → pending done ps ≤ length ps
unfolding pending
pending-le-length done [] = omega arith
pending-le-length done (p ∷ ps) = ground (arith, pending-le-length done ps)

pub pending-nil : (ps : List String) → pending [] ps ≡ length ps
unfolding pending mem
pending-nil [] = refl
pending-nil (p ∷ ps) = ap suc (pending-nil ps)

pub keep_cong :
    (f g : String → Bool) (xs : List String)
    → ((x : String) → mem x xs ≡ true → f x ≡ g x)
    → keep f xs ≡ keep g xs
unfolding keep mem
keep_cong f g [] h = refl
keep_cong f g (x ∷ xs) h =
    let here : f x ≡ g x = h x (rw eq_refl refl) in
    let there = keep_cong f g xs (λ y m. h y (rw m (ground arith))) in ground (arith, here, there)

-- A name in a list and one that is not in it are two names.
pub mem-ne :
    (x y : String) (xs : List String) → mem x xs ≡ true → mem y xs ≡ false → str_eq y x ≡ false
mem-ne x y xs h k = elim (Bool-cases (str_eq y x)) [
  | inl e ↦ let same : y ≡ x = str_eq-of y x e in cc (ap (λ z. mem z xs) same)
  | inr e ↦ e
]

-- What distinctness of a joined list says of its two parts.
pub apart_of-Distinct :
    (xs ys : List String) (z : String) → Distinct (xs ++ ys) → mem z xs ≡ true → mem z ys ≡ false
unfolding mem
apart_of-Distinct [] ys z d h = cc
apart_of-Distinct (x ∷ xs) ys z (out, d) h = elim (Bool-cases (str_eq x z)) [
  | inl e ↦
      let same : x ≡ z = str_eq-of x z e in
      let absent : mem z (xs ++ ys) ≡ false = rw same at out in ground (arith, mem-append z xs ys)
  | inr e ↦ apart_of-Distinct xs ys z d (ground arith)
]

pub right_of-Distinct : (xs ys : List String) → Distinct (xs ++ ys) → Distinct ys
right_of-Distinct [] ys d = d
right_of-Distinct (x ∷ xs) ys (out, d) = right_of-Distinct xs ys d

pub left_of-Distinct : (xs ys : List String) → Distinct (xs ++ ys) → Distinct xs
left_of-Distinct [] ys d = tt
left_of-Distinct (x ∷ xs) ys (out, d) =
    (unfold mem in ground (arith, mem-append x xs ys, out), left_of-Distinct xs ys d)
