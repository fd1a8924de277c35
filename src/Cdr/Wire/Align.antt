-- ===== src/Cdr/Wire/Align.antt =====
-- The alignment loops of the encoder and of the decoder reach the same offset.
use native.Mathlib.Nat.{mod-lt, mod-eq_of_lt, mod-add-mod, mod_self}
use mathlib.Core.List.{append-nil, append_assoc}
use conductor_ros.Prelude.{
  ℕ, zero, suc, ◌+◌, ◌-◌, ◌%◌, ◌≤◌, ◌<◌, ◌≡◌, List, [], ◌∷◌, ◌++◌, arith, ◌==◌, if◌then◌else◌,
  length, replicate, length-append, length-replicate, Bool-cases, inl, inr, ◌∙◌, sym, ap, true,
  false,
}
use conductor_ros.Cdr.Wire.{pad_loop, align, skip_loop}

-- How far `k` is from the next multiple of `n`.
pub padding : ℕ → ℕ → ℕ
padding n k = if k % n == 0 then 0 else n - k % n

mod_step : (n k : ℕ) → 0 < n → (k + 1) % n ≡ (if k % n + 1 == n then 0 else k % n + 1)
mod_step n k h = elim (Bool-cases (k % n + 1 == n)) [
  | inl e ↦ rw e (sym (mod-add-mod k n 1) ∙ ap (λ r. r % n) (ground arith) ∙ mod_self n)
  | inr e ↦ rw e (sym (mod-add-mod k n 1) ∙ mod-eq_of_lt (ground (arith, mod-lt k h)))
]

padding_step : (n k : ℕ) → 0 < n → (k % n == 0) ≡ false → padding n k ≡ suc (padding n (k + 1))
unfolding padding
padding_step n k h e = ground (arith, mod_step n k h, mod-lt k h)

padding-lt : (n k : ℕ) → 0 < n → padding n k < n
unfolding padding
padding-lt n k h = ground (arith, mod-lt k h)

padding_none : (n k : ℕ) → (k % n == 0) ≡ true → padding n k ≡ 0
unfolding padding
padding_none n k e = ground arith

pad_loop_lem :
    (fuel n : ℕ) (buf : List ℕ)
    → 0 < n
    → padding n (length buf) ≤ fuel
    → pad_loop fuel n buf ≡ buf ++ replicate (padding n (length buf)) 0
unfolding pad_loop
pad_loop_lem zero n buf h f =
    let none_left : padding n (length buf) ≡ 0 = omega arith in rw none_left (sym (append-nil buf))
pad_loop_lem (suc fuel) n buf h f = elim (Bool-cases (length buf % n == 0)) [
  | inl e ↦ rw (e, padding_none n (length buf) e) (sym (append-nil buf))
  | inr e ↦
      let step = padding_step n (length buf) h e in
      let grown : length (buf ++ 0 ∷ []) ≡ length buf + 1 = length-append buf (0 ∷ []) in
      let more : padding n (length (buf ++ 0 ∷ [])) ≤ fuel = rw grown (omega (arith, step)) in
      rw (e, step)
        (pad_loop_lem fuel n (buf ++ 0 ∷ []) h more ∙ rw grown (append_assoc buf (0 ∷ []) _))
]

-- `align` writes zero bytes up to the next multiple of `n`.
pub align_lem :
    (n : ℕ) (buf : List ℕ) → 0 < n → align n buf ≡ buf ++ replicate (padding n (length buf)) 0
unfolding align
align_lem n buf h = pad_loop_lem n n buf h (omega (arith, padding-lt n (length buf) h))

skip_loop_lem :
    (fuel n off : ℕ) → 0 < n → padding n off ≤ fuel → skip_loop fuel n off ≡ off + padding n off
unfolding skip_loop padding
skip_loop_lem zero n off h f = omega arith
skip_loop_lem (suc fuel) n off h f =
    ground (arith, skip_loop_lem fuel n (off + 1) h, padding_step n off h, padding_none n off)

-- The decoder's cursor moves to where `align` leaves the end of the buffer.
pub skip_loop-align :
    (n : ℕ) (buf : List ℕ) → 0 < n → skip_loop n n (length buf) ≡ length (align n buf)
skip_loop-align n buf h =
    skip_loop_lem n n (length buf) h (omega (arith, padding-lt n (length buf) h))
    ∙ rw (align_lem n buf h, length-append)
        (omega (arith, length-replicate {A = ℕ} (padding n (length buf)) 0))

padding_4 : (k : ℕ) → (k + padding 4 k) % 4 ≡ 0
unfolding padding
padding_4 k = ground arith

pub length-align_4 : (buf : List ℕ) → length (align 4 buf) % 4 ≡ 0
length-align_4 buf =
    let size : length (align 4 buf) ≡ length buf + padding 4 (length buf) =
      rw (align_lem 4 buf (omega arith), length-append, length-replicate) in
    rw size (padding_4 (length buf))
