-- ===== src/Cdr/Wire/Safety.antt =====
-- The decoder's primitives on any input: they stay inside the buffer and never panic.
use conductor_ros.Prelude.{
  ℕ, zero, suc, ◌+◌, ◌*◌, ◌≤◌, ◌<◌, ◌≡◌, ◌≢◌, ◌⊎◌, refl, List, [], ◌∷◌, arith, ltb, length, drop,
  length-drop, Bool-cases, inl, inr, ◌∙◌,
}
use conductor_ros.Cdr.Result.{Error, Result, ok, err, panics, ◌>>=◌}
use conductor_ros.Cdr.Wire.{Decoder, skip_loop, align_and_need, le_read, read_uint, at, read_byte}

-- A step of the decoder keeps the buffer, never moves the cursor back, and leaves it inside;
-- an error of its own is no panic.
unfoldable pub Advances {ℓ} : {A : Type ℓ} → Decoder → Result (A × Decoder) → Type 0
Advances d (ok (a, d')) = (d'.buf ≡ d.buf) × (d.off ≤ d'.off) × (d'.off ≤ length d'.buf)
Advances d (err e) = e ≢ panics

skip_loop-le : (fuel n off : ℕ) → off ≤ skip_loop fuel n off
unfolding skip_loop
skip_loop-le zero n off = omega arith
skip_loop-le (suc fuel) n off = ground (arith, skip_loop-le fuel n (off + 1))

le_read_total : (k : ℕ) (bs : List ℕ) → k ≤ length bs → (v : ℕ) × (le_read k bs ≡ ok v)
unfolding le_read
le_read_total zero bs h = (0, refl)
le_read_total (suc k) [] h = absurd (omega arith)
le_read_total (suc k) (b ∷ bs) h =
    let (v, e) = le_read_total k bs (omega arith) in (b + 256 * v, rw e)

at_total : (bs : List ℕ) (i : ℕ) → i < length bs → (b : ℕ) × (at bs i ≡ ok b)
unfolding at
at_total [] i h = elim h [ ]
at_total (b ∷ bs) zero h = (b, refl)
at_total (b ∷ bs) (suc i) h = at_total bs i (omega arith)

-- After the length check the bytes that were asked for are there.
pub align_and_need_cases :
    (n need : ℕ) (d : Decoder)
    → (align_and_need n need d ≡ err Error.truncated)
      ⊎ ((off : ℕ) × (align_and_need n need d ≡ ok (record d { off = off }))
          × (d.off ≤ off)
          × (off + need ≤ length d.buf))
unfolding align_and_need
align_and_need_cases n need d =
    elim (Bool-cases (ltb (length d.buf) (skip_loop n n d.off + need))) [
      | inl e ↦ inl (rw e)
      | inr e ↦ inr (skip_loop n n d.off, rw e, skip_loop-le n n d.off, ground arith)
    ]

pub read_uint-Advances : (k : ℕ) (d : Decoder) → Advances d (read_uint k d)
unfolding read_uint Advances
read_uint-Advances k d = elim (align_and_need_cases k k d) [
  | inl e ↦ rw e (λ p. cc)
  | inr (off, e, moved, fits) ↦
      let (v, r) = le_read_total k (drop off d.buf) (omega (arith, length-drop off d.buf)) in
      rw (e, r) (refl, omega arith, fits)
]

pub read_byte-Advances : (d : Decoder) → Advances d (read_byte d)
unfolding read_byte Advances
read_byte-Advances d = elim (align_and_need_cases 1 1 d) [
  | inl e ↦ rw e (λ p. cc)
  | inr (off, e, moved, fits) ↦
      let (v, r) = at_total d.buf off (omega arith) in rw (e, r) (refl, omega arith, fits)
]

Advances-later {ℓ} :
    {A : Type ℓ} (d d' : Decoder) (r : Result (A × Decoder))
    → d'.buf ≡ d.buf
    → d.off ≤ d'.off
    → Advances d' r
    → Advances d r
unfolding Advances
Advances-later d d' (ok (a, d'')) same moved h = (h.0 ∙ same, omega arith, h.2)
Advances-later d d' (err e) same moved h = h

-- Steps in sequence.
pub Advances-bind {ℓ κ} :
    {A : Type ℓ} {B : Type κ} (d : Decoder) (r : Result (A × Decoder))
    (f : A × Decoder → Result (B × Decoder))
    → Advances d r
    → ((a : A) (d' : Decoder) → d'.off ≤ length d'.buf → Advances d' (f (a, d')))
    → Advances d (r >>= f)
unfolding Advances
Advances-bind d (ok (a, d')) f h g = Advances-later d d' (f (a, d')) h.0 h.1 (g a d' h.2)
Advances-bind d (err e) f h g = h

pub Advances-ok {ℓ} :
    {A : Type ℓ} (a : A) (d : Decoder) → d.off ≤ length d.buf → Advances d (ok (a, d))
unfolding Advances
Advances-ok a d h = (refl, omega arith, h)

pub Advances-err {ℓ} :
    (A : Type ℓ) (d : Decoder) (e : Error) → e ≢ panics → Advances {A = A} d (err e)
unfolding Advances
Advances-err A d e h = h
