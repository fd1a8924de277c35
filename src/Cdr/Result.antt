-- ===== src/Cdr/Result.antt =====
-- The errors of cdr/cdr.go, and results with `do`.

-- `panics` is Go's run-time panic on an access out of range; the code returns no such error.
pub data Error : Type 0 where
  short_header bad_encapsulation truncated sequence_too_long unsupported_type panics : Error

pub data Result {ℓ} (A : Type ℓ) : Type ℓ where
  ok : A → Result A
  err : Error → Result A

infixl 5 ◌>>=◌
abbrev pub ◌>>=◌ {ℓ κ} : {A : Type ℓ} {B : Type κ} → Result A → (A → Result B) → Result B
ok a >>= f = f a
err e >>= f = err e
