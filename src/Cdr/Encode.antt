-- ===== src/Cdr/Encode.antt =====
-- cdr/cdr.go: `encoder.value` and `Marshal`.
use conductor_ros.Prelude.{
  ℕ, suc, ◌+◌, ◌-◌, ◌/◌, ◌%◌, ◌^◌, Bool, true, false, not, ◌&&◌, List, [], ◌∷◌, ◌++◌, ◌==◌,
  if◌then◌else◌, length,
}
use conductor_ros.Prelude.Int.{ℤ, pos, negsuc, sub_ℕ}
use conductor_ros.Cdr.Result.{Result, ok, err, unsupported_type, ◌>>=◌}
use conductor_ros.Cdr.Wire.{align, u16, u32, u64}
use conductor_ros.Cdr.Types.{
  Time, Value, time, duration, bool, int8, uint8, int16, uint16, int32, uint32, int64, uint64,
  float32, float64, string, slice, array, struct, other, Values, nil, cons, Fields, end, field,
  count,
}

-- Go's conversion of a signed integer to `uintN`: its value modulo 2 ^ w.
unfoldable pub to_word : ℕ → ℤ → ℕ
to_word w (pos n) = n % 2 ^ w
to_word w (negsuc n) = 2 ^ w - 1 - n % 2 ^ w

-- Go's `/` and `%` on a signed integer round towards zero.
unfoldable pub quot : ℤ → ℕ → ℤ
quot (pos n) k = pos (n / k)
quot (negsuc n) k = sub_ℕ 0 (suc n / k)

unfoldable pub rem : ℤ → ℕ → ℤ
rem (pos n) k = pos (n % k)
rem (negsuc n) k = sub_ℕ 0 (suc n % k)

-- `time.Second`, in nanoseconds.
abbrev pub second : ℕ
second = 1_000_000_000

-- The Unix time of `time.Time{}`, 1 January of the year 1, is -62135596800.
unfoldable pub is_zero : Time → Bool
is_zero t = elim t.sec [ pos n ↦ false | negsuc n ↦ n == 62_135_596_799 && t.nsec == 0 ]

-- The bits of a float32 that is converted to float64 and back: a signalling NaN (all bits of the
-- exponent set, the first of the fraction not, and some other) gets its quiet bit.
unfoldable pub quiet : ℕ → ℕ
quiet n =
    if n / 2 ^ 23 % 2 ^ 8 == 255 && not (n % 2 ^ 23 == 0) && n / 2 ^ 22 % 2 == 0
    then n + 2 ^ 22
    else n

unfoldable pub encode_time : Time → List ℕ → List ℕ
encode_time t e =
    if is_zero t then u32 0 (u32 0 e) else u32 (t.nsec % 2 ^ 32) (u32 (to_word 32 t.sec) e)

unfoldable pub encode_duration : ℤ → List ℕ → List ℕ
encode_duration d e = u32 (to_word 32 (rem d second)) (u32 (to_word 32 (quot d second)) e)

unfoldable mutual
  -- `encoder.value`, on the buffer written so far.
  pub encode : Value → List ℕ → Result (List ℕ)
  encode (time t) e = ok (encode_time t e)
  encode (duration d) e = ok (encode_duration d e)
  encode (bool b) e = ok (e ++ (if b then 1 else 0) ∷ [])
  encode (int8 z) e = ok (e ++ to_word 8 z ∷ [])
  encode (uint8 n) e = ok (e ++ (n % 2 ^ 8) ∷ [])
  encode (int16 z) e = ok (u16 (to_word 16 z) e)
  encode (uint16 n) e = ok (u16 (n % 2 ^ 16) e)
  encode (int32 z) e = ok (u32 (to_word 32 z) e)
  encode (uint32 n) e = ok (u32 (n % 2 ^ 32) e)
  encode (int64 z) e = ok (u64 (to_word 64 z) e)
  encode (uint64 n) e = ok (u64 n e)
  encode (float32 bits) e = ok (u32 (quiet bits) e)
  encode (float64 bits) e = ok (u64 bits e)
  encode (string s) e = ok (u32 ((length s + 1) % 2 ^ 32) e ++ (s ++ 0 ∷ []))
  encode (slice xs) e = encode_items xs (u32 (count xs % 2 ^ 32) e)
  encode (array xs) e = encode_items xs e
  encode (struct fs) e = encode_fields fs e
  encode other e = err unsupported_type

  -- `for i := 0; i < v.Len(); i++`.
  pub encode_items : Values → List ℕ → Result (List ℕ)
  encode_items nil e = ok e
  encode_items (cons x xs) e = encode x e >>= λ e'. encode_items xs e'

  -- `for i := 0; i < t.NumField(); i++`, the fields that are not exported skipped.
  pub encode_fields : Fields → List ℕ → Result (List ℕ)
  encode_fields end e = ok e
  encode_fields (field true x fs) e = encode x e >>= λ e'. encode_fields fs e'
  encode_fields (field false x fs) e = encode_fields fs e

abbrev pub encapsulation_le : List ℕ
encapsulation_le = 0 ∷ 1 ∷ 0 ∷ 0 ∷ []

-- `Marshal`.
unfoldable pub marshal : Value → Result (List ℕ)
marshal v = encode v [] >>= λ buf. ok (encapsulation_le ++ align 4 buf)
