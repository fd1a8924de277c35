-- ===== src/Cdr/Carries.antt =====
-- What is written on top of a buffer and read back: scalars, times and durations.
use conductor_ros.Prelude.{
  ℕ, ◌+◌, ◌%◌, ◌^◌, ◌≤◌, ◌<◌, ◌≡◌, refl, Bool, true, false, not, List, [], ◌∷◌, ◌++◌, arith, ◌==◌,
  if◌then◌else◌, length, length-append,
}
use conductor_ros.Prelude.Int.{ℤ}
use conductor_ros.Cdr.Result.{Result, ok}
use conductor_ros.Cdr.Types.{Time, Ty, TyFields, Value, Values, Fields, count}
use conductor_ros.Cdr.Wire.{Decoder, u16, u32, u64, read_u16, read_u32, read_u64, read_byte}
use conductor_ros.Cdr.Wire.RoundTrip.{length-write_uint}
use conductor_ros.Cdr.Encode.{
  to_word, quot, rem, second, encode_time, encode_duration, encode, encode_items, encode_fields,
}
use conductor_ros.Cdr.Decode.{read_items, as_value, decode, decode_fields}
use conductor_ros.Cdr.Words.{duration_of}
use conductor_ros.Cdr.Reads.{Reads, Reads-u16, Reads-u32, Reads-u64, Reads-byte, Reads-as_value}
use conductor_ros.Cdr.Scalars.{Reads-duration}
use conductor_ros.Cdr.Fits.{takes_space, fields_take_space}

-- What the encoder makes of `v` on top of `pre`, and that the decoder takes it back.
pub record Carries (t : Ty) (v : Value) (pre : List ℕ) : Type 0 where
  pub out : List ℕ
  pub encoded : encode v pre ≡ ok out
  pub back : Reads (decode t) v pre out
  pub grows : takes_space t ≡ true → length pre < length out

pub record CarriesItems (t : Ty) (xs : Values) (pre : List ℕ) : Type 0 where
  pub out : List ℕ
  pub encoded : encode_items xs pre ≡ ok out
  pub back : Reads (read_items (decode t) (count xs)) xs pre out
  pub grows : takes_space t ≡ true → length pre + count xs ≤ length out

pub record CarriesFields (ts : TyFields) (xs : Fields) (pre : List ℕ) : Type 0 where
  pub out : List ℕ
  pub encoded : encode_fields xs pre ≡ ok out
  pub back : Reads (decode_fields ts) xs pre out
  pub grows : fields_take_space ts ≡ true → length pre < length out

length-u16 : (v : ℕ) (pre : List ℕ) → length pre + 2 ≤ length (u16 v pre)
unfolding u16
length-u16 v pre = length-write_uint 2 v pre (omega arith)

pub length-u32 : (v : ℕ) (pre : List ℕ) → length pre + 4 ≤ length (u32 v pre)
unfolding u32
length-u32 v pre = length-write_uint 4 v pre (omega arith)

length-u64 : (v : ℕ) (pre : List ℕ) → length pre + 8 ≤ length (u64 v pre)
unfolding u64
length-u64 v pre = length-write_uint 8 v pre (omega arith)

byte_grows : (b : ℕ) (pre : List ℕ) → length pre < length (pre ++ b ∷ [])
byte_grows b pre = omega (arith, length-append pre (b ∷ []))

pub encode_time_grows : (t : Time) (pre : List ℕ) → length pre < length (encode_time t pre)
unfolding encode_time
encode_time_grows t pre = ground (
  arith,
  length-u32 0 pre,
  length-u32 0 (u32 0 pre),
  length-u32 (to_word 32 t.sec) pre,
  length-u32 (t.nsec % 2 ^ 32) (u32 (to_word 32 t.sec) pre),
)

pub bool_byte : (b : Bool) → not ((if b then 1 else 0) == 0) ≡ b
bool_byte true = refl
bool_byte false = refl

pub Carries-duration :
    (d : ℤ) (pre : List ℕ)
    → duration_of (to_word 32 (quot d second)) (to_word 32 (rem d second)) ≡ d
    → Carries Ty.duration (Value.duration d) pre
unfolding encode decode encode_duration
Carries-duration d pre h = record {
  out = encode_duration d pre;
  encoded = refl;
  back = Reads-duration d d pre h;
  grows = λ _. omega (
    arith,
    length-u32 (to_word 32 (quot d second)) pre,
    length-u32 (to_word 32 (rem d second)) (u32 (to_word 32 (quot d second)) pre),
  );
}

-- A scalar is one byte or one word, and the value that the decoder makes of it.
Carries-scalar :
    (t : Ty) (v : Value) (read : Decoder → Result (ℕ × Decoder)) (wrap : ℕ → Value) (n : ℕ)
    (pre out : List ℕ)
    → encode v pre ≡ ok out
    → decode t ≡ (λ d. as_value (read d) wrap)
    → Reads read n pre out
    → wrap n ≡ v
    → length pre < length out
    → Carries t v pre
Carries-scalar t v read wrap n pre out enc dec h e longer = record {
  out = out;
  encoded = enc;
  back = rw dec (Reads-as_value read wrap n v pre out h e);
  grows = λ _. longer;
}

module _ (t : Ty) (v : Value) (wrap : ℕ → Value) (n : ℕ) (pre : List ℕ) where
  pub Carries-byte :
      encode v pre ≡ ok (pre ++ n ∷ [])
      → decode t ≡ (λ d. as_value (read_byte d) wrap)
      → wrap n ≡ v
      → Carries t v pre
  Carries-byte enc dec e =
      Carries-scalar t v read_byte wrap n pre _ enc dec (Reads-byte n pre) e (byte_grows n pre)

  pub Carries-u16 :
      n < 2 ^ 16
      → encode v pre ≡ ok (u16 n pre)
      → decode t ≡ (λ d. as_value (read_u16 d) wrap)
      → wrap n ≡ v
      → Carries t v pre
  Carries-u16 h enc dec e =
      Carries-scalar t v read_u16 wrap n pre _ enc dec (Reads-u16 n pre h) e
        (omega (arith, length-u16 n pre))

  pub Carries-u32 :
      n < 2 ^ 32
      → encode v pre ≡ ok (u32 n pre)
      → decode t ≡ (λ d. as_value (read_u32 d) wrap)
      → wrap n ≡ v
      → Carries t v pre
  Carries-u32 h enc dec e =
      Carries-scalar t v read_u32 wrap n pre _ enc dec (Reads-u32 n pre h) e
        (omega (arith, length-u32 n pre))

  pub Carries-u64 :
      n < 2 ^ 64
      → encode v pre ≡ ok (u64 n pre)
      → decode t ≡ (λ d. as_value (read_u64 d) wrap)
      → wrap n ≡ v
      → Carries t v pre
  Carries-u64 h enc dec e =
      Carries-scalar t v read_u64 wrap n pre _ enc dec (Reads-u64 n pre h) e
        (omega (arith, length-u64 n pre))
