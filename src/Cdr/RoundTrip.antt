-- ===== src/Cdr/RoundTrip.antt =====
-- `Unmarshal` gives back what `Marshal` was given.
use conductor_ros.Prelude.{
  ◌+◌, ◌*◌, ◌^◌, ◌<◌, ℕ, ◌%◌, ◌^◌, ◌<◌, ◌≡◌, refl, ap, ◌∙◌, not, List, [], ◌∷◌, arith, ◌==◌,
  if◌then◌else◌, length, replicate,
}
use conductor_ros.Prelude.Int.{negsuc, ◌+ℤ◌, pos}
use conductor_ros.Cdr.Result.{ok}
use conductor_ros.Cdr.Types.{Ty, TyFields, Value, Values, Fields, count}
use conductor_ros.Cdr.Wire.{u32, align}
use conductor_ros.Cdr.Wire.RoundTrip.{Extends}
use conductor_ros.Cdr.Wire.Align.{align_lem, padding}
use conductor_ros.Cdr.Encode.{second, quiet, encode_duration, encode_time, encode, marshal}
use conductor_ros.Cdr.Decode.{from_word, zero_time, decode, unmarshal}
use conductor_ros.Cdr.Words.{
  from_word-to_word_8, from_word-to_word_16, from_word-to_word_32, from_word-to_word_64,
  to_word-lt_16, to_word-lt_32, to_word-lt_64, duration_pos, duration_whole, duration_fraction,
}
use conductor_ros.Cdr.Scalars.{Reads-duration, Reads-not_stamped, Reads-stamped}
use conductor_ros.Cdr.Fits.{Fits, FitsItems, FitsFields, takes_space}
use conductor_ros.Cdr.Carries.{
  Carries, CarriesItems, CarriesFields, encode_time_grows, bool_byte, Carries-duration,
  Carries-byte, Carries-u16, Carries-u32, Carries-u64,
}
use conductor_ros.Cdr.Containers.{
  Carries-string, Carries-slice, Carries-array, Carries-struct, items_nil, items_cons, fields_end,
  fields_exported, fields_hidden,
}

mutual
  unfolding encode decode takes_space

  carries : (t : Ty) (v : Value) (pre : List ℕ) → Fits t v → Carries t v pre
  carries t v pre Fits.not_stamped = record {
    out = encode_time zero_time pre;
    encoded = refl;
    back = Reads-not_stamped pre;
    grows = λ _. encode_time_grows zero_time pre;
  }
  carries t v pre (Fits.stamped x h n z) = record {
    out = encode_time x pre;
    encoded = refl;
    back = Reads-stamped x pre h n z;
    grows = λ _. encode_time_grows x pre;
  }
  carries t v pre (Fits.positive n h) = Carries-duration (pos n) pre (duration_pos n h)
  carries t v pre (Fits.whole k h) = Carries-duration _ pre (duration_whole k h)
  carries t v pre (Fits.bool b) =
      Carries-byte t v (λ b. Value.bool (not (b == 0))) (if b then 1 else 0) pre refl refl
        (ap Value.bool (bool_byte b))
  carries t v pre (Fits.int8 z h) =
      Carries-byte t v (λ b. Value.int8 (from_word 8 b)) _ pre refl refl
        (ap Value.int8 (from_word-to_word_8 z h))
  carries t v pre (Fits.uint8 n h) =
      Carries-byte t v Value.uint8 _ pre refl refl (ap Value.uint8 (omega arith))
  carries t v pre (Fits.int16 z h) =
      Carries-u16 t v (λ n. Value.int16 (from_word 16 n)) _ pre (to_word-lt_16 z) refl refl
        (ap Value.int16 (from_word-to_word_16 z h))
  carries t v pre (Fits.uint16 n h) =
      Carries-u16 t v Value.uint16 (n % 2 ^ 16) pre (omega arith) refl refl
        (ap Value.uint16 (omega arith))
  carries t v pre (Fits.int32 z h) =
      Carries-u32 t v (λ n. Value.int32 (from_word 32 n)) _ pre (to_word-lt_32 z) refl refl
        (ap Value.int32 (from_word-to_word_32 z h))
  carries t v pre (Fits.uint32 n h) =
      Carries-u32 t v Value.uint32 (n % 2 ^ 32) pre (omega arith) refl refl
        (ap Value.uint32 (omega arith))
  carries t v pre (Fits.int64 z h) =
      Carries-u64 t v (λ n. Value.int64 (from_word 64 n)) _ pre (to_word-lt_64 z) refl refl
        (ap Value.int64 (from_word-to_word_64 z h))
  carries t v pre (Fits.uint64 n h) = Carries-u64 t v Value.uint64 n pre h refl refl refl
  carries t v pre (Fits.float32 n h q) =
      Carries-u32 t v (λ n. Value.float32 (quiet n)) (quiet n) pre (rw q h) refl refl
        (ap Value.float32 (ap quiet q ∙ q))
  carries t v pre (Fits.float64 n h) = Carries-u64 t v Value.float64 n pre h refl refl refl
  carries t v pre (Fits.string s h) = Carries-string s pre h
  carries t v pre (Fits.slice e xs short space items) =
      Carries-slice e xs pre short space (carries_items e xs (u32 (count xs) pre) items)
  carries t v pre (Fits.array e xs items) = Carries-array e xs pre (carries_items e xs pre items)
  carries t v pre (Fits.struct ts xs fields) =
      Carries-struct ts xs pre (carries_fields ts xs pre fields)

  carries_items : (t : Ty) (xs : Values) (pre : List ℕ) → FitsItems t xs → CarriesItems t xs pre
  carries_items t xs pre (FitsItems.nil _) = items_nil t pre
  carries_items t xs pre (FitsItems.cons _ y ys h hs) =
      let first = carries t y pre h in items_cons t y ys pre first (carries_items t ys first.out hs)

  carries_fields :
      (ts : TyFields) (xs : Fields) (pre : List ℕ) → FitsFields ts xs → CarriesFields ts xs pre
  carries_fields ts xs pre FitsFields.end = fields_end pre
  carries_fields ts xs pre (FitsFields.exported t y us ys h hs) =
      let first = carries t y pre h in
      fields_exported t y us ys pre first (carries_fields us ys first.out hs)
  carries_fields ts xs pre (FitsFields.hidden t us ys hs) =
      fields_hidden t us ys pre (carries_fields us ys pre hs)

-- The padding that `Marshal` adds behind the value is not read.
aligned_body : (n : ℕ) (buf : List ℕ) → 0 < n → Extends buf (align n buf)
aligned_body n buf h = (replicate (padding n (length buf)) 0, align_lem n buf h)

-- A value that fits its type is serialised, and `Unmarshal` into a zero target of the type gives
-- the value back.
pub unmarshal-marshal :
    (t : Ty) (v : Value)
    → Fits t v
    → (bytes : List ℕ) × (marshal v ≡ ok bytes) × (unmarshal t bytes ≡ ok v)
unfolding marshal unmarshal
unmarshal-marshal t v h =
    let c = carries t v [] h in
    let (pad, e) = aligned_body 4 c.out (omega arith) in
    (0 ∷ 1 ∷ 0 ∷ 0 ∷ align 4 c.out, rw c.encoded refl, rw (e, c.back.reads pad) refl)

-- A negative duration with a fraction of a second does not come back: `-(s seconds) - (f + 1)ns`
-- is decoded as a duration that is 2 ^ 32 nanoseconds larger.
pub unmarshal-marshal_fraction :
    (s f : ℕ)
    → s < 2 ^ 31
    → f + 1 < second
    → let d = negsuc (s * second + f) in
      (bytes : List ℕ) × (marshal (Value.duration d) ≡ ok bytes)
      × (unmarshal Ty.duration bytes ≡ ok (Value.duration (d +ℤ pos (2 ^ 32))))
unfolding marshal unmarshal encode decode
unmarshal-marshal_fraction s f hs hf =
    let d = negsuc (s * second + f) in
    let read = Reads-duration d (d +ℤ pos (2 ^ 32)) [] (duration_fraction s f hs hf) in
    let (pad, e) = aligned_body 4 (encode_duration d []) (omega arith) in
    (0 ∷ 1 ∷ 0 ∷ 0 ∷ align 4 (encode_duration d []), refl, rw (e, read.reads pad))
