-- ===== src/Cdr/Decode.antt =====
-- cdr/cdr.go: `decoder.value` and `Unmarshal`, into a target whose fields are zero.
use conductor_ros.Prelude.{
  ℕ, zero, suc, ◌+◌, ◌-◌, ◌/◌, ◌%◌, ◌^◌, true, false, ◌&&◌, ◌||◌, not, List, [], ◌∷◌, ◌==◌, ltb,
  if◌then◌else◌, length,
}
use conductor_ros.Prelude.Int.{ℤ, pos, negsuc, ◌+ℤ◌, ◌*ℤ◌}
use conductor_ros.Cdr.Result.{
  Result, ok, err, unsupported_type, short_header, bad_encapsulation, sequence_too_long, ◌>>=◌,
}
use conductor_ros.Cdr.Wire.{Decoder, align_and_need, read_u16, read_u32, read_u64, read_byte}
use conductor_ros.Cdr.Wire
use conductor_ros.Cdr.Encode.{second, quiet}
use conductor_ros.Cdr.Types.{Time, Ty, TyFields, Value, Values, Fields}

-- Go's conversion of `uintN` to `intN`: two's complement.
unfoldable pub from_word : ℕ → ℕ → ℤ
from_word w n = if ltb n (2 ^ (w - 1)) then pos n else negsuc (2 ^ w - 1 - n)

-- `time.Time{}`.
abbrev pub zero_time : Time
zero_time = record { sec = negsuc 62_135_596_799; nsec = 0 }

-- `time.Unix`, for nanoseconds that are not negative: those past a second are carried.
unfoldable pub unix : ℤ → ℕ → Time
unix sec nsec = record { sec = sec +ℤ pos (nsec / second); nsec = nsec % second }

repeat : ℕ → Value → Values
repeat zero v = Values.nil
repeat (suc n) v = Values.cons v (repeat n v)

-- The zero value of a type: what a fresh target holds.
unfoldable mutual
  unfolding repeat

  pub zero_value : Ty → Value
  zero_value Ty.time = Value.time zero_time
  zero_value Ty.duration = Value.duration (pos 0)
  zero_value Ty.bool = Value.bool false
  zero_value Ty.int8 = Value.int8 (pos 0)
  zero_value Ty.uint8 = Value.uint8 0
  zero_value Ty.int16 = Value.int16 (pos 0)
  zero_value Ty.uint16 = Value.uint16 0
  zero_value Ty.int32 = Value.int32 (pos 0)
  zero_value Ty.uint32 = Value.uint32 0
  zero_value Ty.int64 = Value.int64 (pos 0)
  zero_value Ty.uint64 = Value.uint64 0
  zero_value Ty.float32 = Value.float32 0
  zero_value Ty.float64 = Value.float64 0
  zero_value Ty.string = Value.string []
  zero_value Ty.other = Value.other
  zero_value (Ty.slice t) = Value.slice Values.nil
  zero_value (Ty.array n t) = Value.array (repeat n (zero_value t))
  zero_value (Ty.struct fs) = Value.struct (zero_fields fs)

  pub zero_fields : TyFields → Fields
  zero_fields TyFields.end = Fields.end
  zero_fields (TyFields.field exported t fs) = Fields.field exported (zero_value t) (zero_fields fs)

-- `b[:len(b)-1]` where the last byte is 0, else `b`.
unfoldable pub strip_nul : List ℕ → List ℕ
strip_nul [] = []
strip_nul (b ∷ []) = if b == 0 then [] else b ∷ []
strip_nul (b ∷ (c ∷ bs)) = b ∷ strip_nul (c ∷ bs)

unfoldable pub read_time : Decoder → Result (Value × Decoder)
read_time d = do
  (sec, d') ← read_u32 d
  (nsec, d'') ← read_u32 d'
  ok (Value.time (if sec == 0 && nsec == 0 then zero_time else unix (from_word 32 sec) nsec), d'')

unfoldable pub read_duration : Decoder → Result (Value × Decoder)
read_duration d = do
  (sec, d') ← read_u32 d
  (nsec, d'') ← read_u32 d'
  ok (Value.duration (from_word 32 sec *ℤ pos second +ℤ pos nsec), d'')

-- The `n` bytes of a string, its final zero byte included.
unfoldable pub read_text : ℕ → Decoder → Result (Value × Decoder)
read_text n d = do
  d' ← align_and_need 1 n d
  b ← Wire.slice_bytes d'.off n d'.buf
  ok (Value.string (strip_nul b), record d' { off = d'.off + n })

unfoldable pub read_string : Decoder → Result (Value × Decoder)
read_string d = do (n, d') ← read_u32 d; read_text n d'

-- `for i := 0; i < n; i++ { d.value(s.Index(i)) }`.
unfoldable pub read_items :
    (Decoder → Result (Value × Decoder)) → ℕ → Decoder → Result (Values × Decoder)
read_items item zero d = ok (Values.nil, d)
read_items item (suc n) d = do
  (x, d') ← item d
  (xs, d'') ← read_items item n d'
  ok (Values.cons x xs, d'')

unfoldable pub read_slice :
    (Decoder → Result (Value × Decoder)) → Decoder → Result (Value × Decoder)
read_slice item d = do
  (n, d') ← read_u32 d
  if ltb (length d'.buf - d'.off) n
      then err sequence_too_long
      else do (xs, d'') ← read_items item n d'; ok (Value.slice xs, d'')

-- A scalar read, wrapped as the value that it sets.
unfoldable pub as_value : Result (ℕ × Decoder) → (ℕ → Value) → Result (Value × Decoder)
as_value r wrap = do (n, d') ← r; ok (wrap n, d')

unfoldable mutual
  -- `decoder.value`.
  pub decode : Ty → Decoder → Result (Value × Decoder)
  decode Ty.time d = read_time d
  decode Ty.duration d = read_duration d
  decode Ty.bool d = as_value (read_byte d) (λ b. Value.bool (not (b == 0)))
  decode Ty.int8 d = as_value (read_byte d) (λ b. Value.int8 (from_word 8 b))
  decode Ty.uint8 d = as_value (read_byte d) Value.uint8
  decode Ty.int16 d = as_value (read_u16 d) (λ n. Value.int16 (from_word 16 n))
  decode Ty.uint16 d = as_value (read_u16 d) Value.uint16
  decode Ty.int32 d = as_value (read_u32 d) (λ n. Value.int32 (from_word 32 n))
  decode Ty.uint32 d = as_value (read_u32 d) Value.uint32
  decode Ty.int64 d = as_value (read_u64 d) (λ n. Value.int64 (from_word 64 n))
  decode Ty.uint64 d = as_value (read_u64 d) Value.uint64
  decode Ty.float32 d = as_value (read_u32 d) (λ n. Value.float32 (quiet n))
  decode Ty.float64 d = as_value (read_u64 d) Value.float64
  decode Ty.string d = read_string d
  decode Ty.other d = err unsupported_type
  decode (Ty.slice t) d = read_slice (decode t) d
  decode (Ty.array n t) d = do (xs, d') ← read_items (decode t) n d; ok (Value.array xs, d')
  decode (Ty.struct fs) d = do (xs, d') ← decode_fields fs d; ok (Value.struct xs, d')

  -- A field that is not exported keeps what the target holds.
  pub decode_fields : TyFields → Decoder → Result (Fields × Decoder)
  decode_fields TyFields.end d = ok (Fields.end, d)
  decode_fields (TyFields.field true t fs) d = do
    (x, d') ← decode t d
    (xs, d'') ← decode_fields fs d'
    ok (Fields.field true x xs, d'')
  decode_fields (TyFields.field false t fs) d = do
    (xs, d') ← decode_fields fs d
    ok (Fields.field false (zero_value t) xs, d')

-- `Unmarshal`: the header, then the value; what follows the value is not read.
unfoldable pub unmarshal : Ty → List ℕ → Result Value
unmarshal t (b0 ∷ b1 ∷ b2 ∷ b3 ∷ body) =
    if not (b0 == 0) || not (b1 == 1)
    then err bad_encapsulation
    else do (v, d) ← decode t (record { buf = body; off = 0 }); ok v
unmarshal t _ = err short_header
