-- ===== src/Cdr/Examples.antt =====
-- Concrete runs of cdr/cdr.go's model, and its theorems at concrete inputs.
use conductor_ros.Prelude.{ℕ, ◌^◌, ◌≡◌, ◌≢◌, refl, true, false, List, [], ◌∷◌, arith}
use conductor_ros.Prelude.Int.{pos, negsuc, ◌+ℤ◌}
use conductor_ros.Cdr.Result.{ok, err, truncated, sequence_too_long, panics}
use conductor_ros.Cdr.Types.{Ty, TyFields, Value, Values, Fields}
use conductor_ros.Cdr.Wire.{u16, u32, align, le_bytes, le_read, align_and_need, read_u32}
use conductor_ros.Cdr.Encode.{encode, encode_time, is_zero, to_word, marshal}
use conductor_ros.Cdr.Decode.{as_value, read_slice, zero_value, decode, unmarshal}
use conductor_ros.Cdr.Fits.{Fits, FitsItems, FitsFields, takes_space}
use conductor_ros.Cdr.RoundTrip.{unmarshal-marshal, unmarshal-marshal_fraction}
use conductor_ros.Cdr.Safety.{unmarshal-ne-panics}
use conductor_ros.Cdr.Shape.{Decides, supported, marshal-Decides}

-- A message with a byte, a stamp, a string, a hidden field, and a sequence of two int16.
abbrev reading_type : Ty
reading_type = Ty.struct (
    TyFields.field true Ty.uint8 (
      TyFields.field true Ty.time (
        TyFields.field true Ty.string
          (TyFields.field false Ty.int32 (TyFields.field true (Ty.slice Ty.int16) TyFields.end)))))

abbrev samples : Values
samples = Values.cons (Value.int16 (pos 5)) (Values.cons (Value.int16 (negsuc 0)) Values.nil)

abbrev reading : Value
reading = Value.struct (
    Fields.field true (Value.uint8 7) (
      Fields.field true (Value.time (record { sec = pos 256; nsec = 1 })) (
        Fields.field true (Value.string (b'h' ∷ b'i' ∷ [])) (
          Fields.field false (Value.int32 (pos 0))
            (Fields.field true (Value.slice samples) Fields.end)))))

reading_bytes :
    marshal reading
    ≡ ok (
        0 ∷ 1 ∷ 0 ∷ 0 ∷ 7 ∷ 0 ∷ 0 ∷ 0 ∷ 0 ∷ 1 ∷ 0 ∷ 0 ∷ 1 ∷ 0 ∷ 0 ∷ 0 ∷ 3 ∷ 0 ∷ 0 ∷ 0 ∷ b'h' ∷ b'i'
        ∷ 0 ∷ 0 ∷ 2 ∷ 0 ∷ 0 ∷ 0 ∷ 5 ∷ 0 ∷ 255 ∷ 255 ∷ [])
unfolding marshal encode encode_time u16 u32 align is_zero le_bytes to_word
reading_bytes = refl

reading-Fits : Fits reading_type reading
unfolding takes_space zero_value
reading-Fits = Fits.struct _ _ (
    FitsFields.exported _ _ _ _ (Fits.uint8 7 (omega arith)) (
      FitsFields.exported _ _ _ _
        (Fits.stamped (record { sec = pos 256; nsec = 1 }) (omega arith) (omega arith) (λ p. cc))
        (FitsFields.exported _ _ _ _ (Fits.string _ (omega arith)) (
          FitsFields.hidden Ty.int32 _ _ (
            FitsFields.exported _ _ _ _
              (Fits.slice Ty.int16 samples (omega arith) refl (
                FitsItems.cons _ _ _ (Fits.int16 (pos 5) (omega arith))
                  (FitsItems.cons _ _ _ (Fits.int16 (negsuc 0) (omega arith)) (FitsItems.nil _))))
              FitsFields.end)))))

unmarshal-marshal_example :
    (bytes : List ℕ) × (marshal reading ≡ ok bytes) × (unmarshal reading_type bytes ≡ ok reading)
unmarshal-marshal_example = unmarshal-marshal reading_type reading reading-Fits

unmarshal-marshal_fraction_example :
    (bytes : List ℕ) × (marshal (Value.duration (negsuc 499_999_999)) ≡ ok bytes)
    × (unmarshal Ty.duration bytes ≡ ok (Value.duration (negsuc 499_999_999 +ℤ pos (2 ^ 32))))
unmarshal-marshal_fraction_example =
    unmarshal-marshal_fraction 0 499_999_999 (omega arith) (omega arith)

cut_short : unmarshal Ty.uint32 (0 ∷ 1 ∷ 0 ∷ 0 ∷ 9 ∷ 9 ∷ []) ≡ err truncated
unfolding unmarshal decode read_u32 as_value align_and_need
cut_short = refl

-- A length that the payload cannot hold is refused before anything is allocated.
length_attack :
    unmarshal (Ty.slice Ty.uint8) (0 ∷ 1 ∷ 0 ∷ 0 ∷ 255 ∷ 255 ∷ 255 ∷ 255 ∷ [])
    ≡ err sequence_too_long
unfolding unmarshal decode read_u32 read_slice align_and_need le_read
length_attack = refl

unmarshal-ne-panics_example :
    unmarshal Ty.string (0 ∷ 1 ∷ 0 ∷ 0 ∷ 9 ∷ 0 ∷ 0 ∷ 0 ∷ 1 ∷ []) ≢ err panics
unmarshal-ne-panics_example = unmarshal-ne-panics Ty.string (0 ∷ 1 ∷ 0 ∷ 0 ∷ 9 ∷ 0 ∷ 0 ∷ 0 ∷ 1 ∷ [])

marshal-Decides_example : Decides (supported reading) (marshal reading)
marshal-Decides_example = marshal-Decides reading
