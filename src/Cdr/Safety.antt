-- ===== src/Cdr/Safety.antt =====
-- `Unmarshal` on any payload: it returns a value or one of its errors, and never panics.
use conductor_ros.Prelude.{
  ℕ, zero, suc, ◌+◌, ◌-◌, ◌≤◌, ◌≡◌, ◌≢◌, refl, true, false, List, [], ◌∷◌, arith, ltb, length,
  Bool-cases, inl, inr, not, ◌==◌, ◌||◌,
}
use conductor_ros.Cdr.Result.{Result, ok, err, panics, sequence_too_long, unsupported_type, ◌>>=◌}
use conductor_ros.Cdr.Types.{Ty, TyFields, Value, Values, Fields}
use conductor_ros.Cdr.Wire
use conductor_ros.Cdr.Wire.{Decoder, read_u16, read_u32, read_u64, read_byte, align_and_need}
use conductor_ros.Cdr.Wire.Safety.{
  Advances, Advances-ok, Advances-bind, Advances-err, read_uint-Advances, read_byte-Advances,
  align_and_need_cases,
}
use conductor_ros.Cdr.Decode.{
  read_time, read_duration, read_text, read_string, read_items, read_slice, as_value, decode,
  decode_fields, unmarshal,
}

read_u16-Advances : (d : Decoder) → Advances d (read_u16 d)
unfolding read_u16
read_u16-Advances d = read_uint-Advances 2 d

read_u32-Advances : (d : Decoder) → Advances d (read_u32 d)
unfolding read_u32
read_u32-Advances d = read_uint-Advances 4 d

read_u64-Advances : (d : Decoder) → Advances d (read_u64 d)
unfolding read_u64
read_u64-Advances d = read_uint-Advances 8 d

as_value-Advances :
    (wrap : ℕ → Value) (d : Decoder) (r : Result (ℕ × Decoder))
    → Advances d r
    → Advances d (as_value r wrap)
unfolding as_value
as_value-Advances wrap d r h = Advances-bind d r _ h (λ n d' inside. Advances-ok (wrap n) d' inside)

read_time-Advances : (d : Decoder) → Advances d (read_time d)
unfolding read_time
read_time-Advances d =
    Advances-bind d _ _ (read_u32-Advances d)
      λ a d' _. Advances-bind d' _ _ (read_u32-Advances d') λ b d'' inside. Advances-ok _ d'' inside

read_duration-Advances : (d : Decoder) → Advances d (read_duration d)
unfolding read_duration
read_duration-Advances d =
    Advances-bind d _ _ (read_u32-Advances d)
      λ a d' _. Advances-bind d' _ _ (read_u32-Advances d') λ b d'' inside. Advances-ok _ d'' inside

-- The slice that a string takes lies inside the buffer.
read_text-Advances : (n : ℕ) (d : Decoder) → Advances d (read_text n d)
unfolding read_text Wire.slice_bytes Advances
read_text-Advances n d = elim (align_and_need_cases 1 n d) [
  | inl e ↦ rw e (λ p. cc)
  | inr (off, e, moved, fits) ↦
      let inside : ltb (length d.buf) (off + n) ≡ false = ground arith in
      rw (e, inside) (refl, omega arith, fits)
]

read_string-Advances : (d : Decoder) → Advances d (read_string d)
unfolding read_string
read_string-Advances d = Advances-bind d _ _ (read_u32-Advances d) λ n d' _. read_text-Advances n d'

module _ (item : Decoder → Result (Value × Decoder))
    (item-Advances : (d : Decoder) → d.off ≤ length d.buf → Advances d (item d)) where
  read_items-Advances :
      (n : ℕ) (d : Decoder) → d.off ≤ length d.buf → Advances d (read_items item n d)
  unfolding read_items
  read_items-Advances zero d h = Advances-ok Values.nil d h
  read_items-Advances (suc n) d h = Advances-bind d _ _ (item-Advances d h) λ x d' h'.
      Advances-bind d' _ _ (read_items-Advances n d' h')
        λ xs d'' inside. Advances-ok (Values.cons x xs) d'' inside

  read_slice-Advances : (d : Decoder) → Advances d (read_slice item d)
  unfolding read_slice
  read_slice-Advances d = Advances-bind d _ _ (read_u32-Advances d) λ n d' h'.
      elim (Bool-cases (ltb (length d'.buf - d'.off) n)) [
        | inl e ↦ rw e (Advances-err _ d' sequence_too_long (λ p. cc))
        | inr e ↦ rw e (
            Advances-bind d' _ _ (read_items-Advances n d' h')
              λ xs d'' inside. Advances-ok (Value.slice xs) d'' inside)
      ]

mutual
  unfolding decode

  decode-Advances : (t : Ty) (d : Decoder) → d.off ≤ length d.buf → Advances d (decode t d)
  decode-Advances Ty.time d h = read_time-Advances d
  decode-Advances Ty.duration d h = read_duration-Advances d
  decode-Advances Ty.bool d h = as_value-Advances _ d _ (read_byte-Advances d)
  decode-Advances Ty.int8 d h = as_value-Advances _ d _ (read_byte-Advances d)
  decode-Advances Ty.uint8 d h = as_value-Advances _ d _ (read_byte-Advances d)
  decode-Advances Ty.int16 d h = as_value-Advances _ d _ (read_u16-Advances d)
  decode-Advances Ty.uint16 d h = as_value-Advances _ d _ (read_u16-Advances d)
  decode-Advances Ty.int32 d h = as_value-Advances _ d _ (read_u32-Advances d)
  decode-Advances Ty.uint32 d h = as_value-Advances _ d _ (read_u32-Advances d)
  decode-Advances Ty.int64 d h = as_value-Advances _ d _ (read_u64-Advances d)
  decode-Advances Ty.uint64 d h = as_value-Advances _ d _ (read_u64-Advances d)
  decode-Advances Ty.float32 d h = as_value-Advances _ d _ (read_u32-Advances d)
  decode-Advances Ty.float64 d h = as_value-Advances _ d _ (read_u64-Advances d)
  decode-Advances Ty.string d h = read_string-Advances d
  decode-Advances Ty.other d h = Advances-err _ d unsupported_type (λ p. cc)
  decode-Advances (Ty.slice t) d h = read_slice-Advances (decode t) (decode-Advances t) d
  decode-Advances (Ty.array n t) d h =
      Advances-bind d _ _ (read_items-Advances (decode t) (decode-Advances t) n d h)
        λ xs d' inside. Advances-ok (Value.array xs) d' inside
  decode-Advances (Ty.struct fs) d h =
      Advances-bind d _ _ (decode_fields-Advances fs d h)
        λ xs d' inside. Advances-ok (Value.struct xs) d' inside

  decode_fields-Advances :
      (fs : TyFields) (d : Decoder) → d.off ≤ length d.buf → Advances d (decode_fields fs d)
  decode_fields-Advances TyFields.end d h = Advances-ok Fields.end d h
  decode_fields-Advances (TyFields.field true t fs) d h =
      Advances-bind d _ _ (decode-Advances t d h) λ x d' h'.
        Advances-bind d' _ _ (decode_fields-Advances fs d' h')
          λ xs d'' inside. Advances-ok (Fields.field true x xs) d'' inside
  decode_fields-Advances (TyFields.field false t fs) d h =
      Advances-bind d _ _ (decode_fields-Advances fs d h) λ xs d' inside. Advances-ok _ d' inside

value_of-ne-panics :
    (d : Decoder) (r : Result (Value × Decoder))
    → Advances d r
    → (r >>= λ (v, d'). ok v) ≢ err panics
unfolding Advances
value_of-ne-panics d (ok (v, d')) h p = cc
value_of-ne-panics d (err e) h p = h (cc)

-- Whatever the bytes of the payload and whatever the type of the target, `Unmarshal` does not
-- panic: every access to the buffer lies inside it.
pub unmarshal-ne-panics : (t : Ty) (payload : List ℕ) → unmarshal t payload ≢ err panics
unfolding unmarshal
unmarshal-ne-panics t [] p = cc
unmarshal-ne-panics t (b0 ∷ []) p = cc
unmarshal-ne-panics t (b0 ∷ (b1 ∷ [])) p = cc
unmarshal-ne-panics t (b0 ∷ (b1 ∷ (b2 ∷ []))) p = cc
unmarshal-ne-panics t (b0 ∷ (b1 ∷ (b2 ∷ (b3 ∷ body)))) p =
    let d : Decoder = record { buf = body; off = 0 } in
    elim (Bool-cases (not (b0 == 0) || not (b1 == 1))) [
      | inl e ↦ let q = rw e at p in cc
      | inr e ↦ value_of-ne-panics d (decode t d) (decode-Advances t d (omega arith)) (rw e at p)
    ]
