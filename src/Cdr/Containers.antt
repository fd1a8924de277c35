-- ===== src/Cdr/Containers.antt =====
-- What is written on top of a buffer and read back: strings, slices, arrays and structs.
use conductor_ros.Prelude.{
  ℕ, ◌+◌, ◌-◌, ◌%◌, ◌^◌, ◌≤◌, ◌<◌, ◌≡◌, refl, ap, Bool, true, false, ◌&&◌, ◌||◌, not, List, [], ◌∷◌,
  ◌++◌, arith, ◌==◌, ltb, length, length-append, ◌⊎◌, inl, inr,
}
use conductor_ros.Cdr.Result.{ok}
use conductor_ros.Cdr.Types.{Ty, TyFields, Value, Values, Fields, count}
use conductor_ros.Cdr.Wire.{u32, read_u32}
use conductor_ros.Cdr.Wire.RoundTrip.{Extends}
use conductor_ros.Cdr.Encode.{encode}
use conductor_ros.Cdr.Decode.{zero_value, read_items, read_slice, decode}
use conductor_ros.Cdr.Reads.{Reads, Reads-pure, Reads-bind, Reads-u32}
use conductor_ros.Cdr.Scalars.{Reads-string}
use conductor_ros.Cdr.Fits.{takes_space, fields_take_space}
use conductor_ros.Cdr.Carries.{Carries, CarriesItems, CarriesFields, length-u32}

-- The slice decoder's length check passes where each element takes space.
Reads-slice :
    (t : Ty) (xs : Values) (pre mid out : List ℕ)
    → Reads read_u32 (count xs) pre mid
    → Reads (read_items (decode t) (count xs)) xs mid out
    → length mid + count xs ≤ length out
    → Reads (read_slice (decode t)) (Value.slice xs) pre out
unfolding read_slice
Reads-slice t xs pre mid out h g room = Reads-bind read_u32 _ (count xs) _ pre mid out h (record {
  extends = g.extends;
  reads = λ rest.
      let fits : ltb (length (out ++ rest) - length mid) (count xs) ≡ false =
        ground (arith, length-append out rest) in
      rw (fits, g.reads rest) refl;
})

pub Carries-string :
    (s pre : List ℕ) → length s + 1 < 2 ^ 32 → Carries Ty.string (Value.string s) pre
unfolding encode decode
Carries-string s pre h =
    let n : (length s + 1) % 2 ^ 32 ≡ length s + 1 = omega arith in
    record {
      out = u32 (length s + 1) pre ++ (s ++ 0 ∷ []);
      encoded = ap (λ k. ok (u32 k pre ++ (s ++ 0 ∷ []))) n;
      back = Reads-string s pre h;
      grows = λ _. omega (
        arith,
        length-u32 (length s + 1) pre,
        length-append (u32 (length s + 1) pre) (s ++ 0 ∷ []),
      );
    }

pub Carries-slice :
    (t : Ty) (xs : Values) (pre : List ℕ)
    → count xs < 2 ^ 32
    → takes_space t ≡ true
    → CarriesItems t xs (u32 (count xs) pre)
    → Carries (Ty.slice t) (Value.slice xs) pre
unfolding encode decode
Carries-slice t xs pre short space c =
    let n : count xs % 2 ^ 32 ≡ count xs = omega arith in
    record {
      out = c.out;
      encoded = rw n c.encoded;
      back = Reads-slice t xs pre _ c.out (Reads-u32 (count xs) pre short) c.back (c.grows space);
      grows = λ _. omega (arith, length-u32 (count xs) pre, c.grows space);
    }

array_space : (n : ℕ) (b : Bool) → (not (n == 0) && b) ≡ true → (0 < n) × (b ≡ true)
array_space n b h = ground arith

field_space : (a b : Bool) → (true && a || b) ≡ true → (a ≡ true) ⊎ (b ≡ true)
field_space a b h = ground arith

Extends-le : (pre out : List ℕ) → Extends pre out → length pre ≤ length out
Extends-le pre out (body, e) = rw e (omega (arith, length-append pre body))

pub Carries-array :
    (t : Ty) (xs : Values) (pre : List ℕ)
    → CarriesItems t xs pre
    → Carries (Ty.array (count xs) t) (Value.array xs) pre
unfolding encode decode takes_space
Carries-array t xs pre c = record {
  out = c.out;
  encoded = c.encoded;
  back = Reads-bind _ _ xs _ pre c.out c.out c.back (Reads-pure (Value.array xs) c.out);
  grows = λ h.
      let (some_items, space) = array_space (count xs) (takes_space t) h in
      omega (arith, c.grows space);
}

pub Carries-struct :
    (ts : TyFields) (xs : Fields) (pre : List ℕ)
    → CarriesFields ts xs pre
    → Carries (Ty.struct ts) (Value.struct xs) pre
unfolding encode decode takes_space
Carries-struct ts xs pre c = record {
  out = c.out;
  encoded = c.encoded;
  back = Reads-bind _ _ xs _ pre c.out c.out c.back (Reads-pure (Value.struct xs) c.out);
  grows = c.grows;
}

pub items_nil : (t : Ty) (pre : List ℕ) → CarriesItems t Values.nil pre
unfolding encode read_items
items_nil t pre = record {
  out = pre;
  encoded = refl;
  back = Reads-pure Values.nil pre;
  grows = λ _. omega arith;
}

pub items_cons :
    (t : Ty) (x : Value) (xs : Values) (pre : List ℕ) (c : Carries t x pre)
    → CarriesItems t xs c.out
    → CarriesItems t (Values.cons x xs) pre
unfolding encode read_items
items_cons t x xs pre c cs = record {
  out = cs.out;
  encoded = rw c.encoded cs.encoded;
  back =
      Reads-bind _ _ x _ pre c.out cs.out c.back
        (Reads-bind _ _ xs _ c.out cs.out cs.out cs.back (Reads-pure (Values.cons x xs) cs.out));
  grows = λ h. omega (arith, c.grows h, cs.grows h);
}

pub fields_end : (pre : List ℕ) → CarriesFields TyFields.end Fields.end pre
unfolding encode decode takes_space
fields_end pre = record {
  out = pre;
  encoded = refl;
  back = Reads-pure Fields.end pre;
  grows = λ h. cc;
}

pub fields_exported :
    (t : Ty) (x : Value) (ts : TyFields) (xs : Fields) (pre : List ℕ) (c : Carries t x pre)
    → CarriesFields ts xs c.out
    → CarriesFields (TyFields.field true t ts) (Fields.field true x xs) pre
unfolding encode decode takes_space
fields_exported t x ts xs pre c cs = record {
  out = cs.out;
  encoded = rw c.encoded cs.encoded;
  back = Reads-bind _ _ x _ pre c.out cs.out c.back (
      Reads-bind _ _ xs _ c.out cs.out cs.out cs.back (Reads-pure (Fields.field true x xs) cs.out));
  grows = λ h. elim (field_space (takes_space t) (fields_take_space ts) h) [
    | inl space ↦ omega (arith, c.grows space, Extends-le c.out cs.out cs.back.extends)
    | inr space ↦ omega (arith, cs.grows space, Extends-le pre c.out c.back.extends)
  ];
}

pub fields_hidden :
    (t : Ty) (ts : TyFields) (xs : Fields) (pre : List ℕ)
    → CarriesFields ts xs pre
    → CarriesFields (TyFields.field false t ts) (Fields.field false (zero_value t) xs) pre
unfolding encode decode takes_space
fields_hidden t ts xs pre cs = record {
  out = cs.out;
  encoded = cs.encoded;
  back =
      Reads-bind _ _ xs _ pre cs.out cs.out cs.back
        (Reads-pure (Fields.field false (zero_value t) xs) cs.out);
  grows = cs.grows;
}
