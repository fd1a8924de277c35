-- ===== src/Cdr/Shape.antt =====
-- When `Marshal` succeeds, and the shape of what it writes.
use conductor_ros.Prelude.{
  ℕ, ◌%◌, ◌≡◌, refl, Bool, true, false, ◌&&◌, ◌||◌, not, List, [], ◌∷◌, ◌++◌, arith, length, take,
}
use conductor_ros.Cdr.Result.{Result, ok, err, unsupported_type, ◌>>=◌}
use conductor_ros.Cdr.Types.{Value, Values, Fields}
use conductor_ros.Cdr.Wire.{align}
use conductor_ros.Cdr.Wire.Align.{length-align_4}
use conductor_ros.Cdr.Encode.{encapsulation_le, encode, encode_items, encode_fields, marshal}

-- No part that is serialised is of a kind without a case in `value`.
unfoldable mutual
  pub supported : Value → Bool
  supported (Value.slice xs) = supported_items xs
  supported (Value.array xs) = supported_items xs
  supported (Value.struct fs) = supported_fields fs
  supported Value.other = false
  supported _ = true

  pub supported_items : Values → Bool
  supported_items Values.nil = true
  supported_items (Values.cons x xs) = supported x && supported_items xs

  pub supported_fields : Fields → Bool
  supported_fields Fields.end = true
  supported_fields (Fields.field exported x fs) =
      (not exported || supported x) && supported_fields fs

-- A result that is a value exactly where the flag is set, and else the one error of the encoder.
abbrev pub Decides {ℓ} : {A : Type ℓ} → Bool → Result A → Type ℓ
Decides {A = A} true r = (a : A) × (r ≡ ok a)
Decides {A = A} false r = r ≡ err unsupported_type

Decides-bind {ℓ} :
    {A : Type ℓ} (a b : Bool) (r : Result A) (f : A → Result A)
    → Decides a r
    → ((x : A) → Decides b (f x))
    → Decides (a && b) (r >>= f)
Decides-bind true true r f (x, e) g = rw e (g x)
Decides-bind true false r f (x, e) g = rw e (g x)
Decides-bind false b r f e g = rw e

mutual
  unfolding encode supported

  encode-Decides : (v : Value) (e : List ℕ) → Decides (supported v) (encode v e)
  encode-Decides (Value.slice xs) e = items-Decides xs _
  encode-Decides (Value.array xs) e = items-Decides xs e
  encode-Decides (Value.struct fs) e = fields-Decides fs e
  encode-Decides Value.other e = refl
  encode-Decides _ e = (_, refl)

  items-Decides : (xs : Values) (e : List ℕ) → Decides (supported_items xs) (encode_items xs e)
  items-Decides Values.nil e = (e, refl)
  items-Decides (Values.cons x xs) e =
      Decides-bind (supported x) (supported_items xs) _ _ (encode-Decides x e) (items-Decides xs)

  fields-Decides : (fs : Fields) (e : List ℕ) → Decides (supported_fields fs) (encode_fields fs e)
  fields-Decides Fields.end e = (e, refl)
  fields-Decides (Fields.field true x fs) e =
      Decides-bind (supported x) (supported_fields fs) _ _ (encode-Decides x e) (fields-Decides fs)
  fields-Decides (Fields.field false x fs) e = fields-Decides fs e

-- `Marshal` returns bytes exactly where every part that it serialises has a kind that it knows;
-- else its error is the one on the unsupported type.
pub marshal-Decides : (v : Value) → Decides (supported v) (marshal v)
unfolding marshal
marshal-Decides v = finish (supported v) (encode v []) (encode-Decides v [])
  where
    finish :
        (b : Bool) (r : Result (List ℕ))
        → Decides b r
        → Decides b (r >>= λ buf. ok (0 ∷ 1 ∷ 0 ∷ 0 ∷ align 4 buf))
    finish true r (x, e) = rw e (_, refl)
    finish false r e = rw e

shape :
    (r : Result (List ℕ)) (bytes : List ℕ)
    → (r >>= λ buf. ok (encapsulation_le ++ align 4 buf)) ≡ ok bytes
    → (take 4 bytes ≡ encapsulation_le) × (length bytes % 4 ≡ 0)
shape (ok buf) bytes h =
    let whole : bytes ≡ encapsulation_le ++ align 4 buf = cc in
    rw whole (refl, omega (arith, length-align_4 buf))
shape (err e) bytes h = cc

-- What `Marshal` returns begins with the CDR_LE header, and its length is a multiple of four.
pub marshal_shape :
    (v : Value) (bytes : List ℕ)
    → marshal v ≡ ok bytes
    → (take 4 bytes ≡ 0 ∷ 1 ∷ 0 ∷ 0 ∷ []) × (length bytes % 4 ≡ 0)
unfolding marshal
marshal_shape v bytes h = shape (encode v []) bytes h
