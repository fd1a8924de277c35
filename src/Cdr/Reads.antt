-- ===== src/Cdr/Reads.antt =====
-- What it means that a read takes back what was written, with a rule for steps in sequence.
use mathlib.Core.List.{append-nil, append_assoc}
use conductor_ros.Prelude.{ℕ, ◌<◌, ◌^◌, ◌≡◌, refl, sym, ap, ◌∙◌, List, [], ◌∷◌, ◌++◌, arith}
use conductor_ros.Cdr.Result.{Result, ok, ◌>>=◌}
use conductor_ros.Cdr.Types.{Value}
use conductor_ros.Cdr.Wire.{
  Decoder, write_uint, read_uint, u16, u32, u64, read_u16, read_u32, read_u64, read_byte,
}
use conductor_ros.Cdr.Wire.RoundTrip.{
  cursor, Extends, Extends-trans, write_uint-Extends, read_uint-write_uint, read_byte_lem,
}
use conductor_ros.Cdr.Decode.{as_value}

-- The buffer grew from `pre` to `out`, and `read`, started where `pre` ends in any buffer that
-- begins with `out`, returns `a` and stands where `out` ends.
pub record Reads {ℓ} {A : Type ℓ} (read : Decoder → Result (A × Decoder)) (a : A) (pre out : List ℕ)
    : Type ℓ where
  pub extends : Extends pre out
  pub reads : (rest : List ℕ) → read (cursor pre (out ++ rest)) ≡ ok (a, cursor out (out ++ rest))

pub Reads-pure {ℓ} : {A : Type ℓ} (a : A) (pre : List ℕ) → Reads (λ d. ok (a, d)) a pre pre
Reads-pure a pre = record { extends = ([], sym (append-nil pre)); reads = λ rest. refl }

pub Reads-bind {ℓ κ} :
    {A : Type ℓ} {B : Type κ} (r : Decoder → Result (A × Decoder))
    (f : A × Decoder → Result (B × Decoder)) (a : A) (b : B) (pre mid out : List ℕ)
    → Reads r a pre mid
    → Reads (λ d. f (a, d)) b mid out
    → Reads (λ d. r d >>= f) b pre out
Reads-bind r f a b pre mid out h g = record {
  extends = Extends-trans pre mid out h.extends g.extends;
  reads = λ rest.
      let (body, e) = g.extends in
      let whole : mid ++ (body ++ rest) ≡ out ++ rest =
        sym (append_assoc mid body rest) ∙ ap (λ (l : List ℕ). l ++ rest) (sym e) in
      let first : r (cursor pre (out ++ rest)) ≡ ok (a, cursor mid (out ++ rest)) =
        rw whole at (h.reads (body ++ rest)) in
      rw first (g.reads rest);
}

pub Reads-write_uint :
    (k v : ℕ) (pre : List ℕ) → 0 < k → v < 256 ^ k → Reads (read_uint k) v pre (write_uint k v pre)
Reads-write_uint k v pre h fits = record {
  extends = write_uint-Extends k v pre h;
  reads = λ rest. read_uint-write_uint k v pre rest h fits;
}

pub Reads-u16 : (v : ℕ) (pre : List ℕ) → v < 2 ^ 16 → Reads read_u16 v pre (u16 v pre)
unfolding read_u16 u16
Reads-u16 v pre h = Reads-write_uint 2 v pre (omega arith) h

pub Reads-u32 : (v : ℕ) (pre : List ℕ) → v < 2 ^ 32 → Reads read_u32 v pre (u32 v pre)
unfolding read_u32 u32
Reads-u32 v pre h = Reads-write_uint 4 v pre (omega arith) h

pub Reads-u64 : (v : ℕ) (pre : List ℕ) → v < 2 ^ 64 → Reads read_u64 v pre (u64 v pre)
unfolding read_u64 u64
Reads-u64 v pre h = Reads-write_uint 8 v pre (omega arith) h

pub Reads-byte : (b : ℕ) (pre : List ℕ) → Reads read_byte b pre (pre ++ b ∷ [])
Reads-byte b pre = record { extends = (b ∷ [], refl); reads = λ rest. read_byte_lem b pre rest }

-- A scalar read, with the value that is made of the number.
pub Reads-as_value :
    (read : Decoder → Result (ℕ × Decoder)) (wrap : ℕ → Value) (n : ℕ) (v : Value)
    (pre out : List ℕ)
    → Reads read n pre out
    → wrap n ≡ v
    → Reads (λ d. as_value (read d) wrap) v pre out
unfolding as_value
Reads-as_value read wrap n v pre out h e = record {
  extends = h.extends;
  reads = λ rest. rw (h.reads rest, e);
}
