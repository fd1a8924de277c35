-- ===== src/Cdr/Fits.antt =====
-- Which values of a type the format can carry, and which types take space on the wire.
use conductor_ros.Prelude.{
  ℕ, ◌+◌, ◌*◌, ◌^◌, ◌<◌, ◌≡◌, Bool, true, false, ◌&&◌, ◌||◌, not, List, ◌==◌, length,
}
use conductor_ros.Prelude.Int.{ℤ, pos, negsuc}
use conductor_ros.Cdr.Types.{Time, Ty, TyFields, Value, Values, Fields, count}
use conductor_ros.Cdr.Encode.{second, quiet}
use conductor_ros.Cdr.Decode.{zero_time, zero_value}
use conductor_ros.Cdr.Words.{IsBelow}

-- A type whose values write at least one byte.
unfoldable mutual
  pub takes_space : Ty → Bool
  takes_space (Ty.array n t) = not (n == 0) && takes_space t
  takes_space (Ty.struct fs) = fields_take_space fs
  takes_space _ = true

  pub fields_take_space : TyFields → Bool
  fields_take_space TyFields.end = false
  fields_take_space (TyFields.field exported t fs) =
      exported && takes_space t || fields_take_space fs

-- A value of the type that comes back from the wire as it was: its words are in range, a time is
-- whole or not stamped, a float32 no signalling NaN, a duration is positive or of whole seconds, a slice is shorter than 2 ^ 32
-- and its elements take space, and what is not exported is zero.
mutual
  pub data Fits : Ty → Value → Type 0 where
    not_stamped : Fits Ty.time (Value.time zero_time)
    stamped :
        (t : Time)
        → IsBelow (2 ^ 31) t.sec
        → t.nsec < second
        → ¬ ((t.sec ≡ pos 0) × (t.nsec ≡ 0))
        → Fits Ty.time (Value.time t)
    positive : (n : ℕ) → n < 2 ^ 31 * second → Fits Ty.duration (Value.duration (pos n))
    whole :
        (k : ℕ) → k < 2 ^ 31 → Fits Ty.duration (Value.duration (negsuc (k * second + 999_999_999)))
    bool : (b : Bool) → Fits Ty.bool (Value.bool b)
    int8 : (z : ℤ) → IsBelow (2 ^ 7) z → Fits Ty.int8 (Value.int8 z)
    uint8 : (n : ℕ) → n < 2 ^ 8 → Fits Ty.uint8 (Value.uint8 n)
    int16 : (z : ℤ) → IsBelow (2 ^ 15) z → Fits Ty.int16 (Value.int16 z)
    uint16 : (n : ℕ) → n < 2 ^ 16 → Fits Ty.uint16 (Value.uint16 n)
    int32 : (z : ℤ) → IsBelow (2 ^ 31) z → Fits Ty.int32 (Value.int32 z)
    uint32 : (n : ℕ) → n < 2 ^ 32 → Fits Ty.uint32 (Value.uint32 n)
    int64 : (z : ℤ) → IsBelow (2 ^ 63) z → Fits Ty.int64 (Value.int64 z)
    uint64 : (n : ℕ) → n < 2 ^ 64 → Fits Ty.uint64 (Value.uint64 n)
    float32 : (n : ℕ) → n < 2 ^ 32 → quiet n ≡ n → Fits Ty.float32 (Value.float32 n)
    float64 : (n : ℕ) → n < 2 ^ 64 → Fits Ty.float64 (Value.float64 n)
    string : (s : List ℕ) → length s + 1 < 2 ^ 32 → Fits Ty.string (Value.string s)
    slice :
        (t : Ty) (xs : Values)
        → count xs < 2 ^ 32
        → takes_space t ≡ true
        → FitsItems t xs
        → Fits (Ty.slice t) (Value.slice xs)
    array : (t : Ty) (xs : Values) → FitsItems t xs → Fits (Ty.array (count xs) t) (Value.array xs)
    struct :
        (ts : TyFields) (xs : Fields) → FitsFields ts xs → Fits (Ty.struct ts) (Value.struct xs)

  pub data FitsItems : Ty → Values → Type 0 where
    nil : (t : Ty) → FitsItems t Values.nil
    cons :
        (t : Ty) (x : Value) (xs : Values)
        → Fits t x
        → FitsItems t xs
        → FitsItems t (Values.cons x xs)

  pub data FitsFields : TyFields → Fields → Type 0 where
    end : FitsFields TyFields.end Fields.end
    exported :
        (t : Ty) (x : Value) (ts : TyFields) (xs : Fields)
        → Fits t x
        → FitsFields ts xs
        → FitsFields (TyFields.field true t ts) (Fields.field true x xs)
    hidden :
        (t : Ty) (ts : TyFields) (xs : Fields)
        → FitsFields ts xs
        → FitsFields (TyFields.field false t ts) (Fields.field false (zero_value t) xs)
