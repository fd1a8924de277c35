-- ===== src/Cdr/Types.antt =====
-- cdr/cdr.go: Go types and values as the reflection of the encoder and the decoder sees them.
use conductor_ros.Prelude.{ℕ, suc, Bool, List}
use conductor_ros.Prelude.Int.{ℤ}

-- `time.Time`: the seconds since the Unix epoch and the nanoseconds in the second. Its location
-- is not on the wire.
pub record Time : Type 0 where
  pub sec : ℤ
  pub nsec : ℕ

-- The kinds that `value` switches on; `other` is every kind of its default branch (maps, channels,
-- pointers, interfaces, functions, int, uint, complex numbers).
mutual
  pub data Ty : Type 0 where
    time duration bool int8 uint8 int16 uint16 int32 uint32 int64 uint64 float32 float64 string
          other :
        Ty
    slice : Ty → Ty
    array : ℕ → Ty → Ty
    struct : TyFields → Ty

  -- The fields of a struct in order, each with whether it is exported.
  pub data TyFields : Type 0 where
    end : TyFields
    field : Bool → Ty → TyFields → TyFields

-- A float is its IEEE 754 bit pattern (a float32 field that of a float32), a string its bytes, a duration its nanoseconds.
mutual
  pub data Value : Type 0 where
    time : Time → Value
    duration : ℤ → Value
    bool : Bool → Value
    int8 : ℤ → Value
    uint8 : ℕ → Value
    int16 : ℤ → Value
    uint16 : ℕ → Value
    int32 : ℤ → Value
    uint32 : ℕ → Value
    int64 : ℤ → Value
    uint64 : ℕ → Value
    float32 : ℕ → Value
    float64 : ℕ → Value
    string : List ℕ → Value
    slice : Values → Value
    array : Values → Value
    struct : Fields → Value
    other : Value

  pub data Values : Type 0 where
    nil : Values
    cons : Value → Values → Values

  pub data Fields : Type 0 where
    end : Fields
    field : Bool → Value → Fields → Fields

abbrev pub count : Values → ℕ
count nil = 0
count (cons x xs) = suc (count xs)
