-- ===== src/Cdr/Wire/RoundTrip.antt =====
-- What the primitives of the encoder write, those of the decoder read back.
use native.Mathlib.Nat.{pow-suc}
use mathlib.Core.List.{append_assoc}
use conductor_ros.Prelude.{
  ℕ, zero, suc, ◌+◌, ◌*◌, ◌/◌, ◌^◌, ◌≤◌, ◌<◌, ◌≡◌, refl, List, [], ◌∷◌, ◌++◌, arith, length,
  replicate, drop-append, take-append, length-append, ◌∙◌, ap,
}
use conductor_ros.Cdr.Result.{ok}
use conductor_ros.Cdr.Wire.{
  Decoder, align, le_bytes, write_uint, skip_loop, align_and_need, le_read, read_uint, at,
  read_byte, slice_bytes,
}
use conductor_ros.Cdr.Wire.Align.{padding, align_lem, skip_loop-align}

pub length-le_bytes : (k v : ℕ) → length (le_bytes k v) ≡ k
unfolding le_bytes
length-le_bytes zero v = refl
length-le_bytes (suc k) v = ap suc (length-le_bytes k (v / 256))

div_below : (k v : ℕ) → v < 256 ^ suc k → v / 256 < 256 ^ k
div_below k v h = let h' : v < 256 ^ k * 256 = rw (← pow-suc) h in omega arith

le_read-le_bytes : (k v : ℕ) (rest : List ℕ) → v < 256 ^ k → le_read k (le_bytes k v ++ rest) ≡ ok v
unfolding le_read le_bytes
le_read-le_bytes zero v rest h = ap ok (omega arith)
le_read-le_bytes (suc k) v rest h =
    rw (le_read-le_bytes k (v / 256) rest (div_below k v h)) (ap ok (omega arith))

-- The decoder stands at the end of `pre`, in a buffer that goes on.
abbrev pub cursor : List ℕ → List ℕ → Decoder
cursor pre buf = record { buf = buf; off = length pre }

-- The encoder only appends.
abbrev pub Extends : List ℕ → List ℕ → Type 0
Extends pre out = (body : List ℕ) × (out ≡ pre ++ body)

pub Extends-trans : (a b c : List ℕ) → Extends a b → Extends b c → Extends a c
Extends-trans a b c (x, e) (y, f) = (x ++ y, f ∙ rw e (append_assoc a x y))

pub write_uint-Extends : (k v : ℕ) (pre : List ℕ) → 0 < k → Extends pre (write_uint k v pre)
unfolding write_uint
write_uint-Extends k v pre h = (
  replicate (padding k (length pre)) 0 ++ le_bytes k v,
  rw (align_lem k pre h) (append_assoc pre _ _),
)

align_and_need_lem :
    (k need : ℕ) (pre bytes : List ℕ)
    → 0 < k
    → need ≤ length bytes
    → align_and_need k need (cursor pre (align k pre ++ bytes))
      ≡ ok (cursor (align k pre) (align k pre ++ bytes))
unfolding align_and_need
align_and_need_lem k need pre bytes h fits =
    rw (skip_loop-align k pre h) (ground (arith, length-append (align k pre) bytes))

-- A number is read back, and the cursor stands behind it.
pub read_uint-write_uint :
    (k v : ℕ) (pre rest : List ℕ)
    → 0 < k
    → v < 256 ^ k
    → read_uint k (cursor pre (write_uint k v pre ++ rest))
      ≡ ok (v, cursor (write_uint k v pre) (write_uint k v pre ++ rest))
unfolding read_uint write_uint
read_uint-write_uint k v pre rest h fits =
    let room : k ≤ length (le_bytes k v ++ rest) =
      omega (arith, length-append (le_bytes k v) rest, length-le_bytes k v) in
    let end : length (align k pre) + k ≡ length (align k pre ++ le_bytes k v) =
      omega (arith, length-append (align k pre) (le_bytes k v), length-le_bytes k v) in
    rw (
      append_assoc (align k pre) (le_bytes k v) rest,
      align_and_need_lem k k pre (le_bytes k v ++ rest) h room,
      drop-append (align k pre) (le_bytes k v ++ rest),
      le_read-le_bytes k v rest fits,
      end,
    )

-- At alignment 1 nothing is skipped.
pub need_lem :
    (need : ℕ) (pre bytes : List ℕ)
    → need ≤ length bytes
    → align_and_need 1 need (cursor pre (pre ++ bytes)) ≡ ok (cursor pre (pre ++ bytes))
unfolding align_and_need skip_loop
need_lem need pre bytes fits = ground (arith, length-append pre bytes)

at-append : (pre : List ℕ) (b : ℕ) (rest : List ℕ) → at (pre ++ (b ∷ rest)) (length pre) ≡ ok b
unfolding at
at-append [] b rest = refl
at-append (x ∷ pre) b rest = at-append pre b rest

pub read_byte_lem :
    (b : ℕ) (pre rest : List ℕ)
    → read_byte (cursor pre ((pre ++ b ∷ []) ++ rest))
      ≡ ok (b, cursor (pre ++ b ∷ []) ((pre ++ b ∷ []) ++ rest))
unfolding read_byte
read_byte_lem b pre rest = rw (
  append_assoc pre (b ∷ []) rest,
  need_lem 1 pre (b ∷ rest) (omega arith),
  at-append pre b rest,
  length-append pre (b ∷ []),
)

pub slice_bytes-append :
    (pre bytes rest : List ℕ)
    → slice_bytes (length pre) (length bytes) (pre ++ (bytes ++ rest)) ≡ ok bytes
unfolding slice_bytes
slice_bytes-append pre bytes rest =
    rw (length-append, length-append, drop-append, take-append) (ground arith)

pub length-write_uint :
    (k v : ℕ) (pre : List ℕ) → 0 < k → length pre + k ≤ length (write_uint k v pre)
unfolding write_uint
length-write_uint k v pre h =
    rw align_lem (rw (length-append, length-append, length-le_bytes) (omega arith))
