-- ===== src/Cdr/Wire.antt =====
-- cdr/cdr.go: the byte buffer of the encoder, the cursor of the decoder, and their primitives.
pub mod Align
pub mod RoundTrip
pub mod Safety
use conductor_ros.Prelude.{
  ℕ, zero, suc, ◌+◌, ◌-◌, ◌*◌, ◌/◌, ◌%◌, ◌^◌, ◌≤◌, ◌<◌, ◌≡◌, refl, Bool, true, false, Option, none,
  some, List, [], ◌∷◌, ◌++◌, arith, ltb, ◌==◌, if◌then◌else◌, length, drop, take,
}
use conductor_ros.Cdr.Result.{Result, ok, err, truncated, panics, ◌>>=◌}

-- `for len(e.buf)%n != 0 { e.buf = append(e.buf, 0) }`, with fuel.
pub pad_loop : ℕ → ℕ → List ℕ → List ℕ
pad_loop zero n buf = buf
pad_loop (suc fuel) n buf =
    let rest = pad_loop fuel n (buf ++ 0 ∷ []) in if length buf % n == 0 then buf else rest

-- `encoder.align`: fewer than `n` rounds are needed.
unfoldable pub align : ℕ → List ℕ → List ℕ
unfolding pad_loop
align n buf = pad_loop n n buf

-- `binary.LittleEndian.AppendUint16/32/64` write the low `k` bytes of `v`, lowest first.
unfoldable pub le_bytes : ℕ → ℕ → List ℕ
le_bytes zero v = []
le_bytes (suc k) v = (v % 256) ∷ le_bytes k (v / 256)

-- What `encoder.u16`, `u32` and `u64` share: they differ in the width alone.
unfoldable pub write_uint : ℕ → ℕ → List ℕ → List ℕ
write_uint k v buf = align k buf ++ le_bytes k v

unfoldable pub u16 : ℕ → List ℕ → List ℕ
unfolding write_uint
u16 v buf = write_uint 2 v buf

unfoldable pub u32 : ℕ → List ℕ → List ℕ
unfolding write_uint
u32 v buf = write_uint 4 v buf

unfoldable pub u64 : ℕ → List ℕ → List ℕ
unfolding write_uint
u64 v buf = write_uint 8 v buf

-- `decoder`: the bytes after the encapsulation header, and the cursor.
pub record Decoder : Type 0 where
  pub buf : List ℕ
  pub off : ℕ

-- `for d.off%align != 0 { d.off++ }`, with fuel.
pub skip_loop : ℕ → ℕ → ℕ → ℕ
skip_loop zero n off = off
skip_loop (suc fuel) n off =
    let rest = skip_loop fuel n (off + 1) in if off % n == 0 then off else rest

unfoldable pub align_and_need : ℕ → ℕ → Decoder → Result Decoder
unfolding skip_loop
align_and_need n need d =
    let off' = skip_loop n n d.off in
    if ltb (length d.buf) (off' + need) then err truncated else ok (record d { off = off' })

-- `binary.LittleEndian.Uint16/32/64`: Go panics where fewer than `k` bytes are left.
unfoldable pub le_read : ℕ → List ℕ → Result ℕ
le_read zero bs = ok 0
le_read (suc k) [] = err panics
le_read (suc k) (b ∷ bs) = do rest ← le_read k bs; ok (b + 256 * rest)

-- What `decoder.u16`, `u32` and `u64` share: they differ in the width alone.
unfoldable pub read_uint : ℕ → Decoder → Result (ℕ × Decoder)
read_uint k d = do
  d' ← align_and_need k k d
  v ← le_read k (drop d'.off d'.buf)
  ok (v, record d' { off = d'.off + k })

unfoldable pub read_u16 : Decoder → Result (ℕ × Decoder)
unfolding read_uint
read_u16 d = read_uint 2 d

unfoldable pub read_u32 : Decoder → Result (ℕ × Decoder)
unfolding read_uint
read_u32 d = read_uint 4 d

unfoldable pub read_u64 : Decoder → Result (ℕ × Decoder)
unfolding read_uint
read_u64 d = read_uint 8 d

-- `d.buf[d.off]`.
unfoldable pub at : List ℕ → ℕ → Result ℕ
at [] i = err panics
at (b ∷ bs) zero = ok b
at (b ∷ bs) (suc i) = at bs i

unfoldable pub read_byte : Decoder → Result (ℕ × Decoder)
read_byte d = do
  d' ← align_and_need 1 1 d
  b ← at d'.buf d'.off
  ok (b, record d' { off = d'.off + 1 })

-- `d.buf[d.off : d.off+n]` panics where the end lies past the buffer.
unfoldable pub slice_bytes : ℕ → ℕ → List ℕ → Result (List ℕ)
slice_bytes off n buf =
    if ltb (length buf) (off + n) then err panics else ok (take n (drop off buf))
