-- ===== src/Cdr/Words.antt =====
-- The conversions of signed integers, durations and times to unsigned words, and back.
use conductor_ros.Prelude.{ℕ, ◌+◌, ◌*◌, ◌^◌, ◌<◌, ◌≡◌, arith}
use conductor_ros.Prelude.Int.{ℤ, pos, negsuc, ◌+ℤ◌, ◌*ℤ◌}
use conductor_ros.Cdr.Encode.{to_word, quot, rem, second}
use conductor_ros.Cdr.Decode.{from_word}

-- `z` lies in the range of a signed word that has `h` values on each side of zero.
abbrev pub IsBelow : ℕ → ℤ → Type 0
IsBelow h (pos n) = n < h
IsBelow h (negsuc n) = n < h

pub from_word-to_word_8 : (z : ℤ) → IsBelow (2 ^ 7) z → from_word 8 (to_word 8 z) ≡ z
unfolding from_word to_word
from_word-to_word_8 (pos n) h = ground arith
from_word-to_word_8 (negsuc n) h = ground arith

pub from_word-to_word_16 : (z : ℤ) → IsBelow (2 ^ 15) z → from_word 16 (to_word 16 z) ≡ z
unfolding from_word to_word
from_word-to_word_16 (pos n) h = ground arith
from_word-to_word_16 (negsuc n) h = ground arith

pub from_word-to_word_32 : (z : ℤ) → IsBelow (2 ^ 31) z → from_word 32 (to_word 32 z) ≡ z
unfolding from_word to_word
from_word-to_word_32 (pos n) h = ground arith
from_word-to_word_32 (negsuc n) h = ground arith

pub from_word-to_word_64 : (z : ℤ) → IsBelow (2 ^ 63) z → from_word 64 (to_word 64 z) ≡ z
unfolding from_word to_word
from_word-to_word_64 (pos n) h = ground arith
from_word-to_word_64 (negsuc n) h = ground arith

pub to_word-lt_32 : (z : ℤ) → to_word 32 z < 2 ^ 32
unfolding to_word
to_word-lt_32 (pos n) = omega arith
to_word-lt_32 (negsuc n) = omega arith

pub to_word-lt_16 : (z : ℤ) → to_word 16 z < 2 ^ 16
unfolding to_word
to_word-lt_16 (pos n) = omega arith
to_word-lt_16 (negsuc n) = omega arith

pub to_word-lt_64 : (z : ℤ) → to_word 64 z < 2 ^ 64
unfolding to_word
to_word-lt_64 (pos n) = omega arith
to_word-lt_64 (negsuc n) = omega arith

-- The seconds and the nanoseconds that a decoder makes of the two words of a duration.
abbrev pub duration_of : ℕ → ℕ → ℤ
duration_of sec nsec = from_word 32 sec *ℤ pos second +ℤ pos nsec

-- A duration of no less than zero is read back, up to 2 ^ 31 seconds.
pub duration_pos :
    (n : ℕ)
    → n < 2 ^ 31 * second
    → duration_of (to_word 32 (quot (pos n) second)) (to_word 32 (rem (pos n) second)) ≡ pos n
unfolding from_word to_word quot rem ◌+ℤ◌ ◌*ℤ◌
duration_pos n h = ground arith

-- So is a negative one of whole seconds.
pub duration_whole :
    (k : ℕ)
    → k < 2 ^ 31
    → let d = negsuc (k * second + 999_999_999) in
      duration_of (to_word 32 (quot d second)) (to_word 32 (rem d second)) ≡ d
unfolding from_word to_word quot rem ◌+ℤ◌ ◌*ℤ◌
duration_whole k h = ground arith

-- A negative duration with a fraction of a second comes back 2 ^ 32 nanoseconds too large.
pub duration_fraction :
    (s f : ℕ)
    → s < 2 ^ 31
    → f + 1 < second
    → let d = negsuc (s * second + f) in
      duration_of (to_word 32 (quot d second)) (to_word 32 (rem d second)) ≡ d +ℤ pos (2 ^ 32)
unfolding from_word to_word quot rem ◌+ℤ◌ ◌*ℤ◌
duration_fraction s f hs hf = ground arith
