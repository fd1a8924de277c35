-- ===== src/Cdr/Scalars.antt =====
-- Times, durations and strings: the decoder reads back what the encoder wrote.
use mathlib.Core.List.{append_assoc}
use conductor_ros.Prelude.{
  ℕ, zero, suc, ◌+◌, ◌%◌, ◌^◌, ◌<◌, ◌≡◌, refl, sym, ap, false, ◌&&◌, List, [], ◌∷◌, ◌++◌, arith,
  ◌==◌, if◌then◌else◌, length, length-append,
}
use conductor_ros.Prelude.Int.{ℤ, pos, negsuc, ◌+ℤ◌}
use conductor_ros.Cdr.Result.{ok, ◌>>=◌}
use conductor_ros.Cdr.Types.{Time, Value}
use conductor_ros.Cdr.Wire.{u32, read_u32}
use conductor_ros.Cdr.Wire.RoundTrip.{need_lem, slice_bytes-append}
use conductor_ros.Cdr.Encode.{to_word, quot, rem, second, is_zero, encode_time, encode_duration}
use conductor_ros.Cdr.Decode.{
  from_word, zero_time, unix, strip_nul, read_time, read_duration, read_string, read_text,
}
use conductor_ros.Cdr.Words.{IsBelow, duration_of, to_word-lt_32}
use conductor_ros.Cdr.Reads.{Reads, Reads-pure, Reads-bind, Reads-u32}

pub strip_nul-append : (s : List ℕ) → strip_nul (s ++ 0 ∷ []) ≡ s
unfolding strip_nul
strip_nul-append [] = refl
strip_nul-append (b ∷ []) = refl
strip_nul-append (b ∷ (c ∷ s)) = ap (λ (l : List ℕ). b ∷ l) (strip_nul-append (c ∷ s))

Reads-two_words :
    (f : ℕ → ℕ → Value) (a b : ℕ) (v : Value) (pre : List ℕ)
    → a < 2 ^ 32
    → b < 2 ^ 32
    → f a b ≡ v
    → Reads
        (λ d. read_u32 d >>= λ (x, d'). read_u32 d' >>= λ (y, d''). ok (f x y, d''))
        v
        pre
        (u32 b (u32 a pre))
Reads-two_words f a b v pre ha hb e =
    Reads-bind read_u32 (λ (x, d'). read_u32 d' >>= λ (y, d''). ok (f x y, d'')) a v pre (u32 a pre)
      _ (Reads-u32 a pre ha)
      (Reads-bind read_u32 (λ (y, d''). ok (f a y, d'')) b v _ _ _ (Reads-u32 b (u32 a pre) hb)
        (rw e (Reads-pure v _)))

pub Reads-duration :
    (d d' : ℤ) (pre : List ℕ)
    → duration_of (to_word 32 (quot d second)) (to_word 32 (rem d second)) ≡ d'
    → Reads read_duration (Value.duration d') pre (encode_duration d pre)
unfolding read_duration encode_duration
Reads-duration d d' pre h =
    Reads-two_words _ _ _ _ pre (to_word-lt_32 _) (to_word-lt_32 _) (ap Value.duration h)

pub Reads-not_stamped :
    (pre : List ℕ) → Reads read_time (Value.time zero_time) pre (encode_time zero_time pre)
unfolding read_time encode_time is_zero
Reads-not_stamped pre = Reads-two_words _ 0 0 _ pre (omega arith) (omega arith) refl

stamped_words :
    (sec : ℤ) (nsec : ℕ)
    → IsBelow (2 ^ 31) sec
    → nsec < second
    → ¬ ((sec ≡ pos 0) × (nsec ≡ 0))
    → let a = to_word 32 sec in
      let b = nsec % 2 ^ 32 in
      (if a == 0 && b == 0 then zero_time else unix (from_word 32 a) b)
      ≡ record { sec = sec; nsec = nsec }
unfolding to_word from_word unix ◌+ℤ◌
stamped_words (pos zero) zero h fits n = absurd (n (refl, refl))
stamped_words (pos zero) (suc b) h fits n = ground arith
stamped_words (pos (suc a)) b h fits n = ground arith
stamped_words (negsuc a) b h fits n = ground arith

is_zero_stamped : (t : Time) → IsBelow (2 ^ 31) t.sec → is_zero t ≡ false
unfolding is_zero
is_zero_stamped t h = ground arith

pub Reads-stamped :
    (t : Time) (pre : List ℕ)
    → IsBelow (2 ^ 31) t.sec
    → t.nsec < second
    → ¬ ((t.sec ≡ pos 0) × (t.nsec ≡ 0))
    → Reads read_time (Value.time t) pre (encode_time t pre)
unfolding read_time encode_time
Reads-stamped t pre h fits n = rw (is_zero_stamped t h) (
    Reads-two_words _ _ _ _ pre (to_word-lt_32 _) (omega arith)
      (ap Value.time (stamped_words t.sec t.nsec h fits n)))

Reads-text :
    (s pre : List ℕ) → Reads (read_text (length s + 1)) (Value.string s) pre (pre ++ (s ++ 0 ∷ []))
unfolding read_text
Reads-text s pre = record {
  extends = (text, refl);
  reads = λ rest. rw (
    size,
    append_assoc pre text rest,
    need_lem (length text) pre (text ++ rest) (omega (arith, length-append text rest)),
    slice_bytes-append pre text rest,
    strip_nul-append s,
    ← length-append pre text,
  );
}
  where
    text : List ℕ
    text = s ++ 0 ∷ []

    size : length s + 1 ≡ length text
    size = sym (length-append s (0 ∷ []))

pub Reads-string :
    (s pre : List ℕ)
    → length s + 1 < 2 ^ 32
    → Reads read_string (Value.string s) pre (u32 (length s + 1) pre ++ (s ++ 0 ∷ []))
unfolding read_string
Reads-string s pre h =
    Reads-bind read_u32 (λ (n, d). read_text n d) (length s + 1) _ pre _ _
      (Reads-u32 (length s + 1) pre h) (Reads-text s _)
