-- ===== src/Mission/Count.antt =====
-- mission.go: `parseCount`, which reads the retry tag. A string is its runes; an int has 64 bits,
-- and a count is given by its word.
use conductor_ros.Prelude.{
  ℕ, ◌+◌, ◌-◌, ◌*◌, ◌%◌, ◌^◌, ◌≡◌, refl, ap, ◌∙◌, Bool, true, false, not, ◌&&◌, ◌||◌, Option, none,
  some, List, [], ◌∷◌, if◌then◌else◌, ltb, ◌==◌, length, Bool-cases, inl, inr, arith,
}

abbrev pub is_digit : ℕ → Bool
is_digit r = not (ltb r 48 || ltb 57 r)

unfoldable pub count_loop : ℕ → List ℕ → Option ℕ
count_loop n [] = some n
count_loop n (r ∷ rs) =
    let rest = count_loop ((n * 10 + (r - 48)) % 2 ^ 64) rs in
    if ltb r 48 || ltb 57 r then none else rest

unfoldable pub parse_count : List ℕ → Option ℕ
unfolding count_loop
parse_count s = elim (count_loop 0 s) [
  | none ↦ none
  | some n ↦ if length s == 0 then none else some n
]

-- What a string of digits means, without a bound.
unfoldable pub decimal : ℕ → List ℕ → ℕ
decimal n [] = n
decimal n (r ∷ rs) = decimal (n * 10 + (r - 48)) rs

unfoldable pub all_digits : List ℕ → Bool
all_digits [] = true
all_digits (r ∷ rs) = is_digit r && all_digits rs

wrap_step : (n d : ℕ) → ((n % 2 ^ 64) * 10 + d) % 2 ^ 64 ≡ (n * 10 + d) % 2 ^ 64
wrap_step n d = omega arith

count_loop_lem :
    (n : ℕ) (s : List ℕ)
    → count_loop (n % 2 ^ 64) s ≡ (if all_digits s then some (decimal n s % 2 ^ 64) else none)
unfolding count_loop all_digits decimal
count_loop_lem n [] = refl
count_loop_lem n (r ∷ rs) = elim (Bool-cases (ltb r 48 || ltb 57 r)) [
  | inl e ↦ rw e refl
  | inr e ↦ rw e (
      ap (λ (k : ℕ). count_loop k rs) (wrap_step n (r - 48))
      ∙ count_loop_lem (n * 10 + (r - 48)) rs)
]

-- parseCount accepts exactly the strings of one digit or more, and gives what they mean modulo
-- 2 ^ 64.
pub parse_count_lem :
    (s : List ℕ)
    → parse_count s
      ≡ (if not (length s == 0) && all_digits s then some (decimal 0 s % 2 ^ 64) else none)
unfolding parse_count count_loop
parse_count_lem [] = refl
parse_count_lem (r ∷ rs) =
    let s : List ℕ = r ∷ rs in
    ap
      (λ (k : Option ℕ). elim k as (λ _. Option ℕ) [
        | none ↦ none
        | some n ↦ if length s == 0 then none else some n
      ])
      (count_loop_lem 0 s)
    ∙ checked (all_digits s) (length s == 0) (decimal 0 s % 2 ^ 64)
  where
    checked :
        (digits empty : Bool) (n : ℕ)
        → (elim (if digits then some n else none) as (λ _. Option ℕ) [
          | none ↦ none
          | some k ↦ if empty then none else some k
        ])
          ≡ (if not empty && digits then some n else none)
    checked true true n = refl
    checked true false n = refl
    checked false true n = refl
    checked false false n = refl
