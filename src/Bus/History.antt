-- ===== src/Bus/History.antt =====
-- bus.go: the history that a latched topic keeps, and what one subscriber receives.
use conductor_ros.Prelude.{
  ℕ, zero, suc, ◌+◌, ◌-◌, ◌≤◌, ◌≡◌, refl, sym, ap, ◌∙◌, true, false, List, [], ◌∷◌, ◌++◌,
  if◌then◌else◌, ltb, ◌==◌, length, length-append, length-drop, drop, Bool-cases, inl, inr, arith,
}
use conductor_ros.Bus.Inproc.{Delivery, trim, fan_out, replay}

few : (n k : ℕ) → ltb k n ≡ false → 0 ≡ n - k
few n k e = ground arith

pub refl_eq : (n : ℕ) → (n == n) ≡ true
refl_eq n = ground arith

module _ {A : Type 0} where
  drop_none : (b : ℕ) → drop {A = A} b [] ≡ []
  drop_none zero = refl
  drop_none (suc b) = refl

  drop-drop : (a b : ℕ) (xs : List A) → drop b (drop a xs) ≡ drop (a + b) xs
  drop-drop zero b xs = ap (λ (n : ℕ). drop n xs) (omega arith)
  drop-drop (suc a) b [] = drop_none b ∙ sym (drop_none (suc a + b))
  drop-drop (suc a) b (x ∷ xs) =
      drop-drop a b xs
      ∙ ap (λ (n : ℕ). drop n (x ∷ xs)) (let e : suc (a + b) ≡ suc a + b = omega arith in e)

  drop_left : (a : ℕ) (xs ys : List A) → a ≤ length xs → drop a xs ++ ys ≡ drop a (xs ++ ys)
  drop_left zero xs ys h = refl
  drop_left (suc a) [] ys h = absurd (omega arith)
  drop_left (suc a) (x ∷ xs) ys h = drop_left a xs ys (omega arith)

  trim_lem : (k : ℕ) (xs : List A) → trim k xs ≡ drop (length xs - k) xs
  unfolding trim
  trim_lem k xs = elim (Bool-cases (ltb k (length xs))) [
    | inl e ↦ rw e refl
    | inr e ↦ rw e (ap (λ (n : ℕ). drop n xs) (few (length xs) k e))
  ]

  -- A history that was trimmed before is the same as one that is trimmed at last.
  pub trim-trim : (k : ℕ) (xs ys : List A) → trim k (trim k xs ++ ys) ≡ trim k (xs ++ ys)
  trim-trim k xs ys =
      let a = length xs - k in
      trim_lem k (trim k xs ++ ys)
      ∙ ap (λ (zs : List A). drop (length (zs ++ ys) - k) (zs ++ ys)) (trim_lem k xs)
      ∙ ap (drop (length (drop a xs ++ ys) - k)) (drop_left a xs ys (omega arith))
      ∙ drop-drop a (length (drop a xs ++ ys) - k) (xs ++ ys)
      ∙ ap (λ (n : ℕ). drop n (xs ++ ys))
          (omega (arith, length-append (drop a xs) ys, length-drop a xs, length-append xs ys))
      ∙ sym (trim_lem k (xs ++ ys))

  pub length-trim : (k : ℕ) (xs : List A) → length (trim k xs) ≤ k
  unfolding trim
  length-trim k xs = ground (arith, length-drop (length xs - k) xs)

-- How often a subscriber is registered.
unfoldable pub times : ℕ → List ℕ → ℕ
times s [] = 0
times s (x ∷ xs) = let rest = times s xs in if x == s then suc rest else rest

unfoldable pub repeat : {A : Type 0} → ℕ → A → List A
repeat zero m = []
repeat (suc n) m = m ∷ repeat n m

module _ {A : Type 0} where
  -- What one subscriber is called with.
  unfoldable pub received : ℕ → List (Delivery A) → List A
  received s [] = []
  received s (d ∷ ds) = let rest = received s ds in if d.to == s then d.msg ∷ rest else rest

  pub received-append :
      (s : ℕ) (xs ys : List (Delivery A)) → received s (xs ++ ys) ≡ received s xs ++ received s ys
  unfolding received
  received-append s [] ys = refl
  received-append s (d ∷ xs) ys = elim (Bool-cases (d.to == s)) [
    | inl e ↦ rw e (ap (λ (zs : List A). d.msg ∷ zs) (received-append s xs ys))
    | inr e ↦ rw e (received-append s xs ys)
  ]

  pub received-fan_out :
      (s : ℕ) (m : A) (ss : List ℕ) → received s (fan_out m ss) ≡ repeat (times s ss) m
  unfolding received fan_out times repeat
  received-fan_out s m [] = refl
  received-fan_out s m (x ∷ ss) = elim (Bool-cases (x == s)) [
    | inl e ↦ rw e (ap (λ (zs : List A). m ∷ zs) (received-fan_out s m ss))
    | inr e ↦ rw e (received-fan_out s m ss)
  ]

  pub received-replay : (s : ℕ) (ms : List A) → received s (replay s ms) ≡ ms
  unfolding received replay
  received-replay s [] = refl
  received-replay s (m ∷ ms) = rw (refl_eq s) (ap (λ (zs : List A). m ∷ zs) (received-replay s ms))

pub times-append : (s : ℕ) (xs ys : List ℕ) → times s (xs ++ ys) ≡ times s xs + times s ys
unfolding times
times-append s [] ys = omega arith
times-append s (x ∷ xs) ys = ground (arith, times-append s xs ys)
