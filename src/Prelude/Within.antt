-- ===== src/Prelude/Within.antt =====
-- Being an element of a list.
use mathlib.Core.Path.{◌≡◌, refl, sym, subst, ap}
use mathlib.Core.Logic.{◌⊎◌, inl, inr}
use mathlib.Core.List.{List, [], ◌∷◌, ◌++◌, map}
use conductor_ros.Prelude.Lists.{All}

module _ {A : Type 0} where
  abbrev pub Within : A → List A → Type 0
  Within x [] = ⊥
  Within x (y ∷ ys) = (x ≡ y) ⊎ Within x ys

  pub Within-left : (x : A) (xs ys : List A) → Within x xs → Within x (xs ++ ys)
  Within-left x [] ys h = absurd h
  Within-left x (y ∷ xs) ys (inl e) = inl e
  Within-left x (y ∷ xs) ys (inr h) = inr (Within-left x xs ys h)

  pub Within-right : (x : A) (xs ys : List A) → Within x ys → Within x (xs ++ ys)
  Within-right x [] ys h = h
  Within-right x (y ∷ xs) ys h = inr (Within-right x xs ys h)

  pub All-get {κ} : (P : A → Type κ) (xs : List A) (x : A) → All P xs → Within x xs → P x
  All-get P [] x hs h = absurd h
  All-get P (y ∷ xs) x (h, hs) (inl e) = subst P (sym e) h
  All-get P (y ∷ xs) x (h, hs) (inr k) = All-get P xs x hs k

  pub All-each {κ} : (P : A → Type κ) (xs : List A) → ((x : A) → Within x xs → P x) → All P xs
  All-each P [] f = tt
  All-each P (x ∷ xs) f = (f x (inl refl), All-each P xs (λ y h. f y (inr h)))

  pub All-map {κ κ'} :
      {P : A → Type κ} {Q : A → Type κ'}
      → (xs : List A) → ((x : A) → P x → Q x)
      → All P xs
      → All Q xs
  All-map [] f h = tt
  All-map (x ∷ xs) f (h, hs) = (f x h, All-map xs f hs)

module _ {A B : Type 0} where
  pub Within-map : (f : A → B) (x : A) (xs : List A) → Within x xs → Within (f x) (map f xs)
  Within-map f x [] h = absurd h
  Within-map f x (y ∷ xs) (inl e) = inl (ap f e)
  Within-map f x (y ∷ xs) (inr h) = inr (Within-map f x xs h)
