-- ===== src/Prelude/Iff.antt =====
-- Equivalences put together.
use mathlib.Core.Path.{◌≡◌, refl, sym}
use mathlib.Core.Logic.{◌↔◌}
use mathlib.Core.Bool.{Bool, true, false, not, ◌&&◌, ◌||◌}
use mathlib.Core.Option.{Option, none, some}
use conductor_ros.Prelude.Tests.{is_some}
use mathlib.Core.List.{List, [], ◌∷◌}
use conductor_ros.Prelude.Lists.{All}

infixr 1 ◌then_iff◌
abbrev pub ◌then_iff◌ {ℓ ℓ' ℓ''} :
    {A : Type ℓ} {B : Type ℓ'} {C : Type ℓ''} → (A ↔ B) → (B ↔ C) → (A ↔ C)
f then_iff g = (λ a. g.0 (f.0 a), λ c. f.1 (g.1 c))

abbrev pub both_iff {ℓ ℓ' κ κ'} :
    {A : Type ℓ} {A' : Type ℓ'} {B : Type κ} {B' : Type κ'}
    → (A ↔ A')
    → (B ↔ B')
    → (A × B ↔ A' × B')
both_iff f g = (λ (a, b). (f.0 a, g.0 b), λ (a, b). (f.1 a, g.1 b))

abbrev pub arrow_iff {ℓ κ κ'} :
    {A : Type ℓ} {B : Type κ} {B' : Type κ'} → (B ↔ B') → ((A → B) ↔ (A → B'))
arrow_iff g = (λ h a. g.0 (h a), λ h a. g.1 (h a))

pub All-iff {ℓ κ κ'} :
    {A : Type ℓ} {P : A → Type κ} {Q : A → Type κ'}
    → ((x : A) → P x ↔ Q x)
    → (xs : List A) → All P xs ↔ All Q xs
All-iff f [] = (λ h. tt, λ h. tt)
All-iff f (x ∷ xs) = both_iff (f x) (All-iff f xs)

-- What is false of a test is true of its opposite.
pub not-false_iff : (b : Bool) → (not b ≡ false) ↔ (b ≡ true)
not-false_iff true = (λ h. refl, λ h. refl)
not-false_iff false = (sym, sym)

pub or-false_iff : (a b : Bool) → ((a || b) ≡ false) ↔ ((a ≡ false) × (b ≡ false))
or-false_iff true b = (λ h. (h, absurd (cc h)), λ (h, k). h)
or-false_iff false b = (λ h. (refl, h), λ (h, k). k)

pub is_some_iff {ℓ} : {A : Type ℓ} (o : Option A) → (is_some o ≡ true) ↔ ((a : A) × (o ≡ some a))
is_some_iff none = (λ h. absurd (cc h), λ (a, h). absurd (cc h))
is_some_iff (some a) = (λ h. (a, refl), λ h. refl)

-- A guard that is met exactly where something is not so.
pub unless_iff {ℓ} : {P : Type ℓ} (b : Bool) → ((b ≡ true) ↔ P) → (not b ≡ false) ↔ P
unless_iff b f = not-false_iff b then_iff f

-- A condition on what is given.
pub guarded_iff : (a b : Bool) → ((a && b) ≡ false) ↔ (a ≡ true → b ≡ false)
guarded_iff true b = (λ h e. h, λ h. h refl)
guarded_iff false b = (λ h e. absurd (cc e), λ h. refl)

-- Three guards of a report: none, two or one of its conditions is a negation.
pub refused_iff : (a b : Bool) → ((not a && not b) ≡ false) ↔ (a ≡ false → b ≡ true)
refused_iff true b = (λ h e. absurd (cc e), λ h. refl)
refused_iff false b = not-false_iff b then_iff (λ h e. h, λ h. h refl)

pub either_iff :
    (a b c : Bool) → ((not (a || b) && not c) ≡ false) ↔ (a ≡ false → b ≡ false → c ≡ true)
either_iff true b c = (λ h e. absurd (cc e), λ h. refl)
either_iff false b c = refused_iff b c then_iff (λ h e. h, λ h. h refl)

pub present_iff : (a b : Bool) → ((a || not b) ≡ false) ↔ ((a ≡ false) × (b ≡ true))
present_iff a b = or-false_iff a (not b) then_iff both_iff (λ h. h, λ h. h) (not-false_iff b)

pub times_assoc_iff {ℓ ℓ' ℓ''} :
    {A : Type ℓ} {B : Type ℓ'} {C : Type ℓ''} → ((A × B) × C) ↔ (A × (B × C))
times_assoc_iff = (λ ((a, b), c). (a, (b, c)), λ (a, (b, c)). ((a, b), c))

pub some_inj {ℓ} : {A : Type ℓ} → (a b : A) → some a ≡ some b → a ≡ b
some_inj a b e = cc e
