-- ===== src/Graph/Silent.antt =====
-- internal/graph/graph.go: when a list of issues has no error, by how it was made.
use Prim.Native.String.{String}
use conductor_ros.Prelude.{
  ◌≡◌, refl, ap, ◌∙◌, ◌↔◌, Bool, true, false, ◌||◌, List, [], ◌∷◌, ◌++◌, if◌then◌else◌, All,
  Bool-cases, inl, inr, arith,
}
use conductor_ros.Prelude.Iff.{◌then_iff◌, both_iff, or-false_iff, All-iff}
use conductor_ros.Graph.Issues.{
  Pos, Issue, is_error, errors, report, warn, when, gather, place_issue, sort_issues,
}

pub errors-append : (xs ys : List Issue) → errors (xs ++ ys) ≡ (errors xs || errors ys)
unfolding errors
errors-append [] ys = refl
errors-append (x ∷ xs) ys = ground (arith, errors-append xs ys)

abbrev pub Silent : List Issue → Type 0
Silent is = errors is ≡ false

pub Silent-append : (xs ys : List Issue) → Silent (xs ++ ys) ↔ (Silent xs × Silent ys)
Silent-append xs ys = rw errors-append (or-false_iff (errors xs) (errors ys))

pub Silent-gather {ℓ} :
    {A : Type ℓ}
    → (f : A → List Issue) (xs : List A) → Silent (gather f xs) ↔ All (λ x. Silent (f x)) xs
unfolding errors gather
Silent-gather f [] = (λ h. tt, λ h. refl)
Silent-gather f (x ∷ xs) =
    Silent-append (f x) (gather f xs) then_iff both_iff (λ h. h, λ h. h) (Silent-gather f xs)

pub Silent-when : (c : Bool) (is : List Issue) → Silent (when c is) ↔ (c ≡ true → Silent is)
unfolding errors when
Silent-when true is = (λ h e. h, λ h. h refl)
Silent-when false is = (λ h e. absurd (cc e), λ h. refl)

-- The two parts of a list of issues, each said in its own terms.
pub append_iff {ℓ ℓ'} :
    {P : Type ℓ} {Q : Type ℓ'}
    → (xs ys : List Issue) → (Silent xs ↔ P)
    → (Silent ys ↔ Q)
    → Silent (xs ++ ys) ↔ (P × Q)
append_iff xs ys f g = Silent-append xs ys then_iff both_iff f g

pub gather_iff {ℓ ℓ'} :
    {A : Type ℓ} {P : A → Type ℓ'}
    → (f : A → List Issue) → ((x : A) → Silent (f x) ↔ P x)
    → (xs : List A) → Silent (gather f xs) ↔ All P xs
gather_iff f h xs = Silent-gather f xs then_iff All-iff h xs

-- A part that has no error says nothing.
pub append-Silent {ℓ} :
    {P : Type ℓ} → (xs ys : List Issue) → (Silent xs ↔ P) → Silent ys → Silent (xs ++ ys) ↔ P
append-Silent xs ys f quiet = Silent-append xs ys then_iff (λ (h, k). f.0 h, λ p. (f.1 p, quiet))

-- A guarded error is silent where its guard is not met.
pub Silent-report :
    (c : Bool) (code : String) (pos : Pos) → Silent (when c (report code pos)) ↔ (c ≡ false)
unfolding errors when
Silent-report true code pos = (λ h. h, λ h. h)
Silent-report false code pos = (λ h. h, λ h. h)

pub Silent-warn : (c : Bool) (code : String) (pos : Pos) → Silent (when c (warn code pos))
unfolding errors when
Silent-warn true code pos = refl
Silent-warn false code pos = refl

pub gather-Silent {ℓ} :
    {A : Type ℓ}
    → (f : A → List Issue) → ((x : A) → Silent (f x))
    → (xs : List A) → Silent (gather f xs)
unfolding errors gather
gather-Silent f quiet [] = refl
gather-Silent f quiet (x ∷ xs) =
    (Silent-append (f x) (gather f xs)).1 (quiet x, gather-Silent f quiet xs)

pub Silent-nil : Silent []
unfolding errors
Silent-nil = refl

pub Silent-warned : (code : String) (pos : Pos) → Silent (warn code pos)
unfolding errors
Silent-warned code pos = refl

pub report_loud : (code : String) (pos : Pos) → ¬ Silent (report code pos)
unfolding errors
report_loud code pos h = cc h

-- The errors of a list, and its warnings, in their order.
unfoldable pub only : Bool → List Issue → List Issue
only b [] = []
only b (i ∷ is) =
    let rest = only b is in
    if is_error i then (if b then i ∷ rest else rest) else (if b then rest else i ∷ rest)

place_issue-error : (i : Issue) (xs : List Issue) → is_error i ≡ true → place_issue i xs ≡ i ∷ xs
unfolding place_issue
place_issue-error i [] h = refl
place_issue-error i (x ∷ xs) h = elim (Bool-cases (is_error x)) [
  | inl e ↦ rw (e, h) refl
  | inr e ↦ rw e refl
]

place_issue-warnings :
    (i : Issue) (xs : List Issue) → place_issue i (only false xs) ≡ i ∷ only false xs
unfolding place_issue only
place_issue-warnings i [] = refl
place_issue-warnings i (x ∷ xs) = elim (Bool-cases (is_error x)) [
  | inl e ↦ rw e (place_issue-warnings i xs)
  | inr e ↦ rw (e, e) refl
]

-- A warning goes behind the errors.
place_issue-behind :
    (i : Issue) (xs ys : List Issue)
    → is_error i ≡ false
    → place_issue i ys ≡ i ∷ ys
    → place_issue i (only true xs ++ ys) ≡ only true xs ++ i ∷ ys
unfolding place_issue only
place_issue-behind i [] ys h k = k
place_issue-behind i (x ∷ xs) ys h k = elim (Bool-cases (is_error x)) [
  | inl e ↦ rw (e, e, h) (ap (λ zs. x ∷ zs) (place_issue-behind i xs ys h k))
  | inr e ↦ rw e (place_issue-behind i xs ys h k)
]

-- Sorting the issues puts the errors before the warnings and keeps the order within each.
pub sort_issues_lem : (is : List Issue) → sort_issues is ≡ only true is ++ only false is
unfolding sort_issues only
sort_issues_lem [] = refl
sort_issues_lem (i ∷ is) =
    ap (place_issue i) (sort_issues_lem is) ∙ elim (Bool-cases (is_error i)) [
      | inl e ↦ place_issue-error i (only true is ++ only false is) e ∙ rw e refl
      | inr e ↦ place_issue-behind i is (only false is) e (place_issue-warnings i is) ∙ rw e refl
    ]

errors-only-false : (is : List Issue) → Silent (only false is)
unfolding errors only
errors-only-false [] = refl
errors-only-false (i ∷ is) = elim (Bool-cases (is_error i)) [
  | inl e ↦ rw e (errors-only-false is)
  | inr e ↦ rw (e, e) (errors-only-false is)
]

errors-only-true : (is : List Issue) → errors (only true is) ≡ errors is
unfolding errors only
errors-only-true [] = refl
errors-only-true (i ∷ is) = elim (Bool-cases (is_error i)) [
  | inl e ↦ rw (e, e) refl
  | inr e ↦ rw e (errors-only-true is)
]

pub errors-sort_issues : (is : List Issue) → errors (sort_issues is) ≡ errors is
errors-sort_issues is =
    ap errors (sort_issues_lem is)
    ∙ errors-append (only true is) (only false is)
    ∙ rw (errors-only-true is, errors-only-false is) (ground arith)
