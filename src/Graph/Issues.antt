-- ===== src/Graph/Issues.antt =====
-- internal/graph/graph.go: issues, whether some of them is an error, and errors first.
use Prim.Native.String.{String}
use conductor_ros.Prelude.{
  ℕ, Bool, true, false, not, ◌&&◌, ◌||◌, List, [], ◌∷◌, ◌++◌, if◌then◌else◌,
}

pub data Severity : Type 0 where
  error warning : Severity

-- `Pos`, "file:line", a file or nothing.
pub data Pos : Type 0 where
  nowhere : Pos
  at : String → ℕ → Pos
  whole : String → Pos

-- `Issue`, without the text of its message.
pub record Issue : Type 0 where
  pub severity : Severity
  pub code : String
  pub pos : Pos

abbrev pub is_error : Issue → Bool
is_error i = elim i.severity [ error ↦ true | warning ↦ false ]

-- `Errors`.
unfoldable pub errors : List Issue → Bool
errors [] = false
errors (i ∷ is) = is_error i || errors is

-- `add`, of an error and of a warning.
abbrev pub report : String → Pos → List Issue
report code pos = record { severity = error; code = code; pos = pos } ∷ []

abbrev pub warn : String → Pos → List Issue
warn code pos = record { severity = warning; code = code; pos = pos } ∷ []

-- `if c { add(...) }`.
unfoldable pub when : Bool → List Issue → List Issue
when c is = if c then is else []

-- What a loop adds, in the order of its rounds.
module _ {ℓ} {A : Type ℓ} where
  unfoldable pub gather : (A → List Issue) → List A → List Issue
  gather f [] = []
  gather f (x ∷ xs) = f x ++ gather f xs

-- `sort.SliceStable` by "an error comes before a warning".
unfoldable pub place_issue : Issue → List Issue → List Issue
place_issue i [] = i ∷ []
place_issue i (j ∷ js) =
    let rest = place_issue i js in if is_error j && not (is_error i) then j ∷ rest else i ∷ (j ∷ js)

unfoldable pub sort_issues : List Issue → List Issue
unfolding place_issue
sort_issues [] = []
sort_issues (i ∷ is) = place_issue i (sort_issues is)
