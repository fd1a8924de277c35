-- ===== src/Mission/Wiring.antt =====
-- mission.go: what `wireMission` lets through.
use Prim.Native.String.{String}
use text.Mathlib.Text.{◌==◌ as str_eq}
use text.Mathlib.TextPositions.{eq_refl}
use conductor_ros.Prelude.Names.{str_eq-of}
use conductor_ros.Prelude.{
  ◌≡◌, ◌↔◌, ◌⊎◌, refl, sym, ap, ◌∙◌, Bool, true, false, not, ◌||◌, Option, none, some, List, [],
  ◌∷◌, ◌++◌, if◌then◌else◌, ◌==◌, length, inl, inr, Bool-cases, arith,
}
use conductor_ros.Mission.Wire.{
  StepDef, Machine, find_step, declared, is_bad, find_dup, find_bad, WireError, two_steps, no_steps,
  no_start, Wired, wired, refused, wire_machine, wire_mission,
}
use conductor_ros.Mission.Log.{Good}

-- Binding gives a step without a `next` tag the terminal step "done".
abbrev pub HasNext : List StepDef → Type 0
HasNext [] = Unit
HasNext (d ∷ ds) = (str_eq d.next "" ≡ false) × HasNext ds

found_next :
    (ds : List StepDef) (s : String) (d : StepDef)
    → HasNext ds
    → find_step ds s ≡ some d
    → str_eq d.next "" ≡ false
unfolding find_step
found_next [] s d n e = absurd (cc e)
found_next (x ∷ xs) s d (h, n) e = elim (Bool-cases (str_eq x.name s)) [
  | inl k ↦
      let here : some x ≡ some d = rw k at e in
      let one : x ≡ d = cc in ap (λ (y : StepDef). str_eq y.next "") (sym one) ∙ h
  | inr k ↦ found_next xs s d n (rw k at e)
]

-- Each step's targets are nothing, a terminal step or a declared one.
abbrev pub TargetsKnown : List StepDef → List StepDef → Type 0
TargetsKnown steps [] = Unit
TargetsKnown steps (d ∷ ds) =
    (is_bad steps d.next ≡ false) × (is_bad steps d.fail ≡ false) × TargetsKnown steps ds

abbrev pub NamesDistinct : List StepDef → Type 0
NamesDistinct [] = Unit
NamesDistinct (d ∷ ds) = (declared ds d.name ≡ false) × NamesDistinct ds

found_known :
    (steps ds : List StepDef) (s : String) (d : StepDef)
    → TargetsKnown steps ds
    → find_step ds s ≡ some d
    → (is_bad steps d.next ≡ false) × (is_bad steps d.fail ≡ false)
unfolding find_step
found_known steps [] s d h e = absurd (cc e)
found_known steps (x ∷ xs) s d (next, fail, h) e = elim (Bool-cases (str_eq x.name s)) [
  | inl k ↦
      let here : some x ≡ some d = rw k at e in
      let one : x ≡ d = cc in
      (
        ap (λ (y : StepDef). is_bad steps y.next) (sym one) ∙ next,
        ap (λ (y : StepDef). is_bad steps y.fail) (sym one) ∙ fail,
      )
  | inr k ↦ found_known steps xs s d h (rw k at e)
]

find_bad-none : (steps ds : List StepDef) → find_bad steps ds ≡ none → TargetsKnown steps ds
unfolding find_bad
find_bad-none steps [] h = tt
find_bad-none steps (d ∷ ds) h = elim (Bool-cases (is_bad steps d.next)) [
  | inl k ↦ absurd (cc (h, k))
  | inr next ↦ elim (Bool-cases (is_bad steps d.fail)) [
    | inl k ↦ absurd (cc (h, next, k))
    | inr fail ↦ (next, fail, find_bad-none steps ds (rw (next, fail) at h))
  ]
]

find_bad-known : (steps ds : List StepDef) → TargetsKnown steps ds → find_bad steps ds ≡ none
unfolding find_bad
find_bad-known steps [] k = refl
find_bad-known steps (d ∷ ds) (next, fail, k) = rw (next, fail) (find_bad-known steps ds k)

declared-snoc :
    (ds : List StepDef) (d : StepDef) (s : String)
    → declared (ds ++ d ∷ []) s ≡ (declared ds s || str_eq d.name s)
unfolding declared
declared-snoc [] d s = ground arith
declared-snoc (x ∷ xs) d s = ground (arith, declared-snoc xs d s)

-- The search for a name that occurs twice, and what it tells.
find_dup-none :
    (seen ds : List StepDef)
    → find_dup seen ds ≡ none
    → ((s : String) → declared ds s ≡ true → declared seen s ≡ false) × NamesDistinct ds
unfolding find_dup declared
find_dup-none seen [] h = (λ s k. absurd (cc k), tt)
find_dup-none seen (d ∷ ds) h = elim (Bool-cases (declared seen d.name)) [
  | inl k ↦ absurd (cc (h, k))
  | inr fresh ↦
      let (apart, distinct) = find_dup-none (seen ++ d ∷ []) ds (rw fresh at h) in
      (
        λ s k. elim (Bool-cases (str_eq d.name s)) [
          | inl e ↦ ap (declared seen) (sym (str_eq-of d.name s e)) ∙ fresh
          | inr e ↦ ground (arith, apart s (ground (arith, k, e)), declared-snoc seen d s)
        ],
        (
          elim (Bool-cases (declared ds d.name)) [
            | inl e ↦
                absurd (ground (arith, apart d.name e, declared-snoc seen d d.name, eq_refl d.name))
            | inr e ↦ e
          ],
          distinct,
        ),
      )
]

find_dup-distinct :
    (seen ds : List StepDef)
    → ((s : String) → declared ds s ≡ true → declared seen s ≡ false)
    → NamesDistinct ds
    → find_dup seen ds ≡ none
unfolding find_dup declared
find_dup-distinct seen [] h d = refl
find_dup-distinct seen (x ∷ xs) h (out, d) = rw (h x.name (rw (eq_refl x.name))) (
    find_dup-distinct (seen ++ x ∷ []) xs
      (λ s k. elim (Bool-cases (str_eq x.name s)) [
        | inl e ↦
            let same : x.name ≡ s = str_eq-of x.name s e in
            absurd (cc (ap (declared xs) same, out, k))
        | inr e ↦ ground (arith, h s (ground (arith, k, e)), declared-snoc seen x s)
      ])
      d)

-- The checks of wireMission, by their outcomes.
checked : Option String → Bool → Bool → Option WireError → Machine → List StepDef → Wired
checked dup empty starts bad m steps = elim dup [
  | some name ↦ refused (two_steps name)
  | none ↦
      if empty
      then refused no_steps
      else if not starts
      then refused (no_start m.start)
      else elim bad [
        | some e ↦ refused e
        | none ↦ wired (record { name = m.name; start = m.start; steps = steps })
      ]
]

wire_mission_lem :
    (m : Machine) (steps : List StepDef)
    → wire_mission (some m) steps
      ≡ checked
          (find_dup [] steps)
          (length steps == 0)
          (declared steps m.start)
          (find_bad steps steps)
          m
          steps
unfolding wire_mission wire_machine checked
wire_mission_lem m steps = refl

checked_passed :
    (dup : Option String) (empty starts : Bool) (bad : Option WireError) (m : Machine)
    (steps : List StepDef) (m' : Machine)
    → checked dup empty starts bad m steps ≡ wired m'
    → (dup ≡ none) × (starts ≡ true) × (bad ≡ none)
unfolding checked
checked_passed (some n) empty starts bad m steps m' e = absurd (cc e)
checked_passed none true starts bad m steps m' e = absurd (cc e)
checked_passed none false false bad m steps m' e = absurd (cc e)
checked_passed none false true (some b) m steps m' e = absurd (cc e)
checked_passed none false true none m steps m' e = (refl, refl, refl)

some_step :
    (steps : List StepDef) (s : String) → declared steps s ≡ true → (length steps == 0) ≡ false
unfolding declared
some_step [] s h = absurd (cc h)
some_step (d ∷ ds) s h = ground arith

-- What wireMission checks, in the code's own terms.
pub wire_mission_checks :
    (m : Machine) (steps : List StepDef)
    → let machine : Machine = record { name = m.name; start = m.start; steps = steps } in
      (wire_mission (some m) steps ≡ wired machine)
      ↔ (NamesDistinct steps × (declared steps m.start ≡ true) × TargetsKnown steps steps)
unfolding wire_mission wire_machine checked declared
wire_mission_checks m steps = (passed, passes)
  where
    passed :
        wire_mission (some m) steps
          ≡ wired (record { name = m.name; start = m.start; steps = steps })
        → NamesDistinct steps × (declared steps m.start ≡ true) × TargetsKnown steps steps
    passed w =
        let (dup, starts, bad) =
          checked_passed (find_dup [] steps) (length steps == 0) (declared steps m.start)
            (find_bad steps steps) m steps _ w in
        ((find_dup-none [] steps dup).1, starts, find_bad-none steps steps bad)

    passes :
        NamesDistinct steps × (declared steps m.start ≡ true) × TargetsKnown steps steps
        → wire_mission (some m) steps
          ≡ wired (record { name = m.name; start = m.start; steps = steps })
    passes (d, starts, k) =
        wire_mission_lem m steps
        ∙ rw
            (
              find_dup-distinct [] steps (λ s h. refl) d,
              some_step steps m.start starts,
              starts,
              find_bad-known steps steps k,
            )
            refl

-- A machine that was wired, of steps that were bound.
pub wired-Good :
    (m : Machine) (steps : List StepDef)
    → wire_mission (some m) steps ≡ wired (record { name = m.name; start = m.start; steps = steps })
    → HasNext steps
    → Good (record { name = m.name; start = m.start; steps = steps })
wired-Good m steps w n =
    let (d, starts, k) = (wire_mission_checks m steps).0 w in
    record {
      start_declared = starts;
      has_next = λ s d e. found_next steps s d n e;
      next_known = λ s d e. (found_known steps steps s d k e).0;
      fail_known = λ s d e. (found_known steps steps s d k e).1;
    }

-- A tag that is empty, a terminal step or a declared one.
abbrev pub Target : List StepDef → String → Type 0
Target steps t = (t ≡ "") ⊎ ((t ≡ "done") ⊎ ((t ≡ "failed") ⊎ (declared steps t ≡ true)))

abbrev pub TargetsFit : List StepDef → List StepDef → Type 0
TargetsFit steps [] = Unit
TargetsFit steps (d ∷ ds) = Target steps d.next × (Target steps d.fail × TargetsFit steps ds)

Target-iff : (steps : List StepDef) (t : String) → (is_bad steps t ≡ false) ↔ Target steps t
unfolding is_bad
Target-iff steps t = (
  λ h. elim (Bool-cases (str_eq t "")) [
    | inl e ↦ inl (str_eq-of t "" e)
    | inr a ↦ elim (Bool-cases (str_eq t "done")) [
      | inl e ↦ inr (inl (str_eq-of t "done" e))
      | inr b ↦ elim (Bool-cases (str_eq t "failed")) [
        | inl e ↦ inr (inr (inl (str_eq-of t "failed" e)))
        | inr c ↦ inr (inr (inr (ground (arith, h, a, b, c))))
      ]
    ]
  ],
  λ k. elim k [
    | inl e ↦ ap (is_bad steps) e
    | inr (inl e) ↦ ap (is_bad steps) e
    | inr (inr (inl e)) ↦ ap (is_bad steps) e
    | inr (inr (inr d)) ↦ ground (arith, d)
  ],
)

TargetsFit-iff : (steps ds : List StepDef) → TargetsKnown steps ds ↔ TargetsFit steps ds
TargetsFit-iff steps [] = (λ h. h, λ h. h)
TargetsFit-iff steps (d ∷ ds) = (
  λ (n, f, k). (
    (Target-iff steps d.next).0 n,
    ((Target-iff steps d.fail).0 f, (TargetsFit-iff steps ds).0 k),
  ),
  λ (n, (f, k)).
      ((Target-iff steps d.next).1 n, (Target-iff steps d.fail).1 f, (TargetsFit-iff steps ds).1 k),
)

-- wireMission accepts the steps of a mission exactly where there is one, their
-- names are distinct, the start tag names one of them, and each next and fail tag
-- names one of them or a terminal step or is empty; the machine then has those steps.
pub wire_mission_iff :
    (m : Machine) (steps : List StepDef)
    → let machine : Machine = record { name = m.name; start = m.start; steps = steps } in
      (wire_mission (some m) steps ≡ wired machine)
      ↔ (NamesDistinct steps × (declared steps m.start ≡ true) × TargetsFit steps steps)
wire_mission_iff m steps = (
  λ w.
      let (d, starts, k) = (wire_mission_checks m steps).0 w in
      (d, starts, (TargetsFit-iff steps steps).0 k),
  λ (d, starts, k). (wire_mission_checks m steps).1 (d, starts, (TargetsFit-iff steps steps).1 k),
)
