-- ===== src/Graph/Wires.antt =====
-- internal/graph/mission.go and mission.go: a mission that passes the static checks is wired.
use Prim.Native.String.{String}
use text.Mathlib.Text.{◌==◌ as str_eq}
use conductor_ros.Prelude.{
  Bool, ℕ, zero, suc, ◌≡◌, refl, sym, ap, ◌∙◌, true, false, Option, none, some, is_some, List, [],
  ◌∷◌, map, All, if◌then◌else◌, if_case, Bool-cases, inl, inr, arith,
}
use conductor_ros.Prelude.Int.{ℤ, pos, negsuc}
use conductor_ros.Prelude.Iff.{is_some_iff}
use conductor_ros.Prelude.Names.{mem, Distinct}
use conductor_ros.Prelude.Texts.{runes}
use conductor_ros.Mission.Wire.{
  StepDef, Machine, declared, is_bad, Wired, idle, wired, wire_mission,
}
use conductor_ros.Mission.Wiring.{NamesDistinct, TargetsKnown, wire_mission_checks}
use conductor_ros.Mission.Count.{parse_count}
use conductor_ros.Mission.Binding.{
  StepTags, MissionTags, positive_of, nonnegative_of, tag_value, bind_step, bind_steps,
  bind_missions, node_mission, retries_of,
}
use conductor_ros.Graph.Scan.{MissionDecl, StepDecl, Node, App}
use conductor_ros.Prelude.Within.{All-get, All-each}
use conductor_ros.Graph.Issues.{errors}
use conductor_ros.Graph.Validate.{validate}
use conductor_ros.Graph.Sound.Promise.{validate-Clean}
use conductor_ros.Graph.Std.{Std, is_positive, is_nonnegative}
use conductor_ros.Graph.Missions.{declared_names}
use conductor_ros.Graph.Clean.{Given, Known, StepOk, MissionOk}

-- The tags that the scanner has read, as binding reads them; `typed` says of which fields the
-- handler is a func(*Task) error, of which the static check counts the parameters and results only.
abbrev pub tags_of : (String → Bool) → StepDecl → StepTags
tags_of typed s = record {
  field = s.field;
  name = s.name;
  next = s.next;
  fail = s.fail;
  timeout = s.timeout;
  retry = s.retry;
  backoff = s.backoff;
  handled = typed s.field;
}

abbrev pub mission_tags : MissionDecl → MissionTags
mission_tags m = record { name = m.name; start = m.start }

-- A retry tag, if there is one, is a count in digits.
abbrev pub CountOk : StepDecl → Type 0
CountOk s = Given s.retry → is_some (parse_count (runes s.retry)) ≡ true

tag_value-some :
    (tag : String) (parsed : Option ℕ)
    → (Given tag → is_some parsed ≡ true)
    → (n : ℕ) × (tag_value tag parsed ≡ some n)
tag_value-some tag parsed h = elim (Bool-cases (str_eq tag "")) [
  | inl e ↦ (0, rw e refl)
  | inr e ↦ let (n, k) = (is_some_iff parsed).0 (h e) in (n, rw e k)
]

positive_of-some : (d : Option ℤ) → is_positive d ≡ true → is_some (positive_of d) ≡ true
positive_of-some none h = h
positive_of-some (some (pos zero)) h = h
positive_of-some (some (pos (suc n))) h = refl
positive_of-some (some (negsuc n)) h = h

nonnegative_of-some : (d : Option ℤ) → is_nonnegative d ≡ true → is_some (nonnegative_of d) ≡ true
nonnegative_of-some none h = h
nonnegative_of-some (some (pos n)) h = refl
nonnegative_of-some (some (negsuc n)) h = h

abbrev next_of : StepDecl → String
next_of s = if str_eq s.next "" then "done" else s.next

-- What a bound step keeps of its declaration.
record Keeps (s : StepDecl) (d : StepDef) : Type 0 where
  name : d.name ≡ s.name
  next : d.next ≡ next_of s
  fail : d.fail ≡ s.fail

abbrev AllKeep : List StepDecl → List StepDef → Type 0
AllKeep [] [] = Unit
AllKeep [] (d ∷ ds) = ⊥
AllKeep (s ∷ ss) [] = ⊥
AllKeep (s ∷ ss) (d ∷ ds) = Keeps s d × AllKeep ss ds

module _ (std : Std) (n : Node) (typed : String → Bool) where
  step_binds :
      (s : StepDecl)
      → StepOk std n s
      → CountOk s × (typed s.field ≡ true)
      → (d : StepDef) × (bind_step std.parse_duration (tags_of typed s) ≡ some d) × Keeps s d
  unfolding bind_step
  step_binds s (handled, (next, (fail, (gotos, (timeout, (backoff, retry)))))) (count, right) =
      let (t, et) =
        tag_value-some s.timeout (positive_of (std.parse_duration s.timeout))
          (λ g. positive_of-some (std.parse_duration s.timeout) (timeout g)) in
      let (b, eb) =
        tag_value-some s.backoff (nonnegative_of (std.parse_duration s.backoff))
          (λ g. nonnegative_of-some (std.parse_duration s.backoff) (backoff g)) in
      let (r, er) = tag_value-some s.retry (parse_count (runes s.retry)) count in
      (
        record {
          name = s.name;
          field = s.field;
          next = next_of s;
          fail = s.fail;
          timeout = t;
          retry = retries_of r;
          backoff = b;
        },
        rw (right, et, eb, er) refl,
        record { name = refl; next = refl; fail = refl },
      )

  steps_bind :
      (ss : List StepDecl)
      → All (StepOk std n) ss
      → All (λ (s : StepDecl). CountOk s × (typed s.field ≡ true)) ss
      → (ds : List StepDef) × (bind_steps std.parse_duration (map (tags_of typed) ss) ≡ some ds)
        × AllKeep ss ds
  unfolding bind_steps
  steps_bind [] ok count = ([], refl, tt)
  steps_bind (s ∷ ss) (ok, oks) (count, counts) =
      let (d, e, k) = step_binds s ok count in
      let (ds, es, ks) = steps_bind ss oks counts in (d ∷ ds, rw (e, es) refl, (k, ks))

declared-keeps :
    (ss : List StepDecl) (ds : List StepDef) (name : String)
    → AllKeep ss ds
    → declared ds name ≡ mem name (declared_names ss)
unfolding declared mem
declared-keeps [] [] name k = refl
declared-keeps [] (d ∷ ds) name k = absurd k
declared-keeps (s ∷ ss) [] name k = absurd k
declared-keeps (s ∷ ss) (d ∷ ds) name (k, ks) =
    ground (arith, ap (λ x. str_eq x name) k.name, declared-keeps ss ds name ks)

Distinct-keep :
    (ss : List StepDecl) (ds : List StepDef)
    → AllKeep ss ds
    → Distinct (declared_names ss)
    → NamesDistinct ds
Distinct-keep [] [] k d = tt
Distinct-keep [] (x ∷ ds) k d = absurd k
Distinct-keep (s ∷ ss) [] k d = tt
Distinct-keep (s ∷ ss) (x ∷ ds) (k, ks) (once, d) = (
  declared-keeps ss ds x.name ks ∙ ap (λ y. mem y (declared_names ss)) k.name ∙ once,
  Distinct-keep ss ds ks d,
)

-- A target that the static check knows is not bad at run time.
Known-target :
    (ds : List StepDef) (names : List String) (t : String)
    → ((x : String) → declared ds x ≡ mem x names)
    → (Given t → Known names t)
    → is_bad ds t ≡ false
unfolding is_bad
Known-target ds names t same h = ground (arith, same t, h)

next_known :
    (ds : List StepDef) (s : StepDecl) → is_bad ds s.next ≡ false → is_bad ds (next_of s) ≡ false
unfolding is_bad
next_known ds s h = if_case (λ x. is_bad ds x ≡ false) (str_eq s.next "") (λ e. refl) (λ e. h)

targets_keep :
    (std : Std) (n : Node) (names : List String) (ss : List StepDecl) (whole ds : List StepDef)
    → ((x : String) → declared whole x ≡ mem x names)
    → declared_names n.steps ≡ names
    → All (StepOk std n) ss
    → AllKeep ss ds
    → TargetsKnown whole ds
targets_keep std n names [] whole [] same e ok k = tt
targets_keep std n names [] whole (d ∷ ds) same e ok k = absurd k
targets_keep std n names (s ∷ ss) whole [] same e ok k = tt
targets_keep std n names (s ∷ ss) whole (d ∷ ds) same e ((handled, (next, (fail, more))), ok)
      (k, ks) =
    (
      ap (is_bad whole) k.next
          ∙ next_known whole s (
              Known-target whole (declared_names n.steps) s.next (λ x. same x ∙ ap (mem x) (sym e))
                next),
      ap (is_bad whole) k.fail
          ∙ Known-target whole (declared_names n.steps) s.fail (λ x. same x ∙ ap (mem x) (sym e))
              fail,
      targets_keep std n names ss whole ds same e ok ks,
    )

-- The mission of a node, bound and wired as the runtime does it.
abbrev pub run_time : Std → (String → Bool) → List MissionDecl → List StepDecl → Option Wired
run_time std typed ms ss =
    node_mission std.parse_duration (map mission_tags ms) (map (tags_of typed) ss)

-- Nothing to wire, or the machine of the one mission, of all its steps.
abbrev pub Wires : Std → (String → Bool) → List MissionDecl → List StepDecl → Type 0
Wires std typed [] ss = run_time std typed [] ss ≡ some idle
Wires std typed (m ∷ ms) ss =
    (ds : List StepDef) × (bind_steps std.parse_duration (map (tags_of typed) ss) ≡ some ds)
    × (run_time std typed (m ∷ ms) ss
        ≡ some (wired (record { name = m.name; start = m.start; steps = ds })))

mission-Wires :
    (std : Std) (n : Node) (typed : String → Bool) (ms : List MissionDecl) (ss : List StepDecl)
    → n.steps ≡ ss
    → MissionOk std n ms ss
    → Distinct (declared_names ss)
    → All (λ (s : StepDecl). CountOk s × (typed s.field ≡ true)) ss
    → Wires std typed ms ss
unfolding node_mission bind_missions bind_steps wire_mission
mission-Wires std n typed [] [] e ok d counts = refl
mission-Wires std n typed [] (s ∷ ss) e ok d counts = absurd ok
mission-Wires std n typed (m ∷ second ∷ more) ss e ok d counts = absurd ok
mission-Wires std n typed (m ∷ []) ss e (given, (starts, steps)) d counts =
    let (ds, bound, k) = steps_bind std n typed ss steps counts in
    let machine : Machine = record { name = m.name; start = m.start; steps = [] } in
    let accepted : wire_mission (some machine) ds
        ≡ wired (record { name = m.name; start = m.start; steps = ds }) =
      (wire_mission_checks machine ds).1 (
        Distinct-keep ss ds k d,
        declared-keeps ss ds m.start k ∙ starts,
        targets_keep std n (declared_names ss) ss ds ds (λ x. declared-keeps ss ds x k)
            (ap declared_names e) steps k,
      ) in
    (ds, bound, rw (given, bound) (ap (λ w. some w) accepted))

-- What the static check cannot see or does not check of the steps of a node.
abbrev pub StepsFit : (String → Bool) → Node → Type 0
StepsFit typed n =
    Distinct (declared_names n.steps)
    × All (λ (s : StepDecl). CountOk s × (typed s.field ≡ true)) n.steps

-- Where Validate reports no error, the names of each node's steps are distinct, their retry tags
-- are counts in digits and their handlers functions from a *Task to an error, the runtime binds
-- and wires the mission of every node, of all its steps; a node without one has nothing to wire.
pub validate-Wires :
    (std : Std) (app : App) (typed : Node → String → Bool)
    → errors (validate std app) ≡ false
    → All (λ (n : Node). StepsFit (typed n) n) app.nodes
    → All (λ (n : Node). Wires std (typed n) n.missions n.steps) app.nodes
validate-Wires std app typed h fits =
    let ((fields, (missions, more)), graph) = ((validate-Clean std app).0 h).0 in
    All-each _ app.nodes (λ n here.
      let (d, counts) = All-get (λ (x : Node). StepsFit (typed x) x) app.nodes n fits here in
      mission-Wires std n (typed n) n.missions n.steps refl
        (All-get (λ (x : Node). MissionOk std x x.missions x.steps) app.nodes n missions here) d
        counts)
