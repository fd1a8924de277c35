-- ===== src/Mission/Endings.antt =====
-- mission.go: the end of a mission's context, and the error that a mission reports.
use Prim.Native.String.{String}
use text.Mathlib.Text.{◌==◌ as str_eq}
use conductor_ros.Prelude.{
  ◌≡◌, refl, ap, ◌∙◌, Bool, true, false, not, ◌&&◌, Option, none, some, List, [], ◌∷◌, ◌++◌, ltb,
  leb, ◌⊎◌, if_case,
}
use mathlib.Core.Path.{subst}
use conductor_ros.Prelude.Iff.{some_inj}
use conductor_ros.Mission.Wire.{StepDef, Machine, find_step, declared, is_terminal}
use conductor_ros.Mission.Run.{
  MissionStatus, mission_canceled, mission_done, mission_failed, StepErr, MissionErr, of_handler,
  in_step, no_step, no_such, Runner, Task, Loop, Input, Turn, goes, ended, hear, with_state,
  set_err, finish, last_err, enter, call, run_step, settle, jump, goto_of, run_declared, turn,
  run_from, begin_run, run, runner_of,
}

run_from_append :
    (m : Machine) (t : Turn) (is js : List Input)
    → run_from m t (is ++ js) ≡ run_from m (run_from m t is) js
unfolding run_from
run_from_append m (ended r) is js = refl
run_from_append m (goes l) [] js = refl
run_from_append m (goes l) (i ∷ is) js = run_from_append m (turn m l i) is js

-- What a round comes to in which the context ends: it ends the run, canceled, failed by a Goto of a
-- step that is not there, or without a handler's call; or it goes on with a context that has ended.
abbrev pub Missing : Runner → Type 0
Missing r = (name target : String) × (r.state.err ≡ some (no_such name target))

abbrev pub Halts : Input → List Task → Turn → Type 0
Halts i calls (goes l) = l.runner.is_stopped ≡ true
Halts i calls (ended r) =
    (r.state.status ≡ mission_canceled)
    ⊎ (Missing r ⊎ ((r.calls ≡ calls) × (i.stop_before ≡ false)))

abbrev pub has_err : Option MissionErr → Bool
has_err none = false
has_err (some _) = true

abbrev Errs : Turn → Type 0
Errs t = has_err (runner_of t).state.err ≡ true

last_err-has_err :
    (e old : Option MissionErr) → has_err old ≡ true → has_err (last_err e old) ≡ true
last_err-has_err none old h = h
last_err-has_err (some _) old h = refl

finish-Errs :
    (s : MissionStatus) (e : Option MissionErr) (r : Runner)
    → has_err r.state.err ≡ true
    → Errs (ended (finish s e r))
unfolding finish with_state runner_of
finish-Errs s e r h = last_err-has_err e r.state.err h

module _ (m : Machine) where
  settle-Errs :
      (def : StepDef) (l : Loop) (i : Input) (r : Runner) (e : Option StepErr)
      → has_err r.state.err ≡ true
      → Errs (settle def l i r e)
  unfolding settle runner_of set_err with_state
  settle-Errs def l i r none h = h
  settle-Errs def l i r (some e) h =
      if_case Errs r.is_stopped (λ _. finish-Errs mission_canceled none r h)
        λ _.
          if_case Errs (leb l.attempt def.retry)
            (λ _.
              if_case Errs (ltb 0 def.backoff && i.stop_asleep)
                (λ _. finish-Errs mission_canceled none (hear true r) (unfold hear in h)) (λ _. h))
            (λ _.
              if_case Errs (not (str_eq def.fail "")) (λ _. refl)
                (λ _. finish-Errs mission_failed (some (in_step def.name e)) r h))

  jump-Errs :
      (def : StepDef) (r : Runner) (target : String)
      → has_err r.state.err ≡ true
      → Errs (jump m def r target)
  unfolding jump runner_of
  jump-Errs def r target h =
      if_case Errs (not (declared m.steps target) && not (is_terminal target))
        (λ _. finish-Errs mission_failed (some (no_such def.name target)) r h) (λ _. h)

  run_declared-Errs :
      (def : StepDef) (l : Loop) (i : Input) (r : Runner)
      → has_err r.state.err ≡ true
      → Errs (run_declared m def l i r)
  unfolding run_declared hear call enter
  run_declared-Errs def l i r h = switched (run_step def i) (goto_of (run_step def i))
    where
      after : Runner
      after = hear i.stop_during (
          call (record { step = def.name; attempt = l.attempt; err = l.cause })
            (enter l.step l.attempt r))

      switched :
          (err : Option StepErr) (target : Option String)
          → Errs (elim target [ some s ↦ jump m def after s | none ↦ settle def l i after err ])
      switched err none = settle-Errs def l i after err h
      switched err (some s) = jump-Errs def after s h

  turn-Errs : (l : Loop) (i : Input) → has_err l.runner.state.err ≡ true → Errs (turn m l i)
  unfolding turn hear
  turn-Errs l i h =
      if_case Errs (hear i.stop_before l.runner).is_stopped
        (λ _. finish-Errs mission_canceled none heard h)
        λ _.
          if_case Errs (str_eq l.step "done") (λ _. finish-Errs mission_done none heard h)
            λ _.
              if_case Errs (str_eq l.step "failed")
                (λ _. finish-Errs mission_failed heard.state.err heard h)
                λ _. stepped (find_step m.steps l.step)
    where
      heard : Runner
      heard = hear i.stop_before l.runner

      stepped :
          (found : Option StepDef)
          → Errs (elim found [
            | none ↦ ended (finish mission_failed (some (no_step l.step)) heard)
            | some def ↦ run_declared m def l i heard
          ])
      stepped none = finish-Errs mission_failed (some (no_step l.step)) heard h
      stepped (some def) = run_declared-Errs def l i heard h

  run_from-Errs : (t : Turn) (is : List Input) → Errs t → Errs (run_from m t is)
  unfolding run_from runner_of
  run_from-Errs (ended r) is h = h
  run_from-Errs (goes l) [] h = h
  run_from-Errs (goes l) (i ∷ is) h = run_from-Errs (turn m l i) is (turn-Errs l i h)

-- A loop that a fail branch has begun has the error that took it, as the mission's error.
abbrev Blames : Turn → Type 0
Blames (goes l) = (e : StepErr) → l.cause ≡ some e → l.runner.state.err ≡ some (of_handler e)
Blames (ended r) = Unit

module _ (m : Machine) where
  settle-Blames :
      (def : StepDef) (l : Loop) (i : Input) (r : Runner) (e : Option StepErr)
      → Blames (settle def l i r e)
  unfolding settle set_err with_state
  settle-Blames def l i r none = λ e h. absurd (cc h)
  settle-Blames def l i r (some e) =
      if_case Blames r.is_stopped (λ _. tt)
        λ _.
          if_case Blames (leb l.attempt def.retry)
            (λ _.
              if_case Blames (ltb 0 def.backoff && i.stop_asleep) (λ _. tt)
                (λ _ x h. absurd (cc h)))
            (λ _.
              if_case Blames (not (str_eq def.fail ""))
                (λ _ x h. ap (λ z. some (of_handler z)) (some_inj e x h)) (λ _. tt))

  turn-Blames : (l : Loop) (i : Input) → Blames (turn m l i)
  unfolding turn run_declared jump
  turn-Blames l i =
      if_case Blames heard.is_stopped (λ _. tt)
        λ _.
          if_case Blames (str_eq l.step "done") (λ _. tt)
            λ _.
              if_case Blames (str_eq l.step "failed") (λ _. tt)
                λ _. stepped (find_step m.steps l.step)
    where
      heard : Runner
      heard = hear i.stop_before l.runner

      switched :
          (def : StepDef) (r : Runner) (err : Option StepErr) (target : Option String)
          → Blames (elim target [ some s ↦ jump m def r s | none ↦ settle def l i r err ])
      switched def r err none = settle-Blames def l i r err
      switched def r err (some s) =
          if_case Blames (not (declared m.steps s) && not (is_terminal s)) (λ _. tt)
            (λ _ x h. absurd (cc h))

      stepped :
          (found : Option StepDef)
          → Blames (elim found [
            | none ↦ ended (finish mission_failed (some (no_step l.step)) heard)
            | some def ↦ run_declared m def l i heard
          ])
      stepped none = tt
      stepped (some def) =
          switched def
            (hear i.stop_during (
              call (record { step = def.name; attempt = l.attempt; err = l.cause })
                (enter l.step l.attempt heard)))
            (run_step def i) (goto_of (run_step def i))

  run_from-Blames : (t : Turn) (is : List Input) → Blames t → Blames (run_from m t is)
  unfolding run_from
  run_from-Blames (ended r) is h = h
  run_from-Blames (goes l) [] h = h
  run_from-Blames (goes l) (i ∷ is) h = run_from-Blames (turn m l i) is (turn-Blames l i)

-- Where a run stands at a step that a fail branch has led to, the mission's error is the error that
-- took that branch, which the step is given as its cause; and the mission has an error to the end
-- of that run, also where it ends done.
pub run_keeps_err :
    (m : Machine) (b : Runner) (is js : List Input) (l : Loop) (e : StepErr)
    → run m b is ≡ goes l
    → l.cause ≡ some e
    → (l.runner.state.err ≡ some (of_handler e))
      × (has_err (runner_of (run m b (is ++ js))).state.err ≡ true)
unfolding run begin_run runner_of
run_keeps_err m b is js l e there caused =
    let t : Turn = goes (begin_run m b) in
    let blamed : l.runner.state.err ≡ some (of_handler e) =
      subst Blames there (run_from-Blames m t is (λ x h. absurd (cc h))) e caused in
    (
      blamed,
      rw (run_from_append m t is js) (
          run_from-Errs m (run_from m t is) js
            (ap (λ (u : Turn). has_err (runner_of u).state.err) there ∙ ap has_err blamed)),
    )
