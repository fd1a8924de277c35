-- ===== src/Mission/Rounds.antt =====
-- mission.go: what holds of every run of a wired mission.
use Prim.Native.String.{String}
use text.Mathlib.Text.{◌==◌ as str_eq}
use conductor_ros.Prelude.{
  ◌≡◌, refl, ap, ◌∙◌, false, Option, none, some, List, [], ◌∷◌, inl, if_case, arith,
}
use conductor_ros.Mission.Wire.{StepDef, Machine, find_step}
use conductor_ros.Mission.Run.{
  mission_running, mission_failed, StepErr, no_step, Task, Runner, Loop, Input, Turn, goes, ended,
  hear, finish, enter, call, run_step, settle, jump, goto_of, run_declared, turn, run_from,
  begin_run, run, runner_of,
}
use conductor_ros.Mission.Log.{Good, count, is_lost, Kept, Inv, TurnInv}
use conductor_ros.Mission.Keeps.{
  find_name, not_found, hear-Kept, canceled-Over, done-Over, failed-Over, jump-TurnInv,
  settle-TurnInv,
}

module _ (m : Machine) (b : Runner) (g : Good m) where
  module _ (l : Loop) (v : Inv m b l) (i : Input) (def : StepDef)
      (found : find_step m.steps l.step ≡ some def) where
    task : Task
    task = record { step = def.name; attempt = l.attempt; err = l.cause }

    called : Runner → Runner
    called r = hear i.stop_during (call task (enter l.step l.attempt r))

    same : def.name ≡ l.step
    same = find_name m.steps l.step def found

    -- The log with the call of this round.
    called-Kept : (r : Runner) → r.calls ≡ l.runner.calls → Kept m b r → Kept m b (called r)
    unfolding called task hear call enter count
    called-Kept r e k = record {
      logged = (
        record {
          def = def;
          found = ap (find_step m.steps) same ∙ found;
          at_least = v.at_least;
          at_most = v.at_most def found;
        },
        rw (same, e) v.follows,
        k.logged,
      );
      counted = omega (arith, k.counted);
      entered = λ s. ground (arith, k.entered s, same);
      not_lost = k.not_lost;
    }

    run_declared-TurnInv :
        (r : Runner)
        → r.calls ≡ l.runner.calls
        → Kept m b r
        → r.state.status ≡ mission_running
        → TurnInv m b (run_declared m def l i r)
    unfolding run_declared called task hear call enter
    run_declared-TurnInv r e k running = switched (run_step def i) (goto_of (run_step def i))
      where
        log : (called r).calls ≡ task ∷ r.calls
        log = refl

        still : (called r).state.status ≡ mission_running
        still = running

        switched :
            (err : Option StepErr) (target : Option String)
            → TurnInv m b (elim target [
              | some s ↦ jump m def (called r) s
              | none ↦ settle def l i (called r) err
            ])
        switched err none =
            settle-TurnInv m b g def l i (called r) task r.calls found (called-Kept r e k) still log
              same refl err
        switched err (some s) = jump-TurnInv m b g def (called r) s (called-Kept r e k) still

  turn-TurnInv : (l : Loop) (i : Input) → Inv m b l → TurnInv m b (turn m l i)
  unfolding turn
  turn-TurnInv l i v =
      if_case (TurnInv m b) (hear i.stop_before l.runner).is_stopped
        (λ _. canceled-Over m b g heard kept)
        λ _.
          if_case (TurnInv m b) (str_eq l.step "done") (λ _. done-Over m b g heard kept)
            λ not_done.
              if_case (TurnInv m b) (str_eq l.step "failed")
                (λ _. failed-Over m b g heard.state.err heard kept.not_lost kept)
                λ not_failed. stepped not_done not_failed (find_step m.steps l.step) refl
    where
      heard : Runner
      heard = hear i.stop_before l.runner

      kept : Kept m b heard
      kept = hear-Kept m b g i.stop_before l.runner v.kept

      stepped :
          str_eq l.step "done" ≡ false
          → str_eq l.step "failed" ≡ false
          → (found : Option StepDef) → find_step m.steps l.step ≡ found
          → TurnInv m b (elim found [
            | none ↦ ended (finish mission_failed (some (no_step l.step)) heard)
            | some def ↦ run_declared m def l i heard
          ])
      stepped not_done not_failed none e =
          absurd (ground (arith, not_found m.steps l.step e, v.known, not_done, not_failed))
      stepped not_done not_failed (some def) e =
          run_declared-TurnInv l v i def e heard refl kept v.running

  run_from-TurnInv : (t : Turn) (is : List Input) → TurnInv m b t → TurnInv m b (run_from m t is)
  unfolding run_from
  run_from-TurnInv (ended r) is v = v
  run_from-TurnInv (goes l) [] v = v
  run_from-TurnInv (goes l) (i ∷ is) v = run_from-TurnInv (turn m l i) is (turn-TurnInv l i v)

  start-Inv : Inv m b (begin_run m b)
  unfolding begin_run count is_lost
  start-Inv = record {
    known = rw g.start_declared;
    at_least = omega arith;
    at_most = λ d e. omega arith;
    follows = inl refl;
    kept = record {
      logged = tt;
      counted = omega arith;
      entered = λ s. omega arith;
      not_lost = refl;
    };
    running = refl;
  }

  pub run-TurnInv : (is : List Input) → TurnInv m b (run m b is)
  unfolding run
  run-TurnInv is = run_from-TurnInv (goes (begin_run m b)) is start-Inv

  pub Kept-runner_of : (t : Turn) → TurnInv m b t → Kept m b (runner_of t)
  unfolding runner_of
  Kept-runner_of (goes l) v = v.kept
  Kept-runner_of (ended r) v = v.kept
