-- ===== src/Mission/Keeps.antt =====
-- mission.go: each round of a wired mission keeps the invariant of its run.
use Prim.Native.String.{String}
use text.Mathlib.Text.{◌==◌ as str_eq}
use conductor_ros.Prelude.{
  ℕ, ◌+◌, ◌≡◌, refl, sym, ap, ◌∙◌, Bool, true, false, not, ◌&&◌, ◌||◌, Option, none, some, List, [],
  ◌∷◌, leb, ltb, inl, inr, Bool-cases, leb→le, if_case, arith,
}
use conductor_ros.Prelude.Names.{str_eq-of}
use conductor_ros.Mission.Wire.{StepDef, Machine, find_step, declared, is_terminal, is_bad}
use conductor_ros.Mission.Run.{
  MissionStatus, mission_running, mission_done, mission_failed, mission_canceled, StepErr,
  MissionErr, in_step, no_such, Task, Runner, Loop, Input, hear, with_state, set_err, finish,
  settle, jump,
}
use conductor_ros.Mission.Log.{Good, is_settled, is_lost, Kept, Inv, Over, TurnInv}

pub find_name :
    (ds : List StepDef) (s : String) (d : StepDef) → find_step ds s ≡ some d → d.name ≡ s
unfolding find_step
find_name [] s d e = absurd (cc e)
find_name (x ∷ xs) s d e = elim (Bool-cases (str_eq x.name s)) [
  | inl h ↦
      let same : x.name ≡ s = str_eq-of x.name s h in
      let some_x : some x ≡ some d = rw h at e in
      let here : x ≡ d = cc in ap (λ (y : StepDef). y.name) (sym here) ∙ same
  | inr h ↦ find_name xs s d (rw h at e)
]

found_declared :
    (ds : List StepDef) (s : String) (d : StepDef) → find_step ds s ≡ some d → declared ds s ≡ true
unfolding find_step declared
found_declared [] s d e = absurd (cc e)
found_declared (x ∷ xs) s d e = elim (Bool-cases (str_eq x.name s)) [
  | inl h ↦ rw h refl
  | inr h ↦ rw h (found_declared xs s d (rw h at e))
]

pub not_found : (ds : List StepDef) (s : String) → find_step ds s ≡ none → declared ds s ≡ false
unfolding find_step declared
not_found [] s e = refl
not_found (x ∷ xs) s e = ground (arith, not_found xs s)

-- A tag that is not bad and not empty names a declared or a terminal step.
known_of :
    (ds : List StepDef) (t : String)
    → is_bad ds t ≡ false
    → str_eq t "" ≡ false
    → (declared ds t || is_terminal t) ≡ true
unfolding is_bad
known_of ds t h e = ground (arith, h, e)

module _ (m : Machine) (b : Runner) (g : Good m) where
  pub hear-Kept : (stop : Bool) (r : Runner) → Kept m b r → Kept m b (hear stop r)
  unfolding hear
  hear-Kept stop r k = record {
    logged = k.logged;
    counted = k.counted;
    entered = k.entered;
    not_lost = k.not_lost;
  }

  finish-Kept :
      (s : MissionStatus) (e : Option MissionErr) (r : Runner)
      → is_lost e ≡ false
      → Kept m b r
      → Kept m b (finish s e r)
  unfolding finish with_state is_lost
  finish-Kept s none r h k = record {
    logged = k.logged;
    counted = k.counted;
    entered = k.entered;
    not_lost = k.not_lost;
  }
  finish-Kept s (some e) r h k = record {
    logged = k.logged;
    counted = k.counted;
    entered = k.entered;
    not_lost = h;
  }

  set_err-Kept : (e : StepErr) (r : Runner) → Kept m b r → Kept m b (set_err e r)
  unfolding set_err with_state is_lost
  set_err-Kept e r k = record {
    logged = k.logged;
    counted = k.counted;
    entered = k.entered;
    not_lost = refl;
  }

  pub canceled-Over : (r : Runner) → Kept m b r → Over m b (finish mission_canceled none r)
  unfolding finish with_state is_settled is_lost
  canceled-Over r k = record { kept = finish-Kept mission_canceled none r refl k; settled = refl }

  pub done-Over : (r : Runner) → Kept m b r → Over m b (finish mission_done none r)
  unfolding finish with_state is_settled is_lost
  done-Over r k = record { kept = finish-Kept mission_done none r refl k; settled = refl }

  pub failed-Over :
      (e : Option MissionErr) (r : Runner)
      → is_lost e ≡ false
      → Kept m b r
      → Over m b (finish mission_failed e r)
  unfolding finish with_state is_settled
  failed-Over e r h k = record { kept = finish-Kept mission_failed e r h k; settled = refl }

  -- A step entered anew.
  pub fresh-Inv :
      (step : String) (cause : Option StepErr) (r : Runner)
      → (declared m.steps step || is_terminal step) ≡ true
      → Kept m b r
      → r.state.status ≡ mission_running
      → Inv m b (record { step = step; attempt = 1; cause = cause; runner = r })
  fresh-Inv step cause r known k running = record {
    known = known;
    at_least = omega arith;
    at_most = λ d e. omega arith;
    follows = inl refl;
    kept = k;
    running = running;
  }

  pub jump-TurnInv :
      (def : StepDef) (r : Runner) (target : String)
      → Kept m b r
      → r.state.status ≡ mission_running
      → TurnInv m b (jump m def r target)
  unfolding jump is_lost
  jump-TurnInv def r target k running =
      if_case (TurnInv m b) (not (declared m.steps target) && not (is_terminal target))
        (λ _. failed-Over (some (no_such def.name target)) r refl k)
        (λ h. fresh-Inv target none r (ground (arith, h)) k running)

  module _ (def : StepDef) (l : Loop) (i : Input) (r : Runner) (t : Task) (rest : List Task)
      (found : find_step m.steps l.step ≡ some def) (k : Kept m b r)
      (running : r.state.status ≡ mission_running) (last : r.calls ≡ t ∷ rest)
      (same : t.step ≡ l.step) (nth : t.attempt ≡ l.attempt) where
    is_known : (declared m.steps l.step || is_terminal l.step) ≡ true
    is_known = rw (found_declared m.steps l.step def found)

    retry-Inv :
        leb l.attempt def.retry ≡ true
        → Inv m b (record { step = l.step; attempt = l.attempt + 1; cause = none; runner = r })
    retry-Inv h = record {
      known = is_known;
      at_least = omega arith;
      at_most = λ d e.
          let here : some def ≡ some d = sym found ∙ e in
          let one : def ≡ d = cc in
          omega (arith, ap (λ (x : StepDef). x.retry) one, leb→le l.attempt def.retry h);
      follows = inr (t, rest, last, same, ap (λ (n : ℕ). n + 1) (sym nth), refl);
      kept = k;
      running = running;
    }

    pub settle-TurnInv : (e : Option StepErr) → TurnInv m b (settle def l i r e)
    unfolding settle is_lost
    settle-TurnInv none =
        fresh-Inv def.next none r
          (known_of m.steps def.next (g.next_known l.step def found) (g.has_next l.step def found))
          k running
    settle-TurnInv (some e) =
        if_case (TurnInv m b) r.is_stopped (λ _. canceled-Over r k)
          λ _.
            if_case (TurnInv m b) (leb l.attempt def.retry)
              (λ again.
                if_case (TurnInv m b) (ltb 0 def.backoff && i.stop_asleep)
                  (λ _. canceled-Over (hear true r) (hear-Kept true r k)) (λ _. retry-Inv again))
              (λ _.
                if_case (TurnInv m b) (not (str_eq def.fail "")) branch-Inv
                  (λ _. failed-Over (some (in_step def.name e)) r refl k))
      where
        branch-Inv :
            not (str_eq def.fail "") ≡ true
            → Inv m b
                (record { step = def.fail; attempt = 1; cause = some e; runner = set_err e r })
        branch-Inv h =
            fresh-Inv def.fail (some e) (set_err e r)
              (known_of m.steps def.fail (g.fail_known l.step def found) (ground (arith, h)))
              (set_err-Kept e r k) (unfold set_err with_state in running)
