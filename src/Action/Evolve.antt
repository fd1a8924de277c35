-- ===== src/Action/Evolve.antt =====
-- action.go: how the record of a goal may change.
use conductor_ros.Prelude.{
  ℕ, zero, suc, ◌≤◌, ◌≡◌, refl, sym, ◌∙◌, Bool, true, false, some, is_some, List, [], ◌∷◌, ◌++◌,
  get_elem?, arith, All,
}
use conductor_ros.Prelude.Iff.{some_inj}
use mathlib.Core.Path.{subst}
use conductor_ros.Action.Server.{
  GoalStatus, executing, canceling, succeeded, canceled, aborted, GoalRecord, is_terminal_status,
  terminal, modify, outcome, finish_record, stop_record, cancel_record,
}

-- How far a goal has come.
abbrev pub rank : GoalStatus → ℕ
rank executing = 0
rank canceling = 1
rank succeeded = 2
rank canceled = 2
rank aborted = 2

outcome_terminal : (failed stopped : Bool) → is_terminal_status (outcome failed stopped) ≡ true
outcome_terminal true true = refl
outcome_terminal true false = refl
outcome_terminal false true = refl
outcome_terminal false false = refl

outcome-canceling : (failed stopped : Bool) → outcome failed stopped ≡ canceling → stopped ≡ true
outcome-canceling true true h = refl
outcome-canceling true false h = absurd (cc h)
outcome-canceling false true h = refl
outcome-canceling false false h = absurd (cc h)

outcome-canceled : (failed stopped : Bool) → outcome failed stopped ≡ canceled → stopped ≡ true
outcome-canceled true true h = refl
outcome-canceled true false h = absurd (cc h)
outcome-canceled false true h = refl
outcome-canceled false false h = absurd (cc h)

rank-le : (s : GoalStatus) → rank s ≤ 2
rank-le executing = omega arith
rank-le canceling = omega arith
rank-le succeeded = omega arith
rank-le canceled = omega arith
rank-le aborted = omega arith

rank_of_terminal : (s : GoalStatus) → is_terminal_status s ≡ true → rank s ≡ 2
rank_of_terminal executing h = absurd (cc h)
rank_of_terminal canceling h = absurd (cc h)
rank_of_terminal succeeded h = refl
rank_of_terminal canceled h = refl
rank_of_terminal aborted h = refl

rank_of_open : (s : GoalStatus) → is_terminal_status s ≡ false → rank s ≤ 1
rank_of_open executing h = omega arith
rank_of_open canceling h = omega arith
rank_of_open succeeded h = absurd (cc h)
rank_of_open canceled h = absurd (cc h)
rank_of_open aborted h = absurd (cc h)

module _ {R : Type 0} where
  -- A goal keeps its id and stamp, goes on only, and once done keeps its status and its result.
  pub record Evolve (x y : GoalRecord R) : Type 0 where
    pub info : y.info ≡ x.info
    pub onward : rank x.status ≤ rank y.status
    pub stops : x.stopped ≡ true → y.stopped ≡ true
    pub done : x.done ≡ true → y.done ≡ true
    pub status : x.done ≡ true → y.status ≡ x.status
    pub result : x.done ≡ true → y.result ≡ x.result

  pub Evolve-refl : (x : GoalRecord R) → Evolve x x
  Evolve-refl x = record {
    info = refl;
    onward = omega arith;
    stops = λ h. h;
    done = λ h. h;
    status = λ h. refl;
    result = λ h. refl;
  }

  pub Evolve-trans : (x y z : GoalRecord R) → Evolve x y → Evolve y z → Evolve x z
  Evolve-trans x y z e f = record {
    info = f.info ∙ e.info;
    onward = omega (arith, e.onward, f.onward);
    stops = λ h. f.stops (e.stops h);
    done = λ h. f.done (e.done h);
    status = λ h. f.status (e.done h) ∙ e.status h;
    result = λ h. f.result (e.done h) ∙ e.result h;
  }

  -- Every record evolves; there may be new ones behind them.
  abbrev pub Evolving : List (GoalRecord R) → List (GoalRecord R) → Type 0
  Evolving [] ys = Unit
  Evolving (x ∷ xs) [] = ⊥
  Evolving (x ∷ xs) (y ∷ ys) = Evolve x y × Evolving xs ys

  pub Evolving-refl : (xs : List (GoalRecord R)) → Evolving xs xs
  Evolving-refl [] = tt
  Evolving-refl (x ∷ xs) = (Evolve-refl x, Evolving-refl xs)

  pub Evolving-append : (xs ys : List (GoalRecord R)) → Evolving xs (xs ++ ys)
  Evolving-append [] ys = tt
  Evolving-append (x ∷ xs) ys = (Evolve-refl x, Evolving-append xs ys)

  pub Evolving-trans :
      (xs ys zs : List (GoalRecord R)) → Evolving xs ys → Evolving ys zs → Evolving xs zs
  Evolving-trans [] ys zs e f = tt
  Evolving-trans (x ∷ xs) [] zs e f = absurd e
  Evolving-trans (x ∷ xs) (y ∷ ys) [] e f = absurd f
  Evolving-trans (x ∷ xs) (y ∷ ys) (z ∷ zs) (e, es) (f, fs) =
      (Evolve-trans x y z e f, Evolving-trans xs ys zs es fs)

  pub Evolving-modify :
      (f : GoalRecord R → GoalRecord R) (xs : List (GoalRecord R)) (i : ℕ)
      → ((x : GoalRecord R) → get_elem? xs i ≡ some x → Evolve x (f x))
      → Evolving xs (modify f xs i)
  Evolving-modify f [] i h = tt
  Evolving-modify f (x ∷ xs) zero h = (h x refl, Evolving-refl xs)
  Evolving-modify f (x ∷ xs) (suc i) h = (Evolve-refl x, Evolving-modify f xs i h)

  pub Evolving-get :
      (xs ys : List (GoalRecord R)) (i : ℕ) (x : GoalRecord R)
      → Evolving xs ys
      → get_elem? xs i ≡ some x
      → (y : GoalRecord R) × (get_elem? ys i ≡ some y) × Evolve x y
  Evolving-get [] ys i x e h = absurd (cc h)
  Evolving-get (z ∷ xs) [] i x e h = absurd e
  Evolving-get (z ∷ xs) (y ∷ ys) zero x (e, es) h =
      (y, refl, subst (λ w. Evolve w y) (some_inj z x h) e)
  Evolving-get (z ∷ xs) (y ∷ ys) (suc i) x (e, es) h = Evolving-get xs ys i x es h

  -- What every record is like: its channel is closed where its status is terminal, it then has a
  -- result, and a goal that is or was being canceled has a canceled context.
  pub record RecordOk (r : GoalRecord R) : Type 0 where
    pub closed : r.done ≡ is_terminal_status r.status
    pub delivers : is_some r.result ≡ r.done
    pub canceling_stopped : r.status ≡ canceling → r.stopped ≡ true
    pub canceled_stopped : r.status ≡ canceled → r.stopped ≡ true

  pub modify-All :
      (P : GoalRecord R → Type 0) (f : GoalRecord R → GoalRecord R) (xs : List (GoalRecord R))
      (i : ℕ)
      → ((x : GoalRecord R) → get_elem? xs i ≡ some x → P x → P (f x))
      → All P xs
      → All P (modify f xs i)
  modify-All P f [] i h ok = tt
  modify-All P f (x ∷ xs) zero h (ok, oks) = (h x refl ok, oks)
  modify-All P f (x ∷ xs) (suc i) h (ok, oks) = (ok, modify-All P f xs i h oks)

  pub All-get_elem? :
      (P : GoalRecord R → Type 0) (xs : List (GoalRecord R)) (i : ℕ) (x : GoalRecord R)
      → All P xs
      → get_elem? xs i ≡ some x
      → P x
  All-get_elem? P [] i x ok h = absurd (cc h)
  All-get_elem? P (y ∷ xs) zero x (ok, oks) h = subst P (some_inj y x h) ok
  All-get_elem? P (y ∷ xs) (suc i) x (ok, oks) h = All-get_elem? P xs i x oks h

  pub finish_record-Ok :
      (failed : Bool) (result : R) (r : GoalRecord R) → RecordOk (finish_record failed result r)
  finish_record-Ok failed result r = record {
    closed = sym (outcome_terminal failed r.stopped);
    delivers = refl;
    canceling_stopped = outcome-canceling failed r.stopped;
    canceled_stopped = outcome-canceled failed r.stopped;
  }

  pub finish_record-Evolve :
      (failed : Bool) (result : R) (r : GoalRecord R)
      → r.done ≡ false
      → Evolve r (finish_record failed result r)
  finish_record-Evolve failed result r h = record {
    info = refl;
    onward = omega (
      arith,
      rank-le r.status,
      rank_of_terminal (outcome failed r.stopped) (outcome_terminal failed r.stopped),
    );
    stops = λ k. k;
    done = λ k. refl;
    status = λ k. absurd (cc (h, k));
    result = λ k. absurd (cc (h, k));
  }

  pub stop_record-Ok : (r : GoalRecord R) → RecordOk r → RecordOk (stop_record r)
  stop_record-Ok r ok = record {
    closed = ok.closed;
    delivers = ok.delivers;
    canceling_stopped = λ h. refl;
    canceled_stopped = λ h. refl;
  }

  pub stop_record-Evolve : (r : GoalRecord R) → Evolve r (stop_record r)
  stop_record-Evolve r = record {
    info = refl;
    onward = omega arith;
    stops = λ k. refl;
    done = λ k. k;
    status = λ k. refl;
    result = λ k. refl;
  }

  pub cancel_record-Ok :
      (r : GoalRecord R) → RecordOk r → terminal r ≡ false → RecordOk (cancel_record r)
  cancel_record-Ok r ok h = record {
    closed = ok.closed ∙ h;
    delivers = ok.delivers;
    canceling_stopped = λ k. refl;
    canceled_stopped = λ k. refl;
  }

  pub cancel_record-Evolve :
      (r : GoalRecord R) → RecordOk r → terminal r ≡ false → Evolve r (cancel_record r)
  cancel_record-Evolve r ok h = record {
    info = refl;
    onward = rank_of_open r.status h;
    stops = λ k. refl;
    done = λ k. k;
    status = λ k. absurd (cc (ok.closed, h, k));
    result = λ k. absurd (cc (ok.closed, h, k));
  }
