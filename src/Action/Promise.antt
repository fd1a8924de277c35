-- ===== src/Action/Promise.antt =====
-- action.go: what the server promises to the clients of its goals.
use conductor_ros.Prelude.{
  ℕ, ◌≡◌, refl, ap, sym, ◌∙◌, false, none, some, [], ◌∷◌, ◌++◌, if_case, length, length-append,
  get_elem?, ◌==◌, arith, All-append, Bool-cases, inl, inr, Option-cases,
}
use conductor_ros.Prelude.Iff.{some_inj}
use conductor_ros.Action.Server.{
  executing, GoalRecord, Server, terminal, lookup_goal, handle_send_goal, finish_record, end_goal,
  stop_record, release_context, drop_goal, cancel_record, cancel_every, cancel_one, cancel_goals,
  CancelResponse, handle_cancel,
}
use conductor_ros.Action.Evolve.{
  Evolving-refl, Evolving-append, Evolving-trans, RecordOk, finish_record-Ok, finish_record-Evolve,
  stop_record-Ok, stop_record-Evolve, cancel_record-Ok, cancel_record-Evolve,
}
use conductor_ros.Action.Steps.{
  Step, sent, finished, released, dropped, canceled_by, Steps, stay, more, Points, Sound,
  Points-Evolving, get_elem?-snoc, delete_goal-All, Kept, kept_records, publish_status-Kept,
  modify-Kept, cancel_each-Kept,
}

module _ {R : Type 0} where
  sent-Kept : (id stamp : ℕ) (s : Server R) → Sound s → Kept s (handle_send_goal id stamp s).0
  unfolding handle_send_goal
  sent-Kept id stamp s h = elim (Option-cases (lookup_goal s.goals id)) [
    | inr (ref, e) ↦ rw (e, handle_send_goal) (h, Evolving-refl s.records)
    | inl e ↦
        let rec : GoalRecord R = record {
          info = record { goal_id = id; stamp = stamp };
          status = executing;
          result = none;
          done = false;
          stopped = false;
        } in
        let grown = Evolving-append s.records (rec ∷ []) in
        rw (e, handle_send_goal)
          (publish_status-Kept s _ (
            record {
              records = All-append RecordOk s.records (rec ∷ []) h.records (
                record {
                  closed = refl;
                  delivers = refl;
                  canceling_stopped = λ k. absurd (cc k);
                  canceled_stopped = λ k. absurd (cc k);
                },
                tt,
              );
              goals =
                  All-append (Points (s.records ++ rec ∷ [])) s.goals ((id, length s.records) ∷ [])
                    (Points-Evolving s.records (s.records ++ rec ∷ []) s.goals grown h.goals)
                    ((rec, get_elem?-snoc s.records rec, refl), tt);
              counted = omega (arith, h.counted, length-append s.records (rec ∷ []));
            },
            grown,
          ))
  ]

  cancel_one-Kept : (id : ℕ) (s : Server R) → Sound s → Kept s (cancel_one id s).0
  unfolding cancel_one
  cancel_one-Kept id s h = elim (Option-cases (lookup_goal s.goals id)) [
    | inl e ↦ rw (e, cancel_one) (h, Evolving-refl s.records)
    | inr (ref, e) ↦ elim (Option-cases (get_elem? s.records ref)) [
      | inl k ↦ rw (e, cancel_one, k) (h, Evolving-refl s.records)
      | inr (r, k) ↦ elim (Bool-cases (terminal r)) [
        | inl t ↦ rw (e, cancel_one, k, t) (h, Evolving-refl s.records)
        | inr t ↦
            let one : (x : GoalRecord R) → get_elem? s.records ref ≡ some x → terminal x ≡ false =
              λ x g. ap terminal (some_inj x r (sym g ∙ k)) ∙ t in
            rw (e, cancel_one, k, t)
              (modify-Kept cancel_record s ref (λ x g p. cancel_record-Ok x p (one x g))
                (λ x g p. cancel_record-Evolve x p (one x g)) h)
      ]
    ]
  ]

  cancel_goals-Kept : (id : ℕ) (s : Server R) → Sound s → Kept s (cancel_goals id s).0
  unfolding cancel_goals cancel_every
  cancel_goals-Kept id s h =
      if_case (λ (x : Server R × CancelResponse). Kept s x.0) (id == 0)
        (λ e.
          let (ok, ev, same) = cancel_each-Kept s.goals s.records [] h.records in
          kept_records s _ h ok ev same)
        (λ e. cancel_one-Kept id s h)

  canceled-Kept : (id : ℕ) (s : Server R) → Sound s → Kept s (handle_cancel id s).0
  unfolding handle_cancel
  canceled-Kept id s h =
      let kept = cancel_goals-Kept id s h in
      if_case (λ (t : Server R). Kept s t) (length (cancel_goals id s).1.goals_canceling == 0)
        (λ e. kept) (λ e. publish_status-Kept s (cancel_goals id s).0 kept)

  pub Step-Kept : (s t : Server R) → Sound s → Step s t → Kept s t
  unfolding end_goal release_context drop_goal
  Step-Kept _ _ h (sent id stamp s) = sent-Kept id stamp s h
  Step-Kept _ _ h (finished ref failed result r s found running) = publish_status-Kept s _ (
      modify-Kept (finish_record failed result) s ref (λ x g p. finish_record-Ok failed result x)
        (λ x g p.
          finish_record-Evolve failed result x
            (ap (λ (y : GoalRecord R). y.done) (some_inj x r (sym g ∙ found)) ∙ running))
        h)
  Step-Kept _ _ h (released ref s) =
      modify-Kept stop_record s ref (λ x g p. stop_record-Ok x p) (λ x g p. stop_record-Evolve x) h
  Step-Kept _ _ h (dropped id ref r s found there done) = (
    record {
      records = h.records;
      goals = delete_goal-All (Points s.records) s.goals id h.goals;
      counted = h.counted;
    },
    Evolving-refl s.records,
  )
  Step-Kept _ _ h (canceled_by id s) = canceled-Kept id s h

  pub Steps-Kept : (s t : Server R) → Sound s → Steps s t → Kept s t
  Steps-Kept _ _ h (stay s) = (h, Evolving-refl s.records)
  Steps-Kept _ _ h (more s t u before step) =
      let (h', e) = Steps-Kept s t h before in
      let (h'', e') = Step-Kept t u h' step in
      (h'', Evolving-trans s.records t.records u.records e e')
