-- ===== src/Action/Answers.antt =====
-- action.go: what clients are told about their goals.
use conductor_ros.Prelude.{
  ℕ, ◌≡◌, ◌⊎◌, refl, ap, sym, ◌∙◌, Bool, true, false, none, some, List, [], ◌∷◌, ◌++◌,
  if◌then◌else◌, if_case, length, get_elem?, ◌==◌, All, Bool-cases, inl, inr, Option-cases,
}
use mathlib.Core.Path.{subst}
use conductor_ros.Prelude.Iff.{some_inj}
use conductor_ros.Action.Server.{
  GoalStatus, GoalInfo, GoalRecord, Server, terminal, modify, lookup_goal, publish_status,
  cancel_record, cancel_each, cancel_every, cancel_one, cancel_goals, CancelResponse, cancel_none,
  unknown_goal_id, goal_terminated, handle_cancel, read_result, handle_get_result, replied,
  unknown_goal,
}
use conductor_ros.Action.Evolve.{
  Evolving, Evolving-get, Evolving-modify, RecordOk, All-get_elem?, modify-All, cancel_record-Ok,
  cancel_record-Evolve,
}
use conductor_ros.Action.Steps.{
  Steps, Sound, fresh, fresh-Sound, cancel_each-Kept, Points, Points-Evolving,
}
use conductor_ros.Action.Promise.{Steps-Kept}

module _ {R : Type 0} where
  -- However requests, the ends of handlers and timers interleave, every goal of the map is a record
  -- with its id, each accepted goal has one record, a record's channel is closed exactly where its
  -- status is terminal and it has a result, and a goal that is being canceled or is canceled has a
  -- canceled context.
  pub Steps-Sound : (s : Server R) → Steps fresh s → Sound s
  Steps-Sound s steps = (Steps-Kept fresh s fresh-Sound steps).0

  get_elem?-modify :
      (f : GoalRecord R → GoalRecord R) (xs : List (GoalRecord R)) (i : ℕ) (x : GoalRecord R)
      → get_elem? xs i ≡ some x
      → get_elem? (modify f xs i) i ≡ some (f x)
  get_elem?-modify f [] i x h = absurd (cc h)
  get_elem?-modify f (y ∷ xs) ℕ.zero x h = ap (λ z. some (f z)) (some_inj y x h)
  get_elem?-modify f (y ∷ xs) (ℕ.suc i) x h = get_elem?-modify f xs i x h

  -- What get_result answers for a goal that ended: what its handler returned, and its status.
  abbrev pub Answered : ℕ → GoalStatus → R → Server R → Type 0
  Answered ref status result t =
      (read_result ref t ≡ some (status, some result))
      × ((id : ℕ)
          → ((lookup_goal t.goals id ≡ some ref)
              → handle_get_result id t ≡ replied status (some result))
            × ((lookup_goal t.goals id ≡ none) → handle_get_result id t ≡ unknown_goal))

  -- What handleCancel answers for one goal: its code by what the map has of the id.
  abbrev pub Canceled : ℕ → Server R → Server R → CancelResponse → Type 0
  Canceled id s t res =
      ((lookup_goal s.goals id ≡ none) × (res.code ≡ unknown_goal_id) × (t ≡ s))
      ⊎ ((ref : ℕ) × (r : GoalRecord R) × (lookup_goal s.goals id ≡ some ref)
          × (get_elem? s.records ref ≡ some r)
          × (((r.done ≡ true) × (res.code ≡ goal_terminated) × (t ≡ s))
              ⊎ ((r.done ≡ false)
                  × (res.code ≡ cancel_none)
                  × (res.goals_canceling ≡ r.info ∷ [])
                  × (t.records ≡ modify cancel_record s.records ref))))

  found-Points :
      (records : List (GoalRecord R)) (gs : List (ℕ × ℕ)) (id ref : ℕ)
      → All (Points records) gs
      → lookup_goal gs id ≡ some ref
      → (r : GoalRecord R) × (get_elem? records ref ≡ some r)
  unfolding lookup_goal
  found-Points records [] id ref h e = absurd (cc e)
  found-Points records ((k, ref') ∷ gs) id ref ((r, there, same), h) e =
      elim (Bool-cases (k == id)) [
        | inl c ↦ (r, ap (get_elem? records) (sym (some_inj ref' ref (rw c at e))) ∙ there)
        | inr c ↦ found-Points records gs id ref h (rw c at e)
      ]

  -- The answer with its status array, where a goal is being canceled.
  abbrev announced : Server R × CancelResponse → Server R × CancelResponse
  announced (t, res) = (if length res.goals_canceling == 0 then t else publish_status t, res)

  abbrev CanceledBy : ℕ → Server R → Server R × CancelResponse → Type 0
  CanceledBy id s (t, res) = Canceled id s t res

  handle_cancel-announced :
      (id : ℕ) (s : Server R) (p : Server R × CancelResponse)
      → (id == 0) ≡ false
      → cancel_one id s ≡ p
      → handle_cancel id s ≡ announced p
  unfolding handle_cancel cancel_goals
  handle_cancel-announced id s p other e =
      ap (λ (b : Bool). announced (if b then cancel_every s else cancel_one id s)) other
      ∙ ap announced e

  -- For an id that is not the zero UUID, handleCancel answers from any server that came about: that
  -- the goal is unknown where the map has none, that it is terminated where it is done, and changes
  -- nothing then; otherwise that this goal is being canceled, and cancels its context, and no other.
  pub handle_cancel-Canceled :
      (id : ℕ) (s : Server R)
      → Steps fresh s
      → (id == 0) ≡ false
      → Canceled id s (handle_cancel id s).0 (handle_cancel id s).1
  unfolding cancel_one publish_status
  handle_cancel-Canceled id s steps other =
      let sound = Steps-Sound s steps in
      let answer : (p : Server R × CancelResponse)
          → cancel_one id s ≡ p
          → CanceledBy id s (announced p)
          → CanceledBy id s (handle_cancel id s) =
        λ p e c. subst (CanceledBy id s) (sym (handle_cancel-announced id s p other e)) c in
      elim (Option-cases (lookup_goal s.goals id)) [
        | inl e ↦
            answer (s, record { code = unknown_goal_id; goals_canceling = [] })
              (rw (e, cancel_one) refl) (inl (e, refl, refl))
        | inr (ref, e) ↦
            let (r, there) = found-Points s.records s.goals id ref sound.goals e in
            let closed = (All-get_elem? RecordOk s.records ref r sound.records there).closed in
            elim (Bool-cases (terminal r)) [
              | inl c ↦
                  answer (s, record { code = goal_terminated; goals_canceling = [] })
                    (rw (e, cancel_one, there, c) refl)
                    (inr (ref, r, e, there, inl (closed ∙ c, refl, refl)))
              | inr c ↦
                  answer
                    (
                      record s { records = modify cancel_record s.records ref },
                      record { code = cancel_none; goals_canceling = r.info ∷ [] },
                    )
                    (rw (e, cancel_one, there, c) refl)
                    (inr (ref, r, e, there, inr (closed ∙ c, refl, refl, refl)))
            ]
      ]

  -- A goal that is over or whose context is canceled.
  abbrev pub Stopped : List (GoalRecord R) → ℕ × ℕ → Type 0
  Stopped records (id, ref) =
      (r : GoalRecord R) × (get_elem? records ref ≡ some r) × ((r.done ≡ true) ⊎ (r.stopped ≡ true))

  Stopped-Evolving :
      (xs ys : List (GoalRecord R)) (g : ℕ × ℕ) → Evolving xs ys → Stopped xs g → Stopped ys g
  Stopped-Evolving xs ys (id, ref) e (r, found, h) =
      let (r', found', ev) = Evolving-get xs ys ref r e found in
      (r', found', elim h [ inl d ↦ inl (ev.done d) | inr k ↦ inr (ev.stops k) ])

  cancel_each-Stopped :
      (gs : List (ℕ × ℕ)) (xs : List (GoalRecord R)) (infos : List GoalInfo)
      → All RecordOk xs
      → All (Points xs) gs
      → All (Stopped (cancel_each gs xs infos).0) gs
  unfolding cancel_each
  cancel_each-Stopped [] xs infos ok h = tt
  cancel_each-Stopped ((id, ref) ∷ gs) xs infos ok ((r, found, same), h) =
      elim (Bool-cases (terminal r)) [
        | inl e ↦
            let next = cancel_each gs xs infos in
            moved next (rw (found, cancel_each, e) refl) (
              Stopped-Evolving xs next.0 (id, ref) (cancel_each-Kept gs xs infos ok).1
                  (r, found, inl ((All-get_elem? RecordOk xs ref r ok found).closed ∙ e)),
              cancel_each-Stopped gs xs infos ok h,
            )
        | inr e ↦
            let ys = modify cancel_record xs ref in
            let next = cancel_each gs ys (infos ++ r.info ∷ []) in
            let one : (x : GoalRecord R) → get_elem? xs ref ≡ some x → terminal x ≡ false =
              λ x k. ap terminal (some_inj x r (sym k ∙ found)) ∙ e in
            let ok' =
              modify-All RecordOk cancel_record xs ref (λ x k p. cancel_record-Ok x p (one x k))
                ok in
            let evolves =
              Evolving-modify cancel_record xs ref
                (λ x k. cancel_record-Evolve x (All-get_elem? RecordOk xs ref x ok k) (one x k)) in
            moved next (rw (found, cancel_each, e) refl) (
              Stopped-Evolving ys next.0 (id, ref)
                  (cancel_each-Kept gs ys (infos ++ r.info ∷ []) ok').1
                  (cancel_record r, get_elem?-modify cancel_record xs ref r found, inr refl),
              cancel_each-Stopped gs ys (infos ++ r.info ∷ []) ok'
                  (Points-Evolving xs ys gs evolves h),
            )
      ]
    where
      moved :
          (next : List (GoalRecord R) × List GoalInfo)
          → cancel_each ((id, ref) ∷ gs) xs infos ≡ next
          → All (Stopped next.0) ((id, ref) ∷ gs)
          → All (Stopped (cancel_each ((id, ref) ∷ gs) xs infos).0) ((id, ref) ∷ gs)
      moved next e k =
          subst (λ (p : List (GoalRecord R) × List GoalInfo). All (Stopped p.0) ((id, ref) ∷ gs))
            (sym e) k

  -- With the zero UUID, handleCancel leaves every goal of any server that came about over or with
  -- its context canceled, and answers with no error.
  pub cancel_goals-Stopped :
      (s : Server R)
      → Steps fresh s
      → All (Stopped (handle_cancel 0 s).0.records) s.goals
        × ((handle_cancel 0 s).1.code ≡ cancel_none)
  unfolding handle_cancel cancel_goals cancel_every publish_status
  cancel_goals-Stopped s steps =
      let sound = Steps-Sound s steps in
      (
        if_case (λ (t : Server R). All (Stopped t.records) s.goals)
            (length (cancel_each s.goals s.records []).1 == 0)
            (λ e. cancel_each-Stopped s.goals s.records [] sound.records sound.goals)
            (λ e. cancel_each-Stopped s.goals s.records [] sound.records sound.goals),
        refl,
      )
