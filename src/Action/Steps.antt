-- ===== src/Action/Steps.antt =====
-- action.go: what clients, handlers and timers do to an action server, in any order, and what holds
-- all the time.
use conductor_ros.Prelude.{
  ℕ, zero, suc, ◌≡◌, refl, ap, sym, ◌∙◌, Bool, true, false, some, List, [], ◌∷◌, ◌++◌, if_case,
  length, get_elem?, ◌==◌, All, Bool-cases, inl, inr, Option-cases,
}
use conductor_ros.Prelude.Iff.{some_inj}
use conductor_ros.Action.Server.{
  GoalInfo, GoalRecord, Server, terminal, modify, lookup_goal, delete_goal, publish_status,
  handle_send_goal, end_goal, release_context, drop_goal, cancel_record, cancel_each, handle_cancel,
}
use conductor_ros.Action.Evolve.{
  Evolve, Evolving, Evolving-refl, Evolving-trans, Evolving-modify, Evolving-get, RecordOk,
  modify-All, All-get_elem?, cancel_record-Ok, cancel_record-Evolve,
}

pub delete_goal-All :
    (P : ℕ × ℕ → Type 0) (gs : List (ℕ × ℕ)) (id : ℕ) → All P gs → All P (delete_goal gs id)
unfolding delete_goal
delete_goal-All P [] id h = tt
delete_goal-All P ((k, ref) ∷ gs) id (h, hs) =
    if_case (λ (xs : List (ℕ × ℕ)). All P xs) (k == id) (λ e. delete_goal-All P gs id hs)
      (λ e. (h, delete_goal-All P gs id hs))

module _ {R : Type 0} where
  -- One critical section: of a request, of the end of a goal's handler, which comes once, of its
  -- deferred cancel, of its timer.
  pub data Step : Server R → Server R → Type 0 where
    sent : (id stamp : ℕ) (s : Server R) → Step s (handle_send_goal id stamp s).0
    finished :
        (ref : ℕ) (failed : Bool) (result : R) (r : GoalRecord R) (s : Server R)
        → get_elem? s.records ref ≡ some r
        → r.done ≡ false
        → Step s (end_goal ref failed result s)
    released : (ref : ℕ) (s : Server R) → Step s (release_context ref s)
    dropped :
        (id ref : ℕ) (r : GoalRecord R) (s : Server R)
        → lookup_goal s.goals id ≡ some ref
        → get_elem? s.records ref ≡ some r
        → r.done ≡ true
        → Step s (drop_goal id s)
    canceled_by : (id : ℕ) (s : Server R) → Step s (handle_cancel id s).0

  pub data Steps : Server R → Server R → Type 0 where
    stay : (s : Server R) → Steps s s
    more : (s t u : Server R) → Steps s t → Step t u → Steps s u

  -- A goal of the map is a record with its id.
  abbrev pub Points : List (GoalRecord R) → ℕ × ℕ → Type 0
  Points records (id, ref) =
      (r : GoalRecord R) × (get_elem? records ref ≡ some r) × (r.info.goal_id ≡ id)

  pub record Sound (s : Server R) : Type 0 where
    pub records : All RecordOk s.records
    pub goals : All (Points s.records) s.goals
    pub counted : s.accepted ≡ length s.records

  abbrev pub fresh : Server R
  fresh = record { records = []; goals = []; accepted = 0; statuses = [] }

  pub fresh-Sound : Sound fresh
  fresh-Sound = record { records = tt; goals = tt; counted = refl }

  -- A reference still points to a record of its id after the records have evolved.
  pub Points-Evolving :
      (xs ys : List (GoalRecord R)) (gs : List (ℕ × ℕ))
      → Evolving xs ys
      → All (Points xs) gs
      → All (Points ys) gs
  Points-Evolving xs ys [] e h = tt
  Points-Evolving xs ys ((id, ref) ∷ gs) e ((r, found, same), h) =
      let (r', found', ev) = Evolving-get xs ys ref r e found in
      ((r', found', ap (λ (i : GoalInfo). i.goal_id) ev.info ∙ same), Points-Evolving xs ys gs e h)

  pub get_elem?-snoc :
      (xs : List (GoalRecord R)) (x : GoalRecord R) → get_elem? (xs ++ x ∷ []) (length xs) ≡ some x
  get_elem?-snoc [] x = refl
  get_elem?-snoc (y ∷ xs) x = get_elem?-snoc xs x

  length-modify :
      (f : GoalRecord R → GoalRecord R) (xs : List (GoalRecord R)) (i : ℕ)
      → length (modify f xs i) ≡ length xs
  length-modify f [] i = refl
  length-modify f (x ∷ xs) zero = refl
  length-modify f (x ∷ xs) (suc i) = ap suc (length-modify f xs i)

  -- What a step keeps: the server is sound, and the records have evolved.
  abbrev pub Kept : Server R → Server R → Type 0
  Kept s t = Sound t × Evolving s.records t.records

  -- A change of the records alone, none of which is made or lost.
  pub kept_records :
      (s : Server R) (records : List (GoalRecord R))
      → Sound s
      → All RecordOk records
      → Evolving s.records records
      → length records ≡ length s.records
      → Kept s (record s { records = records })
  kept_records s records h ok e same = (
    record {
      records = ok;
      goals = Points-Evolving s.records records s.goals e h.goals;
      counted = h.counted ∙ sym same;
    },
    e,
  )

  pub publish_status-Kept : (s t : Server R) → Kept s t → Kept s (publish_status t)
  unfolding publish_status
  publish_status-Kept s t (h, e) =
      (record { records = h.records; goals = h.goals; counted = h.counted }, e)

  pub modify-Kept :
      (f : GoalRecord R → GoalRecord R) (s : Server R) (ref : ℕ)
      → ((r : GoalRecord R) → get_elem? s.records ref ≡ some r → RecordOk r → RecordOk (f r))
      → ((r : GoalRecord R) → get_elem? s.records ref ≡ some r → RecordOk r → Evolve r (f r))
      → Sound s
      → Kept s (record s { records = modify f s.records ref })
  modify-Kept f s ref keeps evolves h =
      kept_records s (modify f s.records ref) h
        (modify-All RecordOk f s.records ref keeps h.records)
        (Evolving-modify f s.records ref
          (λ r k. evolves r k (All-get_elem? RecordOk s.records ref r h.records k)))
        (length-modify f s.records ref)

  -- What the loop of handleCancel keeps of the records.
  pub cancel_each-Kept :
      (gs : List (ℕ × ℕ)) (xs : List (GoalRecord R)) (infos : List GoalInfo)
      → All RecordOk xs
      → All RecordOk (cancel_each gs xs infos).0
        × Evolving xs (cancel_each gs xs infos).0
        × (length (cancel_each gs xs infos).0 ≡ length xs)
  unfolding cancel_each
  cancel_each-Kept [] xs infos ok = (ok, Evolving-refl xs, refl)
  cancel_each-Kept ((id, ref) ∷ gs) xs infos ok = elim (Option-cases (get_elem? xs ref)) [
    | inl none_there ↦ rw (none_there, cancel_each) (cancel_each-Kept gs xs infos ok)
    | inr (r, found) ↦ elim (Bool-cases (terminal r)) [
      | inl e ↦ rw (found, cancel_each, e) (cancel_each-Kept gs xs infos ok)
      | inr e ↦
          let one : (x : GoalRecord R) → get_elem? xs ref ≡ some x → terminal x ≡ false =
            λ x k. ap terminal (some_inj x r (sym k ∙ found)) ∙ e in
          let ys = modify cancel_record xs ref in
          let (ok', e', same) = cancel_each-Kept gs ys (infos ++ r.info ∷ []) (
            modify-All RecordOk cancel_record xs ref (λ x k p. cancel_record-Ok x p (one x k))
              ok) in
          rw (found, cancel_each, e)
            (
              ok',
              Evolving-trans xs ys _
                  (Evolving-modify cancel_record xs ref (λ x k.
                    cancel_record-Evolve x (All-get_elem? RecordOk xs ref x ok k) (one x k)))
                  e',
              same ∙ length-modify cancel_record xs ref,
            )
    ]
  ]
