-- ===== src/Action/Server.antt =====
-- action.go: the goals of an action server and its handlers, one definition for each critical section.
use conductor_ros.Prelude.{
  ℕ, zero, suc, ◌+◌, Bool, true, false, ◌&&◌, Option, none, some, List, [], ◌∷◌, ◌++◌,
  if◌then◌else◌, length, get_elem?, ◌==◌,
}

pub data GoalStatus : Type 0 where
  executing canceling succeeded canceled aborted : GoalStatus

-- `goalInfoMsg`; a goal id is the number that its 16 bytes make, so 0 is the zero UUID.
pub record GoalInfo : Type 0 where
  pub goal_id : ℕ
  pub stamp : ℕ

-- `goalRecord`; a result of `none` is the zero value. `done` says whether the channel is closed,
-- `stopped` whether the context of the goal is canceled.
pub record GoalRecord (R : Type 0) : Type 0 where
  pub info : GoalInfo
  pub status : GoalStatus
  pub result : Option R
  pub done : Bool
  pub stopped : Bool

abbrev pub is_terminal_status : GoalStatus → Bool
is_terminal_status executing = false
is_terminal_status canceling = false
is_terminal_status succeeded = true
is_terminal_status canceled = true
is_terminal_status aborted = true

pub data ReturnCode : Type 0 where
  cancel_none unknown_goal_id goal_terminated : ReturnCode

-- `cancelGoalResponse`.
pub record CancelResponse : Type 0 where
  pub code : ReturnCode
  pub goals_canceling : List GoalInfo

module _ {A : Type 0} where
  -- A change of the object that a reference stands for.
  abbrev pub modify : (A → A) → List A → ℕ → List A
  modify f [] i = []
  modify f (x ∷ xs) zero = f x ∷ xs
  modify f (x ∷ xs) (suc i) = x ∷ modify f xs i

-- `actionServer`: `records` are the records that were made, a reference is an index into them;
-- `goals` maps ids to references; `statuses` are the status arrays published.
pub record Server (R : Type 0) : Type 0 where
  pub records : List (GoalRecord R)
  pub goals : List (ℕ × ℕ)
  pub accepted : ℕ
  pub statuses : List (List (GoalInfo × GoalStatus))

-- What `handleGetResult` comes to: the zero response (STATUS_UNKNOWN), a wait, or a response.
pub data Reply (R : Type 0) : Type 0 where
  unknown_goal waiting : Reply R
  replied : GoalStatus → Option R → Reply R

unfoldable pub lookup_goal : List (ℕ × ℕ) → ℕ → Option ℕ
lookup_goal [] id = none
lookup_goal ((k, ref) ∷ gs) id =
    let later = lookup_goal gs id in if k == id then some ref else later

-- `delete(s.goals, id)`.
unfoldable pub delete_goal : List (ℕ × ℕ) → ℕ → List (ℕ × ℕ)
delete_goal [] id = []
delete_goal ((k, ref) ∷ gs) id =
    let rest = delete_goal gs id in if k == id then rest else (k, ref) ∷ rest

-- What the handler's return makes of a goal: `failed` is `err != nil`.
abbrev pub outcome : Bool → Bool → GoalStatus
outcome failed stopped =
    if failed && stopped then canceled else if failed then aborted else succeeded

module _ {R : Type 0} where
  abbrev pub terminal : GoalRecord R → Bool
  terminal r = is_terminal_status r.status

  -- The array of `publishStatus`, in the order of the map's list.
  unfoldable pub status_list : List (GoalRecord R) → List (ℕ × ℕ) → List (GoalInfo × GoalStatus)
  status_list records [] = []
  status_list records ((id, ref) ∷ gs) = elim (get_elem? records ref) [
    | none ↦ status_list records gs
    | some r ↦ (r.info, r.status) ∷ status_list records gs
  ]

  unfoldable pub publish_status : Server R → Server R
  unfolding status_list
  publish_status s = record s { statuses = s.statuses ++ status_list s.records s.goals ∷ [] }

  -- `handleSendGoal`: whether the goal is accepted, and the reference of its record.
  unfoldable pub handle_send_goal : ℕ → ℕ → Server R → Server R × Option ℕ
  unfolding lookup_goal publish_status
  handle_send_goal id stamp s = elim (lookup_goal s.goals id) [
    | some ref ↦ (s, none)
    | none ↦
        let rec : GoalRecord R = record {
          info = record { goal_id = id; stamp = stamp };
          status = executing;
          result = none;
          done = false;
          stopped = false;
        } in
        (
          publish_status (record s {
            records = s.records ++ rec ∷ [];
            goals = s.goals ++ (id, length s.records) ∷ [];
            accepted = s.accepted + 1;
          }),
          some (length s.records),
        )
  ]

  -- The record after the handler's return.
  abbrev pub finish_record : Bool → R → GoalRecord R → GoalRecord R
  finish_record failed result r = record {
    info = r.info;
    status = outcome failed r.stopped;
    result = some result;
    done = true;
    stopped = r.stopped;
  }

  -- The end of the goal's goroutine, up to its timer.
  unfoldable pub end_goal : ℕ → Bool → R → Server R → Server R
  unfolding publish_status
  end_goal ref failed result s =
      publish_status (record s { records = modify (finish_record failed result) s.records ref })

  -- Its deferred `cancel()`.
  abbrev pub stop_record : GoalRecord R → GoalRecord R
  stop_record r = record r { stopped = true }

  unfoldable pub release_context : ℕ → Server R → Server R
  release_context ref s = record s { records = modify stop_record s.records ref }

  -- What its timer does after the grace period.
  unfoldable pub drop_goal : ℕ → Server R → Server R
  unfolding delete_goal
  drop_goal id s = record s { goals = delete_goal s.goals id }

  -- The second critical section of `handleGetResult`, for a record that was found: nothing until
  -- its channel is closed.
  unfoldable pub read_result : ℕ → Server R → Option (GoalStatus × Option R)
  read_result ref s = elim (get_elem? s.records ref) [
    | none ↦ none
    | some r ↦ if r.done then some (r.status, r.result) else none
  ]

  -- `handleGetResult`, where no other section comes between its two: its look-up in the map, then
  -- the record; `waiting` until its channel is closed.
  unfoldable pub handle_get_result : ℕ → Server R → Reply R
  unfolding lookup_goal read_result
  handle_get_result id s = elim (lookup_goal s.goals id) [
    | none ↦ unknown_goal
    | some ref ↦ elim (read_result ref s) [
      | none ↦ waiting
      | some (status, result) ↦ replied status result
    ]
  ]

  abbrev pub cancel_record : GoalRecord R → GoalRecord R
  cancel_record r = record r { status = canceling; stopped = true }

  -- The loop of `handleCancel` for the zero UUID.
  unfoldable pub cancel_each :
      List (ℕ × ℕ) → List (GoalRecord R) → List GoalInfo → List (GoalRecord R) × List GoalInfo
  cancel_each [] records infos = (records, infos)
  cancel_each ((id, ref) ∷ gs) records infos = elim (get_elem? records ref) [
    | none ↦ cancel_each gs records infos
    | some r ↦
        if terminal r
        then cancel_each gs records infos
        else cancel_each gs (modify cancel_record records ref) (infos ++ r.info ∷ [])
  ]

  unfoldable pub cancel_every : Server R → Server R × CancelResponse
  unfolding cancel_each
  cancel_every s =
      let (records, infos) = cancel_each s.goals s.records [] in
      (record s { records = records }, record { code = cancel_none; goals_canceling = infos })

  unfoldable pub cancel_one : ℕ → Server R → Server R × CancelResponse
  unfolding lookup_goal
  cancel_one id s = elim (lookup_goal s.goals id) [
    | none ↦ (s, record { code = unknown_goal_id; goals_canceling = [] })
    | some ref ↦ elim (get_elem? s.records ref) [
      | none ↦ (s, record { code = unknown_goal_id; goals_canceling = [] })
      | some r ↦
          if terminal r then (s, record { code = goal_terminated; goals_canceling = [] }) else (
            record s { records = modify cancel_record s.records ref },
            record { code = cancel_none; goals_canceling = r.info ∷ [] },
          )
    ]
  ]

  -- The critical section of `handleCancel`: the zero UUID stands for every goal.
  unfoldable pub cancel_goals : ℕ → Server R → Server R × CancelResponse
  unfolding cancel_every cancel_one
  cancel_goals id s = if id == 0 then cancel_every s else cancel_one id s

  -- `handleCancel`.
  unfoldable pub handle_cancel : ℕ → Server R → Server R × CancelResponse
  unfolding cancel_goals publish_status
  handle_cancel id s =
      let (s', res) = cancel_goals id s in
      (if length res.goals_canceling == 0 then s' else publish_status s', res)
