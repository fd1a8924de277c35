-- ===== src/Action/Examples.antt =====
-- action.go on two goals, and its theorems at them.
use conductor_ros.Prelude.{ℕ, ◌≡◌, refl, true, false, none, some, All, get_elem?}
use conductor_ros.Action.Server.{
  canceling, canceled, GoalRecord, Server, cancel_none, unknown_goal_id, handle_send_goal, end_goal,
  drop_goal, handle_cancel, read_result, handle_get_result, replied, unknown_goal,
}
use conductor_ros.Action.Steps.{sent, finished, canceled_by, Steps, stay, more, Sound, fresh}
use conductor_ros.Action.Answers.{
  Steps-Sound, Canceled, handle_cancel-Canceled, Stopped, cancel_goals-Stopped,
}

-- Goals 7 and 9 are accepted, then 7 is being canceled.
abbrev one_goal : Server ℕ
one_goal = (handle_send_goal 7 100 fresh).0

abbrev two_goals : Server ℕ
two_goals = (handle_send_goal 9 101 one_goal).0

abbrev stopping : Server ℕ
stopping = (handle_cancel 7 two_goals).0

abbrev ended : Server ℕ
ended = end_goal 0 true 42 stopping

abbrev first : GoalRecord ℕ
first = record {
  info = record { goal_id = 7; stamp = 100 };
  status = canceling;
  result = none;
  done = false;
  stopped = true;
}

first_there : get_elem? stopping.records 0 ≡ some first
unfolding handle_send_goal handle_cancel
first_there = refl

stopping_run : Steps fresh stopping
stopping_run =
    more fresh two_goals stopping
      (more fresh one_goal two_goals (more fresh fresh one_goal (stay fresh) (sent 7 100 fresh))
        (sent 9 101 one_goal))
      (canceled_by 7 two_goals)

ended_run : Steps fresh ended
ended_run =
    more fresh stopping ended stopping_run (finished 0 true 42 first stopping first_there refl)

-- A second goal of the same id is refused.
again_test : (handle_send_goal 7 102 two_goals).1 ≡ none
unfolding handle_send_goal
again_test = refl

-- Its reader waits until the handler has returned, and reads it after its time in the map.
waiting_test : read_result 0 stopping ≡ none
unfolding read_result handle_send_goal handle_cancel
waiting_test = refl

-- While the map has the goal, a new call of get_result is answered too; then it is unknown.
reply_test : handle_get_result 7 ended ≡ replied canceled (some 42)
unfolding handle_get_result end_goal handle_send_goal handle_cancel
reply_test = refl

late_reply_test : handle_get_result 7 (drop_goal 7 ended) ≡ unknown_goal
unfolding handle_get_result drop_goal end_goal handle_send_goal handle_cancel
late_reply_test = refl

-- A goal that is dropped after its grace period is unknown from then on.
dropped_test : (handle_cancel 7 (drop_goal 7 ended)).1.code ≡ unknown_goal_id
unfolding drop_goal end_goal handle_send_goal handle_cancel
dropped_test = refl

Steps-Sound_example : Sound ended
Steps-Sound_example = Steps-Sound ended ended_run

handle_cancel-Canceled_example :
    Canceled 9 ended (handle_cancel 9 ended).0 (handle_cancel 9 ended).1
handle_cancel-Canceled_example = handle_cancel-Canceled 9 ended ended_run refl

cancel_goals-Stopped_example :
    All (Stopped (handle_cancel 0 ended).0.records) ended.goals
    × ((handle_cancel 0 ended).1.code ≡ cancel_none)
cancel_goals-Stopped_example = cancel_goals-Stopped ended ended_run
