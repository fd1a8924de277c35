-- ===== src/Mission/Examples.antt =====
-- mission.go on a courier, and its theorems at it.
use Prim.Native.String.{String}
use conductor_ros.Prelude.{ℕ, ◌≡◌, ◌↔◌, refl, true, false, Option, none, some, List, [], ◌∷◌, ◌++◌}
use conductor_ros.Mission.Wire.{StepDef, Machine, declared, wired, refused, no_target, wire_mission}
use conductor_ros.Mission.Run.{
  mission_idle, mission_done, StepErr, custom, goto_step, context_canceled, deadline_exceeded,
  of_handler, Runner, Loop, Input, goes, run, runner_of,
}
use conductor_ros.Mission.Log.{Logged}
use conductor_ros.Mission.Wiring.{HasNext, NamesDistinct, TargetsFit, wire_mission_iff}
use conductor_ros.Mission.Promise.{machine_of, Settles, run-Logged, run-Settles}
use conductor_ros.Mission.Count.{parse_count}
use conductor_ros.Mission.Endings.{has_err, run_keeps_err}

abbrev step : String → String → String → ℕ → StepDef
step name next fail retry = record {
  name = name;
  field = name;
  next = next;
  fail = fail;
  timeout = 120;
  retry = retry;
  backoff = 0;
}

abbrev courier_steps : List StepDef
courier_steps =
    step "pickup" "transit" "" 0
    ∷ (step "transit" "dropoff" "recharge" 0
        ∷ (step "dropoff" "done" "" 0 ∷ (step "recharge" "transit" "" 2 ∷ [])))

abbrev trip : Machine
trip = record { name = "trip"; start = "pickup"; steps = [] }

abbrev courier : Machine
courier = machine_of trip courier_steps

abbrev resting : Runner
resting = record {
  state = record { status = mission_idle; step = "pickup"; attempt = 0; err = none };
  transitions = 0;
  entries = λ _. 0;
  is_stopped = false;
  calls = [];
}

abbrev answers : Option StepErr → Input
answers e = record {
  stop_before = false;
  stop_during = false;
  stop_asleep = false;
  expired = false;
  answer = e;
}

abbrev interrupted : Input
interrupted = record {
  stop_before = false;
  stop_during = true;
  stop_asleep = false;
  expired = false;
  answer = none;
}

abbrev times_out : Input
times_out = record {
  stop_before = false;
  stop_during = false;
  stop_asleep = false;
  expired = true;
  answer = some context_canceled;
}

-- Picked up, lost on the way, recharged at the second attempt.
abbrev detour : List Input
detour =
    answers none
    ∷ (answers (some (custom "lost")) ∷ (answers (some (custom "no dock")) ∷ (answers none ∷ [])))

abbrev delivery : List Input
delivery = answers none ∷ (answers none ∷ (answers none ∷ []))

courier_wired : wire_mission (some trip) courier_steps ≡ wired courier
unfolding wire_mission
courier_wired = refl

lost_target :
    wire_mission (some trip) (step "pickup" "transit" "" 0 ∷ [])
    ≡ refused (no_target "pickup" "transit")
unfolding wire_mission
lost_target = refl

courier-HasNext : HasNext courier_steps
courier-HasNext = (refl, (refl, (refl, (refl, tt))))

detour_calls :
    (runner_of (run courier resting detour)).calls
    ≡ record { step = "recharge"; attempt = 2; err = none }
      ∷ (record { step = "recharge"; attempt = 1; err = some (custom "lost") }
          ∷ (record { step = "transit"; attempt = 1; err = none }
              ∷ (record { step = "pickup"; attempt = 1; err = none } ∷ [])))
unfolding run runner_of
detour_calls = refl

delivered : (runner_of (run courier resting (detour ++ delivery))).state ≡ record {
  status = mission_done;
  step = "done";
  attempt = 1;
  err = some (of_handler (custom "lost"));
}
unfolding run runner_of
delivered = refl

timed_out_err :
    (runner_of (run courier resting (answers none ∷ (times_out ∷ [])))).state.err
    ≡ some (of_handler deadline_exceeded)
unfolding run runner_of
timed_out_err = refl

rerouted :
    (runner_of (
      run courier resting
        (answers (some (goto_step "dropoff")) ∷ (answers none ∷ (answers none ∷ []))))).state.status
    ≡ mission_done
unfolding run runner_of
rerouted = refl

wire_mission_iff_example : (wire_mission (some trip) courier_steps ≡ wired courier) ↔ (
    NamesDistinct courier_steps
    × (declared courier_steps trip.start ≡ true)
    × TargetsFit courier_steps courier_steps)
wire_mission_iff_example = wire_mission_iff trip courier_steps

run-Logged_example : Logged courier (runner_of (run courier resting detour)).calls
run-Logged_example = run-Logged trip courier_steps courier_wired courier-HasNext resting detour

run-Settles_example : Settles (run courier resting (detour ++ delivery))
run-Settles_example =
    run-Settles trip courier_steps courier_wired courier-HasNext resting (detour ++ delivery)

abbrev lost : List Input
lost = answers none ∷ (answers (some (custom "lost")) ∷ [])

-- The loop behind the fail branch.
abbrev lost_loop : Loop
lost_loop = record {
  step = "recharge";
  attempt = 1;
  cause = some (custom "lost");
  runner = runner_of (run courier resting lost);
}

lost_there : run courier resting lost ≡ goes lost_loop
unfolding run runner_of
lost_there = refl

run_keeps_err_example :
    (lost_loop.runner.state.err ≡ some (of_handler (custom "lost")))
    × (has_err (runner_of (run courier resting (lost ++ delivery))).state.err ≡ true)
run_keeps_err_example =
    run_keeps_err courier resting lost delivery lost_loop (custom "lost") lost_there refl

-- The runes of "12", of "1x", and of 18446744073709551617, which is 2 ^ 64 + 1.
count_test : parse_count (49 ∷ (50 ∷ [])) ≡ some 12
unfolding parse_count
count_test = refl

bad_count_test : parse_count (49 ∷ (120 ∷ [])) ≡ none
unfolding parse_count
bad_count_test = refl

abbrev large : List ℕ
large =
    49
    ∷ (56
        ∷ (52
            ∷ (52
                ∷ (54
                    ∷ (55
                        ∷ (52
                            ∷ (52
                                ∷ (48
                                    ∷ (55
                                        ∷ (51
                                            ∷ (55
                                                ∷ (48
                                                    ∷ (57
                                                        ∷ (53
                                                            ∷ (53
                                                            ∷ (49
                                                            ∷ (54
                                                            ∷ (49 ∷ (55 ∷ [])))))))))))))))))))

large_count_test : parse_count large ≡ some 1
unfolding parse_count
large_count_test = refl
