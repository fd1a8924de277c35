-- ===== src/Clock/Examples.antt =====
-- clock.go on a short simulation, and its theorems at it.
use conductor_ros.Prelude.{◌<◌, ◌≡◌, refl, true, false, some, is_some, List, [], ◌∷◌, arith, All}
use conductor_ros.Clock.Sim.{
  Waiter, new_sim_clock, set_time, pending, Op, sets, afters, tickers, do_ops,
}
use conductor_ros.Clock.Keeps.{Waits, do_ops-Waits}
use conductor_ros.Clock.Promise.{Ticks, reset-Ticks}

-- A timeout of 30 and a ticker of 10, before the simulation publishes 1000.
abbrev waiting : List Op
waiting = afters 30 ∷ (tickers 10 ∷ [])

abbrev started : List Op
started = afters 30 ∷ (tickers 10 ∷ (sets 1000 ∷ []))

-- Nothing fires at 1000; the ticker does at 1010, and the timeout at 1035.
tick_test : (do_ops (sets 1010 ∷ []) (do_ops started new_sim_clock)).channels 1 ≡ some 1010
unfolding do_ops new_sim_clock
tick_test = refl

timeout_test :
    (do_ops (sets 1010 ∷ (sets 1035 ∷ [])) (do_ops started new_sim_clock)).channels 0 ≡ some 1035
unfolding do_ops new_sim_clock
timeout_test = refl

pending_test : pending (do_ops (sets 1035 ∷ []) (do_ops started new_sim_clock)) ≡ 1
unfolding do_ops new_sim_clock pending
pending_test = refl

do_ops-Waits_example :
    All
      (Waits (do_ops started new_sim_clock).started (do_ops started new_sim_clock).now)
      (do_ops started new_sim_clock).waiters
do_ops-Waits_example = do_ops-Waits started

has_started : (do_ops started new_sim_clock).started ≡ true
unfolding do_ops new_sim_clock
has_started = refl

back : 5 < (do_ops started new_sim_clock).now
unfolding do_ops new_sim_clock
back = omega arith

reset-Ticks_example :
    All
      (λ (w : Waiter).
        w.stopped ≡ false
        → is_some ((set_time 5 (do_ops started new_sim_clock)).channels w.id) ≡ true)
      (do_ops started new_sim_clock).waiters
    × All (Ticks 5) (set_time 5 (do_ops started new_sim_clock)).waiters
reset-Ticks_example = reset-Ticks started 5 has_started back

not_started : (do_ops waiting new_sim_clock).started ≡ false
unfolding do_ops new_sim_clock
not_started = refl

long : All (λ w. 0 < w.after) (do_ops waiting new_sim_clock).waiters
unfolding do_ops new_sim_clock
long = (omega arith, (omega arith, tt))
