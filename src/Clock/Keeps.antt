-- ===== src/Clock/Keeps.antt =====
-- clock.go: what every use of the clock keeps.
use conductor_ros.Prelude.{
  ℕ, ◌+◌, ◌≤◌, ◌≡◌, refl, Bool, true, false, not, ◌&&◌, List, [], ◌∷◌, if◌then◌else◌, ltb, leb,
  ◌==◌, if_case, arith, All, All-append,
}
use conductor_ros.Clock.Sim.{
  Waiter, SimClock, new_sim_clock, anchor, clamp, each, Swept, sweep_one, sweep, prepare, set_time,
  add_waiter, after, ticker, stop_waiter, stop, receive, Op, sets, afters, tickers, stops, receives,
  do_op, do_ops,
}

-- Before time begins no waiter has a deadline; from then on each has one, and none of them is past.
abbrev pub Waits : Bool → ℕ → Waiter → Type 0
Waits false now w = w.anchored ≡ false
Waits true now w = (w.anchored ≡ true) × (now ≤ w.at)

abbrev pub Inv : SimClock → Type 0
Inv c = All (Waits c.started c.now) c.waiters

pub All-each :
    (P Q : Waiter → Type 0) (f : Waiter → Waiter) (ws : List Waiter)
    → ((w : Waiter) → P w → Q (f w))
    → All P ws
    → All Q (each f ws)
unfolding each
All-each P Q f [] h a = tt
All-each P Q f (w ∷ ws) h (a, rest) = (h w a, All-each P Q f ws h rest)

-- A deadline, as the sweep finds it.
abbrev pub Anchored : Waiter → Type 0
Anchored w = w.anchored ≡ true

sweep_one-Waits :
    (t : ℕ) (w : Waiter) (s : Swept)
    → w.anchored ≡ true
    → All (Waits true t) s.kept
    → All (Waits true t) (sweep_one t w s).kept
unfolding sweep_one
sweep_one-Waits t w s h a =
    if_case Good w.stopped (λ _. a)
      λ _.
        if_case Good (not w.anchored) (λ k. absurd (ground (arith, h, k)))
          λ _.
            if_case Good (leb w.at t)
              (λ _.
                if_case (All (Waits true t)) (ltb 0 w.period) (λ _. ((h, omega arith), a)) (λ _. a))
              (λ later. ((h, ground (arith, later)), a))
  where
    Good : Swept → Type 0
    Good s' = All (Waits true t) s'.kept

sweep-Waits :
    (t : ℕ) (ws : List Waiter)
    → All (λ w. w.anchored ≡ true) ws
    → All (Waits true t) (sweep t ws).kept
unfolding sweep
sweep-Waits t [] a = tt
sweep-Waits t (w ∷ ws) (a, rest) = sweep_one-Waits t w (sweep t ws) a (sweep-Waits t ws rest)

anchor_lem : (t : ℕ) (w : Waiter) → (anchor t w).anchored ≡ true
unfolding anchor
anchor_lem t w = if_case Anchored w.anchored (λ h. h) (λ _. refl)

clamp_lem : (t : ℕ) (w : Waiter) → w.anchored ≡ true → (clamp t w).anchored ≡ true
unfolding clamp
clamp_lem t w h = if_case Anchored (ltb t w.at) (λ _. h) (λ _. h)

pub All-Anchored :
    (started : Bool) (now : ℕ) (ws : List Waiter)
    → started ≡ true
    → All (Waits started now) ws
    → All Anchored ws
All-Anchored false now ws h a = absurd (cc h)
All-Anchored true now [] h a = tt
All-Anchored true now (w ∷ ws) h (a, rest) = (a.0, All-Anchored true now ws h rest)

prepare_lem : (t : ℕ) (c : SimClock) → Inv c → All (λ w. w.anchored ≡ true) (prepare t c)
unfolding prepare
prepare_lem t c v =
    if_case (All Anchored) (c.started && ltb t c.now)
      (λ _. All-each Anchored Anchored (clamp t) _ (clamp_lem t) begun) (λ _. begun)
  where
    begun : All Anchored (if not c.started then each (anchor t) c.waiters else c.waiters)
    begun =
        if_case (All Anchored) (not c.started)
          (λ _.
            All-each (Waits c.started c.now) Anchored (anchor t) c.waiters (λ w h. anchor_lem t w)
              v)
          (λ h. All-Anchored c.started c.now c.waiters (ground (arith, h)) v)

set_time-Inv : (t : ℕ) (c : SimClock) → Inv c → Inv (set_time t c)
unfolding set_time
set_time-Inv t c v = sweep-Waits t (prepare t c) (prepare_lem t c v)

add_waiter-Inv : (d period : ℕ) (c : SimClock) → Inv c → Inv (add_waiter d period c)
unfolding add_waiter
add_waiter-Inv d period c v = All-append (Waits c.started c.now) c.waiters _ v (fresh c.started, tt)
  where
    fresh :
        (b : Bool)
        → Waits b c.now (record {
          id = c.next_id;
          at = c.now + d;
          after = d;
          anchored = b;
          period = period;
          stopped = false;
        })
    fresh false = refl
    fresh true = (refl, omega arith)

stop-Inv : (id : ℕ) (c : SimClock) → Inv c → Inv (stop id c)
unfolding stop stop_waiter
stop-Inv id c v =
    All-each (Waits c.started c.now) (Waits c.started c.now) (stop_waiter id) c.waiters
      (λ w h. if_case (Waits c.started c.now) (w.id == id) (λ _. marked c.started w h) (λ _. h)) v
  where
    marked : (b : Bool) (w : Waiter) → Waits b c.now w → Waits b c.now (record w { stopped = true })
    marked false w h = h
    marked true w h = h

do_op-Inv : (o : Op) (c : SimClock) → Inv c → Inv (do_op o c)
unfolding do_op after ticker receive
do_op-Inv (sets t) c v = set_time-Inv t c v
do_op-Inv (afters d) c v = add_waiter-Inv d 0 c v
do_op-Inv (tickers p) c v = add_waiter-Inv p p c v
do_op-Inv (stops id) c v = stop-Inv id c v
do_op-Inv (receives id) c v = v

do_ops-Inv : (os : List Op) (c : SimClock) → Inv c → Inv (do_ops os c)
unfolding do_ops
do_ops-Inv [] c v = v
do_ops-Inv (o ∷ os) c v = do_ops-Inv os (do_op o c) (do_op-Inv o c v)

new-Inv : Inv new_sim_clock
unfolding new_sim_clock
new-Inv = tt

-- However the clock was used, no waiter has a deadline before time begins; from then on each
-- waiter has one, and none of them lies before now: what was due has fired or is gone.
pub do_ops-Waits :
    (os : List Op)
    → All
        (Waits (do_ops os new_sim_clock).started (do_ops os new_sim_clock).now)
        (do_ops os new_sim_clock).waiters
do_ops-Waits os = do_ops-Inv os new_sim_clock new-Inv
