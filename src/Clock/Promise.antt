-- ===== src/Clock/Promise.antt =====
-- clock.go: the first time that the clock is set, and a time that lies before the last one.
use mathlib.Core.Path.{subst}
use conductor_ros.Prelude.Within.{Within, All-map}
use conductor_ros.Prelude.{
  sym, ◌⊎◌, inl, inr, Option, is_some, Option-cases, ==_iff, lt→ltb, ℕ, ◌+◌, ◌≤◌, ◌<◌, ◌≡◌, refl,
  ap, ◌∙◌, Bool, true, false, not, ◌&&◌, List, [], ◌∷◌, if◌then◌else◌, ltb, leb, if_case, arith,
  All,
}
use conductor_ros.Clock.Sim.{
  Waiter, SimClock, new_sim_clock, anchor, clamp, send, each, Swept, sweep_one, sweep, send_all,
  prepare, set_time, Op, do_ops,
}
use conductor_ros.Clock.Keeps.{Waits, Inv, All-each, do_ops-Waits}

-- Waiters that are due.
abbrev Due : ℕ → Waiter → Type 0
Due t w = (w.anchored ≡ true) × (w.at ≤ t)

abbrev pub Ticks : ℕ → Waiter → Type 0
Ticks t w = (0 < w.period) × (w.at ≡ t + w.period)

sweep-Ticks : (t : ℕ) (ws : List Waiter) → All (Due t) ws → All (Ticks t) (sweep t ws).kept
unfolding sweep sweep_one
sweep-Ticks t [] a = tt
sweep-Ticks t (w ∷ ws) (a, rest) =
    let later = sweep-Ticks t ws rest in
    if_case Left w.stopped (λ _. later)
      λ _.
        if_case Left (not w.anchored) (λ k. absurd (ground (arith, a, k)))
          λ _.
            if_case Left (leb w.at t)
              (λ _.
                if_case (All (Ticks t)) (ltb 0 w.period) (λ k. ((ground (arith, k), refl), later))
                  (λ _. later))
              (λ k. absurd (ground (arith, a, k)))
  where
    Left : Swept → Type 0
    Left s = All (Ticks t) s.kept

clamp-Due : (t now : ℕ) (w : Waiter) → t < now → Waits true now w → Due t (clamp t w)
unfolding clamp
clamp-Due t now w h (a, late) =
    if_case (Due t) (ltb t w.at) (λ _. (a, omega arith)) (λ k. (a, ground (arith, k)))

prepare-Due :
    (t : ℕ) (c : SimClock) → c.started ≡ true → t < c.now → Inv c → All (Due t) (prepare t c)
unfolding prepare
prepare-Due t c h back v = clamped c.started h v
  where
    clamped :
        (b : Bool)
        → b ≡ true
        → All (Waits b c.now) c.waiters
        → All (Due t) (
            if b && ltb t c.now
            then each (clamp t) (if not b then each (anchor t) c.waiters else c.waiters)
            else (if not b then each (anchor t) c.waiters else c.waiters))
    clamped false k a = absurd (cc k)
    clamped true k a =
        if_case (All (Due t)) (ltb t c.now)
          (λ _.
            All-each (Waits true c.now) (Due t) (clamp t) c.waiters
              (λ w d. clamp-Due t c.now w back d) a)
          (λ late. absurd (ground (arith, late, back)))

le→leb : (a b : ℕ) → a ≤ b → leb a b ≡ true
le→leb a b h = ground (arith, h)

-- Every waiter that was not stopped is among those that fire.
sweep-Within :
    (t : ℕ) (ws : List Waiter)
    → All (Due t) ws
    → All (λ (w : Waiter). w.stopped ≡ false → Within w.id (sweep t ws).fired) ws
unfolding sweep sweep_one
sweep-Within t [] a = tt
sweep-Within t (w ∷ ws) ((anchored, due), rest) = (
  λ live. rw (live, sweep, anchored, le→leb w.at t due) (inl refl),
  All-map ws (λ x k live. later x.id (k live)) (sweep-Within t ws rest),
)
  where
    later : (x : ℕ) → Within x (sweep t ws).fired → Within x (sweep_one t w (sweep t ws)).fired
    later x k =
        if_case (λ (s : Swept). Within x s.fired) w.stopped (λ _. k)
          λ _.
            if_case (λ (s : Swept). Within x s.fired) (not w.anchored) (λ _. k)
              λ _. if_case (λ (s : Swept). Within x s.fired) (leb w.at t) (λ _. inr k) (λ _. k)

-- A send leaves its own channel full, and every channel that is.
send-full :
    (t id x : ℕ) (channels : ℕ → Option ℕ)
    → (id ≡ x) ⊎ (is_some (channels x) ≡ true)
    → is_some (send t id channels x) ≡ true
unfolding send
send-full t id x channels h = elim (Option-cases (channels x)) [
  | inr (old, e) ↦ rw (e, send) refl
  | inl e ↦ elim h [
    | inl same ↦ rw (e, send, (==_iff id x).1 same) refl
    | inr full ↦ absurd (cc (rw e at full))
  ]
]

send_all-full :
    (t x : ℕ) (ids : List ℕ) (channels : ℕ → Option ℕ)
    → (Within x ids) ⊎ (is_some (channels x) ≡ true)
    → is_some (send_all t ids channels x) ≡ true
unfolding send_all
send_all-full t x [] channels (inl h) = absurd h
send_all-full t x [] channels (inr h) = h
send_all-full t x (id ∷ ids) channels (inl (inl e)) =
    send_all-full t x ids (send t id channels) (inr (send-full t id x channels (inl (sym e))))
send_all-full t x (id ∷ ids) channels (inl (inr h)) =
    send_all-full t x ids (send t id channels) (inl h)
send_all-full t x (id ∷ ids) channels (inr h) =
    send_all-full t x ids (send t id channels) (inr (send-full t id x channels (inr h)))

-- Clamping changes the deadlines of waiters only.
each-clamp :
    (t : ℕ) (ids : List ℕ) (ws : List Waiter)
    → All (λ (w : Waiter). w.stopped ≡ false → Within w.id ids) (each (clamp t) ws)
    → All (λ (w : Waiter). w.stopped ≡ false → Within w.id ids) ws
unfolding each clamp
each-clamp t ids [] a = tt
each-clamp t ids (w ∷ ws) (a, rest) = (kept, each-clamp t ids ws rest)
  where
    kept : w.stopped ≡ false → Within w.id ids
    kept =
        if_case
          (λ (v : Waiter).
            (v.stopped ≡ false → Within v.id ids) → w.stopped ≡ false → Within w.id ids)
          (ltb t w.at) (λ _ k. k) (λ _ k. k) a

prepare-back :
    (t : ℕ) (c : SimClock) → c.started ≡ true → t < c.now → prepare t c ≡ each (clamp t) c.waiters
unfolding prepare
prepare-back t c h back = rw (h, lt→ltb t c.now back) refl

-- After a time that lies before the clock's, which a reset of the simulation publishes, every
-- waiter that was not stopped has a time in its channel, and only tickers are left, each due one
-- period from then.
pub reset-Ticks :
    (os : List Op) (t : ℕ)
    → (do_ops os new_sim_clock).started ≡ true
    → t < (do_ops os new_sim_clock).now
    → All
        (λ (w : Waiter).
          w.stopped ≡ false → is_some ((set_time t (do_ops os new_sim_clock)).channels w.id) ≡ true)
        (do_ops os new_sim_clock).waiters
      × All (Ticks t) (set_time t (do_ops os new_sim_clock)).waiters
unfolding set_time
reset-Ticks os t h back =
    let c = do_ops os new_sim_clock in
    let due = prepare-Due t c h back (do_ops-Waits os) in
    let fired = (sweep t (prepare t c)).fired in
    (
      All-map c.waiters (λ w k live. send_all-full t w.id fired c.channels (inl (k live)))
          (each-clamp t fired c.waiters (
            subst (λ ws. All (λ (w : Waiter). w.stopped ≡ false → Within w.id fired) ws)
              (prepare-back t c h back) (sweep-Within t (prepare t c) due))),
      sweep-Ticks t (prepare t c) due,
    )

-- Waiters that are not due yet.
abbrev Ahead : ℕ → Waiter → Type 0
Ahead t w = t < w.at

sweep-Ahead : (t : ℕ) (ws : List Waiter) → All (Ahead t) ws → (sweep t ws).fired ≡ []
unfolding sweep sweep_one
sweep-Ahead t [] a = refl
sweep-Ahead t (w ∷ ws) (a, rest) =
    let later = sweep-Ahead t ws rest in
    if_case Silent w.stopped (λ _. later)
      λ _.
        if_case Silent (not w.anchored) (λ _. later)
          λ _. if_case Silent (leb w.at t) (λ k. absurd (ground (arith, a, k))) (λ _. later)
  where
    Silent : Swept → Type 0
    Silent s = s.fired ≡ []

each-Ahead :
    (t now : ℕ) (ws : List Waiter)
    → All (Waits false now) ws
    → All (λ w. 0 < w.after) ws
    → All (Ahead t) (each (anchor t) ws)
unfolding each anchor
each-Ahead t now [] a long = tt
each-Ahead t now (w ∷ ws) (a, rest) (l, long) = (anchor-Ahead, each-Ahead t now ws rest long)
  where
    anchor-Ahead : Ahead t (anchor t w)
    anchor-Ahead = if_case (Ahead t) w.anchored (λ k. absurd (cc (a, k))) (λ _. omega arith)

prepare-Ahead :
    (t : ℕ) (c : SimClock)
    → c.started ≡ false
    → All (λ w. 0 < w.after) c.waiters
    → Inv c
    → All (Ahead t) (prepare t c)
unfolding prepare
prepare-Ahead t c h long v = anchored c.started h v
  where
    anchored :
        (b : Bool)
        → b ≡ false
        → All (Waits b c.now) c.waiters
        → All (Ahead t) (
            if b && ltb t c.now
            then each (clamp t) (if not b then each (anchor t) c.waiters else c.waiters)
            else (if not b then each (anchor t) c.waiters else c.waiters))
    anchored false k a = each-Ahead t c.now c.waiters a long
    anchored true k a = absurd (cc k)

-- The first time that the clock is set fires no wait that was made before it, if none of them
-- is for no time at all: whatever the simulation's time is, no channel gets one.
pub first_set_silent :
    (os : List Op) (t : ℕ)
    → (do_ops os new_sim_clock).started ≡ false
    → All (λ w. 0 < w.after) (do_ops os new_sim_clock).waiters
    → (set_time t (do_ops os new_sim_clock)).channels ≡ (do_ops os new_sim_clock).channels
unfolding set_time
first_set_silent os t h long =
    ap (λ (ids : List ℕ). send_all t ids (do_ops os new_sim_clock).channels)
      (sweep-Ahead t (prepare t (do_ops os new_sim_clock))
        (prepare-Ahead t (do_ops os new_sim_clock) h long (do_ops-Waits os)))
    ∙ (unfold send_all in refl)
