-- ===== src/Clock/Sim.antt =====
-- clock.go: `simClock`. Times and durations are nanoseconds, none of them negative; a waiter's
-- channel, which holds one time, is found by the waiter's number.
use conductor_ros.Prelude.{
  ℕ, suc, ◌+◌, Bool, true, false, not, ◌&&◌, Option, none, some, List, [], ◌∷◌, ◌++◌, if◌then◌else◌,
  ltb, leb, ◌==◌,
}

-- `simWaiter`; `period` is 0 for a one-shot After.
pub record Waiter : Type 0 where
  pub id : ℕ
  pub at : ℕ
  pub after : ℕ
  pub anchored : Bool
  pub period : ℕ
  pub stopped : Bool

-- `simClock`, with the channels of its waiters.
pub record SimClock : Type 0 where
  pub now : ℕ
  pub started : Bool
  pub waiters : List Waiter
  pub channels : ℕ → Option ℕ
  pub next_id : ℕ

unfoldable pub new_sim_clock : SimClock
new_sim_clock = record { now = 0; started = false; waiters = []; channels = λ _. none; next_id = 0 }

-- Time begins: what was a duration becomes a deadline.
unfoldable pub anchor : ℕ → Waiter → Waiter
anchor t w = if w.anchored then w else record w { at = t + w.after; anchored = true }

-- Time went back: no deadline lies after now.
unfoldable pub clamp : ℕ → Waiter → Waiter
clamp t w = if ltb t w.at then record w { at = t } else w

unfoldable pub each : (Waiter → Waiter) → List Waiter → List Waiter
each f [] = []
each f (w ∷ ws) = f w ∷ each f ws

-- The waiters that fire, by number, and those that the clock keeps.
pub record Swept : Type 0 where
  pub fired : List ℕ
  pub kept : List Waiter

-- One round of the loop over the waiters; the rest is what the later rounds leave.
unfoldable pub sweep_one : ℕ → Waiter → Swept → Swept
sweep_one t w rest =
    if w.stopped
    then rest
    else if not w.anchored
    then record rest { kept = w ∷ rest.kept }
    else if leb w.at t
    then record {
      fired = w.id ∷ rest.fired;
      kept = if ltb 0 w.period then record w { at = t + w.period } ∷ rest.kept else rest.kept;
    }
    else record rest { kept = w ∷ rest.kept }

unfoldable pub sweep : ℕ → List Waiter → Swept
unfolding sweep_one
sweep t [] = record { fired = []; kept = [] }
sweep t (w ∷ ws) = sweep_one t w (sweep t ws)

-- A send that does not block: a full channel keeps what it has.
unfoldable pub send : ℕ → ℕ → (ℕ → Option ℕ) → ℕ → Option ℕ
send t id channels x = elim (channels x) [
  | some old ↦ some old
  | none ↦ if id == x then some t else none
]

unfoldable pub send_all : ℕ → List ℕ → (ℕ → Option ℕ) → ℕ → Option ℕ
unfolding send
send_all t [] channels = channels
send_all t (id ∷ ids) channels = send_all t ids (send t id channels)

-- The waiters as `Set` has them before its sweep.
unfoldable pub prepare : ℕ → SimClock → List Waiter
unfolding anchor clamp each
prepare t c =
    let anchored = if not c.started then each (anchor t) c.waiters else c.waiters in
    if c.started && ltb t c.now then each (clamp t) anchored else anchored

-- `Set`.
unfoldable pub set_time : ℕ → SimClock → SimClock
unfolding prepare sweep send_all
set_time t c =
    let s = sweep t (prepare t c) in
    record {
      now = t;
      started = true;
      waiters = s.kept;
      channels = send_all t s.fired c.channels;
      next_id = c.next_id;
    }

unfoldable pub add_waiter : ℕ → ℕ → SimClock → SimClock
add_waiter d period c = record c {
  waiters =
      c.waiters
      ++ record {
        id = c.next_id;
        at = c.now + d;
        after = d;
        anchored = c.started;
        period = period;
        stopped = false;
      }
        ∷ [];
  next_id = c.next_id + 1;
}

-- `After` and `Ticker`, whose waiter has the number `next_id`.
unfoldable pub after : ℕ → SimClock → SimClock
unfolding add_waiter
after d c = add_waiter d 0 c

unfoldable pub ticker : ℕ → SimClock → SimClock
unfolding add_waiter
ticker period c = add_waiter period period c

-- The function that `Ticker` returns.
unfoldable pub stop_waiter : ℕ → Waiter → Waiter
stop_waiter id w = if w.id == id then record w { stopped = true } else w

unfoldable pub stop : ℕ → SimClock → SimClock
unfolding each stop_waiter
stop id c = record c { waiters = each (stop_waiter id) c.waiters }

-- A receive from a waiter's channel.
unfoldable pub receive : ℕ → SimClock → SimClock
receive id c = record c { channels = λ x. if id == x then none else c.channels x }

unfoldable pub pending : SimClock → ℕ
pending c = count c.waiters
  where
    count : List Waiter → ℕ
    count [] = 0
    count (w ∷ ws) = let rest = count ws in if w.stopped then rest else suc rest

-- What a process does with the clock.
pub data Op : Type 0 where
  sets : ℕ → Op
  afters : ℕ → Op
  tickers : ℕ → Op
  stops : ℕ → Op
  receives : ℕ → Op

unfoldable pub do_op : Op → SimClock → SimClock
unfolding set_time after ticker stop receive
do_op (sets t) c = set_time t c
do_op (afters d) c = after d c
do_op (tickers p) c = ticker p c
do_op (stops id) c = stop id c
do_op (receives id) c = receive id c

unfoldable pub do_ops : List Op → SimClock → SimClock
unfolding do_op
do_ops [] c = c
do_ops (o ∷ os) c = do_ops os (do_op o c)
