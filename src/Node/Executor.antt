-- ===== src/Node/Executor.antt =====
-- node.go: the mailbox of a node and the goroutine that drains it. A function is a number.
use conductor_ros.Prelude.{
  ℕ, zero, suc, ◌+◌, Bool, true, false, not, ◌&&◌, ◌||◌, List, [], ◌∷◌, ◌++◌, if◌then◌else◌, ltb,
  length,
}

-- `nodeRuntime`, its executor: `is_quit` is whether `quit` is closed, `is_done` whether `run`
-- has returned. The functions that were accepted and those that ran are kept in order.
pub record Executor : Type 0 where
  pub mailbox : List ℕ
  pub is_quit : Bool
  pub is_done : Bool
  pub processed : ℕ
  pub dropped : ℕ
  pub accepted : List ℕ
  pub ran : List ℕ

abbrev pub capacity : ℕ
capacity = 64

unfoldable pub new_node_runtime : Executor
new_node_runtime = record {
  mailbox = [];
  is_quit = false;
  is_done = false;
  processed = 0;
  dropped = 0;
  accepted = [];
  ran = [];
}

-- `enqueue`: where both the closed channel and the mailbox are ready, `select` takes either.
unfoldable pub enqueue : Bool → ℕ → Executor → Bool × Executor
enqueue takes_quit f e =
    let has_room = ltb (length e.mailbox) capacity in
    if e.is_quit && (takes_quit || not has_room)
    then (false, e)
    else if has_room
    then (true, record e { mailbox = e.mailbox ++ f ∷ []; accepted = e.accepted ++ f ∷ [] })
    else (false, record e { dropped = e.dropped + 1 })

-- One round of `run`; with an empty mailbox and no quit it waits.
unfoldable pub take_one : Executor → Executor
take_one e = elim e.mailbox [
  | [] ↦ e
  | f ∷ rest ↦ record e { mailbox = rest; processed = e.processed + 1; ran = e.ran ++ f ∷ [] }
]

unfoldable pub run_once : Bool → Executor → Executor
unfolding take_one
run_once takes_quit e =
    if e.is_done
    then e
    else if e.is_quit && (takes_quit || not (ltb 0 (length e.mailbox)))
    then record e { is_done = true }
    else take_one e

unfoldable pub close_quit : Executor → Executor
close_quit e = record e { is_quit = true }

-- What happens to an executor.
pub data Use : Type 0 where
  enqueues : Bool → ℕ → Use
  runs : Bool → Use
  quits : Use

unfoldable pub do_use : Use → Executor → Executor
unfolding enqueue run_once close_quit
do_use (enqueues q f) e = (enqueue q f e).1
do_use (runs q) e = run_once q e
do_use quits e = close_quit e

unfoldable pub do_uses : List Use → Executor → Executor
unfolding do_use
do_uses [] e = e
do_uses (u ∷ us) e = do_uses us (do_use u e)

-- That many rounds, each of which would take the closed channel where it may.
unfoldable pub run_rounds : ℕ → Executor → Executor
unfolding run_once
run_rounds zero e = e
run_rounds (suc n) e = run_rounds n (run_once true e)
