-- ===== src/Node/Fifo.antt =====
-- node.go: what every use of an executor keeps.
use mathlib.Core.List.{append-nil, append_assoc}
use conductor_ros.Prelude.{
  ℕ, ◌+◌, ◌≤◌, ◌≡◌, refl, sym, ap, ◌∙◌, Bool, true, false, not, ◌&&◌, ◌||◌, List, [], ◌∷◌, ◌++◌,
  ltb, length, length-append, if_case, arith,
}
use conductor_ros.Node.Executor.{
  Executor, capacity, new_node_runtime, enqueue, take_one, run_once, close_quit, Use, enqueues,
  runs, quits, do_use, do_uses, run_rounds,
}

pub record Fifo (e : Executor) : Type 0 where
  pub bounded : length e.mailbox ≤ capacity
  pub in_order : e.accepted ≡ e.ran ++ e.mailbox
  pub counted : e.processed ≡ length e.ran

enqueue-Fifo : (q : Bool) (f : ℕ) (e : Executor) → Fifo e → Fifo (enqueue q f e).1
unfolding enqueue
enqueue-Fifo q f e v =
    if_case (λ (r : Bool × Executor). Fifo r.1)
      (e.is_quit && (q || not (ltb (length e.mailbox) capacity))) (λ _. v)
      λ _.
        if_case (λ (r : Bool × Executor). Fifo r.1) (ltb (length e.mailbox) capacity)
          (λ room. record {
            bounded = ground (arith, length-append e.mailbox (f ∷ []), room);
            in_order =
                ap (λ (xs : List ℕ). xs ++ f ∷ []) v.in_order
                ∙ append_assoc e.ran e.mailbox (f ∷ []);
            counted = v.counted;
          })
          (λ _. record { bounded = v.bounded; in_order = v.in_order; counted = v.counted })

take_one-Fifo : (e : Executor) → Fifo e → Fifo (take_one e)
unfolding take_one
take_one-Fifo e v = taken e.mailbox refl
  where
    taken :
        (box : List ℕ)
        → e.mailbox ≡ box
        → Fifo (elim box as (λ _. Executor) [
          | [] ↦ e
          | f ∷ rest ↦ record e {
            mailbox = rest;
            processed = e.processed + 1;
            ran = e.ran ++ f ∷ [];
          }
        ])
    taken [] h = v
    taken (f ∷ rest) h = record {
      bounded = omega (arith, v.bounded, ap length h);
      in_order =
          v.in_order ∙ ap (λ (xs : List ℕ). e.ran ++ xs) h ∙ sym (append_assoc e.ran (f ∷ []) rest);
      counted = omega (arith, v.counted, length-append e.ran (f ∷ []));
    }

run_once-Fifo : (q : Bool) (e : Executor) → Fifo e → Fifo (run_once q e)
unfolding run_once
run_once-Fifo q e v =
    if_case Fifo e.is_done (λ _. v)
      λ _.
        if_case Fifo (e.is_quit && (q || not (ltb 0 (length e.mailbox))))
          (λ _. record { bounded = v.bounded; in_order = v.in_order; counted = v.counted })
          (λ _. take_one-Fifo e v)

do_use-Fifo : (u : Use) (e : Executor) → Fifo e → Fifo (do_use u e)
unfolding do_use close_quit
do_use-Fifo (enqueues q f) e v = enqueue-Fifo q f e v
do_use-Fifo (runs q) e v = run_once-Fifo q e v
do_use-Fifo quits e v = record { bounded = v.bounded; in_order = v.in_order; counted = v.counted }

do_uses_from-Fifo : (us : List Use) (e : Executor) → Fifo e → Fifo (do_uses us e)
unfolding do_uses
do_uses_from-Fifo [] e v = v
do_uses_from-Fifo (u ∷ us) e v = do_uses_from-Fifo us (do_use u e) (do_use-Fifo u e v)

-- However an executor is used, its mailbox holds 64 functions at most, those that it accepted are
-- those that ran followed by those that wait, in the order of their acceptance and each as often as
-- accepted, and it counts those that ran.
pub do_uses-Fifo : (us : List Use) → Fifo (do_uses us new_node_runtime)
unfolding new_node_runtime
do_uses-Fifo us =
    do_uses_from-Fifo us new_node_runtime
      (record { bounded = omega arith; in_order = refl; counted = refl })

abbrev after_one : Executor → ℕ → List ℕ → Executor
after_one e f rest = record e { mailbox = rest; processed = e.processed + 1; ran = e.ran ++ f ∷ [] }

run_once_lem :
    (e : Executor) (f : ℕ) (rest : List ℕ)
    → e.mailbox ≡ f ∷ rest
    → e.is_quit ≡ false
    → e.is_done ≡ false
    → run_once true e ≡ after_one e f rest
unfolding run_once take_one
run_once_lem e f rest h quit over =
    if_case (λ (x : Executor). x ≡ after_one e f rest) e.is_done (λ k. absurd (cc (k, over)))
      λ _.
        if_case (λ (x : Executor). x ≡ after_one e f rest)
          (e.is_quit && (true || not (ltb 0 (length e.mailbox))))
          (λ k. absurd (ground (arith, k, quit)))
          (λ _.
            ap
              (λ (box : List ℕ). elim box as (λ _. Executor) [
                | [] ↦ e
                | g ∷ others ↦ record e {
                  mailbox = others;
                  processed = e.processed + 1;
                  ran = e.ran ++ g ∷ [];
                }
              ])
              h)

drained :
    (box : List ℕ) (e : Executor)
    → e.mailbox ≡ box
    → e.is_quit ≡ false
    → e.is_done ≡ false
    → (run_rounds (length box) e).ran ≡ e.ran ++ box
unfolding run_rounds run_once take_one
drained [] e h quit over = sym (append-nil e.ran)
drained (f ∷ rest) e h quit over =
    ap (λ (x : Executor). (run_rounds (length rest) x).ran) (run_once_lem e f rest h quit over)
    ∙ drained rest (after_one e f rest) refl quit over
    ∙ append_assoc e.ran (f ∷ []) rest

-- An executor that is not told to quit runs everything that waits, in order, in as many rounds as
-- functions wait: then everything that was accepted has run.
pub run_rounds_lem :
    (us : List Use)
    → (do_uses us new_node_runtime).is_quit ≡ false
    → (do_uses us new_node_runtime).is_done ≡ false
    → (run_rounds (length (do_uses us new_node_runtime).mailbox) (do_uses us new_node_runtime)).ran
      ≡ (do_uses us new_node_runtime).accepted
run_rounds_lem us quit over =
    let e = do_uses us new_node_runtime in
    drained e.mailbox e refl quit over ∙ sym (do_uses-Fifo us).in_order
