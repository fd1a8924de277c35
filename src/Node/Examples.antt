-- ===== src/Node/Examples.antt =====
-- node.go on three functions, and its theorems at them.
use conductor_ros.Prelude.{◌≡◌, refl, true, false, List, [], ◌∷◌}
use conductor_ros.Node.Executor.{new_node_runtime, Use, enqueues, runs, quits, do_uses}
use conductor_ros.Node.Fifo.{Fifo, do_uses-Fifo}

abbrev three : List Use
three = enqueues false 1 ∷ (enqueues false 2 ∷ (runs false ∷ (enqueues false 3 ∷ [])))

waiting_test : (do_uses three new_node_runtime).mailbox ≡ 2 ∷ (3 ∷ [])
unfolding do_uses new_node_runtime
waiting_test = refl

-- A function that is accepted as the node quits may never run.
lost_test : (do_uses (quits ∷ (enqueues false 1 ∷ (runs true ∷ []))) new_node_runtime).ran ≡ []
unfolding do_uses new_node_runtime
lost_test = refl

do_uses-Fifo_example : Fifo (do_uses three new_node_runtime)
do_uses-Fifo_example = do_uses-Fifo three

no_quit : (do_uses three new_node_runtime).is_quit ≡ false
unfolding do_uses new_node_runtime
no_quit = refl

not_over : (do_uses three new_node_runtime).is_done ≡ false
unfolding do_uses new_node_runtime
not_over = refl
