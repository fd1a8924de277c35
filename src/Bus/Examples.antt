-- ===== src/Bus/Examples.antt =====
-- bus.go and qos.go on a latched topic, and their theorems at it.
use conductor_ros.Prelude.{ℕ, ◌≡◌, refl, true, none, [], ◌∷◌, ◌++◌, if◌then◌else◌}
use conductor_ros.Bus.Qos.{Qos, reliable, transient_local, is_latched}
use conductor_ros.Bus.Inproc.{
  TopicSpec, Bus, Publisher, new_inproc, publisher, subscribe, publish, serve,
}
use conductor_ros.Bus.History.{times, received}
use conductor_ros.Bus.Late.{publish_each, kept, late_joiner}
use conductor_ros.Bus.Race.{Net, Steps, Steps-out_of_order}

abbrev last_two : Qos
last_two = record {
  name = "transient";
  reliability = reliable;
  durability = transient_local;
  depth = 2;
}

abbrev static_tf : TopicSpec
static_tf = record { topic = "tf_static"; qos = last_two; node = "tree" }

abbrev tree : Publisher
tree = record { topic = "tf_static"; keep = 2 }

abbrev empty_bus : Bus ℕ
empty_bus = new_inproc ℕ

tree_test : (publisher static_tf empty_bus).0 ≡ tree
unfolding publisher
tree_test = refl

late_test :
    received 7
      (publish_each tree
        (4 ∷ [])
        (subscribe static_tf 7 (publish_each tree (1 ∷ (2 ∷ (3 ∷ []))) empty_bus))).delivered
    ≡ 2 ∷ (3 ∷ (4 ∷ []))
unfolding publish subscribe received new_inproc
late_test = refl

unseen : times 7 (empty_bus.subs "tf_static") ≡ 0
unfolding new_inproc times
unseen = refl

silent : received 7 empty_bus.delivered ≡ []
unfolding new_inproc received
silent = refl

late_joiner_example :
    received 7
      (publish_each tree
        (4 ∷ [])
        (subscribe static_tf 7 (publish_each tree (1 ∷ (2 ∷ (3 ∷ []))) empty_bus))).delivered
    ≡ (if is_latched last_two
        then kept tree (empty_bus.latched "tf_static") (1 ∷ (2 ∷ (3 ∷ [])))
        else [])
      ++ 4 ∷ []
late_joiner_example =
    late_joiner tree static_tf empty_bus 7 (1 ∷ (2 ∷ (3 ∷ []))) (4 ∷ []) refl unseen silent

abbrev with_tree : Bus ℕ
with_tree = record {
  subs = λ _. [];
  pubs = λ _. "tree" ∷ [];
  servers = λ _. none;
  latched = λ _. 1 ∷ [];
  delivered = [];
}

Steps-out_of_order_example :
    (n : Net ℕ) × Steps (record { bus = with_tree; owed = [] }) n
    × (n.owed ≡ [] ∷ ([] ∷ []))
    × (received 7 n.bus.delivered ≡ 2 ∷ (1 ∷ []))
Steps-out_of_order_example =
    Steps-out_of_order with_tree tree static_tf 7 1 2 refl refl refl refl refl

abbrev adding : Bus ℕ
adding = (serve "add" 1 empty_bus).1

accepted : serve "add" 1 empty_bus ≡ (true, adding)
unfolding serve new_inproc
accepted = refl
