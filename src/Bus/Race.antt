-- ===== src/Bus/Race.antt =====
-- bus.go with its deliveries outside the lock, as goroutines interleave.
use text.Mathlib.TextPositions.{eq_refl}
use conductor_ros.Prelude.{ℕ, ◌≡◌, refl, ap, true, List, [], ◌∷◌, ◌++◌}
use conductor_ros.Bus.Qos.{is_latched}
use conductor_ros.Bus.Inproc.{
  TopicSpec, Bus, Publisher, Delivery, fan_out, replay, retain, deliver_all, register, history,
}
use conductor_ros.Bus.History.{received, refl_eq}
use conductor_ros.Bus.Late.{delivered-retain}

-- The bus, and for each goroutine the deliveries that it still has to make.
pub record Net (A : Type 0) : Type 0 where
  pub bus : Bus A
  pub owed : List (List (Delivery A))

-- A publish function or a subscription passes the lock, or a goroutine makes its next delivery.
pub data Step {A : Type 0} : Net A → Net A → Type 0 where
  publishes :
      (p : Publisher) (m : A) (n n' : Net A)
      → n' ≡ record { bus = retain p m n.bus; owed = n.owed ++ fan_out m (n.bus.subs p.topic) ∷ [] }
      → Step n n'
  subscribes :
      (spec : TopicSpec) (s : ℕ) (n n' : Net A)
      → n' ≡ record {
        bus = register spec s n.bus;
        owed = n.owed ++ replay s (history spec n.bus) ∷ [];
      }
      → Step n n'
  delivers :
      (before : List (List (Delivery A))) (d : Delivery A) (rest : List (Delivery A))
      (after : List (List (Delivery A)))
      → (n n' : Net A) → n.owed ≡ before ++ (d ∷ rest) ∷ after
      → n' ≡ record { bus = deliver_all (d ∷ []) n.bus; owed = before ++ rest ∷ after }
      → Step n n'

pub data Steps {A : Type 0} : Net A → Net A → Type 0 where
  here : (n : Net A) → Steps n n
  next : (n n' n'' : Net A) → Step n n' → Steps n' n'' → Steps n n''

module _ {A : Type 0} (b : Bus A) (p : Publisher) (spec : TopicSpec) (s : ℕ) (old live : A) where
  subscribed : Net A
  subscribed = record { bus = register spec s b; owed = ([] ++ replay s (history spec b) ∷ []) }

  published : Net A
  published = record {
    bus = retain p live (register spec s b);
    owed = subscribed.owed ++ fan_out live ((register spec s b).subs p.topic) ∷ [];
  }

  -- The live message first, and then the history.
  overtaken : Net A
  overtaken = record {
    bus =
        deliver_all (record { to = s; msg = old } ∷ [])
          (deliver_all (record { to = s; msg = live } ∷ []) (retain p live (register spec s b)));
    owed = [] ∷ ([] ∷ []);
  }

  -- The live message is delivered, the history is not.
  overtaking : Net A
  overtaking = record {
    bus = deliver_all (record { to = s; msg = live } ∷ []) (retain p live (register spec s b));
    owed = replay s (history spec b) ∷ ([] ∷ []);
  }

  live_owed :
      spec.topic ≡ p.topic
      → b.subs p.topic ≡ []
      → fan_out live ((register spec s b).subs p.topic) ≡ record { to = s; msg = live } ∷ []
  unfolding register fan_out
  live_owed same none = rw (same, eq_refl p.topic, none) refl

  old_owed :
      spec.topic ≡ p.topic
      → is_latched spec.qos ≡ true
      → b.latched p.topic ≡ old ∷ []
      → replay s (history spec b) ≡ record { to = s; msg = old } ∷ []
  unfolding history replay
  old_owed same latched one = rw (latched, same, one) refl

  got : b.delivered ≡ [] → received s overtaken.bus.delivered ≡ live ∷ (old ∷ [])
  unfolding overtaken deliver_all received register
  got silent = rw (delivered-retain p live (register spec s b), silent, refl_eq s) refl

  interleaved :
      spec.topic ≡ p.topic
      → is_latched spec.qos ≡ true
      → b.latched p.topic ≡ old ∷ []
      → b.subs p.topic ≡ []
      → Steps (record { bus = b; owed = [] }) overtaken
  unfolding subscribed published overtaking overtaken
  interleaved same latched one none = next _ subscribed _ (subscribes spec s _ _ refl) (
      next _ published _ (publishes p live _ _ refl) (
        next _ overtaking _
          (delivers (replay s (history spec b) ∷ []) (record { to = s; msg = live }) [] [] _ _
            (ap (λ (ds : List (Delivery A)). replay s (history spec b) ∷ (ds ∷ []))
              (live_owed same none))
            refl)
          (next _ overtaken _
            (delivers [] (record { to = s; msg = old }) [] ([] ∷ []) _ _
              (ap (λ (ds : List (Delivery A)). ds ∷ ([] ∷ [])) (old_owed same latched one)) refl)
            (here _))))

  -- On a topic with one message in its history and no subscriber yet, a subscription to
  -- the latched topic and a publish function can interleave so that every delivery is made
  -- and the new subscriber receives the live message before the one from the history.
  pub Steps-out_of_order :
      spec.topic ≡ p.topic
      → is_latched spec.qos ≡ true
      → b.latched p.topic ≡ old ∷ []
      → b.subs p.topic ≡ []
      → b.delivered ≡ []
      → (n : Net A) × Steps (record { bus = b; owed = [] }) n
        × (n.owed ≡ [] ∷ ([] ∷ []))
        × (received s n.bus.delivered ≡ live ∷ (old ∷ []))
  unfolding overtaken
  Steps-out_of_order same latched one none silent =
      (overtaken, interleaved same latched one none, refl, got silent)
