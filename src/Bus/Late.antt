-- ===== src/Bus/Late.antt =====
-- bus.go: what a subscriber that joins late receives.
use Prim.Native.String.{String}
use text.Mathlib.TextPositions.{eq_refl}
use mathlib.Core.List.{append-nil, append_assoc}
use conductor_ros.Prelude.{
  ℕ, ◌≡◌, refl, sym, ap, ◌∙◌, List, [], ◌∷◌, ◌++◌, if◌then◌else◌, ltb, Bool-cases, inl, inr, arith,
}
use conductor_ros.Bus.Qos.{is_latched}
use conductor_ros.Bus.Inproc.{
  TopicSpec, Bus, Publisher, trim, fan_out, replay, retain, deliver_all, publish, register, history,
  subscribe,
}
use conductor_ros.Bus.History.{
  trim-trim, times, times-append, repeat, received, received-append, received-fan_out,
  received-replay,
}

module _ {A : Type 0} where
  -- A publisher's messages, one after the other.
  abbrev pub publish_each : Publisher → List A → Bus A → Bus A
  publish_each p [] b = b
  publish_each p (m ∷ ms) b = publish_each p ms (publish p m b)

  -- What a topic keeps of its publisher's messages.
  unfoldable pub kept : Publisher → List A → List A → List A
  kept p old [] = old
  kept p old (m ∷ ms) = if ltb 0 p.keep then trim p.keep (old ++ m ∷ ms) else old

  kept_step :
      (p : Publisher) (old : List A) (m : A) (ms : List A)
      → kept p (if ltb 0 p.keep then trim p.keep (old ++ m ∷ []) else old) ms ≡ kept p old (m ∷ ms)
  unfolding kept
  kept_step p old m [] = refl
  kept_step p old m (n ∷ ns) = elim (Bool-cases (ltb 0 p.keep)) [
    | inl e ↦ rw e (
        trim-trim p.keep (old ++ m ∷ []) (n ∷ ns)
        ∙ ap (trim p.keep) (append_assoc old (m ∷ []) (n ∷ ns)))
    | inr e ↦ rw e refl
  ]

  subs-publish :
      (p : Publisher) (m : A) (b : Bus A) (t : String) → (publish p m b).subs t ≡ b.subs t
  unfolding publish retain deliver_all
  subs-publish p m b t = ground arith

  subs-publish_each :
      (p : Publisher) (ms : List A) (b : Bus A) (t : String)
      → (publish_each p ms b).subs t ≡ b.subs t
  subs-publish_each p [] b t = refl
  subs-publish_each p (m ∷ ms) b t = subs-publish_each p ms (publish p m b) t ∙ subs-publish p m b t

  latched-publish :
      (p : Publisher) (m : A) (b : Bus A)
      → (publish p m b).latched p.topic
        ≡ (if ltb 0 p.keep then trim p.keep (b.latched p.topic ++ m ∷ []) else b.latched p.topic)
  unfolding publish retain deliver_all
  latched-publish p m b = ground (arith, eq_refl p.topic)

  latched-publish_each :
      (p : Publisher) (ms : List A) (b : Bus A)
      → (publish_each p ms b).latched p.topic ≡ kept p (b.latched p.topic) ms
  unfolding kept
  latched-publish_each p [] b = refl
  latched-publish_each p (m ∷ ms) b =
      latched-publish_each p ms (publish p m b)
      ∙ ap (λ (old : List A). kept p old ms) (latched-publish p m b)
      ∙ kept_step p (b.latched p.topic) m ms

  pub delivered-retain :
      (p : Publisher) (m : A) (b : Bus A) → (retain p m b).delivered ≡ b.delivered
  unfolding retain
  delivered-retain p m b = ground arith

  received-publish :
      (p : Publisher) (m : A) (b : Bus A) (s : ℕ)
      → received s (publish p m b).delivered
        ≡ received s b.delivered ++ repeat (times s (b.subs p.topic)) m
  unfolding publish retain deliver_all
  received-publish p m b s =
      received-append s (retain p m b).delivered (fan_out m (b.subs p.topic))
      ∙ rw (received-fan_out s m (b.subs p.topic), delivered-retain p m b)

  -- A subscriber that is registered once receives each message once, in order.
  received-publish_each :
      (p : Publisher) (ms : List A) (b : Bus A) (s : ℕ)
      → times s (b.subs p.topic) ≡ 1
      → received s (publish_each p ms b).delivered ≡ received s b.delivered ++ ms
  received-publish_each p [] b s h = sym (append-nil (received s b.delivered))
  received-publish_each p (m ∷ ms) b s h =
      received-publish_each p ms (publish p m b) s (ap (times s) (subs-publish p m b p.topic) ∙ h)
      ∙ ap (λ (xs : List A). xs ++ ms) (received-publish p m b s ∙ rw h (unfold repeat in refl))
      ∙ append_assoc (received s b.delivered) (m ∷ []) ms

  -- One that is not registered receives nothing.
  received_before :
      (p : Publisher) (ms : List A) (b : Bus A) (s : ℕ)
      → times s (b.subs p.topic) ≡ 0
      → received s (publish_each p ms b).delivered ≡ received s b.delivered
  received_before p [] b s h = refl
  received_before p (m ∷ ms) b s h =
      received_before p ms (publish p m b) s (ap (times s) (subs-publish p m b p.topic) ∙ h)
      ∙ received-publish p m b s
      ∙ rw h (unfold repeat in append-nil (received s b.delivered))

  times-subscribe :
      (spec : TopicSpec) (b : Bus A) (s : ℕ) (t : String)
      → spec.topic ≡ t
      → times s (b.subs t) ≡ 0
      → times s ((subscribe spec s b).subs t) ≡ 1
  unfolding subscribe register deliver_all times
  times-subscribe spec b s t same h =
      rw (same, eq_refl t) (ground (arith, times-append s (b.subs t) (s ∷ []), h))

  history_lem :
      (p : Publisher) (spec : TopicSpec) (b : Bus A) (ms : List A)
      → spec.topic ≡ p.topic
      → history spec (publish_each p ms b)
        ≡ (if is_latched spec.qos then kept p (b.latched p.topic) ms else [])
  unfolding history
  history_lem p spec b ms same = rw (same, latched-publish_each p ms b) refl

  received-subscribe :
      (spec : TopicSpec) (b : Bus A) (s : ℕ)
      → received s (subscribe spec s b).delivered ≡ received s b.delivered ++ history spec b
  unfolding subscribe register deliver_all
  received-subscribe spec b s =
      received-append s b.delivered (replay s (history spec b))
      ∙ rw (received-replay s (history spec b))

  -- A subscriber that joins after `ms` and before `ns`, messages of one publisher of the topic,
  -- and has received nothing so far receives, if it asks for a latched topic, what the topic kept
  -- of the messages before it, and then, in any case, each of `ns` once and in order.
  pub late_joiner :
      (p : Publisher) (spec : TopicSpec) (b : Bus A) (s : ℕ) (ms ns : List A)
      → spec.topic ≡ p.topic
      → times s (b.subs p.topic) ≡ 0
      → received s b.delivered ≡ []
      → received s (publish_each p ns (subscribe spec s (publish_each p ms b))).delivered
        ≡ (if is_latched spec.qos then kept p (b.latched p.topic) ms else []) ++ ns
  late_joiner p spec b s ms ns same fresh silent =
      let b' = publish_each p ms b in
      let unseen = ap (times s) (subs-publish_each p ms b p.topic) ∙ fresh in
      received-publish_each p ns (subscribe spec s b') s
        (times-subscribe spec b' s p.topic same unseen)
      ∙ ap (λ (xs : List A). xs ++ ns)
          (received-subscribe spec b' s
            ∙ rw (received_before p ms b s fresh, silent) (history_lem p spec b ms same))
