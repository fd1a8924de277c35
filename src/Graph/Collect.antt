-- ===== src/Graph/Collect.antt =====
-- internal/graph/graph.go: `Build` finds for each name what the application declares under it.
use Prim.Native.String.{String}
use text.Mathlib.Text.{◌==◌ as str_eq}
use mathlib.Core.List.{append_assoc, append-nil}
use conductor_ros.Prelude.{
  ℕ, ◌==◌, ◌≡◌, refl, sym, ap, ◌∙◌, Bool, true, false, ◌&&◌, List, [], ◌∷◌, ◌++◌, if◌then◌else◌,
  Bool-cases, if_case, inl, inr,
}
use conductor_ros.Prelude.Names.{Distinct}
use conductor_ros.Graph.Scan.{External}
use conductor_ros.Graph.Channels.{Channel, change, with_source, with_sink}
use conductor_ros.Graph.Build.{
  external_endpoint, external_svc, add_fields, add_both, Collected, add_external, Role, publisher,
  subscriber, server, client, action_server, action_client, unknown,
}
use conductor_ros.Graph.Named.{
  lookup, names, named, Grows, lookup-change, change-Distinct, takes_source, takes_sink,
  source_aside, sink_aside,
}

module _ {E : Type 0} where
  no_more : (c : Bool) (xs : List E) → xs ++ (if c then [] else []) ≡ xs
  no_more true xs = append-nil xs
  no_more false xs = append-nil xs

  module _ (field : Channel E → List E) (w : E → Channel E → Channel E) where
    add_fields-takes :
        ((e : E) → Grows field (w e) (e ∷ []))
        → (n : String) (es : List (String × E)) (cs : List (Channel E))
        → lookup field n (add_fields w es cs) ≡ lookup field n cs ++ named n es
    unfolding add_fields named
    add_fields-takes g n [] cs = sym (append-nil _)
    add_fields-takes g n ((m, e) ∷ es) cs = elim (Bool-cases (str_eq m "")) [
      | inl k ↦ rw k (add_fields-takes g n es cs)
      | inr k ↦ rw k (
          add_fields-takes g n es (change (w e) m cs)
          ∙ ap (λ xs. xs ++ named n es) (lookup-change field (w e) (e ∷ []) (g e) m n cs)
          ∙ append_assoc (lookup field n cs) (if str_eq m n then e ∷ [] else []) (named n es)
          ∙ ap (λ xs. lookup field n cs ++ xs) (joined (str_eq m n) e (named n es)))
    ]
      where
        joined :
            (c : Bool) (x : E) (xs : List E)
            → (if c then x ∷ [] else []) ++ xs ≡ (if c then x ∷ xs else xs)
        joined true x xs = refl
        joined false x xs = refl

    add_fields-aside :
        ((e : E) → Grows field (w e) [])
        → (n : String) (es : List (String × E)) (cs : List (Channel E))
        → lookup field n (add_fields w es cs) ≡ lookup field n cs
    unfolding add_fields
    add_fields-aside g n [] cs = refl
    add_fields-aside g n ((m, e) ∷ es) cs = elim (Bool-cases (str_eq m "")) [
      | inl k ↦ rw k (add_fields-aside g n es cs)
      | inr k ↦ rw k (
          add_fields-aside g n es (change (w e) m cs)
          ∙ lookup-change field (w e) [] (g e) m n cs
          ∙ no_more (str_eq m n) (lookup field n cs))
    ]

    add_fields-Distinct :
        (extra : E → List E)
        → ((e : E) → Grows field (w e) (extra e))
        → (es : List (String × E)) (cs : List (Channel E)) → Distinct (names cs)
        → Distinct (names (add_fields w es cs))
    unfolding add_fields
    add_fields-Distinct extra g [] cs d = d
    add_fields-Distinct extra g ((m, e) ∷ es) cs d = add_fields-Distinct extra g es _ (
        if_case (λ (ds : List (Channel E)). Distinct (names ds)) (str_eq m "") (λ h. d)
          (λ h. change-Distinct field (w e) (extra e) (g e) m cs d))

  -- One node adds what it declares under a name, behind what was there.
  pub add_both-sources :
      (n : String) (ps ss : List (String × E)) (cs : List (Channel E))
      → lookup (λ c. c.sources) n (add_both ps ss cs) ≡ lookup (λ c. c.sources) n cs ++ named n ps
  unfolding add_both
  add_both-sources n ps ss cs =
      add_fields-aside (λ c. c.sources) with_sink sink_aside n ss (add_fields with_source ps cs)
      ∙ add_fields-takes (λ c. c.sources) with_source takes_source n ps cs

  pub add_both-sinks :
      (n : String) (ps ss : List (String × E)) (cs : List (Channel E))
      → lookup (λ c. c.sinks) n (add_both ps ss cs) ≡ lookup (λ c. c.sinks) n cs ++ named n ss
  unfolding add_both
  add_both-sinks n ps ss cs =
      add_fields-takes (λ c. c.sinks) with_sink takes_sink n ss (add_fields with_source ps cs)
      ∙ ap (λ xs. xs ++ named n ss)
          (add_fields-aside (λ c. c.sinks) with_source source_aside n ps cs)

  pub add_both-Distinct :
      (ps ss : List (String × E)) (cs : List (Channel E))
      → Distinct (names cs)
      → Distinct (names (add_both ps ss cs))
  unfolding add_both
  add_both-Distinct ps ss cs d =
      add_fields-Distinct (λ c. c.sinks) with_sink _ takes_sink ss _
        (add_fields-Distinct (λ c. c.sources) with_source _ takes_source ps cs d)

module _ {E : Type 0} (field : Channel E → List E) (f : Channel E → Channel E) where
  change-aside :
      Grows field f []
      → (m n : String) (cs : List (Channel E))
      → lookup field n (change f m cs) ≡ lookup field n cs ++ []
  change-aside g m n cs =
      lookup-change field f [] g m n cs
      ∙ no_more (str_eq m n) (lookup field n cs)
      ∙ sym (append-nil (lookup field n cs))

abbrev role_number : Role → ℕ
role_number publisher = 0
role_number subscriber = 1
role_number server = 2
role_number client = 3
role_number action_server = 4
role_number action_client = 5
role_number unknown = 6

-- An external endpoint, where it has a role and a name.
abbrev pub external_of : {E : Type 0} → Role → (External → E) → Role → External → String → List E
external_of role f r e name =
    if role_number r == role_number role && str_eq e.topic name then f e ∷ [] else []

pub add_external-publisher :
    (r : Role) (e : External) (n : String) (g : Collected)
    → lookup (λ c. c.sources) n (add_external r e g).topics
      ≡ lookup (λ c. c.sources) n g.topics ++ external_of publisher external_endpoint r e n
unfolding add_external
add_external-publisher publisher e n g =
    lookup-change (λ c. c.sources) (with_source (external_endpoint e)) _
      (takes_source (external_endpoint e)) e.topic n g.topics
add_external-publisher subscriber e n g =
    change-aside (λ c. c.sources) (with_sink (external_endpoint e))
      (sink_aside (external_endpoint e)) e.topic n g.topics
add_external-publisher _ e n g = sym (append-nil _)

pub add_external-subscriber :
    (r : Role) (e : External) (n : String) (g : Collected)
    → lookup (λ c. c.sinks) n (add_external r e g).topics
      ≡ lookup (λ c. c.sinks) n g.topics ++ external_of subscriber external_endpoint r e n
unfolding add_external
add_external-subscriber subscriber e n g =
    lookup-change (λ c. c.sinks) (with_sink (external_endpoint e)) _
      (takes_sink (external_endpoint e)) e.topic n g.topics
add_external-subscriber publisher e n g =
    change-aside (λ c. c.sinks) (with_source (external_endpoint e))
      (source_aside (external_endpoint e)) e.topic n g.topics
add_external-subscriber _ e n g = sym (append-nil _)

pub add_external-server :
    (r : Role) (e : External) (n : String) (g : Collected)
    → lookup (λ c. c.sources) n (add_external r e g).services
      ≡ lookup (λ c. c.sources) n g.services ++ external_of server external_svc r e n
unfolding add_external
add_external-server server e n g =
    lookup-change (λ c. c.sources) (with_source (external_svc e)) _ (takes_source (external_svc e))
      e.topic n g.services
add_external-server client e n g =
    change-aside (λ c. c.sources) (with_sink (external_svc e)) (sink_aside (external_svc e)) e.topic
      n g.services
add_external-server _ e n g = sym (append-nil _)

pub add_external-client :
    (r : Role) (e : External) (n : String) (g : Collected)
    → lookup (λ c. c.sinks) n (add_external r e g).services
      ≡ lookup (λ c. c.sinks) n g.services ++ external_of client external_svc r e n
unfolding add_external
add_external-client client e n g =
    lookup-change (λ c. c.sinks) (with_sink (external_svc e)) _ (takes_sink (external_svc e))
      e.topic n g.services
add_external-client server e n g =
    change-aside (λ c. c.sinks) (with_source (external_svc e)) (source_aside (external_svc e))
      e.topic n g.services
add_external-client _ e n g = sym (append-nil _)

pub add_external-action_server :
    (r : Role) (e : External) (n : String) (g : Collected)
    → lookup (λ c. c.sources) n (add_external r e g).actions
      ≡ lookup (λ c. c.sources) n g.actions ++ external_of action_server external_svc r e n
unfolding add_external
add_external-action_server action_server e n g =
    lookup-change (λ c. c.sources) (with_source (external_svc e)) _ (takes_source (external_svc e))
      e.topic n g.actions
add_external-action_server action_client e n g =
    change-aside (λ c. c.sources) (with_sink (external_svc e)) (sink_aside (external_svc e)) e.topic
      n g.actions
add_external-action_server _ e n g = sym (append-nil _)

pub add_external-action_client :
    (r : Role) (e : External) (n : String) (g : Collected)
    → lookup (λ c. c.sinks) n (add_external r e g).actions
      ≡ lookup (λ c. c.sinks) n g.actions ++ external_of action_client external_svc r e n
unfolding add_external
add_external-action_client action_client e n g =
    lookup-change (λ c. c.sinks) (with_sink (external_svc e)) _ (takes_sink (external_svc e))
      e.topic n g.actions
add_external-action_client action_server e n g =
    change-aside (λ c. c.sinks) (with_source (external_svc e)) (source_aside (external_svc e))
      e.topic n g.actions
add_external-action_client _ e n g = sym (append-nil _)
