-- ===== src/Graph/Unique.antt =====
-- internal/graph/graph.go: the graph has one topic, service and action of a name.
use Prim.Native.String.{String, compare}
use text.Mathlib.Text.{◌==◌ as str_eq, is_lt}
use text.Mathlib.TextPositions.{eq_refl}
use conductor_ros.Prelude.{
  ◌≡◌, refl, sym, ap, ◌∙◌, ◌↔◌, false, List, [], ◌∷◌, All, Bool-cases, if_case, inl, inr, arith,
}
use conductor_ros.Prelude.Iff.{◌then_iff◌, both_iff}
use conductor_ros.Prelude.Names.{mem, Distinct, str_eq-of}
use conductor_ros.Graph.Scan.{Node, External, App}
use conductor_ros.Graph.Channels.{Channel, change, with_source, with_sink}
use conductor_ros.Graph.Build.{
  external_endpoint, external_svc, place_channel, sort_channels, topic_sources, topic_sinks,
  service_sources, service_sinks, action_sources, action_sinks, Collected, add_node, add_nodes,
  add_external, add_externals, collect, Role, publisher, subscriber, server, client, action_server,
  action_client, unknown, role_of,
}
use conductor_ros.Graph.Named.{lookup, names, change-Distinct, takes_source, takes_sink}
use conductor_ros.Graph.Collect.{add_both-Distinct}

-- The names of each of the three maps.
abbrev Unique : Collected → Type 0
Unique g = Distinct (names g.topics) × Distinct (names g.services) × Distinct (names g.actions)

module _ {E : Type 0} (cs : List (Channel E)) (name : String) (d : Distinct (names cs)) where
  sourced : (e : E) → Distinct (names (change (with_source e) name cs))
  sourced e = change-Distinct (λ c. c.sources) (with_source e) _ (takes_source e) name cs d

  sunk : (e : E) → Distinct (names (change (with_sink e) name cs))
  sunk e = change-Distinct (λ c. c.sinks) (with_sink e) _ (takes_sink e) name cs d

add_external-Unique :
    (r : Role) (e : External) (g : Collected) → Unique g → Unique (add_external r e g)
unfolding add_external
add_external-Unique publisher e g (t, s, a) =
    (sourced g.topics e.topic t (external_endpoint e), s, a)
add_external-Unique subscriber e g (t, s, a) = (sunk g.topics e.topic t (external_endpoint e), s, a)
add_external-Unique server e g (t, s, a) = (t, sourced g.services e.topic s (external_svc e), a)
add_external-Unique client e g (t, s, a) = (t, sunk g.services e.topic s (external_svc e), a)
add_external-Unique action_server e g (t, s, a) =
    (t, s, sourced g.actions e.topic a (external_svc e))
add_external-Unique action_client e g (t, s, a) = (t, s, sunk g.actions e.topic a (external_svc e))
add_external-Unique unknown e g u = u

add_externals-Unique : (es : List External) (g : Collected) → Unique g → Unique (add_externals es g)
unfolding add_externals
add_externals-Unique [] g u = u
add_externals-Unique (e ∷ es) g u =
    add_externals-Unique es (add_external (role_of e.role) e g)
      (add_external-Unique (role_of e.role) e g u)

add_nodes-Unique :
    (app : App) (ns : List Node) (g : Collected) → Unique g → Unique (add_nodes app ns g)
unfolding add_nodes add_node
add_nodes-Unique app [] g u = u
add_nodes-Unique app (n ∷ ns) g (t, s, a) = add_nodes-Unique app ns (add_node app n g) (
  add_both-Distinct (topic_sources app n) (topic_sinks app n) g.topics t,
  add_both-Distinct (service_sources n) (service_sinks n) g.services s,
  add_both-Distinct (action_sources n) (action_sinks n) g.actions a,
)

pub collect-Unique : (app : App) → Unique (collect app)
unfolding collect
collect-Unique app =
    add_externals-Unique app.externals _ (add_nodes-Unique app app.nodes _ (tt, tt, tt))

module _ {E : Type 0} where
  place_channel-All :
      (P : Channel E → Type 0) (c : Channel E) (ds : List (Channel E))
      → All P (place_channel c ds) ↔ (P c × All P ds)
  unfolding place_channel
  place_channel-All P c [] = (λ h. h, λ h. h)
  place_channel-All P c (d ∷ ds) =
      if_case (λ (xs : List (Channel E)). All P xs ↔ (P c × (P d × All P ds)))
        (is_lt (compare d.name c.name))
        (λ e. (
          λ (here, rest).
              let (one, more) = (place_channel-All P c ds).0 rest in (one, (here, more)),
          λ (one, (here, more)). (here, (place_channel-All P c ds).1 (one, more)),
        ))
        (λ e. (λ h. h, λ h. h))

  -- Sorting the channels changes nothing of what holds of each.
  pub sort_channels-All :
      (P : Channel E → Type 0) (cs : List (Channel E)) → All P (sort_channels cs) ↔ All P cs
  unfolding sort_channels
  sort_channels-All P [] = (λ h. h, λ h. h)
  sort_channels-All P (c ∷ cs) =
      place_channel-All P c (sort_channels cs)
      then_iff both_iff (λ h. h, λ h. h) (sort_channels-All P cs)

  module _ (Q : List E → List E → Type 0) (nothing : Q [] []) where
    abbrev At : List (Channel E) → String → Type 0
    At cs n = Q (lookup (λ c. c.sources) n cs) (lookup (λ c. c.sinks) n cs)

    All-At : (cs : List (Channel E)) → All (λ c. Q c.sources c.sinks) cs → (n : String) → At cs n
    All-At [] h n = nothing
    All-At (c ∷ cs) (here, there) n = elim (Bool-cases (str_eq c.name n)) [
      | inl e ↦ rw e here
      | inr e ↦ rw e (All-At cs there n)
    ]

    absent :
        (cs : List (Channel E)) (field : Channel E → List E) (n : String)
        → mem n (names cs) ≡ false
        → lookup field n cs ≡ []
    unfolding mem
    absent [] field n h = refl
    absent (c ∷ cs) field n h =
        let other : str_eq c.name n ≡ false = ground arith in
        rw other (absent cs field n (ground arith))

    At-All :
        (cs : List (Channel E))
        → Distinct (names cs)
        → ((n : String) → At cs n)
        → All (λ c. Q c.sources c.sinks) cs
    At-All [] d h = tt
    At-All (c ∷ cs) (out, d) h = (
      rw (eq_refl c.name) at (h c.name),
      At-All cs d (λ n. elim (Bool-cases (str_eq c.name n)) [
        | inl e ↦
            let same : c.name ≡ n = str_eq-of c.name n e in
            let gone : mem n (names cs) ≡ false = ap (λ k. mem k (names cs)) (sym same) ∙ out in
            rw (absent cs (λ c. c.sources) n gone, absent cs (λ c. c.sinks) n gone) nothing
        | inr e ↦ rw e at (h n)
      ]),
    )

    -- What holds of the endpoints of each channel holds of those of each name.
    pub All-names :
        (cs : List (Channel E))
        → Distinct (names cs)
        → All (λ c. Q c.sources c.sinks) cs ↔ ((n : String) → At cs n)
    All-names cs d = (All-At cs, At-All cs d)
