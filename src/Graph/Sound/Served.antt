-- ===== src/Graph/Sound/Served.antt =====
-- internal/graph/graph.go: what an application without errors has for each of its subscriptions
-- and calls.
use Prim.Native.String.{String}
use text.Mathlib.Text.{◌==◌ as str_eq}
use text.Mathlib.TextPositions.{eq_refl}
use mathlib.Core.Path.{subst}
use conductor_ros.Prelude.{
  ◌≡◌, ◌≢◌, refl, sym, ap, ◌∙◌, true, false, not, ◌&&◌, List, [], ◌∷◌, ◌++◌, All, if_case, inl, inr,
  arith,
}
use conductor_ros.Prelude.Names.{mem}
use conductor_ros.Prelude.Within.{Within, Within-left, Within-right, All-get, All-each, Within-map}
use conductor_ros.Graph.Scan.{Endpoint, Node, App}
use conductor_ros.Graph.Std.{Std}
use conductor_ros.Graph.Issues.{errors}
use conductor_ros.Graph.Build.{TopicEndpoint, endpoint, topic_sinks}
use conductor_ros.Graph.Validate.{validate}
use conductor_ros.Graph.Pairs.{go_types}
use conductor_ros.Graph.Named.{named}
use conductor_ros.Graph.Offers.{concat_map, publishers, subscribers}
use conductor_ros.Graph.Clean.{Given, Compatible, TopicOk, SubOk, FieldsOk}
use conductor_ros.Graph.Sound.Promise.{validate-Clean}

module _ {A E : Type 0} where
  Within-concat_map :
      (f : A → List E) (x : E) (a : A) (list : List A)
      → Within a list
      → Within x (f a)
      → Within x (concat_map f list)
  unfolding concat_map
  Within-concat_map f x a [] k h = absurd k
  Within-concat_map f x a (b ∷ bs) (inl e) h =
      Within-left x (f b) _ (subst (λ c. Within x (f c)) e h)
  Within-concat_map f x a (b ∷ bs) (inr k) h =
      Within-right x (f b) _ (Within-concat_map f x a bs k h)

module _ {E : Type 0} where
  Within-named :
      (n : String) (e : E) (es : List (String × E))
      → Given n
      → Within (n, e) es
      → Within e (named n es)
  unfolding named
  Within-named n e [] g k = absurd k
  Within-named n e ((m, x) ∷ es) g (inl k) =
      let same : n ≡ m = ap (λ p. p.0) k in
      let keeps : (not (str_eq m "") && str_eq m n) ≡ true =
        ap (λ z. not (str_eq z "") && str_eq z n) (sym same) ∙ ground (arith, eq_refl n, g) in
      rw keeps (inl (ap (λ p. p.1) k))
  Within-named n e ((m, x) ∷ es) g (inr k) =
      if_case (λ (xs : List E). Within e xs) (not (str_eq m "") && str_eq m n)
        (λ h. inr (Within-named n e es g k)) (λ h. Within-named n e es g k)

-- The subscription of a node is one of its topic's subscribers.
Within-subscribers :
    (app : App) (n : Node) (s : Endpoint)
    → Within n app.nodes
    → Within s n.subs
    → Given s.topic
    → Within (endpoint app n s) (subscribers app s.topic)
unfolding subscribers
Within-subscribers app n s hn hs g = Within-left (endpoint app n s) _ _ (
    Within-concat_map (λ (m : Node). named s.topic (topic_sinks app m)) (endpoint app n s) n
      app.nodes hn
      (Within-named s.topic (endpoint app n s) (topic_sinks app n) g
        (Within-map (λ (e : Endpoint). (e.topic, endpoint app n e)) s n.subs hs)))

mem-go_types :
    (e : TopicEndpoint) (es : List TopicEndpoint)
    → Within e es
    → e.external ≡ false
    → Given e.go_type
    → mem e.go_type (go_types es) ≡ true
unfolding go_types mem
mem-go_types e [] k inside given = absurd k
mem-go_types e (x ∷ es) (inl k) inside given =
    let keeps : (not x.external && not (str_eq x.go_type "")) ≡ true =
      ap (λ (y : TopicEndpoint). not y.external && not (str_eq y.go_type "")) (sym k)
      ∙ ground (arith, inside, given) in
    let same : e.go_type ≡ x.go_type = ap (λ (y : TopicEndpoint). y.go_type) k in
    rw keeps (ground (arith, eq_refl x.go_type, ap (λ z. str_eq x.go_type z) same))
mem-go_types e (x ∷ es) (inr k) inside given =
    let later = mem-go_types e es k inside given in
    if_case (λ ts. mem e.go_type ts ≡ true) (not x.external && not (str_eq x.go_type ""))
      (λ h. ground (arith, later)) (λ h. later)

-- Somebody publishes the topic, and each publisher offers what the subscription asks for, in the
-- type that it is written with.
abbrev pub Served : App → Node → Endpoint → Type 0
Served app n s =
    (publishers app s.topic ≢ [])
    × All (λ p. Compatible p (endpoint app n s)) (publishers app s.topic)
    × All
        (λ (p : TopicEndpoint).
          p.external ≡ false → Given p.go_type → Given s.go_type → p.go_type ≡ s.go_type)
        (publishers app s.topic)

served :
    (app : App) (n : Node) (s : Endpoint)
    → Within (endpoint app n s) (subscribers app s.topic)
    → TopicOk (publishers app s.topic) (subscribers app s.topic)
    → Served app n s
served app n s inside (fed, (go, (ros, pairs))) =
    let here = endpoint app n s in
    let pubs = publishers app s.topic in
    let subs = subscribers app s.topic in
    (
      λ e. nobody subs inside (fed e),
      All-each _ pubs (λ p h.
          All-get (λ x. Compatible p x) subs here
            (All-get (λ x. All (Compatible x) subs) pubs p pairs h) inside),
      All-each _ pubs (λ p h internal given given'.
          go p.go_type s.go_type
            (mem-go_types p (pubs ++ subs) (Within-left p pubs subs h) internal given)
            (mem-go_types here (pubs ++ subs) (Within-right here pubs subs inside) refl given')),
    )
  where
    nobody : (xs : List TopicEndpoint) → Within (endpoint app n s) xs → xs ≢ []
    nobody [] h e = h
    nobody (x ∷ xs) h e = cc e

-- Where Validate reports no error, each subscription of each node has a publisher, inside the
-- application or declared external, and every publisher of its topic offers the reliability and
-- the durability that it asks for and, if inside, has its message type.
pub validate-Served :
    (std : Std) (app : App)
    → errors (validate std app) ≡ false
    → All (λ (n : Node). All (Served app n) n.subs) app.nodes
validate-Served std app h =
    let ((fields, rest), (topics, others)) = ((validate-Clean std app).0 h).0 in
    All-each _ app.nodes (λ n hn. All-each _ n.subs (λ s hs.
      let (given, more) =
        All-get (SubOk n) n.subs s (All-get (FieldsOk std) app.nodes n fields hn).0 hs in
      served app n s (Within-subscribers app n s hn hs given) (topics s.topic)))
