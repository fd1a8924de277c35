-- ===== src/Graph/Offers.antt =====
-- internal/graph/graph.go: what an application offers and wants under a name, read off its
-- declarations, and that `Build` collects it.
use Prim.Native.String.{String}
use mathlib.Core.List.{append_assoc, append-nil}
use conductor_ros.Prelude.{◌≡◌, refl, sym, ap, ◌∙◌, List, [], ◌∷◌, ◌++◌}
use conductor_ros.Graph.Scan.{Node, External, App}
use conductor_ros.Graph.Build.{
  TopicEndpoint, SvcEndpoint, external_endpoint, external_svc, topic_sources, topic_sinks,
  service_sources, service_sinks, action_sources, action_sinks, Collected, add_node, add_nodes,
  add_external, add_externals, collect, publisher, subscriber, server, client, action_server,
  action_client, role_of,
}
use conductor_ros.Graph.Named.{lookup, named}
use conductor_ros.Graph.Collect.{
  external_of, add_both-sources, add_both-sinks, add_external-publisher, add_external-subscriber,
  add_external-server, add_external-client, add_external-action_server, add_external-action_client,
}

module _ {A E : Type 0} where
  unfoldable pub concat_map : (A → List E) → List A → List E
  concat_map f [] = []
  concat_map f (x ∷ xs) = f x ++ concat_map f xs

module _ {E : Type 0} (view : Collected → List E) (app : App) where
  add_nodes-view :
      (per : Node → List E)
      → ((n : Node) (g : Collected) → view (add_node app n g) ≡ view g ++ per n)
      → (ns : List Node) (g : Collected) → view (add_nodes app ns g) ≡ view g ++ concat_map per ns
  unfolding add_nodes concat_map
  add_nodes-view per step [] g = sym (append-nil (view g))
  add_nodes-view per step (n ∷ ns) g =
      add_nodes-view per step ns (add_node app n g)
      ∙ ap (λ xs. xs ++ concat_map per ns) (step n g)
      ∙ append_assoc (view g) (per n) (concat_map per ns)

  add_externals-view :
      (per : External → List E)
      → ((e : External) (g : Collected)
          → view (add_external (role_of e.role) e g) ≡ view g ++ per e)
      → (es : List External) (g : Collected)
      → view (add_externals es g) ≡ view g ++ concat_map per es
  unfolding add_externals concat_map
  add_externals-view per step [] g = sym (append-nil (view g))
  add_externals-view per step (e ∷ es) g =
      add_externals-view per step es (add_external (role_of e.role) e g)
      ∙ ap (λ xs. xs ++ concat_map per es) (step e g)
      ∙ append_assoc (view g) (per e) (concat_map per es)

  collect-view :
      (per : Node → List E) (per' : External → List E)
      → view (record { topics = []; services = []; actions = [] }) ≡ []
      → ((n : Node) (g : Collected) → view (add_node app n g) ≡ view g ++ per n)
      → ((e : External) (g : Collected)
          → view (add_external (role_of e.role) e g) ≡ view g ++ per' e)
      → view (collect app) ≡ concat_map per app.nodes ++ concat_map per' app.externals
  unfolding collect
  collect-view per per' start step step' =
      let empty : Collected = record { topics = []; services = []; actions = [] } in
      add_externals-view per' step' app.externals (add_nodes app app.nodes empty)
      ∙ ap (λ xs. xs ++ concat_map per' app.externals)
          (add_nodes-view per step app.nodes empty
            ∙ ap (λ xs. xs ++ concat_map per app.nodes) start)

module _ (app : App) (name : String) where
  -- The publishers of a topic: those of the nodes, then the external ones.
  unfoldable pub publishers : List TopicEndpoint
  publishers =
      concat_map (λ (n : Node). named name (topic_sources app n)) app.nodes
      ++ concat_map
          (λ (e : External). external_of publisher external_endpoint (role_of e.role) e name)
          app.externals

  unfoldable pub subscribers : List TopicEndpoint
  subscribers =
      concat_map (λ (n : Node). named name (topic_sinks app n)) app.nodes
      ++ concat_map
          (λ (e : External). external_of subscriber external_endpoint (role_of e.role) e name)
          app.externals

  unfoldable pub servers : List SvcEndpoint
  servers =
      concat_map (λ (n : Node). named name (service_sources n)) app.nodes
      ++ concat_map (λ (e : External). external_of server external_svc (role_of e.role) e name)
          app.externals

  unfoldable pub clients : List SvcEndpoint
  clients =
      concat_map (λ (n : Node). named name (service_sinks n)) app.nodes
      ++ concat_map (λ (e : External). external_of client external_svc (role_of e.role) e name)
          app.externals

  unfoldable pub action_servers : List SvcEndpoint
  action_servers =
      concat_map (λ (n : Node). named name (action_sources n)) app.nodes
      ++ concat_map
          (λ (e : External). external_of action_server external_svc (role_of e.role) e name)
          app.externals

  unfoldable pub action_users : List SvcEndpoint
  action_users =
      concat_map (λ (n : Node). named name (action_sinks n)) app.nodes
      ++ concat_map
          (λ (e : External). external_of action_client external_svc (role_of e.role) e name)
          app.externals

  pub collect-publishers : lookup (λ c. c.sources) name (collect app).topics ≡ publishers
  unfolding publishers add_node
  collect-publishers =
      collect-view (λ g. lookup (λ c. c.sources) name g.topics) app _ _ refl
        (λ n g. add_both-sources name (topic_sources app n) (topic_sinks app n) g.topics)
        (λ e g. add_external-publisher (role_of e.role) e name g)

  pub collect-subscribers : lookup (λ c. c.sinks) name (collect app).topics ≡ subscribers
  unfolding subscribers add_node
  collect-subscribers =
      collect-view (λ g. lookup (λ c. c.sinks) name g.topics) app _ _ refl
        (λ n g. add_both-sinks name (topic_sources app n) (topic_sinks app n) g.topics)
        (λ e g. add_external-subscriber (role_of e.role) e name g)

  pub collect-servers : lookup (λ c. c.sources) name (collect app).services ≡ servers
  unfolding servers add_node
  collect-servers =
      collect-view (λ g. lookup (λ c. c.sources) name g.services) app _ _ refl
        (λ n g. add_both-sources name (service_sources n) (service_sinks n) g.services)
        (λ e g. add_external-server (role_of e.role) e name g)

  pub collect-clients : lookup (λ c. c.sinks) name (collect app).services ≡ clients
  unfolding clients add_node
  collect-clients =
      collect-view (λ g. lookup (λ c. c.sinks) name g.services) app _ _ refl
        (λ n g. add_both-sinks name (service_sources n) (service_sinks n) g.services)
        (λ e g. add_external-client (role_of e.role) e name g)

  pub collect-action_servers : lookup (λ c. c.sources) name (collect app).actions ≡ action_servers
  unfolding action_servers add_node
  collect-action_servers =
      collect-view (λ g. lookup (λ c. c.sources) name g.actions) app _ _ refl
        (λ n g. add_both-sources name (action_sources n) (action_sinks n) g.actions)
        (λ e g. add_external-action_server (role_of e.role) e name g)

  pub collect-action_users : lookup (λ c. c.sinks) name (collect app).actions ≡ action_users
  unfolding action_users add_node
  collect-action_users =
      collect-view (λ g. lookup (λ c. c.sinks) name g.actions) app _ _ refl
        (λ n g. add_both-sinks name (action_sources n) (action_sinks n) g.actions)
        (λ e g. add_external-action_client (role_of e.role) e name g)
