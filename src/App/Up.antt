-- ===== src/App/Up.antt =====
-- run.go: what bringing up an application comes to.
use Prim.Native.String.{String}
use text.Mathlib.Text.{◌==◌ as str_eq}
use text.Mathlib.TextPositions.{eq_refl}
use conductor_ros.Prelude.{
  ◌≡◌, refl, sym, ap, ◌∙◌, true, false, Option, none, some, List, [], ◌∷◌, ◌++◌, ◌⊎◌, inl, inr,
  Bool-cases, arith,
}
use conductor_ros.Prelude.Names.{mem, mem-append, Distinct, mem-ne, str_eq-of}
use conductor_ros.Lifecycle.States.{State, Transition, configure, activate, goal_of}
use conductor_ros.Lifecycle.Machine.{
  Failure, Outcome, Lifecycle, transition, run_hook, for_transition,
}
use conductor_ros.Lifecycle.Outcomes.{transition_failed, transition_succeeded}
use conductor_ros.App.Nodes.{Fleet, put, Outcomes, BringUpError, bring_node, bring_nodes}

-- A transition that the table has either fails and keeps the state, or reaches the goal.
abbrev pub Moved : State → State → Option Failure × Lifecycle → Type 0
Moved s g r = ((r.0 ≡ none) × (r.1.state ≡ g)) ⊎ ((e : Failure) × (r.0 ≡ some e) × (r.1.state ≡ s))

pub transition-Moved :
    (t : Transition) (o : Outcome) (l : Lifecycle) (g : State)
    → goal_of l.state t ≡ some g
    → Moved l.state g (transition t o l)
transition-Moved t o l g h = ended_by (run_hook (for_transition l.hooks t) o) refl
  where
    ended_by :
        (k : Option Failure)
        → run_hook (for_transition l.hooks t) o ≡ k
        → Moved l.state g (transition t o l)
    ended_by none e = rw (transition_succeeded t o l g h e) (inl (refl, refl))
    ended_by (some x) e = rw (transition_failed t o l g x h e) (inr (x, refl, refl))

-- What bringing one node up comes to.
abbrev pub NodeUp : String → Option BringUpError × Lifecycle → Type 0
NodeUp n (none, l) = l.state ≡ State.active
NodeUp n (some e, l) = (e.node ≡ n) × ((l.state ≡ State.unconfigured) ⊎ (l.state ≡ State.inactive))

-- What bringing nodes up comes to, in the order given.
abbrev pub NodesUp : List String → Fleet → Option BringUpError × Fleet → Type 0
NodesUp order f (none, f') = (x : String) → mem x order ≡ true → (f' x).state ≡ State.active
NodesUp order f (some e, f') =
    (before : List String) × (after : List String) × (order ≡ before ++ e.node ∷ after)
    × ((x : String) → mem x before ≡ true → (f' x).state ≡ State.active)
    × (((f' e.node).state ≡ State.unconfigured) ⊎ ((f' e.node).state ≡ State.inactive))
    × ((x : String) → mem x after ≡ true → f' x ≡ f x)

module _ (outcomes : Outcomes) where
  -- One transition of `bringUp`, and what follows it.
  stage :
      (n : String) (t : Transition) (ts : List Transition) (s g : State)
      → ((s ≡ State.unconfigured) ⊎ (s ≡ State.inactive))
      → (r : Option Failure × Lifecycle) → Moved s g r
      → ((l : Lifecycle) → l.state ≡ g → NodeUp n (bring_node outcomes n ts l))
      → NodeUp n (elim r.0 as (λ _. Option BringUpError × Lifecycle) [
        | none ↦ bring_node outcomes n ts r.1
        | some e ↦ (some (record { node = n; t = t; why = e }), r.1)
      ])
  stage n t ts s g low (none, l) (inl (ok, up)) later = later l up
  stage n t ts s g low (none, l) (inr (e, bad, same)) later = absurd (cc bad)
  stage n t ts s g low (some e, l) (inl (ok, up)) later = absurd (cc ok)
  stage n t ts s g (inl low) (some e, l) (inr (_, bad, same)) later = (refl, inl (same ∙ low))
  stage n t ts s g (inr low) (some e, l) (inr (_, bad, same)) later = (refl, inr (same ∙ low))

  pub bring_node-NodeUp :
      (n : String) (l : Lifecycle)
      → l.state ≡ State.unconfigured
      → NodeUp n (bring_node outcomes n (configure ∷ (activate ∷ [])) l)
  unfolding bring_node goal_of
  bring_node-NodeUp n l h =
      stage n configure (activate ∷ []) l.state State.inactive (inl h)
        (transition configure (outcomes n configure) l)
        (transition-Moved configure (outcomes n configure) l State.inactive (rw h refl))
        λ l' h'.
          stage n activate [] l'.state State.active (inr h')
            (transition activate (outcomes n activate) l')
            (transition-Moved activate (outcomes n activate) l' State.active (rw h' refl))
            λ l'' up. up

  put_same : (f : Fleet) (n : String) (l : Lifecycle) → put f n l n ≡ l
  put_same f n l = rw (eq_refl n)

  put_other :
      (f : Fleet) (n : String) (l : Lifecycle) (x : String) → str_eq n x ≡ false → put f n l x ≡ f x
  put_other f n l x h = rw h

  bring_nodes_other :
      (order : List String) (f : Fleet) (x : String)
      → mem x order ≡ false
      → (bring_nodes outcomes order f).1 x ≡ f x
  unfolding bring_nodes mem
  bring_nodes_other [] f x out = refl
  bring_nodes_other (n ∷ ns) f x out =
      left_alone (bring_node outcomes n (configure ∷ (activate ∷ [])) (f n))
        (λ f'. bring_nodes_other ns f' x (ground (arith, out)))
    where
      left_alone :
          (r : Option BringUpError × Lifecycle)
          → ((f' : Fleet) → (bring_nodes outcomes ns f').1 x ≡ f' x)
          → (elim r.0 as (λ _. Option BringUpError × Fleet) [
            | none ↦ bring_nodes outcomes ns (put f n r.1)
            | some e ↦ (some e, put f n r.1)
          ]).1
              x
            ≡ f x
      left_alone (none, l) later = later (put f n l) ∙ put_other f n l x (ground (arith, out))
      left_alone (some e, l) later = put_other f n l x (ground (arith, out))

  pub bring_nodes-NodesUp :
      (order : List String) (f : Fleet)
      → Distinct order
      → ((x : String) → mem x order ≡ true → (f x).state ≡ State.unconfigured)
      → NodesUp order f (bring_nodes outcomes order f)
  unfolding bring_nodes mem
  bring_nodes-NodesUp [] f d fresh = λ x h. absurd (cc h)
  bring_nodes-NodesUp (n ∷ ns) f (out, d) fresh =
      split_by (bring_node outcomes n (configure ∷ (activate ∷ [])) (f n))
        (bring_node-NodeUp n (f n) (fresh n (rw (eq_refl n)))) (λ f'. bring_nodes-NodesUp ns f' d)
    where
      others : (l : Lifecycle) (x : String) → mem x ns ≡ true → put f n l x ≡ f x
      others l x h = put_other f n l x (mem-ne x n ns h out)

      actives :
          (l : Lifecycle) (f' : Fleet) (zs : List String)
          → l.state ≡ State.active
          → f' n ≡ l
          → ((x : String) → mem x zs ≡ true → (f' x).state ≡ State.active)
          → (x : String) → mem x (n ∷ zs) ≡ true
          → (f' x).state ≡ State.active
      actives l f' zs up same u x h = elim (Bool-cases (str_eq n x)) [
        | inl e ↦
            let here : n ≡ x = str_eq-of n x e in
            ap (λ (y : String). (f' y).state) (sym here) ∙ ap (λ (y : Lifecycle). y.state) same ∙ up
        | inr e ↦ u x (ground (arith, h, e))
      ]

      extend :
          (l : Lifecycle)
          → l.state ≡ State.active
          → (r : Option BringUpError × Fleet) → r.1 n ≡ l
          → NodesUp ns (put f n l) r
          → NodesUp (n ∷ ns) f r
      extend l up (none, f') same u = actives l f' ns up same u
      extend l up (some e, f') same (before, after, split, active_before, here, rest) = (
        n ∷ before,
        after,
        ap (λ (xs : List String). n ∷ xs) split,
        actives l f' before up same active_before,
        here,
        λ x h.
            rest x h
            ∙ others l x
                (rw split (unfold mem in ground (arith, mem-append x before (e.node ∷ after), h))),
      )

      at_fault :
          (e : BringUpError) (l : Lifecycle)
          → e.node ≡ n
          → ((l.state ≡ State.unconfigured) ⊎ (l.state ≡ State.inactive))
          → (((put f n l e.node).state ≡ State.unconfigured)
              ⊎ ((put f n l e.node).state ≡ State.inactive))
      at_fault e l same stays = rw (same, eq_refl n) stays

      split_by :
          (r : Option BringUpError × Lifecycle)
          → NodeUp n r
          → ((f' : Fleet)
              → ((x : String) → mem x ns ≡ true → (f' x).state ≡ State.unconfigured)
              → NodesUp ns f' (bring_nodes outcomes ns f'))
          → NodesUp (n ∷ ns) f (elim r.0 as (λ _. Option BringUpError × Fleet) [
            | none ↦ bring_nodes outcomes ns (put f n r.1)
            | some e ↦ (some e, put f n r.1)
          ])
      split_by (none, l) up later =
          extend l up (bring_nodes outcomes ns (put f n l))
            (bring_nodes_other ns (put f n l) n out ∙ put_same f n l)
            (later (put f n l) (λ x h.
              ap (λ (y : Lifecycle). y.state) (others l x h) ∙ fresh x (rw h (ground arith))))
      split_by (some e, l) (same, stays) later =
          ([], ns, rw same, λ x h. absurd (cc h), at_fault e l same stays, λ x h. others l x h)
