-- ===== src/Lifecycle/Serial.antt =====
-- Transitions that are requested at once: `lifecycle.go` runs each in two critical sections, and
-- anything may happen between and after them.
use conductor_ros.Prelude.{
  ◌≡◌, ◌⊎◌, Bool, true, false, Option, none, some, List, [], ◌∷◌, ◌++◌, arith, inl, inr, ◌∙◌, sym,
  ap,
}
use conductor_ros.Lifecycle.States.{State, Transition, goal_of, is_primary, intermediate_state}
use conductor_ros.Lifecycle.Machine.{
  Failure, Pending, Lifecycle, begin_transition, commit_transition, settle_transition,
}
use conductor_ros.Lifecycle.Outcomes.{goal_of-is_primary}

-- A call behind its second section, that has not yet done what follows.
pub record Owed : Type 0 where
  pub pending : Pending
  pub failure : Option Failure

-- The node, the calls that wait for their hook, those behind their second section, the hooks that
-- still run though their call has given up on them, and whether the node was told to quit.
pub record Calls : Type 0 where
  pub life : Lifecycle
  pub hooking : List Pending
  pub owed : List Owed
  pub adrift : List Pending
  pub closed : Bool

-- A request comes in, a hook comes to an end (or is refused, or there is none), the node quits, a
-- call gives up on its hook, such a hook comes to its end, a call does what is left; in any order.
pub data Step : Calls → Calls → Type 0 where
  request :
      (c : Calls) (t : Transition) (p : Pending) (l : Lifecycle)
      → begin_transition t c.life ≡ (some p, l)
      → Step c (record c { life = l; hooking = p ∷ c.hooking })
  hook_ends :
      (c : Calls) (p : Pending) (failure : Option Failure) (before after : List Pending)
      → (failure ≡ some Failure.shut_down_during → ⊥)
      → c.hooking ≡ before ++ (p ∷ after)
      → Step c (record c {
        life = commit_transition p failure c.life;
        hooking = before ++ after;
        owed = c.owed ++ record { pending = p; failure = failure } ∷ [];
      })
  quits : (c : Calls) → Step c (record c { closed = true })
  gives_up :
      (c : Calls) (p : Pending) (before after : List Pending)
      → c.closed ≡ true
      → c.hooking ≡ before ++ (p ∷ after)
      → Step c (record c {
        life = commit_transition p (some Failure.shut_down_during) c.life;
        hooking = before ++ after;
        owed = c.owed ++ record { pending = p; failure = some Failure.shut_down_during } ∷ [];
        adrift = p ∷ c.adrift;
      })
  drifted :
      (c : Calls) (p : Pending) (before after : List Pending)
      → c.adrift ≡ before ++ (p ∷ after)
      → Step c (record c { adrift = before ++ after })
  settles :
      (c : Calls) (w : Owed) (before after : List Owed)
      → c.owed ≡ before ++ (w ∷ after)
      → Step c
          (record c { life = settle_transition w.pending w.failure c.life; owed = before ++ after })

pub data Reach (s : Calls) : Calls → Type 0 where
  here : Reach s s
  next : {t u : Calls} → Reach s t → Step t u → Reach s u

-- No call waits for a hook and the node rests, or one does, and the state is that transition's own.
abbrev pub Single : Calls → Type 0
Single c =
    ((c.hooking ≡ []) × (is_primary c.life.state ≡ true))
    ⊎ ((p : Pending) × (c.hooking ≡ p ∷ [])
        × (c.life.state ≡ intermediate_state p.t)
        × (goal_of p.start p.t ≡ some p.goal))

-- Until the node quits, no hook runs but of a call that waits for it.
abbrev pub Serial : Calls → Type 0
Serial c = (c.closed ≡ false → c.adrift ≡ []) × Single c

begun :
    (t : Transition) (l l' : Lifecycle) (p : Pending)
    → begin_transition t l ≡ (some p, l')
    → (goal_of l.state t ≡ some p.goal)
      × (p.t ≡ t)
      × (p.start ≡ l.state)
      × (l'.state ≡ intermediate_state t)
unfolding begin_transition
begun t l l' p h = ground arith

state-settle_transition :
    (p : Pending) (f : Option Failure) (l : Lifecycle) → (settle_transition p f l).state ≡ l.state
unfolding settle_transition
state-settle_transition p f l = ground arith

only :
    (q : Pending) (p : Pending) (before after : List Pending)
    → q ∷ [] ≡ before ++ (p ∷ after)
    → (before ++ after ≡ []) × (q ≡ p)
only q p [] after h = (cc, cc)
only q p (x ∷ []) after h = cc
only q p (x ∷ (y ∷ before)) after h = cc

nothing_there : (p : Pending) (before after : List Pending) → [] ≡ before ++ (p ∷ after) → ⊥
nothing_there p [] after h = cc
nothing_there p (x ∷ before) after h = cc

intermediate_refuses :
    (s : State) (t : Transition) (q : Pending) (g : State)
    → s ≡ intermediate_state q.t
    → goal_of q.start q.t ≡ some q.goal
    → goal_of s t ≡ some g
    → ⊥
intermediate_refuses s t q g e valid h =
    cc (e, (goal_of-is_primary q.start q.t q.goal valid).2, (goal_of-is_primary s t g h).0)

rests_after :
    (p : Pending) (f : Option Failure) (l : Lifecycle)
    → goal_of p.start p.t ≡ some p.goal
    → is_primary (commit_transition p f l).state ≡ true
unfolding commit_transition
rests_after p (some e) l valid = (goal_of-is_primary p.start p.t p.goal valid).0
rests_after p none l valid = (goal_of-is_primary p.start p.t p.goal valid).1

ended_hook :
    (c : Calls) (p : Pending) (f : Option Failure) (before after : List Pending)
    → c.hooking ≡ before ++ (p ∷ after)
    → Single c
    → (before ++ after ≡ []) × (is_primary (commit_transition p f c.life).state ≡ true)
ended_hook c p f before after e (inl (none_waits, rests)) =
    absurd (nothing_there p before after (sym none_waits ∙ e))
ended_hook c p f before after e (inr (q, one, state, valid)) =
    let (rest, same) = only q p before after (sym one ∙ e) in
    (rest, rests_after p f c.life (rw same at valid))

Step-Serial : {c d : Calls} → Step c d → Serial c → Serial d
Step-Serial (request c t p l e) (quiet, inl (none_waits, rests)) =
    let (row, same, start, entered) = begun t c.life l p e in
    (
      quiet,
      inr (p, ap (λ (ps : List Pending). p ∷ ps) none_waits, rw same entered, rw (start, same) row),
    )
Step-Serial (request c t p l e) (quiet, inr (q, one, state, valid)) =
    absurd (intermediate_refuses c.life.state t q p.goal state valid (begun t c.life l p e).0)
Step-Serial (hook_ends c p failure before after returned e) (quiet, s) =
    (quiet, inl (ended_hook c p failure before after e s))
Step-Serial (quits c) (quiet, s) = (λ h. absurd (cc h), s)
Step-Serial (gives_up c p before after closed e) (quiet, s) = (
  λ h. absurd (cc (closed, h)),
  inl (ended_hook c p (some Failure.shut_down_during) before after e s),
)
Step-Serial (drifted c p before after e) (quiet, s) =
    (λ h. absurd (nothing_there p before after (sym (quiet h) ∙ e)), s)
Step-Serial (settles c w before after e) (quiet, s) =
    (quiet, rw (state-settle_transition w.pending w.failure c.life) s)

-- However requests, hooks, the node's shutdown and the work behind them interleave, from a resting
-- node without calls at most one call at a time waits for its hook, with the node in that
-- transition's intermediate state, and otherwise the node is in a primary state; and until it is
-- shut down no hook runs but that one.
pub Reach-Serial : {c d : Calls} → Serial c → Reach c d → Serial d
Reach-Serial h here = h
Reach-Serial h (next r st) = Step-Serial st (Reach-Serial h r)

abbrev pub idle : Lifecycle → Calls
idle l = record { life = l; hooking = []; owed = []; adrift = []; closed = false }
