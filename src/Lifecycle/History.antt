-- ===== src/Lifecycle/History.antt =====
-- What the published events and the calls of the work functions say of a node, after any requests.
use mathlib.Core.List.{foldl, foldl-append}
use conductor_ros.Prelude.{
  ◌+◌, ◌≡◌, Bool, true, false, List, [], ◌∷◌, ◌++◌, if◌then◌else◌, arith, refl, inl, inr,
  Option-cases, ◌∙◌,
}
use conductor_ros.Lifecycle.States.{State, Transition, goal_of, same_state, is_primary}
use conductor_ros.Lifecycle.Machine.{
  Hooks, Outcome, run_hook, Event, Work, Lifecycle, for_transition, transition, new_lifecycle,
}
use conductor_ros.Lifecycle.Outcomes.{
  published, notified, transition_refused, transition_failed, transition_succeeded,
  goal_of-is_primary,
}

-- A request for a transition, with what its hook comes to.
pub record Request : Type 0 where
  pub t : Transition
  pub outcome : Outcome

-- Requests one after the other.
unfoldable pub drive : Lifecycle → List Request → Lifecycle
drive l [] = l
drive l (r ∷ rs) = drive (transition r.t r.outcome l).1 rs

-- An observer that follows the events: an error event leaves the state as it was.
abbrev pub follow : State → Event → State
follow s e = if same_state e.goal State.error_processing then s else e.goal

-- An observer that follows the work functions: is the work running?
abbrev pub is_running : Bool → Work → Bool
is_running b Work.started = true
is_running b Work.stopped = false

pub record Tracks (l : Lifecycle) : Type 0 where
  pub rests : is_primary l.state ≡ true
  pub replayed : foldl follow State.unconfigured l.events ≡ l.state
  pub working : foldl is_running false l.work ≡ same_state l.state State.active
  pub publishing : l.publishes ≡ true

foldl-snoc {ℓ κ} :
    {A : Type ℓ} {B : Type κ} (f : B → A → B) (b : B) (xs : List A) (x : A)
    → foldl f b (xs ++ x ∷ []) ≡ f (foldl f b xs) x
foldl-snoc f b xs x = rw foldl-append

error_event_kept :
    (l : Lifecycle) (t : Transition)
    → Tracks l
    → Tracks (record l { events = published l t State.error_processing })
unfolding same_state
error_event_kept l t h = record {
  rests = h.rests;
  replayed = rw h.publishing (foldl-snoc follow State.unconfigured l.events _ ∙ h.replayed);
  working = h.working;
  publishing = h.publishing;
}

working_step :
    (s g : State) (w : List Work)
    → is_primary s ≡ true
    → is_primary g ≡ true
    → foldl is_running false w ≡ same_state s State.active
    → foldl is_running false (notified s g w) ≡ same_state g State.active
unfolding same_state
working_step s g w hs hg h =
    ground (
      arith,
      foldl-snoc is_running false w Work.started,
      foldl-snoc is_running false w Work.stopped,
    )

follow_rest :
    (s start g : State) (t : Transition)
    → is_primary g ≡ true
    → follow s (record { t = t; start = start; goal = g }) ≡ g
unfolding same_state
follow_rest s start g t h = ground arith

success_kept :
    (l : Lifecycle) (t : Transition) (g : State)
    → is_primary g ≡ true
    → Tracks l
    → Tracks (record l {
      state = g;
      events = published l t g;
      work = notified l.state g l.work;
      transitions = l.transitions + 1;
      gauge = g;
    })
unfolding same_state
success_kept l t g hg h = record {
  rests = hg;
  replayed =
      rw h.publishing
        (foldl-snoc follow State.unconfigured l.events _ ∙ follow_rest _ l.state g t hg);
  working = working_step l.state g l.work h.rests hg h.working;
  publishing = h.publishing;
}

transition-Tracks : (r : Request) (l : Lifecycle) → Tracks l → Tracks (transition r.t r.outcome l).1
transition-Tracks r l h = elim (Option-cases (goal_of l.state r.t)) [
  | inl no_row ↦ rw (transition_refused r.t r.outcome l no_row) h
  | inr (g, row) ↦ elim (Option-cases (run_hook (for_transition l.hooks r.t) r.outcome)) [
    | inl fine ↦
        rw (transition_succeeded r.t r.outcome l g row fine)
          (success_kept l r.t g (goal_of-is_primary l.state r.t g row).1 h)
    | inr (e, failed) ↦
        rw (transition_failed r.t r.outcome l g e row failed) (error_event_kept l r.t h)
  ]
]

-- Whatever is requested and whatever the hooks do, the node rests in a primary state, the events
-- replay to that state, and the work functions were last called as the Active state asks.
pub drive-Tracks : (l : Lifecycle) (rs : List Request) → Tracks l → Tracks (drive l rs)
unfolding drive
drive-Tracks l [] h = h
drive-Tracks l (r ∷ rs) h = drive-Tracks (transition r.t r.outcome l).1 rs (transition-Tracks r l h)

-- A node whose `transition_event` publisher has just been bound.
abbrev pub bound : Hooks → Lifecycle
bound h = record (new_lifecycle h) { publishes = true }

pub bound-Tracks : (h : Hooks) → Tracks (bound h)
unfolding new_lifecycle same_state
bound-Tracks h = record { rests = refl; replayed = refl; working = refl; publishing = refl }
