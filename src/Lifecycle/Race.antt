-- ===== src/Lifecycle/Race.antt =====
-- The work functions run behind the second critical section, so two transitions can call them out
-- of order.
use conductor_ros.Prelude.{◌≡◌, false, none, some, [], ◌∷◌, ◌++◌, refl, arith}
use conductor_ros.Lifecycle.States.{State, goal_of, intermediate_state, activate, deactivate}
use conductor_ros.Lifecycle.Machine.{
  Work, Pending, Lifecycle, begin_transition, commit_transition, settle_transition,
}
use conductor_ros.Lifecycle.Serial.{Owed, Calls, Step, Reach, idle}

abbrev pub activating : Pending
activating = record { t = activate; start = State.inactive; goal = State.active }

abbrev pub deactivating : Pending
deactivating = record { t = deactivate; start = State.active; goal = State.inactive }

abbrev succeeded : Pending → Owed
succeeded p = record { pending = p; failure = none }

-- From any inactive node without calls, an activation and a deactivation that both succeed can
-- leave it inactive, with no call outstanding, after its work was stopped first and then started.
pub Reach-out_of_order :
    (l : Lifecycle)
    → l.state ≡ State.inactive
    → (d : Calls) × Reach (idle l) d
      × (d.hooking ≡ [])
      × (d.owed ≡ [])
      × (d.life.state ≡ State.inactive)
      × (d.life.work ≡ (l.work ++ Work.stopped ∷ []) ++ Work.started ∷ [])
unfolding begin_transition goal_of intermediate_state commit_transition settle_transition
Reach-out_of_order l e = (end, run, refl, refl, still, calls)
  where
    at : State → Lifecycle
    at s = record l { state = s }

    end : Calls
    end = idle (
        settle_transition activating none (settle_transition deactivating none (at State.inactive)))

    first : begin_transition activate l ≡ (some activating, at State.activating)
    first = ground arith

    begun : Reach (idle l) (record {
      life = at State.activating;
      hooking = activating ∷ [];
      owed = [];
      adrift = [];
      closed = false;
    })
    begun = Reach.next Reach.here (Step.request (idle l) activate activating _ first)

    active : Reach (idle l) (record {
      life = at State.active;
      hooking = [];
      owed = succeeded activating ∷ [];
      adrift = [];
      closed = false;
    })
    active = Reach.next begun (Step.hook_ends _ activating none [] [] (λ h. absurd (cc h)) refl)

    leaving : Reach (idle l) (record {
      life = at State.deactivating;
      hooking = deactivating ∷ [];
      owed = succeeded activating ∷ [];
      adrift = [];
      closed = false;
    })
    leaving = Reach.next active (Step.request _ deactivate deactivating _ refl)

    left : Reach (idle l) (record {
      life = at State.inactive;
      hooking = [];
      owed = succeeded activating ∷ (succeeded deactivating ∷ []);
      adrift = [];
      closed = false;
    })
    left = Reach.next leaving (Step.hook_ends _ deactivating none [] [] (λ h. absurd (cc h)) refl)

    run : Reach (idle l) end
    run =
        Reach.next
          (Reach.next left
            (Step.settles _ (succeeded deactivating) (succeeded activating ∷ []) [] refl))
          (Step.settles _ (succeeded activating) [] [] refl)

    still : end.life.state ≡ State.inactive
    still = ground arith

    calls : end.life.work ≡ (l.work ++ Work.stopped ∷ []) ++ Work.started ∷ []
    calls = ground arith
