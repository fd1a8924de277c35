-- ===== src/Graph/Sound/Pairs.antt =====
-- internal/graph/graph.go: the checks of a topic, a service and an action report what is wrong.
use Prim.Native.String.{String}
use conductor_ros.Prelude.{
  ◌≡◌, refl, ◌↔◌, ◌≤◌, Bool, true, false, ◌&&◌, Option, none, some, List, [], ◌∷◌, ◌++◌, length,
  ◌==◌, ltb, arith,
}
use mathlib.Core.Path.{subst}
use conductor_ros.Prelude.Iff.{some_inj, ◌then_iff◌, both_iff, or-false_iff}
use conductor_ros.Bus.Qos.{
  Qos, qos_profile, Reliability, reliable, best_effort, Durability, volatile, transient_local,
}
use conductor_ros.Graph.Issues.{Pos, nowhere, Issue, errors, when, report, gather}
use conductor_ros.Graph.Silent.{
  Silent, Silent-report, Silent-when, Silent-warned, Silent-nil, append_iff, gather_iff,
  gather-Silent, report_loud,
}
use conductor_ros.Graph.Channels.{Channel}
use conductor_ros.Graph.Build.{TopicEndpoint, SvcEndpoint}
use conductor_ros.Graph.Pairs.{
  disagree, go_types, ros_types, check_types, wants_reliable, wants_latched, qos_incompat,
  check_pair, check_pairs, all_internal, all_internal_svc, check_topic, check_servers,
  check_service_name, check_action_name,
}
use conductor_ros.Graph.Agree.{Agree, disagree_iff}
use conductor_ros.Graph.Clean.{Offers, Compatible, TopicOk, ServiceOk, ActionNameOk}

-- Where nothing is offered and each that wants it is reported, nobody wants it.
module _ {E : Type 0} (code : String) (f : E → Pos) where
  unserved_iff :
      (xs ys : List E)
      → Silent (when (length xs == 0) (gather (λ x. report code (f x)) ys)) ↔ (xs ≡ [] → ys ≡ [])
  unfolding when gather errors
  unserved_iff [] [] = (λ h e. refl, λ h. refl)
  unserved_iff [] (y ∷ ys) = (λ h e. absurd (cc h), λ h. absurd (cc (h refl)))
  unserved_iff (x ∷ xs) ys =
      let some_there : (length (x ∷ xs) == 0) ≡ false = ground arith in
      (λ h e. absurd (cc e), λ h. rw some_there refl)

disagree-report_iff :
    (ks : List String) → Silent (when (disagree ks) (report "CND012" nowhere)) ↔ Agree ks
disagree-report_iff ks = Silent-report (disagree ks) "CND012" nowhere then_iff disagree_iff ks

check_types_iff :
    (t : Channel TopicEndpoint)
    → Silent (check_types t)
      ↔ (Agree (go_types (t.sources ++ t.sinks)) × Agree (ros_types (t.sources ++ t.sinks)))
unfolding check_types
check_types_iff t = append_iff _ _ (disagree-report_iff _) (disagree-report_iff _)

reliable_iff :
    (p s : Qos)
    → (wants_reliable p s ≡ false) ↔ (s.reliability ≡ reliable → p.reliability ≡ reliable)
reliable_iff p s = wanted p.reliability s.reliability
  where
    wanted :
        (pr sr : Reliability)
        → ((elim sr as (λ _. Bool) [
          | best_effort ↦ false
          | reliable ↦ elim pr [ reliable ↦ false | best_effort ↦ true ]
        ])
            ≡ false)
          ↔ (sr ≡ reliable → pr ≡ reliable)
    wanted reliable reliable = (λ h e. refl, λ h. refl)
    wanted reliable best_effort = (λ h e. refl, λ h. refl)
    wanted best_effort reliable = (λ h. absurd (cc h), λ h. absurd (cc (h refl)))
    wanted best_effort best_effort = (λ h e. e, λ h. refl)

latched_iff :
    (p s : Qos)
    → (wants_latched p s ≡ false)
      ↔ (s.durability ≡ transient_local → p.durability ≡ transient_local)
latched_iff p s = wanted p.durability s.durability
  where
    wanted :
        (pd sd : Durability)
        → ((elim sd as (λ _. Bool) [
          | volatile ↦ false
          | transient_local ↦ elim pd [ transient_local ↦ false | volatile ↦ true ]
        ])
            ≡ false)
          ↔ (sd ≡ transient_local → pd ≡ transient_local)
    wanted transient_local transient_local = (λ h e. refl, λ h. refl)
    wanted transient_local volatile = (λ h e. refl, λ h. refl)
    wanted volatile transient_local = (λ h. absurd (cc h), λ h. absurd (cc (h refl)))
    wanted volatile volatile = (λ h e. e, λ h. refl)

qos_incompat_iff : (pos : Pos) (p s : Qos) → Silent (qos_incompat pos p s) ↔ Offers p s
unfolding qos_incompat
qos_incompat_iff pos p s =
    append_iff _ _ (Silent-report _ "CND013" pos then_iff reliable_iff p s)
      (Silent-report _ "CND013" pos then_iff latched_iff p s)

check_pair_iff : (p s : TopicEndpoint) → Silent (check_pair p s) ↔ Compatible p s
unfolding check_pair
check_pair_iff p s = known (qos_profile p.qos) (qos_profile s.qos)
  where
    known :
        (po so : Option Qos)
        → Silent (elim po as (λ _. List Issue) [
          | none ↦ []
          | some pq ↦ elim so [ none ↦ [] | some sq ↦ qos_incompat s.pos pq sq ]
        ])
          ↔ ((pq sq : Qos) → po ≡ some pq → so ≡ some sq → Offers pq sq)
    known none so = (λ h pq sq e. absurd (cc e), λ h. Silent-nil)
    known (some x) none = (λ h pq sq e e'. absurd (cc e'), λ h. Silent-nil)
    known (some x) (some y) = qos_incompat_iff s.pos x y then_iff (
      λ h pq sq e e'.
          subst (λ z. Offers z sq) (some_inj x pq e) (subst (λ z. Offers x z) (some_inj y sq e') h),
      λ h. h x y refl refl,
    )

pub check_topic_iff :
    (t : Channel TopicEndpoint) → Silent (check_topic t) ↔ TopicOk t.sources t.sinks
unfolding check_topic check_pairs
check_topic_iff t = append_iff _ _ (unserved_iff "CND010" (λ s. s.pos) t.sources t.sinks) (
    append_iff _ _ (Silent-when (length t.sinks == 0 && all_internal t.sources) _) (
      append_iff _ _ (check_types_iff t)
        (gather_iff _ (λ p. gather_iff _ (check_pair_iff p) t.sinks) t.sources))
    then_iff (
      λ (warned, ((go, ros), pairs)). (go, (ros, pairs)),
      λ (go, (ros, pairs)).
          (λ e. gather-Silent _ (λ p. Silent-warned "CND011" p.pos) t.sources, ((go, ros), pairs)),
    ))

check_servers_iff :
    (code : String) (xs : List SvcEndpoint) → Silent (check_servers code xs) ↔ (length xs ≤ 1)
unfolding check_servers
check_servers_iff code [] = (λ h. omega arith, λ h. Silent-nil)
check_servers_iff code (x ∷ []) = (λ h. omega arith, λ h. Silent-nil)
check_servers_iff code (x ∷ y ∷ zs) =
    (λ h. absurd (report_loud _ _ h), λ h. absurd (omega (arith, h)))

pub check_service_name_iff :
    (s : Channel SvcEndpoint) → Silent (check_service_name s) ↔ ServiceOk s.sources s.sinks
unfolding check_service_name
check_service_name_iff s = append_iff _ _ (unserved_iff "CND020" (λ c. c.pos) s.sources s.sinks) (
    append_iff _ _ (check_servers_iff "CND022" s.sources) (
      append_iff _ _ (Silent-when (length s.sinks == 0 && all_internal_svc s.sources) _) (
        Silent-report _ "CND023" nowhere
        then_iff or-false_iff _ _
        then_iff both_iff (disagree_iff _) (disagree_iff _))
      then_iff (
        λ (warned, agree). agree,
        λ agree. (λ e. gather-Silent _ (λ x. Silent-warned "CND021" x.pos) s.sources, agree),
      )))

uncalled_iff :
    (xs ys : List SvcEndpoint)
    → ((length xs == 0 && ltb 0 (length ys)) ≡ false) ↔ (xs ≡ [] → ys ≡ [])
uncalled_iff [] [] = (λ h e. refl, λ h. refl)
uncalled_iff [] (y ∷ ys) = (λ h e. absurd (ground (arith, h)), λ h. absurd (cc (h refl)))
uncalled_iff (x ∷ xs) ys = (λ h e. absurd (cc e), λ h. ground arith)

pub check_action_name_iff :
    (a : Channel SvcEndpoint) → Silent (check_action_name a) ↔ ActionNameOk a.sources a.sinks
unfolding check_action_name
check_action_name_iff a =
    append_iff _ _ (check_servers_iff "CND030" a.sources)
      (Silent-report _ "CND031" nowhere then_iff uncalled_iff a.sources a.sinks)
