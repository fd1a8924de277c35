-- ===== src/Graph/Reach.antt =====
-- internal/graph/mission.go: `markReachable` marks the steps that can be reached, and no other.
use Prim.Native.String.{String}
use text.Mathlib.Text.{◌==◌ as str_eq}
use text.Mathlib.TextPositions.{eq_refl}
use mathlib.Core.Path.{subst}
use conductor_ros.Prelude.{
  ℕ, zero, suc, ◌<◌, ◌≡◌, ◌⊎◌, ◌↔◌, refl, sym, ap, ◌∙◌, true, false, not, ◌&&◌, ◌||◌, some, List,
  [], ◌∷◌, ◌++◌, inl, inr, Bool-cases, Option-cases, arith,
}
use conductor_ros.Prelude.Iff.{some_inj}
use conductor_ros.Prelude.Names.{mem, mem-snoc, pending, str_eq-of}
use conductor_ros.Prelude.Pending.{pending_anti, pending_less}
use conductor_ros.Graph.Machines.{
  MachineStep, append_once, add_targets, targets, step_of, visit_all, walk, step_names,
}

-- A step leads on by its tags and by its Goto calls; a tag that is not given leads nowhere.
abbrev pub Leads : MachineStep → String → Type 0
Leads s t = (str_eq t "" ≡ false) × ((t ≡ s.next) ⊎ ((t ≡ s.fail) ⊎ (mem t s.gotos ≡ true)))

mem-add_targets :
    (t : String) (out ts : List String)
    → mem t (add_targets out ts) ≡ (mem t out || (mem t ts && not (str_eq t "")))
unfolding add_targets mem append_once
mem-add_targets t out [] = ground arith
mem-add_targets t out (u ∷ us) = elim (Bool-cases (str_eq u "")) [
  | inl e ↦
      let empty : str_eq u t ≡ true → str_eq t "" ≡ true =
        λ h. ap (λ z. str_eq z "") (sym (str_eq-of u t h)) ∙ e in
      rw e (mem-add_targets t out us ∙ ground (arith, empty))
  | inr e ↦
      let given : str_eq u t ≡ true → str_eq t "" ≡ false =
        λ h. ap (λ z. str_eq z "") (sym (str_eq-of u t h)) ∙ e in
      elim (Bool-cases (mem u out)) [
        | inl old ↦
            let there : str_eq u t ≡ true → mem t out ≡ true =
              λ h. ap (λ z. mem z out) (sym (str_eq-of u t h)) ∙ old in
            rw (e, old) (mem-add_targets t out us ∙ ground (arith, there))
        | inr new ↦
            rw (e, new)
              (mem-add_targets t (out ++ u ∷ []) us ∙ ground (arith, given, mem-snoc t u out))
      ]
]

one_of :
    (t a b : String) (rest : List String)
    → (mem t (a ∷ b ∷ rest) ≡ true) ↔ ((t ≡ a) ⊎ ((t ≡ b) ⊎ (mem t rest ≡ true)))
unfolding mem
one_of t a b rest = (
  λ h. elim (Bool-cases (str_eq a t)) [
    | inl e ↦ inl (sym (str_eq-of a t e))
    | inr e ↦ elim (Bool-cases (str_eq b t)) [
      | inl k ↦ inr (inl (sym (str_eq-of b t k)))
      | inr k ↦ inr (inr (ground (arith, h, e, k)))
    ]
  ],
  λ h. elim h [
    | inl e ↦ rw (ap (λ z. str_eq z t) (sym e) ∙ eq_refl t) refl
    | inr (inl e) ↦ rw (ap (λ z. str_eq z t) (sym e) ∙ eq_refl t) (ground arith)
    | inr (inr k) ↦ ground (arith, k)
  ],
)

pub targets_iff : (s : MachineStep) (t : String) → (mem t (targets s) ≡ true) ↔ Leads s t
unfolding targets mem
targets_iff s t = (
  λ h.
      let e = sym (mem-add_targets t [] (s.next ∷ s.fail ∷ s.gotos)) ∙ h in
      let (there, given) = both e in (given, (one_of t s.next s.fail s.gotos).0 there),
  λ (given, k).
      mem-add_targets t [] (s.next ∷ s.fail ∷ s.gotos)
      ∙ rw ((one_of t s.next s.fail s.gotos).1 k, given) (unfold mem in refl),
)
  where
    both :
        (mem t [] || (mem t (s.next ∷ s.fail ∷ s.gotos) && not (str_eq t ""))) ≡ true
        → (mem t (s.next ∷ s.fail ∷ s.gotos) ≡ true) × (str_eq t "" ≡ false)
    both h = (ground (arith, h), ground (arith, h))

-- The steps that the machine can be in: its start, and what those lead to, as far as declared.
pub data Reach (steps : List MachineStep) (start : String) : String → Type 0 where
  here : (s : MachineStep) → step_of steps start ≡ some s → Reach steps start start
  there :
      (a : String) (s : MachineStep) (t : String) (s' : MachineStep)
      → Reach steps start a
      → step_of steps a ≡ some s
      → Leads s t
      → step_of steps t ≡ some s'
      → Reach steps start t

module _ (steps : List MachineStep) where
  -- The steps that a walk takes as seen before and after, and the names that it was sent to.
  pub record Visited (before after todo : List String) : Type 0 where
    pub grows : (x : String) → mem x before ≡ true → mem x after ≡ true
    pub reaches :
        (t : String) (s : MachineStep)
        → mem t todo ≡ true
        → step_of steps t ≡ some s
        → mem t after ≡ true
    pub closed :
        (x : String)
        → mem x after ≡ true
        → (mem x before ≡ true)
          ⊎ ((s : MachineStep) (t : String) (s' : MachineStep)
              → step_of steps x ≡ some s
              → mem t (targets s) ≡ true
              → step_of steps t ≡ some s'
              → mem t after ≡ true)

  abbrev left : List String → ℕ
  left seen = pending seen (step_names steps)

  Visited-nothing : (seen : List String) → Visited seen seen []
  unfolding mem
  Visited-nothing seen = record {
    grows = λ x h. h;
    reaches = λ t s h e. absurd (cc h);
    closed = λ x h. inl h;
  }

  Visited-then :
      (xs ys zs : List String) (t : String) (ts : List String)
      → Visited xs ys (t ∷ [])
      → Visited ys zs ts
      → Visited xs zs (t ∷ ts)
  unfolding mem
  Visited-then xs ys zs t ts v w = record {
    grows = λ x h. w.grows x (v.grows x h);
    reaches = λ u s h e. elim (Bool-cases (str_eq t u)) [
      | inl k ↦ w.grows u (v.reaches u s (rw k refl) e)
      | inr k ↦ w.reaches u s (ground (arith, h, k)) e
    ];
    closed = λ x h. elim (w.closed x h) [
      | inl mid ↦ elim (v.closed x mid) [
        | inl first ↦ inl first
        | inr f ↦ inr (λ s u s' e k e'. w.grows u (f s u s' e k e'))
      ]
      | inr f ↦ inr f
    ];
  }

  visit_all-Visited :
      (visit : List String → String → List String) (bound : ℕ)
      → ((seen : List String) (t : String)
          → left seen < bound
          → Visited seen (visit seen t) (t ∷ []))
      → (ts seen : List String) → left seen < bound
      → Visited seen (visit_all visit seen ts) ts
  unfolding visit_all
  visit_all-Visited visit bound h [] seen small = Visited-nothing seen
  visit_all-Visited visit bound h (t ∷ ts) seen small =
      let v = h seen t small in
      Visited-then seen (visit seen t) _ t ts v (
        visit_all-Visited visit bound h ts (visit seen t)
          (omega (arith, small, pending_anti seen (visit seen t) (step_names steps) v.grows)))

  -- A name that was seen, or is of no step.
  Visited-stays :
      (seen : List String) (name : String)
      → ((s : MachineStep) → step_of steps name ≡ some s → mem name seen ≡ true)
      → Visited seen seen (name ∷ [])
  unfolding mem
  Visited-stays seen name h = record {
    grows = λ x k. k;
    reaches = λ t s k e.
        let same : name ≡ t = str_eq-of name t (ground arith) in
        subst (λ z. mem z seen ≡ true) same (h s (ap (step_of steps) same ∙ e));
    closed = λ x k. inl k;
  }

  Visited-enters :
      (seen after : List String) (name : String) (s : MachineStep)
      → step_of steps name ≡ some s
      → Visited (seen ++ name ∷ []) after (targets s)
      → Visited seen after (name ∷ [])
  unfolding mem
  Visited-enters seen after name s e v = record {
    grows = λ x k. v.grows x (mem-snoc x name seen ∙ rw k refl);
    reaches = λ t s' k e'. v.grows t (mem-snoc t name seen ∙ ground arith);
    closed = λ x k. elim (v.closed x k) [
      | inr f ↦ inr f
      | inl mid ↦ elim (Bool-cases (mem x seen)) [
        | inl old ↦ inl old
        | inr new ↦
            let same : name ≡ x = str_eq-of name x (ground (arith, mem-snoc x name seen, mid)) in
            inr (λ s' u s'' e' h e''.
              let one : s ≡ s' = some_inj s s' (sym e ∙ ap (step_of steps) same ∙ e') in
              v.reaches u s'' (subst (λ (z : MachineStep). mem u (targets z) ≡ true) (sym one) h)
                e'')
      ]
    ];
  }

step_of-named :
    (steps : List MachineStep) (name : String) (s : MachineStep)
    → step_of steps name ≡ some s
    → mem name (step_names steps) ≡ true
unfolding step_of mem
step_of-named [] name s e = absurd (cc e)
step_of-named (x ∷ xs) name s e = elim (Option-cases (step_of xs name)) [
  | inl none_later ↦ elim (Bool-cases (str_eq x.name name)) [
    | inl k ↦ rw k refl
    | inr k ↦ absurd (cc (rw (none_later, k) at e))
  ]
  | inr (s', later) ↦ ground (arith, step_of-named xs name s' later)
]

-- With fuel for the steps that are left, a walk visits the step that it is sent to.
pub walk-Visited :
    (steps : List MachineStep) (fuel : ℕ) (seen : List String) (name : String)
    → pending seen (step_names steps) < fuel
    → Visited steps seen (walk steps fuel seen name) (name ∷ [])
unfolding walk
walk-Visited steps zero seen name small = absurd (omega (arith, small))
walk-Visited steps (suc fuel) seen name small = elim (Option-cases (step_of steps name)) [
  | inl undeclared ↦
      rw (undeclared, walk) (Visited-stays steps seen name (λ s e. absurd (cc (undeclared, e))))
  | inr (s, e) ↦ elim (Bool-cases (mem name seen)) [
    | inl old ↦ rw (e, walk, old) (Visited-stays steps seen name (λ s' e'. old))
    | inr new ↦
        rw (e, walk, new)
          (Visited-enters steps seen _ name s e (
            visit_all-Visited steps (walk steps fuel) fuel (walk-Visited steps fuel) (targets s)
              (seen ++ name ∷ [])
              (omega (
                arith,
                small,
                pending_less name seen (step_names steps) new (step_of-named steps name s e),
              ))))
  ]
]
