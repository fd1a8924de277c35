-- ===== src/Frames/Cycles.antt =====
-- frames.go: the walk of Check along the parents of a frame comes back to it exactly where the frame
-- is above itself.
use Prim.Native.String.{String}
use text.Mathlib.Text.{◌==◌ as str_eq}
use text.Mathlib.TextPositions.{eq_refl}
use mathlib.Core.Path.{subst}
use conductor_ros.Prelude.{
  ℕ, zero, suc, ◌<◌, ◌≡◌, ◌⊎◌, ◌↔◌, refl, sym, ap, ◌∙◌, true, false, Option, none, some, List, [],
  ◌∷◌, ◌++◌, length, inl, inr, Bool-cases, Option-cases, arith,
}
use conductor_ros.Prelude.Iff.{some_inj}
use conductor_ros.Prelude.Names.{mem, mem-snoc, pending, pending-le-length, str_eq-of}
use conductor_ros.Prelude.Pending.{pending_less}
use conductor_ros.Frames.Tree.{Transform, ends}
use conductor_ros.Frames.Shape.{parents_of, parent_of, climb, in_cycle}

module _ {A : Type 0} (ts : List (Transform A)) where
  -- `b` is the parent of `a`, or its parent's, and so on.
  pub data Above (a : String) : String → Type 0 where
    next : (b : String) → parent_of ts a ≡ some b → Above a b
    further : (b c : String) → Above a b → parent_of ts b ≡ some c → Above a c

  parents-ends :
      (us : List (Transform A)) (f b : String)
      → ◌≡◌ {A = Option String}
          (elim (parents_of f us) [ [] ↦ none | t ∷ more ↦ some t.parent ])
          (some b)
      → mem b (ends us) ≡ true
  unfolding parents_of ends mem
  parents-ends [] f b e = absurd (cc e)
  parents-ends (u ∷ us) f b e = elim (Bool-cases (str_eq u.child f)) [
    | inl k ↦ rw (ap (λ z. str_eq z b) (some_inj u.parent b (rw k at e)), eq_refl b) (ground arith)
    | inr k ↦ rw (parents-ends us f b (rw k at e)) (ground arith)
  ]

  parent-ends : (a b : String) → parent_of ts a ≡ some b → mem b (ends ts) ≡ true
  unfolding parent_of
  parent-ends a b e = parents-ends ts a b e

  module _ (f : String) where
    -- Whatever has been seen leads to what has been seen, and not to `f`, but for where the walk is.
    abbrev Rests : List String → String → Type 0
    Rests seen x =
        (y : String) → parent_of ts x ≡ some y → (mem y seen ≡ true) × (str_eq y f ≡ false)

    abbrev Walked : List String → String → Type 0
    Walked seen cur = (x : String) → mem x seen ≡ true → (x ≡ cur) ⊎ Rests seen x

    stuck :
        (seen : List String)
        → mem f seen ≡ true
        → ((x : String) → mem x seen ≡ true → Rests seen x)
        → (b : String) → Above f b
        → (mem b seen ≡ true) × (str_eq b f ≡ false)
    stuck seen here rests _ (next b e) = rests f here b e
    stuck seen here rests _ (further b c above e) = rests b (stuck seen here rests b above).0 c e

    no_return :
        (seen : List String)
        → mem f seen ≡ true
        → ((x : String) → mem x seen ≡ true → Rests seen x)
        → ¬ Above f f
    no_return seen here rests above = cc ((stuck seen here rests f above).1, eq_refl f)

    onward : (cur p : String) → (cur ≡ f) ⊎ Above f cur → parent_of ts cur ≡ some p → Above f p
    onward cur p (inl same) e = next p (ap (parent_of ts) (sym same) ∙ e)
    onward cur p (inr above) e = further cur p above e

    -- The walk ends without `f` where the parent of its frame, if any, has been seen.
    ends_there :
        (seen : List String) (cur : String)
        → mem f seen ≡ true
        → Walked seen cur
        → Rests seen cur
        → ¬ Above f f
    ends_there seen cur here walked last =
        no_return seen here
          (λ x h. elim (walked x h) [ inl same ↦ subst (Rests seen) (sym same) last | inr r ↦ r ])

    -- A frame's only parent.
    only_parent :
        (seen : List String) (cur p : String)
        → parent_of ts cur ≡ some p
        → mem p seen ≡ true
        → str_eq p f ≡ false
        → Rests seen cur
    only_parent seen cur p e old k = λ y e'.
        let same : p ≡ y = some_inj p y (sym e ∙ e') in
        subst (λ z. (mem z seen ≡ true) × (str_eq z f ≡ false)) same (old, k)

    Walked-on :
        (seen : List String) (cur p : String)
        → Walked seen cur
        → parent_of ts cur ≡ some p
        → str_eq p f ≡ false
        → Walked (seen ++ p ∷ []) p
    Walked-on seen cur p walked e k = λ x h. elim (Bool-cases (mem x seen)) [
      | inr new ↦ inl (sym (str_eq-of p x (ground (arith, mem-snoc x p seen, h, new))))
      | inl old ↦ elim (walked x old) [
        | inl same ↦ inr (
            subst (Rests (seen ++ p ∷ [])) (sym same) (
              only_parent (seen ++ p ∷ []) cur p e (mem-snoc p p seen ∙ rw eq_refl (ground arith))
                k))
        | inr r ↦ inr (λ y e'. (mem-snoc y p seen ∙ rw (r y e').0 refl, (r y e').1))
      ]
    ]

    climb_iff :
        (fuel : ℕ) (seen : List String) (cur : String)
        → pending seen (ends ts) < fuel
        → (cur ≡ f) ⊎ Above f cur
        → mem f seen ≡ true
        → Walked seen cur
        → (climb ts f fuel seen cur ≡ true) ↔ Above f f
    unfolding climb
    climb_iff zero seen cur small at here walked = absurd (omega (arith, small))
    climb_iff (suc fuel) seen cur small at here walked = elim (Option-cases (parent_of ts cur)) [
      | inl e ↦
          rw (e, climb)
            (
              λ h. absurd (cc h),
              λ above.
                  absurd (ends_there seen cur here walked (λ y e'. absurd (cc (sym e ∙ e'))) above),
            )
      | inr (p, e) ↦ elim (Bool-cases (str_eq p f)) [
        | inl k ↦
            rw (e, climb, k)
              (λ h. subst (Above f) (str_eq-of p f k) (onward cur p at e), λ above. refl)
        | inr k ↦ elim (Bool-cases (mem p seen)) [
          | inl old ↦
              rw (e, climb, k, old)
                (
                  λ h. absurd (cc h),
                  λ above.
                      absurd
                        (ends_there seen cur here walked (only_parent seen cur p e old k) above),
                )
          | inr new ↦
              rw (e, climb, k, new)
                (climb_iff fuel (seen ++ p ∷ []) p
                  (omega (arith, small, pending_less p seen (ends ts) new (parent-ends cur p e)))
                  (inr (onward cur p at e)) (mem-snoc f p seen ∙ rw here refl)
                  (Walked-on seen cur p walked e k))
        ]
      ]
    ]

    -- Check finds a frame in a cycle exactly where it is above itself.
    pub in_cycle_iff : (in_cycle ts f ≡ true) ↔ Above f f
    unfolding in_cycle mem
    in_cycle_iff =
        climb_iff (suc (length (ends ts))) (f ∷ []) f
          (omega (arith, pending-le-length (f ∷ []) (ends ts))) (inl refl) (rw eq_refl refl)
          (λ x h. inl (sym (str_eq-of f x (ground (arith, h)))))
