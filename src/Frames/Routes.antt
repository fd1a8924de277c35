-- ===== src/Frames/Routes.antt =====
-- frames.go: what path finds. A route is said of the links alone, without the search.
use Prim.Native.String.{String}
use text.Mathlib.Text.{◌==◌ as str_eq}
use text.Mathlib.TextPositions.{eq_refl}
use mathlib.Core.Path.{subst}
use conductor_ros.Prelude.{
  ◌≡◌, ◌⊎◌, refl, sym, ap, ◌∙◌, true, false, Option, some, List, [], ◌∷◌, ◌++◌, inl, inr,
  Bool-cases,
}
use conductor_ros.Prelude.Names.{str_eq-of}
use conductor_ros.Prelude.Iff.{some_inj}
use conductor_ros.Prelude.Within.{Within}
use conductor_ros.Frames.Tree.{Transform, Link, hop}

module _ {A : Type 0} where
  -- A link leads from a frame to a frame: down from parent to child, or up where it is inverted.
  abbrev pub Joins : Link A → String → String → Type 0
  Joins l a b =
      ((l.inverse ≡ false) × ((l.tf.parent ≡ a) × (l.tf.child ≡ b)))
      ⊎ ((l.inverse ≡ true) × ((l.tf.child ≡ a) × (l.tf.parent ≡ b)))

  -- Declared links, each from where the one before it leads.
  abbrev pub Route : List (Transform A) → String → List (Link A) → String → Type 0
  Route ts a [] b = a ≡ b
  Route ts a (l ∷ ls) b = (m : String) × (Within l.tf ts × (Joins l a m × Route ts m ls b))

  pub Route-snoc :
      (ts : List (Transform A)) (a b c : String) (ls : List (Link A)) (l : Link A)
      → Route ts a ls b
      → Within l.tf ts
      → Joins l b c
      → Route ts a (ls ++ l ∷ []) c
  Route-snoc ts a b c [] l e h j = (
    c,
    (
      h,
      (
        elim j [
          | inl (i, (p, q)) ↦ inl (i, (p ∙ sym e, q))
          | inr (i, (p, q)) ↦ inr (i, (p ∙ sym e, q))
        ],
        refl,
      ),
    ),
  )
  Route-snoc ts a b c (k ∷ ls) l (m, (w, (j', r))) h j =
      (m, (w, (j', Route-snoc ts m b c ls l r h j)))

  -- What a link that path takes is.
  taken :
      (a b : String) (t : Transform A) (k l : Link A) (next : String)
      → (k.tf ≡ t)
      → Joins k a next
      → ◌≡◌ {A = Option (String × Link A)} (some (next, k)) (some (b, l))
      → (l.tf ≡ t) × Joins l a b
  taken a b t k l next same j e =
      subst (λ (x : String × Link A). (x.1.tf ≡ t) × Joins x.1 a x.0) (some_inj (next, k) (b, l) e)
        (same, j)

  pub hop-Joins :
      (a : String) (t : Transform A) (b : String) (l : Link A)
      → hop a t ≡ some (b, l)
      → (l.tf ≡ t) × Joins l a b
  unfolding hop
  hop-Joins a t b l e = elim (Bool-cases (str_eq t.parent a)) [
    | inl h ↦
        taken a b t (record { tf = t; inverse = false }) l t.child refl
          (inl (refl, (str_eq-of t.parent a h, refl))) (rw h at e)
    | inr h ↦ elim (Bool-cases (str_eq t.child a)) [
      | inl k ↦
          taken a b t (record { tf = t; inverse = true }) l t.parent refl
            (inr (refl, (str_eq-of t.child a k, refl))) (rw (h, k) at e)
      | inr k ↦ absurd (cc (rw (h, k) at e))
    ]
  ]

  -- Whatever link leads on from a frame, path considers one that leads there too, unless it leads
  -- to the frame itself.
  pub Joins-hop :
      (a : String) (l : Link A) (b : String)
      → Joins l a b
      → (b ≡ a) ⊎ ((k : Link A) × (hop a l.tf ≡ some (b, k)))
  unfolding hop
  Joins-hop a l b (inl (i, (p, q))) = inr (
    record { tf = l.tf; inverse = false },
    rw (ap (λ z. str_eq z a) p, eq_refl a)
        (ap (λ z. some (z, record { tf = l.tf; inverse = false })) q),
  )
  Joins-hop a l b (inr (i, (p, q))) = elim (Bool-cases (str_eq l.tf.parent a)) [
    | inl h ↦ inl (sym q ∙ str_eq-of l.tf.parent a h)
    | inr h ↦ inr (
      record { tf = l.tf; inverse = true },
      rw (h, ap (λ z. str_eq z a) p, eq_refl a)
          (ap (λ z. some (z, record { tf = l.tf; inverse = true })) q),
    )
  ]
