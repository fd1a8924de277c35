-- ===== src/Graph/Agree.antt =====
-- internal/graph/graph.go: a set of strings has more than one element where two differ.
use Prim.Native.String.{String}
use text.Mathlib.Text.{◌==◌ as str_eq}
use text.Mathlib.TextPositions.{eq_refl}
use conductor_ros.Prelude.{
  ◌≡◌, refl, sym, ap, ◌∙◌, ◌↔◌, true, false, ◌||◌, List, [], ◌∷◌, ◌++◌, Bool-cases, inl, inr, arith,
  length, ltb,
}
use conductor_ros.Prelude.Names.{mem, mem-snoc, Distinct, append-Distinct, str_eq-of, mem-ne}
use conductor_ros.Graph.Pairs.{add_key, add_keys, disagree}

-- Any two of the strings are one.
abbrev pub Agree : List String → Type 0
Agree ks = (x y : String) → mem x ks ≡ true → mem y ks ≡ true → x ≡ y

mem-add_keys :
    (x : String) (keys ks : List String) → mem x (add_keys keys ks) ≡ (mem x keys || mem x ks)
unfolding add_keys add_key mem
mem-add_keys x keys [] = ground arith
mem-add_keys x keys (k ∷ ks) = mem-add_keys x (add_key keys k) ks ∙ added
  where
    added : (mem x (add_key keys k) || mem x ks) ≡ (mem x keys || (str_eq k x || mem x ks))
    added = elim (Bool-cases (mem k keys)) [
      | inl e ↦ elim (Bool-cases (str_eq k x)) [
        | inl h ↦
            let same : mem k keys ≡ mem x keys = ap (λ z. mem z keys) (str_eq-of k x h) in
            ground (arith, same)
        | inr h ↦ ground arith
      ]
      | inr e ↦ ground (arith, mem-snoc x k keys)
    ]

add_keys-Distinct : (keys ks : List String) → Distinct keys → Distinct (add_keys keys ks)
unfolding add_keys add_key mem
add_keys-Distinct keys [] d = d
add_keys-Distinct keys (k ∷ ks) d = elim (Bool-cases (mem k keys)) [
  | inl e ↦ rw e (add_keys-Distinct keys ks d)
  | inr e ↦ rw e (
      add_keys-Distinct (keys ++ k ∷ []) ks (
        append-Distinct keys (k ∷ []) d (refl, tt)
          (λ x h. ground (arith, mem-ne k x keys, mem-ne x k keys h e))))
]

-- A set of at most one string.
short_agrees : (r : List String) → ltb 1 (length r) ≡ false → Agree r
unfolding mem
short_agrees [] h x y hx hy = absurd (cc hx)
short_agrees (z ∷ []) h x y hx hy =
    sym (str_eq-of z x (ground arith)) ∙ str_eq-of z y (ground arith)
short_agrees (z ∷ w ∷ r) h x y hx hy = absurd (ground (arith, h))

Agree-short : (r : List String) → Distinct r → Agree r → ltb 1 (length r) ≡ false
unfolding mem
Agree-short [] d a = refl
Agree-short (z ∷ []) d a = refl
Agree-short (z ∷ w ∷ r) (out, d) a =
    let same : z ≡ w = a z w (rw eq_refl refl) (rw eq_refl (ground arith)) in
    absurd (ground (arith, out, ap (λ k. str_eq w k) same, eq_refl w))

pub disagree_iff : (ks : List String) → (disagree ks ≡ false) ↔ Agree ks
unfolding disagree mem
disagree_iff ks = (
  λ h x y hx hy.
      short_agrees (add_keys [] ks) h x y (mem-add_keys x [] ks ∙ hx) (mem-add_keys y [] ks ∙ hy),
  λ a.
      Agree-short (add_keys [] ks) (add_keys-Distinct [] ks tt)
        (λ x y hx hy. a x y (sym (mem-add_keys x [] ks) ∙ hx) (sym (mem-add_keys y [] ks) ∙ hy)),
)
