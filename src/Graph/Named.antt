-- ===== src/Graph/Named.antt =====
-- internal/graph/graph.go: the endpoints that `Build` collects under one name.
use Prim.Native.String.{String}
use text.Mathlib.Text.{◌==◌ as str_eq}
use text.Mathlib.TextEquality.{eq_iff}
use mathlib.Core.List.{append-nil}
use conductor_ros.Prelude.{
  ◌≡◌, refl, sym, ap, ◌∙◌, false, not, ◌&&◌, ◌||◌, List, [], ◌∷◌, ◌++◌, if◌then◌else◌, Bool-cases,
  inl, inr, arith,
}
use conductor_ros.Prelude.Names.{mem, Distinct, str_eq-of}
use conductor_ros.Graph.Channels.{Channel, change, with_source, with_sink}

module _ {E : Type 0} where
  -- A field of the channel of a name, empty where there is none.
  abbrev pub lookup : (Channel E → List E) → String → List (Channel E) → List E
  lookup field n [] = []
  lookup field n (c ∷ cs) = if str_eq c.name n then field c else lookup field n cs

  abbrev pub names : List (Channel E) → List String
  names [] = []
  names (c ∷ cs) = c.name ∷ names cs

  -- Those of a list that carry a name.
  unfoldable pub named : String → List (String × E) → List E
  named n [] = []
  named n ((m, e) ∷ es) =
      let rest = named n es in if not (str_eq m "") && str_eq m n then e ∷ rest else rest

  -- How a change of a channel acts on one field of it.
  pub record Grows (field : Channel E → List E) (f : Channel E → Channel E) (extra : List E)
      : Type 0 where
    pub keeps : (c : Channel E) → (f c).name ≡ c.name
    pub grows : (c : Channel E) → field (f c) ≡ field c ++ extra
    pub fresh : (k : String) → field (record { name = k; sources = []; sinks = [] }) ≡ []

  module _ (field : Channel E → List E) (f : Channel E → Channel E) (extra : List E)
      (g : Grows field f extra) where
    -- The channel at the head after the change, if it is the one that changes.
    head-change :
        (n : String) (c : Channel E) (r : List E)
        → (if str_eq (f c).name n then field (f c) else r)
          ≡ (if str_eq c.name n then field c ++ extra else r)
    head-change n c r =
        ap (λ k. if str_eq k n then field (f c) else r) (g.keeps c)
        ∙ ap (λ xs. if str_eq c.name n then xs else r) (g.grows c)

    pub lookup-change :
        (m n : String) (cs : List (Channel E))
        → lookup field n (change f m cs) ≡ lookup field n cs ++ (if str_eq m n then extra else [])
    unfolding change
    lookup-change m n [] =
        head-change n (record { name = m; sources = []; sinks = [] }) []
        ∙ ap (λ xs. if str_eq m n then xs ++ extra else []) (g.fresh m)
        ∙ refl
    lookup-change m n (c ∷ cs) = elim (Bool-cases (str_eq c.name m)) [
      | inl here ↦
          let same : c.name ≡ m = str_eq-of c.name m here in
          let follows : str_eq c.name n ≡ str_eq m n = ap (λ k. str_eq k n) same in
          rw here (
            head-change n c (lookup field n cs) ∙ elim (Bool-cases (str_eq m n)) [
              | inl e ↦ rw (follows, e) refl
              | inr e ↦ rw (follows, e) (sym (append-nil (lookup field n cs)))
            ])
      | inr there ↦ elim (Bool-cases (str_eq c.name n)) [
        | inl e ↦
            let same : c.name ≡ n = str_eq-of c.name n e in
            let other : str_eq m n ≡ false =
              ground (arith, ap (λ k. str_eq m k) same, eq_iff m c.name, eq_iff c.name m) in
            rw (there, e, other) (sym (append-nil (field c)))
        | inr e ↦ rw (there, e) (lookup-change m n cs)
      ]
    ]

    pub names-change :
        (m n : String) (cs : List (Channel E))
        → mem n (names (change f m cs)) ≡ (mem n (names cs) || str_eq m n)
    unfolding change mem
    names-change m n [] =
        ap (λ k. str_eq k n || false) (g.keeps (record { name = m; sources = []; sinks = [] }))
        ∙ ground arith
    names-change m n (c ∷ cs) = elim (Bool-cases (str_eq c.name m)) [
      | inl here ↦
          let same : c.name ≡ m = str_eq-of c.name m here in
          rw here (
            ap (λ k. str_eq k n || mem n (names cs)) (g.keeps c)
            ∙ ground (arith, ap (λ k. str_eq k n) same))
      | inr there ↦ rw there (ground (arith, names-change m n cs))
    ]

    pub change-Distinct :
        (m : String) (cs : List (Channel E))
        → Distinct (names cs)
        → Distinct (names (change f m cs))
    unfolding change mem
    change-Distinct m [] d = (refl, tt)
    change-Distinct m (c ∷ cs) (out, d) = elim (Bool-cases (str_eq c.name m)) [
      | inl here ↦ rw here (ap (λ k. mem k (names cs)) (g.keeps c) ∙ out, d)
      | inr there ↦ rw there (
        names-change m c.name cs ∙ ground (arith, out, there, eq_iff m c.name, eq_iff c.name m),
        change-Distinct m cs d,
      )
    ]

module _ {E : Type 0} where
  abbrev pub takes_source : (e : E) → Grows (λ c. c.sources) (with_source e) (e ∷ [])
  takes_source e = record { keeps = λ c. refl; grows = λ c. refl; fresh = λ k. refl }

  abbrev pub takes_sink : (e : E) → Grows (λ c. c.sinks) (with_sink e) (e ∷ [])
  takes_sink e = record { keeps = λ c. refl; grows = λ c. refl; fresh = λ k. refl }

  abbrev pub source_aside : (e : E) → Grows (λ c. c.sinks) (with_source e) []
  source_aside e = record {
    keeps = λ c. refl;
    grows = λ c. sym (append-nil c.sinks);
    fresh = λ k. refl;
  }

  abbrev pub sink_aside : (e : E) → Grows (λ c. c.sources) (with_sink e) []
  sink_aside e = record {
    keeps = λ c. refl;
    grows = λ c. sym (append-nil c.sources);
    fresh = λ k. refl;
  }
