-- ===== src/Frames/Search.antt =====
-- frames.go: the breadth-first search of path keeps that its queue holds routes, and that a frame it
-- has seen waits in the queue or has all its neighbours seen.
use Prim.Native.String.{String}
use text.Mathlib.Text.{◌==◌ as str_eq}
use text.Mathlib.TextPositions.{eq_refl}
use conductor_ros.Prelude.{
  ◌≡◌, ◌⊎◌, refl, ◌∙◌, true, false, ◌||◌, List, [], ◌∷◌, ◌++◌, map, All, inl, inr, Bool-cases,
  arith,
}
use conductor_ros.Prelude.Names.{mem, mem-snoc}
use conductor_ros.Prelude.Within.{Within}
use conductor_ros.Frames.Tree.{Transform, Link, Step}
use conductor_ros.Frames.Routes.{Joins, Route}

module _ {A : Type 0} (all : List (Transform A)) (target source : String) where
  abbrev pub waiting : List (Step A) → List String
  waiting q = map (λ (s : Step A). s.frame) q

  -- All that a frame is joined to has been seen.
  abbrev pub Closed : List String → String → Type 0
  Closed seen x = (l : Link A) (b : String) → Within l.tf all → Joins l x b → mem b seen ≡ true

  -- A step of the queue: a route to a frame that has been seen.
  abbrev pub Fine : List String → Step A → Type 0
  Fine seen s = Route all target s.via s.frame × (mem s.frame seen ≡ true)

  pub record Search (busy : String → Type 0) (queue : List (Step A)) (seen : List String)
      : Type 0 where
    pub fine : All (Fine seen) queue
    pub start : mem target seen ≡ true
    pub unmet : mem source seen ≡ false
    pub closed :
        (x : String) → mem x seen ≡ true → (mem x (waiting queue) ≡ true) ⊎ (busy x ⊎ Closed seen x)

  Fine-snoc : (s : Step A) (seen : List String) (n : String) → Fine seen s → Fine (seen ++ n ∷ []) s
  Fine-snoc s seen n (r, h) = (r, mem-snoc s.frame n seen ∙ rw h refl)

  All-Fine :
      (q : List (Step A)) (seen : List String) (n : String) (s : Step A)
      → All (Fine seen) q
      → Fine (seen ++ n ∷ []) s
      → All (Fine (seen ++ n ∷ [])) (q ++ s ∷ [])
  All-Fine [] seen n s h k = (k, tt)
  All-Fine (x ∷ q) seen n s (h, hs) k = (Fine-snoc x seen n h, All-Fine q seen n s hs k)

  pub waiting-snoc :
      (x : String) (q : List (Step A)) (s : Step A)
      → mem x (waiting (q ++ s ∷ [])) ≡ (mem x (waiting q) || str_eq s.frame x)
  unfolding mem
  waiting-snoc x [] s = ground arith
  waiting-snoc x (y ∷ q) s = ground (arith, waiting-snoc x q s)

  -- A new frame enters the queue and what is seen.
  pub Search-enters :
      (busy : String → Type 0) (q : List (Step A)) (seen : List String) (s : Step A)
      → Search busy q seen
      → Route all target s.via s.frame
      → str_eq s.frame source ≡ false
      → Search busy (q ++ s ∷ []) (seen ++ s.frame ∷ [])
  Search-enters busy q seen s v r other = record {
    fine =
        All-Fine q seen s.frame s v.fine
          (r, mem-snoc s.frame s.frame seen ∙ rw eq_refl (ground arith));
    start = mem-snoc target s.frame seen ∙ rw v.start refl;
    unmet = mem-snoc source s.frame seen ∙ rw (v.unmet, other) refl;
    closed = λ x h. elim (Bool-cases (mem x seen)) [
      | inl old ↦ elim (v.closed x old) [
        | inl w ↦ inl (waiting-snoc x q s ∙ rw w refl)
        | inr (inl b) ↦ inr (inl b)
        | inr (inr c) ↦ inr (inr (λ l b w j. mem-snoc b s.frame seen ∙ rw (c l b w j) refl))
      ]
      | inr new ↦ inl (ground (arith, waiting-snoc x q s, mem-snoc x s.frame seen, h, new))
    ];
  }
