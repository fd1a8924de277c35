-- ===== src/Frames/Visits.antt =====
-- frames.go: what one step of the breadth-first search of path comes to.
use Prim.Native.String.{String}
use text.Mathlib.Text.{◌==◌ as str_eq}
use text.Mathlib.TextPositions.{eq_refl}
use mathlib.Core.Path.{subst}
use conductor_ros.Prelude.{
  ◌+◌, ◌≤◌, ◌≡◌, refl, sym, ap, ◌∙◌, true, some, List, [], ◌∷◌, ◌++◌, length, length-append, inl,
  inr, Bool-cases, Option-cases, arith,
}
use conductor_ros.Prelude.Names.{mem, mem-snoc, str_eq-of, pending}
use conductor_ros.Prelude.Pending.{pending_less}
use conductor_ros.Prelude.Within.{Within}
use conductor_ros.Prelude.Iff.{some_inj}
use conductor_ros.Frames.Tree.{Transform, Link, Step, Round, found, more, hop, visit, ends}
use conductor_ros.Frames.Routes.{Joins, Route, Route-snoc, hop-Joins, Joins-hop}
use conductor_ros.Frames.Search.{Search, Search-enters}

module _ {A : Type 0} where
  pub Joins-ends :
      (ts : List (Transform A)) (l : Link A) (a b : String)
      → Within l.tf ts
      → Joins l a b
      → mem b (ends ts) ≡ true
  unfolding mem ends
  Joins-ends [] l a b h j = absurd h
  Joins-ends (t ∷ ts) l a b (inr h) j = rw (Joins-ends ts l a b h j) (ground arith)
  Joins-ends (t ∷ ts) l a b (inl e) (inl (i, (p, q))) =
      rw (ap (λ z. str_eq z b) (sym (ap (λ (z : Transform A). z.child) e) ∙ q), eq_refl b)
        (ground arith)
  Joins-ends (t ∷ ts) l a b (inl e) (inr (i, (p, q))) =
      rw (ap (λ z. str_eq z b) (sym (ap (λ (z : Transform A). z.parent) e) ∙ q), eq_refl b)
        (ground arith)

module _ {A : Type 0} (all : List (Transform A)) (target source : String) (cur : Step A) where
  -- What the search has after it looked at `ts` from the frame of `cur`.
  abbrev pub After : List (Transform A) → List (Step A) → List String → Round A → Type 0
  After ts q seen (found via) = Route all target via source
  After ts q seen (more rest known) =
      Search all target source (λ x. x ≡ cur.frame) rest known
      × (((x : String) → mem x seen ≡ true → mem x known ≡ true)
          × (((l : Link A) (b : String) → Within l.tf ts → Joins l cur.frame b → mem b known ≡ true)
              × (length rest + pending known (ends all) ≤ length q + pending seen (ends all))))

  -- Looking at one transform first.
  After-first :
      (t : Transform A) (ts : List (Transform A)) (q q' : List (Step A)) (seen seen' : List String)
      → ((x : String) → mem x seen ≡ true → mem x seen' ≡ true)
      → (length q' + pending seen' (ends all) ≤ length q + pending seen (ends all))
      → ((l : Link A) (b : String) → l.tf ≡ t → Joins l cur.frame b → mem b seen' ≡ true)
      → (r : Round A) → After ts q' seen' r
      → After (t ∷ ts) q seen r
  After-first t ts q q' seen seen' grows less head (found via) r = r
  After-first t ts q q' seen seen' grows less head (more rest known) (v, (g, (c, m))) = (
    v,
    (
      λ x h. g x (grows x h),
      (
        λ l b w j. elim w [ inl e ↦ g b (head l b e j) | inr k ↦ c l b k j ],
        omega (arith, m, less),
      ),
    ),
  )

  -- What the head leads to has been seen, if what path considers has been.
  head_seen :
      (t : Transform A) (seen : List String)
      → mem cur.frame seen ≡ true
      → ((b : String) (k : Link A) → hop cur.frame t ≡ some (b, k) → mem b seen ≡ true)
      → (l : Link A) (b : String) → l.tf ≡ t
      → Joins l cur.frame b
      → mem b seen ≡ true
  head_seen t seen here next l b e j = elim (Joins-hop cur.frame l b j) [
    | inl same ↦ ap (λ z. mem z seen) same ∙ here
    | inr (k, h) ↦ next b k (ap (hop cur.frame) (sym e) ∙ h)
  ]

  pub visit-After :
      (ts : List (Transform A)) (q : List (Step A)) (seen : List String)
      → ((t : Transform A) → Within t ts → Within t all)
      → Route all target cur.via cur.frame
      → mem cur.frame seen ≡ true
      → Search all target source (λ x. x ≡ cur.frame) q seen
      → After ts q seen (visit source cur ts q seen)
  unfolding visit
  visit-After [] q seen part r here v = (v, (λ x h. h, (λ l b w j. absurd w, omega arith)))
  visit-After (t ∷ ts) q seen part r here v = elim (Option-cases (hop cur.frame t)) [
    | inl e ↦
        rw (e, After)
          (After-first t ts q q seen seen (λ x h. h) (omega arith)
            (head_seen t seen here (λ b k h. absurd (cc (sym e ∙ h)))) _
            (visit-After ts q seen (λ t' w. part t' (inr w)) r here v))
    | inr ((next, l), e) ↦ elim (Bool-cases (mem next seen)) [
      | inl old ↦
          rw (e, After, old)
            (After-first t ts q q seen seen (λ x h. h) (omega arith)
              (head_seen t seen here (λ b k h.
                ap (λ (z : String × Link A). mem z.0 seen) (some_inj (b, k) (next, l) (sym h ∙ e))
                ∙ old))
              _ (visit-After ts q seen (λ t' w. part t' (inr w)) r here v))
      | inr new ↦
          let (same, j) = hop-Joins cur.frame t next l e in
          let there : Within l.tf all = subst (λ z. Within z all) (sym same) (part t (inl refl)) in
          let r' = Route-snoc all target cur.frame next cur.via l r there j in
          elim (Bool-cases (str_eq next source)) [
            | inl k ↦
                rw (e, After, new, k)
                  (subst (Route all target (cur.via ++ l ∷ [])) (str_eq-of next source k) r')
            | inr k ↦
                rw (e, After, new, k)
                  (After-first t ts q _ seen (seen ++ next ∷ [])
                    (λ x h. mem-snoc x next seen ∙ rw h refl)
                    (omega (
                      arith,
                      length-append q (record { frame = next; via = cur.via ++ l ∷ [] } ∷ []),
                      pending_less next seen (ends all) new
                          (Joins-ends all l cur.frame next there j),
                    ))
                    (head_seen t (seen ++ next ∷ []) (mem-snoc cur.frame next seen ∙ rw here refl)
                      (λ b k' h.
                        mem-snoc b next seen
                        ∙ ground (
                          arith,
                          ap (λ (z : String × Link A). str_eq next z.0)
                              (some_inj (b, k') (next, l) (sym h ∙ e)),
                          eq_refl next,
                        )))
                    _
                    (visit-After ts (q ++ record { frame = next; via = cur.via ++ l ∷ [] } ∷ [])
                      (seen ++ next ∷ []) (λ t' w. part t' (inr w)) r
                      (mem-snoc cur.frame next seen ∙ rw here refl)
                      (Search-enters all target source _ q seen
                        (record { frame = next; via = cur.via ++ l ∷ [] }) v r' k)))
          ]
    ]
  ]
