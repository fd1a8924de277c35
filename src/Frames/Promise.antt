-- ===== src/Frames/Promise.antt =====
-- frames.go: what path, Connects and Lookup promise.
use Prim.Native.String.{String}
use text.Mathlib.Text.{◌==◌ as str_eq}
use text.Mathlib.TextPositions.{eq_refl}
use mathlib.Core.Path.{subst}
use conductor_ros.Prelude.{
  ℕ, zero, suc, ◌+◌, ◌<◌, ◌≡◌, ◌⊎◌, ◌↔◌, refl, sym, ap, ◌∙◌, true, false, Option, none, some, List,
  [], ◌∷◌, length, inl, inr, Bool-cases, arith,
}
use conductor_ros.Prelude.Names.{mem, str_eq-of, pending, pending-le-length}
use conductor_ros.Prelude.Iff.{◌then_iff◌}
use conductor_ros.Prelude.Within.{Within}
use conductor_ros.Frames.Tree.{
  Transform, Link, Step, Round, found, more, PathError, visit, seek, ends, declares, connected,
  path, connects,
}
use conductor_ros.Frames.Routes.{Joins, Route}
use conductor_ros.Frames.Search.{Search}
use conductor_ros.Frames.Visits.{After, visit-After}

module _ {A : Type 0} where
  -- Some declared links lead from a frame to a frame.
  abbrev pub Linked : List (Transform A) → String → String → Type 0
  Linked ts a b = (links : List (Link A)) × Route ts a links b

  module _ (all : List (Transform A)) (target source : String) where
    -- What the search comes to: a route, or the knowledge that there is none.
    abbrev Decides : Option (List (Link A)) → Type 0
    Decides none = ¬ Linked all target source
    Decides (some via) = Route all target via source

    abbrev Idle : List (Step A) → List String → Type 0
    Idle queue seen = Search all target source (λ x. ⊥) queue seen

    stays_seen :
        (seen : List String)
        → Idle [] seen
        → (links : List (Link A)) (a b : String) → mem a seen ≡ true
        → Route all a links b
        → mem b seen ≡ true
    unfolding mem
    stays_seen seen v [] a b h e = ap (λ z. mem z seen) (sym e) ∙ h
    stays_seen seen v (l ∷ links) a b h (m, (w, (j, r))) = elim (v.closed a h) [
      | inl waits ↦ absurd (cc waits)
      | inr (inl busy) ↦ absurd busy
      | inr (inr c) ↦ stays_seen seen v links m b (c l m w j) r
    ]

    takes :
        (cur : Step A) (queue : List (Step A)) (seen : List String)
        → Idle (cur ∷ queue) seen
        → Search all target source (λ x. x ≡ cur.frame) queue seen
    unfolding mem
    takes cur queue seen v = record {
      fine = v.fine.1;
      start = v.start;
      unmet = v.unmet;
      closed = λ x h. elim (v.closed x h) [
        | inl waits ↦ elim (Bool-cases (str_eq cur.frame x)) [
          | inl e ↦ inr (inl (sym (str_eq-of cur.frame x e)))
          | inr e ↦ inl (ground (arith, waits, e))
        ]
        | inr (inl busy) ↦ absurd busy
        | inr (inr c) ↦ inr (inr c)
      ];
    }

    -- What the head was joined to has been seen, so the search is at the head of its loop again.
    turns :
        (cur : Step A) (rest : List (Step A)) (known : List String)
        → Search all target source (λ x. x ≡ cur.frame) rest known
        → ((l : Link A) (b : String) → Within l.tf all → Joins l cur.frame b → mem b known ≡ true)
        → Idle rest known
    turns cur rest known v c = record {
      fine = v.fine;
      start = v.start;
      unmet = v.unmet;
      closed = λ x h. elim (v.closed x h) [
        | inl waits ↦ inl waits
        | inr (inl e) ↦ inr (inr (λ l b w j. c l b w (subst (λ z. Joins l z b) e j)))
        | inr (inr k) ↦ inr (inr k)
      ];
    }

    seek-Decides :
        (fuel : ℕ) (queue : List (Step A)) (seen : List String)
        → length queue + pending seen (ends all) < fuel
        → Idle queue seen
        → Decides (seek source all fuel queue seen)
    unfolding seek
    seek-Decides zero queue seen small v = absurd (omega (arith, small))
    seek-Decides (suc fuel) [] seen small v =
        λ (links, r). absurd (cc (stays_seen seen v links target source v.start r, v.unmet))
    seek-Decides (suc fuel) (cur ∷ queue) seen small v =
        go (seek-Decides fuel) (visit source cur all queue seen) (
          visit-After all target source cur all queue seen (λ t w. w) v.fine.0.0 v.fine.0.1
            (takes cur queue seen v))
      where
        go :
            ((rest : List (Step A)) (known : List String)
              → length rest + pending known (ends all) < fuel
              → Idle rest known
              → Decides (seek source all fuel rest known))
            → (r : Round A) → After all target source cur all queue seen r
            → Decides (elim r [
              | found via ↦ some via
              | more rest known ↦ seek source all fuel rest known
            ])
        go again (found via) a = a
        go again (more rest known) (s, (g, (c, m))) =
            again rest known (omega (arith, small, m)) (turns cur rest known s c)

    begins :
        str_eq target source ≡ false → Idle (record { frame = target; via = [] } ∷ []) (target ∷ [])
    unfolding mem
    begins other = record {
      fine = ((refl, rw eq_refl refl), tt);
      start = rw eq_refl refl;
      unmet = rw other refl;
      closed = λ x h. inl h;
    }

    abbrev Connected : PathError ⊎ List (Link A) → Type 0
    Connected (inl e) = ¬ Linked all target source
    Connected (inr links) = Route all target links source

    -- From two frames that are declared, path finds a route, and the error says that there is none.
    path_decides :
        declares target all ≡ true
        → declares source all ≡ true
        → Connected (path (some all) target source)
    unfolding path
    path_decides d d' = elim (Bool-cases (str_eq target source)) [
      | inl e ↦ rw (d, d', e, Connected) (str_eq-of target source e)
      | inr e ↦
          rw (d, d', e, Connected)
            (go _ (
              seek-Decides (suc (suc (length (ends all)))) _ _
                (omega (arith, pending-le-length (target ∷ []) (ends all))) (begins e)))
    ]
      where
        go : (o : Option (List (Link A))) → Decides o → Connected (connected o)
        go none n = n
        go (some via) r = r

  pub path_links :
      (all : List (Transform A)) (target source : String)
      → declares target all ≡ true
      → declares source all ≡ true
      → (links : List (Link A)) (e : path (some all) target source ≡ inr links)
      → Route all target links source
  path_links all target source d d' links e =
      subst (Connected all target source) e (path_decides all target source d d')

  path-declared :
      (all : List (Transform A)) (target source : String) (links : List (Link A))
      → path (some all) target source ≡ inr links
      → (declares target all ≡ true) × (declares source all ≡ true)
  unfolding path
  path-declared all target source links e = elim (Bool-cases (declares target all)) [
    | inr d ↦ absurd (cc (rw d at e))
    | inl d ↦ elim (Bool-cases (declares source all)) [
      | inr k ↦ absurd (cc (rw (d, k) at e))
      | inl k ↦ (d, k)
    ]
  ]

  found_iff :
      (r : PathError ⊎ List (Link A))
      → (◌≡◌ {A = Option PathError} (elim r [ inl e ↦ some e | inr links ↦ none ]) none)
        ↔ ((links : List (Link A)) × (r ≡ inr links))
  found_iff (inl e) = (λ h. absurd (cc h), λ (links, h). absurd (cc h))
  found_iff (inr links) = (λ h. (links, refl), λ h. refl)

  pub path_cases :
      (r : PathError ⊎ List (Link A))
      → ((e : PathError) × (r ≡ inl e)) ⊎ ((links : List (Link A)) × (r ≡ inr links))
  path_cases (inl e) = inl (e, refl)
  path_cases (inr links) = inr (links, refl)

  pub path_iff :
      (all : List (Transform A)) (target source : String)
      → ((links : List (Link A)) × (path (some all) target source ≡ inr links))
        ↔ ((declares target all ≡ true) × ((declares source all ≡ true) × Linked all target source))
  path_iff all target source = (
    λ (links, e).
        let (d, k) = path-declared all target source links e in
        (d, (k, (links, path_links all target source d k links e))),
    λ (d, (k, linked)). elim (path_cases (path (some all) target source)) [
      | inr there ↦ there
      | inl (err, e) ↦
          absurd (subst (Connected all target source) e (path_decides all target source d k) linked)
    ],
  )

  -- Connects has no error exactly for two declared frames that declared links lead between.
  pub connects_iff :
      (all : List (Transform A)) (target source : String)
      → (connects (some all) target source ≡ none)
        ↔ ((declares target all ≡ true) × ((declares source all ≡ true) × Linked all target source))
  unfolding connects
  connects_iff all target source =
      found_iff (path (some all) target source) then_iff path_iff all target source
