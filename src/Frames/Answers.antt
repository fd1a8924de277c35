-- ===== src/Frames/Answers.antt =====
-- frames.go: what Lookup promises.
use Prim.Native.String.{String}
use conductor_ros.Prelude.{
  ◌≡◌, ◌⊎◌, refl, sym, ◌∙◌, Bool, true, false, some, List, [], ◌∷◌, All, inl, inr, if◌then◌else◌,
}
use conductor_ros.Prelude.Within.{Within}
use conductor_ros.Frames.Tree.{
  Motions, Transform, Link, PathError, LookupError, no_path, crosses, declares, path, compose,
  lookup_pose,
}
use conductor_ros.Frames.Routes.{Route}
use conductor_ros.Frames.Promise.{Linked, path_links, path_iff}

module _ {A : Type 0} where
  -- What a link is worth, in the direction it is traversed.
  abbrev pub pose_of : Motions A → Link A → A
  pose_of m l = if l.inverse then m.inverse l.tf.pose else l.tf.pose

  -- The poses of some links composed, from `out`, each as the link is traversed.
  abbrev pub composed : Motions A → A → List (Link A) → A
  composed m out [] = out
  composed m out (l ∷ ls) = composed m (m.then_ out (pose_of m l)) ls

  abbrev pub Fixed : Link A → Type 0
  Fixed l = l.tf.dynamic ≡ false

  -- What an answer of Lookup says of the tree.
  abbrev pub Answers : Motions A → List (Transform A) → String → String → LookupError A ⊎ A → Type 0
  Answers m all target source (inr pose) =
      (links : List (Link A)) × (Route all target links source
        × (All Fixed links × (pose ≡ composed m m.identity links)))
  Answers m all target source (inl (crosses t)) =
      Linked all target source × (Within t all × (t.dynamic ≡ true))
  Answers m all target source (inl (no_path e)) =
      ¬ ((declares target all ≡ true) × ((declares source all ≡ true) × Linked all target source))

  -- The links that are left compose, or one of them is dynamic.
  abbrev Composes : Motions A → List (Transform A) → A → List (Link A) → LookupError A ⊎ A → Type 0
  Composes m all out links (inr pose) = All Fixed links × (pose ≡ composed m out links)
  Composes m all out links (inl (crosses t)) = Within t all × (t.dynamic ≡ true)
  Composes m all out links (inl (no_path e)) = ⊥

  Composes-more :
      (m : Motions A) (all : List (Transform A)) (l : Link A) (links : List (Link A)) (out : A)
      → Fixed l
      → (r : LookupError A ⊎ A) → Composes m all (m.then_ out (pose_of m l)) links r
      → Composes m all out (l ∷ links) r
  Composes-more m all l links out f (inr pose) (fs, e) = ((f, fs), e)
  Composes-more m all l links out f (inl (crosses t)) h = h
  Composes-more m all l links out f (inl (no_path e)) h = h

  Composes-if :
      (m : Motions A) (all : List (Transform A)) (l : Link A) (links : List (Link A)) (out : A)
      → Within l.tf all
      → (d : Bool) → l.tf.dynamic ≡ d
      → (r : LookupError A ⊎ A) → Composes m all (m.then_ out (pose_of m l)) links r
      → Composes m all out (l ∷ links) (if d then inl (crosses l.tf) else r)
  Composes-if m all l links out w true e r h = (w, e)
  Composes-if m all l links out w false e r h = Composes-more m all l links out e r h

  compose_lem :
      (m : Motions A) (all : List (Transform A)) (links : List (Link A)) (a b : String) (out : A)
      → Route all a links b
      → Composes m all out links (compose m links out)
  unfolding compose
  compose_lem m all [] a b out r = (tt, refl)
  compose_lem m all (l ∷ links) a b out (c, (w, (j, r))) =
      Composes-if m all l links out w l.tf.dynamic refl _
        (compose_lem m all links c b (m.then_ out (pose_of m l)) r)

  answer :
      (m : Motions A) (all : List (Transform A)) (target source : String) (links : List (Link A))
      → Route all target links source
      → (r : LookupError A ⊎ A) → Composes m all m.identity links r
      → Answers m all target source r
  answer m all target source links route (inr pose) (fs, e) = (links, (route, (fs, e)))
  answer m all target source links route (inl (crosses t)) h = ((links, route), h)
  answer m all target source links route (inl (no_path e)) h = absurd h

  answer_from :
      (m : Motions A) (all : List (Transform A)) (target source : String)
      → (r : PathError ⊎ List (Link A)) → path (some all) target source ≡ r
      → Answers m all target source
          (elim r [ inl e ↦ inl (no_path e) | inr links ↦ compose m links m.identity ])
  answer_from m all target source (inl err) e =
      λ h. let (links, there) = (path_iff all target source).1 h in absurd (cc (sym e ∙ there))
  answer_from m all target source (inr links) e =
      let (d, (k, linked)) = (path_iff all target source).0 (links, e) in
      let route = path_links all target source d k links e in
      answer m all target source links route _
        (compose_lem m all links target source m.identity route)

  -- Lookup from and to any frames: its pose is that of a declared route without dynamic links,
  -- composed from the target; where it blames a transform, that is declared and dynamic, and the
  -- frames are linked; and any other error means that a frame is unknown or no links join them.
  pub lookup_pose-Answers :
      (m : Motions A) (all : List (Transform A)) (target source : String)
      → Answers m all target source (lookup_pose m (some all) target source)
  unfolding lookup_pose
  lookup_pose-Answers m all target source =
      answer_from m all target source (path (some all) target source) refl
