-- ===== src/Frames/Tree.antt =====
-- frames.go: the declared transforms, the frames they name, and the look-up between two frames. A
-- transform's pose is an element of a parameter, and so is the arithmetic of poses.
use Prim.Native.String.{String}
use text.Mathlib.Text.{◌==◌ as str_eq}
use conductor_ros.Prelude.{
  ℕ, zero, suc, ◌⊎◌, inl, inr, Bool, true, false, not, ◌&&◌, ◌||◌, Option, none, some, List, [],
  ◌∷◌, ◌++◌, length, if◌then◌else◌,
}
use conductor_ros.Prelude.Names.{mem}

-- What Lookup does with poses: the identity, `Then` and `Inverse` of Isometry.
pub record Motions (A : Type 0) : Type 0 where
  pub identity : A
  pub then_ : A → A → A
  pub inverse : A → A

-- `Transform`, with its isometry.
pub record Transform (A : Type 0) : Type 0 where
  pub parent : String
  pub child : String
  pub pose : A
  pub dynamic : Bool
  pub by : String

-- `link`.
pub record Link (A : Type 0) : Type 0 where
  pub tf : Transform A
  pub inverse : Bool

-- `step` of path.
pub record Step (A : Type 0) : Type 0 where
  pub frame : String
  pub via : List (Link A)

-- What the errors of path say.
pub data PathError : Type 0 where
  no_tree unconnected : PathError
  unknown_frame : String → PathError

-- What the errors of Lookup say.
pub data LookupError (A : Type 0) : Type 0 where
  no_path : PathError → LookupError A
  crosses : Transform A → LookupError A

-- What one step of the search comes to: the way to the source, or a queue and what is seen.
pub data Round (A : Type 0) : Type 0 where
  found : List (Link A) → Round A
  more : List (Step A) → List String → Round A

module _ {A : Type 0} where
  -- `Transform.Ours`.
  abbrev pub ours : Transform A → Bool
  ours t = not t.dynamic && str_eq t.by ""

  -- The loop of `FrameTree.Has`.
  unfoldable pub declares : String → List (Transform A) → Bool
  declares f [] = false
  declares f (t ∷ ts) = (str_eq t.parent f || str_eq t.child f) || declares f ts

  -- `FrameTree.Has`; a tree that is nil is `none`.
  unfoldable pub has : Option (List (Transform A)) → String → Bool
  unfolding declares
  has none f = false
  has (some ts) f = declares f ts

  -- The switch in the loop of path: where a transform leads from a frame.
  unfoldable pub hop : String → Transform A → Option (String × Link A)
  hop cur t =
      if str_eq t.parent cur
      then some (t.child, record { tf = t; inverse = false })
      else if str_eq t.child cur
      then some (t.parent, record { tf = t; inverse = true })
      else none

  -- The loop of path over the transforms, from the step at the head of the queue.
  unfoldable pub visit :
      String → Step A → List (Transform A) → List (Step A) → List String → Round A
  unfolding hop mem
  visit source cur [] queue seen = more queue seen
  visit source cur (t ∷ ts) queue seen = elim (hop cur.frame t) [
    | none ↦ visit source cur ts queue seen
    | some (next, l) ↦ elim (mem next seen) [
      | true ↦ visit source cur ts queue seen
      | false ↦ elim (str_eq next source) [
        | true ↦ found (cur.via ++ l ∷ [])
        | false ↦
            visit source cur ts (queue ++ record { frame = next; via = cur.via ++ l ∷ [] } ∷ [])
              (seen ++ next ∷ [])
      ]
    ]
  ]

  -- The loop of path over its queue.
  unfoldable pub seek :
      String → List (Transform A) → ℕ → List (Step A) → List String → Option (List (Link A))
  unfolding visit
  seek source ts zero queue seen = none
  seek source ts (suc fuel) [] seen = none
  seek source ts (suc fuel) (cur ∷ queue) seen = elim (visit source cur ts queue seen) [
    | found via ↦ some via
    | more rest known ↦ seek source ts fuel rest known
  ]

  -- The frames that the transforms name, with repetitions: path enqueues a step for each at most.
  unfoldable pub ends : List (Transform A) → List String
  ends [] = []
  ends (t ∷ ts) = t.parent ∷ t.child ∷ ends ts

  abbrev pub connected : Option (List (Link A)) → PathError ⊎ List (Link A)
  connected none = inl unconnected
  connected (some links) = inr links

  -- `FrameTree.path`.
  unfoldable pub path : Option (List (Transform A)) → String → String → PathError ⊎ List (Link A)
  unfolding declares seek ends
  path none target source = inl no_tree
  path (some ts) target source =
      if not (declares target ts)
      then inl (unknown_frame target)
      else if not (declares source ts)
      then inl (unknown_frame source)
      else if str_eq target source
      then inr []
      else connected (
          seek source ts (suc (suc (length (ends ts)))) (record { frame = target; via = [] } ∷ [])
            (target ∷ []))

  -- The loop of `Lookup` over the links, from what is composed so far.
  unfoldable pub compose : Motions A → List (Link A) → A → LookupError A ⊎ A
  compose m [] out = inr out
  compose m (l ∷ ls) out =
      let pose = if l.inverse then m.inverse l.tf.pose else l.tf.pose in
      let rest = compose m ls (m.then_ out pose) in
      if l.tf.dynamic then inl (crosses l.tf) else rest

  -- `FrameTree.Lookup`.
  unfoldable pub lookup_pose :
      Motions A → Option (List (Transform A)) → String → String → LookupError A ⊎ A
  unfolding path compose
  lookup_pose m tree target source = elim (path tree target source) [
    | inl e ↦ inl (no_path e)
    | inr links ↦ compose m links m.identity
  ]

  -- `FrameTree.Connects`, whose nil is `none`.
  unfoldable pub connects : Option (List (Transform A)) → String → String → Option PathError
  unfolding path
  connects tree a b = elim (path tree a b) [ inl e ↦ some e | inr links ↦ none ]
