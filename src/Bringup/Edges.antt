-- ===== src/Bringup/Edges.antt =====
-- The edges of a node are its dependencies, each once, and its indegree counts them.
use Prim.Native.String.{String}
use text.Mathlib.Text.{◌==◌ as str_eq}
use text.Mathlib.TextEquality.{eq_iff}
use conductor_ros.Prelude.{
  ◌≡◌, refl, ap, Bool, false, not, ◌&&◌, ◌||◌, List, [], ◌∷◌, ◌++◌, length, length-append, arith,
  Bool-cases, inl, inr,
}
use conductor_ros.Prelude.Names.{mem, mem-snoc, str_eq-of, Distinct, append-Distinct}
use conductor_ros.Bringup.Deps.{
  Deps, provided, consumed, providers, Edges, add_edge, add_providers, add_consumed, edges_of,
}

unfoldable pub overlap : List String → List String → Bool
overlap [] ps = false
overlap (name ∷ names) ps = mem name ps || overlap names ps

-- `n` consumes what another node `p` provides.
unfoldable pub depends_on : Deps → List String → String → String → Bool
depends_on deps nodes n p =
    not (str_eq p n) && (mem p nodes && overlap (consumed (deps n)) (provided (deps p)))

mem-providers :
    (deps : Deps) (ns : List String) (name x : String)
    → mem x (providers deps ns name) ≡ (mem x ns && mem name (provided (deps x)))
unfolding providers mem
mem-providers deps [] name x = refl
mem-providers deps (n ∷ ns) name x = elim (Bool-cases (str_eq n x)) [
  | inl e ↦
      let same : n ≡ x = str_eq-of n x e in
      ground (
        arith,
        mem-providers deps ns name x,
        ap (λ (y : String). mem name (provided (deps y))) same,
      )
  | inr e ↦ ground (arith, mem-providers deps ns name x)
]

mem-add_edge :
    (n p x : String) (g : Edges)
    → mem x (add_edge n g p).edges ≡ (mem x g.edges || (not (str_eq x n) && str_eq p x))
unfolding add_edge
mem-add_edge n p x g = elim (Bool-cases (str_eq p x)) [
  | inl e ↦
      let same : p ≡ x = str_eq-of p x e in
      ground (
        arith,
        mem-snoc x p g.edges,
        ap (λ (y : String). mem y g.edges) same,
        ap (λ (y : String). str_eq y n) same,
      )
  | inr e ↦ ground (arith, mem-snoc x p g.edges)
]

mem-add_providers :
    (n x : String) (g : Edges) (ps : List String)
    → mem x (add_providers n g ps).edges ≡ (mem x g.edges || (not (str_eq x n) && mem x ps))
unfolding add_providers mem
mem-add_providers n x g [] = ground arith
mem-add_providers n x g (p ∷ ps) =
    ground (arith, mem-add_edge n p x g, mem-add_providers n x (add_edge n g p) ps)

mem-add_consumed :
    (deps : Deps) (nodes : List String) (n x : String) (g : Edges) (names : List String)
    → mem x (add_consumed deps nodes n g names).edges
      ≡ (mem x g.edges || (not (str_eq x n) && (mem x nodes && overlap names (provided (deps x)))))
unfolding add_consumed overlap
mem-add_consumed deps nodes n x g [] = ground arith
mem-add_consumed deps nodes n x g (name ∷ names) =
    let g' = add_providers n g (providers deps nodes name) in
    ground (
      arith,
      mem-add_providers n x g (providers deps nodes name),
      mem-providers deps nodes name x,
      mem-add_consumed deps nodes n x g' names,
    )

pub mem-edges_of :
    (deps : Deps) (nodes : List String) (n x : String)
    → mem x (edges_of deps nodes n).edges ≡ depends_on deps nodes n x
unfolding edges_of depends_on mem
mem-edges_of deps nodes n x =
    mem-add_consumed deps nodes n x (record { edges = []; indegree = 0 }) (consumed (deps n))

-- What filling the edges keeps.
pub record IsCounted (g : Edges) : Type 0 where
  pub distinct : Distinct g.edges
  pub counted : g.indegree ≡ length g.edges

snoc-Distinct :
    (x : String) (xs : List String) → mem x xs ≡ false → Distinct xs → Distinct (xs ++ x ∷ [])
unfolding mem
snoc-Distinct x xs out d =
    append-Distinct xs (x ∷ []) d (refl, tt) (λ y there. ground (arith, eq_iff x y, out, there))

add_edge-IsCounted : (n p : String) (g : Edges) → IsCounted g → IsCounted (add_edge n g p)
unfolding add_edge
add_edge-IsCounted n p g c = elim (Bool-cases (str_eq p n || mem p g.edges)) [
  | inl e ↦ rw e c
  | inr e ↦ rw e (record {
    distinct = snoc-Distinct p g.edges (ground arith) c.distinct;
    counted = omega (arith, length-append g.edges (p ∷ []), c.counted);
  })
]

add_providers-IsCounted :
    (n : String) (g : Edges) (ps : List String) → IsCounted g → IsCounted (add_providers n g ps)
unfolding add_providers
add_providers-IsCounted n g [] c = c
add_providers-IsCounted n g (p ∷ ps) c =
    add_providers-IsCounted n (add_edge n g p) ps (add_edge-IsCounted n p g c)

add_consumed-IsCounted :
    (deps : Deps) (nodes : List String) (n : String) (g : Edges) (names : List String)
    → IsCounted g
    → IsCounted (add_consumed deps nodes n g names)
unfolding add_consumed
add_consumed-IsCounted deps nodes n g [] c = c
add_consumed-IsCounted deps nodes n g (name ∷ names) c =
    add_consumed-IsCounted deps nodes n (add_providers n g (providers deps nodes name)) names
      (add_providers-IsCounted n g (providers deps nodes name) c)

pub edges_of-IsCounted :
    (deps : Deps) (nodes : List String) (n : String) → IsCounted (edges_of deps nodes n)
unfolding edges_of
edges_of-IsCounted deps nodes n =
    add_consumed-IsCounted deps nodes n (record { edges = []; indegree = 0 }) (consumed (deps n))
      (record { distinct = tt; counted = refl })
