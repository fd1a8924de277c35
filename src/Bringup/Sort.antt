-- ===== src/Bringup/Sort.antt =====
-- Sorting by position keeps the names.
use Prim.Native.String.{String}
use text.Mathlib.Text.{◌==◌ as str_eq}
use text.Mathlib.TextEquality.{eq_iff}
use conductor_ros.Prelude.{
  ℕ, ◌≡◌, refl, ◌∙◌, false, ◌||◌, List, [], ◌∷◌, arith, leb, Bool-cases, inl, inr,
}
use conductor_ros.Prelude.Names.{mem, Distinct}
use conductor_ros.Bringup.Kahn.{insert_by, sort_by}

pub mem-insert_by :
    (key : String → ℕ) (x z : String) (xs : List String)
    → mem z (insert_by key x xs) ≡ (str_eq x z || mem z xs)
unfolding insert_by mem
mem-insert_by key x z [] = refl
mem-insert_by key x z (y ∷ ys) = ground (arith, mem-insert_by key x z ys)

pub mem-sort_by :
    (key : String → ℕ) (z : String) (xs : List String) → mem z (sort_by key xs) ≡ mem z xs
unfolding sort_by mem
mem-sort_by key z [] = refl
mem-sort_by key z (x ∷ xs) =
    ground (arith, mem-insert_by key x z (sort_by key xs), mem-sort_by key z xs)

insert_by-Distinct :
    (key : String → ℕ) (x : String) (xs : List String)
    → mem x xs ≡ false
    → Distinct xs
    → Distinct (insert_by key x xs)
unfolding insert_by mem
insert_by-Distinct key x [] out d = (refl, tt)
insert_by-Distinct key x (y ∷ ys) out (y_out, d) = elim (Bool-cases (leb (key x) (key y))) [
  | inl e ↦ rw e (out, (y_out, d))
  | inr e ↦ rw e (
    mem-insert_by key x y ys ∙ ground (arith, eq_iff x y, eq_iff y x),
    insert_by-Distinct key x ys (ground arith) d,
  )
]

pub sort_by-Distinct :
    (key : String → ℕ) (xs : List String) → Distinct xs → Distinct (sort_by key xs)
unfolding sort_by
sort_by-Distinct key [] d = tt
sort_by-Distinct key (x ∷ xs) (out, d) =
    insert_by-Distinct key x (sort_by key xs) (mem-sort_by key x xs ∙ out)
      (sort_by-Distinct key xs d)
