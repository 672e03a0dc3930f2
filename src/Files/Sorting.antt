-- ===== src/Files/Sorting.antt =====
-- std::sort on strings, by their operator<.
use simurga.Base.{
  ◌≡◌, inl, inr, refl, true, false, List, [], ◌∷◌, arith, if◌then◌else◌, Bytes, Bool-cases,
}
use mathlib.Core.List.{Perm}
use mathlib.Core.List.Perm
use simurga.Text.{less}

unfoldable pub insert_sorted : Bytes → List Bytes → List Bytes
insert_sorted x [] = x ∷ []
insert_sorted x (y ∷ ys) =
    let rest = insert_sorted x ys in if less y x then y ∷ rest else x ∷ y ∷ ys

unfoldable pub sort : List Bytes → List Bytes
unfolding insert_sorted
sort [] = []
sort (x ∷ xs) = insert_sorted x (sort xs)

-- No element is less than one in front of it.
pub data IsSorted : List Bytes → Type 0 where
  nil : IsSorted []
  one : (x : Bytes) → IsSorted (x ∷ [])
  more : {x y : Bytes} {l : List Bytes} → less y x ≡ false → IsSorted (y ∷ l) → IsSorted (x ∷ y ∷ l)

pub less_asym : (x y : Bytes) → less x y ≡ true → less y x ≡ false
unfolding less
less_asym [] [] h = refl
less_asym [] (y ∷ ys) h = refl
less_asym (x ∷ xs) [] h = cc
less_asym (x ∷ xs) (y ∷ ys) h = ground (arith, less_asym xs ys)

insert_sorted-IsSorted : {l : List Bytes} (x : Bytes) → IsSorted l → IsSorted (insert_sorted x l)
unfolding insert_sorted
insert_sorted-IsSorted x nil = one x
insert_sorted-IsSorted x (one y) = elim (Bool-cases (less y x)) [
  | inl e ↦ rw e (more (less_asym y x e) (one x))
  | inr e ↦ rw e (more e (one y))
]
insert_sorted-IsSorted x (more {x = y} {y = z} {l} h s) = elim (Bool-cases (less y x)) [
  | inl e ↦ elim (Bool-cases (less z x)) [
    | inl e' ↦ rw (e, e') (more h (rw e' at (insert_sorted-IsSorted x s)))
    | inr e' ↦ rw (e, e') (more (less_asym y x e) (more e' s))
  ]
  | inr e ↦ rw e (more e (more h s))
]

pub sort-IsSorted : (l : List Bytes) → IsSorted (sort l)
unfolding sort
sort-IsSorted [] = nil
sort-IsSorted (x ∷ l) = insert_sorted-IsSorted x (sort-IsSorted l)

insert_sorted-perm : (x : Bytes) (l : List Bytes) → Perm (insert_sorted x l) (x ∷ l)
unfolding insert_sorted
insert_sorted-perm x [] = Perm.refl (x ∷ [])
insert_sorted-perm x (y ∷ l) = elim (Bool-cases (less y x)) [
  | inl e ↦ rw e (Perm.trans (Perm.cons y (insert_sorted-perm x l)) (Perm.swap x y l))
  | inr e ↦ rw e (Perm.refl (x ∷ y ∷ l))
]

pub sort-perm : (l : List Bytes) → Perm (sort l) l
unfolding sort
sort-perm [] = Perm.refl []
sort-perm (x ∷ l) = Perm.trans (insert_sorted-perm x (sort l)) (Perm.cons x (sort-perm l))
