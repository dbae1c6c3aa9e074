-- ===== src/Go/Sort/Insertion.antt =====
-- A sorter that shows that the documented behaviour can be met: insertion sort.
use mathlib.Core.List.{Perm}
use mathlib.Core.List.Perm
use crypto_sentinel.Prelude.{
  Bool, true, false, not, List, [], ◌∷◌, ◌≡◌, refl, all, arith, if◌then◌else◌, Bool-cases, inl, inr,
}
use crypto_sentinel.Go.Sort.{Sorter, IsSorter, WeakOrder, sorted}
use crypto_sentinel.Go.Sort.Laws.{perm-all}

module _ {A : Type 0} (less : A → A → Bool) where
  insert : A → List A → List A
  insert x [] = x ∷ []
  insert x (y ∷ ys) = if less y x then y ∷ insert x ys else x ∷ y ∷ ys

  insertion_sort : List A → List A
  unfolding insert
  insertion_sort [] = []
  insertion_sort (x ∷ xs) = insert x (insertion_sort xs)

  insert-perm : (x : A) (ys : List A) → Perm (insert x ys) (x ∷ ys)
  unfolding insert
  insert-perm x [] = Perm.rfl
  insert-perm x (y ∷ ys) = elim (Bool-cases (less y x)) [
    | inl e ↦ rw e (Perm.trans (Perm.cons y (insert-perm x ys)) (Perm.swap x y ys))
    | inr e ↦ rw e Perm.rfl
  ]

  insertion_sort-perm : (xs : List A) → Perm (insertion_sort xs) xs
  unfolding insertion_sort
  insertion_sort-perm [] = Perm.rfl
  insertion_sort-perm (x ∷ xs) =
      Perm.trans (insert-perm x (insertion_sort xs)) (Perm.cons x (insertion_sort-perm xs))

  module _ (p : A → Bool) (weak : WeakOrder less p) where
    open weak use {asymm, not_trans}

    -- What is not less than `y` is not less than `x`, if `y` is not less than `x`.
    below :
        (x y : A) (ys : List A)
        → p y ≡ true
        → less y x ≡ false
        → all (λ z. not (less z y)) ys ≡ true
        → all (λ z. not (less z x)) ys ≡ true
    below x y [] py h a = refl
    below x y (z ∷ zs) py h a = ground (arith, not_trans z y x py, below x y zs py h)

    insert-sorted :
        (x : A) (ys : List A)
        → p x ≡ true
        → all p ys ≡ true
        → sorted less ys ≡ true
        → sorted less (insert x ys) ≡ true
    unfolding insert
    insert-sorted x [] px ps s = refl
    insert-sorted x (y ∷ ys) px ps s = ground (
      arith,
      insert-sorted x ys px,
      asymm y x,
      below x y ys,
      perm-all (λ z. not (less z y)) (insert-perm x ys),
    )

    insertion_sort-sorted : (xs : List A) → all p xs ≡ true → sorted less (insertion_sort xs) ≡ true
    unfolding insertion_sort
    insertion_sort-sorted [] ps = refl
    insertion_sort-sorted (x ∷ xs) ps = ground (
      arith,
      insertion_sort-sorted xs,
      insert-sorted x (insertion_sort xs),
      perm-all p (insertion_sort-perm xs),
    )

instance abbrev pub by_insertion : Sorter
unfolding insertion_sort
by_insertion = record { sort_slice = λ A less xs. insertion_sort less xs }

pub by_insertion-IsSorter : IsSorter by_insertion
unfolding insertion_sort
by_insertion-IsSorter = record {
  perm = λ A less xs. insertion_sort-perm less xs;
  in_order = λ A less p xs weak ok. insertion_sort-sorted less p weak xs ok;
}
