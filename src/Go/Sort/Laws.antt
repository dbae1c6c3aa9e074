-- ===== src/Go/Sort/Laws.antt =====
-- Rearrangements, and the cut of a sorted list.
use mathlib.Core.Logic.{∥∥₁_elim}
use mathlib.Core.Bool.{Bool-set}
use mathlib.Core.List.{Perm, Permᴰ}
use native.Mathlib.Nat.{ℕ_set}
use crypto_sentinel.Prelude.{
  ℕ, zero, suc, Bool, true, not, List, [], ◌∷◌, ◌++◌, ◌≡◌, refl, ◌∙◌, ap, length, take, drop, all,
  min, arith, length-take, take-append-drop, all-append,
}
use crypto_sentinel.Go.Sort.{Sorter, IsSorter, WeakOrder, sorted, limit_to, IsTop}

module _ {ℓ} {A : Type ℓ} where
  permᴰ-length : {xs ys : List A} → Permᴰ xs ys → length xs ≡ length ys
  permᴰ-length Permᴰ.nil = refl
  permᴰ-length (Permᴰ.cons e d) = ap suc (permᴰ-length d)
  permᴰ-length (Permᴰ.swap e f) = refl
  permᴰ-length (Permᴰ.trans d e) = permᴰ-length d ∙ permᴰ-length e

  pub perm-length : {xs ys : List A} → Perm xs ys → length xs ≡ length ys
  perm-length {xs} {ys} p = ∥∥₁_elim p (ℕ_set (length xs) (length ys)) permᴰ-length

  permᴰ-all : (p : A → Bool) {xs ys : List A} → Permᴰ xs ys → all p xs ≡ all p ys
  permᴰ-all p Permᴰ.nil = refl
  permᴰ-all p (Permᴰ.cons e d) = cc (ap p e, permᴰ-all p d)
  permᴰ-all p (Permᴰ.swap {a = a} {b = b} {l = l} e f) = ground (arith, ap p e, ap p f)
  permᴰ-all p (Permᴰ.trans d e) = permᴰ-all p d ∙ permᴰ-all p e

  -- A test on all members does not see their order.
  pub perm-all : (p : A → Bool) {xs ys : List A} → Perm xs ys → all p xs ≡ all p ys
  perm-all p {xs} {ys} h = ∥∥₁_elim h (Bool-set (all p xs) (all p ys)) (permᴰ-all p)

  pub limit_to-take : (n : ℕ) (xs : List A) → limit_to n xs ≡ take n xs
  unfolding limit_to
  limit_to-take zero [] = refl
  limit_to-take zero (x ∷ xs) = ground arith
  limit_to-take (suc n) [] = ground arith
  limit_to-take (suc n) (x ∷ xs) = ground (arith, limit_to-take n xs)

  -- The parts of a sorted list are sorted, and none of the second is less than one of the first.
  sorted-append :
      (less : A → A → Bool) (xs ys : List A)
      → sorted less (xs ++ ys) ≡ true
      → (sorted less xs ≡ true)
        × (sorted less ys ≡ true)
        × (all (λ x. all (λ y. not (less y x)) ys) xs ≡ true)
  sorted-append less [] ys h = (refl, h, refl)
  sorted-append less (x ∷ xs) ys h =
      ground (arith, sorted-append less xs ys, all-append (λ y. not (less y x)) xs ys)

module _ {A : Type 0} {s : Sorter} (laws : IsSorter s) where
  -- To sort and to cut is to take the first.
  pub limit_to-IsTop :
      (less : A → A → Bool) (p : A → Bool) (n : ℕ) (xs : List A)
      → WeakOrder less p
      → all p xs ≡ true
      → IsTop less n xs (limit_to n (s.sort_slice A less xs))
  limit_to-IsTop less p n xs weak ok =
      let ys : List A = s.sort_slice A less xs in
      let shuffled = laws.perm A less xs in
      let whole : sorted less (take n ys ++ drop n ys) ≡ true =
        ap (sorted less) (take-append-drop n ys) ∙ laws.in_order A less p xs weak ok in
      let (first, _, across) = sorted-append less (take n ys) (drop n ys) whole in
      rw (limit_to-take n ys) (record {
        rest = drop n ys;
        perm = rw (take-append-drop n ys) shuffled;
        size = length-take n ys ∙ ap (min n) (perm-length shuffled);
        in_order = first;
        best = across;
      })

  -- What all candidates satisfy, all that are kept satisfy, in whatever order they come.
  limit_to-all :
      (less : A → A → Bool) (p : A → Bool) (n : ℕ) (xs : List A)
      → all p xs ≡ true
      → all p (limit_to n (s.sort_slice A less xs)) ≡ true
  limit_to-all less p n xs ok =
      let ys : List A = s.sort_slice A less xs in
      let kept : all p ys ≡ true = perm-all p (laws.perm A less xs) ∙ ok in
      rw (limit_to-take n ys) (
        ground (
          arith,
          take-append-drop n ys,
          kept,
          all-append p (take n ys) (drop n ys),
          ap (all p) (take-append-drop n ys),
        ))
