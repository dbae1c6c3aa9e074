-- ===== src/Go/Sort.antt =====
-- The package `sort`: `sort.Slice(x, less)` leaves a rearrangement of `x` in which, if `less` is a
-- strict weak order on the elements, none stands behind one that it is less than. The order of
-- equal elements is not promised, so the function is a parameter.
pub mod Laws
pub mod Insertion
use mathlib.Core.List.{Perm}
use crypto_sentinel.Prelude.{
  ℕ, Bool, true, false, not, ◌&&◌, List, [], ◌∷◌, ◌++◌, ◌≡◌, length, take, all, ltb, if◌then◌else◌,
  min,
}

pub record Sorter : Type 1 where
  pub sort_slice : (A : Type 0) → (A → A → Bool) → List A → List A

module _ {ℓ} {A : Type ℓ} where
  -- No element is less than one that stands before it.
  abbrev pub sorted : (A → A → Bool) → List A → Bool
  sorted less [] = true
  sorted less (x ∷ xs) = all (λ y. not (less y x)) xs && sorted less xs

  -- `less` is a strict weak order on the elements that pass `p`.
  pub record WeakOrder (less : A → A → Bool) (p : A → Bool) : Type ℓ where
    pub asymm : (x y : A) → less x y ≡ true → less y x ≡ false
    pub not_trans :
        (x y z : A) → p y ≡ true → less x y ≡ false → less y z ≡ false → less x z ≡ false

-- The documented behaviour.
pub record IsSorter (s : Sorter) : Type 1 where
  pub perm : (A : Type 0) (less : A → A → Bool) (xs : List A) → Perm (s.sort_slice A less xs) xs
  pub in_order :
      (A : Type 0) (less : A → A → Bool) (p : A → Bool) (xs : List A)
      → WeakOrder less p
      → all p xs ≡ true
      → sorted less (s.sort_slice A less xs) ≡ true

-- if len(list) > limit { list = list[:limit] }
unfoldable pub limit_to {ℓ} : {A : Type ℓ} → ℕ → List A → List A
limit_to limit list = if ltb limit (length list) then take limit list else list

-- `top` is the first `n` of the candidates: they are in order, and no candidate that is left out
-- is less than one that is kept.
pub record IsTop {ℓ} {A : Type ℓ} (less : A → A → Bool) (n : ℕ) (candidates top : List A)
    : Type ℓ where
  pub rest : List A
  pub perm : Perm (top ++ rest) candidates
  pub size : length top ≡ min n (length candidates)
  pub in_order : sorted less top ≡ true
  pub best : all (λ x. all (λ y. not (less y x)) rest) top ≡ true
