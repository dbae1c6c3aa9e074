-- ===== src/Prelude/Results.antt =====
-- Go's `(T, error)`: a value with a nil error, or an error with its text. And `(T, bool)`-like
-- chains, which are options.

use mathlib.Core.Path.{◌≡◌}
use mathlib.Core.Option.{Option, none, some}
use crypto_sentinel.Prelude.Lists.{Bytes}

pub data Result {ℓ} (A : Type ℓ) : Type ℓ where
  ok : A → Result A
  err : Bytes → Result A

pub ok-injective {ℓ} : {A : Type ℓ} {a b : A} → ok a ≡ ok b → a ≡ b
ok-injective e = cc

abbrev pub IsSome {ℓ} : {A : Type ℓ} → Option A → Type 0
IsSome none = ⊥
IsSome (some a) = Unit

pub IsSome-map :
    {A B : Type 0} (f : A → B) (o : Option A)
    → IsSome o
    → IsSome (elim o as (λ x. Option B) [ none ↦ none | some a ↦ some (f a) ])
IsSome-map f none h = h
IsSome-map f (some a) h = tt
