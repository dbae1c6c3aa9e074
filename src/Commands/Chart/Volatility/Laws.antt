-- ===== src/Commands/Chart/Volatility/Laws.antt =====
-- The range of the prices.
use crypto_sentinel.Prelude.{
  ℕ, zero, suc, Bool, true, false, not, List, [], ◌∷◌, some, get_elem?, all, if◌then◌else◌, ◌≡◌,
  refl, arith, Bool-cases, inl, inr,
}
use crypto_sentinel.Go.Float64.{Float64, is_nan, lt, gt}
use crypto_sentinel.Go.Float64.Order.{lt_asymm, not_lt_trans}
use crypto_sentinel.Go.Sort.{WeakOrder}
use crypto_sentinel.Commands.Chart.Volatility.{price_range}

abbrev pub is_number : Float64 → Bool
is_number x = not (is_nan x)

lt-WeakOrder : WeakOrder lt is_number
lt-WeakOrder = record {
  asymm = lt_asymm;
  not_trans = λ x y z n p q. not_lt_trans x y z (ground arith) p q;
}

gt-WeakOrder : WeakOrder gt is_number
gt-WeakOrder = record {
  asymm = λ x y h. lt_asymm y x h;
  not_trans = λ x y z n p q. not_lt_trans z y x (ground arith) q p;
}

-- The first of the elements that no other is less than.
abbrev extreme : (Float64 → Float64 → Bool) → Float64 → List Float64 → Float64
extreme less b [] = b
extreme less b (v ∷ ps) = extreme less (if less v b then v else b) ps

-- `e` is one of `ps`, and none of them is less.
pub record IsExtreme (less : Float64 → Float64 → Bool) (ps : List Float64) (e : Float64)
    : Type 0 where
  pub at : ℕ
  pub member : get_elem? ps at ≡ some e
  pub bound : all (λ p. not (less p e)) ps ≡ true

behind :
    (b v : Float64) (ps : List Float64) (e : Float64) (j : ℕ)
    → get_elem? (b ∷ ps) j ≡ some e
    → (i : ℕ) × (get_elem? (b ∷ v ∷ ps) i ≡ some e)
behind b v ps e zero h = (0, h)
behind b v ps e (suc j) h = (suc (suc j), h)

module _ (less : Float64 → Float64 → Bool) (weak : WeakOrder less is_number) where
  irreflexive : (b : Float64) → less b b ≡ false
  irreflexive b = elim (Bool-cases (less b b)) [ inl h ↦ weak.asymm b b h | inr h ↦ h ]

  extreme-IsExtreme :
      (b : Float64) (ps : List Float64)
      → all is_number (b ∷ ps) ≡ true
      → IsExtreme less (b ∷ ps) (extreme less b ps)
  extreme-IsExtreme b [] n = record { at = 0; member = refl; bound = ground (arith, irreflexive b) }
  extreme-IsExtreme b (v ∷ ps) n = elim (Bool-cases (less v b)) [
    | inl under ↦
        let e = extreme-IsExtreme v ps (ground (arith, n)) in
        rw under (record {
          at = suc e.at;
          member = e.member;
          bound =
              ground
                (arith, e.bound, weak.asymm v b under, weak.not_trans b v (extreme less v ps), n);
        })
    | inr over ↦
        let e = extreme-IsExtreme b ps (ground (arith, n)) in
        let (i, m) = behind b v ps _ e.at e.member in
        rw over (record {
          at = i;
          member = m;
          bound = ground (arith, e.bound, over, weak.not_trans v b (extreme less b ps), n);
        })
  ]

price_range-extreme :
    (ps : List Float64) (low high : Float64)
    → price_range low high ps ≡ (extreme lt low ps, extreme gt high ps)
unfolding price_range
price_range-extreme [] low high = refl
price_range-extreme (v ∷ ps) low high = price_range-extreme ps _ _

-- For prices that are numbers, the range that `volatility` reports goes from one of the prices to
-- one of the prices, and no price is below the first or above the second.
pub price_range-IsExtreme :
    (x : Float64) (xs : List Float64)
    → all is_number (x ∷ xs) ≡ true
    → IsExtreme lt (x ∷ xs) (price_range x x xs).0 × IsExtreme gt (x ∷ xs) (price_range x x xs).1
price_range-IsExtreme x xs n =
    rw (price_range-extreme xs x x)
      (extreme-IsExtreme lt lt-WeakOrder x xs n, extreme-IsExtreme gt gt-WeakOrder x xs n)
