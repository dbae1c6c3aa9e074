-- ===== src/Commands/Portfolio/Sums.antt =====
-- The sums of positive quotes are positive numbers.
use crypto_sentinel.Prelude.{
  Bool, true, false, not, ◌||◌, List, [], ◌∷◌, some, Bytes, all, is_empty, filter_map-skip,
  filter_map-keep, ◌≡◌, refl, arith, Bool-cases, inl, inr,
}
use crypto_sentinel.Go.Runtime.{Runtime}
use crypto_sentinel.Go.Float64.{Float64, f_zero, is_nan, lt, le, eq}
use crypto_sentinel.Go.Float64.Order.{not_le-lt}
use crypto_sentinel.Go.Text.{beq}
use crypto_sentinel.Commands.Portfolio.Holdings.{
  Item, TokenHolding, ChainAgg, chain_display, holding, token_holdings, total_value, add_to_chain,
  chain_totals,
}

-- IEEE 754: the sum of a number that is zero or above and a number above zero is above zero.
pub record Adds (g : Runtime) : Type 0 where
  pub positive :
      (x y : Float64) → le f_zero x ≡ true → lt f_zero y ≡ true → lt f_zero (g.add x y) ≡ true

abbrev pub numbered : Item → Bool
numbered it = not (is_nan it.quote)

abbrev pub is_positive : ChainAgg → Bool
is_positive c = lt f_zero c.value

lt-le : (x y : Float64) → lt x y ≡ true → le x y ≡ true
unfolding lt le
lt-le x y h = ground arith

pub lt-not_nan : (x y : Float64) → lt x y ≡ true → is_nan y ≡ false
unfolding lt
lt-not_nan x y h = ground arith

lt-not_eq : (y : Float64) → lt f_zero y ≡ true → eq y f_zero ≡ false
unfolding lt eq
lt-not_eq y h = ground arith

zero_nan : is_nan f_zero ≡ false
unfolding is_nan
zero_nan = refl

zero_zero : le f_zero f_zero ≡ true
unfolding le is_nan
zero_zero = ground arith

-- A quote that counts is above zero.
counted-positive :
    (it : Item) → numbered it ≡ true → le it.quote f_zero ≡ false → lt f_zero it.quote ≡ true
counted-positive it n c = not_le-lt it.quote f_zero (ground (arith, n)) zero_nan c

holding-counted :
    (it : Item)
    → le it.quote f_zero ≡ false
    → (t : TokenHolding) × (holding it ≡ some t) × (t.quote ≡ it.quote)
unfolding holding
holding-counted it c = rw c (_, refl, refl)

pub token_holdings-numbers :
    (items : List Item)
    → all numbered items ≡ true
    → all (λ t. not (is_nan t.quote)) (token_holdings items) ≡ true
unfolding token_holdings holding
token_holdings-numbers [] n = refl
token_holdings-numbers (it ∷ items) n =
    let rest = token_holdings-numbers items (ground (arith, n)) in
    elim (Bool-cases (le it.quote f_zero)) [
      | inl skipped ↦ rw (filter_map-skip holding it items (rw skipped refl)) rest
      | inr counted ↦
          let (t, kept, same) = holding-counted it counted in
          rw (filter_map-keep holding it items t kept) (rw same (ground (arith, n, rest)))
    ]

module _ ⦃g : Runtime⦄ (adds : Adds g) where
  total_value-stays :
      (total : Float64) (items : List Item)
      → all numbered items ≡ true
      → lt f_zero total ≡ true
      → lt f_zero (total_value total items) ≡ true
  unfolding total_value
  total_value-stays total [] n h = h
  total_value-stays total (it ∷ items) n h = elim (Bool-cases (le it.quote f_zero)) [
    | inl skipped ↦ rw skipped (total_value-stays total items (ground (arith, n)) h)
    | inr counted ↦
        let here = counted-positive it (ground (arith, n)) counted in
        rw counted (
          total_value-stays (g.add total it.quote) items (ground (arith, n))
            (adds.positive total it.quote (lt-le f_zero total h) here))
  ]

  total_value-positive :
      (items : List Item)
      → all numbered items ≡ true
      → is_empty (token_holdings items) ≡ false
      → lt f_zero (total_value f_zero items) ≡ true
  unfolding total_value token_holdings holding
  total_value-positive [] n some_left = absurd (cc)
  total_value-positive (it ∷ items) n some_left = elim (Bool-cases (le it.quote f_zero)) [
    | inl skipped ↦
        let left = rw (filter_map-skip holding it items (rw skipped refl)) at some_left in
        rw skipped (total_value-positive items (ground (arith, n)) left)
    | inr counted ↦
        let here = counted-positive it (ground (arith, n)) counted in
        rw counted (
          total_value-stays (g.add f_zero it.quote) items (ground (arith, n))
            (adds.positive f_zero it.quote zero_zero here))
  ]

  -- The test of the code for nothing to show.
  pub nothing_counts :
      (items : List Item)
      → all numbered items ≡ true
      → (eq (total_value f_zero items) f_zero || is_empty (token_holdings items))
        ≡ is_empty (token_holdings items)
  nothing_counts items n = elim (Bool-cases (is_empty (token_holdings items))) [
    | inl bare ↦ rw bare (ground arith)
    | inr some_left ↦ rw some_left (rw (lt-not_eq _ (total_value-positive items n some_left)) refl)
  ]

  add_to_chain-positive :
      (name : Bytes) (q : Float64) (totals : List ChainAgg)
      → lt f_zero q ≡ true
      → all is_positive totals ≡ true
      → all is_positive (add_to_chain name q totals) ≡ true
  unfolding add_to_chain
  add_to_chain-positive name q [] h k = ground (arith, adds.positive f_zero q zero_zero h)
  add_to_chain-positive name q (c ∷ totals) h k =
      let this : lt f_zero c.value ≡ true = ground (arith, k) in
      let rest : all is_positive totals ≡ true = ground (arith, k) in
      let more = adds.positive c.value q (lt-le f_zero c.value this) h in
      elim (Bool-cases (beq c.name name)) [
        | inl same ↦ rw same (ground (arith, more, rest))
        | inr other ↦ rw other (ground (arith, this, add_to_chain-positive name q totals h rest))
      ]

  pub chain_totals-positive :
      (items : List Item) (totals : List ChainAgg)
      → all numbered items ≡ true
      → all is_positive totals ≡ true
      → all is_positive (chain_totals items totals) ≡ true
  unfolding chain_totals
  chain_totals-positive [] totals n h = h
  chain_totals-positive (it ∷ items) totals n h = elim (Bool-cases (le it.quote f_zero)) [
    | inl skipped ↦ rw skipped (chain_totals-positive items totals (ground (arith, n)) h)
    | inr counted ↦
        let here = counted-positive it (ground (arith, n)) counted in
        rw counted (
          chain_totals-positive items _ (ground (arith, n))
            (add_to_chain-positive (chain_display it) it.quote totals here h))
  ]
