-- ===== src/Commands/Portfolio/Laws.antt =====
-- The totals of the chains.
use crypto_sentinel.Prelude.{
  Bool, true, false, not, ◌&&◌, List, [], ◌∷◌, Option, none, some, Bytes, all, filter_map,
  if◌then◌else◌, ◌≡◌, refl, arith, filter_map-skip, filter_map-keep, if-elim, Bool-cases, inl, inr,
  ◌∙◌, ap, sym,
}
use crypto_sentinel.Go.Runtime.{Runtime}
use crypto_sentinel.Go.Float64.{Float64, f_zero, le}
use crypto_sentinel.Go.Text.{beq}
use crypto_sentinel.Go.Text.Laws.{beq_iff}
use crypto_sentinel.Commands.Portfolio.Holdings.{
  Item, ChainAgg, chain_display, add_to_chain, chain_totals,
}

-- The value under a name; `none` is a missing key.
abbrev value_of : Bytes → List ChainAgg → Option Float64
value_of name [] = none
value_of name (c ∷ totals) = if beq c.name name then some c.value else value_of name totals

-- No name occurs twice.
abbrev pub distinct : List ChainAgg → Bool
distinct [] = true
distinct (c ∷ totals) = all (λ d. not (beq d.name c.name)) totals && distinct totals

-- The quotes that count for a chain, in the order of the items.
abbrev quote_on : Bytes → Item → Option Float64
quote_on name it =
    if le it.quote f_zero then none else if beq (chain_display it) name then some it.quote else none

beq_other : (n c : Bytes) → beq c n ≡ false → beq n c ≡ false
beq_other n c h = elim (Bool-cases (beq n c)) [
  | inr e ↦ e
  | inl e ↦ let same : c ≡ n = sym ((beq_iff n c).0 e) in absurd (cc (h, (beq_iff c n).1 same))
]

beq_apart : (n c name : Bytes) → beq c n ≡ false → beq c name ≡ true → beq n name ≡ false
beq_apart n c name h k =
    let same : name ≡ c = sym ((beq_iff c name).0 k) in rw same (beq_other n c h)

module _ ⦃g : Runtime⦄ where
  -- total += quote, from zero where there is no total yet
  abbrev plus : Option Float64 → Float64 → Float64
  plus none q = g.add f_zero q
  plus (some v) q = g.add v q

  -- The running total over the quotes.
  abbrev summed : Option Float64 → List Float64 → Option Float64
  summed total [] = total
  summed total (q ∷ qs) = summed (some (plus total q)) qs

  add_to_chain-value_of :
      (name n : Bytes) (q : Float64) (totals : List ChainAgg)
      → value_of name (add_to_chain n q totals)
        ≡ (if beq n name then some (plus (value_of name totals) q) else value_of name totals)
  unfolding add_to_chain
  add_to_chain-value_of name n q [] = refl
  add_to_chain-value_of name n q (c ∷ totals) = elim (Bool-cases (beq c.name n)) [
    | inl same ↦
        let e : n ≡ c.name = sym ((beq_iff c.name n).0 same) in
        rw same (
          rw e (elim (Bool-cases (beq c.name name)) [
            | inl named ↦ rw named refl
            | inr unnamed ↦ rw unnamed refl
          ]))
    | inr other ↦ rw other (elim (Bool-cases (beq c.name name)) [
      | inl named ↦ rw named (rw (beq_apart n c.name name other named) refl)
      | inr unnamed ↦ rw unnamed (add_to_chain-value_of name n q totals)
    ])
  ]

  chain_totals-value_of :
      (name : Bytes) (items : List Item) (totals : List ChainAgg)
      → value_of name (chain_totals items totals)
        ≡ summed (value_of name totals) (filter_map (quote_on name) items)
  unfolding chain_totals
  chain_totals-value_of name [] totals = refl
  chain_totals-value_of name (it ∷ items) totals =
      let rest = filter_map (quote_on name) items in
      elim (Bool-cases (le it.quote f_zero)) [
        | inl skipped ↦
            rw skipped (chain_totals-value_of name items totals)
            ∙ ap (summed (value_of name totals))
                (sym (filter_map-skip (quote_on name) it items (rw skipped refl)))
        | inr counted ↦
            rw counted
              (chain_totals-value_of name items (add_to_chain (chain_display it) it.quote totals))
            ∙ ap (λ t. summed t rest)
                (add_to_chain-value_of name (chain_display it) it.quote totals)
            ∙ elim (Bool-cases (beq (chain_display it) name)) [
              | inl here ↦
                  rw here refl
                  ∙ ap (summed (value_of name totals)) (
                      sym (
                        filter_map-keep (quote_on name) it items it.quote
                          (rw counted (rw here refl))))
              | inr there ↦
                  rw there refl
                  ∙ ap (summed (value_of name totals))
                      (sym (filter_map-skip (quote_on name) it items (rw counted (rw there refl))))
            ]
      ]

  add_to_chain-fresh :
      (name n : Bytes) (q : Float64) (totals : List ChainAgg)
      → beq n name ≡ false
      → all (λ d. not (beq d.name name)) totals ≡ true
      → all (λ d. not (beq d.name name)) (add_to_chain n q totals) ≡ true
  unfolding add_to_chain
  add_to_chain-fresh name n q [] h k = ground (arith, h)
  add_to_chain-fresh name n q (c ∷ totals) h k =
      ground (arith, h, k, add_to_chain-fresh name n q totals h)

  add_to_chain-distinct :
      (n : Bytes) (q : Float64) (totals : List ChainAgg)
      → distinct totals ≡ true
      → distinct (add_to_chain n q totals) ≡ true
  unfolding add_to_chain
  add_to_chain-distinct n q [] h = refl
  add_to_chain-distinct n q (c ∷ totals) h = elim (Bool-cases (beq c.name n)) [
    | inl same ↦ rw same h
    | inr other ↦ rw other (
        ground (
          arith,
          h,
          add_to_chain-distinct n q totals,
          add_to_chain-fresh c.name n q totals (beq_other n c.name other),
        ))
  ]

  chain_totals-distinct :
      (items : List Item) (totals : List ChainAgg)
      → distinct totals ≡ true
      → distinct (chain_totals items totals) ≡ true
  unfolding chain_totals
  chain_totals-distinct [] totals h = h
  chain_totals-distinct (it ∷ items) totals h = chain_totals-distinct items _ (
      if-elim (λ t. distinct t ≡ true) (le it.quote f_zero) _ _ h
        (add_to_chain-distinct (chain_display it) it.quote totals h))

  -- What the loop leaves of the chains.
  pub record IsTotals (items : List Item) (totals : List ChainAgg) : Type 0 where
    pub once : distinct totals ≡ true
    pub sums :
        (name : Bytes) → value_of name totals ≡ summed none (filter_map (quote_on name) items)

  -- Each chain has one entry: the sum of the positive quotes of its items, added in their order
  -- from zero. A chain without such an item has no entry.
  pub chain_totals-IsTotals : (items : List Item) → IsTotals items (chain_totals items [])
  chain_totals-IsTotals items = record {
    once = chain_totals-distinct items [] refl;
    sums = λ name. chain_totals-value_of name items [];
  }
