-- ===== src/Commands/Portfolio/Snapshot.antt =====
-- The report of the command portfolio.
use mathlib.Core.List.{Perm}
use mathlib.Core.List.Perm
use crypto_sentinel.Prelude.{
  true, false, not, List, [], ◌∷◌, ◌++◌, Bytes, Result, ok, err, take, take-length, all, is_empty,
  if◌then◌else◌, ◌==◌, ◌≡◌, ◌⊎◌, inl, inr, refl, arith, ◌∙◌, Bool-cases, Option-cases, subst, ℕ,
  sym, if-elim, Option, none, some, IsSome, slice_to-take, ap, ◌||◌,
}
use crypto_sentinel.Go.Runtime.{Runtime}
use crypto_sentinel.Go.Float64.{f_zero, is_nan, eq}
use crypto_sentinel.Go.Float64.Order.{lt_asymm, not_lt_trans}
use crypto_sentinel.Go.Text.{text, trim_space}
use crypto_sentinel.Go.Decimal.{format_uint}
use crypto_sentinel.Go.Sort.{Sorter, IsSorter, WeakOrder, sorted, IsTop, limit_to}
use crypto_sentinel.Go.Sort.Laws.{limit_to-IsTop, perm-all}
use crypto_sentinel.Go.Chance.{Chance, IsChance}
use crypto_sentinel.Go.Http.{Response, failed, response}
use crypto_sentinel.Go.Http.Laws.{Returns}
use crypto_sentinel.Commands.Shared.{replied, replied-IsSome, decoded-IsSome}
use crypto_sentinel.Commands.Portfolio.{
  BalancesReply, BalancesJson, message_or, max_tokens, snapshot_text, no_holdings, sorted_chains,
  tokens_text, items_text, balances_text, portfolio_reply, balances_url, chains_arg, portfolio_of,
  cmd_portfolio,
}
use crypto_sentinel.Commands.Portfolio.Holdings.{
  Item, TokenHolding, ChainAgg, more_quote, more_value, token_holdings, total_value, chain_totals,
}
use crypto_sentinel.Commands.Portfolio.Laws.{IsTotals, chain_totals-IsTotals}
use crypto_sentinel.Commands.Portfolio.Sums.{
  Adds, numbered, is_positive, lt-not_nan, token_holdings-numbers, nothing_counts,
  chain_totals-positive,
}

-- JSON has no NaN.
pub record SendsBalances (j : BalancesJson) : Type 0 where
  pub numbers :
      (body : Bytes) (d : BalancesReply)
      → j.decode_balances body ≡ ok d
      → all numbered d.items ≡ true

more_value-WeakOrder : WeakOrder more_value is_positive
more_value-WeakOrder = record {
  asymm = λ x y h. lt_asymm y.value x.value h;
  not_trans = λ x y z n p q. not_lt_trans z.value y.value x.value (lt-not_nan f_zero y.value n) q p;
}

more_quote-WeakOrder : WeakOrder more_quote (λ t. not (is_nan t.quote))
more_quote-WeakOrder = record {
  asymm = λ x y h. lt_asymm y.quote x.quote h;
  not_trans = λ x y z n p q. not_lt_trans z.quote y.quote x.quote (ground (arith, n)) q p;
}

max_tokens-limit_to : (ts : List TokenHolding) → take (max_tokens ts) ts ≡ limit_to 5 ts
unfolding limit_to
max_tokens-limit_to ts = ground (arith, take-length ts)

module _ ⦃g : Runtime⦄ where
  -- The report names every chain with the sum of its positive quotes, the largest total first, and the five tokens with
  -- the largest quotes, or all where there are fewer, the largest quote first.
  pub record IsSnapshot (address currency : Bytes) (items : List Item) (t : Bytes) : Type 0 where
    pub chains : List ChainAgg
    pub sums : IsTotals items (chain_totals items [])
    every_chain : Perm chains (chain_totals items [])
    largest_first : sorted more_value chains ≡ true
    pub tokens : List TokenHolding
    pub top : IsTop more_quote 5 (token_holdings items) tokens
    pub printed : t ≡ snapshot_text address currency (total_value f_zero items) chains tokens

  -- What a decoded reply leads to: its error, or that no quote is above zero, or the report.
  abbrev Tells : Bytes → BalancesReply → Bytes → Type 0
  Tells address d t =
      ((d.failed_with ≡ true) × (t ≡ text "❌ Covalent error: " ++ message_or d.error_message))
      ⊎ ((d.failed_with ≡ false)
          × (is_empty (token_holdings d.items) ≡ true)
          × (t ≡ no_holdings address))
      ⊎ ((d.failed_with ≡ false)
          × (is_empty (token_holdings d.items) ≡ false)
          × IsSnapshot address (if is_empty d.quote_currency then text "USD" else d.quote_currency)
              d.items t)

module _ ⦃g : Runtime⦄ ⦃j : BalancesJson⦄ where
  -- There is no fault. An error promises nothing.
  abbrev pub IsPortfolioReport : Bytes → Option (Result Bytes) → Type 0
  IsPortfolioReport address none = ⊥
  IsPortfolioReport address (some (err e)) = Unit
  IsPortfolioReport address (some (ok t)) =
      ((is_empty address ≡ true)
        × (t ≡ text "Wallet address is required.\nExample: portfolio 0x1234...abcd"))
      ⊎ ((status : ℕ) × ((status == 200) ≡ false)
          × (t ≡ text "❌ Error: Covalent status " ++ format_uint status))
      ⊎ ((body : Bytes) × (d : BalancesReply) × (j.decode_balances body ≡ ok d) × Tells address d t)

token_holdings-items :
    (items : List Item) → is_empty (token_holdings items) ≡ false → is_empty items ≡ false
unfolding token_holdings
token_holdings-items [] h = cc
token_holdings-items (it ∷ items) h = refl

module _ ⦃g : Runtime⦄ ⦃s : Sorter⦄ ⦃c : Chance⦄ where
  -- No index is out of range.
  tokens_text-some :
      (address currency : Bytes) (items : List Item) (tokens : List TokenHolding)
      → tokens_text address currency items tokens
        ≡ some (
            snapshot_text address currency
              (total_value f_zero items)
              (sorted_chains items)
              (take (max_tokens tokens) tokens))
  tokens_text-some address currency items tokens =
      ap
        (λ o. elim o [
          | none ↦ none
          | some shown ↦ some (
              snapshot_text address currency (total_value f_zero items) (sorted_chains items) shown)
        ])
        (slice_to-take (max_tokens tokens) tokens (ground arith))

  items_text-IsSome :
      (address currency : Bytes) (items : List Item) → IsSome (items_text address currency items)
  items_text-IsSome address currency items =
      if-elim IsSome (eq (total_value f_zero items) f_zero || is_empty (token_holdings items)) _ _
        tt
        (subst IsSome
          (sym (
            tokens_text-some address (if is_empty currency then text "USD" else currency) items
              (s.sort_slice TokenHolding more_quote (token_holdings items))))
          tt)

  balances_text-IsSome : (address : Bytes) (d : BalancesReply) → IsSome (balances_text address d)
  balances_text-IsSome address d = if-elim IsSome d.failed_with _ _ tt (
      if-elim IsSome (is_empty d.items) _ _ tt (items_text-IsSome address d.quote_currency d.items))

  module _ ⦃j : BalancesJson⦄ where
    portfolio_reply-IsSome : (address : Bytes) (r : Response) → IsSome (portfolio_reply address r)
    portfolio_reply-IsSome address (failed e) = tt
    portfolio_reply-IsSome address (response status body) =
        if-elim IsSome (status == 200) _ _
          (decoded-IsSome (j.decode_balances body)
            (λ e. some (err (text "decode portfolio JSON error: " ++ e)))
            (λ d. replied (balances_text address d)) (λ e. tt)
            (λ d. replied-IsSome (balances_text address d) (balances_text-IsSome address d)))
          tt

    portfolio_of-IsSome :
        (key address : Bytes) (args : List Bytes) → Returns IsSome (portfolio_of key address args)
    portfolio_of-IsSome key address args = if-elim (Returns IsSome) (is_empty address) _ _ tt (
        if-elim (Returns IsSome) (is_empty key) _ _ tt
          (elim (Option-cases (g.request_error (balances_url address (chains_arg args)))) [
            | inr (e, bad) ↦ rw (bad, Returns) tt
            | inl fine ↦ rw (fine, Returns) (λ r. portfolio_reply-IsSome address r)
          ]))

    pub cmd_portfolio-IsSome :
        (key : Bytes) (args : List Bytes) → Returns IsSome (cmd_portfolio key args)
    unfolding cmd_portfolio
    cmd_portfolio-IsSome key [] = tt
    cmd_portfolio-IsSome key (arg ∷ args) = portfolio_of-IsSome key (trim_space arg) args

module _ ⦃g : Runtime⦄ (adds : Adds g) ⦃s : Sorter⦄ (laws : IsSorter s) ⦃c : Chance⦄
    (chance : IsChance c) where
  items_text-IsSnapshot :
      (address currency : Bytes) (items : List Item)
      → all numbered items ≡ true
      → let tokens = s.sort_slice TokenHolding more_quote (token_holdings items) in
        IsSnapshot address currency items (
          snapshot_text address currency
            (total_value f_zero items)
            (sorted_chains items)
            (take (max_tokens tokens) tokens))
  items_text-IsSnapshot address currency items n =
      let totals = chain_totals items [] in
      let shuffled : List ChainAgg = c.reorder ChainAgg totals in
      let moved = chance.perm ChainAgg totals in
      let tokens = s.sort_slice TokenHolding more_quote (token_holdings items) in
      record {
        chains = sorted_chains items;
        sums = chain_totals-IsTotals items;
        every_chain = Perm.trans (laws.perm ChainAgg more_value shuffled) moved;
        largest_first =
            laws.in_order ChainAgg more_value is_positive shuffled more_value-WeakOrder
              (perm-all is_positive moved ∙ chain_totals-positive adds items [] n refl);
        tokens = take (max_tokens tokens) tokens;
        top = subst (IsTop more_quote 5 (token_holdings items)) (sym (max_tokens-limit_to tokens)) (
            limit_to-IsTop laws more_quote _ 5 (token_holdings items) more_quote-WeakOrder
              (token_holdings-numbers items n));
        printed = refl;
      }

  balances_text-Tells :
      (address : Bytes) (d : BalancesReply)
      → all numbered d.items ≡ true
      → (t : Bytes) × (balances_text address d ≡ some t) × Tells address d t
  balances_text-Tells address d n = elim (Bool-cases d.failed_with) [
    | inl bad ↦ (_, rw bad refl, inl (bad, refl))
    | inr fine ↦ elim (Bool-cases (is_empty (token_holdings d.items))) [
      | inl bare ↦ (
        no_holdings address,
        rw fine (
            if-elim (λ t. t ≡ some (no_holdings address)) (is_empty d.items) _ _ refl
              (rw (nothing_counts adds d.items n) (rw bare refl))),
        inr (inl (fine, bare, refl)),
      )
      | inr some_left ↦
          let items_left = token_holdings-items d.items some_left in
          let currency : Bytes =
            if is_empty d.quote_currency then text "USD" else d.quote_currency in
          (
            _,
            rw fine (
                rw items_left (
                  rw (nothing_counts adds d.items n)
                    (rw some_left (tokens_text-some address currency d.items _)))),
            inr (inr (fine, some_left, items_text-IsSnapshot address currency d.items n)),
          )
    ]
  ]

  module _ ⦃j : BalancesJson⦄ (feed : SendsBalances j) where
    decoded-IsPortfolioReport :
        (address body : Bytes) (r : Result BalancesReply)
        → j.decode_balances body ≡ r
        → IsPortfolioReport address (elim r [
          | err e ↦ some (err (text "decode portfolio JSON error: " ++ e))
          | ok d ↦ replied (balances_text address d)
        ])
    decoded-IsPortfolioReport address body (err m) e = tt
    decoded-IsPortfolioReport address body (ok d) e =
        let (t, same, tells) = balances_text-Tells address d (feed.numbers body d e) in
        rw same (inr (inr (body, d, e, tells)))

    portfolio_reply-IsPortfolioReport :
        (address : Bytes) (r : Response) → IsPortfolioReport address (portfolio_reply address r)
    portfolio_reply-IsPortfolioReport address (failed e) = tt
    portfolio_reply-IsPortfolioReport address (response status body) =
        elim (Bool-cases (status == 200)) [
          | inr bad ↦ rw bad (inr (inl (status, bad, refl)))
          | inl good ↦
              rw good (decoded-IsPortfolioReport address body (j.decode_balances body) refl)
        ]

    asked-IsPortfolioReport :
        (key address : Bytes) (args : List Bytes)
        → Returns (IsPortfolioReport address) (portfolio_of key address args)
    asked-IsPortfolioReport key address args = elim (Bool-cases (is_empty address)) [
      | inl bare ↦ rw bare (inl (bare, refl))
      | inr named ↦ rw named (
          if-elim (Returns (IsPortfolioReport address)) (is_empty key) _ _ tt
            (elim (Option-cases (g.request_error (balances_url address (chains_arg args)))) [
              | inr (e, bad) ↦ rw (bad, Returns) tt
              | inl fine ↦ rw (fine, Returns) (λ r. portfolio_reply-IsPortfolioReport address r)
            ]))
    ]

    -- If sums of positive numbers are positive, the sort sorts, a map is visited in some order and
    -- no quote is a NaN: portfolio with an address fails, or asks for an address if that is blank,
    -- or tells the status of a reply that is not 200; or it tells what comes of a decoded reply:
    -- the error in it, or that no quote in it is above zero, or the report, which names every
    -- chain with the sum of its positive quotes, the largest first, and the five tokens with the
    -- largest quotes, or all where there are fewer, the largest first, none of the others larger.
    pub cmd_portfolio-IsPortfolioReport :
        (key arg : Bytes) (args : List Bytes)
        → Returns (IsPortfolioReport (trim_space arg)) (cmd_portfolio key (arg ∷ args))
    unfolding cmd_portfolio
    cmd_portfolio-IsPortfolioReport key arg args = asked-IsPortfolioReport key (trim_space arg) args
