-- ===== src/Clients/Cex/Coinbase.antt =====
-- internal/clients/cex.go: Coinbase, with a request for each of twelve products.
use crypto_sentinel.Prelude.{
  ℕ, not, ◌||◌, List, Option, none, some, Bytes, Result, ok, err, ◌==◌, if◌then◌else◌, ◌++◌, [],
  ◌∷◌,
}
use crypto_sentinel.Go.Runtime.{Runtime}
use crypto_sentinel.Go.Float64.{f_zero, le, ge}
use crypto_sentinel.Go.Text.{text}
use crypto_sentinel.Go.Sort.{Sorter}
use crypto_sentinel.Go.Http.{Response, failed, response, Prog, done, send}
use crypto_sentinel.Models.{CexGainer}
use crypto_sentinel.Clients.Wire.{CoinbaseStats, CexJson}
use crypto_sentinel.Clients.Cex.Ranking.{
  plain, gainer, change_of, top_gainers, top_losers, or_no_data,
}

abbrev pub product_ids : List Bytes
product_ids =
    text "BTC-USD"
    ∷ text "ETH-USD"
    ∷ text "SOL-USD"
    ∷ text "XRP-USD"
    ∷ text "DOGE-USD"
    ∷ text "ADA-USD"
    ∷ text "AVAX-USD"
    ∷ text "LINK-USD"
    ∷ text "MATIC-USD"
    ∷ text "LTC-USD"
    ∷ text "BCH-USD"
    ∷ text "TON-USD"
    ∷ []

-- list = append(list, …), or not
abbrev pub append_some : List CexGainer → Option CexGainer → List CexGainer
append_some list none = list
append_some list (some x) = list ++ x ∷ []

abbrev stats_request : Bytes → Bytes
stats_request pid = text "https://api.exchange.coinbase.com/products/" ++ pid ++ text "/stats"

module _ ⦃g : Runtime⦄ where
  unfoldable pub coinbase_gainer : Bytes → CoinbaseStats → Option CexGainer
  coinbase_gainer pid st =
      let first = g.parse_float st.open_price in
      let last = g.parse_float st.last in
      if not first.valid || (not last.valid || le first.value f_zero)
      then none
      else some (gainer (text "coinbase") pid last.value (change_of first.value last.value))

  unfoldable pub coinbase_loser : Bytes → CoinbaseStats → Option CexGainer
  coinbase_loser pid st =
      let first = g.parse_float st.open_price in
      let last = g.parse_float st.last in
      let chg = change_of first.value last.value in
      if not first.valid || (not last.valid || le first.value f_zero)
      then none
      else if ge chg f_zero
      then none
      else some (gainer (text "coinbase") pid last.value chg)

  module _ ⦃j : CexJson⦄ where
    -- The body of the loop behind the request: errors and other statuses skip the product.
    abbrev pub stats_of : (CoinbaseStats → Option CexGainer) → Response → Option CexGainer
    stats_of row (failed e) = none
    stats_of row (response status body) =
        if status == 200
        then elim (j.decode_coinbase body) [ err e ↦ none | ok st ↦ row st ]
        else none

    -- `for _, pid := range productIDs`, with `list` so far, and what follows the loop.
    unfoldable pub coinbase_loop :
        (Bytes → CoinbaseStats → Option CexGainer)
        → List Bytes
        → List CexGainer
        → (List CexGainer → Result (List CexGainer))
        → Prog (Result (List CexGainer))
    coinbase_loop row [] list finish = done (finish list)
    coinbase_loop row (pid ∷ pids) list finish =
        send (plain (stats_request pid))
          λ r. coinbase_loop row pids (append_some list (stats_of (row pid) r)) finish

    module _ ⦃s : Sorter⦄ where
      unfoldable pub fetch_coinbase_gainers : ℕ → Prog (Result (List CexGainer))
      unfolding coinbase_loop coinbase_gainer
      fetch_coinbase_gainers limit =
          coinbase_loop coinbase_gainer product_ids []
            (or_no_data (text "no coinbase data") (top_gainers limit))

      unfoldable pub fetch_coinbase_losers : ℕ → Prog (Result (List CexGainer))
      unfolding coinbase_loop coinbase_loser
      fetch_coinbase_losers limit =
          coinbase_loop coinbase_loser product_ids []
            (or_no_data (text "no coinbase losers data") (top_losers limit))
