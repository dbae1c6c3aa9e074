-- ===== src/Clients/Cex/Mexc.antt =====
-- internal/clients/cex.go: MEXC, whose client does not look at the HTTP status.
use crypto_sentinel.Prelude.{
  ℕ, not, ◌||◌, List, Option, none, some, Result, ok, err, filter_map, if◌then◌else◌,
}
use crypto_sentinel.Go.Runtime.{Runtime}
use crypto_sentinel.Go.Float64.{f_zero, ge}
use crypto_sentinel.Go.Text.{text, has_suffix}
use crypto_sentinel.Go.Sort.{Sorter}
use crypto_sentinel.Go.Http.{Response, failed, response, Prog, done, send}
use crypto_sentinel.Models.{CexGainer}
use crypto_sentinel.Clients.Wire.{TickerRow, CexJson}
use crypto_sentinel.Clients.Cex.Ranking.{plain, gainer, top_gainers, top_losers, or_no_data}

module _ ⦃g : Runtime⦄ where
  -- A round of the loop; `none` is `continue`.
  unfoldable pub mexc_gainer : TickerRow → Option CexGainer
  mexc_gainer t =
      let price = g.parse_float t.last_price in
      let chg = g.parse_float t.price_change_percent in
      if not (has_suffix t.symbol (text "USDT"))
      then none
      else if not price.valid || not chg.valid
      then none
      else some (gainer (text "mexc") t.symbol price.value chg.value)

  unfoldable pub mexc_loser : TickerRow → Option CexGainer
  mexc_loser t =
      let price = g.parse_float t.last_price in
      let chg = g.parse_float t.price_change_percent in
      if not (has_suffix t.symbol (text "USDT"))
      then none
      else if not price.valid || not chg.valid
      then none
      else if ge chg.value f_zero
      then none
      else some (gainer (text "mexc") t.symbol price.value chg.value)

  module _ ⦃s : Sorter⦄ ⦃j : CexJson⦄ where
    unfoldable pub mexc_gainers_of : ℕ → Response → Result (List CexGainer)
    unfolding mexc_gainer
    mexc_gainers_of limit (failed e) = err e
    mexc_gainers_of limit (response status body) = elim (j.decode_tickers body) [
      | err e ↦ err e
      | ok arr ↦ or_no_data (text "no mexc data") (top_gainers limit) (filter_map mexc_gainer arr)
    ]

    unfoldable pub mexc_losers_of : ℕ → Response → Result (List CexGainer)
    unfolding mexc_loser
    mexc_losers_of limit (failed e) = err e
    mexc_losers_of limit (response status body) = elim (j.decode_tickers body) [
      | err e ↦ err e
      | ok arr ↦
          or_no_data (text "no mexc losers data") (top_losers limit) (filter_map mexc_loser arr)
    ]

    unfoldable pub fetch_mexc_gainers : ℕ → Prog (Result (List CexGainer))
    unfolding mexc_gainers_of
    fetch_mexc_gainers limit =
        send (plain (text "https://api.mexc.com/api/v3/ticker/24hr"))
          λ r. done (mexc_gainers_of limit r)

    unfoldable pub fetch_mexc_losers : ℕ → Prog (Result (List CexGainer))
    unfolding mexc_losers_of
    fetch_mexc_losers limit =
        send (plain (text "https://api.mexc.com/api/v3/ticker/24hr"))
          λ r. done (mexc_losers_of limit r)
