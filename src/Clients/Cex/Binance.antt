-- ===== src/Clients/Cex/Binance.antt =====
-- internal/clients/cex.go: Binance.
use crypto_sentinel.Prelude.{
  ℕ, not, ◌||◌, List, Option, none, some, Result, ok, err, filter_map, ◌==◌, if◌then◌else◌, ◌++◌,
}
use crypto_sentinel.Go.Runtime.{Runtime}
use crypto_sentinel.Go.Float64.{f_zero, ge}
use crypto_sentinel.Go.Text.{text, has_suffix}
use crypto_sentinel.Go.Decimal.{format_uint}
use crypto_sentinel.Go.Sort.{Sorter}
use crypto_sentinel.Go.Http.{Response, failed, response, Prog, done, send}
use crypto_sentinel.Models.{CexGainer}
use crypto_sentinel.Clients.Wire.{TickerRow, CexJson}
use crypto_sentinel.Clients.Cex.Ranking.{plain, gainer, top_gainers, top_losers, or_no_data}

module _ ⦃g : Runtime⦄ where
  -- A round of the loop; `none` is `continue`.
  unfoldable pub binance_gainer : TickerRow → Option CexGainer
  binance_gainer t =
      let price = g.parse_float t.last_price in
      let chg = g.parse_float t.price_change_percent in
      if not (has_suffix t.symbol (text "USDT"))
      then none
      else if not price.valid || not chg.valid
      then none
      else some (gainer (text "binance") t.symbol price.value chg.value)

  unfoldable pub binance_loser : TickerRow → Option CexGainer
  binance_loser t =
      let price = g.parse_float t.last_price in
      let chg = g.parse_float t.price_change_percent in
      if not (has_suffix t.symbol (text "USDT"))
      then none
      else if not price.valid || not chg.valid
      then none
      else if ge chg.value f_zero
      then none
      else some (gainer (text "binance") t.symbol price.value chg.value)

  module _ ⦃s : Sorter⦄ ⦃j : CexJson⦄ where
    unfoldable pub binance_gainers_of : ℕ → Response → Result (List CexGainer)
    unfolding binance_gainer
    binance_gainers_of limit (failed e) = err e
    binance_gainers_of limit (response status body) =
        if status == 200
        then elim (j.decode_tickers body) [
          | err e ↦ err e
          | ok arr ↦
              or_no_data (text "no binance data") (top_gainers limit)
                (filter_map binance_gainer arr)
        ]
        else err (text "binance status: " ++ format_uint status)

    unfoldable pub binance_losers_of : ℕ → Response → Result (List CexGainer)
    unfolding binance_loser
    binance_losers_of limit (failed e) = err e
    binance_losers_of limit (response status body) =
        if status == 200
        then elim (j.decode_tickers body) [
          | err e ↦ err e
          | ok arr ↦
              or_no_data (text "no binance losers data") (top_losers limit)
                (filter_map binance_loser arr)
        ]
        else err (text "binance status: " ++ format_uint status)

    unfoldable pub fetch_binance_gainers : ℕ → Prog (Result (List CexGainer))
    unfolding binance_gainers_of
    fetch_binance_gainers limit =
        send (plain (text "https://api.binance.com/api/v3/ticker/24hr"))
          λ r. done (binance_gainers_of limit r)

    unfoldable pub fetch_binance_losers : ℕ → Prog (Result (List CexGainer))
    unfolding binance_losers_of
    fetch_binance_losers limit =
        send (plain (text "https://api.binance.com/api/v3/ticker/24hr"))
          λ r. done (binance_losers_of limit r)
