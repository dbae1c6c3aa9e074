-- ===== src/Clients/Cex/Bybit.antt =====
-- internal/clients/cex.go: Bybit.
use crypto_sentinel.Prelude.{
  ℕ, not, ◌||◌, List, Option, none, some, Result, ok, err, filter_map, ◌==◌, if◌then◌else◌, ◌++◌,
}
use crypto_sentinel.Go.Runtime.{Runtime}
use crypto_sentinel.Go.Float64.{f_zero, f_hundred, ge}
use crypto_sentinel.Go.Text.{text, has_suffix}
use crypto_sentinel.Go.Decimal.{format_uint}
use crypto_sentinel.Go.Sort.{Sorter}
use crypto_sentinel.Go.Http.{Response, failed, response, Prog, done, send}
use crypto_sentinel.Models.{CexGainer}
use crypto_sentinel.Clients.Wire.{BybitRow, CexJson}
use crypto_sentinel.Clients.Cex.Ranking.{plain, gainer, top_gainers, top_losers, or_no_data}

module _ ⦃g : Runtime⦄ where
  -- A round of the loop; `none` is `continue`.
  unfoldable pub bybit_gainer : BybitRow → Option CexGainer
  bybit_gainer t =
      let last = g.parse_float t.last_price in
      let pcnt = g.parse_float t.price24h_pcnt in
      if not (has_suffix t.symbol (text "USDT"))
      then none
      else if not last.valid || not pcnt.valid
      then none
      else some (gainer (text "bybit") t.symbol last.value (g.mul pcnt.value f_hundred))

  unfoldable pub bybit_loser : BybitRow → Option CexGainer
  bybit_loser t =
      let last = g.parse_float t.last_price in
      let pcnt = g.parse_float t.price24h_pcnt in
      let chg = g.mul pcnt.value f_hundred in
      if not (has_suffix t.symbol (text "USDT"))
      then none
      else if not last.valid || not pcnt.valid
      then none
      else if ge chg f_zero
      then none
      else some (gainer (text "bybit") t.symbol last.value chg)

  module _ ⦃s : Sorter⦄ ⦃j : CexJson⦄ where
    unfoldable pub bybit_gainers_of : ℕ → Response → Result (List CexGainer)
    unfolding bybit_gainer
    bybit_gainers_of limit (failed e) = err e
    bybit_gainers_of limit (response status body) =
        if status == 200
        then elim (j.decode_bybit body) [
          | err e ↦ err e
          | ok rows ↦
              or_no_data (text "no bybit data") (top_gainers limit) (filter_map bybit_gainer rows)
        ]
        else err (text "bybit status: " ++ format_uint status)

    unfoldable pub bybit_losers_of : ℕ → Response → Result (List CexGainer)
    unfolding bybit_loser
    bybit_losers_of limit (failed e) = err e
    bybit_losers_of limit (response status body) =
        if status == 200
        then elim (j.decode_bybit body) [
          | err e ↦ err e
          | ok rows ↦
              or_no_data (text "no bybit losers data") (top_losers limit)
                (filter_map bybit_loser rows)
        ]
        else err (text "bybit status: " ++ format_uint status)

    unfoldable pub fetch_bybit_gainers : ℕ → Prog (Result (List CexGainer))
    unfolding bybit_gainers_of
    fetch_bybit_gainers limit =
        send (plain (text "https://api.bybit.com/v5/market/tickers?category=spot"))
          λ r. done (bybit_gainers_of limit r)

    unfoldable pub fetch_bybit_losers : ℕ → Prog (Result (List CexGainer))
    unfolding bybit_losers_of
    fetch_bybit_losers limit =
        send (plain (text "https://api.bybit.com/v5/market/tickers?category=spot"))
          λ r. done (bybit_losers_of limit r)
