-- ===== src/Clients/Cex/Kucoin.antt =====
-- internal/clients/cex.go: KuCoin. Its client does not look at the HTTP status, has no error for an
-- empty list of gainers, and does not look at the errors of `ParseFloat` among the gainers.
use crypto_sentinel.Prelude.{
  ℕ, not, List, Option, none, some, Result, ok, err, filter_map, if◌then◌else◌,
}
use crypto_sentinel.Go.Runtime.{Runtime}
use crypto_sentinel.Go.Float64.{f_zero, f_hundred, ge}
use crypto_sentinel.Go.Text.{text, contains}
use crypto_sentinel.Go.Sort.{Sorter}
use crypto_sentinel.Go.Http.{Response, failed, response, Prog, done, send}
use crypto_sentinel.Models.{CexGainer}
use crypto_sentinel.Clients.Wire.{KucoinRow, CexJson}
use crypto_sentinel.Clients.Cex.Ranking.{plain, gainer, top_gainers, top_losers, or_no_data}

module _ ⦃g : Runtime⦄ where
  -- A round of the loop; `none` is `continue`.
  unfoldable pub kucoin_gainer : KucoinRow → Option CexGainer
  kucoin_gainer t =
      let last = g.parse_float t.last in
      let rate = g.parse_float t.change_pt in
      if not (contains t.symbol (text "-USDT"))
      then none
      else some (gainer (text "kucoin") t.symbol last.value (g.mul rate.value f_hundred))

  unfoldable pub kucoin_loser : KucoinRow → Option CexGainer
  kucoin_loser t =
      let last = g.parse_float t.last in
      let rate = g.parse_float t.change_pt in
      let chg = g.mul rate.value f_hundred in
      if not (contains t.symbol (text "-USDT"))
      then none
      else if not last.valid
      then none
      else if not rate.valid
      then none
      else if ge chg f_zero
      then none
      else some (gainer (text "kucoin") t.symbol last.value chg)

  module _ ⦃s : Sorter⦄ ⦃j : CexJson⦄ where
    unfoldable pub kucoin_gainers_of : ℕ → Response → Result (List CexGainer)
    unfolding kucoin_gainer
    kucoin_gainers_of limit (failed e) = err e
    kucoin_gainers_of limit (response status body) = elim (j.decode_kucoin body) [
      | err e ↦ err e
      | ok rows ↦ ok (top_gainers limit (filter_map kucoin_gainer rows))
    ]

    unfoldable pub kucoin_losers_of : ℕ → Response → Result (List CexGainer)
    unfolding kucoin_loser
    kucoin_losers_of limit (failed e) = err e
    kucoin_losers_of limit (response status body) = elim (j.decode_kucoin body) [
      | err e ↦ err e
      | ok rows ↦
          or_no_data (text "no kucoin losers data") (top_losers limit)
            (filter_map kucoin_loser rows)
    ]

    unfoldable pub fetch_kucoin_gainers : ℕ → Prog (Result (List CexGainer))
    unfolding kucoin_gainers_of
    fetch_kucoin_gainers limit =
        send (plain (text "https://api.kucoin.com/api/v1/market/allTickers"))
          λ r. done (kucoin_gainers_of limit r)

    unfoldable pub fetch_kucoin_losers : ℕ → Prog (Result (List CexGainer))
    unfolding kucoin_losers_of
    fetch_kucoin_losers limit =
        send (plain (text "https://api.kucoin.com/api/v1/market/allTickers"))
          λ r. done (kucoin_losers_of limit r)
