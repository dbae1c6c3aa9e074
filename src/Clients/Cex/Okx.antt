-- ===== src/Clients/Cex/Okx.antt =====
-- internal/clients/cex.go: OKX. Its client does not look at the HTTP status, and has no error for
-- an empty list of gainers.
use crypto_sentinel.Prelude.{
  ℕ, not, ◌||◌, List, Option, none, some, Result, ok, err, filter_map, if◌then◌else◌,
}
use crypto_sentinel.Go.Runtime.{Runtime}
use crypto_sentinel.Go.Float64.{f_zero, le, ge}
use crypto_sentinel.Go.Text.{text, has_suffix}
use crypto_sentinel.Go.Sort.{Sorter}
use crypto_sentinel.Go.Http.{Response, failed, response, Prog, done, send}
use crypto_sentinel.Models.{CexGainer}
use crypto_sentinel.Clients.Wire.{OkxRow, CexJson}
use crypto_sentinel.Clients.Cex.Ranking.{
  plain, gainer, change_of, top_gainers, top_losers, or_no_data,
}

module _ ⦃g : Runtime⦄ where
  -- A round of the loop; `none` is `continue`.
  unfoldable pub okx_gainer : OkxRow → Option CexGainer
  okx_gainer t =
      let last = g.parse_float t.last in
      let first = g.parse_float t.open24 in
      if not (has_suffix t.inst_id (text "-USDT"))
      then none
      else if not last.valid || (not first.valid || le first.value f_zero)
      then none
      else some (gainer (text "okx") t.inst_id last.value (change_of first.value last.value))

  unfoldable pub okx_loser : OkxRow → Option CexGainer
  okx_loser t =
      let last = g.parse_float t.last in
      let first = g.parse_float t.open24 in
      let chg = change_of first.value last.value in
      if not (has_suffix t.inst_id (text "-USDT"))
      then none
      else if not last.valid || (not first.valid || le first.value f_zero)
      then none
      else if ge chg f_zero
      then none
      else some (gainer (text "okx") t.inst_id last.value chg)

  module _ ⦃s : Sorter⦄ ⦃j : CexJson⦄ where
    unfoldable pub okx_gainers_of : ℕ → Response → Result (List CexGainer)
    unfolding okx_gainer
    okx_gainers_of limit (failed e) = err e
    okx_gainers_of limit (response status body) = elim (j.decode_okx body) [
      | err e ↦ err e
      | ok rows ↦ ok (top_gainers limit (filter_map okx_gainer rows))
    ]

    unfoldable pub okx_losers_of : ℕ → Response → Result (List CexGainer)
    unfolding okx_loser
    okx_losers_of limit (failed e) = err e
    okx_losers_of limit (response status body) = elim (j.decode_okx body) [
      | err e ↦ err e
      | ok rows ↦
          or_no_data (text "no okx losers data") (top_losers limit) (filter_map okx_loser rows)
    ]

    unfoldable pub fetch_okx_gainers : ℕ → Prog (Result (List CexGainer))
    unfolding okx_gainers_of
    fetch_okx_gainers limit =
        send (plain (text "https://www.okx.com/api/v5/market/tickers?instType=SPOT"))
          λ r. done (okx_gainers_of limit r)

    unfoldable pub fetch_okx_losers : ℕ → Prog (Result (List CexGainer))
    unfolding okx_losers_of
    fetch_okx_losers limit =
        send (plain (text "https://www.okx.com/api/v5/market/tickers?instType=SPOT"))
          λ r. done (okx_losers_of limit r)
