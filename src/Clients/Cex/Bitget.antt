-- ===== src/Clients/Cex/Bitget.antt =====
-- internal/clients/cex.go: Bitget. Its client looks at a code in the body in place of the HTTP
-- status, and has no error for an empty list of gainers.
use crypto_sentinel.Prelude.{
  ℕ, not, ◌||◌, List, Option, none, some, Bytes, Result, ok, err, filter_map, if◌then◌else◌, ◌++◌,
}
use crypto_sentinel.Go.Runtime.{Runtime}
use crypto_sentinel.Go.Float64.{f_zero, le, ge, is_nan}
use crypto_sentinel.Go.Text.{text, has_suffix, beq}
use crypto_sentinel.Go.Sort.{Sorter}
use crypto_sentinel.Go.Http.{Response, failed, response, Prog, done, send}
use crypto_sentinel.Models.{CexGainer}
use crypto_sentinel.Clients.Wire.{BitgetRow, BitgetReply, CexJson}
use crypto_sentinel.Clients.Cex.Ranking.{
  plain, gainer, change_of, top_gainers, top_losers, or_no_data,
}

module _ ⦃g : Runtime⦄ where
  -- A round of the loop; `none` is `continue`.
  unfoldable pub bitget_gainer : BitgetRow → Option CexGainer
  bitget_gainer t =
      let first = g.parse_float t.open_price in
      let last = g.parse_float t.last_pr in
      if not (has_suffix t.symbol (text "USDT"))
      then none
      else if not first.valid || (not last.valid || (le first.value f_zero || is_nan first.value))
      then none
      else some (gainer (text "bitget") t.symbol last.value (change_of first.value last.value))

  unfoldable pub bitget_loser : BitgetRow → Option CexGainer
  bitget_loser t =
      let first = g.parse_float t.open_price in
      let last = g.parse_float t.last_pr in
      let chg = change_of first.value last.value in
      if not (has_suffix t.symbol (text "USDT"))
      then none
      else if not first.valid || (not last.valid || (le first.value f_zero || is_nan first.value))
      then none
      else if ge chg f_zero
      then none
      else some (gainer (text "bitget") t.symbol last.value chg)

  -- data.Code != "00000"
  abbrev bitget_error : BitgetReply → Bytes
  bitget_error reply = text "bitget error: " ++ reply.code ++ text " " ++ reply.msg

  module _ ⦃s : Sorter⦄ ⦃j : CexJson⦄ where
    unfoldable pub bitget_gainers_of : ℕ → Response → Result (List CexGainer)
    unfolding bitget_gainer
    bitget_gainers_of limit (failed e) = err e
    bitget_gainers_of limit (response status body) = elim (j.decode_bitget body) [
      | err e ↦ err e
      | ok reply ↦
          if beq reply.code (text "00000")
          then ok (top_gainers limit (filter_map bitget_gainer reply.rows))
          else err (bitget_error reply)
    ]

    unfoldable pub bitget_losers_of : ℕ → Response → Result (List CexGainer)
    unfolding bitget_loser
    bitget_losers_of limit (failed e) = err e
    bitget_losers_of limit (response status body) = elim (j.decode_bitget body) [
      | err e ↦ err e
      | ok reply ↦
          if beq reply.code (text "00000")
          then or_no_data (text "no bitget losers data") (top_losers limit)
              (filter_map bitget_loser reply.rows)
          else err (bitget_error reply)
    ]

    unfoldable pub fetch_bitget_gainers : ℕ → Prog (Result (List CexGainer))
    unfolding bitget_gainers_of
    fetch_bitget_gainers limit =
        send (plain (text "https://api.bitget.com/api/v2/spot/market/tickers"))
          λ r. done (bitget_gainers_of limit r)

    unfoldable pub fetch_bitget_losers : ℕ → Prog (Result (List CexGainer))
    unfolding bitget_losers_of
    fetch_bitget_losers limit =
        send (plain (text "https://api.bitget.com/api/v2/spot/market/tickers"))
          λ r. done (bitget_losers_of limit r)
