-- ===== src/Commands/Movers.antt =====
-- internal/commands/gainers.go and losers.go: the coins among the top 100 that moved most.
pub mod Laws
use crypto_sentinel.Prelude.{
  ℕ, suc, Bool, List, [], ◌∷◌, ◌++◌, Bytes, Result, ok, err, Option, none, some, length, slice_to,
  ltb, ◌==◌, is_empty, if◌then◌else◌,
}
use crypto_sentinel.Go.Runtime.{Runtime}
use crypto_sentinel.Go.Float64.{Float64, lt, gt}
use crypto_sentinel.Go.Text.{text, to_upper}
use crypto_sentinel.Go.Decimal.{format_uint}
use crypto_sentinel.Go.Sort.{Sorter}
use crypto_sentinel.Go.Http.{Request, Response, failed, response, Prog, done, send}
use crypto_sentinel.Services.Format.{format_float, int_comma}
use crypto_sentinel.Clients.Coingecko.{from_agent}
use crypto_sentinel.Commands.Shared.{limit_of, replied}

pub record Coin : Type 0 where
  pub name : Bytes
  pub symbol : Bytes
  pub price : Float64
  pub mcap : Float64
  pub change : Float64

-- json.NewDecoder(resp.Body).Decode(&arr)
pub record MoversJson : Type 0 where
  pub decode_coins : Bytes → Result (List Coin)

abbrev pub coin_rises_more : Coin → Coin → Bool
coin_rises_more a b = gt a.change b.change

abbrev pub coin_falls_more : Coin → Coin → Bool
coin_falls_more a b = lt a.change b.change

abbrev movers_request : Request
movers_request = from_agent (
    text "https://api.coingecko.com/api/v3/coins/markets?vs_currency=usd&order=market_cap_desc"
    ++ text "&per_page=100&page=1&sparkline=false&price_change_percentage=24h")

-- if len(arr) < limit { limit = len(arr) }
unfoldable pub cut_limit : ℕ → List Coin → ℕ
cut_limit limit arr = if ltb (length arr) limit then length arr else limit

module _ ⦃g : Runtime⦄ where
  abbrev coin_rows : ℕ → List Coin → Bytes
  coin_rows i [] = []
  coin_rows i (c ∷ cs) =
      format_uint (suc i)
      ++ text ") "
      ++ c.name
      ++ text " ("
      ++ to_upper c.symbol
      ++ text ") — $"
      ++ format_float c.price
      ++ text " | 24h: "
      ++ format_float c.change
      ++ text "% | Mcap: $"
      ++ int_comma (g.to_int64 c.mcap)
      ++ text "\n"
      ++ coin_rows (suc i) cs

  -- The report on the `n` coins `shown`; `what` is "gainers" or "losers".
  abbrev pub board_text : Bytes → ℕ → List Coin → Bytes
  board_text what n shown =
      text "Top "
      ++ format_uint n
      ++ text " daily "
      ++ what
      ++ text " (among top 100 by market cap):\n"
      ++ coin_rows 0 shown

  -- for i := 0; i < n; i++ { c := arr[i] … }; `none` is an index out of range.
  abbrev pub board : Bytes → ℕ → List Coin → Option Bytes
  board what n arr = elim (slice_to n arr) [
    | none ↦ none
    | some shown ↦ some (board_text what n shown)
  ]

  module _ ⦃s : Sorter⦄ ⦃j : MoversJson⦄ where
    abbrev pub gainers_board : ℕ → List Coin → Option Bytes
    gainers_board limit arr =
        if is_empty arr
        then some (text "No data for gainers.")
        else (let sorted = s.sort_slice Coin coin_rises_more arr in
            board (text "gainers") (cut_limit limit sorted) sorted)

    abbrev pub losers_board : ℕ → List Coin → Option Bytes
    losers_board limit arr =
        let sorted = s.sort_slice Coin coin_falls_more arr in
        board (text "losers") (cut_limit limit sorted) sorted

    -- What both make of the response.
    abbrev pub board_of : (List Coin → Option Bytes) → Response → Option (Result Bytes)
    board_of f (failed e) = some (err (text "coingecko request error: " ++ e))
    board_of f (response status body) =
        if status == 200
        then elim (j.decode_coins body) [
          | err e ↦ some (err (text "decode error: " ++ e))
          | ok arr ↦ replied (f arr)
        ]
        else some (err (text "coingecko status: " ++ format_uint status))

    -- The clamps of CmdGainers behind the choice of the limit.
    abbrev pub clamped : ℕ → ℕ
    clamped limit = let low = if limit == 0 then 10 else limit in if ltb 50 low then 50 else low

    unfoldable pub cmd_gainers : List Bytes → Prog (Option (Result Bytes))
    unfolding cut_limit limit_of
    cmd_gainers args =
        send movers_request λ r. done (board_of (gainers_board (clamped (limit_of 10 args))) r)

    unfoldable pub cmd_losers : List Bytes → Prog (Option (Result Bytes))
    unfolding cut_limit limit_of
    cmd_losers args = send movers_request λ r. done (board_of (losers_board (limit_of 10 args)) r)
