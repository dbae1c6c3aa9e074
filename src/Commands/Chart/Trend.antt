-- ===== src/Commands/Chart/Trend.antt =====
-- internal/commands/trend.go
pub mod Laws
pub mod Report
use crypto_sentinel.Prelude.{
  ℕ, zero, suc, ◌+◌, ◌-◌, ◌*◌, ◌/◌, ◌&&◌, List, [], ◌∷◌, ◌++◌, Option, none, some, Bytes, Result,
  ok, length, get_elem?, ltb, ◌==◌, if◌then◌else◌,
}
use crypto_sentinel.Go.Runtime.{Runtime}
use crypto_sentinel.Go.Float64.{Float64, f_zero, lt, gt}
use crypto_sentinel.Go.Text.{text, to_upper}
use crypto_sentinel.Go.Http.{Prog, done}
use crypto_sentinel.Models.{CoinMarket}
use crypto_sentinel.Services.Format.{format_float}
use crypto_sentinel.Clients.Coingecko.Replies.{CoinJson}
use crypto_sentinel.Commands.Shared.{replied}
use crypto_sentinel.Commands.Price.{resolve_or_say, market_or_say}
use crypto_sentinel.Commands.Chart.{ChartJson, with_chart}

-- The window of trailingAvg: k within 1 and n.
unfoldable pub window : ℕ → ℕ → ℕ
window n k = let k' = if k == 0 then 1 else k in if ltb n k' then n else k'

pub data Bias : Type 0 where
  bullish bearish sideways : Bias

unfoldable bias_of : Float64 → Float64 → Float64 → Bias
bias_of ma7 ma30 ma90 =
    if gt ma7 ma30 && gt ma30 ma90
    then bullish
    else if lt ma7 ma30 && lt ma30 ma90
    then bearish
    else sideways

abbrev bias_text : Bias → Bytes
bias_text bullish = text "Bullish 📈"
bias_text bearish = text "Bearish 📉"
bias_text sideways = text "Sideways / Mixed"

abbrev interpretation : Bias → Bytes
interpretation bullish =
    text "Short-term price is above mid and long-term averages, "
    ++ text "indicating an ongoing uptrend."
interpretation bearish =
    text "Short-term price is below mid and long-term averages, "
    ++ text "indicating a sustained downtrend."
interpretation sideways =
    text "Short, mid, and long-term averages are not clearly aligned. "
    ++ text "Price may be ranging or transitioning."

module _ ⦃g : Runtime⦄ where
  -- The loop of trailingAvg: `rounds` are left, and `i` is the index; `none` is an index out of
  -- range.
  unfoldable pub sum_from : ℕ → ℕ → Float64 → List Float64 → Option Float64
  sum_from zero i sum prices = some sum
  sum_from (suc rounds) i sum prices = elim (get_elem? prices i) [
    | none ↦ none
    | some p ↦ sum_from rounds (suc i) (g.add sum p) prices
  ]

  unfoldable pub trailing_avg : List Float64 → ℕ → Option Float64
  unfolding sum_from window
  trailing_avg prices k =
      let n = length prices in
      let k' = window n k in
      elim (sum_from k' (n - k') f_zero prices) [
        | none ↦ none
        | some sum ↦ some (g.div sum (g.of_int k'))
      ]

  unfoldable pub trend_text : CoinMarket → Float64 → Float64 → Float64 → Bytes
  unfolding bias_of
  trend_text m ma7 ma30 ma90 =
      text "Trend — "
      ++ m.name
      ++ text " ("
      ++ to_upper m.symbol
      ++ text ")\nCurrent price: $"
      ++ format_float m.current_price
      ++ text "\n\n7d MA (short-term):  $"
      ++ format_float ma7
      ++ text "\n30d MA (mid-term):   $"
      ++ format_float ma30
      ++ text "\n90d MA (long-term):  $"
      ++ format_float ma90
      ++ text "\n\nTrend bias: "
      ++ bias_text (bias_of ma7 ma30 ma90)
      ++ text "\nInterpretation: "
      ++ interpretation (bias_of ma7 ma30 ma90)
      ++ text "\nSource: CoinGecko (90d market chart)"

  -- The text of the averages; `none` is a fault.
  abbrev pub averages_text :
      CoinMarket → Option Float64 → Option Float64 → Option Float64 → Option Bytes
  averages_text m (some ma7) (some ma30) (some ma90) = some (trend_text m ma7 ma30 ma90)
  averages_text m _ _ _ = none

  unfoldable pub trend_of : CoinMarket → List Float64 → Option Bytes
  unfolding trailing_avg
  trend_of m prices =
      let n = length prices in
      if ltb n 10
      then some (text "Not enough historical data to compute trend (need more price points).")
      else averages_text m (trailing_avg prices (n * 7 / 90)) (trailing_avg prices (n * 30 / 90))
          (trailing_avg prices n)

  module _ ⦃c : CoinJson⦄ ⦃j : ChartJson⦄ where
    unfoldable pub cmd_trend : List Bytes → Prog (Option (Result Bytes))
    unfolding trend_of
    cmd_trend [] = done (some (ok (text "Usage: trend [symbol]\nExample: trend btc")))
    cmd_trend (sym ∷ args) = resolve_or_say some (text "asset") sym λ id.
        market_or_say some sym id λ mkt.
          with_chart some id 90 (text "No historical price data available for this asset.")
            (λ x xs. replied (trend_of mkt (x ∷ xs)))
