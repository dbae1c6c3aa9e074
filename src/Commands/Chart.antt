-- ===== src/Commands/Chart.antt =====
-- What internal/commands/volatility.go and trend.go share: the chart of an asset's prices.
pub mod Laws
pub mod Volatility
pub mod Trend
use crypto_sentinel.Prelude.{
  ℕ, List, [], ◌∷◌, ◌++◌, Option, none, some, Bytes, Result, ok, err, filter_map, ◌==◌,
  if◌then◌else◌,
}
use crypto_sentinel.Go.Runtime.{Runtime}
use crypto_sentinel.Go.Float64.{Float64}
use crypto_sentinel.Go.Text.{text}
use crypto_sentinel.Go.Decimal.{format_uint}
use crypto_sentinel.Go.Http.{Request, Response, failed, response, Prog, done, send}
use crypto_sentinel.Clients.Coingecko.{from_agent}

-- The field `prices`: points of a time and a price.
pub record ChartJson : Type 0 where
  pub decode_chart : Bytes → Result (List (List Float64))

-- if len(p) != 2 { continue }; prices = append(prices, p[1])
abbrev pub price_point : List Float64 → Option Float64
price_point (time ∷ price ∷ []) = some price
price_point _ = none

-- What a command makes of the points, which are checked to be some, and then of the prices.
-- `ret` gives the result of a command its type.
module _ {B : Type 0} (ret : Result Bytes → B) (f : Float64 → List Float64 → B) where
  abbrev pub of_prices : List Float64 → B
  of_prices [] = ret (ok (text "No valid price points returned by CoinGecko."))
  of_prices (x ∷ xs) = f x xs

  abbrev pub of_points : Bytes → List (List Float64) → B
  of_points no_points [] = ret (ok no_points)
  of_points no_points (p ∷ ps) = of_prices (filter_map price_point (p ∷ ps))

module _ ⦃g : Runtime⦄ where
  abbrev chart_request : Bytes → ℕ → Request
  chart_request id days = from_agent (
      text "https://api.coingecko.com/api/v3/coins/"
      ++ g.path_escape id
      ++ text "/market_chart?vs_currency=usd&days="
      ++ format_uint days)

  module _ ⦃j : ChartJson⦄ {B : Type 0} (ret : Result Bytes → B) where
    abbrev pub chart_reply : Bytes → (Float64 → List Float64 → B) → Response → B
    chart_reply no_points f (failed e) = ret (err (text "CoinGecko market_chart error: " ++ e))
    chart_reply no_points f (response status body) =
        if status == 200
        then elim (j.decode_chart body) [
          | err e ↦ ret (err (text "decode market_chart error: " ++ e))
          | ok points ↦ of_points ret f no_points points
        ]
        else ret (err (text "CoinGecko market_chart status: " ++ format_uint status))

    abbrev pub with_chart : Bytes → ℕ → Bytes → (Float64 → List Float64 → B) → Prog B
    with_chart id days no_points f =
        send (chart_request id days) λ r. done (chart_reply no_points f r)
