-- ===== src/Commands/Chart/Volatility.antt =====
-- internal/commands/volatility.go
pub mod Laws
pub mod Report
use crypto_sentinel.Prelude.{List, [], ◌∷◌, ◌++◌, Bytes, Result, ok, if◌then◌else◌}
use crypto_sentinel.Go.Runtime.{Runtime}
use crypto_sentinel.Go.Float64.{Float64, float, f_zero, f_hundred, lt, gt}
use crypto_sentinel.Go.Text.{text, to_upper}
use crypto_sentinel.Go.Http.{Prog, done}
use crypto_sentinel.Models.{CoinMarket}
use crypto_sentinel.Services.Format.{format_float}
use crypto_sentinel.Clients.Coingecko.Replies.{CoinJson}
use crypto_sentinel.Commands.Shared.{plainly}
use crypto_sentinel.Commands.Price.{resolve_or_say, market_or_say}
use crypto_sentinel.Commands.Chart.{ChartJson, with_chart}

-- The loop over prices[1:], with minPrice and maxPrice so far.
unfoldable pub price_range : Float64 → Float64 → List Float64 → Float64 × Float64
price_range min_price max_price [] = (min_price, max_price)
price_range min_price max_price (v ∷ prices) =
    price_range (if lt v min_price then v else min_price) (if gt v max_price then v else max_price)
      prices

abbrev volatility_class : Float64 → Bytes
volatility_class range_pct =
    if gt range_pct (float 0x4044000000000000)
    then text "Extreme"
    else if gt range_pct (float 0x4039000000000000)
    then text "High"
    else if gt range_pct (float 0x4024000000000000)
    then text "Medium"
    else text "Low"

module _ ⦃g : Runtime⦄ where
  abbrev range_pct_of : Float64 → Float64 → Float64
  range_pct_of min_price max_price =
      if gt min_price f_zero
      then g.mul (g.div (g.sub max_price min_price) min_price) f_hundred
      else f_zero

  abbrev pub range_text : CoinMarket → Float64 × Float64 → Bytes
  range_text m (min_price, max_price) =
      text "Volatility — "
      ++ m.name
      ++ text " ("
      ++ to_upper m.symbol
      ++ text ")\nCurrent price: $"
      ++ format_float m.current_price
      ++ text "\n\n7d price range: $"
      ++ format_float min_price
      ++ text " → $"
      ++ format_float max_price
      ++ text "\n7d volatility (range): "
      ++ format_float (range_pct_of min_price max_price)
      ++ text "%\n\nVolatility class: "
      ++ volatility_class (range_pct_of min_price max_price)
      ++ text "\nSource: CoinGecko (7d market chart)"

  abbrev volatility_text : CoinMarket → Float64 → List Float64 → Bytes
  volatility_text m x xs = range_text m (price_range x x xs)

  module _ ⦃c : CoinJson⦄ ⦃j : ChartJson⦄ where
    unfoldable pub cmd_volatility : List Bytes → Prog (Result Bytes)
    unfolding price_range
    cmd_volatility [] = done (ok (text "Usage: volatility [symbol]\nExample: volatility eth"))
    cmd_volatility (sym ∷ args) = resolve_or_say plainly (text "asset") sym λ id.
        market_or_say plainly sym id λ mkt.
          with_chart plainly id 7
            (text "No volatility data available for this asset (empty market_chart).")
            (λ x xs. ok (volatility_text mkt x xs))
