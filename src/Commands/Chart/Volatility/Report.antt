-- ===== src/Commands/Chart/Volatility/Report.antt =====
-- What `volatility` tells of the replies of CoinGecko.
use crypto_sentinel.Prelude.{
  true, List, [], ◌∷◌, Bytes, Result, ok, err, all, filter_map, ◌≡◌, subst,
}
use crypto_sentinel.Go.Runtime.{Runtime}
use crypto_sentinel.Go.Float64.{Float64, lt, gt}
use crypto_sentinel.Go.Text.{text}
use crypto_sentinel.Go.Http.{Request, Response}
use crypto_sentinel.Go.Http.Answers.{ReturnsTo}
use crypto_sentinel.Models.{CoinMarket}
use crypto_sentinel.Clients.Coingecko.Replies.{CoinJson}
use crypto_sentinel.Commands.Shared.{plainly}
use crypto_sentinel.Commands.Price.Replies.{
  IsMarketOf, unresolved, unfetched, resolve_or_say-ReturnsTo, market_or_say-ReturnsTo,
}
use crypto_sentinel.Commands.Chart.{ChartJson, price_point}
use crypto_sentinel.Commands.Chart.Laws.{IsChart, chart_reply-told}
use crypto_sentinel.Commands.Chart.Volatility.{price_range, range_text, cmd_volatility}
use crypto_sentinel.Commands.Chart.Volatility.Laws.{is_number, IsExtreme, price_range-IsExtreme}

-- Every price of a decoded chart is a number, as in any JSON text.
abbrev pub SendsPrices : ChartJson → Type 0
SendsPrices j =
    (body : Bytes) (points : List (List Float64))
    → j.decode_chart body ≡ ok points
    → all is_number (filter_map price_point points) ≡ true

-- `Answer` tells which response answers a request; it may be any relation.
module _ ⦃g : Runtime⦄ ⦃c : CoinJson⦄ ⦃j : ChartJson⦄ (Answer : Request → Response → Type 0) where
  -- What `volatility` returns on a symbol.
  pub data IsVolatilityReport (sym : Bytes) : Result Bytes → Type 0 where
    not_resolved : (e : Bytes) → IsVolatilityReport sym (ok (unresolved (text "asset") sym e))
    not_fetched : (e : Bytes) → IsVolatilityReport sym (ok (unfetched sym e))
    not_charted : (e : Bytes) → IsVolatilityReport sym (err e)
    empty_chart :
        (body : Bytes)
        → j.decode_chart body ≡ ok []
        → IsVolatilityReport sym
            (ok (text "No volatility data available for this asset (empty market_chart)."))
    no_prices :
        IsChart []
        → IsVolatilityReport sym (ok (text "No valid price points returned by CoinGecko."))
    reported :
        (m : CoinMarket) (prices : List Float64) (low high : Float64)
        → IsMarketOf Answer sym m
        → IsChart prices
        → IsExtreme lt prices low
        → IsExtreme gt prices high
        → IsVolatilityReport sym (ok (range_text m (low, high)))

  numbers : SendsPrices j → (prices : List Float64) → IsChart prices → all is_number prices ≡ true
  numbers clean prices c =
      subst (λ ps. all is_number ps ≡ true) c.kept (clean c.body c.points c.decoded)

  -- If the charts that are decoded hold numbers: whatever is answered, volatility with a symbol
  -- tells that the coin could not be resolved or fetched, fails if its chart is not to be had, or
  -- tells that there are no prices, if the decoded chart has none; or it reports on the market that
  -- a reply held, with a range that goes from one of the prices of a decoded chart to one of them,
  -- of which none is outside of the range.
  pub cmd_volatility-IsVolatilityReport :
      SendsPrices j
      → (symbol : Bytes) (args : List Bytes)
      → ReturnsTo Answer (IsVolatilityReport symbol) (cmd_volatility (symbol ∷ args))
  unfolding cmd_volatility
  cmd_volatility-IsVolatilityReport clean symbol args =
      let P = IsVolatilityReport symbol in
      resolve_or_say-ReturnsTo Answer P plainly (text "asset") symbol _ not_resolved λ id found.
        market_or_say-ReturnsTo Answer P plainly symbol id _ not_fetched found λ m of_symbol.
          λ r answers.
            chart_reply-told P plainly _ _ not_charted empty_chart no_prices
              (λ x xs chart.
                let (low, high) = price_range-IsExtreme x xs (numbers clean (x ∷ xs) chart) in
                reported m (x ∷ xs) (price_range x x xs).0 (price_range x x xs).1 of_symbol chart
                  low high)
              r
