-- ===== src/Examples/Charts.antt =====
-- The commands on a chart of prices.
use crypto_sentinel.Prelude.{
  List, [], ◌∷◌, ok, true, all, filter_map, ◌≡◌, refl, subst, ok-injective,
}
use crypto_sentinel.Go.Float64.{Float64, float, is_nan}
use crypto_sentinel.Go.Text.{text}
use crypto_sentinel.Go.Http.Answers.{ReturnsTo}
use crypto_sentinel.Clients.Coingecko.Replies.{SearchCoin, MarketRow, CoinJson}
use crypto_sentinel.Commands.Chart.{ChartJson, price_point}
use crypto_sentinel.Commands.Chart.Volatility.{cmd_volatility}
use crypto_sentinel.Commands.Chart.Volatility.Laws.{is_number}
use crypto_sentinel.Commands.Chart.Volatility.Report.{
  SendsPrices, IsVolatilityReport, cmd_volatility-IsVolatilityReport,
}
use crypto_sentinel.Commands.Chart.Trend.{cmd_trend}
use crypto_sentinel.Commands.Chart.Trend.Report.{IsTrendReport, cmd_trend-IsTrendReport}
use crypto_sentinel.Examples.Demo.{demo, IsEmptyReply}

abbrev ether : SearchCoin
ether = record { id = text "ethereum"; name = text "Ethereum"; symbol = text "ETH" }

abbrev ether_row : MarketRow
ether_row = record {
  id = text "ethereum";
  symbol = text "eth";
  name = text "Ethereum";
  current_price = float 7;
  market_cap = float 9;
  total_volume = float 2;
  price_change_percentage24h = float 1;
  price_change_percentage7d = float 1;
}

instance abbrev ether_coins : CoinJson
ether_coins = record {
  decode_search = λ body. ok (ether ∷ []);
  decode_markets = λ body. ok (ether_row ∷ []);
  decode_listings = λ body. ok [];
}

-- Three points at a time, and one that is not of two numbers.
abbrev three : List (List Float64) → List (List Float64)
three points =
    (float 1 ∷ float 5 ∷ [])
    ∷ (float 2 ∷ float 3 ∷ [])
    ∷ (float 3 ∷ [])
    ∷ (float 4 ∷ float 9 ∷ [])
    ∷ points

instance abbrev twelve_prices : ChartJson
twelve_prices = record { decode_chart = λ body. ok (three (three (three (three [])))) }

twelve_prices-SendsPrices : SendsPrices twelve_prices
unfolding is_nan
twelve_prices-SendsPrices = λ body points e.
    subst (λ l. all is_number (filter_map price_point l) ≡ true) (ok-injective e) refl

cmd_volatility-IsVolatilityReport_example :
    ReturnsTo IsEmptyReply
      (IsVolatilityReport IsEmptyReply (text "eth"))
      (cmd_volatility (text "eth" ∷ []))
cmd_volatility-IsVolatilityReport_example =
    cmd_volatility-IsVolatilityReport IsEmptyReply twelve_prices-SendsPrices (text "eth") []

cmd_trend-IsTrendReport_example :
    ReturnsTo IsEmptyReply (IsTrendReport IsEmptyReply (text "eth")) (cmd_trend (text "eth" ∷ []))
cmd_trend-IsTrendReport_example = cmd_trend-IsTrendReport IsEmptyReply (text "eth") []
