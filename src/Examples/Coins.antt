-- ===== src/Examples/Coins.antt =====
-- The market services: CoinGecko, and CoinMarketCap in reserve.
use crypto_sentinel.Prelude.{[], ◌∷◌, some, ok, err}
use crypto_sentinel.Prelude.Int.{pos}
use crypto_sentinel.Go.Float64.{float}
use crypto_sentinel.Go.Text.{text, trim_space}
use crypto_sentinel.Go.Http.Laws.{Returns}
use crypto_sentinel.Go.Http.Answers.{ReturnsTo, Exchanges}
use crypto_sentinel.Clients.Coingecko.Reserve.{AreTopMarkets, fetch_top_markets-fallback}
use crypto_sentinel.Clients.Coingecko.{resolve_coin_id, fetch_top_markets}
use crypto_sentinel.Clients.Coingecko.Replies.{SearchCoin, CmcRow, CoinJson}
use crypto_sentinel.Clients.Coingecko.Laws.{IsResolved, resolve_coin_id-IsResolved}
use crypto_sentinel.Services.AlertService.Checker.Requests.{
  IsQuote, fetch_quote, fetch_quote-IsQuote,
}
use crypto_sentinel.Commands.Convert.{convert}
use crypto_sentinel.Commands.Convert.Rates.{PriceJson}
use crypto_sentinel.Commands.Convert.Laws.{Answers, convert-Answers}
use crypto_sentinel.Examples.Demo.{demo, IsEmptyReply}

abbrev bitcoin : SearchCoin
bitcoin = record { id = text "bitcoin"; name = text "Bitcoin"; symbol = text "BTC" }

abbrev listed : CmcRow
listed = record {
  id = pos 1;
  name = text "Bitcoin";
  symbol = text "BTC";
  quote = λ currency. some (record {
    price = float 7;
    market_cap = float 9;
    volume24h = float 2;
    percent_change24 = float 1;
    percent_change7d = float 1;
  });
}

instance abbrev demo_coins : CoinJson
demo_coins = record {
  decode_search = λ body. ok (bitcoin ∷ []);
  decode_markets = λ body. err (text "down");
  decode_listings = λ body. ok (listed ∷ []);
}

fetch_top_markets-fallback_example :
    Exchanges (AreTopMarkets (text "key") 5) [] (fetch_top_markets (text "key") 5)
fetch_top_markets-fallback_example = fetch_top_markets-fallback (text "key") 5

resolve_coin_id-IsResolved_example :
    Returns (IsResolved (trim_space (text " btc"))) (resolve_coin_id (text " btc"))
resolve_coin_id-IsResolved_example = resolve_coin_id-IsResolved (text " btc")

fetch_quote-IsQuote_example :
    ReturnsTo IsEmptyReply (IsQuote IsEmptyReply (text "btc")) (fetch_quote (text "btc"))
fetch_quote-IsQuote_example = fetch_quote-IsQuote IsEmptyReply (text "btc")

instance abbrev prices : PriceJson
prices = record { decode_prices = λ body. ok (λ id. some (λ currency. some (float 5))) }

convert-Answers_example :
    ReturnsTo IsEmptyReply
      (Answers IsEmptyReply (float 2) (text "btc") (text "usd"))
      (convert (float 2) (text "btc") (text "usd"))
convert-Answers_example = convert-Answers IsEmptyReply (float 2) (text "btc") (text "usd")
