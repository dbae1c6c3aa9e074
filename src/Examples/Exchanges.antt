-- ===== src/Examples/Exchanges.antt =====
-- The exchanges' gainers and losers.
use crypto_sentinel.Prelude.{List, [], ◌∷◌, Bytes, ok, err}
use crypto_sentinel.Go.Text.{text}
use crypto_sentinel.Go.Sort.Insertion.{by_insertion}
use crypto_sentinel.Clients.Wire.{TickerRow, CexJson}
use crypto_sentinel.Examples.Demo.{demo}

abbrev ticker : Bytes → Bytes → TickerRow
ticker symbol change = record {
  symbol = symbol;
  last_price = text "7";
  price_change_percent = change;
}

abbrev tickers : List TickerRow
tickers =
    ticker (text "BTCUSDT") (text "3")
    ∷ ticker (text "ETHBTC") (text "9")
    ∷ ticker (text "XRPUSDT") (text "-4")
    ∷ []

-- Every exchange but the two with plain tickers is down.
instance abbrev pub demo_json : CexJson
demo_json = record {
  decode_coinbase = λ body. err (text "down");
  decode_tickers = λ body. ok tickers;
  decode_okx = λ body. err (text "down");
  decode_bybit = λ body. err (text "down");
  decode_kucoin = λ body. err (text "down");
  decode_bitget = λ body. err (text "down");
}
