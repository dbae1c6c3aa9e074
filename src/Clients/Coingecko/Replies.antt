-- ===== src/Clients/Coingecko/Replies.antt =====
-- internal/clients/coingecko.go: what each function makes of the response it gets.
use crypto_sentinel.Prelude.{
  List, [], ◌∷◌, ◌++◌, Option, none, some, Bytes, Result, ok, err, map, filter_map, ◌==◌,
  if◌then◌else◌,
}
use crypto_sentinel.Prelude.Int.{ℤ}
use crypto_sentinel.Go.Runtime.{Runtime}
use crypto_sentinel.Go.Float64.{Float64}
use crypto_sentinel.Go.Text.{text, beq, to_lower}
use crypto_sentinel.Go.Decimal.{format_uint, format_int}
use crypto_sentinel.Go.Http.{Response, failed, response}
use crypto_sentinel.Models.{CoinMarket}

pub record SearchCoin : Type 0 where
  pub id : Bytes
  pub name : Bytes
  pub symbol : Bytes

pub record MarketRow : Type 0 where
  pub id : Bytes
  pub symbol : Bytes
  pub name : Bytes
  pub current_price : Float64
  pub market_cap : Float64
  pub total_volume : Float64
  pub price_change_percentage24h : Float64
  pub price_change_percentage7d : Float64

pub record CmcQuote : Type 0 where
  pub price : Float64
  pub market_cap : Float64
  pub volume24h : Float64
  pub percent_change24 : Float64
  pub percent_change7d : Float64

-- `quote` is a map.
pub record CmcRow : Type 0 where
  pub id : ℤ
  pub name : Bytes
  pub symbol : Bytes
  pub quote : Bytes → Option CmcQuote

-- json.NewDecoder(resp.Body).Decode(&v) at the types that this client decodes into.
pub record CoinJson : Type 0 where
  pub decode_search : Bytes → Result (List SearchCoin)
  pub decode_markets : Bytes → Result (List MarketRow)
  pub decode_listings : Bytes → Result (List CmcRow)

abbrev coin_market : MarketRow → CoinMarket
coin_market a = record {
  id = a.id;
  symbol = a.symbol;
  name = a.name;
  current_price = a.current_price;
  market_cap = a.market_cap;
  total_volume = a.total_volume;
  price_change_pct24h = a.price_change_percentage24h;
  price_change_pct7d = a.price_change_percentage7d;
}

-- return res, nil, if there is any
abbrev some_usable : List CoinMarket → Result (List CoinMarket)
some_usable [] = err (text "no usable market data from CoinMarketCap")
some_usable (m ∷ ms) = ok (m ∷ ms)

abbrev first_market : List MarketRow → Result CoinMarket
first_market [] = err (text "no market data")
first_market (a ∷ arr) = ok (coin_market a)

module _ ⦃g : Runtime⦄ where
  -- The loop of ResolveCoinID; `otherwise` is what stands behind it.
  abbrev pub find_symbol : Bytes → List SearchCoin → Bytes → Bytes
  find_symbol q [] otherwise = otherwise
  find_symbol q (coin ∷ coins) otherwise =
      if beq (to_lower coin.symbol) q then coin.id else find_symbol q coins otherwise

  abbrev pub pick_coin : Bytes → List SearchCoin → Result Bytes
  pick_coin query [] = err (text "no match on CoinGecko")
  pick_coin query (coin ∷ coins) = ok (find_symbol (to_lower query) (coin ∷ coins) coin.id)

  -- `none` is `continue`.
  abbrev cmc_market : CmcRow → Option CoinMarket
  cmc_market d = elim (d.quote (text "USD")) [
    | none ↦ none
    | some q ↦ some (record {
      id = format_int d.id;
      symbol = to_lower d.symbol;
      name = d.name;
      current_price = q.price;
      market_cap = q.market_cap;
      total_volume = q.volume24h;
      price_change_pct24h = q.percent_change24;
      price_change_pct7d = q.percent_change7d;
    })
  ]

  abbrev cmc_markets : List CmcRow → Result (List CoinMarket)
  cmc_markets [] = err (text "no market data from CoinMarketCap")
  cmc_markets (d ∷ data_rows) = some_usable (filter_map cmc_market (d ∷ data_rows))

  module _ ⦃j : CoinJson⦄ where
    unfoldable pub resolved_of : Bytes → Response → Result Bytes
    resolved_of query (failed e) = err e
    resolved_of query (response status body) =
        if status == 200
        then elim (j.decode_search body) [ err e ↦ err e | ok coins ↦ pick_coin query coins ]
        else err (text "coingecko search status: " ++ format_uint status)

    unfoldable pub coin_market_of : Response → Result CoinMarket
    coin_market_of (failed e) = err e
    coin_market_of (response status body) =
        if status == 200
        then elim (j.decode_markets body) [ err e ↦ err e | ok arr ↦ first_market arr ]
        else err (text "coingecko status: " ++ format_uint status)

    unfoldable pub gecko_markets_of : Response → Result (List CoinMarket)
    gecko_markets_of (failed e) = err e
    gecko_markets_of (response status body) =
        if status == 200
        then elim (j.decode_markets body) [ err e ↦ err e | ok arr ↦ ok (map coin_market arr) ]
        else err (text "coingecko status: " ++ format_uint status)

    unfoldable pub cmc_markets_of : Response → Result (List CoinMarket)
    cmc_markets_of (failed e) = err e
    cmc_markets_of (response status body) =
        if status == 200
        then elim (j.decode_listings body) [ err e ↦ err e | ok rows ↦ cmc_markets rows ]
        else err (text "coinmarketcap status: " ++ format_uint status)
