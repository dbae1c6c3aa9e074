-- ===== src/Clients/Coingecko.antt =====
-- internal/clients/coingecko.go: coins by their symbol, their markets, and the top markets with
-- CoinMarketCap in reserve. `key` is `c.CMCAPIKey`.
pub mod Replies
pub mod Laws
pub mod Reserve
use crypto_sentinel.Prelude.{
  ℕ, List, [], ◌∷◌, ◌++◌, Bytes, Result, ok, err, is_empty, if◌then◌else◌,
}
use crypto_sentinel.Go.Runtime.{Runtime}
use crypto_sentinel.Go.Float64.{Float64, f_zero, eq}
use crypto_sentinel.Go.Text.{text, trim_space}
use crypto_sentinel.Go.Decimal.{format_uint}
use crypto_sentinel.Go.Http.{Request, Prog, done, send, ◌>>=◌, on_ok}
use crypto_sentinel.Models.{CoinMarket}
use Replies.{CoinJson, resolved_of, coin_market_of, gecko_markets_of, cmc_markets_of}

abbrev cg_base : Bytes
cg_base = text "https://api.coingecko.com/api/v3"

abbrev cmc_base : Bytes
cmc_base = text "https://pro-api.coinmarketcap.com"

-- A request with the header User-Agent.
abbrev pub from_agent : Bytes → Request
from_agent u = record { url = u; headers = (text "User-Agent", text "CryptoSentinelAI/1.0") ∷ [] }

abbrev pub top_request : ℕ → Request
top_request limit = from_agent (
    cg_base
    ++ text "/coins/markets?vs_currency=usd&order=market_cap_desc&per_page="
    ++ format_uint limit
    ++ text "&page=1&sparkline=false&price_change_percentage=24h,7d")

abbrev pub listings_request : Bytes → ℕ → Request
listings_request key limit = record {
  url =
      cmc_base
      ++ text "/v1/cryptocurrency/listings/latest?limit="
      ++ format_uint limit
      ++ text "&convert=USD";
  headers = (text "X-CMC_PRO_API_KEY", key) ∷ (text "Accept", text "application/json") ∷ [];
}

module _ ⦃g : Runtime⦄ where
  abbrev pub search_request : Bytes → Request
  search_request query = from_agent (cg_base ++ text "/search?query=" ++ g.query_escape query)

  abbrev pub market_request : Bytes → Request
  market_request id = from_agent (
      cg_base
      ++ text "/coins/markets?vs_currency=usd&ids="
      ++ g.path_escape id
      ++ text "&order=market_cap_desc&per_page=1&page=1&sparkline=false"
      ++ text "&price_change_percentage=24h,7d")

  module _ ⦃j : CoinJson⦄ where
    unfoldable pub resolve_coin_id : Bytes → Prog (Result Bytes)
    unfolding resolved_of
    resolve_coin_id symbol_or_name =
        let query = trim_space symbol_or_name in
        if is_empty query
        then done (err (text "empty symbol"))
        else send (search_request query) λ r. done (resolved_of query r)

    unfoldable pub fetch_coin_market : Bytes → Prog (Result CoinMarket)
    unfolding coin_market_of
    fetch_coin_market id = send (market_request id) λ r. done (coin_market_of r)

    unfoldable pub fetch_top_markets_coin_gecko : ℕ → Prog (Result (List CoinMarket))
    unfolding gecko_markets_of
    fetch_top_markets_coin_gecko limit = send (top_request limit) λ r. done (gecko_markets_of r)

    unfoldable pub fetch_top_markets_coin_market_cap : Bytes → ℕ → Prog (Result (List CoinMarket))
    unfolding cmc_markets_of
    fetch_top_markets_coin_market_cap key limit =
        if is_empty key
        then done (err (text "CMC_API_KEY not set"))
        else send (listings_request key limit) λ r. done (cmc_markets_of r)

    -- fmt.Errorf("coingecko failed: %v; coinmarketcap failed: %v", err, err2)
    abbrev pub both_failed : Bytes → Result (List CoinMarket) → Result (List CoinMarket)
    both_failed e (ok mkts) = ok mkts
    both_failed e (err e2) =
        err (text "coingecko failed: " ++ e ++ text "; coinmarketcap failed: " ++ e2)

    abbrev pub fall_back : Bytes → ℕ → Result (List CoinMarket) → Prog (Result (List CoinMarket))
    fall_back key limit (ok mkts) = done (ok mkts)
    fall_back key limit (err e) =
        fetch_top_markets_coin_market_cap key limit >>= λ r. done (both_failed e r)

    unfoldable pub fetch_top_markets : Bytes → ℕ → Prog (Result (List CoinMarket))
    unfolding fetch_top_markets_coin_gecko fetch_top_markets_coin_market_cap
    fetch_top_markets key limit = fetch_top_markets_coin_gecko limit >>= fall_back key limit

    -- What FetchConversionRate returns once it has both markets.
    abbrev rate_of : Bytes → CoinMarket → CoinMarket → Result Float64
    rate_of to_id from to =
        if eq to.current_price f_zero
        then err (text "zero price for " ++ to_id)
        else ok (g.div from.current_price to.current_price)

    unfoldable fetch_conversion_rate : Bytes → Bytes → Prog (Result Float64)
    unfolding fetch_coin_market
    fetch_conversion_rate from_id to_id =
        fetch_coin_market from_id
        >>= on_ok (λ from. fetch_coin_market to_id >>= on_ok (λ to. done (rate_of to_id from to)))
