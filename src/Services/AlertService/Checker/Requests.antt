-- ===== src/Services/AlertService/Checker/Requests.antt =====
-- The two requests that `checkAlerts` sends for an alert, as a program of the client; its result
-- is what the event `answer` brings to the checker.
use crypto_sentinel.Prelude.{Bytes, Result, ok, err, ◌≡◌, refl}
use crypto_sentinel.Go.Runtime.{Runtime}
use crypto_sentinel.Go.Http.{Request, Response, Prog, done, ◌>>=◌}
use crypto_sentinel.Go.Http.Answers.{ReturnsTo, ReturnsTo-bind}
use crypto_sentinel.Models.{CoinMarket}
use crypto_sentinel.Clients.Coingecko.{market_request, resolve_coin_id, fetch_coin_market}
use crypto_sentinel.Clients.Coingecko.Replies.{CoinJson, coin_market_of}
use crypto_sentinel.Commands.Price.Replies.{IsCoinOf, IsMarketOf, IsFound, resolve_coin_id-IsFound}
use crypto_sentinel.Services.AlertService.Checker.{Quote, resolve_failed, market_failed, quoted}

module _ ⦃g : Runtime⦄ ⦃j : CoinJson⦄ where
  abbrev quote_of : Result CoinMarket → Quote
  quote_of (ok market) = quoted market
  quote_of (err e) = market_failed e

  abbrev quote_for : Result Bytes → Prog Quote
  quote_for (ok id) = fetch_coin_market id >>= λ r. done (quote_of r)
  quote_for (err e) = done (resolve_failed e)

  -- cl.ResolveCoinID(ctx, a.Symbol), then cl.FetchCoinMarket(ctx, id)
  unfoldable pub fetch_quote : Bytes → Prog Quote
  fetch_quote symbol = resolve_coin_id symbol >>= quote_for

-- `Answer` tells which response answers a request; it may be any relation.
module _ ⦃g : Runtime⦄ ⦃j : CoinJson⦄ (Answer : Request → Response → Type 0) where
  -- A quote is the market that the answer to the request for the coin of the symbol holds.
  abbrev pub IsQuote : Bytes → Quote → Type 0
  IsQuote symbol (resolve_failed e) = Unit
  IsQuote symbol (market_failed e) = Unit
  IsQuote symbol (quoted market) = IsMarketOf Answer symbol market

  quote_of-IsQuote :
      (symbol id : Bytes) (r : Response)
      → IsCoinOf Answer symbol id
      → Answer (market_request id) r
      → (m : Result CoinMarket) → coin_market_of r ≡ m
      → IsQuote symbol (quote_of m)
  quote_of-IsQuote symbol id r coin asked (ok market) e = record {
    id = id;
    coin = coin;
    reply = r;
    asked = asked;
    held = e;
  }
  quote_of-IsQuote symbol id r coin asked (err message) e = tt

  quote_for-IsQuote :
      (symbol : Bytes) (resolved : Result Bytes)
      → IsFound Answer symbol resolved
      → ReturnsTo Answer (IsQuote symbol) (quote_for resolved)
  unfolding fetch_coin_market
  quote_for-IsQuote symbol (ok id) h =
      λ r asked. quote_of-IsQuote symbol id r h asked (coin_market_of r) refl
  quote_for-IsQuote symbol (err e) h = tt

  -- Whatever is answered, a price that the checker gets for an alert is the current price of a
  -- market that the answer to a request holds, and this request is for the id of the coin that the
  -- answer to the search for the alert's symbol gives.
  pub fetch_quote-IsQuote :
      (symbol : Bytes) → ReturnsTo Answer (IsQuote symbol) (fetch_quote symbol)
  unfolding fetch_quote
  fetch_quote-IsQuote symbol =
      ReturnsTo-bind Answer (IsFound Answer symbol) (IsQuote symbol) (resolve_coin_id symbol)
        quote_for (resolve_coin_id-IsFound Answer symbol) (quote_for-IsQuote symbol)
