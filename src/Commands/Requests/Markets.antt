-- ===== src/Commands/Requests/Markets.antt =====
-- How many requests the commands on the market of a coin send.
use crypto_sentinel.Prelude.{
  ℕ, ◌+◌, List, [], ◌∷◌, ◌++◌, Bytes, Result, ok, err, some, if-elim, is_empty, refl,
}
use crypto_sentinel.Go.Runtime.{Runtime}
use crypto_sentinel.Go.Text.{text, trim_space}
use crypto_sentinel.Go.Http.{Prog}
use crypto_sentinel.Commands.Requests.Services.{Asks, permitted, Asks-bind}
use crypto_sentinel.Models.{CoinMarket}
use crypto_sentinel.Clients.Coingecko.{resolve_coin_id, fetch_coin_market, fetch_top_markets}
use crypto_sentinel.Clients.Coingecko.Replies.{CoinJson}
use crypto_sentinel.Commands.Shared.{plainly}
use crypto_sentinel.Commands.Price.{cmd_price, cmd_compare, resolve_or_say, market_or_say}
use crypto_sentinel.Clients.Coingecko.{
  fall_back, fetch_top_markets_coin_gecko, fetch_top_markets_coin_market_cap,
}
use crypto_sentinel.Commands.Shared.{limit_of}
use crypto_sentinel.Commands.Sentiment.{cmd_sentiment}
use crypto_sentinel.Commands.Top.{cmd_top}
use crypto_sentinel.Commands.Digest.{cmd_digest}
use crypto_sentinel.Commands.Chart.{ChartJson}
use crypto_sentinel.Commands.Chart.Volatility.{cmd_volatility}
use crypto_sentinel.Commands.Chart.Trend.{cmd_trend}
use crypto_sentinel.Commands.Requests.{or_say-Sends}

module _ ⦃g : Runtime⦄ where
  module _ ⦃c : CoinJson⦄ where
    resolve_coin_id-Sends : (sym : Bytes) → Asks 1 (resolve_coin_id sym)
    unfolding resolve_coin_id permitted
    resolve_coin_id-Sends sym = if-elim (Asks 1) (is_empty (trim_space sym)) _ _ tt (refl, λ r. tt)

    market_or_say-Sends :
        {B : Type 0} (n : ℕ) (ret : Result Bytes → B) (sym id : Bytes) (f : CoinMarket → Prog B)
        → ((m : CoinMarket) → Asks n (f m))
        → Asks (1 + n) (market_or_say ret sym id f)
    unfolding fetch_coin_market permitted
    market_or_say-Sends n ret sym id f h =
        or_say-Sends ret n 1 (text "Failed to fetch market data for '" ++ sym ++ text "': ") f
          (fetch_coin_market id) (refl, λ r. tt) h

    resolve_or_say-Sends :
        {B : Type 0} (n : ℕ) (ret : Result Bytes → B) (what sym : Bytes) (f : Bytes → Prog B)
        → ((id : Bytes) → Asks n (f id))
        → Asks (1 + n) (resolve_or_say ret what sym f)
    resolve_or_say-Sends n ret what sym f h =
        or_say-Sends ret n 1 (text "Could not resolve " ++ what ++ text " '" ++ sym ++ text "': ") f
          (resolve_coin_id sym) (resolve_coin_id-Sends sym) h

    pub cmd_price-Sends : (args : List Bytes) → Asks 2 (cmd_price args)
    unfolding cmd_price
    cmd_price-Sends [] = tt
    cmd_price-Sends (sym ∷ args) =
        resolve_or_say-Sends 1 plainly (text "coin") sym _
          λ id. market_or_say-Sends 0 plainly sym id _ λ m. tt

    pub cmd_compare-Sends : (args : List Bytes) → Asks 4 (cmd_compare args)
    unfolding cmd_compare
    cmd_compare-Sends [] = tt
    cmd_compare-Sends (sym ∷ []) = tt
    cmd_compare-Sends (x ∷ y ∷ args) = resolve_or_say-Sends 3 plainly (text "asset") x _ λ id_x.
        resolve_or_say-Sends 2 plainly (text "asset") y _ λ id_y.
          market_or_say-Sends 1 plainly x id_x _ λ a. market_or_say-Sends 0 plainly y id_y _ λ b. tt

    pub cmd_sentiment-Sends : (args : List Bytes) → Asks 2 (cmd_sentiment args)
    unfolding cmd_sentiment
    cmd_sentiment-Sends [] = tt
    cmd_sentiment-Sends (sym ∷ args) =
        resolve_or_say-Sends 1 plainly (text "asset") sym _
          λ id. market_or_say-Sends 0 plainly sym id _ λ m. tt

    fall_back-Sends :
        (key : Bytes) (limit : ℕ) (r : Result (List CoinMarket)) → Asks 1 (fall_back key limit r)
    unfolding fetch_top_markets_coin_market_cap permitted
    fall_back-Sends key limit (ok mkts) = tt
    fall_back-Sends key limit (err e) =
        Asks-bind 0 1 (fetch_top_markets_coin_market_cap key limit) _
          (if-elim (Asks 1) (is_empty key) _ _ tt (refl, λ r. tt)) (λ r. tt)

    fetch_top_markets-Sends : (key : Bytes) (limit : ℕ) → Asks 2 (fetch_top_markets key limit)
    unfolding fetch_top_markets fetch_top_markets_coin_gecko fetch_top_markets_coin_market_cap
        permitted
    fetch_top_markets-Sends key limit =
        Asks-bind 1 1 (fetch_top_markets_coin_gecko limit) (fall_back key limit) (refl, λ r. tt)
          (fall_back-Sends key limit)

    pub cmd_top-Sends : (key : Bytes) (args : List Bytes) → Asks 2 (cmd_top key args)
    unfolding cmd_top
    cmd_top-Sends key args =
        Asks-bind 0 2 (fetch_top_markets key (limit_of 10 args)) _
          (fetch_top_markets-Sends key (limit_of 10 args)) (λ r. tt)

    pub cmd_digest-Sends : (key : Bytes) (args : List Bytes) → Asks 2 (cmd_digest key args)
    unfolding cmd_digest
    cmd_digest-Sends key args =
        Asks-bind 0 2 (fetch_top_markets key 5) _ (fetch_top_markets-Sends key 5) (λ r. tt)

    module _ ⦃j : ChartJson⦄ where
      pub cmd_volatility-Sends : (args : List Bytes) → Asks 3 (cmd_volatility args)
      unfolding cmd_volatility permitted
      cmd_volatility-Sends [] = tt
      cmd_volatility-Sends (sym ∷ args) =
          resolve_or_say-Sends 2 plainly (text "asset") sym _
            λ id. market_or_say-Sends 1 plainly sym id _ λ m. (refl, λ r. tt)

      pub cmd_trend-Sends : (args : List Bytes) → Asks 3 (cmd_trend args)
      unfolding cmd_trend permitted
      cmd_trend-Sends [] = tt
      cmd_trend-Sends (sym ∷ args) =
          resolve_or_say-Sends 2 some (text "asset") sym _
            λ id. market_or_say-Sends 1 some sym id _ λ m. (refl, λ r. tt)
