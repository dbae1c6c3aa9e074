-- ===== src/Clients/Coingecko/Reserve.antt =====
-- The top markets: CoinGecko, and CoinMarketCap in reserve.
use crypto_sentinel.Prelude.{
  ℕ, true, false, List, [], ◌∷◌, ◌++◌, Bytes, Result, ok, err, is_empty, ◌≡◌, refl, Bool-cases, inl,
  inr,
}
use crypto_sentinel.Go.Runtime.{Runtime}
use crypto_sentinel.Go.Text.{text}
use crypto_sentinel.Go.Http.{Request, Response}
use crypto_sentinel.Go.Http.Answers.{Exchanges}
use crypto_sentinel.Models.{CoinMarket}
use crypto_sentinel.Clients.Coingecko.{
  top_request, listings_request, both_failed, fall_back, fetch_top_markets_coin_gecko,
  fetch_top_markets_coin_market_cap, fetch_top_markets,
}
use crypto_sentinel.Clients.Coingecko.Replies.{CoinJson, gecko_markets_of, cmc_markets_of}

module _ ⦃g : Runtime⦄ ⦃j : CoinJson⦄ (key : Bytes) (limit : ℕ) where
  abbrev neither : Bytes → Bytes → Bytes
  neither e e2 = text "coingecko failed: " ++ e ++ text "; coinmarketcap failed: " ++ e2

  -- The result, with all that was sent and answered.
  pub data AreTopMarkets : List (Request × Response) → Result (List CoinMarket) → Type 0 where
    by_gecko :
        (r : Response) (mkts : List CoinMarket)
        → gecko_markets_of r ≡ ok mkts
        → AreTopMarkets ((top_request limit, r) ∷ []) (ok mkts)
    no_reserve :
        (r : Response) (e : Bytes)
        → gecko_markets_of r ≡ err e
        → is_empty key ≡ true
        → AreTopMarkets ((top_request limit, r) ∷ []) (err (neither e (text "CMC_API_KEY not set")))
    by_reserve :
        (r r2 : Response) (e : Bytes) (mkts : List CoinMarket)
        → gecko_markets_of r ≡ err e
        → is_empty key ≡ false
        → cmc_markets_of r2 ≡ ok mkts
        → AreTopMarkets ((top_request limit, r) ∷ (listings_request key limit, r2) ∷ []) (ok mkts)
    by_neither :
        (r r2 : Response) (e e2 : Bytes)
        → gecko_markets_of r ≡ err e
        → is_empty key ≡ false
        → cmc_markets_of r2 ≡ err e2
        → AreTopMarkets
            ((top_request limit, r) ∷ (listings_request key limit, r2) ∷ [])
            (err (neither e e2))

  reserve-AreTopMarkets :
      (r r2 : Response) (e : Bytes) (d : Result (List CoinMarket))
      → gecko_markets_of r ≡ err e
      → is_empty key ≡ false
      → cmc_markets_of r2 ≡ d
      → AreTopMarkets
          ((top_request limit, r) ∷ (listings_request key limit, r2) ∷ [])
          (both_failed e d)
  reserve-AreTopMarkets r r2 e (ok mkts) h k h2 = by_reserve r r2 e mkts h k h2
  reserve-AreTopMarkets r r2 e (err e2) h k h2 = by_neither r r2 e e2 h k h2

  fall_back-AreTopMarkets :
      (r : Response) (d : Result (List CoinMarket))
      → gecko_markets_of r ≡ d
      → Exchanges AreTopMarkets ((top_request limit, r) ∷ []) (fall_back key limit d)
  unfolding fetch_top_markets_coin_market_cap
  fall_back-AreTopMarkets r (ok mkts) h = by_gecko r mkts h
  fall_back-AreTopMarkets r (err e) h = elim (Bool-cases (is_empty key)) [
    | inl bare ↦ rw (bare, Exchanges) (no_reserve r e h bare)
    | inr given ↦
        rw (given, Exchanges) (λ r2. reserve-AreTopMarkets r r2 e (cmc_markets_of r2) h given refl)
  ]

  -- Whatever is answered, FetchTopMarkets first asks CoinGecko. If its answer gives markets, they
  -- are returned, and nothing more is sent. If not, and there is a key, CoinMarketCap is asked
  -- once, and the markets of its answer are returned; where these fail too, or there is no key,
  -- the error has the texts of both errors.
  pub fetch_top_markets-fallback : Exchanges AreTopMarkets [] (fetch_top_markets key limit)
  unfolding fetch_top_markets fetch_top_markets_coin_gecko
  fetch_top_markets-fallback = λ r. fall_back-AreTopMarkets r (gecko_markets_of r) refl
