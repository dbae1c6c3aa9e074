-- ===== src/Clients/Cex/Fetch/Replies.antt =====
-- Every reply of an exchange is a listing.
use crypto_sentinel.Prelude.{
  ℕ, Bool, true, false, List, Bytes, Option, Result, ok, err, map, filter, filter_map,
  if◌then◌else◌, ◌≡◌, ◌==◌, refl, subst, sym,
}
use crypto_sentinel.Go.Runtime.{Runtime}
use crypto_sentinel.Go.Text.{text, beq}
use crypto_sentinel.Go.Text.Laws.{beq→≡}
use crypto_sentinel.Go.Sort.{Sorter, IsSorter}
use crypto_sentinel.Go.Http.{Response, failed, response}
use crypto_sentinel.Models.{CexGainer}
use crypto_sentinel.Clients.Wire.{CexJson}
use crypto_sentinel.Clients.Cex.Ranking.{rises_more, falls_more}
use crypto_sentinel.Clients.Cex.Binance.{
  binance_gainer, binance_loser, binance_gainers_of, binance_losers_of,
}
use crypto_sentinel.Clients.Cex.Okx.{okx_gainer, okx_loser, okx_gainers_of, okx_losers_of}
use crypto_sentinel.Clients.Cex.Bybit.{bybit_gainer, bybit_loser, bybit_gainers_of, bybit_losers_of}
use crypto_sentinel.Clients.Cex.Mexc.{mexc_gainer, mexc_loser, mexc_gainers_of, mexc_losers_of}
use crypto_sentinel.Clients.Cex.Kucoin.{
  kucoin_gainer, kucoin_loser, kucoin_gainers_of, kucoin_losers_of,
}
use crypto_sentinel.Clients.Cex.Bitget.{
  bitget_gainer, bitget_loser, bitget_gainers_of, bitget_losers_of,
}
use crypto_sentinel.Clients.Cex.Listing.{
  IsListing, Selects, filter_map-Selects, top_gainers-IsListing, or_no_data-gainers,
  or_no_data-losers,
}
use crypto_sentinel.Clients.Cex.Fetch.Feeds
use crypto_sentinel.Clients.Cex.Fetch.Feeds.{
  AreCandidates, is_ticker, is_okx, is_bybit, has_dollars, is_kucoin, is_bitget, ticker_pair,
  okx_pair, bybit_pair, kucoin_pair, bitget_pair, any_change, falls,
}
use crypto_sentinel.Clients.Cex.Fetch.Rows.{
  binance_gainer-Selects, binance_loser-Selects, okx_gainer-Selects, okx_loser-Selects,
  bybit_gainer-Selects, bybit_loser-Selects, mexc_gainer-Selects, mexc_loser-Selects,
  kucoin_gainer-Selects, kucoin_loser-Selects, bitget_gainer-Selects, bitget_loser-Selects,
}

module _ (less : CexGainer → CexGainer → Bool) (Candidates : List CexGainer → Type 0)
    (limit : ℕ) where
  -- A reply that fails when a test fails is a listing if the rest of it is.
  if-IsListing :
      (b : Bool) (r : Result (List CexGainer)) (message : Bytes)
      → (b ≡ true → IsListing less Candidates limit r)
      → IsListing less Candidates limit (if b then r else err message)
  if-IsListing true r message h = h refl
  if-IsListing false r message h = tt

  decoded-IsListing :
      {R : Type 0} (d : Result R) (f : R → Result (List CexGainer))
      → ((r : R) → d ≡ ok r → IsListing less Candidates limit (f r))
      → IsListing less Candidates limit (elim d [ err e ↦ err e | ok r ↦ f r ])
  decoded-IsListing (err e) f h = tt
  decoded-IsListing (ok r) f h = h r refl

-- The loop over the rows finds the candidates.
found :
    {R : Type 0} (Candidates : List CexGainer → Type 0) (fits : R → Bool) (pair : R → CexGainer)
    (row : R → Option CexGainer) (rows : List R)
    → Selects fits pair row
    → Candidates (map pair (filter fits rows))
    → Candidates (filter_map row rows)
found Candidates fits pair row rows h c =
    subst Candidates (sym (filter_map-Selects fits pair row rows h)) c

-- What the gainers and the losers of an exchange promise.
module _ ⦃g : Runtime⦄ ⦃j : CexJson⦄ where
  abbrev pub Gainers : Bytes → List CexGainer → Type 0
  Gainers = AreCandidates has_dollars any_change

  abbrev pub Losers : Bytes → List CexGainer → Type 0
  Losers = AreCandidates is_kucoin falls

  abbrev pub AreGainers : Bytes → ℕ → Result (List CexGainer) → Type 0
  AreGainers exchange = IsListing rises_more (Gainers exchange)

  abbrev pub AreLosers : Bytes → ℕ → Result (List CexGainer) → Type 0
  AreLosers exchange = IsListing falls_more (Losers exchange)

module _ ⦃g : Runtime⦄ ⦃s : Sorter⦄ ⦃j : CexJson⦄ (laws : IsSorter s) (limit : ℕ) where
  pub binance-AreGainers :
      (r : Response) → AreGainers (text "binance") limit (binance_gainers_of limit r)
  unfolding binance_gainers_of
  binance-AreGainers (failed e) = tt
  binance-AreGainers (response status body) = if-IsListing _ _ limit (status == 200) _ _ λ good.
      decoded-IsListing _ _ limit (j.decode_tickers body) _ λ rows d.
        or_no_data-gainers laws (Gainers (text "binance")) _ limit _ (
          found (Gainers (text "binance")) _ _ binance_gainer rows binance_gainer-Selects
            (Feeds.of_binance body rows d))

  pub binance-AreLosers :
      (r : Response) → AreLosers (text "binance") limit (binance_losers_of limit r)
  unfolding binance_losers_of
  binance-AreLosers (failed e) = tt
  binance-AreLosers (response status body) = if-IsListing _ _ limit (status == 200) _ _ λ good.
      decoded-IsListing _ _ limit (j.decode_tickers body) _ λ rows d.
        or_no_data-losers laws (Losers (text "binance")) _ limit _ (
          found (Losers (text "binance")) _ _ binance_loser rows binance_loser-Selects
            (Feeds.of_binance body rows d))

  pub okx-AreGainers : (r : Response) → AreGainers (text "okx") limit (okx_gainers_of limit r)
  unfolding okx_gainers_of
  okx-AreGainers (failed e) = tt
  okx-AreGainers (response status body) =
      decoded-IsListing _ _ limit (j.decode_okx body) _ λ rows d.
        top_gainers-IsListing laws (Gainers (text "okx")) limit _ (
          found (Gainers (text "okx")) _ _ okx_gainer rows okx_gainer-Selects
            (Feeds.of_okx body rows d))

  pub okx-AreLosers : (r : Response) → AreLosers (text "okx") limit (okx_losers_of limit r)
  unfolding okx_losers_of
  okx-AreLosers (failed e) = tt
  okx-AreLosers (response status body) = decoded-IsListing _ _ limit (j.decode_okx body) _ λ rows d.
      or_no_data-losers laws (Losers (text "okx")) _ limit _ (
        found (Losers (text "okx")) _ _ okx_loser rows okx_loser-Selects (Feeds.of_okx body rows d))

  pub bybit-AreGainers : (r : Response) → AreGainers (text "bybit") limit (bybit_gainers_of limit r)
  unfolding bybit_gainers_of
  bybit-AreGainers (failed e) = tt
  bybit-AreGainers (response status body) = if-IsListing _ _ limit (status == 200) _ _ λ good.
      decoded-IsListing _ _ limit (j.decode_bybit body) _ λ rows d.
        or_no_data-gainers laws (Gainers (text "bybit")) _ limit _ (
          found (Gainers (text "bybit")) _ _ bybit_gainer rows bybit_gainer-Selects
            (Feeds.of_bybit body rows d))

  pub bybit-AreLosers : (r : Response) → AreLosers (text "bybit") limit (bybit_losers_of limit r)
  unfolding bybit_losers_of
  bybit-AreLosers (failed e) = tt
  bybit-AreLosers (response status body) = if-IsListing _ _ limit (status == 200) _ _ λ good.
      decoded-IsListing _ _ limit (j.decode_bybit body) _ λ rows d.
        or_no_data-losers laws (Losers (text "bybit")) _ limit _ (
          found (Losers (text "bybit")) _ _ bybit_loser rows bybit_loser-Selects
            (Feeds.of_bybit body rows d))

  pub mexc-AreGainers : (r : Response) → AreGainers (text "mexc") limit (mexc_gainers_of limit r)
  unfolding mexc_gainers_of
  mexc-AreGainers (failed e) = tt
  mexc-AreGainers (response status body) =
      decoded-IsListing _ _ limit (j.decode_tickers body) _ λ rows d.
        or_no_data-gainers laws (Gainers (text "mexc")) _ limit _ (
          found (Gainers (text "mexc")) _ _ mexc_gainer rows mexc_gainer-Selects
            (Feeds.of_mexc body rows d))

  pub mexc-AreLosers : (r : Response) → AreLosers (text "mexc") limit (mexc_losers_of limit r)
  unfolding mexc_losers_of
  mexc-AreLosers (failed e) = tt
  mexc-AreLosers (response status body) =
      decoded-IsListing _ _ limit (j.decode_tickers body) _ λ rows d.
        or_no_data-losers laws (Losers (text "mexc")) _ limit _ (
          found (Losers (text "mexc")) _ _ mexc_loser rows mexc_loser-Selects
            (Feeds.of_mexc body rows d))

  pub kucoin-AreGainers :
      (r : Response) → AreGainers (text "kucoin") limit (kucoin_gainers_of limit r)
  unfolding kucoin_gainers_of
  kucoin-AreGainers (failed e) = tt
  kucoin-AreGainers (response status body) =
      decoded-IsListing _ _ limit (j.decode_kucoin body) _ λ rows d.
        top_gainers-IsListing laws (Gainers (text "kucoin")) limit _ (
          found (Gainers (text "kucoin")) _ _ kucoin_gainer rows kucoin_gainer-Selects
            (Feeds.of_kucoin body rows d))

  pub kucoin-AreLosers : (r : Response) → AreLosers (text "kucoin") limit (kucoin_losers_of limit r)
  unfolding kucoin_losers_of
  kucoin-AreLosers (failed e) = tt
  kucoin-AreLosers (response status body) =
      decoded-IsListing _ _ limit (j.decode_kucoin body) _ λ rows d.
        or_no_data-losers laws (Losers (text "kucoin")) _ limit _ (
          found (Losers (text "kucoin")) _ _ kucoin_loser rows kucoin_loser-Selects
            (Feeds.of_kucoin body rows d))

  pub bitget-AreGainers :
      (r : Response) → AreGainers (text "bitget") limit (bitget_gainers_of limit r)
  unfolding bitget_gainers_of
  bitget-AreGainers (failed e) = tt
  bitget-AreGainers (response status body) =
      decoded-IsListing _ _ limit (j.decode_bitget body) _ λ reply d.
        if-IsListing _ _ limit (beq reply.code (text "00000")) _ _ (λ fine.
          top_gainers-IsListing laws (Gainers (text "bitget")) limit _ (
            found (Gainers (text "bitget")) _ _ bitget_gainer reply.rows bitget_gainer-Selects
              (Feeds.of_bitget body reply d (beq→≡ reply.code (text "00000") fine))))

  pub bitget-AreLosers : (r : Response) → AreLosers (text "bitget") limit (bitget_losers_of limit r)
  unfolding bitget_losers_of
  bitget-AreLosers (failed e) = tt
  bitget-AreLosers (response status body) =
      decoded-IsListing _ _ limit (j.decode_bitget body) _ λ reply d.
        if-IsListing _ _ limit (beq reply.code (text "00000")) _ _ (λ fine.
          or_no_data-losers laws (Losers (text "bitget")) _ limit _ (
            found (Losers (text "bitget")) _ _ bitget_loser reply.rows bitget_loser-Selects
              (Feeds.of_bitget body reply d (beq→≡ reply.code (text "00000") fine))))
