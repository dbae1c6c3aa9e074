-- ===== src/Clients/Cex/Fetch/Laws.antt =====
-- What a call of `FetchCexGainers` or `FetchCexLosers` returns, for every exchange.
use crypto_sentinel.Prelude.{ℕ, List, Bytes, Result, if◌then◌else◌, sym, subst}
use crypto_sentinel.Go.Runtime.{Runtime}
use crypto_sentinel.Go.Text.{text, beq, to_lower}
use crypto_sentinel.Go.Text.Laws.{beq→≡}
use crypto_sentinel.Go.Sort.{Sorter, IsSorter}
use crypto_sentinel.Go.Http.{Prog}
use crypto_sentinel.Go.Http.Laws.{Returns, if-Returns}
use crypto_sentinel.Models.{CexGainer}
use crypto_sentinel.Clients.Wire.{CexJson}
use crypto_sentinel.Clients.Cex.Binance.{fetch_binance_losers}
use crypto_sentinel.Clients.Cex.Okx.{fetch_okx_losers}
use crypto_sentinel.Clients.Cex.Bybit.{fetch_bybit_losers}
use crypto_sentinel.Clients.Cex.Mexc.{fetch_mexc_losers}
use crypto_sentinel.Clients.Cex.Kucoin.{fetch_kucoin_losers}
use crypto_sentinel.Clients.Cex.Bitget.{fetch_bitget_losers}
use crypto_sentinel.Clients.Cex.Fetch.{fetch_cex_losers}
use crypto_sentinel.Clients.Cex.Fetch.Products.{coinbase-AreLosers}
use crypto_sentinel.Clients.Cex.Fetch.Replies.{
  AreLosers, binance-AreLosers, okx-AreLosers, bybit-AreLosers, mexc-AreLosers, kucoin-AreLosers,
  bitget-AreLosers,
}

module _ ⦃g : Runtime⦄ ⦃s : Sorter⦄ ⦃j : CexJson⦄ (laws : IsSorter s) where
  losers_case :
      (n name : Bytes) (limit : ℕ) (m k : Prog (Result (List CexGainer)))
      → Returns (AreLosers name limit) m
      → Returns (AreLosers n limit) k
      → Returns (AreLosers n limit) (if beq n name then m else k)
  losers_case n name limit m k h rest =
      if-Returns _ (beq n name) m k
        (λ e. subst (λ x. Returns (AreLosers x limit) m) (sym (beq→≡ n name e)) h) rest

  pub fetch_cex_losers-IsListing :
      (cex : Bytes) (limit : ℕ)
      → Returns (AreLosers (to_lower cex) limit) (fetch_cex_losers cex limit)
  unfolding fetch_cex_losers fetch_binance_losers fetch_okx_losers fetch_bybit_losers
      fetch_mexc_losers fetch_kucoin_losers fetch_bitget_losers
  fetch_cex_losers-IsListing cex limit =
      let n = to_lower cex in
      losers_case n (text "coinbase") limit _ _ (coinbase-AreLosers laws limit) (
        losers_case n (text "binance") limit _ _ (λ r. binance-AreLosers laws limit r)
          (losers_case n (text "okx") limit _ _ (λ r. okx-AreLosers laws limit r)
            (losers_case n (text "bybit") limit _ _ (λ r. bybit-AreLosers laws limit r)
              (losers_case n (text "mexc") limit _ _ (λ r. mexc-AreLosers laws limit r)
                (losers_case n (text "kucoin") limit _ _ (λ r. kucoin-AreLosers laws limit r)
                  (losers_case n (text "bitget") limit _ _ (λ r. bitget-AreLosers laws limit r)
                    (tt)))))))
