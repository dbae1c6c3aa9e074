-- ===== src/Clients/Cex/Fetch/Rows.antt =====
-- The rows that each client keeps.
use crypto_sentinel.Prelude.{Bytes, ◌&&◌, arith}
use crypto_sentinel.Go.Runtime.{Runtime}
use crypto_sentinel.Go.Text.{text}
use crypto_sentinel.Clients.Cex.Binance.{binance_gainer, binance_loser}
use crypto_sentinel.Clients.Cex.Okx.{okx_gainer, okx_loser}
use crypto_sentinel.Clients.Cex.Bybit.{bybit_gainer, bybit_loser}
use crypto_sentinel.Clients.Cex.Mexc.{mexc_gainer, mexc_loser}
use crypto_sentinel.Clients.Cex.Kucoin.{kucoin_gainer, kucoin_loser}
use crypto_sentinel.Clients.Cex.Bitget.{bitget_gainer, bitget_loser}
use crypto_sentinel.Clients.Cex.Coinbase.{coinbase_gainer, coinbase_loser}
use crypto_sentinel.Clients.Cex.Listing.{Selects}
use crypto_sentinel.Clients.Cex.Fetch.Feeds.{
  is_ticker, is_okx, is_bybit, has_dollars, is_kucoin, is_bitget, is_coinbase, ticker_pair,
  okx_pair, bybit_pair, kucoin_pair, bitget_pair, coinbase_pair, any_change, falls,
}

module _ ⦃g : Runtime⦄ where
  pub binance_gainer-Selects :
      Selects
        (λ t. is_ticker t && any_change (ticker_pair (text "binance") t))
        (ticker_pair (text "binance"))
        binance_gainer
  unfolding binance_gainer
  binance_gainer-Selects t = ground arith

  pub binance_loser-Selects :
      Selects
        (λ t. is_ticker t && falls (ticker_pair (text "binance") t))
        (ticker_pair (text "binance"))
        binance_loser
  unfolding binance_loser
  binance_loser-Selects t = ground arith

  pub mexc_gainer-Selects :
      Selects
        (λ t. is_ticker t && any_change (ticker_pair (text "mexc") t))
        (ticker_pair (text "mexc"))
        mexc_gainer
  unfolding mexc_gainer
  mexc_gainer-Selects t = ground arith

  pub mexc_loser-Selects :
      Selects
        (λ t. is_ticker t && falls (ticker_pair (text "mexc") t))
        (ticker_pair (text "mexc"))
        mexc_loser
  unfolding mexc_loser
  mexc_loser-Selects t = ground arith

  pub okx_gainer-Selects : Selects (λ t. is_okx t && any_change (okx_pair t)) okx_pair okx_gainer
  unfolding okx_gainer
  okx_gainer-Selects t = ground arith

  pub okx_loser-Selects : Selects (λ t. is_okx t && falls (okx_pair t)) okx_pair okx_loser
  unfolding okx_loser
  okx_loser-Selects t = ground arith

  pub bybit_gainer-Selects :
      Selects (λ t. is_bybit t && any_change (bybit_pair t)) bybit_pair bybit_gainer
  unfolding bybit_gainer
  bybit_gainer-Selects t = ground arith

  pub bybit_loser-Selects : Selects (λ t. is_bybit t && falls (bybit_pair t)) bybit_pair bybit_loser
  unfolding bybit_loser
  bybit_loser-Selects t = ground arith

  pub kucoin_gainer-Selects :
      Selects (λ t. has_dollars t && any_change (kucoin_pair t)) kucoin_pair kucoin_gainer
  unfolding kucoin_gainer
  kucoin_gainer-Selects t = ground arith

  pub kucoin_loser-Selects :
      Selects (λ t. is_kucoin t && falls (kucoin_pair t)) kucoin_pair kucoin_loser
  unfolding kucoin_loser
  kucoin_loser-Selects t = ground arith

  pub bitget_gainer-Selects :
      Selects (λ t. is_bitget t && any_change (bitget_pair t)) bitget_pair bitget_gainer
  unfolding bitget_gainer
  bitget_gainer-Selects t = ground arith

  pub bitget_loser-Selects :
      Selects (λ t. is_bitget t && falls (bitget_pair t)) bitget_pair bitget_loser
  unfolding bitget_loser
  bitget_loser-Selects t = ground arith

  pub coinbase_gainer-Selects :
      (pid : Bytes)
      → Selects
          (λ t. is_coinbase t && any_change (coinbase_pair pid t))
          (coinbase_pair pid)
          (coinbase_gainer pid)
  unfolding coinbase_gainer
  coinbase_gainer-Selects pid t = ground arith

  pub coinbase_loser-Selects :
      (pid : Bytes)
      → Selects
          (λ t. is_coinbase t && falls (coinbase_pair pid t))
          (coinbase_pair pid)
          (coinbase_loser pid)
  unfolding coinbase_loser
  coinbase_loser-Selects pid t = ground arith
