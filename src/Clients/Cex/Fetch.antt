-- ===== src/Clients/Cex/Fetch.antt =====
-- internal/clients/cex.go: the list of exchanges, and the choice of a client by name.
pub mod Feeds
pub mod Rows
pub mod Replies
pub mod Products
pub mod Laws
use crypto_sentinel.Prelude.{
  ℕ, Bool, true, false, List, [], ◌∷◌, ◌++◌, Bytes, Result, err, if◌then◌else◌, ◌≡◌, refl,
}
use crypto_sentinel.Go.Runtime.{Runtime}
use crypto_sentinel.Go.Text.{text, beq, to_lower}
use crypto_sentinel.Go.Sort.{Sorter}
use crypto_sentinel.Go.Http.{Prog, done}
use crypto_sentinel.Models.{CexGainer}
use crypto_sentinel.Clients.Wire.{CexJson}
use crypto_sentinel.Clients.Cex.Coinbase.{fetch_coinbase_gainers, fetch_coinbase_losers}
use crypto_sentinel.Clients.Cex.Binance.{fetch_binance_gainers, fetch_binance_losers}
use crypto_sentinel.Clients.Cex.Okx.{fetch_okx_gainers, fetch_okx_losers}
use crypto_sentinel.Clients.Cex.Bybit.{fetch_bybit_gainers, fetch_bybit_losers}
use crypto_sentinel.Clients.Cex.Mexc.{fetch_mexc_gainers, fetch_mexc_losers}
use crypto_sentinel.Clients.Cex.Kucoin.{fetch_kucoin_gainers, fetch_kucoin_losers}
use crypto_sentinel.Clients.Cex.Bitget.{fetch_bitget_gainers, fetch_bitget_losers}

unfoldable pub supported_cex_list : List Bytes
supported_cex_list =
    text "coinbase"
    ∷ text "binance"
    ∷ text "okx"
    ∷ text "bybit"
    ∷ text "mexc"
    ∷ text "kucoin"
    ∷ text "bitget"
    ∷ []

-- The loop of IsSupportedCex.
unfoldable pub among : Bytes → List Bytes → Bool
among n [] = false
among n (c ∷ cs) = if beq c n then true else among n cs

module _ ⦃g : Runtime⦄ where
  unfoldable pub is_supported_cex : Bytes → Bool
  unfolding among supported_cex_list
  is_supported_cex name = among (to_lower name) supported_cex_list

  module _ ⦃s : Sorter⦄ ⦃j : CexJson⦄ where
    abbrev gainers_by_name : Bytes → Bytes → ℕ → Prog (Result (List CexGainer))
    gainers_by_name n cex limit =
        if beq n (text "coinbase")
        then fetch_coinbase_gainers limit
        else if beq n (text "binance")
        then fetch_binance_gainers limit
        else if beq n (text "okx")
        then fetch_okx_gainers limit
        else if beq n (text "bybit")
        then fetch_bybit_gainers limit
        else if beq n (text "mexc")
        then fetch_mexc_gainers limit
        else if beq n (text "kucoin")
        then fetch_kucoin_gainers limit
        else if beq n (text "bitget")
        then fetch_bitget_gainers limit
        else done (err (text "unsupported cex: " ++ cex))

    abbrev losers_by_name : Bytes → Bytes → ℕ → Prog (Result (List CexGainer))
    losers_by_name n cex limit =
        if beq n (text "coinbase")
        then fetch_coinbase_losers limit
        else if beq n (text "binance")
        then fetch_binance_losers limit
        else if beq n (text "okx")
        then fetch_okx_losers limit
        else if beq n (text "bybit")
        then fetch_bybit_losers limit
        else if beq n (text "mexc")
        then fetch_mexc_losers limit
        else if beq n (text "kucoin")
        then fetch_kucoin_losers limit
        else if beq n (text "bitget")
        then fetch_bitget_losers limit
        else done (err (text "unsupported cex: " ++ cex))

    -- The switch on strings.ToLower(cex).
    unfoldable pub fetch_cex_gainers : Bytes → ℕ → Prog (Result (List CexGainer))
    fetch_cex_gainers cex limit = gainers_by_name (to_lower cex) cex limit

    unfoldable pub fetch_cex_losers : Bytes → ℕ → Prog (Result (List CexGainer))
    fetch_cex_losers cex limit = losers_by_name (to_lower cex) cex limit
