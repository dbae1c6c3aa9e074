-- ===== src/Commands/GainersCex/Comparing.antt =====
-- What `gainers_compare` answers.
use crypto_sentinel.Prelude.{
  ℕ, ◌≤◌, true, false, ◌&&◌, ◌||◌, List, some, Bytes, Result, ok, ltb, ◌==◌, ◌≡◌,
}
use crypto_sentinel.Prelude.Int.{pos}
use crypto_sentinel.Go.Runtime.{Runtime}
use crypto_sentinel.Go.Text.{text, to_lower}
use crypto_sentinel.Go.Decimal.{atoi}
use crypto_sentinel.Models.{CexGainer}
use crypto_sentinel.Clients.Wire.{CexJson}
use crypto_sentinel.Clients.Cex.Fetch.{is_supported_cex}
use crypto_sentinel.Clients.Cex.Fetch.Replies.{AreGainers}
use crypto_sentinel.Commands.GainersCex.{compare_report}

module _ ⦃g : Runtime⦄ ⦃j : CexJson⦄ where
  -- What `gainers_compare` returns on a limit and two names: no error, ever.
  pub data IsCexComparison (a b c : Bytes) : Result Bytes → Type 0 where
    bad_limit :
        ((limit : ℕ) → atoi a ≡ some (pos limit) → (limit == 0 || ltb 50 limit) ≡ true)
        → IsCexComparison a b c (ok (text "Invalid limit. Use number 1–50."))
    not_supported :
        (is_supported_cex (to_lower b) && is_supported_cex (to_lower c)) ≡ false
        → IsCexComparison a b c
            (ok (text "Supported CEX: coinbase, binance, okx, bybit, mexc, kucoin, bitget"))
    compared :
        (limit : ℕ) (r1 r2 : Result (List CexGainer))
        → atoi a ≡ some (pos limit)
        → 1 ≤ limit
        → limit ≤ 50
        → AreGainers (to_lower (to_lower b)) limit r1
        → AreGainers (to_lower (to_lower c)) limit r2
        → IsCexComparison a b c (ok (compare_report limit (to_lower b) r1 (to_lower c) r2))
