-- ===== src/Commands/Digest.antt =====
-- internal/commands/digest.go
use crypto_sentinel.Prelude.{
  ℕ, suc, List, [], ◌∷◌, ◌++◌, Bytes, Result, ok, err, is_empty, if◌then◌else◌,
}
use crypto_sentinel.Go.Runtime.{Runtime}
use crypto_sentinel.Go.Text.{text, beq, to_lower, to_upper}
use crypto_sentinel.Go.Decimal.{format_uint}
use crypto_sentinel.Go.Http.{Prog, done, ◌>>=◌}
use crypto_sentinel.Models.{CoinMarket}
use crypto_sentinel.Services.Format.{format_float, int_comma}
use crypto_sentinel.Clients.Coingecko.{fetch_top_markets}
use crypto_sentinel.Clients.Coingecko.Replies.{CoinJson}

module _ ⦃g : Runtime⦄ where
  abbrev period_of : List Bytes → Bytes
  period_of [] = text "now"
  period_of (arg ∷ args) = to_lower arg

  abbrev title_of : Bytes → Bytes
  title_of period =
      if beq period (text "daily")
      then text "Daily Market Digest (Top 5)"
      else text "Market Digest (Top 5 by Market Cap)"

  -- The loop, from the index `i` on.
  abbrev digest_lines : ℕ → List CoinMarket → Bytes
  digest_lines i [] = []
  digest_lines i (c ∷ mkts) =
      format_uint (suc i)
      ++ text ") "
      ++ c.name
      ++ text " ("
      ++ to_upper c.symbol
      ++ text ") — $"
      ++ format_float c.current_price
      ++ text " | 24h: "
      ++ format_float c.price_change_pct24h
      ++ text "% | 7d: "
      ++ format_float c.price_change_pct7d
      ++ text "% | Market Cap: $"
      ++ int_comma (g.to_int64 c.market_cap)
      ++ text "\n"
      ++ digest_lines (suc i) mkts

  abbrev digest_text : Bytes → Result (List CoinMarket) → Result Bytes
  digest_text period (err e) = err (text "Failed to fetch digest: " ++ e)
  digest_text period (ok mkts) =
      if is_empty mkts
      then ok (text "No data for digest.")
      else ok (
          title_of period
          ++ text ":\n"
          ++ digest_lines 0 mkts
          ++ text "\nTip: use `price [symbol]` or `compare [a] [b]` for deeper checks.")

  module _ ⦃j : CoinJson⦄ where
    unfoldable pub cmd_digest : Bytes → List Bytes → Prog (Result Bytes)
    unfolding fetch_top_markets
    cmd_digest key args = fetch_top_markets key 5 >>= λ r. done (digest_text (period_of args) r)
