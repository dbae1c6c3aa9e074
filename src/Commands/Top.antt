-- ===== src/Commands/Top.antt =====
-- internal/commands/top.go
use crypto_sentinel.Prelude.{
  ℕ, suc, List, [], ◌∷◌, ◌++◌, Bytes, Result, ok, err, length, is_empty, if◌then◌else◌,
}
use crypto_sentinel.Go.Runtime.{Runtime}
use crypto_sentinel.Go.Text.{text, to_upper}
use crypto_sentinel.Go.Decimal.{format_uint}
use crypto_sentinel.Go.Http.{Prog, done, ◌>>=◌}
use crypto_sentinel.Models.{CoinMarket}
use crypto_sentinel.Services.Format.{format_float, int_comma}
use crypto_sentinel.Clients.Coingecko.{fetch_top_markets}
use crypto_sentinel.Clients.Coingecko.Replies.{CoinJson}
use crypto_sentinel.Commands.Shared.{limit_of}

module _ ⦃g : Runtime⦄ where
  -- The loop, from the index `i` on.
  abbrev coin_lines : ℕ → List CoinMarket → Bytes
  coin_lines i [] = []
  coin_lines i (c ∷ mkts) =
      format_uint (suc i)
      ++ text ") "
      ++ c.name
      ++ text " ("
      ++ to_upper c.symbol
      ++ text ") — $"
      ++ format_float c.current_price
      ++ text " | 24h: "
      ++ format_float c.price_change_pct24h
      ++ text "% | Mcap: $"
      ++ int_comma (g.to_int64 c.market_cap)
      ++ text "\n"
      ++ coin_lines (suc i) mkts

  abbrev top_text : Result (List CoinMarket) → Result Bytes
  top_text (err e) = err (text "Failed to fetch top markets: " ++ e)
  top_text (ok mkts) =
      if is_empty mkts
      then ok (text "No data for top coins.")
      else ok (
          text "Top "
          ++ format_uint (length mkts)
          ++ text " coins by market cap:\n"
          ++ coin_lines 0 mkts
          ++ text "\nTip: use `price [symbol]` for more details.")

  module _ ⦃j : CoinJson⦄ where
    unfoldable pub cmd_top : Bytes → List Bytes → Prog (Result Bytes)
    unfolding fetch_top_markets limit_of
    cmd_top key args = fetch_top_markets key (limit_of 10 args) >>= λ r. done (top_text r)
