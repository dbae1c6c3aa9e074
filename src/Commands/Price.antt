-- ===== src/Commands/Price.antt =====
-- internal/commands/price.go: `price` and `compare`.
pub mod Laws
pub mod Replies
use crypto_sentinel.Prelude.{List, [], ◌∷◌, ◌++◌, Bytes, Result, ok, err, if◌then◌else◌}
use crypto_sentinel.Go.Runtime.{Runtime}
use crypto_sentinel.Go.Float64.{Float64, f_zero, f_hundred, lt, gt}
use crypto_sentinel.Go.Text.{text, to_lower, to_upper}
use crypto_sentinel.Go.Http.{Prog, done, ◌>>=◌}
use crypto_sentinel.Models.{CoinMarket}
use crypto_sentinel.Services.Format.{format_float, int_comma}
use crypto_sentinel.Clients.Coingecko.{resolve_coin_id, fetch_coin_market}
use crypto_sentinel.Clients.Coingecko.Replies.{CoinJson}
use crypto_sentinel.Commands.Shared.{or_say, plainly}

module _ ⦃g : Runtime⦄ where
  unfoldable pub format_change : Float64 → Bytes
  format_change pct =
      if gt pct f_zero
      then text "▲" ++ text " " ++ text "+" ++ format_float pct ++ text "%"
      else if lt pct f_zero
      then text "▼" ++ text " " ++ format_float pct ++ text "%"
      else text "→" ++ text " " ++ format_float pct ++ text "%"

  -- volPct
  abbrev volume_share : CoinMarket → Float64
  volume_share m =
      if gt m.market_cap f_zero then g.mul (g.div m.total_volume m.market_cap) f_hundred else f_zero

  abbrev volume_note : CoinMarket → Bytes
  volume_note m =
      if gt (volume_share m) f_zero
      then text " (≈" ++ format_float (volume_share m) ++ text "% of mcap)"
      else []

  abbrev price_text : CoinMarket → Bytes
  price_text mkt =
      text "📊 "
      ++ mkt.name
      ++ text " ("
      ++ to_upper mkt.symbol
      ++ text ")\nPrice: $"
      ++ format_float mkt.current_price
      ++ text "\n24h: "
      ++ format_change mkt.price_change_pct24h
      ++ text " | 7d: "
      ++ format_change mkt.price_change_pct7d
      ++ text "\nMarket Cap: $"
      ++ int_comma (g.to_int64 mkt.market_cap)
      ++ text "\n24h Volume: $"
      ++ int_comma (g.to_int64 mkt.total_volume)
      ++ volume_note mkt
      ++ text "\nSource: CoinGecko\nTip: use `compare "
      ++ to_lower mkt.symbol
      ++ text " btc` or another asset to compare performance.\n"

  -- The block of an asset.
  abbrev asset_text : CoinMarket → Bytes
  asset_text m =
      m.name
      ++ text " ("
      ++ to_upper m.symbol
      ++ text ")\n  Price: $"
      ++ format_float m.current_price
      ++ text "\n  24h:   "
      ++ format_change m.price_change_pct24h
      ++ text "\n  7d:    "
      ++ format_change m.price_change_pct7d
      ++ text "\n  Mcap:  $"
      ++ int_comma (g.to_int64 m.market_cap)
      ++ text "\n  Vol 24h: $"
      ++ int_comma (g.to_int64 m.total_volume)
      ++ volume_note m
      ++ text "\n\n"

  unfoldable pub day_winner : CoinMarket → CoinMarket → Bytes
  day_winner a b =
      let chg_a = format_change a.price_change_pct24h in
      let chg_b = format_change b.price_change_pct24h in
      if gt a.price_change_pct24h b.price_change_pct24h
      then text "- 24h performance: "
        ++ to_upper a.symbol
        ++ text " outperformed "
        ++ to_upper b.symbol
        ++ text " ("
        ++ chg_a
        ++ text " vs "
        ++ chg_b
        ++ text ")\n"
      else if lt a.price_change_pct24h b.price_change_pct24h
      then text "- 24h performance: "
        ++ to_upper b.symbol
        ++ text " outperformed "
        ++ to_upper a.symbol
        ++ text " ("
        ++ chg_b
        ++ text " vs "
        ++ chg_a
        ++ text ")\n"
      else text "- 24h performance: similar moves (" ++ chg_a ++ text " vs " ++ chg_b ++ text ")\n"

  unfoldable pub week_winner : CoinMarket → CoinMarket → Bytes
  week_winner a b =
      let chg_a = format_change a.price_change_pct7d in
      let chg_b = format_change b.price_change_pct7d in
      if gt a.price_change_pct7d b.price_change_pct7d
      then text "- 7d trend: "
        ++ to_upper a.symbol
        ++ text " led the week ("
        ++ chg_a
        ++ text " vs "
        ++ chg_b
        ++ text ")\n"
      else if lt a.price_change_pct7d b.price_change_pct7d
      then text "- 7d trend: "
        ++ to_upper b.symbol
        ++ text " led the week ("
        ++ chg_b
        ++ text " vs "
        ++ chg_a
        ++ text ")\n"
      else text "- 7d trend: roughly equal (" ++ chg_a ++ text " vs " ++ chg_b ++ text ")\n"

  unfoldable pub size_winner : CoinMarket → CoinMarket → Bytes
  size_winner a b =
      if gt a.market_cap b.market_cap
      then text "- Size: " ++ a.name ++ text " has the larger market cap.\n"
      else if lt a.market_cap b.market_cap
      then text "- Size: " ++ b.name ++ text " has the larger market cap.\n"
      else text "- Size: both have similar market caps.\n"

  abbrev pub summary_text : CoinMarket → CoinMarket → Bytes
  summary_text a b = text "Summary:\n" ++ day_winner a b ++ week_winner a b ++ size_winner a b

  abbrev compare_text : Bytes → Bytes → CoinMarket → CoinMarket → Bytes
  compare_text a_sym b_sym a b =
      text "📊 Comparison: "
      ++ to_upper a_sym
      ++ text " vs "
      ++ to_upper b_sym
      ++ text "\n\n"
      ++ asset_text a
      ++ asset_text b
      ++ summary_text a b
      ++ text "\nSource: CoinGecko"

  module _ ⦃j : CoinJson⦄ where
    -- cl.ResolveCoinID, cl.FetchCoinMarket, and their errors
    abbrev pub resolve_or_say :
        {B : Type 0} → (Result Bytes → B) → Bytes → Bytes → (Bytes → Prog B) → Prog B
    resolve_or_say ret what sym f =
        resolve_coin_id sym
        >>= or_say ret (text "Could not resolve " ++ what ++ text " '" ++ sym ++ text "': ") f

    abbrev pub market_or_say :
        {B : Type 0} → (Result Bytes → B) → Bytes → Bytes → (CoinMarket → Prog B) → Prog B
    market_or_say ret sym id f =
        fetch_coin_market id
        >>= or_say ret (text "Failed to fetch market data for '" ++ sym ++ text "': ") f

    unfoldable pub cmd_price : List Bytes → Prog (Result Bytes)
    cmd_price [] = done (ok (text "Usage: price [symbol]\nExample: price btc"))
    cmd_price (sym ∷ args) =
        resolve_or_say plainly (text "coin") sym
          λ id. market_or_say plainly sym id λ mkt. done (ok (price_text mkt))

    unfoldable pub cmd_compare : List Bytes → Prog (Result Bytes)
    cmd_compare [] = done (ok (text "Usage: compare [symbol1] [symbol2]\nExample: compare btc eth"))
    cmd_compare (sym ∷ []) =
        done (ok (text "Usage: compare [symbol1] [symbol2]\nExample: compare btc eth"))
    cmd_compare (a_sym ∷ b_sym ∷ args) = resolve_or_say plainly (text "asset") a_sym λ id_a.
        resolve_or_say plainly (text "asset") b_sym λ id_b.
          market_or_say plainly a_sym id_a
            λ a. market_or_say plainly b_sym id_b λ b. done (ok (compare_text a_sym b_sym a b))
