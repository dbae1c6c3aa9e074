-- ===== src/Commands/GainersCex.antt =====
-- internal/commands/gainers_cex.go: `gainers_cex` and `gainers_compare`.
pub mod Laws
pub mod Comparing
use crypto_sentinel.Prelude.{
  ℕ, suc, not, ◌&&◌, ◌||◌, List, [], ◌∷◌, ◌++◌, none, some, Bytes, Result, ok, err, length, ltb,
  is_empty, ◌==◌, if◌then◌else◌,
}
use crypto_sentinel.Prelude.Int.{pos, negsuc}
use crypto_sentinel.Go.Runtime.{Runtime}
use crypto_sentinel.Go.Float64.{Float64, f_zero, lt, gt}
use crypto_sentinel.Go.Text.{text, beq, to_lower, to_upper}
use crypto_sentinel.Go.Decimal.{atoi, format_uint}
use crypto_sentinel.Go.Sort.{Sorter}
use crypto_sentinel.Go.Http.{Prog, done, ◌>>=◌}
use crypto_sentinel.Models.{CexGainer}
use crypto_sentinel.Services.Format.{format_float}
use crypto_sentinel.Clients.Wire.{CexJson}
use crypto_sentinel.Clients.Cex.Fetch.{supported_cex_list, is_supported_cex, fetch_cex_gainers}
use crypto_sentinel.Commands.Shared.{limit_of}
use crypto_sentinel.Commands.Shared.Exchanges.{cex_loop}

abbrev arrow : Float64 → Bytes
arrow p = if gt p f_zero then text "▲" else if lt p f_zero then text "▼" else text "→"

abbrev cex_emoji : List (Bytes × Bytes)
cex_emoji =
    (text "coinbase", text "🟦")
    ∷ (text "binance", text "🟨")
    ∷ (text "okx", text "⬛")
    ∷ (text "bybit", text "🟧")
    ∷ (text "mexc", text "🟩")
    ∷ (text "kucoin", text "🟪")
    ∷ (text "bitget", text "🔵")
    ∷ []

-- cexEmoji[ex], and "📊" for a missing key
abbrev emoji_in : List (Bytes × Bytes) → Bytes → Bytes
emoji_in [] ex = text "📊"
emoji_in ((name, emo) ∷ rest) ex = if beq ex name then emo else emoji_in rest ex

module _ ⦃g : Runtime⦄ where
  abbrev gainer_lines : ℕ → List CexGainer → Bytes
  gainer_lines i [] = []
  gainer_lines i (x ∷ xs) =
      format_uint (suc i)
      ++ text ") "
      ++ x.symbol
      ++ text " — $"
      ++ format_float x.price
      ++ text " | 24h: "
      ++ arrow x.change_pct
      ++ text " "
      ++ format_float x.change_pct
      ++ text "%\n"
      ++ gainer_lines (suc i) xs

  abbrev error_section : Bytes → Bytes → Bytes
  error_section ex e =
      text "\n"
      ++ emoji_in cex_emoji ex
      ++ text " "
      ++ to_upper ex
      ++ text " — error: "
      ++ e
      ++ text "\n"

  abbrev list_section : Bytes → List CexGainer → Bytes
  list_section ex gainers =
      text "\n"
      ++ emoji_in cex_emoji ex
      ++ text " **"
      ++ to_upper ex
      ++ text "**\n"
      ++ gainer_lines 0 gainers

  -- What a round of the loop of CmdGainersCEX writes.
  abbrev pub section : Bytes → Result (List CexGainer) → Bytes
  section ex (err e) = error_section ex e
  section ex (ok gainers) =
      if is_empty gainers
      then text "\n" ++ emoji_in cex_emoji ex ++ text " " ++ to_upper ex ++ text " — no data\n"
      else list_section ex gainers

  -- avg += x.ChangePct
  abbrev sum_changes : Float64 → List CexGainer → Float64
  sum_changes avg [] = avg
  sum_changes avg (x ∷ xs) = sum_changes (g.add avg x.change_pct) xs

  abbrev pub average : List CexGainer → Float64
  average xs = g.div (sum_changes f_zero xs) (g.of_int (length xs))

  abbrev stronger : Bytes → Float64 → Bytes → Float64 → Bytes
  stronger cex1 avg1 cex2 avg2 =
      emoji_in cex_emoji cex1
      ++ text " "
      ++ to_upper cex1
      ++ text " **shows stronger avg gain ("
      ++ g.fixed 2 avg1
      ++ text "%)** vs "
      ++ to_upper cex2
      ++ text " "
      ++ g.fixed 2 avg2
      ++ text "%"

  unfoldable pub winner : Bytes → Float64 → Bytes → Float64 → Bytes
  winner cex1 avg1 cex2 avg2 =
      if gt avg1 avg2
      then stronger cex1 avg1 cex2 avg2
      else if gt avg2 avg1
      then stronger cex2 avg2 cex1 avg1
      else text "Both exchanges show similar average gain."

  -- The summary, which is left out unless both lists have members.
  unfoldable pub insight : Bytes → Result (List CexGainer) → Bytes → Result (List CexGainer) → Bytes
  unfolding winner
  insight cex1 (ok g1) cex2 (ok g2) =
      if not (is_empty g1) && not (is_empty g2)
      then text "\n📌 **Summary Insight**\n- "
        ++ winner cex1 (average g1) cex2 (average g2)
        ++ text "\n- Comparing top movers rather than overall market.\n"
      else []
  insight cex1 _ cex2 _ = []

  abbrev detail : Bytes → Result (List CexGainer) → Bytes
  detail ex (err e) = error_section ex e
  detail ex (ok gainers) = list_section ex gainers

  abbrev pub compare_report :
      ℕ → Bytes → Result (List CexGainer) → Bytes → Result (List CexGainer) → Bytes
  compare_report limit cex1 r1 cex2 r2 =
      text "📊 **Gainers comparison: "
      ++ to_upper cex1
      ++ text " vs "
      ++ to_upper cex2
      ++ text "** (top "
      ++ format_uint limit
      ++ text ")\n"
      ++ insight cex1 r1 cex2 r2
      ++ detail cex1 r1
      ++ detail cex2 r2

  module _ ⦃s : Sorter⦄ ⦃j : CexJson⦄ where
    abbrev pub gainers_header : ℕ → Bytes
    gainers_header limit =
        text "📈 **Top "
        ++ format_uint limit
        ++ text " gainers per CEX**\nAcross major centralized exchanges:\n"

    unfoldable pub cmd_gainers_cex : List Bytes → Prog (Result Bytes)
    unfolding cex_loop limit_of
    cmd_gainers_cex args =
        let limit = limit_of 5 args in
        cex_loop (λ ex. fetch_cex_gainers ex limit) section supported_cex_list
          (gainers_header limit)

    -- What CmdGainersCompare does with good names.
    abbrev pub compare_cex : ℕ → Bytes → Bytes → Prog (Result Bytes)
    compare_cex limit cex1 cex2 = fetch_cex_gainers cex1 limit >>= λ r1.
        fetch_cex_gainers cex2 limit >>= λ r2. done (ok (compare_report limit cex1 r1 cex2 r2))

    abbrev pub compare_named : ℕ → Bytes → Bytes → Prog (Result Bytes)
    compare_named limit cex1 cex2 =
        if not (is_supported_cex cex1) || not (is_supported_cex cex2)
        then done (ok (text "Supported CEX: coinbase, binance, okx, bybit, mexc, kucoin, bitget"))
        else compare_cex limit cex1 cex2

    abbrev usage_compare : Bytes
    usage_compare =
        text "Usage: gainers_compare [limit] [cex1] [cex2]\nExample: gainers_compare 5 binance okx"

    unfoldable pub cmd_gainers_compare : List Bytes → Prog (Result Bytes)
    cmd_gainers_compare [] = done (ok usage_compare)
    cmd_gainers_compare (a ∷ []) = done (ok usage_compare)
    cmd_gainers_compare (a ∷ b ∷ []) = done (ok usage_compare)
    cmd_gainers_compare (a ∷ b ∷ c ∷ args) = elim (atoi a) [
      | none ↦ done (ok (text "Invalid limit. Use number 1–50."))
      | some (negsuc n) ↦ done (ok (text "Invalid limit. Use number 1–50."))
      | some (pos limit) ↦
          if limit == 0 || ltb 50 limit
          then done (ok (text "Invalid limit. Use number 1–50."))
          else compare_named limit (to_lower b) (to_lower c)
    ]
