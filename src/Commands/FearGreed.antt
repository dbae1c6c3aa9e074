-- ===== src/Commands/FearGreed.antt =====
-- internal/commands/feargreed.go
pub mod Laws
use crypto_sentinel.Prelude.{
  ℕ, Bool, true, false, ◌&&◌, ◌||◌, List, [], ◌∷◌, ◌++◌, none, some, Bytes, Result, ok, err, ◌==◌,
  leb, is_empty, if◌then◌else◌,
}
use crypto_sentinel.Prelude.Int.{ℤ, pos, negsuc, sub64, neg64}
use crypto_sentinel.Go.Runtime.{Runtime}
use crypto_sentinel.Go.Text.{text, contains, to_lower}
use crypto_sentinel.Go.Decimal.{atoi, format_uint, format_int}
use crypto_sentinel.Go.Http.{Response, failed, response, Prog, done, send}
use crypto_sentinel.Clients.Coingecko.{from_agent}

pub record IndexPoint : Type 0 where
  pub value : Bytes
  pub classification : Bytes
  pub timestamp : Bytes

pub record FearGreedJson : Type 0 where
  pub decode_index : Bytes → Result (List IndexPoint)

-- The interpretations; `unexplained` is the empty one.
pub data Note : Type 0 where
  extreme_fear fear neutral greed extreme_greed unexplained : Note

abbrev note_text : Note → Bytes
note_text extreme_fear =
    text "Interpretation: the market is in *Extreme Fear*. Many participants are scared and "
    ++ text "selling at low prices. This often aligns with long-term accumulation zones, but "
    ++ text "volatility and downside risk are still high."
note_text fear =
    text "Interpretation: the market is in a *Fear* regime. Sentiment is negative and volatility "
    ++ text "can spike. Aggressive traders sometimes start looking for entries here."
note_text neutral =
    text "Interpretation: the market is *Neutral*. Neither bulls nor bears clearly dominate. Good "
    ++ text "phase to observe where the next major trend might build."
note_text greed =
    text "Interpretation: the market is in *Greed* mode. Optimism is increasing and prices have "
    ++ text "already moved up. Stick to your risk management and avoid chasing green candles "
    ++ text "blindly."
note_text extreme_greed =
    text "Interpretation: the market is in *Extreme Greed*. Euphoria is high and assets can be "
    ++ text "overbought. Great time to be disciplined, rebalance, or secure profits rather than "
    ++ text "FOMO in."
note_text unexplained = []

-- value >= n, value <= n, and lo <= value && value <= hi, for numbers of the source
abbrev pub at_least : ℤ → ℕ → Bool
at_least (pos v) n = leb n v
at_least (negsuc v) n = false

abbrev pub at_most : ℤ → ℕ → Bool
at_most (pos v) n = leb v n
at_most (negsuc v) n = true

abbrev pub within : ℕ → ℕ → ℤ → Bool
within lo hi (pos v) = leb lo v && leb v hi
within lo hi (negsuc v) = false

module _ ⦃g : Runtime⦄ where
  -- The switch of explainFearGreed, on the classification in lower case.
  unfoldable pub note_of : ℤ → Bytes → Note
  note_of value class =
      if contains class (text "extreme fear") || at_most value 24
      then extreme_fear
      else if contains class (text "fear") || within 25 49 value
      then fear
      else if contains class (text "neutral") || within 50 54 value
      then neutral
      else if contains class (text "greed") && at_most value 74
      then greed
      else if contains class (text "extreme greed") || at_least value 75
      then extreme_greed
      else unexplained

  unfoldable explain_fear_greed : ℤ → Bytes → Note
  unfolding note_of
  explain_fear_greed value classification = note_of value (to_lower classification)

  abbrev last_update : Bytes → Bytes
  last_update timestamp = elim (atoi timestamp) [ none ↦ timestamp | some ts ↦ g.format_utc ts ]

-- The switch on the difference of the values, and its line.
abbrev difference_line : ℤ → ℤ → ℤ → Bytes
difference_line (pos diff) prev cur =
    if diff == 0
    then text "24h change: no change (still " ++ format_int cur ++ text ")"
    else text "24h change: ↑ +"
      ++ format_uint diff
      ++ text " (from "
      ++ format_int prev
      ++ text " → "
      ++ format_int cur
      ++ text ")"
difference_line (negsuc n) prev cur =
    text "24h change: ↓ "
    ++ format_int (neg64 (negsuc n))
    ++ text " (from "
    ++ format_int prev
    ++ text " → "
    ++ format_int cur
    ++ text ")"

-- changeLine, with the points behind the current one.
abbrev change_line : ℤ → List IndexPoint → Bytes
change_line cur [] = []
change_line cur (prev ∷ rest) = elim (atoi prev.value) [
  | none ↦ []
  | some prev_val ↦ difference_line (sub64 cur prev_val) prev_val cur
]

-- curVal
abbrev index_value : Bytes → ℤ
index_value value = elim (atoi value) [ none ↦ pos 0 | some v ↦ v ]

-- if s != "" { b.WriteString(s + end) }
abbrev unless_empty : Bytes → Bytes → Bytes
unless_empty s end = if is_empty s then [] else s ++ end

abbrev quick_guide : Bytes
quick_guide =
    text "Quick guide:\n"
    ++ text "• 0–24   : Extreme Fear (capitulation / panic selling)\n"
    ++ text "• 25–49  : Fear (market still cautious / risk-off)\n"
    ++ text "• 50–54  : Neutral (no clear dominance of bulls or bears)\n"
    ++ text "• 55–74  : Greed (optimism rising, risk of FOMO entries)\n"
    ++ text "• 75–100 : Extreme Greed (euphoria, market overheated and correction risk is high)\n\n"
    ++ text "Source: alternative.me"

module _ ⦃g : Runtime⦄ where
  unfoldable index_text : IndexPoint → List IndexPoint → Bytes
  unfolding explain_fear_greed
  index_text current rest =
      let cur = index_value current.value in
      text "📊 *Crypto Fear & Greed Index*\nCurrent: "
      ++ format_int cur
      ++ text "/100 — "
      ++ current.classification
      ++ text "\n"
      ++ unless_empty (change_line cur rest) (text "\n")
      ++ text "Last update: "
      ++ last_update current.timestamp
      ++ text "\n\n"
      ++ unless_empty (note_text (explain_fear_greed cur current.classification)) (text "\n\n")
      ++ quick_guide

  abbrev points_text : List IndexPoint → Bytes
  points_text [] = text "No Fear & Greed data available."
  points_text (current ∷ rest) = index_text current rest

  module _ ⦃j : FearGreedJson⦄ where
    abbrev index_reply : Response → Result Bytes
    index_reply (failed e) = err (text "Fear & Greed API error: " ++ e)
    index_reply (response status body) =
        if status == 200
        then elim (j.decode_index body) [
          | err e ↦ err (text "decode error: " ++ e)
          | ok points ↦ ok (points_text points)
        ]
        else err (text "Fear & Greed status: " ++ format_uint status)

    unfoldable pub cmd_fear_greed : List Bytes → Prog (Result Bytes)
    unfolding index_text
    cmd_fear_greed args =
        send (from_agent (text "https://api.alternative.me/fng/?limit=2")) λ r. done (index_reply r)
