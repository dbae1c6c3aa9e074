-- ===== src/Commands/Sentiment.antt =====
-- internal/commands/sentiment.go
pub mod Laws
use crypto_sentinel.Prelude.{
  ℕ, ◌+◌, List, [], ◌∷◌, ◌++◌, Bytes, Result, ok, ltb, leb, if◌then◌else◌,
}
use crypto_sentinel.Go.Runtime.{Runtime}
use crypto_sentinel.Go.Float64.{Float64, float, f_zero, f_half, f_hundred, neg, lt, gt}
use crypto_sentinel.Go.Text.{text, to_upper}
use crypto_sentinel.Go.Http.{Prog, done}
use crypto_sentinel.Models.{CoinMarket}
use crypto_sentinel.Services.Format.{format_float}
use crypto_sentinel.Clients.Coingecko.Replies.{CoinJson}
use crypto_sentinel.Commands.Shared.{plainly}
use crypto_sentinel.Commands.Price.{resolve_or_say, market_or_say}

-- The thresholds of the source.
abbrev pub f_two : Float64
f_two = float 0x4000000000000000

abbrev pub f_three : Float64
f_three = float 0x4008000000000000

abbrev pub f_five : Float64
f_five = float 0x4014000000000000

abbrev pub f_eight : Float64
f_eight = float 0x4020000000000000

abbrev f_ten : Float64
f_ten = float 0x4024000000000000

abbrev pub f_fifteen : Float64
f_fifteen = float 0x402E000000000000

abbrev f_twenty : Float64
f_twenty = float 0x4034000000000000

-- bullScore and bearScore
pub record Scores : Type 0 where
  pub bull : ℕ
  pub bear : ℕ

abbrev pub bulls : ℕ → Scores
bulls n = record { bull = n; bear = 0 }

abbrev pub bears : ℕ → Scores
bears n = record { bull = 0; bear = n }

-- What a switch on a change adds, with its bounds from the widest down.
unfoldable pub change_score : Float64 → Float64 → Float64 → Float64 → Scores
change_score high middle low ch =
    if gt ch high
    then bulls 3
    else if gt ch middle
    then bulls 2
    else if gt ch low
    then bulls 1
    else if lt ch (neg high)
    then bears 3
    else if lt ch (neg middle)
    then bears 2
    else if lt ch (neg low)
    then bears 1
    else bulls 0

unfoldable pub scores : Float64 → Float64 → Scores
unfolding change_score
scores ch24 ch7d =
    let day = change_score f_five f_two f_half ch24 in
    let week = change_score f_fifteen f_eight f_three ch7d in
    record { bull = day.bull + week.bull; bear = day.bear + week.bear }

abbrev activity_label : Float64 → Bytes
activity_label ratio =
    if gt ratio f_twenty
    then text "Very High"
    else if gt ratio f_ten
    then text "High"
    else if gt ratio f_three
    then text "Moderate"
    else text "Low"

pub data Mood : Type 0 where
  bullish bearish slightly_bullish slightly_bearish neutral : Mood

-- The final classification.
unfoldable pub mood_of : Scores → Mood
mood_of s =
    if leb (s.bear + 2) s.bull
    then bullish
    else if leb (s.bull + 2) s.bear
    then bearish
    else if ltb s.bear s.bull
    then slightly_bullish
    else if ltb s.bull s.bear
    then slightly_bearish
    else neutral

abbrev mood_text : Mood → Bytes
mood_text bullish = text "Bullish 📈"
mood_text bearish = text "Bearish 📉"
mood_text slightly_bullish = text "Slightly Bullish 🙂"
mood_text slightly_bearish = text "Slightly Bearish 🙁"
mood_text neutral = text "Neutral 😐"

abbrev mood_summary : Mood → Bytes
mood_summary bullish =
    text "Buyers are in control with positive momentum over the last few sessions."
mood_summary bearish = text "Sellers are dominating, with visible downside pressure in recent days."
mood_summary slightly_bullish = text "Slight bullish tilt — upward bias but not an explosive trend."
mood_summary slightly_bearish =
    text "Slight bearish tilt — some downside pressure but not a full breakdown."
mood_summary neutral =
    text "Price action is relatively balanced with no clear dominance from buyers or sellers."

module _ ⦃g : Runtime⦄ where
  abbrev volume_ratio : CoinMarket → Float64
  volume_ratio m =
      if gt m.market_cap f_zero then g.mul (g.div m.total_volume m.market_cap) f_hundred else f_zero

  unfoldable sentiment_text : CoinMarket → Bytes
  unfolding scores mood_of
  sentiment_text m =
      let mood = mood_of (scores m.price_change_pct24h m.price_change_pct7d) in
      text "Sentiment — "
      ++ m.name
      ++ text " ("
      ++ to_upper m.symbol
      ++ text ")\nPrice: $"
      ++ format_float m.current_price
      ++ text "\n24h change: "
      ++ format_float m.price_change_pct24h
      ++ text "%\n7d change: "
      ++ format_float m.price_change_pct7d
      ++ text "%\nVolume / Market Cap: "
      ++ format_float (volume_ratio m)
      ++ text "% ("
      ++ activity_label (volume_ratio m)
      ++ text " activity)\n\nMarket mood: "
      ++ mood_text mood
      ++ text "\nSummary: "
      ++ mood_summary mood
      ++ text "\nSource: CoinGecko"

  module _ ⦃j : CoinJson⦄ where
    unfoldable pub cmd_sentiment : List Bytes → Prog (Result Bytes)
    unfolding sentiment_text
    cmd_sentiment [] = done (ok (text "Usage: sentiment [symbol]\nExample: sentiment btc"))
    cmd_sentiment (sym ∷ args) =
        resolve_or_say plainly (text "asset") sym
          λ id. market_or_say plainly sym id λ mkt. done (ok (sentiment_text mkt))
