-- ===== src/Commands/Router.antt =====
-- internal/commands/dispatcher.go: `(*Router).Handle` up to the call of a command.
pub mod Laws
pub mod Words
use crypto_sentinel.Prelude.{List, [], ◌∷◌, Bytes, Option, none, some, is_empty, if◌then◌else◌}
use crypto_sentinel.Go.Runtime.{Runtime}
use crypto_sentinel.Go.Text.{text, beq, trim_prefix, trim_space, to_lower, fields}

-- The call that the switch makes.
pub data Call : Type 0 where
  help_text unknown_command cmd_alert_list cmd_alert_clear : Call
  cmd_price cmd_compare cmd_digest cmd_tvl cmd_tvl_chain cmd_tvl_protocols cmd_top cmd_gainers
        cmd_losers cmd_fear_greed cmd_convert cmd_gainers_cex cmd_losers_cex cmd_gainers_compare
        cmd_gas cmd_dex_price cmd_dex_meme cmd_portfolio cmd_alert_add cmd_alert_remove cmd_news
        cmd_sentiment cmd_volatility cmd_trend :
      List Bytes → Call

-- The cases of the switch, in order.
abbrev cases : List (Bytes × (List Bytes → Call))
cases =
    (text "price", cmd_price)
    ∷ (text "compare", cmd_compare)
    ∷ (text "digest", cmd_digest)
    ∷ (text "tvl", cmd_tvl)
    ∷ (text "tvlchain", cmd_tvl_chain)
    ∷ (text "tvlprotocols", cmd_tvl_protocols)
    ∷ (text "top", cmd_top)
    ∷ (text "gainers", cmd_gainers)
    ∷ (text "losers", cmd_losers)
    ∷ (text "feargreed", cmd_fear_greed)
    ∷ (text "convert", cmd_convert)
    ∷ (text "gainers_cex", cmd_gainers_cex)
    ∷ (text "losers_cex", cmd_losers_cex)
    ∷ (text "gainers_compare", cmd_gainers_compare)
    ∷ (text "gas", cmd_gas)
    ∷ (text "dexprice", cmd_dex_price)
    ∷ (text "dexmeme", cmd_dex_meme)
    ∷ (text "portfolio", cmd_portfolio)
    ∷ (text "alert", cmd_alert_add)
    ∷ (text "alert_list", λ args. cmd_alert_list)
    ∷ (text "alert_remove", cmd_alert_remove)
    ∷ (text "alert_clear", λ args. cmd_alert_clear)
    ∷ (text "news", cmd_news)
    ∷ (text "sentiment", cmd_sentiment)
    ∷ (text "volatility", cmd_volatility)
    ∷ (text "trend", cmd_trend)
    ∷ (text "help", λ args. help_text)
    ∷ []

abbrev pub switch : List (Bytes × (List Bytes → Call)) → Bytes → List Bytes → Call
switch [] cmd args = unknown_command
switch ((name, call) ∷ rest) cmd args = if beq cmd name then call args else switch rest cmd args

module _ ⦃g : Runtime⦄ where
  -- `none` is the fault of parts[0] out of range.
  abbrev pub dispatch : List Bytes → Option Call
  dispatch [] = none
  dispatch (part ∷ args) = some (switch cases (to_lower part) args)

  unfoldable pub handle : Bytes → Option Call
  unfolding fields trim_space trim_prefix
  handle task =
      let task' = trim_space (trim_prefix task (text "/")) in
      if is_empty task' then some help_text else dispatch (fields task')
