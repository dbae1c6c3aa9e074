-- ===== src/Agent.antt =====
-- internal/agent/agent.go: the agent hands a task to the router. With it stand here the calls that
-- the switch of internal/commands/dispatcher.go makes, now that each command is there.
pub mod Faults
pub mod Requests
pub mod Sessions
pub mod Watching
pub mod Listing
use crypto_sentinel.Prelude.{ℕ, Option, none, some, List, Bytes, Result, ok}
use crypto_sentinel.Go.Runtime.{Runtime}
use crypto_sentinel.Go.Sort.{Sorter}
use crypto_sentinel.Go.Chance.{Chance}
use crypto_sentinel.Go.Http.{Prog, done, ◌>>=◌}
use crypto_sentinel.Services.AlertService.{AlertService}
use crypto_sentinel.Clients.Wire.{CexJson}
use crypto_sentinel.Clients.Coingecko.Replies.{CoinJson}
use crypto_sentinel.Clients.Defillama.{ProtocolJson}
use crypto_sentinel.Commands.Router.{
  Call, help_text, unknown_command, cmd_alert_list, cmd_alert_clear, cmd_price, cmd_compare,
  cmd_digest, cmd_tvl, cmd_tvl_chain, cmd_tvl_protocols, cmd_top, cmd_gainers, cmd_losers,
  cmd_fear_greed, cmd_convert, cmd_gainers_cex, cmd_losers_cex, cmd_gainers_compare, cmd_gas,
  cmd_dex_price, cmd_dex_meme, cmd_portfolio, cmd_alert_add, cmd_alert_remove, cmd_news,
  cmd_sentiment, cmd_volatility, cmd_trend, handle,
}
use crypto_sentinel.Go.Text.{text}
use crypto_sentinel.Commands.Help
use crypto_sentinel.Commands.Alerts
use crypto_sentinel.Commands.Price
use crypto_sentinel.Commands.Top
use crypto_sentinel.Commands.Digest
use crypto_sentinel.Commands.Tvl
use crypto_sentinel.Commands.Tvl.Chain
use crypto_sentinel.Commands.Tvl.Chain.{ChainsJson}
use crypto_sentinel.Commands.Tvl.Protocols
use crypto_sentinel.Commands.Tvl.Protocols.{ProtocolsJson}
use crypto_sentinel.Commands.Movers
use crypto_sentinel.Commands.Movers.{MoversJson}
use crypto_sentinel.Commands.GainersCex
use crypto_sentinel.Commands.LosersCex
use crypto_sentinel.Commands.FearGreed
use crypto_sentinel.Commands.FearGreed.{FearGreedJson}
use crypto_sentinel.Commands.Convert
use crypto_sentinel.Commands.Convert.Rates.{PriceJson}
use crypto_sentinel.Commands.Gas
use crypto_sentinel.Commands.Gas.{GasJson}
use crypto_sentinel.Commands.Dex
use crypto_sentinel.Commands.Dex.Search.{DexJson}
use crypto_sentinel.Commands.Portfolio
use crypto_sentinel.Commands.Portfolio.{BalancesJson}
use crypto_sentinel.Commands.News
use crypto_sentinel.Commands.News.{NewsJson}
use crypto_sentinel.Commands.Sentiment
use crypto_sentinel.Commands.Chart.{ChartJson}
use crypto_sentinel.Commands.Chart.Volatility
use crypto_sentinel.Commands.Chart.Trend

-- The variables that the commands read from the environment; a missing one is empty.
pub record Environment : Type 0 where
  pub cmc_api_key : Bytes
  pub owlracle_api_key : Bytes
  pub newsdata_api_key : Bytes
  pub covalent_api_key : Bytes

-- Every decoder of a reply.
pub record Decoders : Type 0 where
  pub cex : CexJson
  pub coin : CoinJson
  pub protocol : ProtocolJson
  pub chains : ChainsJson
  pub protocols : ProtocolsJson
  pub movers : MoversJson
  pub fear_greed : FearGreedJson
  pub price : PriceJson
  pub gas : GasJson
  pub dex : DexJson
  pub balances : BalancesJson
  pub news : NewsJson
  pub chart : ChartJson

-- What a task leads to: the reply, where `none` is a fault, and the alerts.
abbrev pub Answer : Type 0
Answer = Option (Result Bytes) × AlertService

abbrev pub answered : AlertService → Prog (Result Bytes) → Prog Answer
answered svc m = m >>= λ r. done (some r, svc)

abbrev pub answered_or_fault : AlertService → Prog (Option (Result Bytes)) → Prog Answer
answered_or_fault svc m = m >>= λ r. done (r, svc)

abbrev changed : Result Bytes × AlertService → Prog Answer
changed (r, svc) = done (some r, svc)

module _ ⦃g : Runtime⦄ ⦃s : Sorter⦄ ⦃c : Chance⦄ (d : Decoders) (env : Environment) where
  -- The calls of the switch; `now` is the time.
  unfoldable pub perform : ℕ → Call → AlertService → Prog Answer
  perform now help_text svc = answered svc (done (ok Help.help_text))
  perform now unknown_command svc = answered svc (done (ok (text "Unknown command. Type: help")))
  perform now (cmd_price args) svc = answered svc (Price.cmd_price ⦃j = d.coin⦄ args)
  perform now (cmd_compare args) svc = answered svc (Price.cmd_compare ⦃j = d.coin⦄ args)
  perform now (cmd_digest args) svc =
      answered svc (Digest.cmd_digest ⦃j = d.coin⦄ env.cmc_api_key args)
  perform now (cmd_tvl args) svc = answered svc (Tvl.cmd_tvl ⦃j = d.protocol⦄ args)
  perform now (cmd_tvl_chain args) svc =
      answered_or_fault svc (Chain.cmd_tvl_chain ⦃j = d.chains⦄ args)
  perform now (cmd_tvl_protocols args) svc =
      answered_or_fault svc (Protocols.cmd_tvl_protocols ⦃j = d.protocols⦄ args)
  perform now (cmd_top args) svc = answered svc (Top.cmd_top ⦃j = d.coin⦄ env.cmc_api_key args)
  perform now (cmd_gainers args) svc =
      answered_or_fault svc (Movers.cmd_gainers ⦃j = d.movers⦄ args)
  perform now (cmd_losers args) svc = answered_or_fault svc (Movers.cmd_losers ⦃j = d.movers⦄ args)
  perform now (cmd_fear_greed args) svc =
      answered svc (FearGreed.cmd_fear_greed ⦃j = d.fear_greed⦄ args)
  perform now (cmd_convert args) svc =
      answered svc (Convert.cmd_convert ⦃c = d.coin⦄ ⦃j = d.price⦄ args)
  perform now (cmd_gainers_cex args) svc =
      answered svc (GainersCex.cmd_gainers_cex ⦃j = d.cex⦄ args)
  perform now (cmd_losers_cex args) svc = answered svc (LosersCex.cmd_losers_cex ⦃j = d.cex⦄ args)
  perform now (cmd_gainers_compare args) svc =
      answered svc (GainersCex.cmd_gainers_compare ⦃j = d.cex⦄ args)
  perform now (cmd_gas args) svc =
      answered_or_fault svc (Gas.cmd_gas ⦃j = d.gas⦄ env.owlracle_api_key args)
  perform now (cmd_dex_price args) svc = answered svc (Dex.cmd_dex_price ⦃j = d.dex⦄ args)
  perform now (cmd_dex_meme args) svc = answered_or_fault svc (Dex.cmd_dex_meme ⦃j = d.dex⦄ args)
  perform now (cmd_portfolio args) svc =
      answered_or_fault svc (Portfolio.cmd_portfolio ⦃j = d.balances⦄ env.covalent_api_key args)
  perform now (cmd_alert_add args) svc = changed (Alerts.cmd_alert_add args now svc)
  perform now cmd_alert_list svc = done (Alerts.cmd_alert_list svc, svc)
  perform now (cmd_alert_remove args) svc = changed (Alerts.cmd_alert_remove args svc)
  perform now cmd_alert_clear svc = changed (Alerts.cmd_alert_clear svc)
  perform now (cmd_news args) svc =
      answered_or_fault svc (News.cmd_news ⦃j = d.news⦄ env.newsdata_api_key args)
  perform now (cmd_sentiment args) svc = answered svc (Sentiment.cmd_sentiment ⦃j = d.coin⦄ args)
  perform now (cmd_volatility args) svc =
      answered svc (Volatility.cmd_volatility ⦃c = d.coin⦄ ⦃j = d.chart⦄ args)
  perform now (cmd_trend args) svc =
      answered_or_fault svc (Trend.cmd_trend ⦃c = d.coin⦄ ⦃j = d.chart⦄ args)

  -- (*CryptoSentinelAgent).ProcessTask
  unfoldable pub process_task : ℕ → Bytes → AlertService → Prog Answer
  unfolding perform handle
  process_task now task svc = elim (handle task) [
    | none ↦ done (none, svc)
    | some call ↦ perform now call svc
  ]
