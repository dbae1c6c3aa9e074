-- ===== src/Agent/Requests.antt =====
-- A task sends a bounded number of requests.
use crypto_sentinel.Prelude.{ℕ, ◌+◌, ◌≤◌, Option, Bytes, Result, arith, Option-cases, inl, inr}
use crypto_sentinel.Go.Runtime.{Runtime}
use crypto_sentinel.Go.Sort.{Sorter}
use crypto_sentinel.Go.Chance.{Chance, IsChance}
use crypto_sentinel.Go.Http.{Prog}
use crypto_sentinel.Go.Http.Laws.{Sends}
use crypto_sentinel.Commands.Requests.Services.{Asks, Asks-mono, Asks-bind}
use crypto_sentinel.Services.AlertService.{AlertService}
use crypto_sentinel.Commands.Router
use crypto_sentinel.Commands.Router.{Call, handle}
use crypto_sentinel.Commands.Requests.Markets.{
  cmd_price-Sends, cmd_compare-Sends, cmd_digest-Sends, cmd_top-Sends, cmd_sentiment-Sends,
  cmd_volatility-Sends, cmd_trend-Sends,
}
use crypto_sentinel.Commands.Requests.Conversions.{cmd_convert-Sends}
use crypto_sentinel.Commands.Requests.Exchanges.{
  cmd_gainers_compare-Sends, cmd_gainers_cex-Sends, cmd_losers_cex-Sends,
}
use crypto_sentinel.Commands.Requests.Others.{
  cmd_tvl-Sends, cmd_gas-Sends, cmd_portfolio-Sends, cmd_news-Sends, cmd_dex_price-Sends,
  cmd_dex_meme-Sends, cmd_tvl_chain-Sends, cmd_tvl_protocols-Sends, cmd_gainers-Sends,
  cmd_losers-Sends, cmd_fear_greed-Sends,
}
use crypto_sentinel.Agent.{
  Environment, Decoders, answered, answered_or_fault, perform, process_task,
}

-- What is done with the result of a command sends no request.
within :
    (svc : AlertService) (n : ℕ) (m : Prog (Result Bytes))
    → n + 0 ≤ 24
    → Asks n m
    → Asks 24 (answered svc m)
within svc n m h s = Asks-mono (n + 0) 24 _ h (Asks-bind 0 n m _ s (λ r. tt))

within_or_fault :
    (svc : AlertService) (n : ℕ) (m : Prog (Option (Result Bytes)))
    → n + 0 ≤ 24
    → Asks n m
    → Asks 24 (answered_or_fault svc m)
within_or_fault svc n m h s = Asks-mono (n + 0) 24 _ h (Asks-bind 0 n m _ s (λ r. tt))

module _ ⦃g : Runtime⦄ ⦃s : Sorter⦄ ⦃c : Chance⦄ (laws : IsChance c) (d : Decoders)
    (env : Environment) (now : ℕ) where
  perform-Sends : (call : Call) (svc : AlertService) → Asks 24 (perform d env now call svc)
  unfolding perform
  perform-Sends Router.help_text svc = tt
  perform-Sends Router.unknown_command svc = tt
  perform-Sends (Router.cmd_alert_add args) svc = tt
  perform-Sends (Router.cmd_alert_remove args) svc = tt
  perform-Sends Router.cmd_alert_clear svc = tt
  perform-Sends Router.cmd_alert_list svc = tt
  perform-Sends (Router.cmd_tvl_chain args) svc =
      within_or_fault svc 1 _ (omega arith) (cmd_tvl_chain-Sends ⦃j = d.chains⦄ args)
  perform-Sends (Router.cmd_gas args) svc =
      within_or_fault svc 1 _ (omega arith) (cmd_gas-Sends ⦃j = d.gas⦄ env.owlracle_api_key args)
  perform-Sends (Router.cmd_trend args) svc =
      within_or_fault svc 3 _ (omega arith) (cmd_trend-Sends ⦃c = d.coin⦄ ⦃j = d.chart⦄ args)
  perform-Sends (Router.cmd_volatility args) svc =
      within svc 3 _ (omega arith) (cmd_volatility-Sends ⦃c = d.coin⦄ ⦃j = d.chart⦄ args)
  perform-Sends (Router.cmd_convert args) svc =
      within svc 4 _ (omega arith) (cmd_convert-Sends ⦃c = d.coin⦄ ⦃j = d.price⦄ args)
  perform-Sends (Router.cmd_dex_meme args) svc =
      within_or_fault svc 5 _ (omega arith) (cmd_dex_meme-Sends ⦃j = d.dex⦄ laws args)
  perform-Sends (Router.cmd_tvl_protocols args) svc =
      within_or_fault svc 1 _ (omega arith) (cmd_tvl_protocols-Sends ⦃j = d.protocols⦄ args)
  perform-Sends (Router.cmd_gainers args) svc =
      within_or_fault svc 1 _ (omega arith) (cmd_gainers-Sends ⦃j = d.movers⦄ args)
  perform-Sends (Router.cmd_losers args) svc =
      within_or_fault svc 1 _ (omega arith) (cmd_losers-Sends ⦃j = d.movers⦄ args)
  perform-Sends (Router.cmd_fear_greed args) svc =
      within svc 1 _ (omega arith) (cmd_fear_greed-Sends ⦃j = d.fear_greed⦄ args)
  perform-Sends (Router.cmd_losers_cex args) svc =
      within svc 18 _ (omega arith) (cmd_losers_cex-Sends ⦃j = d.cex⦄ args)
  perform-Sends (Router.cmd_price args) svc =
      within svc 2 _ (omega arith) (cmd_price-Sends ⦃c = d.coin⦄ args)
  perform-Sends (Router.cmd_compare args) svc =
      within svc 4 _ (omega arith) (cmd_compare-Sends ⦃c = d.coin⦄ args)
  perform-Sends (Router.cmd_digest args) svc =
      within svc 2 _ (omega arith) (cmd_digest-Sends ⦃c = d.coin⦄ env.cmc_api_key args)
  perform-Sends (Router.cmd_tvl args) svc =
      within svc 1 _ (omega arith) (cmd_tvl-Sends ⦃j = d.protocol⦄ args)
  perform-Sends (Router.cmd_top args) svc =
      within svc 2 _ (omega arith) (cmd_top-Sends ⦃c = d.coin⦄ env.cmc_api_key args)
  perform-Sends (Router.cmd_portfolio args) svc =
      within_or_fault svc 1 _ (omega arith)
        (cmd_portfolio-Sends ⦃j = d.balances⦄ env.covalent_api_key args)
  perform-Sends (Router.cmd_news args) svc =
      within_or_fault svc 1 _ (omega arith) (cmd_news-Sends ⦃j = d.news⦄ env.newsdata_api_key args)
  perform-Sends (Router.cmd_sentiment args) svc =
      within svc 2 _ (omega arith) (cmd_sentiment-Sends ⦃c = d.coin⦄ args)
  perform-Sends (Router.cmd_gainers_compare args) svc =
      within svc 24 _ (omega arith) (cmd_gainers_compare-Sends ⦃j = d.cex⦄ args)
  perform-Sends (Router.cmd_dex_price args) svc =
      within svc 1 _ (omega arith) (cmd_dex_price-Sends ⦃j = d.dex⦄ args)
  perform-Sends (Router.cmd_gainers_cex args) svc =
      within svc 18 _ (omega arith) (cmd_gainers_cex-Sends ⦃j = d.cex⦄ args)

  -- If a shuffle rearranges: whatever is answered, every task comes to its end with at most 24
  -- requests, and each of them is to one of the services of the table, with no header but those
  -- that are for that service.
  pub process_task-Sends :
      (task : Bytes) (svc : AlertService) → Asks 24 (process_task d env now task svc)
  unfolding process_task
  process_task-Sends task svc = elim (Option-cases (handle task)) [
    | inl fault ↦ rw (fault, Sends) tt
    | inr (call, e) ↦ rw (e, Sends) (perform-Sends call svc)
  ]
