-- ===== src/Agent/Faults.antt =====
-- A task never leads to a fault, and what it does to the alerts is a user's call of the service.
use crypto_sentinel.Prelude.{
  ℕ, Option, some, List, [], ◌∷◌, Bytes, Result, ◌≡◌, refl, ap, ◌⊎◌, inl, inr, IsSome, all,
  Option-cases, true,
}
use crypto_sentinel.Prelude.Int.{ℤ, pos, negsuc}
use crypto_sentinel.Go.Runtime.{Runtime}
use crypto_sentinel.Go.Sort.{Sorter}
use crypto_sentinel.Go.Chance.{Chance, IsChance}
use crypto_sentinel.Go.Text.{ascii, trim_space}
use crypto_sentinel.Go.Decimal.{atoi}
use crypto_sentinel.Go.Http.{Prog, done, send}
use crypto_sentinel.Go.Http.Laws.{Returns}
use crypto_sentinel.Services.AlertService.{AlertService, add, remove, clear}
use crypto_sentinel.Services.AlertService.View.{IsListed, list-view}
use crypto_sentinel.Services.AlertService.Checker.{
  World, Event, call_add, call_remove, call_clear, step,
}
use crypto_sentinel.Commands.Alerts.{
  split_condition, cmd_alert_add, cmd_alert_list, cmd_alert_remove, cmd_alert_clear,
}
use crypto_sentinel.Commands.Router
use crypto_sentinel.Commands.Router.{Call, handle}
use crypto_sentinel.Commands.Router.Laws.{handle-calls}
use crypto_sentinel.Commands.Tvl.Protocols.Laws.{cmd_tvl_protocols-IsSome}
use crypto_sentinel.Commands.Movers.Laws.{cmd_gainers-IsSome, cmd_losers-IsSome}
use crypto_sentinel.Commands.Dex.Laws.{cmd_dex_meme-IsSome}
use crypto_sentinel.Commands.Portfolio.Snapshot.{cmd_portfolio-IsSome}
use crypto_sentinel.Commands.News.Laws.{cmd_news-IsSome}
use crypto_sentinel.Commands.Tvl.Chain.Laws.{cmd_tvl_chain-IsSome}
use crypto_sentinel.Commands.Gas.Laws.{cmd_gas-IsSome}
use crypto_sentinel.Commands.Chart.Trend.Laws.{cmd_trend-IsSome}
use crypto_sentinel.Agent.{
  Environment, Decoders, Answer, answered, answered_or_fault, perform, process_task,
}

module _ ⦃g : Runtime⦄ where
  -- The service is as it was, or as one of the events of a user leaves it.
  abbrev Acts : AlertService → AlertService → Type 0
  Acts s s' =
      (s' ≡ s)
      ⊎ ((e : Event) × ((w : World) → w.service ≡ s → step e w ≡ some (record w { service = s' })))

  abbrev pub IsAnswer : AlertService → Answer → Type 0
  IsAnswer s (r, s') = IsSome r × Acts s s'

  answered-IsAnswer :
      (s : AlertService) (m : Prog (Result Bytes)) → Returns (IsAnswer s) (answered s m)
  answered-IsAnswer s (done r) = (tt, inl refl)
  answered-IsAnswer s (send q k) = λ r. answered-IsAnswer s (k r)

  answered_or_fault-IsAnswer :
      (s : AlertService) (m : Prog (Option (Result Bytes)))
      → Returns IsSome m
      → Returns (IsAnswer s) (answered_or_fault s m)
  answered_or_fault-IsAnswer s (done r) h = (h, inl refl)
  answered_or_fault-IsAnswer s (send q k) h = λ r. answered_or_fault-IsAnswer s (k r) (h r)

  add-Acts :
      (symbol op value : Bytes) (now : ℕ) (s : AlertService) → Acts s (add symbol op value now s).1
  unfolding step
  add-Acts symbol op value now s = inr (
    call_add symbol op value now,
    λ w h. ap (λ x. some (record w { service = (add symbol op value now x).1 })) h,
  )

  cmd_alert_add-Acts :
      (args : List Bytes) (now : ℕ) (s : AlertService) → Acts s (cmd_alert_add args now s).1
  unfolding cmd_alert_add
  cmd_alert_add-Acts [] now s = inl refl
  cmd_alert_add-Acts (symbol ∷ []) now s = inl refl
  cmd_alert_add-Acts (symbol ∷ condition ∷ []) now s =
      elim (Option-cases (split_condition (trim_space condition))) [
        | inl bad ↦ inl (rw (bad, cmd_alert_add) refl)
        | inr ((op, value), e) ↦ rw (e, cmd_alert_add) (add-Acts symbol op value now s)
      ]
  cmd_alert_add-Acts (symbol ∷ op ∷ value ∷ rest) now s =
      add-Acts symbol (trim_space op) (trim_space value) now s

  remove-Acts : (i : ℤ) (s : AlertService) → Acts s (remove i s).1
  unfolding step
  remove-Acts i s =
      inr (call_remove i, λ w h. ap (λ x. some (record w { service = (remove i x).1 })) h)

  cmd_alert_remove-Acts :
      (args : List Bytes) (s : AlertService) → Acts s (cmd_alert_remove args s).1
  unfolding cmd_alert_remove
  cmd_alert_remove-Acts [] s = inl refl
  cmd_alert_remove-Acts (arg ∷ rest) s = elim (Option-cases (atoi arg)) [
    | inl bad ↦ inl (rw (bad, cmd_alert_remove) refl)
    | inr (negsuc n, e) ↦ inl (rw (e, cmd_alert_remove) refl)
    | inr (pos i, e) ↦ rw (e, cmd_alert_remove) (remove-Acts (pos i) s)
  ]

  cmd_alert_clear-Acts : (s : AlertService) → Acts s (cmd_alert_clear s).1
  unfolding cmd_alert_clear step
  cmd_alert_clear-Acts s =
      inr (call_clear, λ w h. ap (λ x. some (record w { service = (clear x).1 })) h)

  cmd_alert_list-IsSome : (s : AlertService) → IsListed s → IsSome (cmd_alert_list s)
  unfolding cmd_alert_list
  cmd_alert_list-IsSome s listed = rw (list-view s listed, IsSome) tt

module _ ⦃g : Runtime⦄ ⦃s : Sorter⦄ ⦃c : Chance⦄ (chance : IsChance c) (d : Decoders)
    (env : Environment) (now : ℕ) where
  perform-IsAnswer :
      (call : Call) (svc : AlertService)
      → IsListed svc
      → Returns (IsAnswer svc) (perform d env now call svc)
  unfolding perform
  perform-IsAnswer Router.help_text svc h = (tt, inl refl)
  perform-IsAnswer Router.unknown_command svc h = (tt, inl refl)
  perform-IsAnswer (Router.cmd_tvl_chain args) svc h =
      answered_or_fault-IsAnswer svc _ (cmd_tvl_chain-IsSome ⦃j = d.chains⦄ args)
  perform-IsAnswer (Router.cmd_gas args) svc h =
      answered_or_fault-IsAnswer svc _ (cmd_gas-IsSome ⦃j = d.gas⦄ env.owlracle_api_key args)
  perform-IsAnswer (Router.cmd_trend args) svc h =
      answered_or_fault-IsAnswer svc _ (cmd_trend-IsSome ⦃c = d.coin⦄ ⦃j = d.chart⦄ args)
  perform-IsAnswer (Router.cmd_alert_add args) svc h = (tt, cmd_alert_add-Acts args now svc)
  perform-IsAnswer (Router.cmd_alert_remove args) svc h = (tt, cmd_alert_remove-Acts args svc)
  perform-IsAnswer Router.cmd_alert_clear svc h = (tt, cmd_alert_clear-Acts svc)
  perform-IsAnswer Router.cmd_alert_list svc h = (cmd_alert_list-IsSome svc h, inl refl)
  perform-IsAnswer (Router.cmd_price args) svc h = answered-IsAnswer svc _
  perform-IsAnswer (Router.cmd_compare args) svc h = answered-IsAnswer svc _
  perform-IsAnswer (Router.cmd_digest args) svc h = answered-IsAnswer svc _
  perform-IsAnswer (Router.cmd_tvl args) svc h = answered-IsAnswer svc _
  perform-IsAnswer (Router.cmd_tvl_protocols args) svc h =
      answered_or_fault-IsAnswer svc _ (cmd_tvl_protocols-IsSome ⦃j = d.protocols⦄ args)
  perform-IsAnswer (Router.cmd_top args) svc h = answered-IsAnswer svc _
  perform-IsAnswer (Router.cmd_gainers args) svc h =
      answered_or_fault-IsAnswer svc _ (cmd_gainers-IsSome ⦃j = d.movers⦄ args)
  perform-IsAnswer (Router.cmd_losers args) svc h =
      answered_or_fault-IsAnswer svc _ (cmd_losers-IsSome ⦃j = d.movers⦄ args)
  perform-IsAnswer (Router.cmd_fear_greed args) svc h = answered-IsAnswer svc _
  perform-IsAnswer (Router.cmd_convert args) svc h = answered-IsAnswer svc _
  perform-IsAnswer (Router.cmd_gainers_cex args) svc h = answered-IsAnswer svc _
  perform-IsAnswer (Router.cmd_losers_cex args) svc h = answered-IsAnswer svc _
  perform-IsAnswer (Router.cmd_gainers_compare args) svc h = answered-IsAnswer svc _
  perform-IsAnswer (Router.cmd_dex_price args) svc h = answered-IsAnswer svc _
  perform-IsAnswer (Router.cmd_dex_meme args) svc h =
      answered_or_fault-IsAnswer svc _ (cmd_dex_meme-IsSome chance ⦃j = d.dex⦄ args)
  perform-IsAnswer (Router.cmd_portfolio args) svc h =
      answered_or_fault-IsAnswer svc _
        (cmd_portfolio-IsSome ⦃j = d.balances⦄ env.covalent_api_key args)
  perform-IsAnswer (Router.cmd_news args) svc h =
      answered_or_fault-IsAnswer svc _ (cmd_news-IsSome ⦃j = d.news⦄ env.newsdata_api_key args)
  perform-IsAnswer (Router.cmd_sentiment args) svc h = answered-IsAnswer svc _
  perform-IsAnswer (Router.cmd_volatility args) svc h = answered-IsAnswer svc _

  -- If a shuffle rearranges: whatever is answered, an ASCII task leads to a reply and never to a fault, if every pointer of
  -- the list is to an alert. The service is then as it was, or as a call of `Add`, `Remove` or
  -- `Clear` leaves it, one event of the schedules of the checker.
  pub process_task-IsAnswer :
      (task : Bytes) (svc : AlertService)
      → all ascii task ≡ true
      → IsListed svc
      → Returns (IsAnswer svc) (process_task d env now task svc)
  unfolding process_task
  process_task-IsAnswer task svc asc h =
      let (call, e) = handle-calls task asc in rw (e, Returns) (perform-IsAnswer call svc h)
