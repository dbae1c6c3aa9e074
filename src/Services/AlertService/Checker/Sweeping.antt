-- ===== src/Services/AlertService/Checker/Sweeping.antt =====
-- A sweep that nothing interrupts: it ends, and it has triggered what its prices call for.
use crypto_sentinel.Prelude.{
  ℕ, false, List, ◌∷◌, some, get_elem?, get_elem?-lt, All-map, ◌≡◌, refl, ap, ◌∙◌, Bool-cases, inl,
  inr,
}
use crypto_sentinel.Go.Runtime.{Runtime}
use crypto_sentinel.Models.{PriceAlert, CoinMarket}
use crypto_sentinel.Services.AlertService.Checker.{
  idle, sweeping, World, Quote, resolve_failed, market_failed, quoted, Event, tick, op_holds,
  proceed, step, run_events,
}
use crypto_sentinel.Services.AlertService.Checker.Condition.{Meets, op_holds_iff}
use crypto_sentinel.Services.AlertService.Checker.Invariant.{IsValid}
use crypto_sentinel.Services.AlertService.Checker.Rounds.{
  sweep, fires, marked, after-quiet, after-fires,
}
use crypto_sentinel.Services.AlertService.Checker.Steps.{run_events-sweep}

module _ ⦃g : Runtime⦄ where
  -- What a whole sweep over the list of `w` leaves: an alert of the list whose price meets its
  -- condition is triggered, and an alert whose price does not, or has none, stays as it was.
  pub record IsSwept (quotes : ℕ → Quote) (w w' : World) : Type 0 where
    pub ended : w'.phase ≡ idle
    pub same_list : w'.service.alerts ≡ w.service.alerts
    pub triggered :
        (i p : ℕ) (a : PriceAlert) (m : CoinMarket)
        → get_elem? w.service.alerts i ≡ some p
        → get_elem? w.service.heap p ≡ some a
        → quotes p ≡ quoted m
        → Meets a.op m.current_price a.value
        → get_elem? w'.service.heap p ≡ some (marked a)
    pub kept :
        (p : ℕ) (a : PriceAlert)
        → get_elem? w.service.heap p ≡ some a
        → ((m : CoinMarket) → quotes p ≡ quoted m → ¬ Meets a.op m.current_price a.value)
        → get_elem? w'.service.heap p ≡ some a

  fires-not :
      (a : PriceAlert) (q : Quote)
      → ((m : CoinMarket) → q ≡ quoted m → ¬ Meets a.op m.current_price a.value)
      → fires a q ≡ false
  fires-not a (resolve_failed e) h = refl
  fires-not a (market_failed e) h = refl
  fires-not a (quoted m) h = elim (Bool-cases (op_holds a.op m.current_price a.value)) [
    | inr still ↦ still
    | inl now ↦ absurd (h m refl ((op_holds_iff a.op m.current_price a.value).0 now))
  ]

  run_events-tick :
      (w : World) (es : List Event)
      → w.phase ≡ idle
      → run_events (tick ∷ es) w ≡ run_events es (record w { phase = sweeping w.service.alerts })
  unfolding run_events step proceed
  run_events-tick w es h = rw (h, run_events) refl

  -- From a valid world where the checker is idle, a tick and then, for each alert of the list, a
  -- look at it and an answer of any kind, with no other event between, lead back to idle. The
  -- sweep has then triggered every alert of the list whose price met its condition, and has left
  -- every other alert as it was.
  pub run_events-IsSwept :
      (quotes : ℕ → Quote) (w : World)
      → IsValid w
      → w.phase ≡ idle
      → (w' : World) × (run_events (tick ∷ sweep quotes w.service.alerts) w ≡ some w')
        × IsSwept quotes w w'
  run_events-IsSwept quotes w v idles =
      let (s', l', e, t) =
        run_events-sweep quotes w.service.alerts w.service w.log
          (All-map _ _ w.service.alerts (λ p h. get_elem?-lt w.service.heap p h) v.listed) in
      (
        record { service = s'; phase = idle; log = l' },
        run_events-tick w (sweep quotes w.service.alerts) idles ∙ e,
        record {
          ended = refl;
          same_list = t.listed;
          triggered = λ i p a m listed at quote meets.
              t.heap_after p a at
              ∙ ap some (
                  after-fires quotes w.service.alerts i p a listed
                    (rw quote ((op_holds_iff a.op m.current_price a.value).1 meets)));
          kept = λ p a at unmet.
              t.heap_after p a at
              ∙ ap some (after-quiet quotes w.service.alerts p a (fires-not a (quotes p) unmet));
        },
      )
