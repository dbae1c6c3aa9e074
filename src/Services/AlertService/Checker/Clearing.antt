-- ===== src/Services/AlertService/Checker/Clearing.antt =====
-- An alert that is cleared from the list during a sweep.
use crypto_sentinel.Prelude.{ℕ, true, List, [], ◌∷◌, ◌++◌, some, get_elem?, ◌≡◌, refl}
use crypto_sentinel.Go.Runtime.{Runtime}
use crypto_sentinel.Models.{PriceAlert, CoinMarket}
use crypto_sentinel.Services.AlertService.{clear}
use crypto_sentinel.Services.AlertService.Checker.{
  sweeping, waiting, alerted, World, quoted, call_clear, answer, conclude, answer_to, run_events,
  mark, op_holds,
}

-- The world in which the alert `a` at `p` has just fired.
abbrev fired_world : World → ℕ → List ℕ → PriceAlert → CoinMarket → World
fired_world w p ps a m = record {
  service = mark p a w.service;
  phase = sweeping ps;
  log = w.log ++ alerted a m.current_price ∷ [];
}

answer_to-fires :
    (w : World) (p : ℕ) (ps : List ℕ) (a : PriceAlert) (m : CoinMarket)
    → get_elem? w.service.heap p ≡ some a
    → op_holds a.op m.current_price a.value ≡ true
    → answer_to w p ps (quoted m) ≡ some (fired_world w p ps a m)
unfolding answer_to conclude
answer_to-fires w p ps a m at meets = rw (at, answer_to) (rw (meets, conclude) refl)

module _ ⦃g : Runtime⦄ where
  -- A list that is cleared while the price of an alert is awaited is empty, and the alert still
  -- fires if the price meets its condition.
  pub clear_does_not_stop :
      (w : World) (p : ℕ) (ps : List ℕ) (a : PriceAlert) (m : CoinMarket)
      → w.phase ≡ waiting p ps
      → get_elem? w.service.heap p ≡ some a
      → op_holds a.op m.current_price a.value ≡ true
      → (w' : World) × (run_events (call_clear ∷ answer (quoted m) ∷ []) w ≡ some w')
        × (w'.service.alerts ≡ [])
        × (w'.log ≡ w.log ++ alerted a m.current_price ∷ [])
  unfolding run_events clear
  clear_does_not_stop w p ps a m waits at meets = (
    fired_world (record w { service = record w.service { alerts = [] } }) p ps a m,
    rw waits (
        rw
          (answer_to-fires (record w { service = record w.service { alerts = [] } }) p ps a m at
            meets)
          refl),
    refl,
    refl,
  )
