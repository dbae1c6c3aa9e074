-- ===== src/Services/AlertService/Checker.antt =====
-- The checker of internal/services/alert_service.go, `StartChecker` and `checkAlerts`, between the
-- calls of users: a step for each of its actions that others can come between. Every access of the
-- list and every write of `Triggered` is one step, as in the code, where the mutex is held.
pub mod Pointers
pub mod Invariant
pub mod Holding
pub mod Keeping
pub mod Condition
pub mod Count
pub mod Clearing
pub mod Replay
pub mod Requests
pub mod Rounds
pub mod Steps
pub mod Stopping
pub mod Sweeping
use crypto_sentinel.Prelude.{
  ℕ, Bool, true, false, List, [], ◌∷◌, ◌++◌, Option, none, some, Bytes, Result, ok, err, get_elem?,
  set, if◌then◌else◌,
}
use crypto_sentinel.Prelude.Int.{ℤ}
use crypto_sentinel.Go.Runtime.{Runtime}
use crypto_sentinel.Go.Float64.{Float64, lt, le, gt, ge}
use crypto_sentinel.Go.Text.{text, beq}
use crypto_sentinel.Models.{PriceAlert, CoinMarket}
use crypto_sentinel.Services.AlertService.{AlertService, new_alert_service, add, remove, clear}

-- Where the goroutine stands. `sweeping ps`: at the head of the loop, `ps` of `alertsCopy` are
-- left. `waiting p ps`: the alert `p` was not triggered, and its price is being fetched.
pub data Phase : Type 0 where
  idle stopped : Phase
  sweeping : List ℕ → Phase
  waiting : ℕ → List ℕ → Phase

-- The calls of log.Printf, with their arguments.
pub data LogLine : Type 0 where
  resolve_error market_error : Bytes → Bytes → LogLine
  alerted : PriceAlert → Float64 → LogLine

pub record World : Type 0 where
  pub service : AlertService
  pub phase : Phase
  pub log : List LogLine

-- What the two requests of a round bring.
pub data Quote : Type 0 where
  resolve_failed market_failed : Bytes → Quote
  quoted : CoinMarket → Quote

pub data Event : Type 0 where
  -- a user's calls
  call_add : Bytes → Bytes → Bytes → ℕ → Event
  call_remove : ℤ → Event
  call_clear : Event
  -- `<-ticker.C`, `<-ctx.Done()`, the test of `a.Triggered`, and the end of the requests
  tick cancel look : Event
  answer : Quote → Event

-- The switch on a.Op.
unfoldable pub op_holds : Bytes → Float64 → Float64 → Bool
op_holds op price value =
    if beq op (text ">")
    then gt price value
    else if beq op (text "<")
    then lt price value
    else if beq op (text ">=")
    then ge price value
    else if beq op (text "<=")
    then le price value
    else false

-- a.Triggered = true
abbrev pub mark : ℕ → PriceAlert → AlertService → AlertService
mark p a s = record s { heap = set s.heap p (record a { triggered = true }) }

-- One round of the loop of `checkAlerts` from its test of `a.Triggered` on.
unfoldable pub look_at : World → ℕ → List ℕ → Option World
look_at w p ps = elim (get_elem? w.service.heap p) [
  | none ↦ none
  | some a ↦ some (record w { phase = if a.triggered then sweeping ps else waiting p ps })
]

-- The rest of the round, with what the requests brought.
unfoldable pub conclude : World → ℕ → List ℕ → PriceAlert → Quote → World
unfolding op_holds
conclude w p ps a (resolve_failed e) = record w {
  phase = sweeping ps;
  log = w.log ++ resolve_error a.symbol e ∷ [];
}
conclude w p ps a (market_failed e) = record w {
  phase = sweeping ps;
  log = w.log ++ market_error a.symbol e ∷ [];
}
conclude w p ps a (quoted market) =
    if op_holds a.op market.current_price a.value
    then record {
      service = mark p a w.service;
      phase = sweeping ps;
      log = w.log ++ alerted a market.current_price ∷ [];
    }
    else record w { phase = sweeping ps }

unfoldable pub answer_to : World → ℕ → List ℕ → Quote → Option World
unfolding conclude
answer_to w p ps q = elim (get_elem? w.service.heap p) [
  | none ↦ none
  | some a ↦ some (conclude w p ps a q)
]

-- What the goroutine does: `alertsCopy` is taken at a tick, and the end of it leads back to the
-- `select`. An event that its phase does not wait for changes nothing.
unfoldable pub proceed : World → Phase → Event → Option World
unfolding look_at answer_to
proceed w idle tick = some (record w { phase = sweeping w.service.alerts })
proceed w idle cancel = some (record w { phase = stopped })
proceed w (sweeping []) look = some (record w { phase = idle })
proceed w (sweeping (p ∷ ps)) look = look_at w p ps
proceed w (waiting p ps) (answer q) = answer_to w p ps q
proceed w _ _ = some w

module _ ⦃g : Runtime⦄ where
  -- `none` is a fault: the use of a pointer to no alert.
  unfoldable pub step : Event → World → Option World
  unfolding proceed
  step (call_add symbol op value now) w =
      some (record w { service = (add symbol op value now w.service).1 })
  step (call_remove i) w = some (record w { service = (remove i w.service).1 })
  step call_clear w = some (record w { service = (clear w.service).1 })
  step e w = proceed w w.phase e

  -- A schedule.
  unfoldable pub run_events : List Event → World → Option World
  unfolding step
  run_events [] w = some w
  run_events (e ∷ es) w = elim (step e w) [ none ↦ none | some w' ↦ run_events es w' ]

abbrev pub start : World
start = record { service = new_alert_service; phase = idle; log = [] }
