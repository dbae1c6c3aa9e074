-- ===== src/Examples/Alerts.antt =====
-- The alerts, their list and their checker.
use crypto_sentinel.Prelude.{
  ℕ, true, false, List, [], ◌∷◌, ◌++◌, some, ok, ◌≡◌, ◌⊎◌, refl, arith, Bytes, ◌<◌, suc, length,
  take, drop,
}
use crypto_sentinel.Prelude.Int.{pos}
use crypto_sentinel.Go.Float64.{float, lt, is_nan, key}
use crypto_sentinel.Go.Text.{text, beq, trim_space, to_lower}
use crypto_sentinel.Go.Decimal.{format_uint}
use crypto_sentinel.Models.{PriceAlert, CoinMarket}
use crypto_sentinel.Services.AlertService.{
  AlertService, add, added_message, new_alert, supported_op, remove,
}
use crypto_sentinel.Services.AlertService.View.{
  view, view-add, view-remove, is_within, printed_line,
}
use crypto_sentinel.Services.AlertService.Checker.{
  World, idle, Event, call_add, call_remove, call_clear, tick, look, answer, quoted, waiting,
  run_events, start, op_holds, alerted,
}
use crypto_sentinel.Services.AlertService.Checker.Invariant.{IsValid, run_events-IsValid}
use crypto_sentinel.Services.AlertService.Checker.Clearing.{clear_does_not_stop}
use crypto_sentinel.Commands.Alerts.{cmd_alert_add, cmd_alert_list, cmd_alert_remove}
use crypto_sentinel.Commands.Alerts.Forms.{
  at_least, cmd_alert_add-together, cmd_alert_remove-printed,
}
use crypto_sentinel.Examples.Demo.{demo, parse_demo}

abbrev market : ℕ → CoinMarket
market price = record {
  id = text "bitcoin";
  symbol = text "btc";
  name = text "Bitcoin";
  current_price = float price;
  market_cap = float 0;
  total_volume = float 0;
  price_change_pct24h = float 0;
  price_change_pct7d = float 0;
}

abbrev open_alert : PriceAlert
open_alert = record {
  symbol = text "btc";
  op = text ">";
  value = float 100;
  added_at = 7;
  triggered = false;
}

abbrev one_alert : AlertService
one_alert = record { heap = open_alert ∷ []; alerts = 0 ∷ [] }

abbrev one_waiting : World
one_waiting = record { service = one_alert; phase = waiting 0 []; log = [] }

abbrev schedule : List Event
schedule =
    call_add (text "btc") (text ">") (text "100") 7
    ∷ tick
    ∷ look
    ∷ call_remove (pos 0)
    ∷ answer (quoted (market 101))
    ∷ look
    ∷ []

-- An alert that is removed while its price is awaited fires.
fires :
    run_events schedule start
    ≡ some (record {
      service = record { heap = record open_alert { triggered = true } ∷ []; alerts = [] };
      phase = idle;
      log = alerted open_alert (float 101) ∷ [];
    })
unfolding run_events add remove supported_op beq text trim_space to_lower parse_demo op_holds lt
    is_nan key
fires = refl

run_events-IsValid_example : (w : World) × (run_events schedule start ≡ some w) × IsValid w
run_events-IsValid_example = run_events-IsValid schedule

market_meets : op_holds (text ">") (float 101) (float 100) ≡ true
unfolding op_holds beq text lt is_nan key
market_meets = refl

clear_does_not_stop_example :
    (w' : World) × (run_events (call_clear ∷ answer (quoted (market 101)) ∷ []) one_waiting
      ≡ some w')
    × (w'.service.alerts ≡ [])
    × (w'.log ≡ alerted open_alert (float 101) ∷ [])
clear_does_not_stop_example =
    clear_does_not_stop one_waiting 0 [] open_alert (market 101) refl refl market_meets

view-add_example :
    ((supported_op (trim_space (text ">=")) ≡ true)
      × ((parse_demo (trim_space (text "9"))).valid ≡ true)
      × ((add (text "eth") (text ">=") (text "9") 8 one_alert).0
          ≡ ok (added_message 1 (new_alert (text "eth") (text ">=") (text "9") 8)))
      × (view (add (text "eth") (text ">=") (text "9") 8 one_alert).1
          ≡ open_alert ∷ new_alert (text "eth") (text ">=") (text "9") 8 ∷ []))
    ⊎ (((supported_op (trim_space (text ">=")) ≡ false)
          ⊎ ((parse_demo (trim_space (text "9"))).valid ≡ false))
        × ((add (text "eth") (text ">=") (text "9") 8 one_alert).1 ≡ one_alert))
view-add_example = view-add (text "eth") (text ">=") (text "9") 8 one_alert (omega arith, tt)

view-remove_example :
    ((k : ℕ) × (pos 0 ≡ pos k)
      × (k < length (view one_alert))
      × ((remove (pos 0) one_alert).0 ≡ text "Alert removed.")
      × (view (remove (pos 0) one_alert).1
          ≡ take k (view one_alert) ++ drop (suc k) (view one_alert)))
    ⊎ ((is_within (pos 0) (length (view one_alert)) ≡ false)
        × ((remove (pos 0) one_alert).0 ≡ text "Invalid alert index.")
        × ((remove (pos 0) one_alert).1 ≡ one_alert))
view-remove_example = view-remove (pos 0) one_alert (omega arith, tt)

cmd_alert_add-together_example :
    cmd_alert_add (text "btc" ∷ text ">=65" ∷ []) 7 one_alert
    ≡ cmd_alert_add (text "btc" ∷ text ">=" ∷ text "65" ∷ []) 7 one_alert
cmd_alert_add-together_example =
    cmd_alert_add-together (text "btc") (text ">=65") (text ">=") (text "65") 7 one_alert trimmed
      (at_least refl)
  where
    trimmed : trim_space (text ">=65") ≡ text ">=" ++ text "65"
    trimmed = unfold trim_space text in refl

cmd_alert_remove-printed_example :
    ((before after : Bytes) × (cmd_alert_list one_alert
        ≡ some (ok (before ++ (printed_line 0 open_alert ++ after)))))
    × ((cmd_alert_remove (format_uint 0 ∷ []) one_alert).0 ≡ ok (text "Alert removed."))
    × (view (cmd_alert_remove (format_uint 0 ∷ []) one_alert).1 ≡ [])
cmd_alert_remove-printed_example =
    cmd_alert_remove-printed 0 [] one_alert open_alert (omega arith) (omega arith, tt) refl
