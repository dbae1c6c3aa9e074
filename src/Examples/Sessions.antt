-- ===== src/Examples/Sessions.antt =====
-- Whole sessions: the start of the program, messages, and the checker.
use crypto_sentinel.Prelude.{false, List, [], ◌∷◌, Option, none, some, Bytes, ok, All, ◌≡◌, refl}
use crypto_sentinel.Prelude.Int.{pos}
use crypto_sentinel.Go.Float64.{float, lt, is_nan, key}
use crypto_sentinel.Go.Text.{text, beq, ascii_space, has_prefix, join}
use crypto_sentinel.Go.Sort.Insertion.{by_insertion}
use crypto_sentinel.Services.AlertService.{supported_op}
use crypto_sentinel.Services.AlertService.Checker.{
  World, Event, call_add, call_remove, tick, cancel, look, answer, run_events,
}
use crypto_sentinel.Services.AlertService.Checker.Condition
use crypto_sentinel.Services.AlertService.Checker.Keeping.{Keeps, run_events-Keeps}
use crypto_sentinel.Services.AlertService.Checker.Replay.{conditions, replay, run_events-replay}
use crypto_sentinel.Services.AlertService.Checker.Stopping.{IsStill, run_events-cancel}
use crypto_sentinel.Commands.Router.{dispatch, handle}
use crypto_sentinel.Commands.Router.Words.{IsWord, handle-join}
use crypto_sentinel.Agent.Watching.{IsOrder, IsFired, process_task-IsFired}
use crypto_sentinel.Agent.{process_task}
use crypto_sentinel.Agent.Listing.{IsListReply, process_task-lists}
use crypto_sentinel.Go.Http.{done}
use crypto_sentinel.Main.{AgentConfig}
use crypto_sentinel.Examples.Agents.{
  decoders, environment, five_dollars, quote, one_alert, one_alert-IsValid,
}
use crypto_sentinel.Examples.Demo.{demo, in_order, parse_demo}

abbrev busy : List Event
busy =
    tick
    ∷ look
    ∷ call_remove (pos 0)
    ∷ answer (quote 0)
    ∷ call_add (text "eth") (text "<") (text "9") 4
    ∷ []

run_events-Keeps_example : (w : World) × (run_events busy one_alert ≡ some w) × Keeps one_alert w
run_events-Keeps_example = run_events-Keeps busy one_alert one_alert-IsValid

run_events-replay_example :
    (w : World) × (run_events busy one_alert ≡ some w)
    × (conditions w.service ≡ replay busy (conditions one_alert.service))
run_events-replay_example = run_events-replay busy one_alert one_alert-IsValid

process_task-lists_example :
    (w : World) × (run_events busy one_alert ≡ some w)
    × (t : Bytes) × (process_task decoders environment 0 (text "alert_list") w.service
        ≡ done (some (ok t), w.service))
    × IsListReply (replay busy (conditions one_alert.service)) t
process_task-lists_example =
    process_task-lists decoders environment busy 0 one_alert one_alert-IsValid

run_events-cancel_example :
    (w : World) × (run_events (cancel ∷ busy) one_alert ≡ some w) × IsStill one_alert w
run_events-cancel_example = run_events-cancel busy one_alert refl

compare_words : All IsWord (text "Compare" ∷ text "btc" ∷ text "eth" ∷ [])
unfolding text ascii_space
compare_words = ((refl, refl), ((refl, refl), ((refl, refl), tt)))

compare_slash : has_prefix (text "Compare") (text "/") ≡ false
unfolding has_prefix text
compare_slash = refl

handle-join_example :
    (handle (join (text "Compare" ∷ text "btc" ∷ text "eth" ∷ []) (text " "))
      ≡ dispatch (text "Compare" ∷ text "btc" ∷ text "eth" ∷ []))
    × (handle (b'/' ∷ join (text "Compare" ∷ text "btc" ∷ text "eth" ∷ []) (text " "))
        ≡ dispatch (text "Compare" ∷ text "btc" ∷ text "eth" ∷ []))
handle-join_example =
    handle-join (text "Compare") (text "btc" ∷ text "eth" ∷ []) compare_words compare_slash

order : IsOrder (text "eth") (text ">") (text "4")
unfolding text ascii_space supported_op beq parse_demo
order = record {
  words = ((refl, refl), ((refl, refl), ((refl, refl), tt)));
  known = refl;
  number = refl;
}

five_meets : Condition.Meets (text ">") (float 5) (parse_demo (text "4")).value
unfolding text parse_demo lt is_nan key
five_meets = Condition.above refl refl

process_task-IsFired_example :
    (w : World) × IsFired decoders environment
      (text "eth")
      (text ">")
      (text "4")
      7
      quote
      one_alert
      w
process_task-IsFired_example =
    process_task-IsFired decoders environment (text "eth") (text ">") (text "4") 7 quote one_alert
      five_dollars order one_alert-IsValid refl refl five_meets

abbrev variables : Bytes → Bytes
variables name = text "x"

abbrev accepted : AgentConfig → Option Bytes
accepted cfg = none
