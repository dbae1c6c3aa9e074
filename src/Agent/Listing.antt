-- ===== src/Agent/Listing.antt =====
-- What a user is shown of the alerts after a session.
use crypto_sentinel.Prelude.{
  suc, Bool, map, ◌++◌, if◌then◌else◌, ℕ, List, [], ◌∷◌, some, Bytes, ok, ◌≡◌, refl, sym, ◌∙◌,
  subst,
}
use mathlib.Core.Option.{some-injective}
use crypto_sentinel.Go.Runtime.{Runtime}
use crypto_sentinel.Go.Sort.{Sorter}
use crypto_sentinel.Go.Chance.{Chance}
use crypto_sentinel.Go.Text.{text, beq, ascii_space, to_lower, to_upper, has_prefix, join}
use crypto_sentinel.Go.Decimal.{format_uint}
use crypto_sentinel.Services.Format.{format_float}
use crypto_sentinel.Models.{PriceAlert}
use crypto_sentinel.Go.Http.{done}
use crypto_sentinel.Services.AlertService.{AlertService}
use crypto_sentinel.Services.AlertService.View.{IsListed, view, shown, print_from, list-view}
use crypto_sentinel.Services.AlertService.Checker.{World, Event, run_events}
use crypto_sentinel.Services.AlertService.Checker.Invariant.{IsValid, run_events-EndsValid}
use crypto_sentinel.Services.AlertService.Checker.Replay.{
  Condition, condition_of, conditions, replay, run_events-replay,
}
use crypto_sentinel.Commands.Alerts.{cmd_alert_list}
use crypto_sentinel.Commands.Router.{dispatch, handle}
use crypto_sentinel.Commands.Router
use crypto_sentinel.Commands.Router.Words.{IsWord, handle-join}
use crypto_sentinel.Agent.{Environment, Decoders, process_task, perform}

abbrev list_message : Bytes
list_message = text "alert_list"

module _ ⦃g : Runtime⦄ where
  list-IsWord : IsWord list_message
  unfolding text ascii_space
  list-IsWord = (refl, refl)

  dispatch_list : dispatch (list_message ∷ []) ≡ some Router.cmd_alert_list
  unfolding to_lower beq text
  dispatch_list = refl

  handle_list : handle list_message ≡ some Router.cmd_alert_list
  unfolding text join
  handle_list =
      (handle-join list_message [] (list-IsWord, tt) (unfold has_prefix text in refl)).0
      ∙ dispatch_list

  cmd_alert_list-shown :
      (svc : AlertService) → IsListed svc → cmd_alert_list svc ≡ some (ok (shown (view svc)))
  unfolding cmd_alert_list
  cmd_alert_list-shown svc listed = rw (list-view svc listed, cmd_alert_list) refl

  -- The line of a condition: its index, the symbol in upper case, the operator and value, and
  -- the mark of its alert.
  abbrev condition_line : ℕ → Condition → Bool → Bytes
  condition_line i c triggered =
      format_uint i
      ++ text ") "
      ++ to_upper c.symbol
      ++ text " "
      ++ c.op
      ++ text " "
      ++ format_float c.value
      ++ text " ["
      ++ (if triggered then text "triggered" else text "open")
      ++ text "]\n"

  -- A line for each of the conditions, in order, with the indices from `i` on.
  pub data AreLines : ℕ → List Condition → Bytes → Type 0 where
    no_more : (i : ℕ) → AreLines i [] []
    line :
        (i : ℕ) (c : Condition) (cs : List Condition) (triggered : Bool) (rest : Bytes)
        → AreLines (suc i) cs rest
        → AreLines i (c ∷ cs) (condition_line i c triggered ++ rest)

  -- The answer to `alert_list` if the list has the conditions.
  pub data IsListReply : List Condition → Bytes → Type 0 where
    nothing : IsListReply [] (text "No active alerts.")
    listing :
        (c : Condition) (cs : List Condition) (lines : Bytes)
        → AreLines 0 (c ∷ cs) lines
        → IsListReply (c ∷ cs) (text "Active alerts:\n" ++ lines)

  print_from-AreLines :
      (i : ℕ) (l : List PriceAlert) → AreLines i (map condition_of l) (print_from i l)
  print_from-AreLines i [] = no_more i
  print_from-AreLines i (a ∷ l) =
      line i (condition_of a) (map condition_of l) a.triggered (print_from (suc i) l)
        (print_from-AreLines (suc i) l)

  shown-IsListReply : (l : List PriceAlert) → IsListReply (map condition_of l) (shown l)
  shown-IsListReply [] = nothing
  shown-IsListReply (a ∷ l) =
      listing (condition_of a) (map condition_of l) (print_from 0 (a ∷ l))
        (print_from-AreLines 0 (a ∷ l))

module _ ⦃g : Runtime⦄ ⦃s : Sorter⦄ ⦃c : Chance⦄ (d : Decoders) (env : Environment) where
  process_task-list :
      (now : ℕ) (svc : AlertService)
      → IsListed svc
      → process_task d env now list_message svc ≡ done (some (ok (shown (view svc))), svc)
  unfolding process_task perform
  process_task-list now svc listed =
      rw (handle_list, process_task) (rw (cmd_alert_list-shown svc listed) refl)

  -- From a valid world, any schedule of the calls of users and the actions of the checker ends
  -- well, and then `alert_list` changes nothing and is answered with a line for each condition that
  -- the calls of users alone make of the conditions at the start, in order: with its index, from 0
  -- on, its symbol, operator and value, and a mark; or told that there is none.
  pub process_task-lists :
      (es : List Event) (now : ℕ) (w : World)
      → IsValid w
      → (w' : World) × (run_events es w ≡ some w')
        × (t : Bytes) × (process_task d env now list_message w'.service
            ≡ done (some (ok t), w'.service))
        × IsListReply (replay es (conditions w.service)) t
  process_task-lists es now w v =
      let (w1, ended, v1) = run_events-EndsValid es w v in
      let (w2, also, same) = run_events-replay es w v in
      let v2 : IsValid w2 = subst IsValid (some-injective w1 w2 (sym ended ∙ also)) v1 in
      (
        w2,
        also,
        shown (view w2.service),
        process_task-list now w2.service v2.listed,
        subst (λ l. IsListReply l (shown (view w2.service))) same
            (shown-IsListReply (view w2.service)),
      )
