-- ===== src/Agent/Watching.antt =====
-- From the message that sets an alert to the sweep in which it fires.
use crypto_sentinel.Prelude.{
  ℕ, true, [], ◌∷◌, some, Bytes, ok, All, length, get_elem?, get_elem?-length, ◌≡◌, refl, sym, ap,
  ◌∙◌, subst,
}
use crypto_sentinel.Go.Runtime.{Runtime}
use mathlib.Core.Option.{some-injective}
use crypto_sentinel.Go.Sort.{Sorter}
use crypto_sentinel.Go.Chance.{Chance}
use crypto_sentinel.Go.Text.{text, beq, ascii_space, join, to_lower, has_prefix, trim_space}
use crypto_sentinel.Go.Http.{done}
use crypto_sentinel.Models.{CoinMarket}
use crypto_sentinel.Services.AlertService.{
  AlertService, add, added, added_message, new_alert, supported_op,
}
use crypto_sentinel.Services.AlertService.View.{add_accepts}
use crypto_sentinel.Services.AlertService.Checker.{
  World, idle, Quote, quoted, call_add, tick, step, run_events,
}
use crypto_sentinel.Services.AlertService.Checker.Condition.{Meets}
use crypto_sentinel.Services.AlertService.Checker.Invariant.{IsValid, run_events-EndsValid}
use crypto_sentinel.Services.AlertService.Checker.Rounds.{sweep}
use crypto_sentinel.Services.AlertService.Checker.Sweeping.{run_events-IsSwept}
use crypto_sentinel.Commands.Alerts.{cmd_alert_add}
use crypto_sentinel.Commands.Router.{dispatch, handle}
use crypto_sentinel.Commands.Router
use crypto_sentinel.Commands.Router.Words.{IsWord, trim_space-word, handle-join}
use crypto_sentinel.Agent.{Environment, Decoders, process_task, perform}

-- The message that asks for an alert.
abbrev alert_message : Bytes → Bytes → Bytes → Bytes
alert_message symbol op value = join (text "alert" ∷ symbol ∷ op ∷ value ∷ []) (text " ")

module _ ⦃g : Runtime⦄ where
  -- The words are an operator that is supported, a number, and any symbol.
  pub record IsOrder (symbol op value : Bytes) : Type 0 where
    pub words : All IsWord (symbol ∷ op ∷ value ∷ [])
    pub known : supported_op op ≡ true
    pub number : (g.parse_float value).valid ≡ true

  alert-IsWord : IsWord (text "alert")
  unfolding text ascii_space
  alert-IsWord = (refl, refl)

  dispatch_alert :
      (symbol op value : Bytes)
      → dispatch (text "alert" ∷ symbol ∷ op ∷ value ∷ [])
        ≡ some (Router.cmd_alert_add (symbol ∷ op ∷ value ∷ []))
  unfolding to_lower beq text
  dispatch_alert symbol op value = refl

  handle_alert :
      (symbol op value : Bytes)
      → All IsWord (symbol ∷ op ∷ value ∷ [])
      → handle (alert_message symbol op value)
        ≡ some (Router.cmd_alert_add (symbol ∷ op ∷ value ∷ []))
  handle_alert symbol op value words =
      (handle-join (text "alert") (symbol ∷ op ∷ value ∷ []) (alert-IsWord, words)
        (unfold has_prefix text in refl)).0
      ∙ dispatch_alert symbol op value

  -- The world after `Add` has taken the order.
  abbrev pub ordered : Bytes → Bytes → Bytes → ℕ → World → World
  ordered symbol op value now w = record w { service = added symbol op value now w.service }

  ordered-IsValid :
      (symbol op value : Bytes) (now : ℕ) (w : World)
      → IsOrder symbol op value
      → IsValid w
      → IsValid (ordered symbol op value now w)
  unfolding run_events step
  ordered-IsValid symbol op value now w o v =
      let (w1, e, v1) = run_events-EndsValid (call_add symbol op value now ∷ []) w v in
      let top : supported_op (trim_space op) ≡ true = rw (trim_space-word op o.words.1.0) o.known in
      let tvalue : (g.parse_float (trim_space value)).valid ≡ true =
        rw (trim_space-word value o.words.1.1.0) o.number in
      let e' = rw (add_accepts symbol op value now w.service top tvalue) at e in
      subst IsValid (sym (some-injective _ _ e')) v1

  cmd_alert_add-accepts :
      (symbol op value : Bytes) (now : ℕ) (svc : AlertService)
      → IsOrder symbol op value
      → cmd_alert_add (symbol ∷ op ∷ value ∷ []) now svc ≡ (
        ok (added_message (length svc.alerts) (new_alert symbol op value now)),
        added symbol op value now svc,
      )
  unfolding cmd_alert_add
  cmd_alert_add-accepts symbol op value now svc o =
      let top = trim_space-word op o.words.1.0 in
      let tvalue = trim_space-word value o.words.1.1.0 in
      ap (λ x. add symbol x (trim_space value) now svc) top
      ∙ ap (λ x. add symbol op x now svc) tvalue
      ∙ add_accepts symbol op value now svc (rw top o.known) (rw tvalue o.number)

module _ ⦃g : Runtime⦄ ⦃s : Sorter⦄ ⦃c : Chance⦄ (d : Decoders) (env : Environment) where
  process_task-alert :
      (symbol op value : Bytes) (now : ℕ) (svc : AlertService)
      → IsOrder symbol op value
      → process_task d env now (alert_message symbol op value) svc
        ≡ done (
          some (ok (added_message (length svc.alerts) (new_alert symbol op value now))),
          added symbol op value now svc,
        )
  unfolding process_task perform
  process_task-alert symbol op value now svc o =
      rw (handle_alert symbol op value o.words, process_task)
        (rw (cmd_alert_add-accepts symbol op value now svc o) refl)

  -- What comes of an order in a world, if the next sweep gets the price of `m` for the alert.
  pub record IsFired (symbol op value : Bytes) (now : ℕ) (quotes : ℕ → Quote) (w w' : World)
      : Type 0 where
    pub replied :
        process_task d env now (alert_message symbol op value) w.service
        ≡ done (
          some (ok (added_message (length w.service.alerts) (new_alert symbol op value now))),
          (ordered symbol op value now w).service,
        )
    swept :
        run_events
          (tick ∷ sweep quotes (ordered symbol op value now w).service.alerts)
          (ordered symbol op value now w)
        ≡ some w'
    pub fired :
        get_elem? w'.service.heap (length w.service.heap)
        ≡ some (record (new_alert symbol op value now) { triggered = true })

  -- A user who sends `alert <symbol> <operator> <value>`, words with a space between each two, the
  -- operator one of the four and the value a number, to a valid world where the checker is idle,
  -- is told the index of the new alert; and in the next sweep, if nothing comes between, the alert
  -- is triggered if the price that is fetched for it meets its condition, whatever is fetched for
  -- the other alerts.
  pub process_task-IsFired :
      (symbol op value : Bytes) (now : ℕ) (quotes : ℕ → Quote) (w : World) (m : CoinMarket)
      → IsOrder symbol op value
      → IsValid w
      → w.phase ≡ idle
      → quotes (length w.service.heap) ≡ quoted m
      → Meets op m.current_price (g.parse_float value).value
      → (w' : World) × IsFired symbol op value now quotes w w'
  process_task-IsFired symbol op value now quotes w m o v idles quote meets =
      let (w', ended, swept) =
        run_events-IsSwept quotes (ordered symbol op value now w)
          (ordered-IsValid symbol op value now w o v) idles in
      (
        w',
        record {
          replied = process_task-alert symbol op value now w.service o;
          swept = ended;
          fired =
              swept.triggered (length w.service.alerts) (length w.service.heap)
                (new_alert symbol op value now) m (get_elem?-length w.service.alerts _)
                (get_elem?-length w.service.heap _) quote
                (rw (trim_space-word op o.words.1.0)
                  (rw (trim_space-word value o.words.1.1.0) meets));
        },
      )
