-- ===== src/Commands/Alerts.antt =====
-- internal/commands/alerts.go
pub mod Forms
use crypto_sentinel.Prelude.{
  ℕ, suc, ◌+◌, ◌-◌, Bool, ◌||◌, List, [], ◌∷◌, Option, none, some, Bytes, Result, ok, take, drop,
  if◌then◌else◌,
}
use crypto_sentinel.Prelude.Int.{ℤ, pos, negsuc}
use crypto_sentinel.Go.Runtime.{Runtime}
use crypto_sentinel.Go.Text.{text, trim_space, has_prefix}
use crypto_sentinel.Go.Decimal.{atoi}
use crypto_sentinel.Services.AlertService.{AlertService, add, list, remove, clear}

module _ ⦃g : Runtime⦄ where
  -- The operator and the value of `s` in the form with two arguments; `none` is a bad format.
  unfoldable pub split_condition : Bytes → Option (Bytes × Bytes)
  split_condition s =
      if has_prefix s (text ">=") || has_prefix s (text "<=")
      then some (take 2 s, trim_space (drop 2 s))
      else if has_prefix s (text ">") || (has_prefix s (text "<") || has_prefix s (text "="))
      then some (take 1 s, trim_space (drop 1 s))
      else none

  unfoldable pub cmd_alert_add : List Bytes → ℕ → AlertService → Result Bytes × AlertService
  unfolding split_condition
  cmd_alert_add [] now svc =
      (ok (text "Usage: alert [symbol] [operator] [value]\nExample: alert btc > 65000"), svc)
  cmd_alert_add (symbol ∷ []) now svc =
      (ok (text "Usage: alert [symbol] [operator] [value]\nExample: alert btc > 65000"), svc)
  cmd_alert_add (symbol ∷ condition ∷ []) now svc = elim (split_condition (trim_space condition)) [
    | none ↦ (ok (text "Invalid format. Example: alert btc > 65000"), svc)
    | some (op, value) ↦ add symbol op value now svc
  ]
  cmd_alert_add (symbol ∷ op ∷ value ∷ rest) now svc =
      add symbol (trim_space op) (trim_space value) now svc

  -- `none` is a fault of `List`.
  unfoldable pub cmd_alert_list : AlertService → Option (Result Bytes)
  cmd_alert_list svc = elim (list svc) [ none ↦ none | some s ↦ some (ok s) ]

unfoldable pub cmd_alert_remove : List Bytes → AlertService → Result Bytes × AlertService
cmd_alert_remove [] svc = (ok (text "Usage: alert_remove [index]"), svc)
cmd_alert_remove (arg ∷ rest) svc = elim (atoi arg) [
  | none ↦ (ok (text "Invalid index."), svc)
  | some (negsuc n) ↦ (ok (text "Invalid index."), svc)
  | some (pos idx) ↦ let (msg, svc') = remove (pos idx) svc in (ok msg, svc')
]

unfoldable pub cmd_alert_clear : AlertService → Result Bytes × AlertService
cmd_alert_clear svc = let (msg, svc') = clear svc in (ok msg, svc')
