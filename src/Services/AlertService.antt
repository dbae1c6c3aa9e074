-- ===== src/Services/AlertService.antt =====
-- internal/services/alert_service.go: the list of alerts and its operations. The objects stand on
-- a heap, since the checker holds pointers to them while the list changes.
pub mod View
pub mod Checker
use crypto_sentinel.Prelude.{
  ℕ, suc, ◌+◌, ◌-◌, Bool, true, false, not, ◌&&◌, ◌||◌, List, [], ◌∷◌, ◌++◌, Option, none, some,
  Bytes, Result, ok, length, get_elem?, take, drop, is_empty, leb, if◌then◌else◌,
}
use crypto_sentinel.Prelude.Int.{ℤ, pos, negsuc}
use crypto_sentinel.Go.Runtime.{Runtime}
use crypto_sentinel.Go.Text.{text, beq, trim_space, to_lower, to_upper}
use crypto_sentinel.Go.Decimal.{format_uint}
use crypto_sentinel.Models.{PriceAlert}
use crypto_sentinel.Services.Format.{format_float}

-- `heap` has every alert that was allocated, by its address; `alerts` is the slice of pointers.
pub record AlertService : Type 0 where
  pub heap : List PriceAlert
  pub alerts : List ℕ

abbrev pub new_alert_service : AlertService
new_alert_service = record { heap = []; alerts = [] }

-- The operators that `Add` accepts.
unfoldable pub supported_op : Bytes → Bool
supported_op op =
    beq op (text ">") || (beq op (text "<") || (beq op (text ">=") || beq op (text "<=")))

abbrev pub status : Bool → Bytes
status true = text "triggered"
status false = text "open"

module _ ⦃g : Runtime⦄ where
  -- The object that `Add` allocates.
  abbrev pub new_alert : Bytes → Bytes → Bytes → ℕ → PriceAlert
  new_alert symbol op value now = record {
    symbol = to_lower (trim_space symbol);
    op = trim_space op;
    value = (g.parse_float (trim_space value)).value;
    added_at = now;
    triggered = false;
  }

  abbrev pub added : Bytes → Bytes → Bytes → ℕ → AlertService → AlertService
  added symbol op value now s = record s {
    heap = s.heap ++ new_alert symbol op value now ∷ [];
    alerts = s.alerts ++ length s.heap ∷ [];
  }

  abbrev pub added_message : ℕ → PriceAlert → Bytes
  added_message idx a =
      text "Alert #"
      ++ format_uint idx
      ++ text " added: "
      ++ to_upper a.symbol
      ++ text " "
      ++ a.op
      ++ text " "
      ++ format_float a.value
      ++ text " (USD)"

  -- (*AlertService).Add; `now` is time.Now().
  unfoldable pub add : Bytes → Bytes → Bytes → ℕ → AlertService → Result Bytes × AlertService
  unfolding supported_op
  add symbol op value now s =
      let o = trim_space op in
      if beq o (text "==") || beq o (text "=")
      then (ok (text "Invalid operator. Use one of: >, <, >=, <="), s)
      else if not (supported_op o)
      then (ok (text "Operator must be one of >, <, >=, <="), s)
      else if not (g.parse_float (trim_space value)).valid
      then (ok (text "Invalid value: " ++ value), s)
      else (
        ok (added_message (length s.alerts) (new_alert symbol op value now)),
        added symbol op value now s,
      )

  abbrev pub list_line : ℕ → PriceAlert → Bytes
  list_line i a =
      format_uint i
      ++ text ") "
      ++ to_upper a.symbol
      ++ text " "
      ++ a.op
      ++ text " "
      ++ format_float a.value
      ++ text " ["
      ++ status a.triggered
      ++ text "]\n"

  -- The loop of `List`; `none` is a dangling pointer.
  unfoldable pub list_lines : List PriceAlert → ℕ → List ℕ → Option Bytes
  list_lines heap i [] = some []
  list_lines heap i (p ∷ ps) = elim (get_elem? heap p) [
    | none ↦ none
    | some a ↦ elim (list_lines heap (suc i) ps) [
      | none ↦ none
      | some rest ↦ some (list_line i a ++ rest)
    ]
  ]

  -- (*AlertService).List
  unfoldable pub list : AlertService → Option Bytes
  unfolding list_lines
  list s =
      if is_empty s.alerts
      then some (text "No active alerts.")
      else elim (list_lines s.heap 0 s.alerts) [
        | none ↦ none
        | some lines ↦ some (text "Active alerts:\n" ++ lines)
      ]

-- (*AlertService).Remove
unfoldable pub remove : ℤ → AlertService → Bytes × AlertService
remove (negsuc n) s = (text "Invalid alert index.", s)
remove (pos index) s = if leb (length s.alerts) index then (text "Invalid alert index.", s) else (
  text "Alert removed.",
  record s { alerts = take index s.alerts ++ drop (suc index) s.alerts },
)

-- (*AlertService).Clear
unfoldable pub clear : AlertService → Bytes × AlertService
clear s = (text "All alerts cleared.", record s { alerts = [] })
