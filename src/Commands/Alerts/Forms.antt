-- ===== src/Commands/Alerts/Forms.antt =====
-- The two forms of the command `alert`, and its indices.
use crypto_sentinel.Prelude.{
  ℕ, suc, ◌^◌, ◌<◌, false, List, [], ◌∷◌, ◌++◌, some, Bytes, ◌≡◌, refl, arith, length, leb, take,
  drop, get_elem?, get_elem?-below, ok, ◌∙◌, ap,
}
use crypto_sentinel.Go.Runtime.{Runtime}
use crypto_sentinel.Go.Text.{text, trim_space, has_prefix}
use crypto_sentinel.Go.Decimal.{format_uint}
use crypto_sentinel.Go.Decimal.RoundTrip.{atoi-format_uint}
use crypto_sentinel.Services.AlertService.{AlertService}
use crypto_sentinel.Services.AlertService.View.{
  IsListed, view, view-remove_index, printed_line, list-line,
}
use crypto_sentinel.Models.{PriceAlert}
use crypto_sentinel.Commands.Alerts.{
  cmd_alert_add, cmd_alert_list, cmd_alert_remove, split_condition,
}

-- `op` is all of the operator at the front of `op ++ value`.
pub data IsWhole (op value : Bytes) : Type 0 where
  at_least : op ≡ text ">=" → IsWhole op value
  at_most : op ≡ text "<=" → IsWhole op value
  above : op ≡ text ">" → has_prefix value (text "=") ≡ false → IsWhole op value
  below : op ≡ text "<" → has_prefix value (text "=") ≡ false → IsWhole op value

module _ ⦃g : Runtime⦄ where
  trim_space-op : (op value : Bytes) → IsWhole op value → trim_space op ≡ op
  unfolding trim_space text
  trim_space-op op value (at_least e) = rw e refl
  trim_space-op op value (at_most e) = rw e refl
  trim_space-op op value (above e h) = rw e refl
  trim_space-op op value (below e h) = rw e refl

  split_condition-append :
      (op value : Bytes)
      → IsWhole op value
      → split_condition (op ++ value) ≡ some (op, trim_space value)
  unfolding split_condition has_prefix text
  split_condition-append op value (at_least e) = rw e refl
  split_condition-append op value (at_most e) = rw e refl
  split_condition-append op [] (above e h) = rw e refl
  split_condition-append op (c ∷ value) (above e h) = rw e (ground arith)
  split_condition-append op [] (below e h) = rw e refl
  split_condition-append op (c ∷ value) (below e h) = rw e (ground arith)

  -- `alert btc >=65000` is `alert btc >= 65000`: an operator written together with its value is
  -- read as if they stood apart, and is the longest of `>=`, `<=`, `>` and `<` that fits.
  pub cmd_alert_add-together :
      (symbol condition op value : Bytes) (now : ℕ) (svc : AlertService)
      → trim_space condition ≡ op ++ value
      → IsWhole op value
      → cmd_alert_add (symbol ∷ condition ∷ []) now svc
        ≡ cmd_alert_add (symbol ∷ op ∷ value ∷ []) now svc
  unfolding cmd_alert_add
  cmd_alert_add-together symbol condition op value now svc e w =
      rw (e, cmd_alert_add)
        (rw (split_condition-append op value w, cmd_alert_add) (rw (trim_space-op op value w) refl))

module _ ⦃g : Runtime⦄ where
  -- `alert_list` prints a line for the alert at an index of the list, which begins with that index;
  -- and the index as it is printed there, given to `alert_remove`, deletes that alert and no other.
  pub cmd_alert_remove-printed :
      (i : ℕ) (rest : List Bytes) (svc : AlertService) (a : PriceAlert)
      → i < 2 ^ 63
      → IsListed svc
      → get_elem? (view svc) i ≡ some a
      → ((before after : Bytes) × (cmd_alert_list svc
            ≡ some (ok (before ++ (printed_line i a ++ after)))))
        × ((cmd_alert_remove (format_uint i ∷ rest) svc).0 ≡ ok (text "Alert removed."))
        × (view (cmd_alert_remove (format_uint i ∷ rest) svc).1
            ≡ take i (view svc) ++ drop (suc i) (view svc))
  unfolding cmd_alert_remove cmd_alert_list
  cmd_alert_remove-printed i rest svc a fits b at =
      let (before, after, listed) = list-line i svc a b at in
      let (told, left) = view-remove_index i svc b in
      let within : leb (length (view svc)) i ≡ false =
        ground (arith, get_elem?-below (view svc) i a at) in
      (
        (before, after, rw (listed, cmd_alert_list) refl),
        rw (atoi-format_uint i fits, cmd_alert_remove) (ap ok (told ∙ (rw within refl))),
        rw (atoi-format_uint i fits, cmd_alert_remove) (left ∙ (rw within refl)),
      )
