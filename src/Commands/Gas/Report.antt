-- ===== src/Commands/Gas/Report.antt =====
-- What the command gas answers, whatever the service replies.
use crypto_sentinel.Prelude.{
  true, List, [], ◌∷◌, ◌++◌, Option, none, some, Bytes, Result, ok, err, ◌==◌, ◌≡◌, refl,
  Bool-cases, Option-cases, inl, inr, if-elim, is_empty,
}
use crypto_sentinel.Go.Runtime.{Runtime}
use crypto_sentinel.Go.Text.{text, to_lower, has_prefix}
use crypto_sentinel.Go.Http.{Response, failed, response}
use crypto_sentinel.Go.Http.Laws.{Returns}
use crypto_sentinel.Commands.Shared.{lookup_text}
use crypto_sentinel.Commands.Gas.{
  Speed, GasJson, speeds_reply, gas_reply, ask_gas, cmd_gas, owl_url, unsupported_chain,
}
use crypto_sentinel.Commands.Gas.Chains.{gas_chain_map, as_emoji}
use crypto_sentinel.Commands.Gas.Speeds.{gas_report, gas_text-gas_report}

module _ ⦃g : Runtime⦄ where
  module _ ⦃j : GasJson⦄ where
    -- What the command answers on the chain `raw`, in lower case. `none` would be a fault.
    pub data IsGasReport (raw : Bytes) : Option (Result Bytes) → Type 0 where
      failed_with : (e : Bytes) → IsGasReport raw (some (err e))
      unknown : lookup_text raw gas_chain_map ≡ none → IsGasReport raw (some (ok unsupported_chain))
      warned : (t : Bytes) → has_prefix t (text "⚠") ≡ true → IsGasReport raw (some (ok t))
      nothing :
          (body : Bytes)
          → j.decode_speeds body ≡ ok []
          → IsGasReport raw (some (ok (text "No gas data for chain " ++ raw)))
      report :
          (chain_id body : Bytes) (s : Speed) (speeds : List Speed)
          → lookup_text raw gas_chain_map ≡ some chain_id
          → j.decode_speeds body ≡ ok (s ∷ speeds)
          → IsGasReport raw (some (ok (gas_report raw chain_id s speeds)))

    module _ (raw chain_id : Bytes) (known : lookup_text raw gas_chain_map ≡ some chain_id) where
      speeds_reply-IsGasReport :
          (body : Bytes) (speeds : List Speed)
          → j.decode_speeds body ≡ ok speeds
          → IsGasReport raw (speeds_reply raw chain_id speeds)
      speeds_reply-IsGasReport body [] e = nothing body e
      speeds_reply-IsGasReport body (s ∷ speeds) e =
          rw (gas_text-gas_report raw chain_id s speeds) (report chain_id body s speeds known e)

      decoded-IsGasReport :
          (body : Bytes) (d : Result (List Speed))
          → j.decode_speeds body ≡ d
          → IsGasReport raw (elim d [
            | err e ↦
                some (ok (text "⚠" ++ as_emoji ++ text " Failed to decode gas data from Owlracle."))
            | ok speeds ↦ speeds_reply raw chain_id speeds
          ])
      unfolding has_prefix text
      decoded-IsGasReport body (err m) e = warned _ refl
      decoded-IsGasReport body (ok speeds) e = speeds_reply-IsGasReport body speeds e

      gas_reply-IsGasReport : (r : Response) → IsGasReport raw (gas_reply raw chain_id r)
      unfolding has_prefix text
      gas_reply-IsGasReport (failed e) = warned _ refl
      gas_reply-IsGasReport (response status body) = elim (Bool-cases (status == 200)) [
        | inr bad ↦ rw bad (warned _ refl)
        | inl good ↦ rw good (decoded-IsGasReport body (j.decode_speeds body) refl)
      ]

      ask_gas-IsGasReport : (key : Bytes) → Returns (IsGasReport raw) (ask_gas key raw chain_id)
      ask_gas-IsGasReport key = elim (Option-cases (g.request_error (owl_url key chain_id))) [
        | inl fine ↦ rw (fine, Returns) (λ r. gas_reply-IsGasReport r)
        | inr (e, bad) ↦ rw (bad, Returns) (failed_with e)
      ]

    -- Whatever is answered, gas with a chain never faults: it fails, or tells that it does not know
    -- the chain, or warns, or tells that a decoded reply has no speed, or reports on the first slow,
    -- the first normal and the first fast speed of a decoded reply, for the chain that is known by
    -- the name. Slow goes before normal and normal before fast where a name fits several; where no
    -- speed is normal the first of all stands for it, and a slow or fast one that is not there is
    -- left out.
    pub cmd_gas-IsGasReport :
        (key arg : Bytes) (args : List Bytes)
        → Returns (IsGasReport (to_lower arg)) (cmd_gas key (arg ∷ args))
    unfolding cmd_gas
    cmd_gas-IsGasReport key arg args =
        elim (Option-cases (lookup_text (to_lower arg) gas_chain_map)) [
          | inl strange ↦ rw (strange, Returns) (unknown strange)
          | inr (chain_id, known) ↦
              rw (known, Returns)
                (if-elim (Returns (IsGasReport (to_lower arg))) (is_empty key) _ _ (failed_with _)
                  (ask_gas-IsGasReport (to_lower arg) chain_id known key))
        ]
