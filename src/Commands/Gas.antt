-- ===== src/Commands/Gas.antt =====
-- internal/commands/gas.go; `key` is the variable OWLRACLE_API_KEY.
pub mod Laws
pub mod Speeds
pub mod Report
pub mod Chains
use crypto_sentinel.Prelude.{
  ℕ, suc, Bool, ◌&&◌, ◌||◌, List, [], ◌∷◌, ◌++◌, Option, none, some, Bytes, Result, ok, err, ◌==◌,
  get_elem?, is_empty, if◌then◌else◌,
}
use crypto_sentinel.Go.Runtime.{Runtime}
use crypto_sentinel.Go.Float64.{Float64, f_zero, le, gt}
use crypto_sentinel.Go.Text.{text, beq, contains, to_lower}
use crypto_sentinel.Go.Decimal.{format_uint}
use crypto_sentinel.Go.Http.{Response, failed, response, Prog, done, send}
use crypto_sentinel.Services.Format.{format_float}
use crypto_sentinel.Clients.Coingecko.{from_agent}
use crypto_sentinel.Commands.Shared.{lookup_text}
use Chains.{as_emoji, gas_chain_map, gas_pretty_name, gas_emoji}

pub record Speed : Type 0 where
  pub name : Bytes
  pub estimated : Float64
  pub gas_price : Float64
  pub unit : Bytes
  pub confidence : Float64

pub record GasJson : Type 0 where
  pub decode_speeds : Bytes → Result (List Speed)

-- m[k], and `otherwise` for a missing key; no value of the maps is empty.
abbrev text_or : Bytes → Option Bytes → Bytes
text_or otherwise none = otherwise
text_or otherwise (some v) = v

abbrev pub unsupported_chain : Bytes
unsupported_chain =
    text "Unsupported chain. Supported: ethereum, arbitrum, base, bsc, polygon, "
    ++ text "optimism, avalanche, fantom, gnosis, celo"

abbrev pub owl_url : Bytes → Bytes → Bytes
owl_url key chain_id =
    text "https://api.owlracle.info/v4/" ++ chain_id ++ text "/gas?apikey=" ++ key

-- slowIdx, normalIdx and fastIdx, where -1 is `none`.
pub record Buckets : Type 0 where
  pub slow : Option ℕ
  pub normal : Option ℕ
  pub fast : Option ℕ

-- if idx == -1 { idx = i }
abbrev pub keep_first : ℕ → Option ℕ → Option ℕ
keep_first i none = some i
keep_first i (some k) = some k

module _ ⦃g : Runtime⦄ where
  -- The body of the loop, on the name in lower case.
  abbrev pub bucket : ℕ → Bytes → Buckets → Buckets
  bucket i name b =
      if contains name (text "slow")
      then record b { slow = keep_first i b.slow }
      else if contains name (text "standard") || contains name (text "normal")
      then record b { normal = keep_first i b.normal }
      else if contains name (text "fast")
      then record b { fast = keep_first i b.fast }
      else b

  unfoldable pub buckets : ℕ → List Speed → Buckets → Buckets
  buckets i [] b = b
  buckets i (s ∷ speeds) b = buckets (suc i) speeds (bucket i (to_lower s.name) b)

  abbrev speed_price : Speed → Bytes
  speed_price s =
      if le s.gas_price f_zero && gt s.estimated f_zero
      then text "est. tx cost "
        ++ format_float s.estimated
        ++ text " "
        ++ (if is_empty s.unit then text "USD" else s.unit)
      else format_float s.gas_price ++ text " " ++ s.unit

  abbrev confidence_note : Speed → Bytes
  confidence_note s =
      if gt s.confidence f_zero
      then text "  (confidence ~" ++ g.fixed 0 s.confidence ++ text "%)"
      else []

  -- writeLine
  abbrev pub speed_line : Bytes → Speed → Bytes
  speed_line label s =
      text "• " ++ label ++ text ": " ++ speed_price s ++ confidence_note s ++ text "\n"

  -- if idx != -1 { writeLine(label, &data.Speeds[idx]) }; `none` is an index out of range.
  abbrev pub bucket_line : Bytes → Option ℕ → List Speed → Option Bytes
  bucket_line label none speeds = some []
  bucket_line label (some i) speeds = elim (get_elem? speeds i) [
    | none ↦ none
    | some s ↦ some (speed_line label s)
  ]

  abbrev pub hints : Bytes
  hints =
      text "\nHints:\n- Slow: cheaper but may take longer to confirm.\n"
      ++ text "- Normal: balanced cost vs confirmation speed (typical default).\n"
      ++ text "- Fast: higher fee, better chance to be included in the next blocks.\n"
      ++ text "\nSource: Owlracle Gas API"

  abbrev pub all_lines : Bytes → Option Bytes → Option Bytes → Option Bytes → Option Bytes
  all_lines head (some slow) (some normal) (some fast) =
      some (head ++ slow ++ normal ++ fast ++ hints)
  all_lines head _ _ _ = none

  abbrev pub gas_head : Bytes → Bytes → Bytes
  gas_head raw chain_id =
      text_or (text "⛽") (lookup_text chain_id gas_emoji)
      ++ text " Gas tracker — "
      ++ text_or (g.title raw) (lookup_text chain_id gas_pretty_name)
      ++ text "\n"

  unfoldable pub gas_text : Bytes → Bytes → List Speed → Option Bytes
  unfolding buckets
  gas_text raw chain_id speeds =
      let b = buckets 0 speeds (record { slow = none; normal = none; fast = none }) in
      all_lines (gas_head raw chain_id) (bucket_line (text "Slow") b.slow speeds)
        (bucket_line (text "Normal") (keep_first 0 b.normal) speeds)
        (bucket_line (text "Fast") b.fast speeds)

  abbrev pub said : Option Bytes → Option (Result Bytes)
  said none = none
  said (some t) = some (ok t)

  abbrev pub speeds_reply : Bytes → Bytes → List Speed → Option (Result Bytes)
  speeds_reply raw chain_id speeds =
      if is_empty speeds
      then some (ok (text "No gas data for chain " ++ raw))
      else said (gas_text raw chain_id speeds)

  module _ ⦃j : GasJson⦄ where
    abbrev pub gas_reply : Bytes → Bytes → Response → Option (Result Bytes)
    gas_reply raw chain_id (failed e) =
        some (ok (text "⚠" ++ as_emoji ++ text " Gas API error. Please try again later."))
    gas_reply raw chain_id (response status body) =
        if status == 200
        then elim (j.decode_speeds body) [
          | err e ↦
              some (ok (text "⚠" ++ as_emoji ++ text " Failed to decode gas data from Owlracle."))
          | ok speeds ↦ speeds_reply raw chain_id speeds
        ]
        else some (
            ok (
              text "⚠"
              ++ as_emoji
              ++ text " Gas API status "
              ++ format_uint status
              ++ text " for chain "
              ++ chain_id))

    -- With a chain and a key.
    abbrev pub ask_gas : Bytes → Bytes → Bytes → Prog (Option (Result Bytes))
    ask_gas key raw chain_id = elim (g.request_error (owl_url key chain_id)) [
      | some e ↦ done (some (err e))
      | none ↦ send (from_agent (owl_url key chain_id)) (λ r. done (gas_reply raw chain_id r))
    ]

    unfoldable pub cmd_gas : Bytes → List Bytes → Prog (Option (Result Bytes))
    unfolding gas_text
    cmd_gas key [] = done (some (ok (text "Usage: gas [chain]\nExample: gas ethereum")))
    cmd_gas key (arg ∷ args) = elim (lookup_text (to_lower arg) gas_chain_map) [
      | none ↦ done (some (ok unsupported_chain))
      | some chain_id ↦
          if is_empty key
          then done (some (err (text "OWLRACLE_API_KEY is not set in environment")))
          else ask_gas key (to_lower arg) chain_id
    ]
