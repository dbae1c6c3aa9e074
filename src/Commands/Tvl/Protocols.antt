-- ===== src/Commands/Tvl/Protocols.antt =====
-- internal/commands/tvl_protocols.go: the protocols of a chain with the most value locked.
pub mod Laws
use crypto_sentinel.Prelude.{
  ℕ, suc, Bool, true, false, List, [], ◌∷◌, ◌++◌, Option, none, some, Bytes, Result, ok, err,
  length, slice_to, ltb, ◌==◌, is_empty, filter_map, if◌then◌else◌,
}
use crypto_sentinel.Go.Runtime.{Runtime}
use crypto_sentinel.Go.Float64.{Float64, gt}
use crypto_sentinel.Go.Text.{text, join, to_lower, trim_space, equal_fold}
use crypto_sentinel.Go.Decimal.{format_uint}
use crypto_sentinel.Go.Sort.{Sorter}
use crypto_sentinel.Go.Http.{Response, failed, response, Prog, done, send}
use crypto_sentinel.Clients.Coingecko.{from_agent}
use crypto_sentinel.Commands.Shared.{replied}
use crypto_sentinel.Commands.Tvl.{rounded}

pub record ProtocolRow : Type 0 where
  pub name : Bytes
  pub tvl : Float64
  pub chains : List Bytes

pub record ProtocolInfo : Type 0 where
  pub name : Bytes
  pub tvl : Float64

pub record ProtocolsJson : Type 0 where
  pub decode_protocols : Bytes → Result (List ProtocolRow)

abbrev pub more_tvl : ProtocolInfo → ProtocolInfo → Bool
more_tvl a b = gt a.tvl b.tvl

-- limit := 10; if len(filtered) < limit { limit = len(filtered) }
unfoldable pub protocol_limit : List ProtocolInfo → ℕ
protocol_limit filtered = if ltb (length filtered) 10 then length filtered else 10

module _ ⦃g : Runtime⦄ where
  -- The inner loop, which ends at the first chain that fits.
  unfoldable pub on_chain : Bytes → List Bytes → Bool
  on_chain target [] = false
  on_chain target (ch ∷ chains) = if equal_fold ch target then true else on_chain target chains

  -- A round of the outer loop.
  unfoldable pub protocol_on : Bytes → ProtocolRow → Option ProtocolInfo
  unfolding on_chain
  protocol_on target p =
      if on_chain target p.chains then some (record { name = p.name; tvl = p.tvl }) else none

  abbrev protocol_lines : ℕ → List ProtocolInfo → Bytes
  protocol_lines i [] = []
  protocol_lines i (p ∷ ps) =
      format_uint (suc i)
      ++ text ") "
      ++ p.name
      ++ text " — TVL: $"
      ++ rounded p.tvl
      ++ text "\n"
      ++ protocol_lines (suc i) ps

  -- The report on the `n` protocols `shown`.
  abbrev pub protocols_text : Bytes → ℕ → List ProtocolInfo → Bytes
  protocols_text chain n shown =
      text "Top "
      ++ format_uint n
      ++ text " protocols by TVL on "
      ++ chain
      ++ text ":\n"
      ++ protocol_lines 0 shown
      ++ text "\nSource: DefiLlama"

  module _ ⦃s : Sorter⦄ ⦃j : ProtocolsJson⦄ where
    -- p := filtered[i], for the indices below the limit; `none` is an index out of range.
    abbrev pub limited_text : Bytes → List ProtocolInfo → Option Bytes
    limited_text chain sorted = elim (slice_to (protocol_limit sorted) sorted) [
      | none ↦ none
      | some shown ↦ some (protocols_text chain (protocol_limit sorted) shown)
    ]

    abbrev ranked_text : Bytes → List ProtocolInfo → Option Bytes
    ranked_text chain filtered = limited_text chain (s.sort_slice ProtocolInfo more_tvl filtered)

    abbrev pub filtered_text : Bytes → List ProtocolInfo → Option Bytes
    filtered_text chain filtered =
        if is_empty filtered
        then some (text "No protocols found for chain '" ++ chain ++ text "'.")
        else ranked_text chain filtered

    unfoldable pub protocols_reply : Bytes → Response → Option (Result Bytes)
    unfolding protocol_on protocol_limit
    protocols_reply chain (failed e) = some (err (text "DefiLlama protocols error: " ++ e))
    protocols_reply chain (response status body) =
        if status == 200
        then elim (j.decode_protocols body) [
          | err e ↦ some (err (text "decode error: " ++ e))
          | ok protos ↦
              replied (
                filtered_text chain (filter_map (protocol_on (to_lower (trim_space chain))) protos))
        ]
        else some (err (text "DefiLlama status: " ++ format_uint status))

    unfoldable pub cmd_tvl_protocols : List Bytes → Prog (Option (Result Bytes))
    unfolding protocols_reply
    cmd_tvl_protocols [] =
        done (some (ok (text "Usage: tvlprotocols [chain]\nExample: tvlprotocols arbitrum")))
    cmd_tvl_protocols (arg ∷ args) =
        send (from_agent (text "https://api.llama.fi/protocols"))
          λ r. done (protocols_reply (join (arg ∷ args) (text " ")) r)
