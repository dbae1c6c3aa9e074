-- ===== src/Commands/Tvl.antt =====
-- internal/commands/tvl.go, and tvl_chain.go and tvl_protocols.go in the children.
pub mod Chain
pub mod Protocols
use crypto_sentinel.Prelude.{List, [], ◌∷◌, ◌++◌, Bytes, Result, ok, err, is_empty, if◌then◌else◌}
use crypto_sentinel.Go.Runtime.{Runtime}
use crypto_sentinel.Go.Float64.{Float64, f_half}
use crypto_sentinel.Go.Text.{text, join}
use crypto_sentinel.Go.Http.{Prog, done, ◌>>=◌}
use crypto_sentinel.Services.Format.{int_comma}
use crypto_sentinel.Clients.Defillama.{ProtocolTvl, ProtocolJson, fetch_protocol_tvl}
use crypto_sentinel.Commands.Shared.{or_say, plainly}

module _ ⦃g : Runtime⦄ where
  -- services.IntComma(int64(v + 0.5))
  abbrev pub rounded : Float64 → Bytes
  rounded v = int_comma (g.to_int64 (g.add v f_half))

  abbrev chain_label : Bytes → Bytes
  chain_label chain = if is_empty chain then text "Unknown / multi-chain" else chain

  abbrev pub tvl_text : ProtocolTvl → Bytes
  tvl_text res =
      text "Protocol TVL — "
      ++ res.name
      ++ text "\nChain: "
      ++ chain_label res.chain
      ++ text "\nLatest TVL: $"
      ++ rounded res.tvl
      ++ text "\n\nNotes:\n"
      ++ text "- TVL reflects the most recent snapshot reported by DefiLlama.\n"
      ++ text "- For chain-wide liquidity view, try: tvlchain [chain_name]\n\n"
      ++ text "Source: DefiLlama"

  module _ ⦃j : ProtocolJson⦄ where
    abbrev tvl_for : Bytes → Prog (Result Bytes)
    tvl_for protocol =
        fetch_protocol_tvl protocol
        >>= or_say plainly (text "Failed to fetch TVL for '" ++ protocol ++ text "': ")
            (λ res. done (ok (tvl_text res)))

    unfoldable pub cmd_tvl : List Bytes → Prog (Result Bytes)
    cmd_tvl [] = done (ok (text "Usage: tvl [protocol]\nExample: tvl uniswap"))
    cmd_tvl (arg ∷ args) = tvl_for (join (arg ∷ args) (text " "))
