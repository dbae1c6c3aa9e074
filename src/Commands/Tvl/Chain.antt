-- ===== src/Commands/Tvl/Chain.antt =====
-- internal/commands/tvl_chain.go: the value locked on a chain, its rank and its share.
pub mod Laws
pub mod Rank
use crypto_sentinel.Prelude.{
  ℕ, suc, ◌+◌, List, [], ◌∷◌, ◌++◌, Option, none, some, Bytes, Result, ok, err, length, get_elem?,
  ◌==◌, if◌then◌else◌,
}
use crypto_sentinel.Go.Runtime.{Runtime}
use crypto_sentinel.Go.Float64.{Float64, f_zero, f_half, f_hundred, gt}
use crypto_sentinel.Go.Text.{text, join, to_lower, trim_space, equal_fold}
use crypto_sentinel.Go.Decimal.{format_uint}
use crypto_sentinel.Go.Http.{Response, failed, response, Prog, done, send}
use crypto_sentinel.Services.Format.{format_float, int_comma}
use crypto_sentinel.Clients.Coingecko.{from_agent}

pub record ChainRow : Type 0 where
  pub name : Bytes
  pub tvl : Float64

pub record ChainsJson : Type 0 where
  pub decode_chains : Bytes → Result (List ChainRow)

-- rank, from `n` on
unfoldable pub rank_from : ℕ → Float64 → List ChainRow → ℕ
rank_from n tvl [] = n
rank_from n tvl (c ∷ chains) = rank_from (if gt c.tvl tvl then suc n else n) tvl chains

module _ ⦃g : Runtime⦄ where
  -- foundIndex, where -1 is `none`; `i` is the index of the first of `chains`.
  unfoldable pub found_index : Bytes → ℕ → Option ℕ → List ChainRow → Option ℕ
  found_index target i found [] = found
  found_index target i found (c ∷ chains) =
      found_index target (suc i) (if equal_fold c.name target then some i else found) chains

  unfoldable total_tvl : Float64 → List ChainRow → Float64
  total_tvl total [] = total
  total_tvl total (c ∷ chains) = total_tvl (g.add total c.tvl) chains

  abbrev pub dominance : Float64 → Float64 → Float64
  dominance tvl total = if gt total f_zero then g.mul (g.div tvl total) f_hundred else f_zero

  unfoldable pub chain_text : ChainRow → List ChainRow → Bytes
  unfolding rank_from total_tvl
  chain_text c chains =
      text "Chain TVL — "
      ++ c.name
      ++ text "\nRank: #"
      ++ format_uint (rank_from 1 c.tvl chains)
      ++ text " of "
      ++ format_uint (length chains)
      ++ text " tracked chains\nTVL: $"
      ++ int_comma (g.to_int64 (g.add c.tvl f_half))
      ++ text "\nShare of total DeFi TVL: "
      ++ format_float (dominance c.tvl (total_tvl f_zero chains))
      ++ text "%\n\nNotes:\n"
      ++ text "- Rank and dominance are relative to all chains tracked by DefiLlama.\n"
      ++ text "- TVL is an approximate snapshot and may lag a few minutes behind on-chain data.\n\n"
      ++ text "Source: DefiLlama"

  abbrev pub chain_target : Bytes → Bytes
  chain_target input = to_lower (trim_space input)

  -- What is said of the decoded chains; `none` is the fault of an index out of range.
  unfoldable pub chain_report : Bytes → List ChainRow → Option Bytes
  unfolding found_index chain_text
  chain_report input chains = elim (found_index (chain_target input) 0 none chains) [
    | none ↦ some (text "Chain '" ++ input ++ text "' not found on DefiLlama.")
    | some i ↦ elim (get_elem? chains i) [ none ↦ none | some c ↦ some (chain_text c chains) ]
  ]

  module _ ⦃j : ChainsJson⦄ where
    unfoldable pub chains_reply : Bytes → Response → Option (Result Bytes)
    unfolding chain_report
    chains_reply input (failed e) = some (err (text "DefiLlama chains error: " ++ e))
    chains_reply input (response status body) =
        if status == 200
        then elim (j.decode_chains body) [
          | err e ↦ some (err (text "decode error: " ++ e))
          | ok chains ↦ elim (chain_report input chains) [ none ↦ none | some t ↦ some (ok t) ]
        ]
        else some (err (text "DefiLlama status: " ++ format_uint status))

    unfoldable pub cmd_tvl_chain : List Bytes → Prog (Option (Result Bytes))
    unfolding chains_reply
    cmd_tvl_chain [] = done (some (ok (text "Usage: tvlchain [chain]\nExample: tvlchain ethereum")))
    cmd_tvl_chain (arg ∷ args) =
        send (from_agent (text "https://api.llama.fi/v2/chains"))
          λ r. done (chains_reply (join (arg ∷ args) (text " ")) r)
