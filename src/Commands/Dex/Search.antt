-- ===== src/Commands/Dex/Search.antt =====
-- internal/commands/dex.go: the search of a pair.
use crypto_sentinel.Prelude.{
  List, [], ◌∷◌, ◌++◌, Option, none, some, Bytes, Result, ok, err, ◌==◌, if◌then◌else◌,
}
use crypto_sentinel.Go.Runtime.{Runtime}
use crypto_sentinel.Go.Float64.{Float64}
use crypto_sentinel.Go.Text.{text, to_lower, equal_fold}
use crypto_sentinel.Go.Decimal.{format_uint}
use crypto_sentinel.Go.Http.{Response, failed, response, Prog, done, send}
use crypto_sentinel.Clients.Coingecko.{from_agent}
use crypto_sentinel.Commands.Shared.{lookup_text}

-- The fields that are read: BaseToken and QuoteToken, Liquidity.Usd and Volume.H24 are spread out.
pub record DexPair : Type 0 where
  pub chain_id : Bytes
  pub dex_id : Bytes
  pub url : Bytes
  pub base_symbol : Bytes
  pub base_name : Bytes
  pub quote_symbol : Bytes
  pub quote_name : Bytes
  pub price_usd : Bytes
  pub liquidity_usd : Float64
  pub volume_h24 : Float64

pub record DexJson : Type 0 where
  pub decode_pairs : Bytes → Result (List DexPair)

abbrev dex_chain_aliases : List (Bytes × Bytes)
dex_chain_aliases =
    (text "eth", text "ethereum")
    ∷ (text "ethereum", text "ethereum")
    ∷ (text "sol", text "solana")
    ∷ (text "solana", text "solana")
    ∷ (text "bnb", text "bsc")
    ∷ (text "bsc", text "bsc")
    ∷ (text "arb", text "arbitrum")
    ∷ (text "arbitrum", text "arbitrum")
    ∷ (text "base", text "base")
    ∷ (text "matic", text "polygon")
    ∷ (text "polygon", text "polygon")
    ∷ (text "op", text "optimism")
    ∷ (text "optimism", text "optimism")
    ∷ []

module _ ⦃g : Runtime⦄ where
  unfoldable pub normalize_chain_name : Bytes → Bytes
  normalize_chain_name chain = elim (lookup_text (to_lower chain) dex_chain_aliases) [
    | none ↦ to_lower chain
    | some v ↦ v
  ]

  -- The loop, which ends at the first pair on the chain.
  unfoldable pub best_pair : Bytes → List DexPair → Option DexPair
  best_pair chain [] = none
  best_pair chain (p ∷ pairs) =
      if equal_fold p.chain_id chain then some p else best_pair chain pairs

  abbrev pub dex_url : Bytes → Bytes → Bytes
  dex_url token chain =
      text "https://api.dexscreener.com/latest/dex/search?q="
      ++ g.query_escape (to_lower token ++ text " " ++ chain)

  module _ ⦃j : DexJson⦄ where
    unfoldable pub search_reply : Bytes → Response → Result (Option DexPair)
    unfolding best_pair
    search_reply chain (failed e) = err (text "dexscreener error: " ++ e)
    search_reply chain (response status body) =
        if status == 200
        then elim (j.decode_pairs body) [
          | err e ↦ err (text "decode dexscreener error: " ++ e)
          | ok pairs ↦ ok (best_pair chain pairs)
        ]
        else err (text "dexscreener status: " ++ format_uint status)

    unfoldable pub search_best_dex_pair : Bytes → Bytes → Prog (Result (Option DexPair))
    unfolding search_reply normalize_chain_name
    search_best_dex_pair token chain =
        let chain' = normalize_chain_name chain in
        elim (g.request_error (dex_url token chain')) [
          | some e ↦ done (err e)
          | none ↦ send (from_agent (dex_url token chain')) (λ r. done (search_reply chain' r))
        ]
