-- ===== src/Commands/Dex.antt =====
-- internal/commands/dex.go: `dexprice` and `dexmeme`.
pub mod Memes
pub mod Search
pub mod Laws
pub mod Pairs
pub mod Report
use crypto_sentinel.Prelude.{
  ℕ, suc, Bool, true, false, List, [], ◌∷◌, ◌++◌, Option, none, some, Bytes, Result, ok, err,
  length, slice_to, leb, ltb, ◌==◌, is_empty, map, if◌then◌else◌,
}
use crypto_sentinel.Go.Runtime.{Runtime}
use crypto_sentinel.Go.Float64.{Float64, float, lt}
use crypto_sentinel.Go.Text.{text, beq, join, to_lower, to_upper}
use crypto_sentinel.Go.Decimal.{format_uint}
use crypto_sentinel.Go.Sort.{Sorter}
use crypto_sentinel.Go.Chance.{Chance}
use crypto_sentinel.Go.Http.{Prog, done, ◌>>=◌}
use Memes.{MemeToken, meme_tokens_by_chain}
use Search.{DexPair, DexJson, normalize_chain_name, search_best_dex_pair}

-- s < t on strings: by bytes.
unfoldable text_less : Bytes → Bytes → Bool
text_less s [] = false
text_less [] (d ∷ t) = true
text_less (c ∷ s) (d ∷ t) = if c == d then text_less s t else ltb c d

-- m[k] of the pools; `none` is a missing key.
abbrev pub pool_of : Bytes → List (Bytes × List MemeToken) → Option (List MemeToken)
pool_of k [] = none
pool_of k ((j, v) ∷ m) = if beq k j then some v else pool_of k m

abbrev chain_keys : List (Bytes × List MemeToken) → List Bytes
chain_keys [] = []
chain_keys ((j, v) ∷ m) = j ∷ chain_keys m

module _ ⦃s : Sorter⦄ ⦃c : Chance⦄ where
  unfoldable pub supported_meme_chains : Bytes
  unfolding text_less
  supported_meme_chains =
      join (s.sort_slice Bytes text_less (c.reorder Bytes (chain_keys meme_tokens_by_chain)))
        (text ", ")

module _ ⦃c : Chance⦄ where
  -- A shuffled copy, cut at `n` if it is longer; `none` is a slice out of range.
  unfoldable pub pick_random_tokens : List MemeToken → ℕ → Option (List MemeToken)
  pick_random_tokens all n =
      if is_empty all
      then some []
      else if leb (length all) n
      then some (c.reorder MemeToken all)
      else slice_to n (c.reorder MemeToken all)

module _ ⦃g : Runtime⦄ where
  unfoldable pub format_price_usd : Bytes → Bytes
  format_price_usd s =
      let v = g.parse_float s in
      if is_empty s
      then text "N/A"
      else if v.valid
      then (if lt v.value (float 0x3EB0C6F7A0B5ED8D) then g.fixed 10 v.value else g.fixed 6 v.value)
      else s

  -- The lines that both commands write of a pair, with what stands before each.
  abbrev pair_lines : Bytes → DexPair → Bytes
  pair_lines indent p =
      indent
      ++ text "Pair: "
      ++ p.base_symbol
      ++ text " / "
      ++ p.quote_symbol
      ++ text " ("
      ++ p.quote_name
      ++ text ")\n"
      ++ indent
      ++ text "Price: $"
      ++ format_price_usd p.price_usd
      ++ text "\n"
      ++ indent
      ++ text "Liquidity: $"
      ++ g.fixed 0 p.liquidity_usd
      ++ text "\n"
      ++ indent
      ++ text "Volume 24h: $"
      ++ g.fixed 0 p.volume_h24
      ++ text "\n"
      ++ indent
      ++ text "DEX: "
      ++ p.dex_id
      ++ text "\n"
      ++ indent
      ++ text "Link: "
      ++ p.url

  abbrev pair_text : DexPair → Bytes
  pair_text p =
      text "🧬 DEX price — "
      ++ to_upper p.base_symbol
      ++ text " on "
      ++ p.chain_id
      ++ text "\n"
      ++ pair_lines [] p

  abbrev pub price_result : Bytes → Bytes → Result (Option DexPair) → Bytes
  price_result token chain (err e) = text "Error fetching price from DexScreener: " ++ e
  price_result token chain (ok none) =
      text "No DEX pairs found for " ++ token ++ text " on " ++ chain
  price_result token chain (ok (some p)) = pair_text p

  abbrev display_name : MemeToken → DexPair → Bytes
  display_name t p = if is_empty t.name then p.base_name else t.name

  -- What a round of the loop of CmdDexMeme writes.
  abbrev pub meme_entry : ℕ → MemeToken → Bytes → Result (Option DexPair) → Bytes
  meme_entry i t chain (err e) =
      format_uint (suc i) ++ text ") " ++ to_upper t.symbol ++ text " — error: " ++ e ++ text "\n\n"
  meme_entry i t chain (ok none) =
      format_uint (suc i)
      ++ text ") "
      ++ to_upper t.symbol
      ++ text " — pair not found on "
      ++ chain
      ++ text "\n\n"
  meme_entry i t chain (ok (some p)) =
      format_uint (suc i)
      ++ text ") "
      ++ to_upper p.base_symbol
      ++ text " ("
      ++ p.chain_id
      ++ text ")\n   Name: "
      ++ display_name t p
      ++ text "\n"
      ++ pair_lines (text "   ") p
      ++ text "\n\n"

  -- The chain of CmdDexMeme.
  abbrev pub meme_chain : List Bytes → Bytes
  meme_chain [] = normalize_chain_name (text "ethereum")
  meme_chain (arg ∷ args) =
      if is_empty arg then normalize_chain_name (text "ethereum") else normalize_chain_name arg

  module _ ⦃j : DexJson⦄ where
    unfoldable pub cmd_dex_price : List Bytes → Prog (Result Bytes)
    unfolding search_best_dex_pair
    cmd_dex_price [] =
        done (ok (text "Usage: dexprice [token] [chain]\nExample: dexprice pepe eth"))
    cmd_dex_price (token ∷ []) =
        done (ok (text "Usage: dexprice [token] [chain]\nExample: dexprice pepe eth"))
    cmd_dex_price (token ∷ chain ∷ args) =
        let chain' = normalize_chain_name chain in
        search_best_dex_pair token chain' >>= λ r. done (ok (price_result token chain' r))

    -- The loop over the selected tokens from the index `i` on, with what is written so far.
    unfoldable pub meme_loop : Bytes → ℕ → List MemeToken → Bytes → Prog (Result Bytes)
    unfolding search_best_dex_pair
    meme_loop chain i [] out = done (ok out)
    meme_loop chain i (t ∷ selected) out = search_best_dex_pair t.symbol chain >>= λ r.
        meme_loop chain (suc i) selected (out ++ meme_entry i t chain r)

    module _ ⦃s : Sorter⦄ ⦃c : Chance⦄ where
      abbrev pub memes_on : Bytes → Option (List MemeToken) → Prog (Option (Result Bytes))
      memes_on chain none = done none
      memes_on chain (some selected) =
          meme_loop chain 0 selected
            (text "🐸 Random meme tokens on " ++ chain ++ text " (DexScreener)\n\n")
          >>= λ r. done (some r)

      abbrev pub memes_of : Bytes → Option (List MemeToken) → Prog (Option (Result Bytes))
      memes_of chain none = done (
          some (
            ok (
              text "Unknown chain: "
              ++ chain
              ++ text "\nSupported chains: "
              ++ supported_meme_chains)))
      memes_of chain (some all) = memes_on chain (pick_random_tokens all 5)

      unfoldable pub cmd_dex_meme : List Bytes → Prog (Option (Result Bytes))
      unfolding meme_loop pick_random_tokens supported_meme_chains
      cmd_dex_meme args =
          memes_of (meme_chain args) (pool_of (meme_chain args) meme_tokens_by_chain)
