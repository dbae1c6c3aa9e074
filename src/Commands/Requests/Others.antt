-- ===== src/Commands/Requests/Others.antt =====
-- How many requests the commands with other services send.
use crypto_sentinel.Prelude.{
  ℕ, zero, suc, ◌+◌, ◌≤◌, List, [], ◌∷◌, ◌++◌, Bytes, ok, Option, none, some, length, arith,
  if-elim, is_empty, refl, Option-cases, inl, inr, subst, sym,
}
use crypto_sentinel.Go.Runtime.{Runtime}
use crypto_sentinel.Go.Sort.{Sorter}
use crypto_sentinel.Go.Chance.{Chance, IsChance}
use crypto_sentinel.Go.Text.{text, join, to_lower, trim_space}
use crypto_sentinel.Go.Http.{done}
use crypto_sentinel.Go.Http.Laws.{Sends}
use crypto_sentinel.Commands.Requests.Services.{Asks, permitted, Asks-mono, Asks-bind, checked-Asks}
use crypto_sentinel.Commands.Shared.{plainly}
use crypto_sentinel.Clients.Defillama.{ProtocolJson, fetch_protocol_tvl}
use crypto_sentinel.Commands.Shared.{lookup_text}
use crypto_sentinel.Commands.Tvl.{tvl_text, cmd_tvl}
use crypto_sentinel.Commands.Tvl.Chain.{ChainsJson, cmd_tvl_chain}
use crypto_sentinel.Commands.Tvl.Protocols.{ProtocolsJson, cmd_tvl_protocols}
use crypto_sentinel.Commands.Movers.{MoversJson, cmd_gainers, cmd_losers}
use crypto_sentinel.Commands.FearGreed.{FearGreedJson, cmd_fear_greed}
use crypto_sentinel.Commands.Gas.{GasJson, cmd_gas}
use crypto_sentinel.Commands.Gas.Chains.{gas_chain_map}
use crypto_sentinel.Commands.Portfolio.{BalancesJson, cmd_portfolio}
use crypto_sentinel.Commands.News.{NewsJson, cmd_news}
use crypto_sentinel.Commands.Dex.{
  memes_on, meme_loop, memes_of, pool_of, meme_chain, cmd_dex_price, cmd_dex_meme,
}
use crypto_sentinel.Commands.Dex.Memes.{MemeToken, meme_tokens_by_chain}
use crypto_sentinel.Commands.Dex.Laws.{pick_random_tokens-IsPicked}
use crypto_sentinel.Commands.Dex.Search.{DexJson, search_best_dex_pair, normalize_chain_name}
use crypto_sentinel.Commands.Requests.{or_say-Sends}

module _ ⦃g : Runtime⦄ where
  module _ ⦃j : DexJson⦄ where
    search_best_dex_pair-Sends : (token chain : Bytes) → Asks 1 (search_best_dex_pair token chain)
    unfolding search_best_dex_pair permitted
    search_best_dex_pair-Sends token chain = checked-Asks _ _ _ _ refl

    pub cmd_dex_price-Sends : (args : List Bytes) → Asks 1 (cmd_dex_price args)
    unfolding cmd_dex_price
    cmd_dex_price-Sends [] = tt
    cmd_dex_price-Sends (token ∷ []) = tt
    cmd_dex_price-Sends (token ∷ chain ∷ args) =
        Asks-bind 0 1 (search_best_dex_pair token (normalize_chain_name chain)) _
          (search_best_dex_pair-Sends token (normalize_chain_name chain)) λ r. tt

    meme_loop-Sends :
        (n : ℕ) (chain : Bytes) (i : ℕ) (selected : List MemeToken) (out : Bytes)
        → length selected ≤ n
        → Asks n (meme_loop chain i selected out)
    unfolding meme_loop
    meme_loop-Sends n chain i [] out h = tt
    meme_loop-Sends zero chain i (t ∷ selected) out h = absurd (omega arith)
    meme_loop-Sends (suc n) chain i (t ∷ selected) out h =
        Asks-mono (1 + n) (suc n) _ (omega arith) (
          Asks-bind n 1 (search_best_dex_pair t.symbol chain) _
            (search_best_dex_pair-Sends t.symbol chain)
            (λ r. meme_loop-Sends n chain (suc i) selected _ (omega arith)))

    module _ ⦃s : Sorter⦄ ⦃c : Chance⦄ (laws : IsChance c) where
      memes_of-Sends : (chain : Bytes) (o : Option (List MemeToken)) → Asks 5 (memes_of chain o)
      memes_of-Sends chain none = tt
      memes_of-Sends chain (some all) =
          let (selected, picks, picked) = pick_random_tokens-IsPicked laws all 5 in
          subst (λ o. Asks 5 (memes_on chain o)) (sym picks)
            (Asks-bind 0 5 (meme_loop chain 0 selected _) _
              (meme_loop-Sends 5 chain 0 selected _ (ground (arith, picked.size))) (λ r. tt))

      pub cmd_dex_meme-Sends : (args : List Bytes) → Asks 5 (cmd_dex_meme args)
      unfolding cmd_dex_meme
      cmd_dex_meme-Sends args =
          memes_of-Sends (meme_chain args) (pool_of (meme_chain args) meme_tokens_by_chain)

  module _ ⦃j : ProtocolJson⦄ where
    pub cmd_tvl-Sends : (args : List Bytes) → Asks 1 (cmd_tvl args)
    unfolding cmd_tvl fetch_protocol_tvl permitted
    cmd_tvl-Sends [] = tt
    cmd_tvl-Sends (arg ∷ args) =
        or_say-Sends plainly 0 1
          (text "Failed to fetch TVL for '" ++ join (arg ∷ args) (text " ") ++ text "': ")
          (λ res. done (ok (tvl_text res))) (fetch_protocol_tvl (join (arg ∷ args) (text " ")))
          (refl, λ r. tt) (λ res. tt)

  module _ ⦃j : GasJson⦄ where
    pub cmd_gas-Sends : (key : Bytes) (args : List Bytes) → Asks 1 (cmd_gas key args)
    unfolding cmd_gas permitted
    cmd_gas-Sends key [] = tt
    cmd_gas-Sends key (arg ∷ args) =
        elim (Option-cases (lookup_text (to_lower arg) gas_chain_map)) [
          | inl unknown ↦ rw (unknown, Sends) tt
          | inr (chain_id, e) ↦
              rw (e, Sends) (if-elim (Asks 1) (is_empty key) _ _ tt (checked-Asks _ _ _ _ refl))
        ]

  module _ ⦃s : Sorter⦄ ⦃c : Chance⦄ ⦃j : BalancesJson⦄ where
    pub cmd_portfolio-Sends : (key : Bytes) (args : List Bytes) → Asks 1 (cmd_portfolio key args)
    unfolding cmd_portfolio permitted
    cmd_portfolio-Sends key [] = tt
    cmd_portfolio-Sends key (arg ∷ args) =
        if-elim (Asks 1) (is_empty (trim_space arg)) _ _ tt
          (if-elim (Asks 1) (is_empty key) _ _ tt (checked-Asks _ _ _ _ refl))

  module _ ⦃j : NewsJson⦄ where
    pub cmd_news-Sends : (key : Bytes) (args : List Bytes) → Asks 1 (cmd_news key args)
    unfolding cmd_news permitted
    cmd_news-Sends key args = if-elim (Asks 1) (is_empty key) _ _ tt (checked-Asks _ _ _ _ refl)

  module _ ⦃j : ChainsJson⦄ where
    pub cmd_tvl_chain-Sends : (args : List Bytes) → Asks 1 (cmd_tvl_chain args)
    unfolding cmd_tvl_chain permitted
    cmd_tvl_chain-Sends [] = tt
    cmd_tvl_chain-Sends (arg ∷ args) = (refl, λ r. tt)

  module _ ⦃s : Sorter⦄ ⦃j : ProtocolsJson⦄ where
    pub cmd_tvl_protocols-Sends : (args : List Bytes) → Asks 1 (cmd_tvl_protocols args)
    unfolding cmd_tvl_protocols permitted
    cmd_tvl_protocols-Sends [] = tt
    cmd_tvl_protocols-Sends (arg ∷ args) = (refl, λ r. tt)

  module _ ⦃s : Sorter⦄ ⦃j : MoversJson⦄ where
    pub cmd_gainers-Sends : (args : List Bytes) → Asks 1 (cmd_gainers args)
    unfolding cmd_gainers permitted
    cmd_gainers-Sends args = (refl, λ r. tt)

    pub cmd_losers-Sends : (args : List Bytes) → Asks 1 (cmd_losers args)
    unfolding cmd_losers permitted
    cmd_losers-Sends args = (refl, λ r. tt)

  module _ ⦃j : FearGreedJson⦄ where
    pub cmd_fear_greed-Sends : (args : List Bytes) → Asks 1 (cmd_fear_greed args)
    unfolding cmd_fear_greed permitted
    cmd_fear_greed-Sends args = (refl, λ r. tt)
