-- ===== src/Commands/Dex/Report.antt =====
-- What `dexprice` and `dexmeme` report.
use crypto_sentinel.Prelude.{
  ℕ, suc, List, [], ◌∷◌, ◌++◌, Option, none, some, Bytes, Result, ok, All, append_assoc, append-nil,
  ◌≡◌, refl, sym, ap, ◌∙◌, subst, Bool-cases, inl, inr,
}
use crypto_sentinel.Go.Runtime.{Runtime}
use crypto_sentinel.Go.Text.{text, beq, to_lower}
use crypto_sentinel.Go.Text.Laws.{beq→≡}
use crypto_sentinel.Go.Sort.{Sorter}
use crypto_sentinel.Go.Chance.{Chance, IsChance}
use crypto_sentinel.Go.Http.{Request, Response}
use crypto_sentinel.Go.Http.Answers.{ReturnsTo, ReturnsTo-bind, ReturnsTo-map}
use crypto_sentinel.Commands.Dex.{
  pool_of, supported_meme_chains, price_result, meme_entry, meme_chain, cmd_dex_price, meme_loop,
  memes_on, memes_of, cmd_dex_meme,
}
use crypto_sentinel.Commands.Dex.Memes.{MemeToken, meme_tokens_by_chain}
use crypto_sentinel.Commands.Dex.Search.{
  DexPair, DexJson, normalize_chain_name, search_best_dex_pair,
}
use crypto_sentinel.Commands.Dex.Laws.{IsPicked, pick_random_tokens-IsPicked}
use crypto_sentinel.Commands.Dex.Pairs.{IsBest, search_best_dex_pair-IsBest}

module _ ⦃g : Runtime⦄ where
  -- `Answer` tells which response answers a request; it may be any relation.
  module _ ⦃j : DexJson⦄ (Answer : Request → Response → Type 0) where
    -- What `dexprice` returns on a token and a chain: no error, ever.
    pub data IsPriceReport (token chain : Bytes) : Result Bytes → Type 0 where
      priced :
          (r : Result (Option DexPair))
          → IsBest Answer token (normalize_chain_name chain) r
          → IsPriceReport token chain (ok (price_result token chain r))

    -- Whatever is answered, dexprice with a token and a chain returns no error. It tells why the
    -- search for the token on the chain failed, or reports the first pair on the chain of the decoded
    -- answer to this search, or tells
    -- that there is none, if none of the pairs of the answer is; the name of the chain is the one
    -- that its alias stands for.
    pub cmd_dex_price-IsPriceReport :
        (token chain : Bytes) (args : List Bytes)
        → ReturnsTo Answer
            (IsPriceReport token (normalize_chain_name chain))
            (cmd_dex_price (token ∷ chain ∷ args))
    unfolding cmd_dex_price
    cmd_dex_price-IsPriceReport token chain args =
        ReturnsTo-bind Answer _ _ (search_best_dex_pair token (normalize_chain_name chain)) _
          (search_best_dex_pair-IsBest Answer token (normalize_chain_name chain))
          (λ r best. priced r best)

    -- The entries of the tokens, from the index `i` on: each tells of its own search on the chain.
    pub data IsEntries (chain : Bytes) : ℕ → List MemeToken → Bytes → Type 0 where
      no_more : (i : ℕ) → IsEntries chain i [] []
      entry :
          (i : ℕ) (t : MemeToken) (ts : List MemeToken) (r : Result (Option DexPair)) (rest : Bytes)
          → IsBest Answer t.symbol chain r
          → IsEntries chain (suc i) ts rest
          → IsEntries chain i (t ∷ ts) (meme_entry i t chain r ++ rest)

    -- A text of such entries behind `out`.
    abbrev Written : Bytes → ℕ → List MemeToken → Bytes → Result Bytes → Type 0
    Written chain i ts out r =
        (entries : Bytes) × IsEntries chain i ts entries × (r ≡ ok (out ++ entries))

    meme_loop-Written :
        (chain : Bytes)
        → normalize_chain_name chain ≡ chain
        → (i : ℕ) (ts : List MemeToken) (out : Bytes)
        → ReturnsTo Answer (Written chain i ts out) (meme_loop chain i ts out)
    unfolding meme_loop
    meme_loop-Written chain n i [] out = ([], no_more i, ap ok (sym (append-nil out)))
    meme_loop-Written chain n i (t ∷ ts) out =
        ReturnsTo-bind Answer (IsBest Answer t.symbol chain) _ (search_best_dex_pair t.symbol chain)
          _
          (subst
            (λ c. ReturnsTo Answer (IsBest Answer t.symbol c) (search_best_dex_pair t.symbol chain))
            n (search_best_dex_pair-IsBest Answer t.symbol chain))
          λ r best.
            let more = out ++ meme_entry i t chain r in
            ReturnsTo-map Answer (Written chain (suc i) ts more) (Written chain i (t ∷ ts) out)
              (λ x (entries, are, e). (
                meme_entry i t chain r ++ entries,
                entry i t ts r entries best are,
                e ∙ ap ok (append_assoc out (meme_entry i t chain r) entries),
              ))
              (meme_loop chain (suc i) ts more) (meme_loop-Written chain n (suc i) ts more)

  abbrev IsNormal : Bytes → Type 0
  IsNormal k = normalize_chain_name k ≡ k

  pool_of-All :
      (P : Bytes → Type 0) (k : Bytes) (pools : List (Bytes × List MemeToken)) (ts : List MemeToken)
      → All (λ pool. P pool.0) pools
      → pool_of k pools ≡ some ts
      → P k
  pool_of-All P k [] ts h e = absurd (cc)
  pool_of-All P k ((j, v) ∷ pools) ts (h, hs) e = elim (Bool-cases (beq k j)) [
    | inl same ↦ subst P (sym (beq→≡ k j same)) h
    | inr other ↦
        let rest : pool_of k pools ≡ some ts = sym (rw other refl) ∙ e in
        pool_of-All P k pools ts hs rest
  ]

  -- The pools stand under names that no alias replaces.
  pools-IsNormal : All (λ pool. IsNormal pool.0) meme_tokens_by_chain
  unfolding normalize_chain_name text beq to_lower
  pools-IsNormal = (refl, (refl, (refl, (refl, (refl, (refl, (refl, tt)))))))

  module _ ⦃j : DexJson⦄ ⦃sorter : Sorter⦄ ⦃c : Chance⦄ (Answer : Request → Response → Type 0)
      (args : List Bytes) where
    -- What `dexmeme` returns: no error, ever, and no fault.
    pub data IsMemeReport : Option (Result Bytes) → Type 0 where
      unknown_chain :
          pool_of (meme_chain args) meme_tokens_by_chain ≡ none
          → IsMemeReport (
              some (
                ok (
                  text "Unknown chain: "
                  ++ meme_chain args
                  ++ text "\nSupported chains: "
                  ++ supported_meme_chains)))
      memes :
          (pool selected : List MemeToken) (entries : Bytes)
          → pool_of (meme_chain args) meme_tokens_by_chain ≡ some pool
          → IsPicked pool 5 selected
          → IsEntries Answer (meme_chain args) 0 selected entries
          → IsMemeReport (
              some (
                ok (
                  (text "🐸 Random meme tokens on " ++ meme_chain args ++ text " (DexScreener)\n\n")
                  ++ entries)))

    memes_of-IsMemeReport :
        IsChance c
        → (o : Option (List MemeToken)) → pool_of (meme_chain args) meme_tokens_by_chain ≡ o
        → ReturnsTo Answer IsMemeReport (memes_of (meme_chain args) o)
    memes_of-IsMemeReport laws none e = unknown_chain e
    memes_of-IsMemeReport laws (some pool) e =
        let chain = meme_chain args in
        let title = text "🐸 Random meme tokens on " ++ chain ++ text " (DexScreener)\n\n" in
        let (selected, picks, picked) = pick_random_tokens-IsPicked laws pool 5 in
        subst (λ o. ReturnsTo Answer IsMemeReport (memes_on chain o)) (sym picks)
          (ReturnsTo-bind Answer (Written Answer chain 0 selected title) IsMemeReport
            (meme_loop chain 0 selected title) _
            (meme_loop-Written Answer chain
              (pool_of-All IsNormal chain meme_tokens_by_chain pool pools-IsNormal e) 0 selected
              title)
            (λ r (entries, are, told).
              subst (λ x. IsMemeReport (some x)) (sym told)
                (memes pool selected entries e picked are)))

    -- If a shuffle rearranges: whatever is answered, dexmeme returns no error and never faults. It
    -- tells that it does not know the chain, if no pool has that name, or it reports on five tokens
    -- of the pool of the chain, none more often than the pool has it, or on all where there are
    -- fewer. Each entry tells of a search for the symbol of its token on the chain: why it failed,
    -- or the first pair on the chain of the decoded answer to this search, or that none of the
    -- pairs of the answer is.
    pub cmd_dex_meme-IsMemeReport : IsChance c → ReturnsTo Answer IsMemeReport (cmd_dex_meme args)
    unfolding cmd_dex_meme
    cmd_dex_meme-IsMemeReport laws =
        memes_of-IsMemeReport laws (pool_of (meme_chain args) meme_tokens_by_chain) refl
