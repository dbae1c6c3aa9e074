-- ===== src/Commands/Dex/Laws.antt =====
-- The tokens that `dexmeme` picks.
use mathlib.Core.List.{Perm, Permᴰ}
use crypto_sentinel.Prelude.{
  Option, none, Bytes, IsSome, subst, sym, ℕ, List, [], ◌∷◌, ◌++◌, ◌≡◌, length, length-take, drop,
  take, some, slice_to-take, refl, take-append-drop, min, leb, arith, Bool-cases, inl, inr,
  append-nil,
}
use crypto_sentinel.Go.Sort.Laws.{perm-length}
use crypto_sentinel.Go.Chance.{Chance, IsChance}
use crypto_sentinel.Go.Runtime.{Runtime}
use crypto_sentinel.Go.Sort.{Sorter}
use crypto_sentinel.Go.Http.Laws.{Returns, Returns-bind, Returns-always}
use crypto_sentinel.Commands.Dex.{
  pick_random_tokens, memes_on, memes_of, pool_of, meme_loop, meme_chain, cmd_dex_meme,
}
use crypto_sentinel.Commands.Dex.Search.{DexJson}
use crypto_sentinel.Commands.Dex.Memes.{MemeToken, meme_tokens_by_chain}

-- The tokens of the pool are `picked` and `rest`, in some order, and `picked` has `n` of them, or
-- all where there are fewer.
pub record IsPicked (all : List MemeToken) (n : ℕ) (picked : List MemeToken) : Type 0 where
  pub rest : List MemeToken
  pub perm : Perm (picked ++ rest) all
  pub size : length picked ≡ min n (length all)

module _ ⦃c : Chance⦄ (laws : IsChance c) where
  -- A shuffled pool, cut at `n`, never faults: the tokens are all from the pool, none more often
  -- than there, and there are `n` of them, or all where there are fewer. This supposes that a
  -- shuffle rearranges.
  pub pick_random_tokens-IsPicked :
      (all : List MemeToken) (n : ℕ)
      → (picked : List MemeToken) × (pick_random_tokens all n ≡ some picked) × IsPicked all n picked
  unfolding pick_random_tokens
  pick_random_tokens-IsPicked [] n =
      ([], refl, record { rest = []; perm = ∣ Permᴰ.nil ∣₁; size = omega arith })
  pick_random_tokens-IsPicked (t ∷ ts) n =
      let all = t ∷ ts in
      let shuffled = laws.perm MemeToken all in
      let same = perm-length shuffled in
      let moved = c.reorder MemeToken all in
      elim (Bool-cases (leb (length all) n)) [
        | inl few ↦ (
          moved,
          rw few refl,
          record {
            rest = [];
            perm = rw (append-nil (c.reorder MemeToken all)) shuffled;
            size = ground (arith, same);
          },
        )
        | inr many ↦ (
          take n moved,
          rw many (slice_to-take n moved (ground (arith, same, many))),
          record {
            rest = drop n (c.reorder MemeToken all);
            perm = rw (take-append-drop n (c.reorder MemeToken all)) shuffled;
            size = ground (arith, same, length-take n (c.reorder MemeToken all));
          },
        )
      ]

module _ ⦃g : Runtime⦄ ⦃s : Sorter⦄ ⦃c : Chance⦄ (laws : IsChance c) ⦃j : DexJson⦄ where
  memes_of-IsSome :
      (chain : Bytes) (o : Option (List MemeToken)) → Returns IsSome (memes_of chain o)
  memes_of-IsSome chain none = tt
  memes_of-IsSome chain (some all) =
      let (selected, picks, picked) = pick_random_tokens-IsPicked laws all 5 in
      subst (λ o. Returns IsSome (memes_on chain o)) (sym picks)
        (Returns-bind (λ r. Unit) IsSome (meme_loop chain 0 selected _) _
          (Returns-always (λ r. Unit) (λ r. tt) (meme_loop chain 0 selected _)) (λ r h. tt))

  pub cmd_dex_meme-IsSome : (args : List Bytes) → Returns IsSome (cmd_dex_meme args)
  unfolding cmd_dex_meme
  cmd_dex_meme-IsSome args =
      memes_of-IsSome (meme_chain args) (pool_of (meme_chain args) meme_tokens_by_chain)
