-- ===== src/Commands/Tvl/Chain/Laws.antt =====
-- The chain that `tvlchain` finds, its rank, and that no index is out of range.
use crypto_sentinel.Prelude.{
  ℕ, suc, ◌+◌, ◌≤◌, ◌<◌, List, [], ◌∷◌, Option, none, some, Bytes, Result, ok, err, length,
  get_elem?-lt, arith, IsSome, IsSome-map, Bool-cases, Option-cases, subst, ◌++◌, inl, inr, ◌==◌,
}
use crypto_sentinel.Go.Runtime.{Runtime}
use crypto_sentinel.Go.Text.{text, equal_fold}
use crypto_sentinel.Go.Http.{Response, failed, response}
use crypto_sentinel.Go.Http.Laws.{Returns}
use crypto_sentinel.Commands.Tvl.Chain.{
  ChainRow, ChainsJson, found_index, chain_target, chain_report, chains_reply, cmd_tvl_chain,
}

-- An index that was found is below `n`.
abbrev Within : ℕ → Option ℕ → Type 0
Within n none = Unit
Within n (some i) = i < n

module _ ⦃g : Runtime⦄ where
  found_index-Within :
      (n : ℕ) (target : Bytes) (i : ℕ) (found : Option ℕ) (chains : List ChainRow)
      → i + length chains ≤ n
      → Within n found
      → Within n (found_index target i found chains)
  unfolding found_index
  found_index-Within n target i found [] h w = w
  found_index-Within n target i found (c ∷ chains) h w =
      found_index-Within n target (suc i) _ chains (omega arith)
        (elim (Bool-cases (equal_fold c.name target)) [
          | inl same ↦ rw same (omega arith)
          | inr other ↦ rw other w
        ])

  chain_report-IsSome :
      (input : Bytes) (chains : List ChainRow) → IsSome (chain_report input chains)
  unfolding chain_report
  chain_report-IsSome input chains =
      elim (Option-cases (found_index (chain_target input) 0 none chains)) [
        | inl e ↦ rw (e, IsSome) tt
        | inr (i, e) ↦
            let within : i < length chains = subst (Within (length chains)) e (
              found_index-Within (length chains) (chain_target input) 0 none chains (omega arith)
                tt) in
            let (c, e') = get_elem?-lt chains i within in rw (e, IsSome) (rw (e', IsSome) tt)
      ]

  decoded-IsSome :
      (input : Bytes) (d : Result (List ChainRow))
      → IsSome (elim d [
        | err e ↦ some (err (text "decode error: " ++ e))
        | ok chains ↦ elim (chain_report input chains) [ none ↦ none | some t ↦ some (ok t) ]
      ])
  decoded-IsSome input (err e) = tt
  decoded-IsSome input (ok chains) =
      IsSome-map ok (chain_report input chains) (chain_report-IsSome input chains)

  chains_reply-IsSome :
      ⦃j : ChainsJson⦄ (input : Bytes) (r : Response) → IsSome (chains_reply input r)
  unfolding chains_reply
  chains_reply-IsSome ⦃j⦄ input (failed e) = tt
  chains_reply-IsSome ⦃j⦄ input (response status body) = elim (Bool-cases (status == 200)) [
    | inr bad ↦ rw (bad, IsSome) tt
    | inl good ↦ rw (good, IsSome) (decoded-IsSome input (j.decode_chains body))
  ]

  pub cmd_tvl_chain-IsSome :
      ⦃j : ChainsJson⦄ (args : List Bytes) → Returns IsSome (cmd_tvl_chain args)
  unfolding cmd_tvl_chain
  cmd_tvl_chain-IsSome [] = tt
  cmd_tvl_chain-IsSome (arg ∷ args) = λ r. chains_reply-IsSome _ r
