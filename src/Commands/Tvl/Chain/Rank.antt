-- ===== src/Commands/Tvl/Chain/Rank.antt =====
-- Which chain `tvlchain` finds, and its rank.
use crypto_sentinel.Prelude.{
  ℕ, zero, suc, ◌+◌, ◌≤◌, ◌<◌, true, false, not, List, [], ◌∷◌, ◌++◌, Option, none, some, Bytes,
  length, get_elem?, all, if◌then◌else◌, ◌≡◌, refl, arith, ◌⊎◌, inl, inr, Bool-cases, Option-cases,
  ◌∙◌, ap,
}
use crypto_sentinel.Go.Runtime.{Runtime}
use crypto_sentinel.Go.Float64.{Float64, lt, gt, f_zero, f_half}
use crypto_sentinel.Go.Decimal.{format_uint}
use crypto_sentinel.Services.Format.{format_float, int_comma}
use crypto_sentinel.Go.Float64.Order.{lt_asymm}
use crypto_sentinel.Go.Text.{text, equal_fold}
use crypto_sentinel.Commands.Tvl.Chain.{
  ChainRow, rank_from, total_tvl, dominance, found_index, chain_text, chain_target, chain_report,
}

-- How many chains have more than `tvl`.
abbrev ahead : Float64 → List ChainRow → ℕ
ahead tvl [] = 0
ahead tvl (c ∷ chains) = if gt c.tvl tvl then suc (ahead tvl chains) else ahead tvl chains

rank_from-ahead :
    (chains : List ChainRow) (n : ℕ) (tvl : Float64) → rank_from n tvl chains ≡ n + ahead tvl chains
unfolding rank_from
rank_from-ahead [] n tvl = omega arith
rank_from-ahead (c ∷ chains) n tvl =
    rank_from-ahead chains (if gt c.tvl tvl then suc n else n) tvl ∙ ground arith

ahead-length : (tvl : Float64) (chains : List ChainRow) → ahead tvl chains ≤ length chains
ahead-length tvl [] = omega arith
ahead-length tvl (c ∷ chains) = ground (arith, ahead-length tvl chains)

lt_irrefl : (x : Float64) → lt x x ≡ false
lt_irrefl x = elim (Bool-cases (lt x x)) [ inl h ↦ lt_asymm x x h | inr h ↦ h ]

-- A chain is not ahead of itself.
ahead-lt :
    (chains : List ChainRow) (i : ℕ) (c : ChainRow)
    → get_elem? chains i ≡ some c
    → ahead c.tvl chains < length chains
ahead-lt [] i c e = absurd (cc)
ahead-lt (b ∷ chains) zero c e =
    let bc : b ≡ c = cc in rw bc (ground (arith, lt_irrefl c.tvl, ahead-length c.tvl chains))
ahead-lt (b ∷ chains) (suc i) c e = ground (arith, ahead-lt chains i c e)

-- `i` is the index of the last of the chains that has the name.
pub record IsLast ⦃g : Runtime⦄ (target : Bytes) (chains : List ChainRow) (c : ChainRow)
    : Type 0 where
  pub before : List ChainRow
  pub after : List ChainRow
  pub parts : chains ≡ before ++ c ∷ after
  pub named : equal_fold c.name target ≡ true
  pub others : all (λ d. not (equal_fold d.name target)) after ≡ true

module _ ⦃g : Runtime⦄ where
  found_index-none :
      (target : Bytes) (i : ℕ) (found : Option ℕ) (chains : List ChainRow)
      → found_index target i found chains ≡ none
      → (found ≡ none) × (all (λ d. not (equal_fold d.name target)) chains ≡ true)
  unfolding found_index
  found_index-none target i found [] h = (h, refl)
  found_index-none target i found (c ∷ chains) h = elim (Bool-cases (equal_fold c.name target)) [
    | inl same ↦
        let h' : found_index target (suc i) (some i) chains ≡ none = rw same at h in
        let (bad, _) = found_index-none target (suc i) (some i) chains h' in absurd (cc)
    | inr other ↦
        let h' : found_index target (suc i) found chains ≡ none = rw other at h in
        let (start, rest) = found_index-none target (suc i) found chains h' in
        (start, rw other rest)
  ]

  -- What was found, as `found_index` tells of it.
  abbrev Found : Bytes → ℕ → List ChainRow → ℕ → Type 0
  Found target i chains k =
      (c : ChainRow) × (j : ℕ) × (k ≡ i + j)
      × (get_elem? chains j ≡ some c)
      × IsLast target chains c

  further :
      (target : Bytes) (i : ℕ) (b : ChainRow) (chains : List ChainRow) (k : ℕ)
      → Found target (suc i) chains k
      → Found target i (b ∷ chains) k
  further target i b chains k (c, j, kj, at, last) = (
    c,
    suc j,
    omega arith,
    at,
    record {
      before = b ∷ last.before;
      after = last.after;
      parts = ap (λ l. b ∷ l) last.parts;
      named = last.named;
      others = last.others;
    },
  )

  found_index-some :
      (target : Bytes) (i : ℕ) (found : Option ℕ) (chains : List ChainRow) (k : ℕ)
      → found_index target i found chains ≡ some k
      → ((found ≡ some k) × (all (λ d. not (equal_fold d.name target)) chains ≡ true))
        ⊎ Found target i chains k
  unfolding found_index
  found_index-some target i found [] k h = inl (h, refl)
  found_index-some target i found (c ∷ chains) k h = elim (Bool-cases (equal_fold c.name target)) [
    | inl same ↦
        let h' : found_index target (suc i) (some i) chains ≡ some k = rw same at h in
        elim (found_index-some target (suc i) (some i) chains k h') [
          | inl (e, none_after) ↦ inr (
            c,
            0,
            (let ik : i ≡ k = cc in omega arith),
            refl,
            record { before = []; after = chains; parts = refl; named = same; others = none_after },
          )
          | inr later ↦ inr (further target i c chains k later)
        ]
    | inr other ↦
        let h' : found_index target (suc i) found chains ≡ some k = rw other at h in
        elim (found_index-some target (suc i) found chains k h') [
          | inl (e, none_after) ↦ inl (e, rw other none_after)
          | inr later ↦ inr (further target i c chains k later)
        ]
  ]

  -- The report on a chain with its rank, its value, and its share of the value of all.
  abbrev rank_line : ChainRow → List ChainRow → ℕ → Bytes
  rank_line c chains rank =
      text "Chain TVL — "
      ++ c.name
      ++ text "\nRank: #"
      ++ format_uint rank
      ++ text " of "
      ++ format_uint (length chains)
      ++ text " tracked chains\nTVL: $"
      ++ int_comma (g.to_int64 (g.add c.tvl f_half))
      ++ text "\nShare of total DeFi TVL: "
      ++ format_float (dominance c.tvl (total_tvl f_zero chains))
      ++ text "%\n\nNotes:\n"
      ++ text "- Rank and dominance are relative to all chains tracked by DefiLlama.\n"
      ++ text "- TVL is an approximate snapshot and may lag a few minutes behind on-chain data.\n\n"
      ++ text "Source: DefiLlama"

  chain_text-rank_line :
      (c : ChainRow) (chains : List ChainRow)
      → chain_text c chains ≡ rank_line c chains (suc (ahead c.tvl chains))
  unfolding chain_text
  chain_text-rank_line c chains =
      let rank : rank_from 1 c.tvl chains ≡ suc (ahead c.tvl chains) =
        rank_from-ahead chains 1 c.tvl ∙ omega arith in
      ap (rank_line c chains) rank

  -- The report on the last of the chains with the name, or that there is none.
  abbrev pub IsChainReport : Bytes → List ChainRow → Option Bytes → Type 0
  IsChainReport input chains o =
      ((all (λ d. not (equal_fold d.name (chain_target input))) chains ≡ true)
        × (o ≡ some (text "Chain '" ++ input ++ text "' not found on DefiLlama.")))
      ⊎ ((c : ChainRow) × IsLast (chain_target input) chains c
          × (suc (ahead c.tvl chains) ≤ length chains)
          × (o ≡ some (rank_line c chains (suc (ahead c.tvl chains)))))

  -- The report is on the last of the chains whose name is the one asked for, in any case of the
  -- letters; without such a chain it says that there is none. The rank that it prints is one more
  -- than the number of chains with more value, which is at most the number of chains.
  pub chain_report-IsChainReport :
      (input : Bytes) (chains : List ChainRow)
      → IsChainReport input chains (chain_report input chains)
  unfolding chain_report
  chain_report-IsChainReport input chains =
      let target = chain_target input in
      elim (Option-cases (found_index target 0 none chains)) [
        | inl e ↦ inl ((found_index-none target 0 none chains e).1, rw (e, chain_report) refl)
        | inr (k, e) ↦ elim (found_index-some target 0 none chains k e) [
          | inl (bad, _) ↦ absurd (cc)
          | inr (c, j, kj, at, last) ↦
              let same : k ≡ j = omega (arith, kj) in
              let at' : get_elem? chains k ≡ some c = rw same at in
              inr (
                c,
                last,
                omega (arith, ahead-lt chains j c at),
                rw (e, chain_report) (rw at' (ap some (chain_text-rank_line c chains))),
              )
        ]
      ]
