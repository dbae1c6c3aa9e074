-- ===== src/Commands/Dex/Pairs.antt =====
-- The pair that a search on DexScreener gives.
use crypto_sentinel.Prelude.{
  subst, sym, arith, ◌++◌, Bool, true, not, List, [], ◌∷◌, ◌++◌, Option, none, some, Bytes, Result,
  ok, err, all, ◌==◌, ◌≡◌, refl, ap, Bool-cases, Option-cases, inl, inr,
}
use crypto_sentinel.Go.Runtime.{Runtime}
use crypto_sentinel.Go.Text.{text, equal_fold}
use crypto_sentinel.Go.Http.{Request, Response, failed, response}
use crypto_sentinel.Go.Http.Answers.{ReturnsTo}
use crypto_sentinel.Clients.Coingecko.{from_agent}
use crypto_sentinel.Commands.Dex.Search.{
  DexPair, DexJson, dex_url, best_pair, normalize_chain_name, search_reply, search_best_dex_pair,
}

module _ ⦃g : Runtime⦄ where
  abbrev is_on : Bytes → DexPair → Bool
  is_on chain p = equal_fold p.chain_id chain

  -- The first pair on the chain, or none where there is none.
  pub data IsFirstOn (chain : Bytes) (pairs : List DexPair) : Option DexPair → Type 0 where
    nowhere : all (λ p. not (is_on chain p)) pairs ≡ true → IsFirstOn chain pairs none
    found :
        (before : List DexPair) (p : DexPair) (after : List DexPair)
        → pairs ≡ before ++ p ∷ after
        → all (λ q. not (is_on chain q)) before ≡ true
        → is_on chain p ≡ true
        → IsFirstOn chain pairs (some p)

  best_pair-IsFirstOn :
      (chain : Bytes) (pairs : List DexPair) → IsFirstOn chain pairs (best_pair chain pairs)
  unfolding best_pair
  best_pair-IsFirstOn chain [] = nowhere refl
  best_pair-IsFirstOn chain (p ∷ pairs) = elim (Bool-cases (is_on chain p)) [
    | inl here ↦ rw here (found [] p pairs refl refl here)
    | inr other ↦
        rw other (elim (best_pair-IsFirstOn chain pairs) as (λ o d. IsFirstOn chain (p ∷ pairs) o) [
          | nowhere h ↦ nowhere (rw other h)
          | found before q after parts h on ↦
              found (p ∷ before) q after (ap (λ l. p ∷ l) parts) (rw other h) on
        ])
  ]

  -- `Answer` tells which response answers a request; it may be any relation.
  module _ ⦃j : DexJson⦄ (Answer : Request → Response → Type 0) (token chain : Bytes) where
    -- What a search for the pair of the token on the chain promises: it fails since there is no
    -- request or the answer to it gives an error; or the answer is decoded.
    pub data IsBest : Result (Option DexPair) → Type 0 where
      no_request : (e : Bytes) → g.request_error (dex_url token chain) ≡ some e → IsBest (err e)
      not_searched :
          (r : Response) (e : Bytes)
          → Answer (from_agent (dex_url token chain)) r
          → search_reply chain r ≡ err e
          → IsBest (err e)
      searched :
          (body : Bytes) (pairs : List DexPair) (o : Option DexPair)
          → Answer (from_agent (dex_url token chain)) (response 200 body)
          → j.decode_pairs body ≡ ok pairs
          → IsFirstOn chain pairs o
          → IsBest (ok o)

    decoded-IsBest :
        (body : Bytes) (d : Result (List DexPair))
        → Answer (from_agent (dex_url token chain)) (response 200 body)
        → j.decode_pairs body ≡ d
        → IsBest (search_reply chain (response 200 body))
    unfolding search_reply
    decoded-IsBest body (err e) answers h = rw h (
        not_searched (response 200 body) (text "decode dexscreener error: " ++ e) answers
          (rw h refl))
    decoded-IsBest body (ok pairs) answers h =
        rw h (searched body pairs _ answers h (best_pair-IsFirstOn chain pairs))

    search_reply-IsBest :
        (r : Response) → Answer (from_agent (dex_url token chain)) r → IsBest (search_reply chain r)
    unfolding search_reply
    search_reply-IsBest (failed e) answers = not_searched (failed e) _ answers refl
    search_reply-IsBest (response status body) answers = elim (Bool-cases (status == 200)) [
      | inl fine ↦
          let is_200 : status ≡ 200 = ground (arith, fine) in
          subst (λ n. IsBest (search_reply chain (response n body))) (sym is_200)
            (decoded-IsBest body (j.decode_pairs body)
              (subst (λ n. Answer (from_agent (dex_url token chain)) (response n body)) is_200
                answers)
              refl)
      | inr other ↦ rw other (not_searched (response status body) _ answers (rw other refl))
    ]

  module _ ⦃j : DexJson⦄ (Answer : Request → Response → Type 0) where
    pub search_best_dex_pair-IsBest :
        (token chain : Bytes)
        → ReturnsTo Answer
            (IsBest Answer token (normalize_chain_name chain))
            (search_best_dex_pair token chain)
    unfolding search_best_dex_pair
    search_best_dex_pair-IsBest token chain =
        let chain' = normalize_chain_name chain in
        elim (Option-cases (g.request_error (dex_url token chain'))) [
          | inl fine ↦
              rw (fine, ReturnsTo) (λ r answers. search_reply-IsBest Answer token chain' r answers)
          | inr (e, bad) ↦ rw (bad, ReturnsTo) (no_request e bad)
        ]
