-- ===== src/Clients/Cex/Fetch/Products.antt =====
-- What the clients of Coinbase return, which send a request for each product.
use crypto_sentinel.Prelude.{
  ℕ, Bool, true, false, ◌&&◌, List, [], ◌∷◌, ◌++◌, Option, none, some, Bytes, Result, ok, err, ◌≡◌,
  ◌==◌, ◌∙◌, ap, refl, subst, sym, append_assoc, append-nil, Bool-cases, inl, inr,
}
use crypto_sentinel.Go.Runtime.{Runtime}
use crypto_sentinel.Go.Text.{text}
use crypto_sentinel.Go.Sort.{Sorter, IsSorter}
use crypto_sentinel.Go.Http.{Response, failed, response}
use crypto_sentinel.Go.Http.Laws.{Returns}
use crypto_sentinel.Models.{CexGainer}
use crypto_sentinel.Clients.Wire.{KucoinRow, CoinbaseStats, CexJson}
use crypto_sentinel.Clients.Cex.Ranking.{top_gainers, top_losers, or_no_data}
use crypto_sentinel.Clients.Cex.Coinbase.{
  coinbase_gainer, coinbase_loser, coinbase_loop, stats_of, append_some, product_ids,
  fetch_coinbase_gainers, fetch_coinbase_losers,
}
use crypto_sentinel.Clients.Cex.Listing.{Selects, or_no_data-gainers, or_no_data-losers}
use crypto_sentinel.Clients.Cex.Fetch.Feeds
use crypto_sentinel.Clients.Cex.Fetch.Feeds.{
  AreProducts, HasStats, is_coinbase, coinbase_pair, has_dollars, is_kucoin, any_change, falls,
}
use crypto_sentinel.Clients.Cex.Fetch.Rows.{coinbase_gainer-Selects, coinbase_loser-Selects}
use crypto_sentinel.Clients.Cex.Fetch.Replies.{Gainers, Losers, AreGainers, AreLosers}

abbrev is_good : Response → Bool
is_good (failed e) = false
is_good (response status body) = status == 200

abbrev body_of : Response → Bytes
body_of (failed e) = []
body_of (response status body) = body

module _ ⦃g : Runtime⦄ ⦃j : CexJson⦄ (kucoin : KucoinRow → Bool) (keep : CexGainer → Bool)
    (row : Bytes → CoinbaseStats → Option CexGainer)
    (selects : (pid : Bytes)
      → Selects (λ t. is_coinbase t && keep (coinbase_pair pid t)) (coinbase_pair pid) (row pid))
    (P : Result (List CexGainer) → Type 0) (finish : List CexGainer → Result (List CexGainer)) where
  -- What is left to do with the pairs of `pids`, behind `list`.
  abbrev Finishes : List Bytes → List CexGainer → Type 0
  Finishes pids list =
      (rest : List CexGainer) → AreProducts kucoin keep pids rest → P (finish (list ++ rest))

  listed-Finishes :
      (pid : Bytes) (pids : List Bytes) (list : List CexGainer) (r : Response) (st : CoinbaseStats)
      → HasStats kucoin keep r st
      → Finishes (pid ∷ pids) list
      → Finishes pids (append_some list (row pid st))
  listed-Finishes pid pids list r st held k rest are =
      elim (Bool-cases (is_coinbase st && keep (coinbase_pair pid st))) [
        | inl fine ↦
            let row_is : row pid st ≡ some (coinbase_pair pid st) = selects pid st ∙ rw fine refl in
            rw (row_is, append_some)
              (subst (λ l. P (finish l)) (sym (append_assoc list (coinbase_pair pid st ∷ []) rest))
                (k (coinbase_pair pid st ∷ rest) (Feeds.listed pid pids r st rest held fine are)))
        | inr bad ↦
            let row_is : row pid st ≡ none = selects pid st ∙ rw bad refl in
            rw (row_is, append_some) (k rest (Feeds.unread pid pids r st rest held bad are))
      ]

  -- A reply that holds no statistics adds nothing.
  unanswered-Finishes :
      (pid : Bytes) (pids : List Bytes) (list : List CexGainer) (r : Response)
      → ((st : CoinbaseStats) → HasStats kucoin keep r st → ⊥)
      → Finishes (pid ∷ pids) list
      → Finishes pids list
  unanswered-Finishes pid pids list r none_held k rest are =
      k rest (Feeds.unanswered pid pids r rest none_held are)

  decoded-Finishes :
      (pid : Bytes) (pids : List Bytes) (list : List CexGainer) (body : Bytes)
      (d : Result CoinbaseStats)
      → j.decode_coinbase body ≡ d
      → Finishes (pid ∷ pids) list
      → Finishes pids (append_some list (elim d [ err e ↦ none | ok st ↦ row pid st ]))
  decoded-Finishes pid pids list body (err e) h =
      unanswered-Finishes pid pids list (response 200 body) (λ st (b, is, d).
        let same : body_of (response 200 body) ≡ body_of (response 200 b) = ap body_of is in
        let bad : err e ≡ ok st = sym h ∙ (ap j.decode_coinbase same ∙ d) in cc)
  decoded-Finishes pid pids list body (ok st) h =
      listed-Finishes pid pids list (response 200 body) st (body, refl, h)

  stats-Finishes :
      (pid : Bytes) (pids : List Bytes) (list : List CexGainer) (r : Response)
      → Finishes (pid ∷ pids) list
      → Finishes pids (append_some list (stats_of (row pid) r))
  stats-Finishes pid pids list (failed e) k =
      unanswered-Finishes pid pids list (failed e)
        (λ st (b, is, d). let bad : false ≡ true = ap is_good is in cc) k
  stats-Finishes pid pids list (response status body) k = elim (Bool-cases (status == 200)) [
    | inr other ↦
        rw (other, append_some)
          (unanswered-Finishes pid pids list (response status body)
            (λ st (b, is, d). let bad : (status == 200) ≡ true = ap is_good is in cc) k)
    | inl fine ↦
        rw (fine, append_some) (decoded-Finishes pid pids list body (j.decode_coinbase body) refl k)
  ]

  coinbase_loop-Returns :
      (pids : List Bytes) (list : List CexGainer)
      → Finishes pids list
      → Returns P (coinbase_loop row pids list finish)
  unfolding coinbase_loop
  coinbase_loop-Returns [] list k =
      subst (λ l. P (finish l)) (append-nil list) (k [] Feeds.no_product)
  coinbase_loop-Returns (pid ∷ pids) list k = λ r.
      coinbase_loop-Returns pids (append_some list (stats_of (row pid) r))
        (stats-Finishes pid pids list r k)

module _ ⦃g : Runtime⦄ ⦃s : Sorter⦄ ⦃j : CexJson⦄ (laws : IsSorter s) (limit : ℕ) where
  pub coinbase-AreGainers :
      Returns (AreGainers (text "coinbase") limit) (fetch_coinbase_gainers limit)
  unfolding fetch_coinbase_gainers
  coinbase-AreGainers =
      coinbase_loop-Returns has_dollars any_change coinbase_gainer coinbase_gainer-Selects
        (AreGainers (text "coinbase") limit)
        (or_no_data (text "no coinbase data") (top_gainers limit)) product_ids []
        (λ rest are.
          or_no_data-gainers laws (Gainers (text "coinbase")) _ limit rest
            (Feeds.of_coinbase rest are))

  pub coinbase-AreLosers : Returns (AreLosers (text "coinbase") limit) (fetch_coinbase_losers limit)
  unfolding fetch_coinbase_losers
  coinbase-AreLosers =
      coinbase_loop-Returns is_kucoin falls coinbase_loser coinbase_loser-Selects
        (AreLosers (text "coinbase") limit)
        (or_no_data (text "no coinbase losers data") (top_losers limit)) product_ids []
        (λ rest are.
          or_no_data-losers laws (Losers (text "coinbase")) _ limit rest
            (Feeds.of_coinbase rest are))
