-- ===== src/Commands/Movers/Laws.antt =====
-- What `gainers` and `losers` report.
use crypto_sentinel.Prelude.{
  ℕ, Bool, true, false, not, List, [], ◌∷◌, ◌++◌, Bytes, Result, ok, err, length, take, take-length,
  length-take, all, is_empty, ◌==◌, if◌then◌else◌, ◌≡◌, ◌⊎◌, inl, inr, refl, arith, ◌≤◌, ap, ◌∙◌,
  Option, none, some, IsSome, if-elim, slice_to-take,
}
use crypto_sentinel.Go.Runtime.{Runtime}
use crypto_sentinel.Go.Text.{text}
use crypto_sentinel.Go.Float64.{is_nan}
use crypto_sentinel.Go.Float64.Order.{lt_asymm, not_lt_trans}
use crypto_sentinel.Go.Sort.{Sorter, IsSorter, WeakOrder, IsTop, limit_to}
use crypto_sentinel.Go.Sort.Laws.{limit_to-IsTop}
use crypto_sentinel.Go.Http.{Response, failed, response}
use crypto_sentinel.Go.Http.Laws.{Returns}
use crypto_sentinel.Commands.Shared.{limit_of, replied, replied-IsSome, decoded-IsSome}
use crypto_sentinel.Commands.Shared.Limits.{limit_of_bounds}
use crypto_sentinel.Commands.Movers.{
  Coin, MoversJson, coin_rises_more, coin_falls_more, cut_limit, board_text, board, gainers_board,
  losers_board, board_of, clamped, cmd_gainers, cmd_losers,
}

-- JSON has no NaN.
pub record SendsCoins (j : MoversJson) : Type 0 where
  pub coins :
      (body : Bytes) (arr : List Coin)
      → j.decode_coins body ≡ ok arr
      → all (λ c. not (is_nan c.change)) arr ≡ true

coin_rises_more-WeakOrder : WeakOrder coin_rises_more (λ c. not (is_nan c.change))
coin_rises_more-WeakOrder = record {
  asymm = λ x y h. lt_asymm y.change x.change h;
  not_trans = λ x y z n p q. not_lt_trans z.change y.change x.change (ground arith) q p;
}

coin_falls_more-WeakOrder : WeakOrder coin_falls_more (λ c. not (is_nan c.change))
coin_falls_more-WeakOrder = record {
  asymm = λ x y h. lt_asymm x.change y.change h;
  not_trans = λ x y z n p q. not_lt_trans x.change y.change z.change (ground arith) p q;
}

cut_limit_lem :
    (n : ℕ) (arr : List Coin)
    → (take (cut_limit n arr) arr ≡ limit_to n arr) × (cut_limit n arr ≡ length (limit_to n arr))
unfolding cut_limit limit_to
cut_limit_lem n arr = ground (arith, take-length arr, length-take n arr)

-- A report that a decoded reply gives, and no fault. An error promises nothing.
abbrev pub IsReport :
    ⦃j : MoversJson⦄ → (List Coin → Bytes → Type 0) → Option (Result Bytes) → Type 0
IsReport ⦃j⦄ Shows none = ⊥
IsReport ⦃j⦄ Shows (some (err e)) = Unit
IsReport ⦃j⦄ Shows (some (ok t)) =
    (body : Bytes) × (arr : List Coin) × (j.decode_coins body ≡ ok arr) × Shows arr t

module _ ⦃g : Runtime⦄ where
  -- The report on the coins `top`, of which there are at most `limit`, and which come first.
  abbrev pub ShowsTop : (Coin → Coin → Bool) → Bytes → ℕ → List Coin → Bytes → Type 0
  ShowsTop less what limit arr t =
      (top : List Coin) × IsTop less limit arr top × (t ≡ board_text what (length top) top)

  abbrev pub ShowsGainers : ℕ → List Coin → Bytes → Type 0
  ShowsGainers limit arr t =
      ((is_empty arr ≡ true) × (t ≡ text "No data for gainers."))
      ⊎ ShowsTop coin_rises_more (text "gainers") limit arr t

  -- No index is out of range.
  board-some :
      (what : Bytes) (limit : ℕ) (arr : List Coin)
      → board what (cut_limit limit arr) arr
        ≡ some (board_text what (cut_limit limit arr) (take (cut_limit limit arr) arr))
  unfolding cut_limit
  board-some what limit arr =
      ap
        (λ o. elim o [
          | none ↦ none
          | some shown ↦ some (board_text what (cut_limit limit arr) shown)
        ])
        (slice_to-take (cut_limit limit arr) arr (ground arith))

module _ ⦃g : Runtime⦄ ⦃s : Sorter⦄ ⦃j : MoversJson⦄ where
  board_of-IsSome :
      (f : List Coin → Option Bytes) (r : Response)
      → ((arr : List Coin) → IsSome (f arr))
      → IsSome (board_of f r)
  board_of-IsSome f (failed e) h = tt
  board_of-IsSome f (response status body) h =
      if-elim IsSome (status == 200) _ _
        (decoded-IsSome (j.decode_coins body) (λ e. some (err (text "decode error: " ++ e)))
          (λ arr. replied (f arr)) (λ e. tt) (λ arr. replied-IsSome (f arr) (h arr)))
        tt

  pub cmd_losers-IsSome : (args : List Bytes) → Returns IsSome (cmd_losers args)
  unfolding cmd_losers
  cmd_losers-IsSome args = λ r.
      board_of-IsSome (losers_board (limit_of 10 args)) r
        (λ arr. rw (board-some (text "losers") (limit_of 10 args) _, IsSome) tt)

  gainers_board-IsSome : (limit : ℕ) (arr : List Coin) → IsSome (gainers_board limit arr)
  gainers_board-IsSome limit [] = tt
  gainers_board-IsSome limit (c ∷ arr) = rw (board-some (text "gainers") limit _, IsSome) tt

  pub cmd_gainers-IsSome : (args : List Bytes) → Returns IsSome (cmd_gainers args)
  unfolding cmd_gainers
  cmd_gainers-IsSome args =
      λ r. board_of-IsSome _ r (gainers_board-IsSome (clamped (limit_of 10 args)))

module _ ⦃g : Runtime⦄ ⦃s : Sorter⦄ (laws : IsSorter s) where
  board-ShowsTop :
      (less : Coin → Coin → Bool) (what : Bytes) (limit : ℕ) (arr : List Coin)
      → WeakOrder less (λ c. not (is_nan c.change))
      → all (λ c. not (is_nan c.change)) arr ≡ true
      → let shuffled = s.sort_slice Coin less arr in
        (t : Bytes) × (board what (cut_limit limit shuffled) shuffled ≡ some t)
        × ShowsTop less what limit arr t
  board-ShowsTop less what limit arr weak numbers =
      let shuffled : List Coin = s.sort_slice Coin less arr in
      let (same, size) = cut_limit_lem limit shuffled in
      (
        board_text what (cut_limit limit shuffled) (take (cut_limit limit shuffled) shuffled),
        board-some what limit shuffled,
        (
          limit_to limit shuffled,
          limit_to-IsTop laws less _ limit arr weak numbers,
          ap (board_text what (cut_limit limit shuffled)) same
              ∙ ap (λ n. board_text what n (limit_to limit shuffled)) size,
        ),
      )

  module _ ⦃j : MoversJson⦄ (feed : SendsCoins j) where
    decoded-IsReport :
        (Shows : List Coin → Bytes → Type 0) (f : List Coin → Option Bytes) (good : Bool)
        (body : Bytes) (message : Bytes) (d : Result (List Coin))
        → j.decode_coins body ≡ d
        → ((arr : List Coin)
            → all (λ c. not (is_nan c.change)) arr ≡ true
            → (t : Bytes) × (f arr ≡ some t) × Shows arr t)
        → IsReport Shows (
            if good
            then elim d [
              | err e ↦ some (err (text "decode error: " ++ e))
              | ok arr ↦ replied (f arr)
            ]
            else some (err message))
    decoded-IsReport Shows f true body message (ok arr) e h =
        let (t, same, shows) = h arr (feed.coins body arr e) in rw same (body, arr, e, shows)
    decoded-IsReport Shows f true body message (err error) e h = tt
    decoded-IsReport Shows f false body message d e h = tt

    board_of-IsReport :
        (Shows : List Coin → Bytes → Type 0) (f : List Coin → Option Bytes) (r : Response)
        → ((arr : List Coin)
            → all (λ c. not (is_nan c.change)) arr ≡ true
            → (t : Bytes) × (f arr ≡ some t) × Shows arr t)
        → IsReport Shows (board_of f r)
    board_of-IsReport Shows f (failed e) h = tt
    board_of-IsReport Shows f (response status body) h =
        decoded-IsReport Shows f (status == 200) body _ (j.decode_coins body) refl h

    gainers_board-ShowsGainers :
        (limit : ℕ) (arr : List Coin)
        → all (λ c. not (is_nan c.change)) arr ≡ true
        → (t : Bytes) × (gainers_board limit arr ≡ some t) × ShowsGainers limit arr t
    gainers_board-ShowsGainers limit [] h = (_, refl, inl (refl, refl))
    gainers_board-ShowsGainers limit (c ∷ arr) h =
        let (t, same, shows) =
          board-ShowsTop coin_rises_more (text "gainers") limit (c ∷ arr) coin_rises_more-WeakOrder
            h in
        (t, same, inr shows)

    clamped_lem : (n : ℕ) → 1 ≤ n → n ≤ 50 → clamped n ≡ n
    clamped_lem n h k = ground arith

    -- With a sort that keeps its contract and replies without NaN, whatever else is answered:
    -- `losers` never faults; it fails or reports, of the coins of a decoded reply, the first by the change of the
    -- price, the largest fall first, as many as the limit of the user allows.
    pub cmd_losers-IsReport :
        (args : List Bytes)
        → Returns
            (IsReport (ShowsTop coin_falls_more (text "losers") (limit_of 10 args)))
            (cmd_losers args)
    unfolding cmd_losers
    cmd_losers-IsReport args r = board_of-IsReport _ (losers_board (limit_of 10 args)) r (λ arr h.
        board-ShowsTop coin_falls_more (text "losers") (limit_of 10 args) arr
          coin_falls_more-WeakOrder h)

    -- Likewise for `gainers`, by the rise of the price; a reply without coins is reported as such.
    pub cmd_gainers-IsReport :
        (args : List Bytes)
        → Returns (IsReport (ShowsGainers (limit_of 10 args))) (cmd_gainers args)
    unfolding cmd_gainers
    cmd_gainers-IsReport args r =
        let (low, high) = limit_of_bounds 10 args (omega arith) (omega arith) in
        rw (clamped_lem (limit_of 10 args) low high) (
          board_of-IsReport (ShowsGainers (limit_of 10 args)) (gainers_board (limit_of 10 args)) r
            (gainers_board-ShowsGainers (limit_of 10 args)))
