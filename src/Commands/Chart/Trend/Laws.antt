-- ===== src/Commands/Chart/Trend/Laws.antt =====
-- The windows of the averages, and that no index is out of range.
use crypto_sentinel.Prelude.{
  ℕ, zero, suc, ◌+◌, ◌-◌, ◌*◌, ◌/◌, ◌≤◌, List, [], ◌∷◌, Option, none, some, Bytes, length,
  get_elem?-lt, arith, IsSome, IsSome-map, ltb, Bool-cases, inl, inr,
}
use crypto_sentinel.Go.Runtime.{Runtime}
use crypto_sentinel.Go.Float64.{Float64, f_zero}
use crypto_sentinel.Go.Http.Laws.{Returns}
use crypto_sentinel.Models.{CoinMarket}
use crypto_sentinel.Clients.Coingecko.{resolve_coin_id, fetch_coin_market}
use crypto_sentinel.Clients.Coingecko.Replies.{CoinJson}
use crypto_sentinel.Commands.Shared.Replies.{or_say-Returns}
use crypto_sentinel.Commands.Chart.{ChartJson}
use crypto_sentinel.Commands.Chart.Laws.{chart_reply-holds}
use crypto_sentinel.Commands.Shared.{replied-IsSome}
use crypto_sentinel.Commands.Chart.Trend.{
  window, sum_from, trailing_avg, averages_text, trend_of, cmd_trend,
}

window-bounds : (n k : ℕ) → 1 ≤ n → (1 ≤ window n k) × (window n k ≤ n)
unfolding window
window-bounds n k h = ground arith

module _ ⦃g : Runtime⦄ where
  sum_from-IsSome :
      (rounds i : ℕ) (sum : Float64) (prices : List Float64)
      → i + rounds ≤ length prices
      → IsSome (sum_from rounds i sum prices)
  unfolding sum_from
  sum_from-IsSome zero i sum prices h = tt
  sum_from-IsSome (suc rounds) i sum prices h =
      let (p, e) = get_elem?-lt prices i (omega arith) in
      rw (e, IsSome) (sum_from-IsSome rounds (suc i) (g.add sum p) prices (omega arith))

  trailing_avg-IsSome :
      (prices : List Float64) (k : ℕ) → 1 ≤ length prices → IsSome (trailing_avg prices k)
  unfolding trailing_avg
  trailing_avg-IsSome prices k h =
      let b = window-bounds (length prices) k h in
      IsSome-map _
        (sum_from (window (length prices) k) (length prices - window (length prices) k) f_zero
          prices)
        (sum_from-IsSome _ _ f_zero prices (omega arith))

  averages_text-IsSome :
      (m : CoinMarket) (x y z : Option Float64)
      → IsSome x
      → IsSome y
      → IsSome z
      → IsSome (averages_text m x y z)
  averages_text-IsSome m (some x) (some y) (some z) p q r = tt
  averages_text-IsSome m none y z p q r = elim p [ ]
  averages_text-IsSome m (some x) none z p q r = elim q [ ]
  averages_text-IsSome m (some x) (some y) none p q r = elim r [ ]

  trend_of-IsSome : (m : CoinMarket) (prices : List Float64) → IsSome (trend_of m prices)
  unfolding trend_of
  trend_of-IsSome m prices = elim (Bool-cases (ltb (length prices) 10)) [
    | inl few ↦ rw (few, IsSome) tt
    | inr many ↦
        rw (many, IsSome)
          (averages_text-IsSome m _ _ _
            (trailing_avg-IsSome prices (length prices * 7 / 90) (ground arith))
            (trailing_avg-IsSome prices (length prices * 30 / 90) (ground arith))
            (trailing_avg-IsSome prices (length prices) (ground arith)))
  ]

  module _ ⦃c : CoinJson⦄ ⦃j : ChartJson⦄ where
    pub cmd_trend-IsSome : (args : List Bytes) → Returns IsSome (cmd_trend args)
    unfolding cmd_trend
    cmd_trend-IsSome [] = tt
    cmd_trend-IsSome (sym ∷ args) =
        or_say-Returns IsSome some (λ r. tt) _ _ (resolve_coin_id sym)
          λ id.
            or_say-Returns IsSome some (λ r. tt) _ _ (fetch_coin_market id)
              λ mkt. λ r.
                chart_reply-holds IsSome some (λ x. tt) _ _
                  (λ x xs. replied-IsSome (trend_of mkt (x ∷ xs)) (trend_of-IsSome mkt (x ∷ xs))) r
