-- ===== src/Commands/Chart/Trend/Report.antt =====
-- What `trend` tells of the replies of CoinGecko: averages over the newest prices.
use crypto_sentinel.Prelude.{
  ℕ, zero, suc, ◌+◌, ◌-◌, ◌*◌, ◌/◌, ◌≤◌, ◌<◌, List, [], ◌∷◌, false, Option, some, Bytes, Result, ok,
  err, length, get_elem?-lt, drop-all, drop-get_elem?, length-drop, drop, ltb, ◌≡◌, sym, ap, ◌∙◌,
  arith, Bool-cases, inl, inr, subst,
}
use crypto_sentinel.Go.Runtime.{Runtime}
use crypto_sentinel.Go.Float64.{Float64, f_zero}
use crypto_sentinel.Models.{CoinMarket}
use crypto_sentinel.Go.Text.{text}
use crypto_sentinel.Go.Http.{Request, Response}
use crypto_sentinel.Go.Http.Answers.{ReturnsTo}
use crypto_sentinel.Clients.Coingecko.Replies.{CoinJson}
use crypto_sentinel.Commands.Price.Replies.{
  IsMarketOf, unresolved, unfetched, resolve_or_say-ReturnsTo, market_or_say-ReturnsTo,
}
use crypto_sentinel.Commands.Chart.{ChartJson}
use crypto_sentinel.Commands.Chart.Laws.{IsChart, chart_reply-told}
use crypto_sentinel.Commands.Shared.{replied}
use crypto_sentinel.Commands.Chart.Trend.{
  window, sum_from, trailing_avg, trend_text, trend_of, cmd_trend,
}

-- The newest `k` of the prices, which stand in the order of time.
abbrev newest : ℕ → List Float64 → List Float64
newest k prices = drop (length prices - k) prices

module _ ⦃g : Runtime⦄ where
  abbrev sum : Float64 → List Float64 → Float64
  sum s [] = s
  sum s (p ∷ ps) = sum (g.add s p) ps

  abbrev mean : List Float64 → Float64
  mean ps = g.div (sum f_zero ps) (g.of_int (length ps))

  sum_from-drop :
      (rounds i : ℕ) (s : Float64) (prices : List Float64)
      → i + rounds ≡ length prices
      → sum_from rounds i s prices ≡ some (sum s (drop i prices))
  unfolding sum_from
  sum_from-drop zero i s prices h =
      ap (λ l. some (sum s l)) (sym (drop-all i prices (omega (arith, h))))
  sum_from-drop (suc rounds) i s prices h =
      let (p, e) = get_elem?-lt prices i (omega (arith, h)) in
      rw (e, sum_from)
        (sum_from-drop rounds (suc i) (g.add s p) prices (omega (arith, h))
          ∙ ap (λ l. some (sum s l)) (sym (drop-get_elem? i prices p e)))

  -- The average is that of the newest prices.
  trailing_avg-newest :
      (prices : List Float64) (k : ℕ)
      → window (length prices) k ≤ length prices
      → trailing_avg prices k ≡ some (mean (newest (window (length prices) k) prices))
  unfolding trailing_avg
  trailing_avg-newest prices k h =
      let n = length prices in
      let w = window n k in
      let size : length (newest w prices) ≡ w = omega (arith, h, length-drop (n - w) prices) in
      rw (sum_from-drop w (n - w) f_zero prices (omega (arith, h)), trailing_avg)
        (ap (λ l. some (g.div (sum f_zero (newest w prices)) (g.of_int l))) (sym size))

  -- 7 of 90 days, as a share of the prices: one at least.
  abbrev week : List Float64 → List Float64
  week prices = newest (suc (length prices * 7 / 90 - 1)) prices

  abbrev month : List Float64 → List Float64
  month prices = newest (length prices * 30 / 90) prices

  week-window : (n : ℕ) → 10 ≤ n → window n (n * 7 / 90) ≡ suc (n * 7 / 90 - 1)
  unfolding window
  week-window n h = ground arith

  month-window : (n : ℕ) → 10 ≤ n → window n (n * 30 / 90) ≡ n * 30 / 90
  unfolding window
  month-window n h = ground arith

  all-window : (n : ℕ) → 10 ≤ n → window n n ≡ n
  unfolding window
  all-window n h = ground arith

  -- What `trend` makes of a market and of ten prices at least.
  abbrev means_text : CoinMarket → List Float64 → Bytes
  means_text m prices = trend_text m (mean (week prices)) (mean (month prices)) (mean prices)

  trailing_avg-mean :
      (prices : List Float64) (k w : ℕ)
      → window (length prices) k ≡ w
      → w ≤ length prices
      → trailing_avg prices k ≡ some (mean (newest w prices))
  trailing_avg-mean prices k w e h =
      trailing_avg-newest prices k (omega (arith, e, h)) ∙ ap (λ v. some (mean (newest v prices))) e

  trend_of-means :
      (m : CoinMarket) (prices : List Float64)
      → 10 ≤ length prices
      → trend_of m prices ≡ some (means_text m prices)
  unfolding trend_of
  trend_of-means m prices h =
      let n = length prices in
      let enough : ltb n 10 ≡ false = ground (arith, h) in
      let none_left : n - n ≡ 0 = omega arith in
      let whole : newest n prices ≡ prices = ap (λ k. drop k prices) none_left in
      rw enough (
        rw (trailing_avg-mean prices (n * 7 / 90) _ (week-window n h) (omega (arith, h))) (
          rw (trailing_avg-mean prices (n * 30 / 90) _ (month-window n h) (omega (arith, h))) (
            rw (trailing_avg-mean prices n n (all-window n h) (omega arith)) (
              ap (λ l. some (trend_text m (mean (week prices)) (mean (month prices)) (mean l)))
                whole))))

  -- `Answer` tells which response answers a request; it may be any relation.
  module _ ⦃c : CoinJson⦄ ⦃j : ChartJson⦄ (Answer : Request → Response → Type 0) where
    -- What `trend` returns on a symbol: never a fault.
    pub data IsTrendReport (sym : Bytes) : Option (Result Bytes) → Type 0 where
      not_resolved : (e : Bytes) → IsTrendReport sym (some (ok (unresolved (text "asset") sym e)))
      not_fetched : (e : Bytes) → IsTrendReport sym (some (ok (unfetched sym e)))
      not_charted : (e : Bytes) → IsTrendReport sym (some (err e))
      empty_chart :
          (body : Bytes)
          → j.decode_chart body ≡ ok []
          → IsTrendReport sym
              (some (ok (text "No historical price data available for this asset.")))
      no_prices :
          IsChart []
          → IsTrendReport sym (some (ok (text "No valid price points returned by CoinGecko.")))
      too_few :
          (prices : List Float64)
          → IsChart prices
          → length prices < 10
          → IsTrendReport sym (
              some
                (ok (text "Not enough historical data to compute trend (need more price points).")))
      reported :
          (m : CoinMarket) (prices : List Float64)
          → IsMarketOf Answer sym m
          → IsChart prices
          → 10 ≤ length prices
          → IsTrendReport sym (some (ok (means_text m prices)))

    trend_of-IsTrendReport :
        (symbol : Bytes) (m : CoinMarket) (prices : List Float64)
        → IsMarketOf Answer symbol m
        → IsChart prices
        → IsTrendReport symbol (replied (trend_of m prices))
    unfolding trend_of
    trend_of-IsTrendReport symbol m prices of_symbol chart =
        elim (Bool-cases (ltb (length prices) 10)) [
          | inl few ↦ rw few (too_few prices chart (ground arith))
          | inr enough ↦
              let many : 10 ≤ length prices = ground arith in
              subst (λ o. IsTrendReport symbol (replied o)) (sym (trend_of-means m prices many))
                (reported m prices of_symbol chart many)
        ]

    -- Whatever is answered, trend with a symbol never faults. It tells that the coin could not be
    -- resolved or fetched, fails if its chart is not to be had, or tells that the decoded chart has
    -- no prices or fewer than ten; or it reports on the market that a reply held, with the means of
    -- the newest prices of a decoded chart: of 7 parts of 90 of them, one at least, of 30 parts of
    -- 90, and of all.
    pub cmd_trend-IsTrendReport :
        (symbol : Bytes) (args : List Bytes)
        → ReturnsTo Answer (IsTrendReport symbol) (cmd_trend (symbol ∷ args))
    unfolding cmd_trend
    cmd_trend-IsTrendReport symbol args =
        let P = IsTrendReport symbol in
        resolve_or_say-ReturnsTo Answer P some (text "asset") symbol _ not_resolved λ id found.
          market_or_say-ReturnsTo Answer P some symbol id _ not_fetched found λ m of_symbol.
            λ r answers.
              chart_reply-told P some _ _ not_charted empty_chart no_prices
                (λ x xs chart. trend_of-IsTrendReport symbol m (x ∷ xs) of_symbol chart) r
