-- ===== src/Commands/Chart/Laws.antt =====
-- What a reply with a chart leads to, when each end of it has a property.
use crypto_sentinel.Prelude.{
  List, [], ◌∷◌, Bytes, Result, ok, err, filter_map, ◌++◌, if-elim, ◌==◌, ◌≡◌, refl,
}
use crypto_sentinel.Go.Runtime.{Runtime}
use crypto_sentinel.Go.Float64.{Float64}
use crypto_sentinel.Go.Text.{text}
use crypto_sentinel.Go.Http.{Response, failed, response}
use crypto_sentinel.Commands.Chart.{ChartJson, price_point, of_prices, of_points, chart_reply}

module _ {B : Type 0} (P : B → Type 0) (ret : Result Bytes → B) (h : (r : Result Bytes) → P (ret r))
    (no_points : Bytes) (f : Float64 → List Float64 → B)
    (k : (x : Float64) (xs : List Float64) → P (f x xs)) where
  of_prices-holds : (prices : List Float64) → P (of_prices ret f prices)
  of_prices-holds [] = h _
  of_prices-holds (x ∷ xs) = k x xs

  of_points-holds : (points : List (List Float64)) → P (of_points ret f no_points points)
  of_points-holds [] = h _
  of_points-holds (p ∷ ps) = of_prices-holds (filter_map price_point (p ∷ ps))

  decoded-holds :
      (d : Result (List (List Float64)))
      → P (elim d [
        | err e ↦ ret (err (text "decode market_chart error: " ++ e))
        | ok points ↦ of_points ret f no_points points
      ])
  decoded-holds (err e) = h _
  decoded-holds (ok points) = of_points-holds points

  module _ ⦃g : Runtime⦄ ⦃j : ChartJson⦄ where
    pub chart_reply-holds : (r : Response) → P (chart_reply ret no_points f r)
    chart_reply-holds (failed e) = h _
    chart_reply-holds (response status body) =
        if-elim P (status == 200) _ _ (decoded-holds (j.decode_chart body)) (h _)

module _ ⦃j : ChartJson⦄ where
  -- The prices of a decoded reply.
  pub record IsChart (prices : List Float64) : Type 0 where
    pub body : Bytes
    pub points : List (List Float64)
    pub decoded : j.decode_chart body ≡ ok points
    pub kept : filter_map price_point points ≡ prices

-- As above, for properties that speak of the reply.
module _ ⦃j : ChartJson⦄ {B : Type 0} (P : B → Type 0) (ret : Result Bytes → B) (no_points : Bytes)
    (f : Float64 → List Float64 → B) (fails : (e : Bytes) → P (ret (err e)))
    (empty : (body : Bytes) → j.decode_chart body ≡ ok [] → P (ret (ok no_points)))
    (priceless : IsChart [] → P (ret (ok (text "No valid price points returned by CoinGecko."))))
    (k : (x : Float64) (xs : List Float64) → IsChart (x ∷ xs) → P (f x xs)) where
  of_prices-told : (prices : List Float64) → IsChart prices → P (of_prices ret f prices)
  of_prices-told [] c = priceless c
  of_prices-told (x ∷ xs) c = k x xs c

  decoded-told :
      (body : Bytes) (d : Result (List (List Float64)))
      → j.decode_chart body ≡ d
      → P (elim d [
        | err e ↦ ret (err (text "decode market_chart error: " ++ e))
        | ok points ↦ of_points ret f no_points points
      ])
  decoded-told body (err e) h = fails _
  decoded-told body (ok []) h = empty body h
  decoded-told body (ok (p ∷ ps)) h =
      of_prices-told (filter_map price_point (p ∷ ps))
        (record { body = body; points = p ∷ ps; decoded = h; kept = refl })

  pub chart_reply-told : ⦃g : Runtime⦄ → (r : Response) → P (chart_reply ret no_points f r)
  chart_reply-told (failed e) = fails _
  chart_reply-told (response status body) =
      if-elim P (status == 200) _ _ (decoded-told body (j.decode_chart body) refl) (fails _)
