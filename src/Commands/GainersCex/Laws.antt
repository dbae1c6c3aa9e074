-- ===== src/Commands/GainersCex/Laws.antt =====
-- The reports of internal/commands/gainers_cex.go.
use crypto_sentinel.Prelude.{Bytes, ◌≡◌, refl, Bool-cases, inl, inr}
use crypto_sentinel.Go.Runtime.{Runtime}
use crypto_sentinel.Go.Float64.{Float64, lt}
use crypto_sentinel.Go.Float64.Order.{lt_asymm}
use crypto_sentinel.Commands.GainersCex.{winner}

module _ ⦃g : Runtime⦄ where
  -- The exchange with the larger average wins, whichever of the two is named first; averages that
  -- are equal, and those that are not numbers, give the same text too.
  winner_comm :
      (cex1 cex2 : Bytes) (avg1 avg2 : Float64)
      → winner cex1 avg1 cex2 avg2 ≡ winner cex2 avg2 cex1 avg1
  unfolding winner
  winner_comm cex1 cex2 avg1 avg2 = elim (Bool-cases (lt avg2 avg1)) [
    | inl h ↦ rw (h, winner) (rw (lt_asymm avg2 avg1 h, winner) refl)
    | inr h ↦ rw (h, winner) refl
  ]
