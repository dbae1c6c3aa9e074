-- ===== src/Go/Float64/Order.antt =====
-- The comparisons as an order: partial with NaNs, and a weak order without.
use crypto_sentinel.Prelude.{true, false, ◌≡◌, arith}
use crypto_sentinel.Go.Float64.{Float64, is_nan, lt, le}

pub lt_asymm : (x y : Float64) → lt x y ≡ true → lt y x ≡ false
unfolding lt
lt_asymm x y p = ground arith

-- Without NaNs, not being smaller is transitive too.
pub not_lt_trans :
    (x y z : Float64) → is_nan y ≡ false → lt x y ≡ false → lt y z ≡ false → lt x z ≡ false
unfolding lt
not_lt_trans x y z n p q = ground arith

pub not_le-lt :
    (x y : Float64) → is_nan x ≡ false → is_nan y ≡ false → le x y ≡ false → lt y x ≡ true
unfolding lt le
not_le-lt x y m n p = ground arith
