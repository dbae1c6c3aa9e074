-- ===== src/Models.antt =====
-- internal/models: the data that the packages share.
use crypto_sentinel.Prelude.{ℕ, Bool, Bytes}
use crypto_sentinel.Go.Float64.{Float64}

-- `added_at` is the time of the clock, as a number.
pub record PriceAlert : Type 0 where
  pub symbol : Bytes
  pub op : Bytes
  pub value : Float64
  pub added_at : ℕ
  pub triggered : Bool

pub record CoinMarket : Type 0 where
  pub id : Bytes
  pub symbol : Bytes
  pub name : Bytes
  pub current_price : Float64
  pub market_cap : Float64
  pub total_volume : Float64
  pub price_change_pct24h : Float64
  pub price_change_pct7d : Float64

pub record CexGainer : Type 0 where
  pub exchange : Bytes
  pub symbol : Bytes
  pub price : Float64
  pub change_pct : Float64
