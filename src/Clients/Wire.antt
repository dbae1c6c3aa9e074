-- ===== src/Clients/Wire.antt =====
-- The response bodies that internal/clients decodes, and `encoding/json`, which decodes them: an
-- argument of the functions that use it. Fields that the code never reads are left out.
use crypto_sentinel.Prelude.{List, Bytes, Result}

-- Binance and MEXC
pub record TickerRow : Type 0 where
  pub symbol : Bytes
  pub last_price : Bytes
  pub price_change_percent : Bytes

pub record OkxRow : Type 0 where
  pub inst_id : Bytes
  pub last : Bytes
  pub open24 : Bytes

pub record BybitRow : Type 0 where
  pub symbol : Bytes
  pub last_price : Bytes
  pub price24h_pcnt : Bytes

pub record KucoinRow : Type 0 where
  pub symbol : Bytes
  pub last : Bytes
  pub change_pt : Bytes

pub record BitgetRow : Type 0 where
  pub symbol : Bytes
  pub open_price : Bytes
  pub last_pr : Bytes

pub record BitgetReply : Type 0 where
  pub code : Bytes
  pub msg : Bytes
  pub rows : List BitgetRow

pub record CoinbaseStats : Type 0 where
  pub open_price : Bytes
  pub last : Bytes

-- json.NewDecoder(resp.Body).Decode(&v) at the types that the exchanges' clients decode into.
pub record CexJson : Type 0 where
  pub decode_coinbase : Bytes → Result CoinbaseStats
  pub decode_tickers : Bytes → Result (List TickerRow)
  pub decode_okx : Bytes → Result (List OkxRow)
  pub decode_bybit : Bytes → Result (List BybitRow)
  pub decode_kucoin : Bytes → Result (List KucoinRow)
  pub decode_bitget : Bytes → Result BitgetReply
