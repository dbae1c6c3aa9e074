-- ===== src/Clients/Cex/Fetch/Feeds.antt =====
-- What the exchanges list: the pairs of a reply, said without the clients' loops.
use crypto_sentinel.Prelude.{
  Bool, true, false, not, ◌&&◌, List, [], ◌∷◌, Bytes, ok, map, filter, ◌≡◌,
}
use crypto_sentinel.Go.Runtime.{Runtime}
use crypto_sentinel.Go.Float64.{is_nan, f_zero, f_hundred, le, ge}
use crypto_sentinel.Go.Text.{text, has_suffix, contains}
use crypto_sentinel.Go.Http.{Response, response}
use crypto_sentinel.Models.{CexGainer}
use crypto_sentinel.Clients.Wire.{
  TickerRow, OkxRow, BybitRow, KucoinRow, BitgetRow, BitgetReply, CoinbaseStats, CexJson,
}
use crypto_sentinel.Clients.Cex.Ranking.{gainer, change_of}
use crypto_sentinel.Clients.Cex.Coinbase.{product_ids}

module _ ⦃g : Runtime⦄ where
  -- A row that is read: its price is in dollars, and its numbers are there. A price at the start of
  -- the day, where the change is computed from it, is above zero.
  abbrev pub is_ticker : TickerRow → Bool
  is_ticker t =
      has_suffix t.symbol (text "USDT")
      && ((g.parse_float t.last_price).valid && (g.parse_float t.price_change_percent).valid)

  abbrev pub is_okx : OkxRow → Bool
  is_okx t =
      has_suffix t.inst_id (text "-USDT")
      && ((g.parse_float t.last).valid
          && ((g.parse_float t.open24).valid && not (le (g.parse_float t.open24).value f_zero)))

  abbrev pub is_bybit : BybitRow → Bool
  is_bybit t =
      has_suffix t.symbol (text "USDT")
      && ((g.parse_float t.last_price).valid && (g.parse_float t.price24h_pcnt).valid)

  -- Among the gainers of KuCoin the numbers need not be there.
  abbrev pub has_dollars : KucoinRow → Bool
  has_dollars t = contains t.symbol (text "-USDT")

  abbrev pub is_kucoin : KucoinRow → Bool
  is_kucoin t = has_dollars t && ((g.parse_float t.last).valid && (g.parse_float t.change_pt).valid)

  abbrev pub is_bitget : BitgetRow → Bool
  is_bitget t =
      has_suffix t.symbol (text "USDT")
      && ((g.parse_float t.last_pr).valid
          && ((g.parse_float t.open_price).valid
              && (not (le (g.parse_float t.open_price).value f_zero)
                  && not (is_nan (g.parse_float t.open_price).value))))

  abbrev pub is_coinbase : CoinbaseStats → Bool
  is_coinbase t =
      (g.parse_float t.last).valid
      && ((g.parse_float t.open_price).valid && not (le (g.parse_float t.open_price).value f_zero))

  -- The pair that a row tells of.
  abbrev pub ticker_pair : Bytes → TickerRow → CexGainer
  ticker_pair exchange t =
      gainer exchange t.symbol (g.parse_float t.last_price).value
        (g.parse_float t.price_change_percent).value

  abbrev pub okx_pair : OkxRow → CexGainer
  okx_pair t =
      gainer (text "okx") t.inst_id (g.parse_float t.last).value
        (change_of (g.parse_float t.open24).value (g.parse_float t.last).value)

  abbrev pub bybit_pair : BybitRow → CexGainer
  bybit_pair t =
      gainer (text "bybit") t.symbol (g.parse_float t.last_price).value
        (g.mul (g.parse_float t.price24h_pcnt).value f_hundred)

  abbrev pub kucoin_pair : KucoinRow → CexGainer
  kucoin_pair t =
      gainer (text "kucoin") t.symbol (g.parse_float t.last).value
        (g.mul (g.parse_float t.change_pt).value f_hundred)

  abbrev pub bitget_pair : BitgetRow → CexGainer
  bitget_pair t =
      gainer (text "bitget") t.symbol (g.parse_float t.last_pr).value
        (change_of (g.parse_float t.open_price).value (g.parse_float t.last_pr).value)

  abbrev pub coinbase_pair : Bytes → CoinbaseStats → CexGainer
  coinbase_pair pid t =
      gainer (text "coinbase") pid (g.parse_float t.last).value
        (change_of (g.parse_float t.open_price).value (g.parse_float t.last).value)

-- A gainer may have any change; a loser's is not zero or above.
abbrev pub any_change : CexGainer → Bool
any_change x = true

abbrev pub falls : CexGainer → Bool
falls x = not (ge x.change_pct f_zero)

-- `keep` tells which changes are listed, and `kucoin` which rows of KuCoin are read.
module _ ⦃g : Runtime⦄ ⦃j : CexJson⦄ (kucoin : KucoinRow → Bool) (keep : CexGainer → Bool) where
  -- The pairs of the rows that are read, in their order.
  abbrev pub pairs : {R : Type 0} → (R → Bool) → (R → CexGainer) → List R → List CexGainer
  pairs is_read pair rows = map pair (filter (λ t. is_read t && keep (pair t)) rows)

  -- The reply for a product holds `st`.
  abbrev pub HasStats : Response → CoinbaseStats → Type 0
  HasStats r st = (body : Bytes) × (r ≡ response 200 body) × (j.decode_coinbase body ≡ ok st)

  -- The pairs of the products of Coinbase, which are asked for one by one.
  pub data AreProducts : List Bytes → List CexGainer → Type 0 where
    no_product : AreProducts [] []
    listed :
        (pid : Bytes) (pids : List Bytes) (r : Response) (st : CoinbaseStats)
        (list : List CexGainer)
        → HasStats r st
        → (is_coinbase st && keep (coinbase_pair pid st)) ≡ true
        → AreProducts pids list
        → AreProducts (pid ∷ pids) (coinbase_pair pid st ∷ list)
    unread :
        (pid : Bytes) (pids : List Bytes) (r : Response) (st : CoinbaseStats)
        (list : List CexGainer)
        → HasStats r st
        → (is_coinbase st && keep (coinbase_pair pid st)) ≡ false
        → AreProducts pids list
        → AreProducts (pid ∷ pids) list
    unanswered :
        (pid : Bytes) (pids : List Bytes) (r : Response) (list : List CexGainer)
        → ((st : CoinbaseStats) → HasStats r st → ⊥)
        → AreProducts pids list
        → AreProducts (pid ∷ pids) list

  -- All that the named exchange has to list.
  pub data AreCandidates : Bytes → List CexGainer → Type 0 where
    of_coinbase :
        (list : List CexGainer)
        → AreProducts product_ids list
        → AreCandidates (text "coinbase") list
    of_binance :
        (body : Bytes) (rows : List TickerRow)
        → j.decode_tickers body ≡ ok rows
        → AreCandidates (text "binance") (pairs is_ticker (ticker_pair (text "binance")) rows)
    of_okx :
        (body : Bytes) (rows : List OkxRow)
        → j.decode_okx body ≡ ok rows
        → AreCandidates (text "okx") (pairs is_okx okx_pair rows)
    of_bybit :
        (body : Bytes) (rows : List BybitRow)
        → j.decode_bybit body ≡ ok rows
        → AreCandidates (text "bybit") (pairs is_bybit bybit_pair rows)
    of_mexc :
        (body : Bytes) (rows : List TickerRow)
        → j.decode_tickers body ≡ ok rows
        → AreCandidates (text "mexc") (pairs is_ticker (ticker_pair (text "mexc")) rows)
    of_kucoin :
        (body : Bytes) (rows : List KucoinRow)
        → j.decode_kucoin body ≡ ok rows
        → AreCandidates (text "kucoin") (pairs kucoin kucoin_pair rows)
    of_bitget :
        (body : Bytes) (reply : BitgetReply)
        → j.decode_bitget body ≡ ok reply
        → reply.code ≡ text "00000"
        → AreCandidates (text "bitget") (pairs is_bitget bitget_pair reply.rows)
