-- ===== src/Clients/Cex/Ranking.antt =====
-- What the exchanges' clients of internal/clients/cex.go share: the request, the change of a price
-- in percent, and the end of each: sort by change and cut at the limit.
use crypto_sentinel.Prelude.{ℕ, Bool, List, [], Bytes, Result, ok, err, is_empty, if◌then◌else◌}
use crypto_sentinel.Go.Runtime.{Runtime}
use crypto_sentinel.Go.Float64.{Float64, f_hundred, lt, gt}
use crypto_sentinel.Go.Sort.{Sorter, limit_to}
use crypto_sentinel.Go.Http.{Request}
use crypto_sentinel.Models.{CexGainer}

-- http.NewRequestWithContext(ctx, http.MethodGet, url, nil), with no header set.
abbrev pub plain : Bytes → Request
plain u = record { url = u; headers = [] }

abbrev pub gainer : Bytes → Bytes → Float64 → Float64 → CexGainer
gainer exchange symbol price change = record {
  exchange = exchange;
  symbol = symbol;
  price = price;
  change_pct = change;
}

-- (last - open) / open * 100
abbrev pub change_of : ⦃g : Runtime⦄ → Float64 → Float64 → Float64
change_of ⦃g⦄ first last = g.mul (g.div (g.sub last first) first) f_hundred

-- list[i].ChangePct > list[j].ChangePct, and the other way round
abbrev pub rises_more : CexGainer → CexGainer → Bool
rises_more a b = gt a.change_pct b.change_pct

abbrev pub falls_more : CexGainer → CexGainer → Bool
falls_more a b = lt a.change_pct b.change_pct

module _ ⦃s : Sorter⦄ where
  -- sort.Slice(list, …); if len(list) > limit { list = list[:limit] }
  unfoldable pub top_gainers : ℕ → List CexGainer → List CexGainer
  top_gainers limit list = limit_to limit (s.sort_slice CexGainer rises_more list)

  unfoldable pub top_losers : ℕ → List CexGainer → List CexGainer
  top_losers limit list = limit_to limit (s.sort_slice CexGainer falls_more list)

-- if len(list) == 0 { return nil, fmt.Errorf(message) }
abbrev pub or_no_data :
    Bytes → (List CexGainer → List CexGainer) → List CexGainer → Result (List CexGainer)
or_no_data message rank list = if is_empty list then err message else ok (rank list)
