-- ===== src/Commands/Requests/Exchanges.antt =====
-- How many requests the commands on the exchanges send.
use crypto_sentinel.Prelude.{
  ℕ, ◌+◌, ◌||◌, not, List, [], ◌∷◌, ◌++◌, Option, Bytes, Result, length, refl, ltb, ◌==◌, if-elim,
  Option-cases, inl, inr,
}
use crypto_sentinel.Prelude.Int.{pos, negsuc}
use crypto_sentinel.Go.Runtime.{Runtime}
use crypto_sentinel.Go.Sort.{Sorter}
use crypto_sentinel.Go.Text.{text, beq, to_lower}
use crypto_sentinel.Go.Decimal.{atoi}
use crypto_sentinel.Go.Http.Laws.{Sends}
use crypto_sentinel.Commands.Requests.Services.{Asks, permitted, Asks-bind}
use crypto_sentinel.Clients.Wire.{CoinbaseStats, CexJson}
use crypto_sentinel.Clients.Cex.Coinbase.{
  product_ids, fetch_coinbase_losers, fetch_coinbase_gainers, coinbase_loop, coinbase_gainer,
  coinbase_loser,
}
use crypto_sentinel.Clients.Cex.Ranking.{or_no_data, top_gainers, top_losers}
use crypto_sentinel.Clients.Cex.Binance.{fetch_binance_losers, fetch_binance_gainers}
use crypto_sentinel.Clients.Cex.Okx.{fetch_okx_losers, fetch_okx_gainers}
use crypto_sentinel.Clients.Cex.Bybit.{fetch_bybit_losers, fetch_bybit_gainers}
use crypto_sentinel.Clients.Cex.Mexc.{fetch_mexc_losers, fetch_mexc_gainers}
use crypto_sentinel.Clients.Cex.Kucoin.{fetch_kucoin_losers, fetch_kucoin_gainers}
use crypto_sentinel.Clients.Cex.Bitget.{fetch_bitget_losers, fetch_bitget_gainers}
use crypto_sentinel.Clients.Cex.Fetch.{
  supported_cex_list, fetch_cex_losers, fetch_cex_gainers, is_supported_cex,
}
use crypto_sentinel.Commands.GainersCex.{
  section, gainers_header, cmd_gainers_cex, cmd_gainers_compare,
}
use crypto_sentinel.Commands.Shared.Exchanges.{cex_loop}
use crypto_sentinel.Commands.LosersCex.{losers_section, losers_header, cmd_losers_cex}
use crypto_sentinel.Commands.Shared.{limit_of}
use crypto_sentinel.Models.{CexGainer}
use crypto_sentinel.Go.Http.{Prog}

-- Twelve requests to Coinbase, and one to each of the others.
abbrev bounds : List ℕ
bounds = 12 ∷ 1 ∷ 1 ∷ 1 ∷ 1 ∷ 1 ∷ 1 ∷ []

abbrev sum : List ℕ → ℕ
sum [] = 0
sum (n ∷ ns) = n + sum ns

module _ {A : Type 0} (fetch : Bytes → Prog A) (section : Bytes → A → Bytes) where
  abbrev Fits : List Bytes → List ℕ → Type 0
  Fits (ex ∷ exs) (n ∷ ns) = Asks n (fetch ex) × Fits exs ns
  Fits [] [] = Unit
  Fits _ _ = ⊥

  cex_loop-Sends :
      (exs : List Bytes) (ns : List ℕ) (out : Bytes)
      → Fits exs ns
      → Asks (sum ns) (cex_loop fetch section exs out)
  unfolding cex_loop
  cex_loop-Sends [] [] out h = tt
  cex_loop-Sends [] (n ∷ ns) out h = elim h [ ]
  cex_loop-Sends (ex ∷ exs) [] out h = elim h [ ]
  cex_loop-Sends (ex ∷ exs) (n ∷ ns) out (h, hs) =
      Asks-bind (sum ns) n (fetch ex) _ h λ r. cex_loop-Sends exs ns (out ++ section ex r) hs

module _ ⦃g : Runtime⦄ where
  module _ ⦃j : CexJson⦄ where
    coinbase_loop-Sends :
        (row : Bytes → CoinbaseStats → Option CexGainer) (pids : List Bytes) (list : List CexGainer)
        (finish : List CexGainer → Result (List CexGainer))
        → Asks (length pids) (coinbase_loop row pids list finish)
    unfolding coinbase_loop permitted
    coinbase_loop-Sends row [] list finish = tt
    coinbase_loop-Sends row (pid ∷ pids) list finish =
        (refl, λ r. coinbase_loop-Sends row pids _ finish)

  module _ ⦃s : Sorter⦄ ⦃j : CexJson⦄ where
    fetch_coinbase_gainers-Sends : (limit : ℕ) → Asks 12 (fetch_coinbase_gainers limit)
    unfolding fetch_coinbase_gainers
    fetch_coinbase_gainers-Sends limit =
        coinbase_loop-Sends coinbase_gainer product_ids []
          (or_no_data (text "no coinbase data") (top_gainers limit))

    fetch_coinbase_losers-Sends : (limit : ℕ) → Asks 12 (fetch_coinbase_losers limit)
    unfolding fetch_coinbase_losers
    fetch_coinbase_losers-Sends limit =
        coinbase_loop-Sends coinbase_loser product_ids []
          (or_no_data (text "no coinbase losers data") (top_losers limit))

    fetch_cex_gainers-Sends : (cex : Bytes) (limit : ℕ) → Asks 12 (fetch_cex_gainers cex limit)
    unfolding fetch_cex_gainers fetch_binance_gainers fetch_okx_gainers fetch_bybit_gainers
        fetch_mexc_gainers fetch_kucoin_gainers fetch_bitget_gainers permitted
    fetch_cex_gainers-Sends cex limit =
        let n = to_lower cex in
        if-elim (Asks 12) (beq n (text "coinbase")) _ _ (fetch_coinbase_gainers-Sends limit) (
          if-elim (Asks 12) (beq n (text "binance")) _ _ (refl, λ r. tt)
            (if-elim (Asks 12) (beq n (text "okx")) _ _ (refl, λ r. tt)
              (if-elim (Asks 12) (beq n (text "bybit")) _ _ (refl, λ r. tt)
                (if-elim (Asks 12) (beq n (text "mexc")) _ _ (refl, λ r. tt)
                  (if-elim (Asks 12) (beq n (text "kucoin")) _ _ (refl, λ r. tt)
                    (if-elim (Asks 12) (beq n (text "bitget")) _ _ (refl, λ r. tt) tt))))))

    pub cmd_gainers_compare-Sends : (args : List Bytes) → Asks 24 (cmd_gainers_compare args)
    unfolding cmd_gainers_compare
    cmd_gainers_compare-Sends [] = tt
    cmd_gainers_compare-Sends (a ∷ []) = tt
    cmd_gainers_compare-Sends (a ∷ b ∷ []) = tt
    cmd_gainers_compare-Sends (a ∷ b ∷ c ∷ args) = elim (Option-cases (atoi a)) [
      | inl bad ↦ rw (bad, Sends) tt
      | inr (negsuc n, e) ↦ rw (e, Sends) tt
      | inr (pos limit, e) ↦
          rw (e, Sends)
            (if-elim (Asks 24) (limit == 0 || ltb 50 limit) _ _ tt (
              if-elim (Asks 24)
                (not (is_supported_cex (to_lower b)) || not (is_supported_cex (to_lower c))) _ _ tt
                (Asks-bind 12 12 (fetch_cex_gainers (to_lower b) limit) _
                  (fetch_cex_gainers-Sends (to_lower b) limit)
                  λ r1.
                    Asks-bind 0 12 (fetch_cex_gainers (to_lower c) limit) _
                      (fetch_cex_gainers-Sends (to_lower c) limit) λ r2. tt)))
    ]

    gainers-Fits :
        (limit : ℕ) → Fits (λ ex. fetch_cex_gainers ex limit) section supported_cex_list bounds
    unfolding fetch_cex_gainers supported_cex_list to_lower text beq fetch_binance_gainers
        fetch_okx_gainers fetch_bybit_gainers fetch_mexc_gainers fetch_kucoin_gainers
        fetch_bitget_gainers permitted
    gainers-Fits limit = (
      fetch_coinbase_gainers-Sends limit,
      (
        (refl, λ r. tt),
        (
          (refl, λ r. tt),
          ((refl, λ r. tt), ((refl, λ r. tt), ((refl, λ r. tt), ((refl, λ r. tt), tt)))),
        ),
      ),
    )

    pub cmd_gainers_cex-Sends : (args : List Bytes) → Asks 18 (cmd_gainers_cex args)
    unfolding cmd_gainers_cex
    cmd_gainers_cex-Sends args =
        cex_loop-Sends (λ ex. fetch_cex_gainers ex (limit_of 5 args)) section supported_cex_list
          bounds (gainers_header (limit_of 5 args)) (gainers-Fits (limit_of 5 args))

    losers-Fits :
        (limit : ℕ)
        → Fits (λ ex. fetch_cex_losers ex limit) losers_section supported_cex_list bounds
    unfolding fetch_cex_losers supported_cex_list to_lower text beq fetch_binance_losers
        fetch_okx_losers fetch_bybit_losers fetch_mexc_losers fetch_kucoin_losers
        fetch_bitget_losers permitted
    losers-Fits limit = (
      fetch_coinbase_losers-Sends limit,
      (
        (refl, λ r. tt),
        (
          (refl, λ r. tt),
          ((refl, λ r. tt), ((refl, λ r. tt), ((refl, λ r. tt), ((refl, λ r. tt), tt)))),
        ),
      ),
    )

    pub cmd_losers_cex-Sends : (args : List Bytes) → Asks 18 (cmd_losers_cex args)
    unfolding cmd_losers_cex
    cmd_losers_cex-Sends args =
        cex_loop-Sends (λ ex. fetch_cex_losers ex (limit_of 5 args)) losers_section
          supported_cex_list bounds (losers_header (limit_of 5 args))
          (losers-Fits (limit_of 5 args))
