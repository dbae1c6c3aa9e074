-- ===== src/Commands/LosersCex.antt =====
-- internal/commands/losers_cex.go
pub mod Laws
use crypto_sentinel.Prelude.{
  ℕ, suc, List, [], ◌∷◌, ◌++◌, Bytes, Result, ok, err, is_empty, if◌then◌else◌,
}
use crypto_sentinel.Go.Runtime.{Runtime}
use crypto_sentinel.Go.Text.{text, to_upper}
use crypto_sentinel.Go.Decimal.{format_uint}
use crypto_sentinel.Go.Sort.{Sorter}
use crypto_sentinel.Go.Http.{Prog}
use crypto_sentinel.Models.{CexGainer}
use crypto_sentinel.Services.Format.{format_float}
use crypto_sentinel.Clients.Wire.{CexJson}
use crypto_sentinel.Clients.Cex.Fetch.{supported_cex_list, fetch_cex_losers}
use crypto_sentinel.Commands.Shared.{limit_of}
use crypto_sentinel.Commands.Shared.Exchanges.{cex_loop}

module _ ⦃g : Runtime⦄ where
  abbrev loser_lines : ℕ → List CexGainer → Bytes
  loser_lines i [] = []
  loser_lines i (x ∷ xs) =
      format_uint (suc i)
      ++ text ") "
      ++ x.symbol
      ++ text " — $"
      ++ format_float x.price
      ++ text " | 24h: "
      ++ format_float x.change_pct
      ++ text "%\n"
      ++ loser_lines (suc i) xs

  abbrev pub losers_section : Bytes → Result (List CexGainer) → Bytes
  losers_section ex (err e) = text "\n[" ++ to_upper ex ++ text "] error: " ++ e ++ text "\n"
  losers_section ex (ok losers) =
      if is_empty losers
      then text "\n[" ++ to_upper ex ++ text "] no data\n"
      else text "\n[" ++ to_upper ex ++ text "]\n" ++ loser_lines 0 losers

  abbrev pub losers_header : ℕ → Bytes
  losers_header limit = text "Top losers per CEX (limit " ++ format_uint limit ++ text "):\n"

  module _ ⦃s : Sorter⦄ ⦃j : CexJson⦄ where
    unfoldable pub cmd_losers_cex : List Bytes → Prog (Result Bytes)
    unfolding cex_loop limit_of
    cmd_losers_cex args =
        let limit = limit_of 5 args in
        cex_loop (λ ex. fetch_cex_losers ex limit) losers_section supported_cex_list
          (losers_header limit)
