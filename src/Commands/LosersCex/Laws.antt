-- ===== src/Commands/LosersCex/Laws.antt =====
-- The report of `losers_cex`.
use crypto_sentinel.Prelude.{List, Bytes}
use crypto_sentinel.Go.Runtime.{Runtime}
use crypto_sentinel.Go.Sort.{Sorter, IsSorter}
use crypto_sentinel.Go.Http.Laws.{Returns}
use crypto_sentinel.Clients.Wire.{CexJson}
use crypto_sentinel.Clients.Cex.Fetch.{supported_cex_list, fetch_cex_losers}
use crypto_sentinel.Go.Text.{to_lower}
use crypto_sentinel.Clients.Cex.Fetch.Replies.{AreLosers}
use crypto_sentinel.Clients.Cex.Fetch.Laws.{fetch_cex_losers-IsListing}
use crypto_sentinel.Commands.Shared.{limit_of}
use crypto_sentinel.Commands.Shared.Exchanges.{IsCexReport, cex_loop-IsCexReport}
use crypto_sentinel.Commands.LosersCex.{losers_section, losers_header, cmd_losers_cex}

module _ ⦃g : Runtime⦄ ⦃s : Sorter⦄ ⦃j : CexJson⦄ (laws : IsSorter s) where
  -- With a sort that keeps its contract, whatever is answered:
  -- `losers_cex` returns no error, and its report has a section for each of the supported
  -- exchanges, in their order. One that fails does not hide the others; a section that lists pairs
  -- ranks the pairs of a decoded reply of that exchange that do not stay or rise, as many as the
  -- limit allows, or all where there are fewer, the largest fall first, unless some change among
  -- them is NaN.
  cmd_losers_cex-IsCexReport :
      (args : List Bytes)
      → let limit = limit_of 5 args in
        Returns
          (IsCexReport
            (λ ex. AreLosers (to_lower ex) limit)
            losers_section
            supported_cex_list
            (losers_header limit))
          (cmd_losers_cex args)
  unfolding cmd_losers_cex
  cmd_losers_cex-IsCexReport args =
      cex_loop-IsCexReport _ losers_section (λ ex. fetch_cex_losers ex (limit_of 5 args))
        (λ ex. fetch_cex_losers-IsListing laws ex (limit_of 5 args)) supported_cex_list
        (losers_header (limit_of 5 args))
