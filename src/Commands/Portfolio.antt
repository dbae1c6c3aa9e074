-- ===== src/Commands/Portfolio.antt =====
-- internal/commands/portfolio.go; `key` is the variable COVALENT_API_KEY.
pub mod Holdings
pub mod Laws
pub mod Snapshot
pub mod Sums
use crypto_sentinel.Prelude.{
  ℕ, suc, Bool, ◌||◌, List, [], ◌∷◌, ◌++◌, Option, none, some, Bytes, Result, ok, err, ◌==◌, length,
  slice_to, ltb, is_empty, if◌then◌else◌,
}
use crypto_sentinel.Go.Runtime.{Runtime}
use crypto_sentinel.Go.Float64.{Float64, f_zero, eq, gt}
use crypto_sentinel.Go.Text.{text, join, trim_space, to_upper}
use crypto_sentinel.Go.Decimal.{format_uint}
use crypto_sentinel.Go.Sort.{Sorter}
use crypto_sentinel.Go.Chance.{Chance}
use crypto_sentinel.Go.Http.{Request, Response, failed, response, Prog, done, send}
use crypto_sentinel.Commands.Shared.{replied}
use Holdings.{
  Item, TokenHolding, ChainAgg, total_value, chain_totals, token_holdings, more_quote, more_value,
}

-- The reply, without the fields that are never read; `error_message` is a pointer.
pub record BalancesReply : Type 0 where
  pub quote_currency : Bytes
  pub items : List Item
  pub failed_with : Bool
  pub error_message : Option Bytes

pub record BalancesJson : Type 0 where
  pub decode_balances : Bytes → Result BalancesReply

abbrev message_or : Option Bytes → Bytes
message_or none = text "unknown error"
message_or (some m) = m

-- maxTokens
abbrev max_tokens : List TokenHolding → ℕ
max_tokens tokens = if ltb (length tokens) 5 then length tokens else 5

module _ ⦃g : Runtime⦄ where
  abbrev chain_lines : List ChainAgg → Bytes
  chain_lines [] = []
  chain_lines (c ∷ chains) =
      text "• " ++ c.name ++ text " — $" ++ g.fixed 2 c.value ++ text "\n" ++ chain_lines chains

  abbrev native_mark : Bool → Bytes
  native_mark b = if b then text " (native)" else []

  abbrev holding_label : TokenHolding → Bytes
  holding_label t = if is_empty t.pretty then text "$" ++ g.fixed 2 t.quote else t.pretty

  abbrev token_lines : ℕ → List TokenHolding → Bytes
  token_lines i [] = []
  token_lines i (t ∷ tokens) =
      format_uint (suc i)
      ++ text ") "
      ++ t.name
      ++ text " ("
      ++ to_upper t.symbol
      ++ text ") on "
      ++ t.chain
      ++ native_mark t.is_native
      ++ text " — "
      ++ holding_label t
      ++ text "\n"
      ++ token_lines (suc i) tokens

  abbrev chain_names : List ChainAgg → List Bytes
  chain_names [] = []
  chain_names (c ∷ chains) = c.name ∷ chain_names chains

  -- The two parts on the chains, which are left out if there are none.
  abbrev chains_head : List ChainAgg → Bytes
  chains_head [] = []
  chains_head (c ∷ cs) = text "Chains: " ++ join (chain_names (c ∷ cs)) (text ", ") ++ text "\n"

  abbrev chains_part : List ChainAgg → Bytes
  chains_part [] = []
  chains_part (c ∷ cs) = text "Per chain:\n" ++ chain_lines (c ∷ cs) ++ text "\n"

  -- The report on the chains, and on the tokens that are shown, in their order.
  abbrev snapshot_text : Bytes → Bytes → Float64 → List ChainAgg → List TokenHolding → Bytes
  snapshot_text address currency total chains tokens =
      text "📊 Portfolio snapshot\nAddress: `"
      ++ address
      ++ text "`\n"
      ++ chains_head chains
      ++ text "Quote: "
      ++ to_upper currency
      ++ text "\n\nTotal value (approx.): $"
      ++ g.fixed 2 total
      ++ text "\n\n"
      ++ chains_part chains
      ++ text "Top holdings:\n"
      ++ token_lines 0 tokens
      ++ text "\nSource: Covalent allchains balances API"

  abbrev no_holdings : Bytes → Bytes
  no_holdings address =
      text "No portfolio data found for address " ++ address ++ text " on the scanned chains."

  -- The URL with its query, by the names in their order; `chains` is left out if it is empty.
  abbrev balances_url : Bytes → Bytes → Bytes
  balances_url address chains =
      text "https://api.covalenthq.com/v1/allchains/address/"
      ++ g.path_escape address
      ++ text "/balances/?"
      ++ (if is_empty chains then [] else text "chains=" ++ g.query_escape chains ++ text "&")
      ++ text "quote-currency=USD"

  abbrev chains_arg : List Bytes → Bytes
  chains_arg [] = []
  chains_arg (arg ∷ args) = trim_space arg

  module _ ⦃s : Sorter⦄ ⦃c : Chance⦄ where
    -- `chainTotals` is a map: its entries come in any order before they are sorted.
    abbrev sorted_chains : List Item → List ChainAgg
    sorted_chains items =
        s.sort_slice ChainAgg more_value (c.reorder ChainAgg (chain_totals items []))

    -- t := tokens[i], for the indices below `maxTokens`; `none` is an index out of range.
    abbrev pub tokens_text : Bytes → Bytes → List Item → List TokenHolding → Option Bytes
    tokens_text address currency items tokens = elim (slice_to (max_tokens tokens) tokens) [
      | none ↦ none
      | some shown ↦
          some
            (snapshot_text address currency (total_value f_zero items) (sorted_chains items) shown)
    ]

    abbrev pub items_text : Bytes → Bytes → List Item → Option Bytes
    items_text address currency items =
        let tokens = token_holdings items in
        if eq (total_value f_zero items) f_zero || is_empty tokens
        then some (no_holdings address)
        else tokens_text address (if is_empty currency then text "USD" else currency) items
            (s.sort_slice TokenHolding more_quote tokens)

    abbrev balances_text : Bytes → BalancesReply → Option Bytes
    balances_text address d =
        if d.failed_with
        then some (text "❌ Covalent error: " ++ message_or d.error_message)
        else if is_empty d.items
        then some (no_holdings address)
        else items_text address d.quote_currency d.items

    module _ ⦃j : BalancesJson⦄ where
      abbrev portfolio_reply : Bytes → Response → Option (Result Bytes)
      portfolio_reply address (failed e) = some (err (text "portfolio API error: " ++ e))
      portfolio_reply address (response status body) =
          if status == 200
          then elim (j.decode_balances body) [
            | err e ↦ some (err (text "decode portfolio JSON error: " ++ e))
            | ok d ↦ replied (balances_text address d)
          ]
          else some (ok (text "❌ Error: Covalent status " ++ format_uint status))

      abbrev balances_request : Bytes → Bytes → Request
      balances_request key u = record {
        url = u;
        headers =
            (text "User-Agent", text "CryptoSentinelAI/1.0")
            ∷ (text "Authorization", text "Bearer " ++ key)
            ∷ [];
      }

      abbrev portfolio_of : Bytes → Bytes → List Bytes → Prog (Option (Result Bytes))
      portfolio_of key address args =
          let u = balances_url address (chains_arg args) in
          if is_empty address
          then done
              (some (ok (text "Wallet address is required.\nExample: portfolio 0x1234...abcd")))
          else if is_empty key
          then done (some (err (text "missing COVALENT_API_KEY in environment")))
          else elim (g.request_error u) [
            | some e ↦ done (some (err e))
            | none ↦ send (balances_request key u) (λ r. done (portfolio_reply address r))
          ]

      unfoldable pub cmd_portfolio : Bytes → List Bytes → Prog (Option (Result Bytes))
      unfolding total_value chain_totals token_holdings
      cmd_portfolio key [] =
          done (some (ok (text "Usage: portfolio [address]\nExample: portfolio 0x1234...abcd")))
      cmd_portfolio key (arg ∷ args) = portfolio_of key (trim_space arg) args
