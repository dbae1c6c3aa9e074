-- ===== src/Commands/Portfolio/Holdings.antt =====
-- The loop of internal/commands/portfolio.go over the items: the total, the totals of the chains,
-- and the tokens. Each result is a loop of its own here, over the items with a positive quote.
use crypto_sentinel.Prelude.{
  Bool, List, [], ◌∷◌, Option, none, some, Bytes, is_empty, filter_map, if◌then◌else◌,
}
use crypto_sentinel.Go.Runtime.{Runtime}
use crypto_sentinel.Go.Float64.{Float64, f_zero, le, gt}
use crypto_sentinel.Go.Text.{beq}

pub record Item : Type 0 where
  pub contract_name : Bytes
  pub contract_ticker_symbol : Bytes
  pub quote : Float64
  pub pretty_quote : Bytes
  pub chain_id : Bytes
  pub chain_name : Bytes
  pub chain_display_name : Bytes
  pub is_native_token : Bool

pub record TokenHolding : Type 0 where
  pub name : Bytes
  pub symbol : Bytes
  pub chain : Bytes
  pub quote : Float64
  pub pretty : Bytes
  pub is_native : Bool

-- An entry of `chainTotals`.
pub record ChainAgg : Type 0 where
  pub name : Bytes
  pub value : Float64

abbrev pub more_value : ChainAgg → ChainAgg → Bool
more_value a b = gt a.value b.value

abbrev pub more_quote : TokenHolding → TokenHolding → Bool
more_quote a b = gt a.quote b.quote

-- chainDisplay
abbrev pub chain_display : Item → Bytes
chain_display it =
    if is_empty it.chain_display_name
    then (if is_empty it.chain_name then it.chain_id else it.chain_name)
    else it.chain_display_name

-- A round of the loop; `none` is `continue`.
unfoldable pub holding : Item → Option TokenHolding
holding it =
    if le it.quote f_zero
    then none
    else some (record {
      name = if is_empty it.contract_name then it.contract_ticker_symbol else it.contract_name;
      symbol = it.contract_ticker_symbol;
      chain = chain_display it;
      quote = it.quote;
      pretty = it.pretty_quote;
      is_native = it.is_native_token;
    })

unfoldable pub token_holdings : List Item → List TokenHolding
unfolding holding
token_holdings items = filter_map holding items

module _ ⦃g : Runtime⦄ where
  unfoldable pub total_value : Float64 → List Item → Float64
  total_value total [] = total
  total_value total (it ∷ items) =
      total_value (if le it.quote f_zero then total else g.add total it.quote) items

  -- chainTotals[name] += quote, where a missing key counts as zero.
  unfoldable pub add_to_chain : Bytes → Float64 → List ChainAgg → List ChainAgg
  add_to_chain name quote [] = record { name = name; value = g.add f_zero quote } ∷ []
  add_to_chain name quote (c ∷ totals) =
      if beq c.name name
      then record c { value = g.add c.value quote } ∷ totals
      else c ∷ add_to_chain name quote totals

  unfoldable pub chain_totals : List Item → List ChainAgg → List ChainAgg
  unfolding add_to_chain
  chain_totals [] totals = totals
  chain_totals (it ∷ items) totals =
      chain_totals items
        (if le it.quote f_zero then totals else add_to_chain (chain_display it) it.quote totals)
