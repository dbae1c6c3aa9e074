-- ===== src/Examples/Wallets.antt =====
-- The report on a wallet, with floats whose sums are those of their bits up to infinity.
use crypto_sentinel.Prelude.{
  ℕ, ◌+◌, ◌%◌, ◌^◌, true, false, [], ◌∷◌, none, Bytes, ok, ok-injective, subst, all, ◌≡◌, refl,
  arith, min,
}
use crypto_sentinel.Go.Runtime.{Runtime}
use crypto_sentinel.Go.Float64.{Float64, float, f_zero, lt, le, is_nan, key}
use crypto_sentinel.Go.Text.{text, trim_space}
use crypto_sentinel.Go.Sort.Insertion.{by_insertion, by_insertion-IsSorter}
use crypto_sentinel.Go.Http.Laws.{Returns}
use crypto_sentinel.Commands.Portfolio.{BalancesJson, cmd_portfolio}
use crypto_sentinel.Commands.Portfolio.Holdings.{Item}
use crypto_sentinel.Commands.Portfolio.Sums.{Adds, numbered}
use crypto_sentinel.Commands.Portfolio.Snapshot.{
  SendsBalances, IsPortfolioReport, cmd_portfolio-IsPortfolioReport,
}
use crypto_sentinel.Examples.Demo
use crypto_sentinel.Examples.Demo.{in_order, in_order-IsChance}

instance abbrev adding : Runtime
adding = record Demo.demo {
  add = λ x y. float (min (x.bits % 2 ^ 63 + y.bits % 2 ^ 63) 0x7FF0000000000000);
}

adding-positive :
    (x y : Float64) → le f_zero x ≡ true → lt f_zero y ≡ true → lt f_zero (adding.add x y) ≡ true
unfolding lt le is_nan key
adding-positive x y h k = ground (arith, h, k)

adding-Adds : Adds adding
adding-Adds = record { positive = adding-positive }

abbrev token : ℕ → Bytes → Item
token quote chain = record {
  contract_name = text "Token";
  contract_ticker_symbol = text "tok";
  quote = float quote;
  pretty_quote = [];
  chain_id = text "1";
  chain_name = chain;
  chain_display_name = [];
  is_native_token = false;
}

abbrev one_wallet : BalancesJson
one_wallet = record {
  decode_balances = λ body. ok (record {
    quote_currency = [];
    items = token 3 (text "eth") ∷ token 0 (text "eth") ∷ token 5 (text "base") ∷ [];
    failed_with = false;
    error_message = none;
  });
}

one_wallet-SendsBalances : SendsBalances one_wallet
unfolding is_nan
one_wallet-SendsBalances = record {
  numbers = λ body d e. subst (λ b. all numbered b.items ≡ true) (ok-injective e) refl;
}

cmd_portfolio-IsPortfolioReport_example :
    Returns
      (IsPortfolioReport ⦃j = one_wallet⦄ (trim_space (text "0xAB")))
      (cmd_portfolio ⦃j = one_wallet⦄ (text "key") (text "0xAB" ∷ []))
cmd_portfolio-IsPortfolioReport_example =
    cmd_portfolio-IsPortfolioReport adding-Adds by_insertion-IsSorter in_order-IsChance
      ⦃j = one_wallet⦄ one_wallet-SendsBalances (text "key") (text "0xAB") []
