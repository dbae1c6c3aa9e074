-- ===== src/Examples/Chats.antt =====
-- The commands and the router.
use crypto_sentinel.Prelude.{
  true, List, [], ◌∷◌, Bytes, ok, ◌≡◌, refl, all, not, subst, ok-injective,
}
use crypto_sentinel.Go.Float64.{float, is_nan}
use crypto_sentinel.Go.Text.{text}
use crypto_sentinel.Go.Sort.Insertion.{by_insertion, by_insertion-IsSorter}
use crypto_sentinel.Go.Http.Laws.{Returns}
use crypto_sentinel.Commands.Shared.{limit_of}
use crypto_sentinel.Commands.Movers.{Coin, MoversJson, coin_falls_more, cmd_gainers, cmd_losers}
use crypto_sentinel.Commands.Movers.Laws.{
  SendsCoins, IsReport, ShowsTop, ShowsGainers, cmd_losers-IsReport, cmd_gainers-IsReport,
}
use crypto_sentinel.Examples.Demo.{demo}
use crypto_sentinel.Examples.Exchanges.{demo_json}

abbrev two : List Bytes
two = text "2" ∷ []

abbrev coins : List Coin
coins =
    record { name = text "A"; symbol = text "a"; price = float 1; mcap = float 1; change = float 3 }
    ∷ record {
      name = text "B";
      symbol = text "b";
      price = float 1;
      mcap = float 1;
      change = float 2;
    }
    ∷ []

instance abbrev demo_movers : MoversJson
demo_movers = record { decode_coins = λ body. ok coins }

coins-numbers : all (λ c. not (is_nan c.change)) coins ≡ true
unfolding is_nan
coins-numbers = refl

demo-SendsCoins : SendsCoins demo_movers
demo-SendsCoins = record {
  coins = λ body arr e.
      subst (λ l. all (λ c. not (is_nan c.change)) l ≡ true) (ok-injective e) coins-numbers;
}

cmd_losers-IsReport_example :
    Returns (IsReport (ShowsTop coin_falls_more (text "losers") (limit_of 10 two))) (cmd_losers two)
cmd_losers-IsReport_example = cmd_losers-IsReport by_insertion-IsSorter demo-SendsCoins two

cmd_gainers-IsReport_example : Returns (IsReport (ShowsGainers (limit_of 10 two))) (cmd_gainers two)
cmd_gainers-IsReport_example = cmd_gainers-IsReport by_insertion-IsSorter demo-SendsCoins two
