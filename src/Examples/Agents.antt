-- ===== src/Examples/Agents.antt =====
-- The agent and its checker.
use crypto_sentinel.Prelude.{ℕ, some, false, List, [], ◌∷◌, Bytes, Result, err, ◌≡◌, refl, arith}
use crypto_sentinel.Go.Float64.{float}
use crypto_sentinel.Go.Text.{text, beq}
use crypto_sentinel.Go.Sort.Insertion.{by_insertion}
use crypto_sentinel.Commands.Requests.Services.{Asks}
use crypto_sentinel.Models.{PriceAlert, CoinMarket}
use crypto_sentinel.Services.AlertService.{new_alert_service, supported_op}
use crypto_sentinel.Services.AlertService.Checker.{
  World, Quote, quoted, idle, Event, call_add, tick, run_events,
}
use crypto_sentinel.Services.AlertService.Checker.Invariant.{IsValid}
use crypto_sentinel.Services.AlertService.Checker.Rounds.{sweep}
use crypto_sentinel.Services.AlertService.Checker.Sweeping.{IsSwept, run_events-IsSwept}
use crypto_sentinel.Agent.{Environment, Decoders, process_task}
use crypto_sentinel.Agent.Requests.{process_task-Sends}
use crypto_sentinel.Examples.Demo.{demo, in_order, in_order-IsChance}

-- A library that decodes nothing.
abbrev refused : {A : Type 0} → Bytes → Result A
refused body = err body

abbrev pub decoders : Decoders
decoders = record {
  cex = record {
    decode_coinbase = refused;
    decode_tickers = refused;
    decode_okx = refused;
    decode_bybit = refused;
    decode_kucoin = refused;
    decode_bitget = refused;
  };
  coin = record { decode_search = refused; decode_markets = refused; decode_listings = refused };
  protocol = record { decode_protocol = refused };
  chains = record { decode_chains = refused };
  protocols = record { decode_protocols = refused };
  movers = record { decode_coins = refused };
  fear_greed = record { decode_index = refused };
  price = record { decode_prices = refused };
  gas = record { decode_speeds = refused };
  dex = record { decode_pairs = refused };
  balances = record { decode_balances = refused };
  news = record { decode_news = refused };
  chart = record { decode_chart = refused };
}

abbrev pub environment : Environment
environment = record {
  cmc_api_key = [];
  owlracle_api_key = text "key";
  newsdata_api_key = [];
  covalent_api_key = [];
}

abbrev added_first : List Event
added_first = call_add (text "btc") (text ">") (text "3") 0 ∷ tick ∷ []

process_task-Sends_example :
    Asks 24
      (process_task decoders environment 0 (text "gainers_compare 5 okx bybit") new_alert_service)
process_task-Sends_example =
    process_task-Sends in_order-IsChance decoders environment 0 (text "gainers_compare 5 okx bybit")
      new_alert_service

abbrev pub five_dollars : CoinMarket
five_dollars = record {
  id = text "bitcoin";
  symbol = text "btc";
  name = text "Bitcoin";
  current_price = float 5;
  market_cap = float 5;
  total_volume = float 5;
  price_change_pct24h = float 1;
  price_change_pct7d = float 1;
}

abbrev pub quote : ℕ → Quote
quote p = quoted five_dollars

abbrev pub first : PriceAlert
first = record {
  symbol = text "btc";
  op = text ">";
  value = float 3;
  added_at = 0;
  triggered = false;
}

abbrev pub one_alert : World
one_alert = record {
  service = record { heap = first ∷ []; alerts = 0 ∷ [] };
  phase = idle;
  log = [];
}

pub one_alert-IsValid : IsValid one_alert
unfolding supported_op text beq
one_alert-IsValid = record {
  listed = (omega arith, tt);
  rising = (tt, tt);
  checked = tt;
  sound = (refl, tt);
}

run_events-IsSwept_example :
    (w : World) × (run_events (tick ∷ sweep quote (0 ∷ [])) one_alert ≡ some w)
    × IsSwept quote one_alert w
run_events-IsSwept_example = run_events-IsSwept quote one_alert one_alert-IsValid refl
