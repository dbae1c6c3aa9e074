-- ===== src/Examples/Fees.antt =====
-- The report of the command gas.
use crypto_sentinel.Prelude.{[], ◌∷◌, Bytes, ok}
use crypto_sentinel.Go.Float64.{float}
use crypto_sentinel.Go.Text.{text, to_lower}
use crypto_sentinel.Go.Http.Laws.{Returns}
use crypto_sentinel.Commands.Gas.{Speed, GasJson, cmd_gas}
use crypto_sentinel.Commands.Gas.Report.{IsGasReport, cmd_gas-IsGasReport}
use crypto_sentinel.Examples.Demo.{demo}

abbrev speed : Bytes → Speed
speed name = record {
  name = name;
  estimated = float 1;
  gas_price = float 9;
  unit = text "gwei";
  confidence = float 0;
}

instance abbrev two_speeds : GasJson
two_speeds = record {
  decode_speeds = λ body. ok (speed (text "Slow") ∷ speed (text "Fastest") ∷ []);
}

cmd_gas-IsGasReport_example :
    Returns (IsGasReport (to_lower (text "Eth"))) (cmd_gas (text "key") (text "Eth" ∷ []))
cmd_gas-IsGasReport_example = cmd_gas-IsGasReport (text "key") (text "Eth") []
