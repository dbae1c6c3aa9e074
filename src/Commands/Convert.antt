-- ===== src/Commands/Convert.antt =====
-- internal/commands/convert.go
pub mod Laws
pub mod Rates
use crypto_sentinel.Prelude.{
  ℕ, Bool, true, false, not, ◌&&◌, ◌||◌, List, [], ◌∷◌, ◌++◌, Bytes, Result, ok, err, if◌then◌else◌,
}
use crypto_sentinel.Go.Runtime.{Runtime}
use crypto_sentinel.Go.Float64.{Float64, f_zero, le}
use crypto_sentinel.Go.Text.{text, to_lower, to_upper}
use crypto_sentinel.Go.Http.{Prog, done, ◌>>=◌}
use crypto_sentinel.Services.Format.{format_float}
use crypto_sentinel.Clients.Coingecko.Replies.{CoinJson}
use crypto_sentinel.Commands.Shared.{or_say, plainly}
use Rates.{PriceJson, is_fiat, resolve_asset, fetch_simple_price, fetch_usd_price}

module _ ⦃g : Runtime⦄ where
  abbrev crypto_text : Float64 → Bytes → Bytes → Float64 → Float64 → Bytes
  crypto_text amount from to from_usd to_usd =
      text "Conversion (crypto → crypto):\n"
      ++ g.fixed 8 amount
      ++ text " "
      ++ to_upper from
      ++ text " ≈ "
      ++ g.fixed 8 (g.div (g.mul amount from_usd) to_usd)
      ++ text " "
      ++ to_upper to
      ++ text "\n1 "
      ++ to_upper from
      ++ text " ≈ "
      ++ g.fixed 4 (g.div from_usd to_usd)
      ++ text " "
      ++ to_upper to
      ++ text "\n1 "
      ++ to_upper to
      ++ text " ≈ "
      ++ g.fixed 4 (g.div to_usd from_usd)
      ++ text " "
      ++ to_upper from
      ++ text "\nSource: CoinGecko"

  abbrev sell_text : Float64 → Bytes → Bytes → Float64 → Bytes
  sell_text amount from to price =
      text "Conversion (crypto → fiat):\n"
      ++ g.fixed 8 amount
      ++ text " "
      ++ to_upper from
      ++ text " ≈ "
      ++ format_float (g.mul amount price)
      ++ text " "
      ++ to_upper to
      ++ text "\nRate: 1 "
      ++ to_upper from
      ++ text " ≈ "
      ++ format_float price
      ++ text " "
      ++ to_upper to
      ++ text "\nSource: CoinGecko"

  abbrev buy_text : Float64 → Bytes → Bytes → Float64 → Bytes
  buy_text amount from to price =
      text "Conversion (fiat → crypto):\n"
      ++ format_float amount
      ++ text " "
      ++ to_upper from
      ++ text " ≈ "
      ++ g.fixed 8 (g.div amount price)
      ++ text " "
      ++ to_upper to
      ++ text "\nRate: 1 "
      ++ to_upper to
      ++ text " ≈ "
      ++ format_float price
      ++ text " "
      ++ to_upper from
      ++ text "\nSource: CoinGecko"

  -- The ends of the conversions, once the prices are there.
  abbrev crypto_result : Float64 → Bytes → Bytes → Float64 → Float64 → Bytes
  crypto_result amount from to from_usd to_usd =
      if le to_usd f_zero
      then text "Invalid reference price for " ++ to
      else crypto_text amount from to from_usd to_usd

  abbrev buy_result : Float64 → Bytes → Bytes → Float64 → Bytes
  buy_result amount from to price =
      if le price f_zero then text "Rate is zero or invalid." else buy_text amount from to price

  module _ ⦃c : CoinJson⦄ ⦃j : PriceJson⦄ where
    -- The requests, and their errors.
    abbrev pub asset_or_say : Bytes → (Bytes → Prog (Result Bytes)) → Prog (Result Bytes)
    asset_or_say sym f =
        resolve_asset (to_lower sym)
        >>= or_say plainly (text "Could not resolve asset '" ++ sym ++ text "': ") f

    abbrev pub usd_or_say : Bytes → Bytes → (Float64 → Prog (Result Bytes)) → Prog (Result Bytes)
    usd_or_say sym id f =
        fetch_usd_price id
        >>= or_say plainly (text "Failed to fetch USD price for " ++ sym ++ text ": ") f

    abbrev pub rate_or_say :
        Bytes → Bytes → Bytes → Bytes → (Float64 → Prog (Result Bytes)) → Prog (Result Bytes)
    rate_or_say from to id vs f =
        fetch_simple_price id vs
        >>= or_say plainly (text "Failed to fetch rate " ++ from ++ text "→" ++ to ++ text ": ") f

    unfoldable pub crypto_to_crypto : Float64 → Bytes → Bytes → Prog (Result Bytes)
    crypto_to_crypto amount from to = asset_or_say from λ from_id. asset_or_say to λ to_id.
        usd_or_say from from_id λ from_usd.
          usd_or_say to to_id λ to_usd. done (ok (crypto_result amount from to from_usd to_usd))

    unfoldable pub crypto_to_fiat : Float64 → Bytes → Bytes → Prog (Result Bytes)
    crypto_to_fiat amount from to = asset_or_say from λ from_id.
        rate_or_say from to from_id (to_lower to)
          λ price. done (ok (sell_text amount from to price))

    unfoldable pub fiat_to_crypto : Float64 → Bytes → Bytes → Prog (Result Bytes)
    fiat_to_crypto amount from to = asset_or_say to λ to_id.
        rate_or_say from to to_id (to_lower from)
          λ price. done (ok (buy_result amount from to price))

    -- The choice by what is fiat.
    unfoldable pub convert : Float64 → Bytes → Bytes → Prog (Result Bytes)
    unfolding crypto_to_crypto crypto_to_fiat fiat_to_crypto is_fiat
    convert amount from to =
        let from_is_fiat = is_fiat (to_lower from) in
        let to_is_fiat = is_fiat (to_lower to) in
        if not from_is_fiat && not to_is_fiat
        then crypto_to_crypto amount from to
        else if not from_is_fiat && to_is_fiat
        then crypto_to_fiat amount from to
        else if from_is_fiat && not to_is_fiat
        then fiat_to_crypto amount from to
        else done (
            ok (
              text "Fiat-to-fiat conversion is not supported in this version. "
              ++ text "Try converting via a crypto asset, e.g.: convert 100 usd btc"))

    abbrev convert_usage : Bytes
    convert_usage =
        text "Usage: convert [amount] [from] [to]\nExamples:\n  convert 0.5 btc usd\n"
        ++ text "  convert 1000 usd eth\n  convert 1 eth btc"

    unfoldable pub cmd_convert : List Bytes → Prog (Result Bytes)
    unfolding convert
    cmd_convert [] = done (ok convert_usage)
    cmd_convert (a ∷ []) = done (ok convert_usage)
    cmd_convert (a ∷ b ∷ []) = done (ok convert_usage)
    cmd_convert (amount_str ∷ from ∷ to ∷ args) =
        let amount = g.parse_float amount_str in
        if not amount.valid || le amount.value f_zero
        then done (ok (text "Invalid amount: " ++ amount_str))
        else convert amount.value from to
