-- ===== src/Commands/Requests/Conversions.antt =====
-- How many requests a conversion sends.
use crypto_sentinel.Prelude.{
  ℕ, ◌+◌, ◌||◌, not, ◌&&◌, List, [], ◌∷◌, ◌++◌, Bytes, Result, arith, if-elim, is_empty, refl,
}
use crypto_sentinel.Go.Runtime.{Runtime}
use crypto_sentinel.Go.Float64.{Float64, le, f_zero}
use crypto_sentinel.Go.Text.{text, to_lower, trim_space}
use crypto_sentinel.Go.Http.{Prog}
use crypto_sentinel.Commands.Requests.Services.{Asks, permitted, Asks-mono}
use crypto_sentinel.Clients.Coingecko.Replies.{CoinJson}
use crypto_sentinel.Commands.Shared.{plainly}
use crypto_sentinel.Commands.Convert.{
  cmd_convert, convert, crypto_to_crypto, crypto_to_fiat, fiat_to_crypto, asset_or_say, usd_or_say,
  rate_or_say,
}
use crypto_sentinel.Commands.Convert.Rates.{
  PriceJson, is_fiat, resolve_asset, fetch_simple_price, fetch_usd_price,
}
use crypto_sentinel.Commands.Requests.{or_say-Sends}

module _ ⦃g : Runtime⦄ where
  module _ ⦃c : CoinJson⦄ where
    module _ ⦃j : PriceJson⦄ where
      asset_or_say-Sends :
          (n : ℕ) (sym : Bytes) (f : Bytes → Prog (Result Bytes))
          → ((id : Bytes) → Asks n (f id))
          → Asks (1 + n) (asset_or_say sym f)
      unfolding resolve_asset permitted
      asset_or_say-Sends n sym f h =
          or_say-Sends plainly n 1 (text "Could not resolve asset '" ++ sym ++ text "': ") f
            (resolve_asset (to_lower sym))
            (if-elim (Asks 1) (is_empty (trim_space (to_lower sym))) _ _ tt (refl, λ r. tt)) h

      usd_or_say-Sends :
          (n : ℕ) (sym id : Bytes) (f : Float64 → Prog (Result Bytes))
          → ((v : Float64) → Asks n (f v))
          → Asks (1 + n) (usd_or_say sym id f)
      unfolding fetch_usd_price fetch_simple_price permitted
      usd_or_say-Sends n sym id f h =
          or_say-Sends plainly n 1 (text "Failed to fetch USD price for " ++ sym ++ text ": ") f
            (fetch_usd_price id) (refl, λ r. tt) h

      rate_or_say-Sends :
          (n : ℕ) (from to id vs : Bytes) (f : Float64 → Prog (Result Bytes))
          → ((v : Float64) → Asks n (f v))
          → Asks (1 + n) (rate_or_say from to id vs f)
      unfolding fetch_simple_price permitted
      rate_or_say-Sends n from to id vs f h =
          or_say-Sends plainly n 1
            (text "Failed to fetch rate " ++ from ++ text "→" ++ to ++ text ": ") f
            (fetch_simple_price id vs) (refl, λ r. tt) h

      crypto_to_crypto-Sends :
          (amount : Float64) (from to : Bytes) → Asks 4 (crypto_to_crypto amount from to)
      unfolding crypto_to_crypto
      crypto_to_crypto-Sends amount from to = asset_or_say-Sends 3 from _ λ from_id.
          asset_or_say-Sends 2 to _ λ to_id.
            usd_or_say-Sends 1 from from_id _ λ from_usd. usd_or_say-Sends 0 to to_id _ λ to_usd. tt

      crypto_to_fiat-Sends :
          (amount : Float64) (from to : Bytes) → Asks 2 (crypto_to_fiat amount from to)
      unfolding crypto_to_fiat
      crypto_to_fiat-Sends amount from to =
          asset_or_say-Sends 1 from _
            λ id. rate_or_say-Sends 0 from to id (to_lower to) _ λ price. tt

      fiat_to_crypto-Sends :
          (amount : Float64) (from to : Bytes) → Asks 2 (fiat_to_crypto amount from to)
      unfolding fiat_to_crypto
      fiat_to_crypto-Sends amount from to =
          asset_or_say-Sends 1 to _
            λ id. rate_or_say-Sends 0 from to id (to_lower from) _ λ price. tt

      convert-Sends : (amount : Float64) (from to : Bytes) → Asks 4 (convert amount from to)
      unfolding convert
      convert-Sends amount from to =
          let from_is_fiat = is_fiat (to_lower from) in
          let to_is_fiat = is_fiat (to_lower to) in
          if-elim (Asks 4) (not from_is_fiat && not to_is_fiat) _ _
            (crypto_to_crypto-Sends amount from to)
            (if-elim (Asks 4) (not from_is_fiat && to_is_fiat) _ _
              (Asks-mono 2 4 _ (omega arith) (crypto_to_fiat-Sends amount from to))
              (if-elim (Asks 4) (from_is_fiat && not to_is_fiat) _ _
                (Asks-mono 2 4 _ (omega arith) (fiat_to_crypto-Sends amount from to)) tt))

      pub cmd_convert-Sends : (args : List Bytes) → Asks 4 (cmd_convert args)
      unfolding cmd_convert
      cmd_convert-Sends [] = tt
      cmd_convert-Sends (a ∷ []) = tt
      cmd_convert-Sends (a ∷ b ∷ []) = tt
      cmd_convert-Sends (a ∷ from ∷ to ∷ args) =
          let amount = g.parse_float a in
          if-elim (Asks 4) (not amount.valid || le amount.value f_zero) _ _ tt
            (convert-Sends amount.value from to)
