-- ===== src/Commands/Convert/Rates.antt =====
-- The helpers of internal/commands/convert.go: what is fiat, and the prices. `resolve_asset` is
-- `resolveCoinID`, the file's copy of the client's `ResolveCoinID`.
use crypto_sentinel.Prelude.{
  Bool, true, false, List, [], ◌∷◌, ◌++◌, Option, none, some, Bytes, Result, ok, err, ◌==◌,
  is_empty, if◌then◌else◌,
}
use crypto_sentinel.Go.Runtime.{Runtime}
use crypto_sentinel.Go.Float64.{Float64}
use crypto_sentinel.Go.Text.{text, beq, to_lower, trim_space}
use crypto_sentinel.Go.Decimal.{format_uint}
use crypto_sentinel.Go.Http.{Request, Response, failed, response, Prog, done, send}
use crypto_sentinel.Clients.Coingecko.{from_agent}
use crypto_sentinel.Clients.Coingecko.Replies.{SearchCoin, CoinJson}

-- m[id][vs] of the decoded maps: `none` is a missing key.
pub record PriceJson : Type 0 where
  pub decode_prices : Bytes → Result (Bytes → Option (Bytes → Option Float64))

abbrev fiat_codes : List Bytes
fiat_codes =
    text "usd"
    ∷ text "eur"
    ∷ text "idr"
    ∷ text "jpy"
    ∷ text "gbp"
    ∷ text "aud"
    ∷ text "cad"
    ∷ text "chf"
    ∷ text "cny"
    ∷ text "inr"
    ∷ text "sgd"
    ∷ text "myr"
    ∷ text "php"
    ∷ text "krw"
    ∷ text "brl"
    ∷ []

-- A switch whose only case has the values `codes`.
abbrev one_of : Bytes → List Bytes → Bool
one_of s [] = false
one_of s (c ∷ codes) = if beq s c then true else one_of s codes

module _ ⦃g : Runtime⦄ where
  unfoldable pub is_fiat : Bytes → Bool
  is_fiat code = one_of (to_lower code) fiat_codes

  abbrev match_symbol : Bytes → List SearchCoin → Bytes → Bytes
  match_symbol q [] otherwise = otherwise
  match_symbol q (c ∷ coins) otherwise =
      if beq (to_lower c.symbol) q then c.id else match_symbol q coins otherwise

  abbrev match_coin : Bytes → List SearchCoin → Result Bytes
  match_coin query [] = err (text "no match on CoinGecko")
  match_coin query (c ∷ coins) = ok (match_symbol (to_lower query) (c ∷ coins) c.id)

  abbrev pub asset_request : Bytes → Request
  asset_request query =
      from_agent (text "https://api.coingecko.com/api/v3/search?query=" ++ g.query_escape query)

  abbrev pub price_request : Bytes → Bytes → Request
  price_request id vs = from_agent (
      text "https://api.coingecko.com/api/v3/simple/price?ids="
      ++ g.query_escape id
      ++ text "&vs_currencies="
      ++ g.query_escape vs)

  module _ ⦃c : CoinJson⦄ where
    abbrev pub asset_reply : Bytes → Response → Result Bytes
    asset_reply query (failed e) = err e
    asset_reply query (response status body) =
        if status == 200
        then elim (c.decode_search body) [ err e ↦ err e | ok coins ↦ match_coin query coins ]
        else err (text "coingecko search status: " ++ format_uint status)

    unfoldable pub resolve_asset : Bytes → Prog (Result Bytes)
    resolve_asset symbol =
        let query = trim_space symbol in
        if is_empty query
        then done (err (text "empty symbol"))
        else send (asset_request query) λ r. done (asset_reply query r)

  module _ ⦃j : PriceJson⦄ where
    abbrev price_in : Bytes → Bytes → (Bytes → Option (Bytes → Option Float64)) → Result Float64
    price_in id vs m = elim (m id) [
      | none ↦ err (text "no price for id " ++ id)
      | some row ↦ elim (row vs) [
        | none ↦ err (text "no " ++ vs ++ text " price for id " ++ id)
        | some price ↦ ok price
      ]
    ]

    abbrev pub simple_price_reply : Bytes → Bytes → Response → Result Float64
    simple_price_reply id vs (failed e) = err e
    simple_price_reply id vs (response status body) =
        if status == 200
        then elim (j.decode_prices body) [ err e ↦ err e | ok m ↦ price_in id vs m ]
        else err (text "simple price status: " ++ format_uint status)

    unfoldable pub fetch_simple_price : Bytes → Bytes → Prog (Result Float64)
    fetch_simple_price id vs =
        let vs' = to_lower vs in send (price_request id vs') λ r. done (simple_price_reply id vs' r)

    unfoldable pub fetch_usd_price : Bytes → Prog (Result Float64)
    unfolding fetch_simple_price
    fetch_usd_price id = fetch_simple_price id (text "usd")
