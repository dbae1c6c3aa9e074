-- ===== src/Commands/Convert/Laws.antt =====
-- What `convert` answers, whatever is answered to its requests.
use crypto_sentinel.Prelude.{
  true, false, ◌++◌, Bytes, Result, ok, err, ◌≡◌, inl, inr, ◌⊎◌, refl, Bool-cases, is_empty,
}
use crypto_sentinel.Go.Runtime.{Runtime}
use crypto_sentinel.Go.Float64.{Float64, f_zero, le}
use crypto_sentinel.Go.Text.{text, to_lower, trim_space}
use crypto_sentinel.Go.Http.{Request, Response, Prog, done, send, ◌>>=◌}
use crypto_sentinel.Go.Http.Answers.{ReturnsTo}
use crypto_sentinel.Clients.Coingecko.Replies.{CoinJson}
use crypto_sentinel.Commands.Shared.{or_say, plainly}
use crypto_sentinel.Commands.Convert.Rates.{
  PriceJson, is_fiat, asset_request, price_request, asset_reply, simple_price_reply,
  fetch_simple_price, fetch_usd_price, resolve_asset,
}
use crypto_sentinel.Commands.Convert.{
  crypto_text, sell_text, buy_text, crypto_result, buy_result, crypto_to_crypto, crypto_to_fiat,
  fiat_to_crypto, convert, asset_or_say, usd_or_say, rate_or_say,
}

-- `Answer` tells which response answers a request; it may be any relation.
module _ ⦃g : Runtime⦄ ⦃c : CoinJson⦄ ⦃j : PriceJson⦄ (Answer : Request → Response → Type 0) where
  -- What is asked about an asset: the symbol in lower case, trimmed.
  abbrev asset_query : Bytes → Bytes
  asset_query sym = trim_space (to_lower sym)

  -- `id` is that of the coin that the answer to the search for the asset gives.
  abbrev IsAsset : Bytes → Bytes → Type 0
  IsAsset sym id =
      (r : Response) × Answer (asset_request (asset_query sym)) r
      × (asset_reply (asset_query sym) r ≡ ok id)

  -- Why there is no such coin.
  abbrev IsNoAsset : Bytes → Bytes → Type 0
  IsNoAsset sym e =
      ((is_empty (asset_query sym) ≡ true) × (e ≡ text "empty symbol"))
      ⊎ ((r : Response) × Answer (asset_request (asset_query sym)) r
          × (asset_reply (asset_query sym) r ≡ err e))

  -- The price of a coin in a currency that the answer to the request for it gives.
  abbrev IsPriced : Bytes → Bytes → Float64 → Type 0
  IsPriced id vs price =
      (r : Response) × Answer (price_request id (to_lower vs)) r
      × (simple_price_reply id (to_lower vs) r ≡ ok price)

  abbrev IsNoPrice : Bytes → Bytes → Bytes → Type 0
  IsNoPrice id vs e =
      (r : Response) × Answer (price_request id (to_lower vs)) r
      × (simple_price_reply id (to_lower vs) r ≡ err e)

  -- The answers of a conversion.
  pub data IsConversion (amount : Float64) (from to t : Bytes) : Type 0 where
    unresolved :
        (sym e : Bytes)
        → (sym ≡ from) ⊎ (sym ≡ to)
        → IsNoAsset sym e
        → t ≡ (text "Could not resolve asset '" ++ sym ++ text "': ") ++ e
        → IsConversion amount from to t
    unpriced :
        (sym id e : Bytes)
        → (sym ≡ from) ⊎ (sym ≡ to)
        → IsAsset sym id
        → IsNoPrice id (text "usd") e
        → t ≡ (text "Failed to fetch USD price for " ++ sym ++ text ": ") ++ e
        → IsConversion amount from to t
    unrated :
        (sym vs id e : Bytes)
        → ((sym ≡ from) × (vs ≡ to)) ⊎ ((sym ≡ to) × (vs ≡ from))
        → IsAsset sym id
        → IsNoPrice id (to_lower vs) e
        → t ≡ (text "Failed to fetch rate " ++ from ++ text "→" ++ to ++ text ": ") ++ e
        → IsConversion amount from to t
    no_reference :
        (to_id : Bytes) (to_usd : Float64)
        → IsAsset to to_id
        → IsPriced to_id (text "usd") to_usd
        → le to_usd f_zero ≡ true
        → t ≡ text "Invalid reference price for " ++ to
        → IsConversion amount from to t
    no_rate :
        (id : Bytes) (price : Float64)
        → IsAsset to id
        → IsPriced id (to_lower from) price
        → le price f_zero ≡ true
        → t ≡ text "Rate is zero or invalid."
        → IsConversion amount from to t
    between_coins :
        (from_id to_id : Bytes) (from_usd to_usd : Float64)
        → (is_fiat (to_lower from) ≡ false) × (is_fiat (to_lower to) ≡ false)
        → IsAsset from from_id
        → IsAsset to to_id
        → IsPriced from_id (text "usd") from_usd
        → IsPriced to_id (text "usd") to_usd
        → le to_usd f_zero ≡ false
        → t ≡ crypto_text amount from to from_usd to_usd
        → IsConversion amount from to t
    sold :
        (id : Bytes) (price : Float64)
        → (is_fiat (to_lower from) ≡ false) × (is_fiat (to_lower to) ≡ true)
        → IsAsset from id
        → IsPriced id (to_lower to) price
        → t ≡ sell_text amount from to price
        → IsConversion amount from to t
    bought :
        (id : Bytes) (price : Float64)
        → (is_fiat (to_lower from) ≡ true) × (is_fiat (to_lower to) ≡ false)
        → IsAsset to id
        → IsPriced id (to_lower from) price
        → le price f_zero ≡ false
        → t ≡ buy_text amount from to price
        → IsConversion amount from to t
    fiat_only :
        (is_fiat (to_lower from) ≡ true) × (is_fiat (to_lower to) ≡ true)
        → t
          ≡ text "Fiat-to-fiat conversion is not supported in this version. "
            ++ text "Try converting via a crypto asset, e.g.: convert 100 usd btc"
        → IsConversion amount from to t

  -- Said without an error.
  abbrev Says : (Bytes → Type 0) → Result Bytes → Type 0
  Says P r = (t : Bytes) × (r ≡ ok t) × P t

  -- What a request brings, or why it brings nothing.
  abbrev Brings : {A : Type 0} → (A → Type 0) → (Bytes → Type 0) → Result A → Type 0
  Brings Q F (ok a) = Q a
  Brings Q F (err e) = F e

  brings :
      {A : Type 0} (Q : A → Type 0) (F : Bytes → Type 0) (r : Result A)
      → ((a : A) → r ≡ ok a → Q a)
      → ((e : Bytes) → r ≡ err e → F e)
      → Brings Q F r
  brings Q F (ok a) h k = h a refl
  brings Q F (err e) h k = k e refl

  or_say-Brings :
      {A : Type 0} (P : Result Bytes → Type 0) (Q : A → Type 0) (F : Bytes → Type 0)
      (message : Bytes) (f : A → Prog (Result Bytes)) (m : Prog (Result A))
      → ReturnsTo Answer (Brings Q F) m
      → ((e : Bytes) → F e → P (ok (message ++ e)))
      → ((a : A) → Q a → ReturnsTo Answer P (f a))
      → ReturnsTo Answer P (m >>= or_say plainly message f)
  or_say-Brings P Q F message f (done (ok a)) q h k = k a q
  or_say-Brings P Q F message f (done (err e)) q h k = h e q
  or_say-Brings P Q F message f (send u l) q h k =
      λ r answers. or_say-Brings P Q F message f (l r) (q r answers) h k

  resolve_asset-Brings :
      (sym : Bytes)
      → ReturnsTo Answer (Brings (IsAsset sym) (IsNoAsset sym)) (resolve_asset (to_lower sym))
  unfolding resolve_asset
  resolve_asset-Brings sym = elim (Bool-cases (is_empty (asset_query sym))) [
    | inl bare ↦ rw (bare, ReturnsTo) (inl (bare, refl))
    | inr named ↦
        rw (named, ReturnsTo)
          (λ r answers.
            brings (IsAsset sym) (IsNoAsset sym) (asset_reply (asset_query sym) r)
              (λ id e. (r, answers, e)) (λ x e. inr (r, answers, e)))
  ]

  fetch_simple_price-Brings :
      (id vs : Bytes)
      → ReturnsTo Answer (Brings (IsPriced id vs) (IsNoPrice id vs)) (fetch_simple_price id vs)
  unfolding fetch_simple_price
  fetch_simple_price-Brings id vs = λ r answers.
      brings (IsPriced id vs) (IsNoPrice id vs) (simple_price_reply id (to_lower vs) r)
        (λ v e. (r, answers, e)) (λ x e. (r, answers, e))

  module _ (amount : Float64) (from to : Bytes) where
    abbrev pub Answers : Result Bytes → Type 0
    Answers = Says (IsConversion amount from to)

    asset_or_say-Answers :
        (sym : Bytes) (f : Bytes → Prog (Result Bytes))
        → (sym ≡ from) ⊎ (sym ≡ to)
        → ((id : Bytes) → IsAsset sym id → ReturnsTo Answer Answers (f id))
        → ReturnsTo Answer Answers (asset_or_say sym f)
    asset_or_say-Answers sym f which k =
        or_say-Brings Answers (IsAsset sym) (IsNoAsset sym)
          (text "Could not resolve asset '" ++ sym ++ text "': ") f (resolve_asset (to_lower sym))
          (resolve_asset-Brings sym) (λ e why. (_, refl, unresolved sym e which why refl)) k

    usd_or_say-Answers :
        (sym id : Bytes) (f : Float64 → Prog (Result Bytes))
        → (sym ≡ from) ⊎ (sym ≡ to)
        → IsAsset sym id
        → ((v : Float64) → IsPriced id (text "usd") v → ReturnsTo Answer Answers (f v))
        → ReturnsTo Answer Answers (usd_or_say sym id f)
    unfolding fetch_usd_price
    usd_or_say-Answers sym id f which asset k =
        or_say-Brings Answers (IsPriced id (text "usd")) (IsNoPrice id (text "usd"))
          (text "Failed to fetch USD price for " ++ sym ++ text ": ") f (fetch_usd_price id)
          (fetch_simple_price-Brings id (text "usd"))
          (λ e why. (_, refl, unpriced sym id e which asset why refl)) k

    rate_or_say-Answers :
        (sym vs id : Bytes) (f : Float64 → Prog (Result Bytes))
        → ((sym ≡ from) × (vs ≡ to)) ⊎ ((sym ≡ to) × (vs ≡ from))
        → IsAsset sym id
        → ((v : Float64) → IsPriced id (to_lower vs) v → ReturnsTo Answer Answers (f v))
        → ReturnsTo Answer Answers (rate_or_say from to id (to_lower vs) f)
    rate_or_say-Answers sym vs id f which asset k =
        or_say-Brings Answers (IsPriced id (to_lower vs)) (IsNoPrice id (to_lower vs))
          (text "Failed to fetch rate " ++ from ++ text "→" ++ to ++ text ": ") f
          (fetch_simple_price id (to_lower vs)) (fetch_simple_price-Brings id (to_lower vs))
          (λ e why. (_, refl, unrated sym vs id e which asset why refl)) k

    crypto_to_crypto-Answers :
        (is_fiat (to_lower from) ≡ false) × (is_fiat (to_lower to) ≡ false)
        → ReturnsTo Answer Answers (crypto_to_crypto amount from to)
    unfolding crypto_to_crypto
    crypto_to_crypto-Answers kinds = asset_or_say-Answers from _ (inl refl) λ from_id a.
        asset_or_say-Answers to _ (inr refl) λ to_id b.
          usd_or_say-Answers from from_id _ (inl refl) a λ from_usd p.
            usd_or_say-Answers to to_id _ (inr refl) b λ to_usd q. (
              crypto_result amount from to from_usd to_usd,
              refl,
              (elim (Bool-cases (le to_usd f_zero)) [
                | inl bad ↦ rw bad (no_reference to_id to_usd b q bad refl)
                | inr good ↦
                    rw good (between_coins from_id to_id from_usd to_usd kinds a b p q good refl)
              ]),
            )

    crypto_to_fiat-Answers :
        (is_fiat (to_lower from) ≡ false) × (is_fiat (to_lower to) ≡ true)
        → ReturnsTo Answer Answers (crypto_to_fiat amount from to)
    unfolding crypto_to_fiat
    crypto_to_fiat-Answers kinds = asset_or_say-Answers from _ (inl refl) λ id a.
        rate_or_say-Answers from to id _ (inl (refl, refl)) a
          λ price p. (sell_text amount from to price, refl, sold id price kinds a p refl)

    fiat_to_crypto-Answers :
        (is_fiat (to_lower from) ≡ true) × (is_fiat (to_lower to) ≡ false)
        → ReturnsTo Answer Answers (fiat_to_crypto amount from to)
    unfolding fiat_to_crypto
    fiat_to_crypto-Answers kinds = asset_or_say-Answers to _ (inr refl) λ id b.
        rate_or_say-Answers to from id _ (inr (refl, refl)) b λ price p. (
          buy_result amount from to price,
          refl,
          (elim (Bool-cases (le price f_zero)) [
            | inl bad ↦ rw bad (no_rate id price b p bad refl)
            | inr good ↦ rw good (bought id price kinds b p good refl)
          ]),
        )

    -- Whatever is answered, a conversion returns no error. Between two coins it tells the sum from
    -- a dollar price of each, and between a coin and a fiat currency from the price of the coin in
    -- that currency; a price is what the answer to a request for the coin gives, and the coin is
    -- what the answer to the search for its own asset gives, so none stands for the other. A price
    -- that it divides the amount by is above zero or not a number. If an answer gives no coin or no
    -- price, or a price to divide by is at or below zero, it tells that.
    pub convert-Answers : ReturnsTo Answer Answers (convert amount from to)
    unfolding convert
    convert-Answers = elim (Bool-cases (is_fiat (to_lower from))) [
      | inl f ↦ elim (Bool-cases (is_fiat (to_lower to))) [
        | inl t ↦ rw (f, ReturnsTo) (rw (t, ReturnsTo) (_, refl, fiat_only (f, t) refl))
        | inr t ↦ rw (f, ReturnsTo) (rw (t, ReturnsTo) (fiat_to_crypto-Answers (f, t)))
      ]
      | inr f ↦ elim (Bool-cases (is_fiat (to_lower to))) [
        | inl t ↦ rw (f, ReturnsTo) (rw (t, ReturnsTo) (crypto_to_fiat-Answers (f, t)))
        | inr t ↦ rw (f, ReturnsTo) (rw (t, ReturnsTo) (crypto_to_crypto-Answers (f, t)))
      ]
    ]
