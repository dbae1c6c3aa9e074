-- ===== src/Commands/Price/Replies.antt =====
-- What price and compare tell of the replies of CoinGecko.
use crypto_sentinel.Prelude.{◌++◌, Bytes, Result, ok, err, ◌≡◌, ◌⊎◌, refl, subst, is_empty, if-elim}
use crypto_sentinel.Go.Runtime.{Runtime}
use crypto_sentinel.Go.Text.{text, trim_space}
use crypto_sentinel.Go.Http.{Request, Response, Prog}
use crypto_sentinel.Go.Http.Answers.{ReturnsTo, ReturnsTo-bind}
use crypto_sentinel.Models.{CoinMarket}
use crypto_sentinel.Clients.Coingecko.{
  search_request, market_request, resolve_coin_id, fetch_coin_market,
}
use crypto_sentinel.Clients.Coingecko.Replies.{CoinJson, resolved_of, coin_market_of}
use crypto_sentinel.Clients.Coingecko.Laws.{IsResolved, resolved_of-IsResolved}
use crypto_sentinel.Commands.Shared.{or_say}
use crypto_sentinel.Commands.Price.{resolve_or_say, market_or_say, compare_text}

abbrev about : Bytes → Bytes → Bytes
about what sym = text "Could not resolve " ++ what ++ text " '" ++ sym ++ text "': "

abbrev pub unresolved : Bytes → Bytes → Bytes → Bytes
unresolved what sym e = about what sym ++ e

abbrev pub unfetched : Bytes → Bytes → Bytes
unfetched sym e = text "Failed to fetch market data for '" ++ sym ++ text "': " ++ e

-- `Answer` tells which response answers a request; it may be any relation.
module _ ⦃g : Runtime⦄ ⦃j : CoinJson⦄ (Answer : Request → Response → Type 0) where
  -- `id` is that of the coin that the answer to the search for the symbol gives.
  pub record IsCoinOf (sym id : Bytes) : Type 0 where
    pub resolved : IsResolved (trim_space sym) (ok id)
    pub search : Response
    pub answers : Answer (search_request (trim_space sym)) search
    gives : resolved_of (trim_space sym) search ≡ ok id

  -- `m` is the market that the answer to the request for the coin of the symbol holds.
  pub record IsMarketOf (sym : Bytes) (m : CoinMarket) : Type 0 where
    pub id : Bytes
    pub coin : IsCoinOf sym id
    pub reply : Response
    pub asked : Answer (market_request id) reply
    pub held : coin_market_of reply ≡ ok m

  -- An error promises nothing.
  abbrev pub IsFound : Bytes → Result Bytes → Type 0
  IsFound sym (err e) = Unit
  IsFound sym (ok id) = IsCoinOf sym id

  found :
      (sym : Bytes) (reply : Response)
      → Answer (search_request (trim_space sym)) reply
      → IsResolved (trim_space sym) (resolved_of (trim_space sym) reply)
      → (r : Result Bytes) → resolved_of (trim_space sym) reply ≡ r
      → IsFound sym r
  found sym reply answers h (err e) same = tt
  found sym reply answers h (ok id) same = record {
    resolved = subst (IsResolved (trim_space sym)) same h;
    search = reply;
    answers = answers;
    gives = same;
  }

  pub resolve_coin_id-IsFound : (sym : Bytes) → ReturnsTo Answer (IsFound sym) (resolve_coin_id sym)
  unfolding resolve_coin_id
  resolve_coin_id-IsFound sym =
      if-elim (ReturnsTo Answer (IsFound sym)) (is_empty (trim_space sym)) _ _ tt (λ reply answers.
        found sym reply answers (resolved_of-IsResolved (trim_space sym) reply)
          (resolved_of (trim_space sym) reply) refl)

  -- `ret` gives the result of a command its type.
  module _ {B : Type 0} (P : B → Type 0) (ret : Result Bytes → B) where
    pub resolve_or_say-ReturnsTo :
        (what sym : Bytes) (f : Bytes → Prog B)
        → ((e : Bytes) → P (ret (ok (unresolved what sym e))))
        → ((id : Bytes) → IsCoinOf sym id → ReturnsTo Answer P (f id))
        → ReturnsTo Answer P (resolve_or_say ret what sym f)
    resolve_or_say-ReturnsTo what sym f h k =
        ReturnsTo-bind Answer (IsFound sym) P (resolve_coin_id sym) _ (resolve_coin_id-IsFound sym)
          λ r.
            elim r as (λ x. IsFound sym x → ReturnsTo Answer P (or_say ret (about what sym) f x)) [
              | ok id ↦ λ found. k id found
              | err e ↦ λ found. h e
            ]

    told :
        (sym : Bytes) (f : CoinMarket → Prog B) (r : Response)
        → ((e : Bytes) → P (ret (ok (unfetched sym e))))
        → ((m : CoinMarket) → coin_market_of r ≡ ok m → ReturnsTo Answer P (f m))
        → (d : Result CoinMarket) → coin_market_of r ≡ d
        → ReturnsTo Answer P
            (or_say ret (text "Failed to fetch market data for '" ++ sym ++ text "': ") f d)
    told sym f r h k (ok m) e = k m e
    told sym f r h k (err m) e = h m

    pub market_or_say-ReturnsTo :
        (sym id : Bytes) (f : CoinMarket → Prog B)
        → ((e : Bytes) → P (ret (ok (unfetched sym e))))
        → IsCoinOf sym id
        → ((m : CoinMarket) → IsMarketOf sym m → ReturnsTo Answer P (f m))
        → ReturnsTo Answer P (market_or_say ret sym id f)
    unfolding fetch_coin_market
    market_or_say-ReturnsTo sym id f h coin k = λ r asked.
        told sym f r h
          (λ m held. k m (record { id = id; coin = coin; reply = r; asked = asked; held = held }))
          (coin_market_of r) refl

  -- What `compare` returns on two symbols: no error, ever.
  pub data IsComparison (x y : Bytes) : Result Bytes → Type 0 where
    not_resolved :
        (sym e : Bytes)
        → (sym ≡ x) ⊎ (sym ≡ y)
        → IsComparison x y (ok (unresolved (text "asset") sym e))
    not_fetched : (sym e : Bytes) → (sym ≡ x) ⊎ (sym ≡ y) → IsComparison x y (ok (unfetched sym e))
    compared :
        (a b : CoinMarket)
        → IsMarketOf x a
        → IsMarketOf y b
        → IsComparison x y (ok (compare_text x y a b))
