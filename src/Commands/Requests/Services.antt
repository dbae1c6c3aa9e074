-- ===== src/Commands/Requests/Services.antt =====
-- The services that the program sends requests to, each with the headers that are for it: the table
-- of what the clients and commands of internal/ write out, one by one.
use crypto_sentinel.Prelude.{
  ℕ, ◌+◌, ◌≤◌, Bool, true, false, ◌&&◌, ◌||◌, List, [], ◌∷◌, Bytes, Option, none, some, all, ◌≡◌,
}
use crypto_sentinel.Go.Text.{text, beq, has_prefix}
use crypto_sentinel.Go.Http.{Request, Response, Prog, done, send, ◌>>=◌}
use crypto_sentinel.Go.Http.Laws.{Sends}
use crypto_sentinel.Go.Http.Requests.{Sends-mono, Sends-bind, checked-Sends}

-- The start of each URL of a service, and the names of the headers for it.
abbrev pub services : List (Bytes × List Bytes)
services =
    (text "https://api.coingecko.com/", text "User-Agent" ∷ [])
    ∷ (text "https://pro-api.coinmarketcap.com/", text "X-CMC_PRO_API_KEY" ∷ text "Accept" ∷ [])
    ∷ (text "https://api.llama.fi/", text "User-Agent" ∷ [])
    ∷ (text "https://api.alternative.me/", text "User-Agent" ∷ [])
    ∷ (text "https://api.owlracle.info/", text "User-Agent" ∷ [])
    ∷ (text "https://newsdata.io/", text "User-Agent" ∷ [])
    ∷ (text "https://api.dexscreener.com/", text "User-Agent" ∷ [])
    ∷ (text "https://api.covalenthq.com/", text "User-Agent" ∷ text "Authorization" ∷ [])
    ∷ (text "https://api.exchange.coinbase.com/", [])
    ∷ (text "https://api.binance.com/", [])
    ∷ (text "https://www.okx.com/", [])
    ∷ (text "https://api.bybit.com/", [])
    ∷ (text "https://api.mexc.com/", [])
    ∷ (text "https://api.kucoin.com/", [])
    ∷ (text "https://api.bitget.com/", [])
    ∷ []

abbrev named : Bytes → List Bytes → Bool
named h [] = false
named h (n ∷ names) = beq h n || named h names

abbrev permitted_by : List (Bytes × List Bytes) → Request → Bool
permitted_by [] q = false
permitted_by ((base, names) ∷ table) q =
    (has_prefix q.url base && all (λ h. named h.0 names) q.headers) || permitted_by table q

-- The request is for one of the services, with no header but those for it.
unfoldable pub permitted : Request → Bool
unfolding has_prefix beq text
permitted q = permitted_by services q

-- At most `n` requests, each of them permitted.
abbrev pub Asks : {A : Type 0} → ℕ → Prog A → Type 0
Asks n m = Sends permitted n m

module _ {A : Type 0} where
  pub Asks-mono : (m n : ℕ) (p : Prog A) → m ≤ n → Asks m p → Asks n p
  Asks-mono m n p h s = Sends-mono permitted m n p h s

  pub checked-Asks :
      (o : Option Bytes) (e : Bytes → A) (q : Request) (f : Response → A)
      → permitted q ≡ true
      → Asks 1 (elim o as (λ x. Prog A) [ some m ↦ done (e m) | none ↦ send q (λ r. done (f r)) ])
  checked-Asks o e q f good = checked-Sends permitted o e q f good

module _ {A B : Type 0} (n : ℕ) where
  pub Asks-bind :
      (m : ℕ) (p : Prog A) (f : A → Prog B)
      → Asks m p
      → ((a : A) → Asks n (f a))
      → Asks (m + n) (p >>= f)
  Asks-bind m p f s k = Sends-bind permitted n m p f s k
