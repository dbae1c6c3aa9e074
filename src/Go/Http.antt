-- ===== src/Go/Http.antt =====
-- Calls of `net/http` as a program: it returns, or sends a request and goes on with the response.
-- What answers is not modelled: it is any function of the requests sent so far.
pub mod Laws
pub mod Answers
pub mod Requests
use crypto_sentinel.Prelude.{ℕ, List, [], ◌∷◌, ◌++◌, Bytes, Result, ok, err}

-- A GET request: its URL and the headers that are set, in order.
pub record Request : Type 0 where
  pub url : Bytes
  pub headers : List (Bytes × Bytes)

-- `client.Do(req)`: an error with its text, or a status and a body.
pub data Response : Type 0 where
  failed : Bytes → Response
  response : ℕ → Bytes → Response

pub data Prog (A : Type 0) : Type 0 where
  done : A → Prog A
  send : Request → (Response → Prog A) → Prog A

module _ {A B : Type 0} where
  infixl 5 ◌>>=◌
  abbrev pub ◌>>=◌ : Prog A → (A → Prog B) → Prog B
  done a >>= f = f a
  send q k >>= f = send q (λ r. k r >>= f)

-- `if err != nil { return … }`: the rest of a chain runs on success.
module _ {A B : Type 0} where
  abbrev pub on_ok : (A → Prog (Result B)) → Result A → Prog (Result B)
  on_ok f (ok a) = f a
  on_ok f (err e) = done (err e)

-- Who answers: the response to a request, by the requests that were sent before it.
abbrev pub Server : Type 0
Server = List Request → Request → Response

-- The result, and all requests sent, the last one first.
unfoldable pub run : {A : Type 0} → Server → List Request → Prog A → A × List Request
run server sent (done a) = (a, sent)
run server sent (send q k) = run server (q ∷ sent) (k (server sent q))
