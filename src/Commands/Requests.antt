-- ===== src/Commands/Requests.antt =====
-- How many requests each command sends, and to which services: a module for each kind of command,
-- and their shared step.
pub mod Services
pub mod Markets
pub mod Conversions
pub mod Exchanges
pub mod Others
use crypto_sentinel.Prelude.{ℕ, ◌+◌, Bytes, Result, ok, err}
use crypto_sentinel.Go.Http.{Prog, ◌>>=◌}
use crypto_sentinel.Commands.Requests.Services.{Asks, Asks-bind}
use crypto_sentinel.Commands.Shared.{or_say}

module _ {A B : Type 0} (ret : Result Bytes → B) (n : ℕ) where
  pub or_say-Sends :
      (m : ℕ) (message : Bytes) (f : A → Prog B) (p : Prog (Result A))
      → Asks m p
      → ((a : A) → Asks n (f a))
      → Asks (m + n) (p >>= or_say ret message f)
  or_say-Sends m message f p s k =
      Asks-bind n m p (or_say ret message f) s
        λ r. elim r as (λ x. Asks n (or_say ret message f x)) [ ok a ↦ k a | err e ↦ tt ]
