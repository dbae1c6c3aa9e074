-- ===== src/Commands/Shared/Limits.antt =====
-- The limit that a user gives.
use crypto_sentinel.Prelude.{
  ℕ, ◌≤◌, ◌&&◌, Option, none, some, List, [], ◌∷◌, Bytes, ltb, leb, if◌then◌else◌, ◌≡◌, arith,
}
use crypto_sentinel.Prelude.Int.{ℤ, pos, negsuc}
use crypto_sentinel.Go.Decimal.{atoi, format_uint}
use crypto_sentinel.Go.Decimal.RoundTrip.{atoi-format_uint}
use crypto_sentinel.Commands.Shared.{limit_of}

chosen_bounds :
    (otherwise : ℕ) (parsed : Option ℤ)
    → 1 ≤ otherwise
    → otherwise ≤ 50
    → let n : ℕ = elim parsed [
      | none ↦ otherwise
      | some (negsuc n) ↦ otherwise
      | some (pos n) ↦ if ltb 0 n && leb n 50 then n else otherwise
    ] in
      (1 ≤ n) × (n ≤ 50)
chosen_bounds otherwise none h k = (h, k)
chosen_bounds otherwise (some (negsuc n)) h k = (h, k)
chosen_bounds otherwise (some (pos n)) h k = ground arith

-- Whatever the user writes, the limit is from 1 to 50, if that of the command is.
pub limit_of_bounds :
    (otherwise : ℕ) (args : List Bytes)
    → 1 ≤ otherwise
    → otherwise ≤ 50
    → (1 ≤ limit_of otherwise args) × (limit_of otherwise args ≤ 50)
unfolding limit_of
limit_of_bounds otherwise [] h k = (h, k)
limit_of_bounds otherwise (arg ∷ args) h k = chosen_bounds otherwise (atoi arg) h k

-- A number from 1 to 50 that the user writes in decimal is the limit.
limit_of-format_uint :
    (otherwise n : ℕ) (args : List Bytes)
    → 1 ≤ n
    → n ≤ 50
    → limit_of otherwise (format_uint n ∷ args) ≡ n
unfolding limit_of
limit_of-format_uint otherwise n args h k =
    rw (atoi-format_uint n (omega arith), limit_of) (ground arith)
