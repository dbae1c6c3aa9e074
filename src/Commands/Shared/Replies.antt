-- ===== src/Commands/Shared/Replies.antt =====
-- What a chain of requests and tests returns, when each end of it has a property.
use crypto_sentinel.Prelude.{Bytes, Result, ok, err}
use crypto_sentinel.Go.Http.{Prog, done, send, ◌>>=◌}
use crypto_sentinel.Go.Http.Laws.{Returns}
use crypto_sentinel.Commands.Shared.{or_say}

module _ {A B : Type 0} (P : B → Type 0) (ret : Result Bytes → B)
    (h : (r : Result Bytes) → P (ret r)) where
  pub or_say-Returns :
      (message : Bytes) (f : A → Prog B) (m : Prog (Result A))
      → ((a : A) → Returns P (f a))
      → Returns P (m >>= or_say ret message f)
  or_say-Returns message f (done (ok a)) k = k a
  or_say-Returns message f (done (err e)) k = h _
  or_say-Returns message f (send q c) k = λ r. or_say-Returns message f (c r) k
