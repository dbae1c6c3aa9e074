-- ===== src/Go/Http/Requests.antt =====
-- How many requests a program sends, from its parts, where each request passes a test.
use crypto_sentinel.Prelude.{
  ℕ, zero, suc, ◌+◌, ◌≤◌, Bool, true, Bytes, Option, none, some, arith, subst, ◌≡◌,
}
use crypto_sentinel.Go.Http.{Request, Response, Prog, done, send, ◌>>=◌}
use crypto_sentinel.Go.Http.Laws.{Sends}

module _ {A : Type 0} (ok : Request → Bool) where
  pub Sends-mono : (m n : ℕ) (p : Prog A) → m ≤ n → Sends ok m p → Sends ok n p
  Sends-mono m n (done a) h s = tt
  Sends-mono zero n (send q k) h s = elim s [ ]
  Sends-mono (suc m) zero (send q k) h s = absurd (omega arith)
  Sends-mono (suc m) (suc n) (send q k) h (good, s) =
      (good, λ r. Sends-mono m n (k r) (omega arith) (s r))

module _ {A B : Type 0} (ok : Request → Bool) (n : ℕ) where
  pub Sends-bind :
      (m : ℕ) (p : Prog A) (f : A → Prog B)
      → Sends ok m p
      → ((a : A) → Sends ok n (f a))
      → Sends ok (m + n) (p >>= f)
  Sends-bind m (done a) f s k = Sends-mono ok n (m + n) (f a) (omega arith) (k a)
  Sends-bind zero (send q c) f s k = elim s [ ]
  Sends-bind (suc m) (send q c) f (good, s) k =
      let rest : Sends ok (suc (m + n)) (send q c >>= f) =
        (good, λ r. Sends-bind m (c r) f (s r) k) in
      let same : suc (m + n) ≡ suc m + n = omega arith in
      subst (λ l. Sends ok l (send q c >>= f)) same rest

-- A request with a URL that may be bad.
pub checked-Sends :
    {A : Type 0} (ok : Request → Bool) (o : Option Bytes) (e : Bytes → A) (q : Request)
    (f : Response → A)
    → ok q ≡ true
    → Sends ok 1 (elim o as (λ x. Prog A) [ some m ↦ done (e m) | none ↦ send q (λ r. done (f r)) ])
checked-Sends ok none e q f good = (good, λ r. tt)
checked-Sends ok (some m) e q f good = tt
