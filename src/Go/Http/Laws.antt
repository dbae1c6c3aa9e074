-- ===== src/Go/Http/Laws.antt =====
-- Statements about every run of a program.
use crypto_sentinel.Prelude.{
  ℕ, zero, suc, List, ◌∷◌, length, all, ◌≤◌, ◌+◌, arith, Bool, true, false, if◌then◌else◌, ◌≡◌,
  refl,
}
use crypto_sentinel.Go.Http.{Request, Response, Prog, done, send, ◌>>=◌, Server, run}

-- `P` holds of the result, whatever is answered.
abbrev pub Returns : {A : Type 0} → (A → Type 0) → Prog A → Type 0
Returns P (done a) = P a
Returns P (send q k) = (r : Response) → Returns P (k r)

-- At most `n` requests are sent, whatever is answered, and each of them passes the test.
abbrev pub Sends : {A : Type 0} → (Request → Bool) → ℕ → Prog A → Type 0
Sends p n (done a) = Unit
Sends p zero (send q k) = ⊥
Sends p (suc n) (send q k) = (p q ≡ true) × ((r : Response) → Sends p n (k r))

module _ {A : Type 0} where
  run-Returns :
      (P : A → Type 0) (server : Server) (sent : List Request) (m : Prog A)
      → Returns P m
      → P (run server sent m).0
  unfolding run
  run-Returns P server sent (done a) h = h
  run-Returns P server sent (send q k) h =
      run-Returns P server (q ∷ sent) (k (server sent q)) (h (server sent q))

  run-Sends :
      (p : Request → Bool) (n : ℕ) (server : Server) (sent : List Request) (m : Prog A)
      → Sends p n m
      → all p sent ≡ true
      → (length (run server sent m).1 ≤ length sent + n) × (all p (run server sent m).1 ≡ true)
  unfolding run
  run-Sends p n server sent (done a) h k = (omega arith, k)
  run-Sends p zero server sent (send q c) h k = elim h [ ]
  run-Sends p (suc n) server sent (send q c) (ok, h) k =
      let (less, good) =
        run-Sends p n server (q ∷ sent) (c (server sent q)) (h (server sent q)) (rw (ok, k) refl) in
      (omega (arith, less), good)

module _ {A : Type 0} (P : A → Type 0) where
  pub Returns-always : ((a : A) → P a) → (m : Prog A) → Returns P m
  Returns-always h (done a) = h a
  Returns-always h (send q k) = λ r. Returns-always h (k r)

  pub Returns-map :
      (Q : A → Type 0) → ((a : A) → P a → Q a) → (m : Prog A) → Returns P m → Returns Q m
  Returns-map Q f (done a) h = f a h
  Returns-map Q f (send q k) h = λ r. Returns-map Q f (k r) (h r)

module _ {A B : Type 0} where
  pub Returns-bind :
      (P : A → Type 0) (Q : B → Type 0) (m : Prog A) (f : A → Prog B)
      → Returns P m
      → ((a : A) → P a → Returns Q (f a))
      → Returns Q (m >>= f)
  Returns-bind P Q (done a) f h k = k a h
  Returns-bind P Q (send q c) f h k = λ r. Returns-bind P Q (c r) f (h r) k

  run-bind :
      (server : Server) (sent : List Request) (m : Prog A) (f : A → Prog B)
      → run server sent (m >>= f) ≡ run server (run server sent m).1 (f (run server sent m).0)
  unfolding run
  run-bind server sent (done a) f = refl
  run-bind server sent (send q k) f = run-bind server (q ∷ sent) (k (server sent q)) f

-- A test returns what its branches return.
pub if-Returns :
    {A : Type 0} (P : A → Type 0) (b : Bool) (m n : Prog A)
    → (b ≡ true → Returns P m)
    → Returns P n
    → Returns P (if b then m else n)
if-Returns P true m n h k = h refl
if-Returns P false m n h k = k
