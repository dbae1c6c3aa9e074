-- ===== src/Go/Http/Answers.antt =====
-- Statements about every run of a program that tie what it returns to the requests it sent.
use crypto_sentinel.Prelude.{List, [], ◌∷◌, ◌++◌}
use crypto_sentinel.Go.Http.{Request, Response, Prog, done, send, ◌>>=◌}
use crypto_sentinel.Go.Http.Laws.{Returns}

-- `P` holds of the result, if every response answers its request; `Answer` is any relation.
abbrev pub ReturnsTo : (Request → Response → Type 0) → {A : Type 0} → (A → Type 0) → Prog A → Type 0
ReturnsTo Answer P (done a) = P a
ReturnsTo Answer P (send q k) = (r : Response) → Answer q r → ReturnsTo Answer P (k r)

-- `P` holds of the result and of the requests with their responses, in order, after `sent`.
abbrev pub Exchanges :
    {A : Type 0}
    → (List (Request × Response) → A → Type 0)
    → List (Request × Response)
    → Prog A
    → Type 0
Exchanges P sent (done a) = P sent a
Exchanges P sent (send q k) = (r : Response) → Exchanges P (sent ++ (q, r) ∷ []) (k r)

module _ (Answer : Request → Response → Type 0) where
  pub ReturnsTo-bind :
      {A B : Type 0} (P : A → Type 0) (Q : B → Type 0) (m : Prog A) (f : A → Prog B)
      → ReturnsTo Answer P m
      → ((a : A) → P a → ReturnsTo Answer Q (f a))
      → ReturnsTo Answer Q (m >>= f)
  ReturnsTo-bind P Q (done a) f h k = k a h
  ReturnsTo-bind P Q (send q c) f h k = λ r answers. ReturnsTo-bind P Q (c r) f (h r answers) k

  pub ReturnsTo-map :
      {A : Type 0} (P Q : A → Type 0)
      → ((a : A) → P a → Q a)
      → (m : Prog A) → ReturnsTo Answer P m
      → ReturnsTo Answer Q m
  ReturnsTo-map P Q f (done a) h = f a h
  ReturnsTo-map P Q f (send q k) h = λ r answers. ReturnsTo-map P Q f (k r) (h r answers)

  Returns-ReturnsTo :
      {A : Type 0} (P : A → Type 0) (m : Prog A) → Returns P m → ReturnsTo Answer P m
  Returns-ReturnsTo P (done a) h = h
  Returns-ReturnsTo P (send q k) h = λ r answers. Returns-ReturnsTo P (k r) (h r)
