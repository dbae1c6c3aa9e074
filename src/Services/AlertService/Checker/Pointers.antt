-- ===== src/Services/AlertService/Checker/Pointers.antt =====
-- Lists of pointers, and what the operations of the service do to them.
use crypto_sentinel.Prelude.{
  ℕ, zero, suc, ◌≤◌, ◌<◌, true, List, [], ◌∷◌, ◌++◌, some, Bytes, get_elem?, set, length, take,
  drop, ◌≡◌, refl, arith, All, All-append, All-take, All-drop, All-map, length-append, length-set,
  Bool-cases, ◌⊎◌, inl, inr, leb, subst,
}
use crypto_sentinel.Prelude.Int.{ℤ, pos, negsuc}
use crypto_sentinel.Go.Runtime.{Runtime}
use crypto_sentinel.Go.Text.{trim_space}
use crypto_sentinel.Models.{PriceAlert}
use crypto_sentinel.Services.AlertService.{AlertService, add, added, remove, supported_op}
use crypto_sentinel.Services.AlertService.Checker.{Phase, idle, stopped, sweeping, waiting, mark}

-- Every pointer is below `n`.
abbrev pub Below : ℕ → List ℕ → Type 0
Below n = All (λ p. p < n)

-- The pointers come in the order in which their alerts were allocated; so no two are equal.
abbrev pub Rising : List ℕ → Type 0
Rising [] = Unit
Rising (p ∷ ps) = All (λ q. p < q) ps × Rising ps

abbrev pub PhaseBelow : ℕ → Phase → Type 0
PhaseBelow n idle = Unit
PhaseBelow n stopped = Unit
PhaseBelow n (sweeping ps) = Below n ps × Rising ps
PhaseBelow n (waiting p ps) = (p < n) × (Below n ps × Rising ps)

abbrev pub IsSound : PriceAlert → Type 0
IsSound a = supported_op a.op ≡ true

Below-mono : {m n : ℕ} (ps : List ℕ) → m ≤ n → Below m ps → Below n ps
Below-mono ps h b = All-map _ _ ps (λ p q. omega arith) b

pub PhaseBelow-mono : {m n : ℕ} (ph : Phase) → m ≤ n → PhaseBelow m ph → PhaseBelow n ph
PhaseBelow-mono idle h b = tt
PhaseBelow-mono stopped h b = tt
PhaseBelow-mono (sweeping ps) h b = (Below-mono ps h b.0, b.1)
PhaseBelow-mono (waiting p ps) h b = (omega arith, (Below-mono ps h b.1.0, b.1.1))

Rising-append : (n : ℕ) (ps : List ℕ) → Below n ps → Rising ps → Rising (ps ++ n ∷ [])
Rising-append n [] b r = (tt, tt)
Rising-append n (p ∷ ps) (b, bs) (r, rs) =
    (All-append _ ps (n ∷ []) r (b, tt), Rising-append n ps bs rs)

-- What `Remove` leaves.
All-remove :
    (P : ℕ → Type 0) (i : ℕ) (ps : List ℕ) → All P ps → All P (take i ps ++ drop (suc i) ps)
All-remove P i ps h =
    All-append P (take i ps) (drop (suc i) ps) (All-take P i ps h) (All-drop P (suc i) ps h)

Rising-remove : (i : ℕ) (ps : List ℕ) → Rising ps → Rising (take i ps ++ drop (suc i) ps)
Rising-remove zero [] r = tt
Rising-remove zero (p ∷ ps) (r, rs) = rs
Rising-remove (suc i) [] r = tt
Rising-remove (suc i) (p ∷ ps) (r, rs) = (All-remove _ i ps r, Rising-remove i ps rs)

All-set :
    {A : Type 0} (P : A → Type 0) (xs : List A) (i : ℕ) (v : A)
    → P v
    → All P xs
    → All P (set xs i v)
All-set P [] i v p h = tt
All-set P (x ∷ xs) zero v p (h, hs) = (p, hs)
All-set P (x ∷ xs) (suc i) v p (h, hs) = (h, All-set P xs i v p hs)

pub All-get :
    {A : Type 0} (P : A → Type 0) (xs : List A) (i : ℕ) (x : A)
    → All P xs
    → get_elem? xs i ≡ some x
    → P x
All-get P [] i x h e = cc
All-get P (y ∷ xs) zero x (h, hs) e = subst P (cc) h
All-get P (y ∷ xs) (suc i) x (h, hs) e = All-get P xs i x hs e

-- What the steps need of the service: its pointers and operators.
pub record IsSoundService (s : AlertService) : Type 0 where
  pub listed : Below (length s.heap) s.alerts
  pub rising : Rising s.alerts
  pub sound : All IsSound s.heap

module _ ⦃g : Runtime⦄ (symbol op value : Bytes) (now : ℕ) (s : AlertService) where
  -- `Add` refuses, and leaves the service as it was, or it appends an alert with a known operator.
  pub add-cases :
      ((add symbol op value now s).1 ≡ s)
      ⊎ (((add symbol op value now s).1 ≡ added symbol op value now s)
          × (supported_op (trim_space op) ≡ true))
  unfolding add
  add-cases = ground arith

  added-IsSoundService :
      IsSoundService s
      → supported_op (trim_space op) ≡ true
      → IsSoundService (added symbol op value now s)
  added-IsSoundService v h = record {
    listed = rw length-append (
        All-append _ s.alerts (length s.heap ∷ []) (Below-mono s.alerts (omega arith) v.listed)
          (omega arith, tt));
    rising = Rising-append (length s.heap) s.alerts v.listed v.rising;
    sound = All-append IsSound s.heap _ v.sound (h, tt);
  }

  pub add-IsSoundService :
      IsSoundService s
      → IsSoundService (add symbol op value now s).1
        × (length s.heap ≤ length (add symbol op value now s).1.heap)
  add-IsSoundService v = elim add-cases [
    | inl same ↦ rw same (v, omega arith)
    | inr (more, known) ↦
        rw more (added-IsSoundService v known, omega (arith, length-append {0} s.heap))
  ]

pub remove-IsSoundService :
    (i : ℤ) (s : AlertService)
    → IsSoundService s
    → IsSoundService (remove i s).1 × ((remove i s).1.heap ≡ s.heap)
unfolding remove
remove-IsSoundService (negsuc n) s v = (v, refl)
remove-IsSoundService (pos i) s v = elim (Bool-cases (leb (length s.alerts) i)) [
  | inl out ↦ rw out (v, refl)
  | inr within ↦ rw within (
    record {
      listed = All-remove _ i s.alerts v.listed;
      rising = Rising-remove i s.alerts v.rising;
      sound = v.sound;
    },
    refl,
  )
]

pub heap-remove : (i : ℤ) (s : AlertService) → (remove i s).1.heap ≡ s.heap
unfolding remove
heap-remove (negsuc n) s = refl
heap-remove (pos i) s = ground arith

pub mark-IsSoundService :
    (p : ℕ) (a : PriceAlert) (s : AlertService)
    → IsSound a
    → IsSoundService s
    → IsSoundService (mark p a s) × (length (mark p a s).heap ≡ length s.heap)
mark-IsSoundService p a s known v = (
  record {
    listed = rw (length-set s.heap p (record a { triggered = true })) v.listed;
    rising = v.rising;
    sound = All-set IsSound s.heap p _ known v.sound;
  },
  length-set s.heap p (record a { triggered = true }),
)
