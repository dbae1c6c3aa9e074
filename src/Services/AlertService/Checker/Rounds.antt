-- ===== src/Services/AlertService/Checker/Rounds.antt =====
-- The rounds of a sweep, one for each pointer, and what they make of an alert.
use crypto_sentinel.Prelude.{
  ℕ, zero, suc, Bool, true, false, not, ◌&&◌, ◌||◌, List, [], ◌∷◌, some, get_elem?, set, ◌==◌,
  if◌then◌else◌, ◌≡◌, refl, sym, ap, arith, Bool-cases, inl, inr,
}
use crypto_sentinel.Models.{PriceAlert}
use crypto_sentinel.Services.AlertService.Checker.{
  Quote, resolve_failed, market_failed, quoted, Event, look, answer, op_holds,
}

-- One round for each pointer: the test of `Triggered`, and what the requests bring. An answer that
-- is not awaited changes nothing.
abbrev pub sweep : (ℕ → Quote) → List ℕ → List Event
sweep quotes [] = look ∷ []
sweep quotes (p ∷ ps) = look ∷ answer (quotes p) ∷ sweep quotes ps

abbrev pub fires : PriceAlert → Quote → Bool
fires a (quoted m) = op_holds a.op m.current_price a.value
fires a (resolve_failed e) = false
fires a (market_failed e) = false

abbrev pub marked : PriceAlert → PriceAlert
marked a = record a { triggered = true }

pub get_elem?-set :
    (h : List PriceAlert) (p k : ℕ) (v b : PriceAlert)
    → get_elem? h k ≡ some b
    → get_elem? (set h p v) k ≡ some (if k == p then v else b)
get_elem?-set [] p k v b e = absurd (cc)
get_elem?-set (x ∷ h) zero zero v b e = refl
get_elem?-set (x ∷ h) zero (suc k) v b e = ground (arith, e)
get_elem?-set (x ∷ h) (suc p) zero v b e = ground (arith, e)
get_elem?-set (x ∷ h) (suc p) (suc k) v b e = ground (arith, get_elem?-set h p k v b e)

pub unchanged :
    (b : PriceAlert) (q : Quote)
    → (b.triggered || not (fires b q)) ≡ true
    → (if fires b q then marked b else b) ≡ b
unchanged b q h = elim (Bool-cases (fires b q)) [
  | inr quiet ↦ rw quiet refl
  | inl meets ↦
      let old : b.triggered ≡ true = ground (arith, h, meets) in
      rw meets (ap (λ t. record b { triggered = t }) (sym old))
]

-- The alert at `k` after the rounds for `ps`.
abbrev pub after : (ℕ → Quote) → List ℕ → ℕ → PriceAlert → PriceAlert
after quotes [] k b = b
after quotes (p ∷ ps) k b =
    after quotes ps k (if (k == p) && fires b (quotes p) then marked b else b)

fires-marked : (b : PriceAlert) (q : Quote) → fires (marked b) q ≡ fires b q
fires-marked b (quoted m) = refl
fires-marked b (resolve_failed e) = refl
fires-marked b (market_failed e) = refl

pub after-quiet :
    (quotes : ℕ → Quote) (ps : List ℕ) (k : ℕ) (b : PriceAlert)
    → fires b (quotes k) ≡ false
    → after quotes ps k b ≡ b
after-quiet quotes [] k b h = refl
after-quiet quotes (p ∷ ps) k b h = elim (Bool-cases (k == p)) [
  | inr other ↦ rw other (after-quiet quotes ps k b h)
  | inl same ↦ let kp : p ≡ k = ground arith in rw same (rw kp (rw h (after-quiet quotes ps k b h)))
]

after-marked :
    (quotes : ℕ → Quote) (ps : List ℕ) (k : ℕ) (b : PriceAlert)
    → after quotes ps k (marked b) ≡ marked b
after-marked quotes [] k b = refl
after-marked quotes (p ∷ ps) k b = elim (Bool-cases ((k == p) && fires (marked b) (quotes p))) [
  | inr still ↦ rw still (after-marked quotes ps k b)
  | inl now ↦ rw now (after-marked quotes ps k b)
]

pub after-fires :
    (quotes : ℕ → Quote) (ps : List ℕ) (i k : ℕ) (b : PriceAlert)
    → get_elem? ps i ≡ some k
    → fires b (quotes k) ≡ true
    → after quotes ps k b ≡ marked b
after-fires quotes [] i k b e h = absurd (cc)
after-fires quotes (p ∷ ps) zero k b e h =
    let kp : p ≡ k = cc in
    let same : (k == p) ≡ true = ground arith in rw same (rw kp (rw h (after-marked quotes ps k b)))
after-fires quotes (p ∷ ps) (suc i) k b e h = elim (Bool-cases ((k == p) && fires b (quotes p))) [
  | inl now ↦ rw now (after-marked quotes ps k b)
  | inr still ↦ rw still (after-fires quotes ps i k b e h)
]
