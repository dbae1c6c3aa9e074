-- ===== src/Services/AlertService/Checker/Count.antt =====
-- The alerts that are triggered, and the lines of the log that tell of alerts, counted.
use crypto_sentinel.Prelude.{
  ℕ, zero, suc, ◌+◌, true, false, List, [], ◌∷◌, ◌++◌, some, get_elem?, set, if◌then◌else◌, ◌≡◌,
  refl, arith, ◌⊎◌, inl, inr,
}
use crypto_sentinel.Models.{PriceAlert}
use crypto_sentinel.Services.AlertService.Checker.{LogLine, resolve_error, market_error, alerted}

-- How many lines of the log tell of an alert, and how many alerts are triggered.
abbrev pub fired : List LogLine → ℕ
fired [] = 0
fired (alerted a price ∷ ls) = suc (fired ls)
fired (resolve_error s e ∷ ls) = fired ls
fired (market_error s e ∷ ls) = fired ls

abbrev triggered_count : List PriceAlert → ℕ
triggered_count [] = 0
triggered_count (a ∷ h) = if a.triggered then suc (triggered_count h) else triggered_count h

fired-append : (ls : List LogLine) (l : LogLine) → fired (ls ++ l ∷ []) ≡ fired ls + fired (l ∷ [])
fired-append [] l = omega arith
fired-append (alerted a price ∷ ls) l = omega (arith, fired-append ls l)
fired-append (resolve_error s e ∷ ls) l = fired-append ls l
fired-append (market_error s e ∷ ls) l = fired-append ls l

triggered_count-append :
    (h : List PriceAlert) (a : PriceAlert)
    → a.triggered ≡ false
    → triggered_count (h ++ a ∷ []) ≡ triggered_count h
triggered_count-append [] a e = rw e refl
triggered_count-append (b ∷ h) a e = ground (arith, triggered_count-append h a)

triggered_count-set :
    (h : List PriceAlert) (p : ℕ) (a b : PriceAlert)
    → get_elem? h p ≡ some a
    → a.triggered ≡ false
    → b.triggered ≡ true
    → triggered_count (set h p b) ≡ suc (triggered_count h)
triggered_count-set [] p a b e f t = cc
triggered_count-set (c ∷ h) zero a b e f t = ground arith
triggered_count-set (c ∷ h) (suc p) a b e f t = ground (arith, triggered_count-set h p a b)

get_elem?-snoc :
    (h : List PriceAlert) (x : PriceAlert) (p : ℕ) (a : PriceAlert)
    → get_elem? (h ++ x ∷ []) p ≡ some a
    → (get_elem? h p ≡ some a) ⊎ (a ≡ x)
get_elem?-snoc [] x zero a e = inr (cc)
get_elem?-snoc [] x (suc p) a e = cc
get_elem?-snoc (b ∷ h) x zero a e = inl e
get_elem?-snoc (b ∷ h) x (suc p) a e = get_elem?-snoc h x p a e
