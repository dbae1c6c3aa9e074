-- ===== src/Services/AlertService/Checker/Holding.antt =====
-- What holds where a step of the checker or a schedule ends, if it ends without a fault.
use crypto_sentinel.Prelude.{
  ℕ, List, [], ◌∷◌, Option, none, some, get_elem?, ◌≡◌, Option-cases, inl, inr, subst,
  if◌then◌else◌,
}
use crypto_sentinel.Go.Runtime.{Runtime}
use crypto_sentinel.Models.{PriceAlert}
use crypto_sentinel.Services.AlertService.Checker.{
  sweeping, waiting, World, Quote, Event, look_at, conclude, answer_to, step, run_events,
}

abbrev pub Holds : (World → Type 0) → Option World → Type 0
Holds P none = Unit
Holds P (some w) = P w

pub Holds-map :
    (P Q : World → Type 0) → ((w : World) → P w → Q w) → (o : Option World) → Holds P o → Holds Q o
Holds-map P Q f none h = tt
Holds-map P Q f (some w) h = f w h

module _ (P : World → Type 0) (w : World) (p : ℕ) (ps : List ℕ) where
  pub look_at-Holds :
      ((a : PriceAlert)
        → get_elem? w.service.heap p ≡ some a
        → P (record w { phase = if a.triggered then sweeping ps else waiting p ps }))
      → Holds P (look_at w p ps)
  unfolding look_at
  look_at-Holds h = elim (Option-cases (get_elem? w.service.heap p)) [
    | inl gone ↦ rw (gone, look_at) tt
    | inr (a, at) ↦ rw (at, look_at) (h a at)
  ]

  pub answer_to-Holds :
      (q : Quote)
      → ((a : PriceAlert) → get_elem? w.service.heap p ≡ some a → P (conclude w p ps a q))
      → Holds P (answer_to w p ps q)
  unfolding answer_to
  answer_to-Holds q h = elim (Option-cases (get_elem? w.service.heap p)) [
    | inl gone ↦ rw (gone, answer_to) tt
    | inr (a, at) ↦ rw (at, answer_to) (h a at)
  ]

module _ ⦃g : Runtime⦄ (P : World → Type 0)
    (keeps : (e : Event) (w : World) → P w → Holds P (step e w)) where
  -- What every step keeps, every schedule keeps.
  pub run_events-Holds : (es : List Event) (w : World) → P w → Holds P (run_events es w)
  unfolding run_events
  run_events-Holds [] w v = v
  run_events-Holds (e ∷ es) w v = elim (Option-cases (step e w)) [
    | inl fault ↦ rw (fault, run_events) tt
    | inr (w', went) ↦
        rw (went, run_events) (run_events-Holds es w' (subst (Holds P) went (keeps e w v)))
  ]
