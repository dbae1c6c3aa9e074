-- ===== src/Services/AlertService/Checker/Stopping.antt =====
-- What becomes of the world when the context of the checker is cancelled.
use crypto_sentinel.Prelude.{
  ℕ, List, [], ◌∷◌, some, Bytes, get_elem?, ◌≡◌, refl, ap, ◌∙◌, inl, inr, get_elem?-append,
  get_elem?-below,
}
use crypto_sentinel.Go.Runtime.{Runtime}
use crypto_sentinel.Models.{PriceAlert}
use crypto_sentinel.Services.AlertService.{AlertService, add, clear}
use crypto_sentinel.Services.AlertService.Checker.{
  idle, stopped, World, Event, call_add, call_remove, call_clear, tick, cancel, look, answer,
  proceed, step, run_events,
}
use crypto_sentinel.Services.AlertService.Checker.Pointers.{add-cases, heap-remove}

-- The alerts of a heap stand unchanged in another.
abbrev Untouched : List PriceAlert → List PriceAlert → Type 0
Untouched h h' = (p : ℕ) (a : PriceAlert) → get_elem? h p ≡ some a → get_elem? h' p ≡ some a

-- What a checker that has stopped leaves alone.
pub record IsStill (w w' : World) : Type 0 where
  pub stays : w'.phase ≡ stopped
  pub silent : w'.log ≡ w.log
  pub untouched : Untouched w.service.heap w'.service.heap

IsStill-trans : (u v w : World) → IsStill u v → IsStill v w → IsStill u w
IsStill-trans u v w h k = record {
  stays = k.stays;
  silent = k.silent ∙ h.silent;
  untouched = λ p a e. k.untouched p a (h.untouched p a e);
}

called :
    (w : World) (s : AlertService)
    → w.phase ≡ stopped
    → Untouched w.service.heap s.heap
    → IsStill w (record w { service = s })
called w s h u = record { stays = h; silent = refl; untouched = u }

module _ ⦃g : Runtime⦄ where
  add-Untouched :
      (symbol op value : Bytes) (now : ℕ) (s : AlertService)
      → Untouched s.heap (add symbol op value now s).1.heap
  add-Untouched symbol op value now s = elim (add-cases symbol op value now s) [
    | inl same ↦ rw same (λ p a e. e)
    | inr (more, known) ↦
        rw more (λ p a e. get_elem?-append s.heap _ p (get_elem?-below s.heap p a e) ∙ e)
  ]

  proceed_stopped : (e : Event) (w : World) → proceed w stopped e ≡ some w
  unfolding proceed
  proceed_stopped tick w = refl
  proceed_stopped _ w = refl

  proceed-stopped : (e : Event) (w : World) → w.phase ≡ stopped → proceed w w.phase e ≡ some w
  proceed-stopped e w h = ap (λ ph. proceed w ph e) h ∙ proceed_stopped e w

  step-IsStill :
      (e : Event) (w : World)
      → w.phase ≡ stopped
      → (w' : World) × (step e w ≡ some w') × IsStill w w'
  unfolding step clear
  step-IsStill (call_add symbol op value now) w h =
      (_, refl, called w _ h (add-Untouched symbol op value now w.service))
  step-IsStill (call_remove i) w h =
      (_, refl, called w _ h (rw (heap-remove i w.service) (λ p a e. e)))
  step-IsStill call_clear w h = (_, refl, called w _ h (λ p a e. e))
  step-IsStill tick w h = (w, proceed-stopped tick w h, called w w.service h (λ p a e. e))
  step-IsStill cancel w h = (w, proceed-stopped cancel w h, called w w.service h (λ p a e. e))
  step-IsStill look w h = (w, proceed-stopped look w h, called w w.service h (λ p a e. e))
  step-IsStill (answer q) w h =
      (w, proceed-stopped (answer q) w h, called w w.service h (λ p a e. e))

  run_events-stopped :
      (es : List Event) (w : World)
      → w.phase ≡ stopped
      → (w' : World) × (run_events es w ≡ some w') × IsStill w w'
  unfolding run_events
  run_events-stopped [] w h = (w, refl, called w w.service h (λ p a e. e))
  run_events-stopped (e ∷ es) w h =
      let (w1, went, first) = step-IsStill e w h in
      let (w2, ended, rest) = run_events-stopped es w1 first.stays in
      (w2, rw (went, run_events) ended, IsStill-trans w w1 w2 first rest)

  -- If the context is cancelled while the checker waits for a tick, the checker stops for good:
  -- whatever is called and whatever comes then, nothing faults, nothing more is logged, and no
  -- alert is triggered or changed any more.
  pub run_events-cancel :
      (es : List Event) (w : World)
      → w.phase ≡ idle
      → (w' : World) × (run_events (cancel ∷ es) w ≡ some w') × IsStill w w'
  unfolding run_events step proceed
  run_events-cancel es w h =
      let (w', ended, still) = run_events-stopped es (record w { phase = stopped }) refl in
      (
        w',
        rw (h, run_events) ended,
        record { stays = still.stays; silent = still.silent; untouched = still.untouched },
      )
