-- ===== src/Services/AlertService/Checker/Steps.antt =====
-- The events of the rounds, and the service that they leave.
use crypto_sentinel.Prelude.{
  ℕ, true, false, not, ◌&&◌, ◌||◌, List, [], ◌∷◌, ◌++◌, some, get_elem?, All, All-map, ◌==◌,
  if◌then◌else◌, ◌≡◌, refl, sym, ap, ◌∙◌, arith, Bool-cases, inl, inr,
}
use crypto_sentinel.Go.Runtime.{Runtime}
use crypto_sentinel.Models.{PriceAlert}
use crypto_sentinel.Services.AlertService.{AlertService}
use crypto_sentinel.Services.AlertService.Checker.{
  Phase, idle, sweeping, waiting, LogLine, alerted, World, Quote, resolve_failed, market_failed,
  quoted, Event, look, answer, mark, look_at, conclude, answer_to, run_events,
}
use crypto_sentinel.Services.AlertService.Checker.Rounds.{
  sweep, fires, marked, get_elem?-set, after, unchanged,
}

module _ ⦃g : Runtime⦄ where
  -- What a round for `p` makes of a service.
  record IsRound (s : AlertService) (p : ℕ) (q : Quote) (s' : AlertService) : Type 0 where
    same_list : s'.alerts ≡ s.alerts
    each :
        (k : ℕ) (b : PriceAlert)
        → get_elem? s.heap k ≡ some b
        → get_elem? s'.heap k ≡ some (if (k == p) && fires b q then marked b else b)

  module _ (s : AlertService) (l : List LogLine) (p : ℕ) (ps : List ℕ) (es : List Event) where
    abbrev at_phase : Phase → World
    at_phase ph = record { service = s; phase = ph; log = l }

    run_events-look :
        (a : PriceAlert)
        → get_elem? s.heap p ≡ some a
        → run_events (look ∷ es) (at_phase (sweeping (p ∷ ps)))
          ≡ run_events es (at_phase (if a.triggered then sweeping ps else waiting p ps))
    unfolding run_events
    run_events-look a at = rw (at, look_at) refl

    run_events-late :
        (q : Quote) (ps : List ℕ)
        → run_events (answer q ∷ es) (at_phase (sweeping ps))
          ≡ run_events es (at_phase (sweeping ps))
    unfolding run_events
    run_events-late q [] = refl
    run_events-late q (k ∷ ks) = refl

    run_events-answer :
        (a : PriceAlert) (q : Quote)
        → get_elem? s.heap p ≡ some a
        → run_events (answer q ∷ es) (at_phase (waiting p ps))
          ≡ run_events es (conclude (at_phase (waiting p ps)) p ps a q)
    unfolding run_events
    run_events-answer a q at = rw (at, answer_to) refl

  module _ (s : AlertService) (p : ℕ) (q : Quote) (a : PriceAlert)
      (at : get_elem? s.heap p ≡ some a) where
    IsRound-none : (a.triggered || not (fires a q)) ≡ true → IsRound s p q s
    IsRound-none h = record {
      same_list = refl;
      each = λ k b e. elim (Bool-cases (k == p)) [
        | inr other ↦ rw other e
        | inl same ↦
            let kp : k ≡ p = ground arith in
            let ba : b ≡ a = cc in rw same (e ∙ ap some (sym (unchanged b q (rw ba h))))
      ];
    }

    IsRound-fired : fires a q ≡ true → IsRound s p q (mark p a s)
    IsRound-fired h = record {
      same_list = refl;
      each = λ k b e. elim (Bool-cases (k == p)) [
        | inr other ↦ get_elem?-set s.heap p k (marked a) b e ∙ (rw other refl)
        | inl same ↦
            let kp : k ≡ p = ground arith in
            let ba : b ≡ a = cc in
            get_elem?-set s.heap p k (marked a) b e ∙ (rw same (rw ba (rw h refl)))
      ];
    }

  -- A quote that meets no condition leaves the service.
  conclude-quiet :
      (w : World) (p : ℕ) (ps : List ℕ) (a : PriceAlert) (q : Quote)
      → fires a q ≡ false
      → (l : List LogLine) × (conclude w p ps a q
          ≡ record { service = w.service; phase = sweeping ps; log = l })
  unfolding conclude
  conclude-quiet w p ps a (resolve_failed e) h = (_, refl)
  conclude-quiet w p ps a (market_failed e) h = (_, refl)
  conclude-quiet w p ps a (quoted m) h = (w.log, rw h refl)

  conclude-fired :
      (w : World) (p : ℕ) (ps : List ℕ) (a : PriceAlert) (q : Quote)
      → fires a q ≡ true
      → (l : List LogLine) × (conclude w p ps a q
          ≡ record { service = mark p a w.service; phase = sweeping ps; log = l })
  unfolding conclude
  conclude-fired w p ps a (resolve_failed e) h = absurd (cc)
  conclude-fired w p ps a (market_failed e) h = absurd (cc)
  conclude-fired w p ps a (quoted m) h = (w.log ++ alerted a m.current_price ∷ [], rw h refl)

  run_events-IsRound :
      (s : AlertService) (l : List LogLine) (p : ℕ) (ps : List ℕ) (q : Quote) (es : List Event)
      (a : PriceAlert)
      → get_elem? s.heap p ≡ some a
      → (s' : AlertService) × (l' : List LogLine) × (run_events
            (look ∷ answer q ∷ es)
            (at_phase s l p ps es (sweeping (p ∷ ps)))
          ≡ run_events es (record { service = s'; phase = sweeping ps; log = l' }))
        × IsRound s p q s'
  run_events-IsRound s l p ps q es a at =
      let looked = run_events-look s l p ps (answer q ∷ es) a at in
      elim (Bool-cases a.triggered) [
        | inl old ↦ (
          s,
          l,
          (rw old at looked) ∙ run_events-late s l p ps es q ps,
          IsRound-none s p q a at (rw old refl),
        )
        | inr new ↦ elim (Bool-cases (fires a q)) [
          | inl meets ↦
              let (l', e) = conclude-fired (at_phase s l p ps es (waiting p ps)) p ps a q meets in
              (
                mark p a s,
                l',
                (rw new at looked) ∙ run_events-answer s l p ps es a q at ∙ ap (run_events es) e,
                IsRound-fired s p q a at meets,
              )
          | inr quiet ↦
              let (l', e) = conclude-quiet (at_phase s l p ps es (waiting p ps)) p ps a q quiet in
              (
                s,
                l',
                (rw new at looked) ∙ run_events-answer s l p ps es a q at ∙ ap (run_events es) e,
                IsRound-none s p q a at (ground arith),
              )
        ]
      ]

  -- What the rounds make of a service.
  pub record IsSweep (quotes : ℕ → Quote) (ps : List ℕ) (s s' : AlertService) : Type 0 where
    pub listed : s'.alerts ≡ s.alerts
    pub heap_after :
        (k : ℕ) (b : PriceAlert)
        → get_elem? s.heap k ≡ some b
        → get_elem? s'.heap k ≡ some (after quotes ps k b)

  pub run_events-sweep :
      (quotes : ℕ → Quote) (ps : List ℕ) (s : AlertService) (l : List LogLine)
      → All (λ p. (a : PriceAlert) × (get_elem? s.heap p ≡ some a)) ps
      → (s' : AlertService) × (l' : List LogLine) × (run_events
            (sweep quotes ps)
            (record { service = s; phase = sweeping ps; log = l })
          ≡ some (record { service = s'; phase = idle; log = l' }))
        × IsSweep quotes ps s s'
  run_events-sweep quotes [] s l h =
      (s, l, unfold run_events in refl, record { listed = refl; heap_after = λ k b e. e })
  run_events-sweep quotes (p ∷ ps) s l ((a, at), h) =
      let (s1, l1, e1, r) = run_events-IsRound s l p ps (quotes p) (sweep quotes ps) a at in
      let (s2, l2, e2, t) =
        run_events-sweep quotes ps s1 l1 (All-map _ _ ps (λ k (b, e). (_, r.each k b e)) h) in
      (
        s2,
        l2,
        e1 ∙ e2,
        record {
          listed = t.listed ∙ r.same_list;
          heap_after = λ k b e. t.heap_after k _ (r.each k b e);
        },
      )
