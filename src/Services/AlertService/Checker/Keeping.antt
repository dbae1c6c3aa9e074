-- ===== src/Services/AlertService/Checker/Keeping.antt =====
-- What every schedule keeps: the alerts that were added, and the lines of the log.
use crypto_sentinel.Prelude.{
  ℕ, true, List, [], ◌∷◌, ◌++◌, some, Bytes, get_elem?, set, append_assoc, append-nil, ◌==◌, ◌≡◌,
  refl, sym, ap, ◌∙◌, subst, arith, Bool-cases, inl, inr, get_elem?-append, get_elem?-below,
}
use crypto_sentinel.Go.Runtime.{Runtime}
use crypto_sentinel.Models.{PriceAlert}
use crypto_sentinel.Services.AlertService.{AlertService, add, clear}
use crypto_sentinel.Services.AlertService.Checker.{
  Phase, idle, sweeping, waiting, LogLine, World, Quote, resolve_failed, market_failed, quoted,
  Event, call_add, call_remove, call_clear, tick, cancel, look, answer, conclude, proceed, step,
  run_events, op_holds,
}
use crypto_sentinel.Services.AlertService.Checker.Pointers.{add-cases, heap-remove}
use crypto_sentinel.Services.AlertService.Checker.Holding.{
  Holds, Holds-map, look_at-Holds, answer_to-Holds, run_events-Holds,
}
use crypto_sentinel.Services.AlertService.Checker.Invariant.{IsValid, run_events-EndsValid}
use crypto_sentinel.Services.AlertService.Checker.Rounds.{get_elem?-set}

-- `b` is the alert `a` later: the same condition from the same time, and triggered if `a` was.
pub record IsLater (a b : PriceAlert) : Type 0 where
  pub symbol : b.symbol ≡ a.symbol
  pub op : b.op ≡ a.op
  pub value : b.value ≡ a.value
  pub added_at : b.added_at ≡ a.added_at
  pub triggered : a.triggered ≡ true → b.triggered ≡ true

IsLater-refl : (a : PriceAlert) → IsLater a a
IsLater-refl a = record {
  symbol = refl;
  op = refl;
  value = refl;
  added_at = refl;
  triggered = λ h. h;
}

IsLater-trans : (a b c : PriceAlert) → IsLater a b → IsLater b c → IsLater a c
IsLater-trans a b c h k = record {
  symbol = k.symbol ∙ h.symbol;
  op = k.op ∙ h.op;
  value = k.value ∙ h.value;
  added_at = k.added_at ∙ h.added_at;
  triggered = λ t. k.triggered (h.triggered t);
}

-- Every alert of the heap is still at its address.
abbrev Remembers : List PriceAlert → List PriceAlert → Type 0
Remembers h h' =
    (p : ℕ) (a : PriceAlert)
    → get_elem? h p ≡ some a
    → (b : PriceAlert) × (get_elem? h' p ≡ some b) × IsLater a b

pub record Keeps (w w' : World) : Type 0 where
  pub remembered : Remembers w.service.heap w'.service.heap
  pub logged : (l : List LogLine) × (w'.log ≡ w.log ++ l)

Remembers-refl : (h : List PriceAlert) → Remembers h h
Remembers-refl h p a e = (a, e, IsLater-refl a)

Keeps-refl : (w : World) → Keeps w w
Keeps-refl w = record {
  remembered = Remembers-refl w.service.heap;
  logged = ([], sym (append-nil w.log));
}

Keeps-trans : (u v w : World) → Keeps u v → Keeps v w → Keeps u w
Keeps-trans u v w h k = record {
  remembered = λ p a e.
      let (b, eb, ab) = h.remembered p a e in
      let (c, ec, bc) = k.remembered p b eb in (c, ec, IsLater-trans a b c ab bc);
  logged =
      let (l, e) = h.logged in
      let (l', e') = k.logged in (l ++ l', e' ∙ ap (λ x. x ++ l') e ∙ append_assoc u.log l l');
}

set-Remembers :
    (h : List PriceAlert) (p : ℕ) (a : PriceAlert)
    → get_elem? h p ≡ some a
    → Remembers h (set h p (record a { triggered = true }))
set-Remembers h p a at = λ k b e. elim (Bool-cases (k == p)) [
  | inr other ↦ (b, get_elem?-set h p k _ b e ∙ (rw other refl), IsLater-refl b)
  | inl same ↦
      let kp : k ≡ p = ground arith in
      let ba : b ≡ a = cc in
      (
        record a { triggered = true },
        get_elem?-set h p k _ b e ∙ (rw same refl),
        rw ba (record {
          symbol = refl;
          op = refl;
          value = refl;
          added_at = refl;
          triggered = λ t. refl;
        }),
      )
]

append-Remembers : (h l : List PriceAlert) → Remembers h (h ++ l)
append-Remembers h l p a e =
    (a, get_elem?-append h l p (get_elem?-below h p a e) ∙ e, IsLater-refl a)

-- The steps that write a line at most.
with_log :
    (w : World) (ph : Phase) (l : List LogLine)
    → Keeps w (record w { phase = ph; log = w.log ++ l })
with_log w ph l = record { remembered = Remembers-refl w.service.heap; logged = (l, refl) }

with_phase : (w : World) (ph : Phase) → Keeps w (record w { phase = ph })
with_phase w ph = record {
  remembered = Remembers-refl w.service.heap;
  logged = ([], sym (append-nil w.log));
}

with_service :
    (w : World) (s : AlertService)
    → Remembers w.service.heap s.heap
    → Keeps w (record w { service = s })
with_service w s h = record { remembered = h; logged = ([], sym (append-nil w.log)) }

conclude-Keeps :
    (w : World) (p : ℕ) (ps : List ℕ) (a : PriceAlert) (q : Quote)
    → get_elem? w.service.heap p ≡ some a
    → Keeps w (conclude w p ps a q)
unfolding conclude
conclude-Keeps w p ps a (resolve_failed e) at = with_log w _ _
conclude-Keeps w p ps a (market_failed e) at = with_log w _ _
conclude-Keeps w p ps a (quoted m) at = elim (Bool-cases (op_holds a.op m.current_price a.value)) [
  | inl fires ↦
      rw fires (record { remembered = set-Remembers w.service.heap p a at; logged = (_, refl) })
  | inr quiet ↦ rw quiet (with_phase w _)
]

proceed-Keeps : (w : World) (ph : Phase) (e : Event) → Holds (Keeps w) (proceed w ph e)
unfolding proceed
proceed-Keeps w idle tick = with_phase w _
proceed-Keeps w idle cancel = with_phase w _
proceed-Keeps w (sweeping []) look = with_phase w _
proceed-Keeps w (sweeping (p ∷ ps)) look = look_at-Holds (Keeps w) w p ps (λ a at. with_phase w _)
proceed-Keeps w (waiting p ps) (answer q) =
    answer_to-Holds (Keeps w) w p ps q (λ a at. conclude-Keeps w p ps a q at)
proceed-Keeps w _ _ = Keeps-refl w

module _ ⦃g : Runtime⦄ where
  add-Remembers :
      (symbol op value : Bytes) (now : ℕ) (s : AlertService)
      → Remembers s.heap (add symbol op value now s).1.heap
  add-Remembers symbol op value now s = elim (add-cases symbol op value now s) [
    | inl same ↦ rw same (Remembers-refl s.heap)
    | inr (more, known) ↦ rw more (append-Remembers s.heap _)
  ]

  step-Keeps : (e : Event) (w : World) → Holds (Keeps w) (step e w)
  unfolding step clear
  step-Keeps (call_add symbol op value now) w =
      with_service w _ (add-Remembers symbol op value now w.service)
  step-Keeps (call_remove i) w =
      with_service w _ (rw (heap-remove i w.service) (Remembers-refl w.service.heap))
  step-Keeps call_clear w = with_service w _ (Remembers-refl w.service.heap)
  step-Keeps tick w = proceed-Keeps w w.phase tick
  step-Keeps cancel w = proceed-Keeps w w.phase cancel
  step-Keeps look w = proceed-Keeps w w.phase look
  step-Keeps (answer q) w = proceed-Keeps w w.phase (answer q)

  -- From a valid world, whatever users do and the checker does, in whatever order, comes to a world
  -- where every alert is still at its address, with the symbol, operator, value and time that it
  -- was added with, removed alerts included; an alert that is triggered stays so; and no line of
  -- the log is lost or changed.
  pub run_events-Keeps :
      (es : List Event) (w : World)
      → IsValid w
      → (w' : World) × (run_events es w ≡ some w') × Keeps w w'
  run_events-Keeps es w v =
      let (w', ended, _) = run_events-EndsValid es w v in
      (
        w',
        ended,
        subst (Holds (Keeps w)) ended (
            run_events-Holds (Keeps w)
              (λ e u k.
                Holds-map (Keeps u) (Keeps w) (λ u'. Keeps-trans w u u' k) (step e u)
                  (step-Keeps e u))
              es w (Keeps-refl w)),
      )
