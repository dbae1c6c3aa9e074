-- ===== src/Services/AlertService/Checker/Invariant.antt =====
-- The pointers of the list and of the checker.
use crypto_sentinel.Prelude.{
  ℕ, ◌≤◌, ◌<◌, List, [], ◌∷◌, Option, some, length, ◌≡◌, refl, arith, All, get_elem?-lt, Bool-cases,
  inl, inr,
}
use crypto_sentinel.Go.Runtime.{Runtime}
use crypto_sentinel.Models.{PriceAlert}
use crypto_sentinel.Services.AlertService.{AlertService, clear}
use crypto_sentinel.Services.AlertService.Checker.{
  Phase, idle, stopped, sweeping, waiting, World, Quote, resolve_failed, market_failed, quoted,
  Event, call_add, call_remove, call_clear, tick, cancel, look, answer, look_at, conclude,
  answer_to, proceed, step, run_events, start, op_holds,
}
use crypto_sentinel.Services.AlertService.Checker.Pointers.{
  Below, Rising, PhaseBelow, IsSound, PhaseBelow-mono, All-get, IsSoundService, add-IsSoundService,
  remove-IsSoundService, mark-IsSoundService,
}

-- No pointer dangles, no alert is listed twice or checked twice in a sweep, and every alert has an
-- operator that the checker knows.
pub record IsValid (w : World) : Type 0 where
  pub listed : Below (length w.service.heap) w.service.alerts
  pub rising : Rising w.service.alerts
  pub checked : PhaseBelow (length w.service.heap) w.phase
  pub sound : All IsSound w.service.heap

service_of : {w : World} → IsValid w → IsSoundService w.service
service_of v = record { listed = v.listed; rising = v.rising; sound = v.sound }

-- A call on the service leaves the checker's pointers good, since the heap only grows.
with_service :
    (w : World) (s : AlertService)
    → IsValid w
    → IsSoundService s
    → length w.service.heap ≤ length s.heap
    → IsValid (record w { service = s })
with_service w s v t h = record {
  listed = t.listed;
  rising = t.rising;
  checked = PhaseBelow-mono w.phase h v.checked;
  sound = t.sound;
}

conclude-IsValid :
    (w : World) (p : ℕ) (ps : List ℕ) (a : PriceAlert) (q : Quote)
    → IsValid w
    → Below (length w.service.heap) ps × Rising ps
    → IsSound a
    → IsValid (conclude w p ps a q)
unfolding conclude
conclude-IsValid w p ps a (resolve_failed e) v b known = record {
  listed = v.listed;
  rising = v.rising;
  checked = b;
  sound = v.sound;
}
conclude-IsValid w p ps a (market_failed e) v b known = record {
  listed = v.listed;
  rising = v.rising;
  checked = b;
  sound = v.sound;
}
conclude-IsValid w p ps a (quoted m) v b known =
    elim (Bool-cases (op_holds a.op m.current_price a.value)) [
      | inl fires ↦
          let (t, same) = mark-IsSoundService p a w.service known (service_of v) in
          rw fires
            (record { listed = t.listed; rising = t.rising; checked = rw same b; sound = t.sound })
      | inr not_yet ↦
          rw not_yet (record { listed = v.listed; rising = v.rising; checked = b; sound = v.sound })
    ]

-- A step that ends well, in a valid world.
abbrev EndsValid : Option World → Type 0
EndsValid o = (w' : World) × (o ≡ some w') × IsValid w'

look_at-EndsValid :
    (w : World) (p : ℕ) (ps : List ℕ)
    → IsValid w
    → (p < length w.service.heap) × (Below (length w.service.heap) ps × Rising ps)
    → EndsValid (look_at w p ps)
unfolding look_at
look_at-EndsValid w p ps v b =
    let (a, e) = get_elem?-lt w.service.heap p b.0 in
    rw (e, look_at)
      (elim (Bool-cases a.triggered) [
        | inl old ↦ (
          _,
          refl,
          rw old (record { listed = v.listed; rising = v.rising; checked = b.1; sound = v.sound }),
        )
        | inr new ↦ (
          _,
          refl,
          rw new (record { listed = v.listed; rising = v.rising; checked = b; sound = v.sound }),
        )
      ])

answer_to-EndsValid :
    (w : World) (p : ℕ) (ps : List ℕ) (q : Quote)
    → IsValid w
    → (p < length w.service.heap) × (Below (length w.service.heap) ps × Rising ps)
    → EndsValid (answer_to w p ps q)
unfolding answer_to
answer_to-EndsValid w p ps q v b =
    let (a, e) = get_elem?-lt w.service.heap p b.0 in
    rw (e, answer_to)
      (_, refl, conclude-IsValid w p ps a q v b.1 (All-get IsSound w.service.heap p a v.sound e))

with_phase :
    (w : World) (ph : Phase)
    → IsValid w
    → PhaseBelow (length w.service.heap) ph
    → IsValid (record w { phase = ph })
with_phase w ph v b = record { listed = v.listed; rising = v.rising; checked = b; sound = v.sound }

proceed-EndsValid :
    (w : World) (ph : Phase) (e : Event)
    → IsValid w
    → PhaseBelow (length w.service.heap) ph
    → EndsValid (proceed w ph e)
unfolding proceed
proceed-EndsValid w idle tick v b =
    (_, refl, with_phase w (sweeping w.service.alerts) v (v.listed, v.rising))
proceed-EndsValid w idle cancel v b = (_, refl, with_phase w stopped v tt)
proceed-EndsValid w (sweeping []) look v b = (_, refl, with_phase w idle v tt)
proceed-EndsValid w (sweeping (p ∷ ps)) look v b =
    look_at-EndsValid w p ps v (b.0.0, (b.0.1, b.1.1))
proceed-EndsValid w (waiting p ps) (answer q) v b = answer_to-EndsValid w p ps q v b
proceed-EndsValid w _ _ v b = (w, refl, v)

module _ ⦃g : Runtime⦄ where
  -- Every event is dealt with without a fault and leaves the world valid.
  pub step-EndsValid : (e : Event) (w : World) → IsValid w → EndsValid (step e w)
  unfolding step
  step-EndsValid (call_add symbol op value now) w v =
      let (t, h) = add-IsSoundService symbol op value now w.service (service_of v) in
      (_, refl, with_service w _ v t h)
  step-EndsValid (call_remove i) w v =
      let (t, same) = remove-IsSoundService i w.service (service_of v) in
      (_, refl, with_service w _ v t (rw same (omega arith)))
  step-EndsValid call_clear w v = (
    _,
    refl,
    with_service w _ v (unfold clear in record { listed = tt; rising = tt; sound = v.sound })
        (unfold clear in omega arith),
  )
  step-EndsValid tick w v = proceed-EndsValid w w.phase tick v v.checked
  step-EndsValid cancel w v = proceed-EndsValid w w.phase cancel v v.checked
  step-EndsValid look w v = proceed-EndsValid w w.phase look v v.checked
  step-EndsValid (answer q) w v = proceed-EndsValid w w.phase (answer q) v v.checked

  -- So is every schedule.
  pub run_events-EndsValid : (es : List Event) (w : World) → IsValid w → EndsValid (run_events es w)
  unfolding run_events
  run_events-EndsValid [] w v = (w, refl, v)
  run_events-EndsValid (e ∷ es) w v =
      let (w', stepped, v') = step-EndsValid e w v in
      rw (stepped, run_events) (run_events-EndsValid es w' v')

  -- From the start, whatever users do and whatever the requests bring, in whatever order: no
  -- pointer to no alert is ever used, every pointer that the list and the checker hold is to an
  -- alert, each list is free of repetitions and in the order of the additions, and every alert has
  -- one of the four operators.
  pub run_events-IsValid :
      (es : List Event) → (w : World) × (run_events es start ≡ some w) × IsValid w
  run_events-IsValid es =
      run_events-EndsValid es start (record { listed = tt; rising = tt; checked = tt; sound = tt })
