-- ===== src/Services/AlertService/Checker/Replay.antt =====
-- The service beside its checker refines a list of conditions that only the calls of users change.
use crypto_sentinel.Prelude.{
  ℕ, suc, ◌<◌, true, false, ◌&&◌, List, [], ◌∷◌, ◌++◌, map, some, Bytes, length, get_elem?,
  get_elem?-lt, set, take, drop, All, filter_map, filter_map-keep, leb, ◌==◌, if◌then◌else◌,
  length-map, map-take, map-drop, map-append, ◌≡◌, refl, sym, ap, ◌∙◌, subst, arith, Bool-cases,
  inl, inr,
}
use crypto_sentinel.Prelude.Int.{pos, negsuc}
use crypto_sentinel.Go.Runtime.{Runtime}
use crypto_sentinel.Go.Float64.{Float64}
use crypto_sentinel.Go.Text.{trim_space}
use crypto_sentinel.Models.{PriceAlert}
use crypto_sentinel.Services.AlertService.{
  AlertService, add, remove, clear, new_alert, supported_op,
}
use crypto_sentinel.Services.AlertService.View.{IsListed, view, view-add, view-remove_index}
use crypto_sentinel.Services.AlertService.Checker.{
  Phase, idle, sweeping, waiting, World, Quote, resolve_failed, market_failed, quoted, Event,
  call_add, call_remove, call_clear, tick, cancel, look, answer, conclude, proceed, step,
  run_events, op_holds,
}
use crypto_sentinel.Services.AlertService.Checker.Holding.{Holds, look_at-Holds, answer_to-Holds}
use crypto_sentinel.Services.AlertService.Checker.Invariant.{IsValid, step-EndsValid}
use crypto_sentinel.Services.AlertService.Checker.Rounds.{get_elem?-set}

-- What a user asked for: an alert without its mark.
pub record Condition : Type 0 where
  pub symbol : Bytes
  pub op : Bytes
  pub value : Float64
  pub added_at : ℕ

abbrev pub condition_of : PriceAlert → Condition
condition_of a = record { symbol = a.symbol; op = a.op; value = a.value; added_at = a.added_at }

abbrev pub conditions : AlertService → List Condition
conditions s = map condition_of (view s)

module _ ⦃g : Runtime⦄ where
  -- The abstract service: `Add` appends, `Remove` deletes at an index, `Clear` empties, and the
  -- actions of the checker do nothing.
  abbrev apply : Event → List Condition → List Condition
  apply (call_add symbol op value now) l =
      if supported_op (trim_space op) && (g.parse_float (trim_space value)).valid
      then l ++ condition_of (new_alert symbol op value now) ∷ []
      else l
  apply (call_remove (pos i)) l = if leb (length l) i then l else take i l ++ drop (suc i) l
  apply (call_remove (negsuc n)) l = l
  apply call_clear l = []
  apply tick l = l
  apply cancel l = l
  apply look l = l
  apply (answer q) l = l

  abbrev pub replay : List Event → List Condition → List Condition
  replay [] l = l
  replay (e ∷ es) l = replay es (apply e l)

-- A mark does not change a condition.
conditions-set :
    (h : List PriceAlert) (p : ℕ) (a : PriceAlert) (ps : List ℕ)
    → get_elem? h p ≡ some a
    → All (λ k. k < length h) ps
    → map condition_of (filter_map (get_elem? (set h p (record a { triggered = true }))) ps)
      ≡ map condition_of (filter_map (get_elem? h) ps)
conditions-set h p a [] at b = refl
conditions-set h p a (k ∷ ps) at (b, bs) =
    let v = record a { triggered = true } in
    let (x, e) = get_elem?-lt h k b in
    let e' = get_elem?-set h p k v x e in
    let same : condition_of (if k == p then v else x) ≡ condition_of x =
      elim (Bool-cases (k == p)) [
        | inr other ↦ rw other refl
        | inl here ↦ let kp : k ≡ p = ground arith in let xa : x ≡ a = cc in rw here (rw xa refl)
      ] in
    ap (map condition_of) (filter_map-keep (get_elem? (set h p v)) k ps _ e')
    ∙ ap (λ c. c ∷ map condition_of (filter_map (get_elem? (set h p v)) ps)) same
    ∙ ap (λ l. condition_of x ∷ l) (conditions-set h p a ps at bs)
    ∙ ap (map condition_of) (sym (filter_map-keep (get_elem? h) k ps x e))

-- The service ends with the conditions `l`.
abbrev Leaves : List Condition → World → Type 0
Leaves l w = conditions w.service ≡ l

conclude-Leaves :
    (w : World) (p : ℕ) (ps : List ℕ) (a : PriceAlert) (q : Quote)
    → IsListed w.service
    → get_elem? w.service.heap p ≡ some a
    → conditions (conclude w p ps a q).service ≡ conditions w.service
unfolding conclude
conclude-Leaves w p ps a (resolve_failed e) v at = refl
conclude-Leaves w p ps a (market_failed e) v at = refl
conclude-Leaves w p ps a (quoted m) v at =
    elim (Bool-cases (op_holds a.op m.current_price a.value)) [
      | inl fires ↦ rw fires (conditions-set w.service.heap p a w.service.alerts at v)
      | inr quiet ↦ rw quiet refl
    ]

proceed-Leaves :
    (w : World) (ph : Phase) (e : Event)
    → IsListed w.service
    → Holds (Leaves (conditions w.service)) (proceed w ph e)
unfolding proceed
proceed-Leaves w idle tick v = refl
proceed-Leaves w idle cancel v = refl
proceed-Leaves w (sweeping []) look v = refl
proceed-Leaves w (sweeping (p ∷ ps)) look v = look_at-Holds (Leaves _) w p ps (λ a at. refl)
proceed-Leaves w (waiting p ps) (answer q) v =
    answer_to-Holds (Leaves _) w p ps q (λ a at. conclude-Leaves w p ps a q v at)
proceed-Leaves w _ _ v = refl

remove-Leaves :
    (i : ℕ) (s : AlertService)
    → IsListed s
    → let l = conditions s in
      conditions (remove (pos i) s).1 ≡ (if leb (length l) i then l else take i l ++ drop (suc i) l)
remove-Leaves i s v =
    ap (map condition_of) (view-remove_index i s v).1
    ∙ rw (length-map condition_of (view s)) (elim (Bool-cases (leb (length (view s)) i)) [
      | inl out ↦ rw out refl
      | inr within ↦ rw within (
          map-append condition_of (take i (view s)) (drop (suc i) (view s))
          ∙ rw (map-take condition_of i (view s))
              (rw (map-drop condition_of (suc i) (view s)) refl))
    ])

module _ ⦃g : Runtime⦄ where
  add-Leaves :
      (symbol op value : Bytes) (now : ℕ) (s : AlertService)
      → IsListed s
      → conditions (add symbol op value now s).1
        ≡ apply (call_add symbol op value now) (conditions s)
  add-Leaves symbol op value now s v = elim (view-add symbol op value now s v) [
    | inl (known, fine, told, more) ↦
        ap (map condition_of) more
        ∙ map-append condition_of (view s) (new_alert symbol op value now ∷ [])
        ∙ rw known (rw fine refl)
    | inr (refused, same) ↦
        let test : (supported_op (trim_space op) && (g.parse_float (trim_space value)).valid)
            ≡ false =
          ground arith in
        rw same (rw test refl)
  ]

  step-Leaves :
      (e : Event) (w : World)
      → IsListed w.service
      → Holds (Leaves (apply e (conditions w.service))) (step e w)
  unfolding step clear remove
  step-Leaves (call_add symbol op value now) w v = add-Leaves symbol op value now w.service v
  step-Leaves (call_remove (pos i)) w v = remove-Leaves i w.service v
  step-Leaves (call_remove (negsuc n)) w v = refl
  step-Leaves call_clear w v = refl
  step-Leaves tick w v = proceed-Leaves w w.phase tick v
  step-Leaves cancel w v = proceed-Leaves w w.phase cancel v
  step-Leaves look w v = proceed-Leaves w w.phase look v
  step-Leaves (answer q) w v = proceed-Leaves w w.phase (answer q) v

  -- From a valid world, any schedule ends well, and the conditions of the list at its end, marks
  -- aside, are those that the calls of users alone make of the conditions at its start: `Add`
  -- appends one if it accepts, `Remove` deletes at an index of the list, `Clear` deletes all, and
  -- no action of the checker changes them.
  pub run_events-replay :
      (es : List Event) (w : World)
      → IsValid w
      → (w' : World) × (run_events es w ≡ some w')
        × (conditions w'.service ≡ replay es (conditions w.service))
  unfolding run_events
  run_events-replay [] w v = (w, refl, refl)
  run_events-replay (e ∷ es) w v =
      let (w1, went, v1) = step-EndsValid e w v in
      let first : conditions w1.service ≡ apply e (conditions w.service) =
        subst (Holds (Leaves _)) went (step-Leaves e w v.listed) in
      let (w2, ended, rest) = run_events-replay es w1 v1 in
      rw (went, run_events) (w2, ended, rest ∙ ap (replay es) first)
