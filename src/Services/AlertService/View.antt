-- ===== src/Services/AlertService/View.antt =====
-- The service as its users see it: a list of alerts, without addresses. `Add` appends, `Remove`
-- deletes at an index, and `List` prints that list.
use crypto_sentinel.Prelude.{
  ℕ, zero, suc, ◌+◌, ◌<◌, Bool, true, ltb, false, ◌||◌, List, [], ◌∷◌, ◌++◌, some, Bytes, ok,
  length, get_elem?, take, drop, is_empty, All, filter_map, filter_map-keep, leb, if◌then◌else◌,
  ◌≡◌, refl, sym, ap, ◌∙◌, append_assoc, arith, get_elem?-append, get_elem?-length, get_elem?-lt,
  ◌⊎◌, inl, inr, Bool-cases,
}
use crypto_sentinel.Prelude.Int.{ℤ, pos, negsuc}
use crypto_sentinel.Go.Runtime.{Runtime}
use crypto_sentinel.Go.Text.{text, beq, trim_space, to_upper}
use crypto_sentinel.Go.Decimal.{format_uint}
use crypto_sentinel.Services.Format.{format_float}
use crypto_sentinel.Models.{PriceAlert}
use crypto_sentinel.Services.AlertService.{
  AlertService, add, added, added_message, new_alert, supported_op, list, list_line, list_lines,
  remove,
}

-- The alerts of the list, in order.
abbrev alerts_at : List PriceAlert → List ℕ → List PriceAlert
alerts_at heap ps = filter_map (get_elem? heap) ps

abbrev pub view : AlertService → List PriceAlert
view s = alerts_at s.heap s.alerts

-- Every pointer of the list is to an alert.
abbrev pub IsListed : AlertService → Type 0
IsListed s = All (λ p. p < length s.heap) s.alerts

alerts_at-grown :
    (h : List PriceAlert) (a : PriceAlert) (ps : List ℕ)
    → All (λ p. p < length h) ps
    → alerts_at (h ++ a ∷ []) (ps ++ length h ∷ []) ≡ alerts_at h ps ++ a ∷ []
alerts_at-grown h a [] b =
    filter_map-keep (get_elem? (h ++ a ∷ [])) (length h) [] a (get_elem?-length h a)
alerts_at-grown h a (p ∷ ps) (b, bs) =
    let (x, e) = get_elem?-lt h p b in
    filter_map-keep (get_elem? (h ++ a ∷ [])) p (ps ++ length h ∷ []) x
      (get_elem?-append h (a ∷ []) p b ∙ e)
    ∙ ap (◌∷◌ x) (alerts_at-grown h a ps bs)
    ∙ ap (λ l. l ++ a ∷ []) (sym (filter_map-keep (get_elem? h) p ps x e))

length-alerts_at :
    (h : List PriceAlert) (ps : List ℕ)
    → All (λ p. p < length h) ps
    → length (alerts_at h ps) ≡ length ps
length-alerts_at h [] b = refl
length-alerts_at h (p ∷ ps) (b, bs) =
    let (x, e) = get_elem?-lt h p b in
    ap length (filter_map-keep (get_elem? h) p ps x e) ∙ ap suc (length-alerts_at h ps bs)

alerts_at-remove :
    (h : List PriceAlert) (i : ℕ) (ps : List ℕ)
    → All (λ p. p < length h) ps
    → alerts_at h (take i ps ++ drop (suc i) ps)
      ≡ take i (alerts_at h ps) ++ drop (suc i) (alerts_at h ps)
alerts_at-remove h zero [] b = refl
alerts_at-remove h (suc i) [] b = refl
alerts_at-remove h zero (p ∷ ps) (b, bs) =
    let (x, e) = get_elem?-lt h p b in rw (filter_map-keep (get_elem? h) p ps x e) refl
alerts_at-remove h (suc i) (p ∷ ps) (b, bs) =
    let (x, e) = get_elem?-lt h p b in
    filter_map-keep (get_elem? h) p (take i ps ++ drop (suc i) ps) x e
    ∙ ap (◌∷◌ x) (alerts_at-remove h i ps bs)
    ∙ ap (λ l. take (suc i) l ++ drop (suc (suc i)) l)
        (sym (filter_map-keep (get_elem? h) p ps x e))

supported_op-ne-eq :
    (o : Bytes) → supported_op o ≡ true → (beq o (text "==") || beq o (text "=")) ≡ false
unfolding supported_op beq text
supported_op-ne-eq [] h = cc
supported_op-ne-eq (c ∷ []) h = ground arith
supported_op-ne-eq (c ∷ d ∷ o) h = ground arith

pub view-remove_index :
    (i : ℕ) (s : AlertService)
    → IsListed s
    → ((remove (pos i) s).0
        ≡ (if leb (length (view s)) i then text "Invalid alert index." else text "Alert removed."))
      × (view (remove (pos i) s).1
          ≡ (if leb (length (view s)) i then view s else take i (view s) ++ drop (suc i) (view s)))
unfolding remove
view-remove_index i s b =
    rw (length-alerts_at s.heap s.alerts b) (elim (Bool-cases (leb (length s.alerts) i)) [
      | inl out ↦ rw out (refl, refl)
      | inr within ↦ rw within (refl, alerts_at-remove s.heap i s.alerts b)
    ])

-- The index is one of a list of `n` members.
abbrev pub is_within : ℤ → ℕ → Bool
is_within (negsuc k) n = false
is_within (pos i) n = ltb i n

-- `Remove` at an index of the list deletes the alert there, and tells so. At any other index,
-- negative or behind the list, it tells that the index is not valid, and changes nothing.
pub view-remove :
    (i : ℤ) (s : AlertService)
    → IsListed s
    → ((k : ℕ) × (i ≡ pos k)
        × (k < length (view s))
        × ((remove i s).0 ≡ text "Alert removed.")
        × (view (remove i s).1 ≡ take k (view s) ++ drop (suc k) (view s)))
      ⊎ ((is_within i (length (view s)) ≡ false)
          × ((remove i s).0 ≡ text "Invalid alert index.")
          × ((remove i s).1 ≡ s))
unfolding remove
view-remove (negsuc n) s b = inr (refl, refl, refl)
view-remove (pos i) s b =
    let size = length-alerts_at s.heap s.alerts b in
    let (told, left) = view-remove_index i s b in
    elim (Bool-cases (leb (length (view s)) i)) [
      | inl out ↦
          let out' : leb (length s.alerts) i ≡ true = rw size at out in
          inr (ground (arith, out), rw out' refl, rw out' refl)
      | inr within ↦
          inl (i, refl, ground (arith, within), told ∙ (rw within refl), left ∙ (rw within refl))
    ]

module _ ⦃g : Runtime⦄ where
  pub add_accepts :
      (symbol op value : Bytes) (now : ℕ) (s : AlertService)
      → supported_op (trim_space op) ≡ true
      → (g.parse_float (trim_space value)).valid ≡ true
      → add symbol op value now s ≡ (
        ok (added_message (length s.alerts) (new_alert symbol op value now)),
        added symbol op value now s,
      )
  unfolding add
  add_accepts symbol op value now s known fine =
      let o = trim_space op in rw (supported_op-ne-eq o known) (rw known (rw fine refl))

  -- If the trimmed operator is one of the four and the trimmed value is a number, `Add` appends
  -- the new alert to the list and names its index there, and the error is nil. Otherwise the
  -- list stays as it was.
  pub view-add :
      (symbol op value : Bytes) (now : ℕ) (s : AlertService)
      → IsListed s
      → let a = new_alert symbol op value now in
        let r = add symbol op value now s in
        ((supported_op (trim_space op) ≡ true)
          × ((g.parse_float (trim_space value)).valid ≡ true)
          × (r.0 ≡ ok (added_message (length (view s)) a))
          × (view r.1 ≡ view s ++ a ∷ []))
        ⊎ (((supported_op (trim_space op) ≡ false)
              ⊎ ((g.parse_float (trim_space value)).valid ≡ false))
            × (r.1 ≡ s))
  unfolding add
  view-add symbol op value now s b =
      rw (length-alerts_at s.heap s.alerts b) (elim (Bool-cases (supported_op (trim_space op))) [
        | inr other ↦ inr (inl other, ground arith)
        | inl known ↦ elim (Bool-cases (g.parse_float (trim_space value)).valid) [
          | inr bad ↦ inr (inr bad, ground arith)
          | inl fine ↦ inl (
            known,
            fine,
            ap (λ r. r.0) (add_accepts symbol op value now s known fine),
            ap (λ r. view r.1) (add_accepts symbol op value now s known fine)
                ∙ alerts_at-grown s.heap (new_alert symbol op value now) s.alerts b,
          )
        ]
      ])

  -- The line of an alert: its index, the symbol in upper case, the condition, and the mark.
  abbrev pub printed_line : ℕ → PriceAlert → Bytes
  printed_line i a =
      format_uint i
      ++ text ") "
      ++ to_upper a.symbol
      ++ text " "
      ++ a.op
      ++ text " "
      ++ format_float a.value
      ++ text " ["
      ++ (if a.triggered then text "triggered" else text "open")
      ++ text "]\n"

  list_line-printed_line : (i : ℕ) (a : PriceAlert) → list_line i a ≡ printed_line i a
  list_line-printed_line i a = elim (Bool-cases a.triggered) [
    | inl old ↦ rw old refl
    | inr new ↦ rw new refl
  ]

  -- The lines that are printed for a list of alerts, the first of which has the index `i`.
  abbrev pub print_from : ℕ → List PriceAlert → Bytes
  print_from i [] = []
  print_from i (a ∷ l) = printed_line i a ++ print_from (suc i) l

  list_lines-alerts_at :
      (h : List PriceAlert) (i : ℕ) (ps : List ℕ)
      → All (λ p. p < length h) ps
      → list_lines h i ps ≡ some (print_from i (alerts_at h ps))
  unfolding list_lines
  list_lines-alerts_at h i [] b = refl
  list_lines-alerts_at h i (p ∷ ps) (b, bs) =
      let (x, e) = get_elem?-lt h p b in
      rw (e, list_lines)
        (rw (list_lines-alerts_at h (suc i) ps bs) (
          ap (λ l. some (l ++ print_from (suc i) (alerts_at h ps))) (list_line-printed_line i x)
          ∙ ap (λ l. some (print_from i l)) (sym (filter_map-keep (get_elem? h) p ps x e))))

  abbrev pub shown : List PriceAlert → Bytes
  shown l =
      if is_empty l then text "No active alerts." else text "Active alerts:\n" ++ print_from 0 l

  list-alerts_at :
      (h : List PriceAlert) (ps : List ℕ)
      → All (λ p. p < length h) ps
      → list (record { heap = h; alerts = ps }) ≡ some (shown (alerts_at h ps))
  unfolding list
  list-alerts_at h [] b = refl
  list-alerts_at h (p ∷ ps) (b, bs) =
      let (x, e) = get_elem?-lt h p b in
      let kept = filter_map-keep (get_elem? h) p ps x e in
      rw (list_lines-alerts_at h 0 (p ∷ ps) (b, bs)) (
        ap (λ l. some (text "Active alerts:\n" ++ print_from 0 l)) kept
        ∙ ap (λ l. some (shown l)) (sym kept))

  -- `List` never uses a dangling pointer. It tells that there is no alert, or prints a title and a
  -- line for each alert of the list, with its index.
  pub list-view : (s : AlertService) → IsListed s → list s ≡ some (shown (view s))
  list-view s b = list-alerts_at s.heap s.alerts b

  print_from-line :
      (k i : ℕ) (l : List PriceAlert) (a : PriceAlert)
      → get_elem? l i ≡ some a
      → (before after : Bytes) × (print_from k l ≡ before ++ (printed_line (k + i) a ++ after))
  print_from-line k i [] a e = absurd (cc)
  print_from-line k zero (b ∷ l) a e =
      let ba : b ≡ a = cc in
      let kk : k + 0 ≡ k = omega arith in ([], print_from (suc k) l, rw ba (rw kk refl))
  print_from-line k (suc i) (b ∷ l) a e =
      let (before, after, parts) = print_from-line (suc k) i l a e in
      let kk : suc k + i ≡ k + suc i = omega arith in
      (
        printed_line k b ++ before,
        after,
        ap (λ t. printed_line k b ++ t) parts
            ∙ sym (append_assoc (printed_line k b) before (printed_line (suc k + i) a ++ after))
            ∙ ap (λ n. (printed_line k b ++ before) ++ (printed_line n a ++ after)) kk,
      )

  shown-some :
      (l : List PriceAlert) (i : ℕ) (a : PriceAlert)
      → get_elem? l i ≡ some a
      → shown l ≡ text "Active alerts:\n" ++ print_from 0 l
  shown-some [] i a e = absurd (cc)
  shown-some (b ∷ l) i a e = refl

  -- `List` prints the alert at an index of the list with that index.
  pub list-line :
      (i : ℕ) (s : AlertService) (a : PriceAlert)
      → IsListed s
      → get_elem? (view s) i ≡ some a
      → (before after : Bytes) × (list s ≡ some (before ++ (printed_line i a ++ after)))
  list-line i s a b e =
      let (before, after, parts) = print_from-line 0 i (view s) a e in
      let zeroed : 0 + i ≡ i = omega arith in
      (
        text "Active alerts:\n" ++ before,
        after,
        list-view s b
            ∙ ap some (shown-some (view s) i a e)
            ∙ ap (λ t. some (text "Active alerts:\n" ++ t))
                (parts ∙ ap (λ n. before ++ (printed_line n a ++ after)) zeroed)
            ∙ ap some
                (sym (append_assoc (text "Active alerts:\n") before (printed_line i a ++ after))),
      )
