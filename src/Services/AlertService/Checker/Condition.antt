-- ===== src/Services/AlertService/Checker/Condition.antt =====
-- The condition of an alert, and the checker's switch on its operator.
use crypto_sentinel.Prelude.{true, false, Bytes, ◌≡◌, arith, Bool-cases, inl, inr, ◌↔◌}
use crypto_sentinel.Go.Float64.{Float64, is_nan, lt, le}
use crypto_sentinel.Go.Text.{text, beq}
use crypto_sentinel.Go.Text.Laws.{beq_iff}
use crypto_sentinel.Services.AlertService.Checker.{op_holds}

-- The condition of an alert, as its user means it.
pub data Meets (op : Bytes) (price value : Float64) : Type 0 where
  above : op ≡ text ">" → lt value price ≡ true → Meets op price value
  below : op ≡ text "<" → lt price value ≡ true → Meets op price value
  at_least : op ≡ text ">=" → le value price ≡ true → Meets op price value
  at_most : op ≡ text "<=" → le price value ≡ true → Meets op price value

op_holds→Meets :
    (op : Bytes) (price value : Float64) → op_holds op price value ≡ true → Meets op price value
unfolding op_holds
op_holds→Meets op price value h = elim (Bool-cases (beq op (text ">"))) [
  | inl a ↦ above ((beq_iff op _).0 a) (ground arith)
  | inr a ↦ elim (Bool-cases (beq op (text "<"))) [
    | inl b ↦ below ((beq_iff op _).0 b) (ground arith)
    | inr b ↦ elim (Bool-cases (beq op (text ">="))) [
      | inl c ↦ at_least ((beq_iff op _).0 c) (ground arith)
      | inr c ↦ elim (Bool-cases (beq op (text "<="))) [
        | inl d ↦ at_most ((beq_iff op _).0 d) (ground arith)
        | inr d ↦ absurd (ground arith)
      ]
    ]
  ]
]

Meets→op_holds :
    (op : Bytes) (price value : Float64) → Meets op price value → op_holds op price value ≡ true
unfolding op_holds beq text
Meets→op_holds op price value (above e h) = rw e h
Meets→op_holds op price value (below e h) = rw e h
Meets→op_holds op price value (at_least e h) = rw e h
Meets→op_holds op price value (at_most e h) = rw e h

-- The switch of the checker decides the condition: it fires on exactly the prices that meet it,
-- and on no price for any other operator.
pub op_holds_iff :
    (op : Bytes) (price value : Float64) → (op_holds op price value ≡ true) ↔ Meets op price value
op_holds_iff op price value = (op_holds→Meets op price value, Meets→op_holds op price value)

-- An alert on a value that is not a number never fires, at any price and for any operator.
op_holds-nan :
    (op : Bytes) (price value : Float64) → is_nan value ≡ true → op_holds op price value ≡ false
unfolding op_holds lt le
op_holds-nan op price value h = ground arith
