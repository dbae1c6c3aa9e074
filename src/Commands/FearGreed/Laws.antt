-- ===== src/Commands/FearGreed/Laws.antt =====
-- The interpretation of the index, and the guide that the command prints below it.
use crypto_sentinel.Prelude.{
  ℕ, Bytes, [], Bool-cases, inl, inr, leb, if◌then◌else◌, ◌≡◌, refl, arith,
}
use crypto_sentinel.Prelude.Int.{pos}
use crypto_sentinel.Go.Runtime.{Runtime}
use crypto_sentinel.Go.Text.{text, contains, has_prefix}
use crypto_sentinel.Commands.FearGreed.{
  Note, extreme_fear, fear, neutral, greed, extreme_greed, unexplained, note_of,
}

-- The guide: 0–24, 25–49, 50–54, 55–74, 75–100.
abbrev guide : ℕ → Note
guide v =
    if leb v 24
    then extreme_fear
    else if leb v 49
    then fear
    else if leb v 54
    then neutral
    else if leb v 74
    then greed
    else extreme_greed

-- The name that the guide gives a class, in lower case.
abbrev class_name : Note → Bytes
class_name extreme_fear = text "extreme fear"
class_name fear = text "fear"
class_name neutral = text "neutral"
class_name greed = text "greed"
class_name extreme_greed = text "extreme greed"
class_name unexplained = []

module _ ⦃g : Runtime⦄ where
  -- A value that comes with the class of the guide gets the interpretation of that class.
  note_of-guide : (v : ℕ) → note_of (pos v) (class_name (guide v)) ≡ guide v
  unfolding note_of contains has_prefix text
  note_of-guide v = elim (Bool-cases (leb v 24)) [
    | inl low ↦ rw low refl
    | inr above24 ↦ elim (Bool-cases (leb v 49)) [
      | inl low ↦ rw above24 (rw low refl)
      | inr above49 ↦ elim (Bool-cases (leb v 54)) [
        | inl low ↦ rw above24 (rw above49 (rw low (ground arith)))
        | inr above54 ↦ elim (Bool-cases (leb v 74)) [
          | inl low ↦ rw above24 (rw above49 (rw above54 (rw low (ground arith))))
          | inr high ↦ rw above24 (rw above49 (rw above54 (rw high (ground arith))))
        ]
      ]
    ]
  ]
