-- ===== src/Commands/Sentiment/Laws.antt =====
-- The classification of a sentiment treats gains and losses alike.
use crypto_sentinel.Prelude.{◌+◌, ◌<◌, ◌^◌, ◌≡◌, refl, arith, true, false, ap, ◌∙◌, sym}
use crypto_sentinel.Go.Float64.{Float64, float, lt, neg, key, is_nan, f_half, f_zero}
use crypto_sentinel.Commands.Sentiment.{
  Scores, Mood, bullish, bearish, slightly_bullish, slightly_bearish, neutral, change_score, scores,
  mood_of, f_two, f_three, f_five, f_eight, f_fifteen,
}

-- A pattern of 64 bits.
abbrev IsPattern : Float64 → Type 0
IsPattern x = x.bits < 2 ^ 64

is_nan-neg : (x : Float64) → IsPattern x → is_nan (neg x) ≡ is_nan x
unfolding is_nan
is_nan-neg x h = ground arith

key-neg : (x : Float64) → IsPattern x → key (neg x) + key x ≡ 2 ^ 64
unfolding key
key-neg x h = ground arith

key_zero : key f_zero ≡ 2 ^ 63
unfolding key
key_zero = refl

abbrev mirrored : Scores → Scores
mirrored s = record { bull = s.bear; bear = s.bull }

abbrev mirrored_mood : Mood → Mood
mirrored_mood bullish = bearish
mirrored_mood bearish = bullish
mirrored_mood slightly_bullish = slightly_bearish
mirrored_mood slightly_bearish = slightly_bullish
mirrored_mood neutral = neutral

mood_of-mirrored : (s : Scores) → mood_of (mirrored s) ≡ mirrored_mood (mood_of s)
unfolding mood_of
mood_of-mirrored s = ground arith

lt-neg : (x y : Float64) → IsPattern x → IsPattern y → lt (neg x) (neg y) ≡ lt y x
unfolding lt
lt-neg x y h k = ground (arith, key-neg x h, key-neg y k, is_nan-neg x h, is_nan-neg y k)

neg-neg : (x : Float64) → IsPattern x → neg (neg x) ≡ x
neg-neg x h = ap float (ground arith)

neg-IsPattern : (x : Float64) → IsPattern x → IsPattern (neg x)
neg-IsPattern x h = ground (arith, h)

lt-neg-right : (x y : Float64) → IsPattern x → IsPattern y → lt x (neg y) ≡ lt y (neg x)
lt-neg-right x y h k =
    sym (ap (λ z. lt z (neg y)) (neg-neg x h)) ∙ lt-neg (neg x) y (neg-IsPattern x h) k

-- A bound is a positive number.
abbrev IsBound : Float64 → Type 0
IsBound x = IsPattern x × (lt f_zero x ≡ true)

lt-apart : (x y c : Float64) → IsBound x → IsBound y → lt x c ≡ true → lt c (neg y) ≡ false
unfolding lt
lt-apart x y c h k l = ground (arith, key-neg y k.0, h.1, k.1, key_zero)

change_score-mirrored :
    (high middle low c : Float64)
    → IsBound high
    → IsBound middle
    → IsBound low
    → IsPattern c
    → change_score high middle low (neg c) ≡ mirrored (change_score high middle low c)
unfolding change_score
change_score-mirrored high middle low c h m l p =
    rw
      (
        lt-neg-right high c h.0 p,
        lt-neg-right middle c m.0 p,
        lt-neg-right low c l.0 p,
        lt-neg c high p h.0,
        lt-neg c middle p m.0,
        lt-neg c low p l.0,
      )
      (ground (
        arith,
        lt-apart high high c h h,
        lt-apart high middle c h m,
        lt-apart high low c h l,
        lt-apart middle high c m h,
        lt-apart middle middle c m m,
        lt-apart middle low c m l,
        lt-apart low high c l h,
        lt-apart low middle c l m,
        lt-apart low low c l l,
      ))

scores-mirrored :
    (ch24 ch7d : Float64)
    → IsPattern ch24
    → IsPattern ch7d
    → scores (neg ch24) (neg ch7d) ≡ mirrored (scores ch24 ch7d)
unfolding scores lt is_nan key
scores-mirrored ch24 ch7d h k =
    let day =
      change_score-mirrored f_five f_two f_half ch24 (omega arith, refl) (omega arith, refl)
        (omega arith, refl) h in
    let week =
      change_score-mirrored f_fifteen f_eight f_three ch7d (omega arith, refl) (omega arith, refl)
        (omega arith, refl) k in
    cc (day, week)

-- Changes of the opposite signs give the opposite mood, and the neutral one where that was: for
-- any two changes, of 64 bits each, a NaN among them too.
mood_of-scores-neg :
    (ch24 ch7d : Float64)
    → IsPattern ch24
    → IsPattern ch7d
    → mood_of (scores (neg ch24) (neg ch7d)) ≡ mirrored_mood (mood_of (scores ch24 ch7d))
mood_of-scores-neg ch24 ch7d h k =
    ap mood_of (scores-mirrored ch24 ch7d h k) ∙ mood_of-mirrored (scores ch24 ch7d)
