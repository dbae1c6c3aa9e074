-- ===== src/Commands/Price/Laws.antt =====
-- The summary of `compare`.
use crypto_sentinel.Prelude.{true, ◌≡◌, ◌⊎◌, inl, inr, refl, Bool-cases}
use crypto_sentinel.Go.Runtime.{Runtime}
use crypto_sentinel.Go.Float64.{lt}
use crypto_sentinel.Go.Float64.Order.{lt_asymm}
use crypto_sentinel.Models.{CoinMarket}
use crypto_sentinel.Commands.Price.{day_winner, week_winner, size_winner, summary_text}

module _ ⦃g : Runtime⦄ where
  day_winner_comm :
      (a b : CoinMarket)
      → (lt a.price_change_pct24h b.price_change_pct24h ≡ true)
        ⊎ (lt b.price_change_pct24h a.price_change_pct24h ≡ true)
      → day_winner a b ≡ day_winner b a
  unfolding day_winner
  day_winner_comm a b (inl h) = rw (h, day_winner) (rw (lt_asymm _ _ h, day_winner) refl)
  day_winner_comm a b (inr h) = rw (h, day_winner) (rw (lt_asymm _ _ h, day_winner) refl)

  week_winner_comm :
      (a b : CoinMarket)
      → (lt a.price_change_pct7d b.price_change_pct7d ≡ true)
        ⊎ (lt b.price_change_pct7d a.price_change_pct7d ≡ true)
      → week_winner a b ≡ week_winner b a
  unfolding week_winner
  week_winner_comm a b (inl h) = rw (h, week_winner) (rw (lt_asymm _ _ h, week_winner) refl)
  week_winner_comm a b (inr h) = rw (h, week_winner) (rw (lt_asymm _ _ h, week_winner) refl)

  size_winner_comm : (a b : CoinMarket) → size_winner a b ≡ size_winner b a
  unfolding size_winner
  size_winner_comm a b = elim (Bool-cases (lt b.market_cap a.market_cap)) [
    | inl h ↦ rw (h, size_winner) (rw (lt_asymm _ _ h, size_winner) refl)
    | inr h ↦ rw (h, size_winner) refl
  ]

  -- Of two coins with different changes over a day and over a week, `compare` names the same
  -- winners of all three contests, in the same words, whichever coin is named first.
  summary_text_comm :
      (a b : CoinMarket)
      → (lt a.price_change_pct24h b.price_change_pct24h ≡ true)
        ⊎ (lt b.price_change_pct24h a.price_change_pct24h ≡ true)
      → (lt a.price_change_pct7d b.price_change_pct7d ≡ true)
        ⊎ (lt b.price_change_pct7d a.price_change_pct7d ≡ true)
      → summary_text a b ≡ summary_text b a
  summary_text_comm a b day week =
      rw (day_winner_comm a b day) (rw (week_winner_comm a b week) (rw (size_winner_comm a b) refl))
