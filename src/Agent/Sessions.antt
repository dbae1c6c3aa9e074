-- ===== src/Agent/Sessions.antt =====
-- The agent beside the checker: a task comes at any time of a schedule.
use crypto_sentinel.Prelude.{some, List, [], ◌∷◌, ◌++◌, ◌≡◌, ◌⊎◌, IsSome}
use crypto_sentinel.Go.Runtime.{Runtime}
use crypto_sentinel.Go.Chance.{Chance}
use crypto_sentinel.Services.AlertService.Checker.{World, Event, run_events, start}
use crypto_sentinel.Agent.{Answer}

module _ ⦃g : Runtime⦄ where
  -- There is a reply, and what comes next in the world is as the schedule is left, or as one more
  -- event of a user leaves it.
  abbrev pub Continues : List Event → World → Answer → Type 0
  Continues es w (r, s) =
      IsSome r
      × ((s ≡ w.service)
          ⊎ ((e : Event) × (run_events (es ++ e ∷ []) start ≡ some (record w { service = s }))))
