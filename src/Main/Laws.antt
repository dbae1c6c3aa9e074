-- ===== src/Main/Laws.antt =====
-- The program from its start to the reply to a task.
use crypto_sentinel.Prelude.{
  ℕ, true, false, List, [], ◌∷◌, ◌++◌, Option, none, some, Bytes, is_empty, ◌≡◌,
}
use crypto_sentinel.Go.Runtime.{Runtime}
use crypto_sentinel.Go.Sort.{Sorter}
use crypto_sentinel.Go.Chance.{Chance}
use crypto_sentinel.Go.Text.{text}
use crypto_sentinel.Go.Http.Laws.{Returns}
use crypto_sentinel.Services.AlertService.Checker.{World, idle, Event, run_events}
use crypto_sentinel.Agent.{Decoders, process_task}
use crypto_sentinel.Agent.Sessions.{Continues}
use crypto_sentinel.Main.{
  CryptoSentinelAgent, AgentConfig, fatal, start_background_jobs, println, serve, unset, configured,
  environment_of, main,
}

-- The world in which an agent starts: its checker waits for the first tick.
abbrev world_of : CryptoSentinelAgent → World
world_of a = record { service = a.alert_svc; phase = idle; log = [] }

module _ (getenv : Bytes → Bytes) (create_error : AgentConfig → Option Bytes) where
  abbrev IsGiven : Bytes → Type 0
  IsGiven name = is_empty (getenv name) ≡ false

  abbrev IsMissing : Bytes → Type 0
  IsMissing name = is_empty (getenv name) ≡ true

  abbrev config : AgentConfig
  config =
      configured (getenv (text "PRIVATE_KEY")) (getenv (text "NFT_TOKEN_ID"))
        (getenv (text "OWNER_ADDRESS"))

  -- The variables of the agent are set, and the agent library makes the agent.
  pub record IsReady : Type 0 where
    pub key : IsGiven (text "PRIVATE_KEY")
    pub token : IsGiven (text "NFT_TOKEN_ID")
    owner : IsGiven (text "OWNER_ADDRESS")
    created : create_error config ≡ none

  -- Why there is no agent, with the last line of the program: the first variable that is not set,
  -- or the error of the agent library.
  pub data IsRefusal : Bytes → Type 0 where
    no_key : IsMissing (text "PRIVATE_KEY") → IsRefusal (unset (text "PRIVATE_KEY"))
    no_token :
        IsGiven (text "PRIVATE_KEY")
        → IsMissing (text "NFT_TOKEN_ID")
        → IsRefusal (unset (text "NFT_TOKEN_ID"))
    no_owner :
        IsGiven (text "PRIVATE_KEY")
        → IsGiven (text "NFT_TOKEN_ID")
        → IsMissing (text "OWNER_ADDRESS")
        → IsRefusal (unset (text "OWNER_ADDRESS"))
    not_created :
        (e : Bytes)
        → create_error config ≡ some e
        → IsRefusal (text "Failed to create enhanced agent: " ++ e)

  -- The program ends with one line and nothing started.
  abbrev pub Refuses : Type 0
  Refuses = (msg : Bytes) × (main getenv create_error ≡ fatal msg ∷ []) × IsRefusal msg

  -- The checker is started, and then the agent `a`.
  abbrev Serves : CryptoSentinelAgent → Type 0
  Serves a =
      main getenv create_error
      ≡ start_background_jobs ∷ println (text "Starting CryptoSentinel AI...") ∷ serve config a ∷ []

  module _ ⦃g : Runtime⦄ ⦃s : Sorter⦄ ⦃c : Chance⦄ (d : Decoders) where
    -- The agent starts, and answers a task that comes after the schedule.
    pub record Answers (es : List Event) (now : ℕ) (task : Bytes) (a : CryptoSentinelAgent)
        : Type 0 where
      ready : IsReady
      serves : Serves a
      pub answers :
          (w : World) × (run_events es (world_of a) ≡ some w)
          × Returns (Continues es w) (process_task d (environment_of getenv a) now task w.service)
