-- ===== src/Main.antt =====
-- cmd/cryptosentinel/main.go: the start of the program, and the agent that it starts.
pub mod Laws
use crypto_sentinel.Prelude.{
  ℕ, ◌*◌, ◌^◌, List, [], ◌∷◌, ◌++◌, Option, none, some, Bytes, is_empty, if◌then◌else◌,
}
use crypto_sentinel.Go.Text.{text}
use crypto_sentinel.Clients.Config.{HttpClient, Clients, new_clients}
use crypto_sentinel.Services.AlertService.{AlertService, new_alert_service}
use crypto_sentinel.Agent.{Environment}

-- internal/agent/agent.go. The router is left out: it holds the same two pointers.
pub record CryptoSentinelAgent : Type 0 where
  pub alert_svc : AlertService
  pub api_client : Clients

abbrev new_crypto_sentinel_agent : Clients → AlertService → CryptoSentinelAgent
new_crypto_sentinel_agent api_clients alert_svc = record {
  alert_svc = alert_svc;
  api_client = api_clients;
}

-- What the commands of an agent read from the environment: the key of CoinMarketCap when the
-- clients were made, the others at each call.
abbrev pub environment_of : (Bytes → Bytes) → CryptoSentinelAgent → Environment
environment_of getenv a = record {
  cmc_api_key = a.api_client.cmc_api_key;
  owlracle_api_key = getenv (text "OWLRACLE_API_KEY");
  newsdata_api_key = getenv (text "NEWSDATA_API_KEY");
  covalent_api_key = getenv (text "COVALENT_API_KEY");
}

-- The fields of the configuration that `main` sets; the others are those of teneo.DefaultConfig.
pub record AgentConfig : Type 0 where
  pub health_port : ℕ
  pub name : Bytes
  pub description : Bytes
  pub capabilities : List Bytes
  pub private_key : Bytes
  pub nft_token_id : Bytes
  pub owner_address : Bytes

-- What `main` does, in order: log.Fatal with its text, which ends the program, the start of the
-- checker, log.Println, and `Run` of an agent.
pub data Action : Type 0 where
  fatal : Bytes → Action
  start_background_jobs : Action
  println : Bytes → Action
  serve : AgentConfig → CryptoSentinelAgent → Action

abbrev pub unset : Bytes → Bytes
unset name = text "ENV ERROR: " ++ name ++ text " belum di-set. Set di Railway → Variables."

abbrev pub configured : Bytes → Bytes → Bytes → AgentConfig
configured private_key nft_token_id owner_address = record {
  health_port = 9090;
  name = text "CryptoSentinel AI";
  description =
      text "CryptoSentinel AI is a crypto market agent that delivers real-time prices, "
      ++ text "top market overviews, DeFi TVL, CEX gainers comparison, conversions, "
      ++ text "and price alerts.";
  capabilities =
      text "price_tracking"
      ∷ text "market_comparison"
      ∷ text "tvl_monitoring"
      ∷ text "top_market"
      ∷ text "gainers_cex"
      ∷ text "alert_management"
      ∷ text "chain_tvl"
      ∷ text "protocol_tvl"
      ∷ [];
  private_key = private_key;
  nft_token_id = nft_token_id;
  owner_address = owner_address;
}

-- The agent with its clients and its service; `getenv` is the environment after godotenv.Load.
abbrev pub app_agent : (Bytes → Bytes) → CryptoSentinelAgent
app_agent getenv =
    new_crypto_sentinel_agent (new_clients getenv (some (record { timeout = 20 * 10 ^ 9 })))
      new_alert_service

-- The environment, and the error of teneo.NewEnhancedAgent, if it is not nil.
module _ (getenv : Bytes → Bytes) (create_error : AgentConfig → Option Bytes) where
  -- `main` from the configuration on.
  abbrev launch : AgentConfig → Option Bytes → List Action
  launch cfg (some e) = fatal (text "Failed to create enhanced agent: " ++ e) ∷ []
  launch cfg none =
      start_background_jobs
      ∷ println (text "Starting CryptoSentinel AI...")
      ∷ serve cfg (app_agent getenv)
      ∷ []

  unfoldable pub main : List Action
  main =
      let private_key = getenv (text "PRIVATE_KEY") in
      let nft_token_id = getenv (text "NFT_TOKEN_ID") in
      let owner_address = getenv (text "OWNER_ADDRESS") in
      let cfg = configured private_key nft_token_id owner_address in
      if is_empty private_key
      then fatal (unset (text "PRIVATE_KEY")) ∷ []
      else if is_empty nft_token_id
      then fatal (unset (text "NFT_TOKEN_ID")) ∷ []
      else if is_empty owner_address
      then fatal (unset (text "OWNER_ADDRESS")) ∷ []
      else launch cfg (create_error cfg)
