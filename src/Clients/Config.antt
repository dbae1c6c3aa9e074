-- ===== src/Clients/Config.antt =====
-- internal/clients/clients.go: what every client holds.
use crypto_sentinel.Prelude.{ℕ, Option, none, some, Bytes}
use crypto_sentinel.Go.Text.{text}

-- The field of an http.Client that the code sets: the timeout in nanoseconds, where 0 is none.
pub record HttpClient : Type 0 where
  pub timeout : ℕ

pub record Clients : Type 0 where
  pub http : HttpClient
  pub cmc_api_key : Bytes

abbrev http_or_default : Option HttpClient → HttpClient
http_or_default none = record { timeout = 0 }
http_or_default (some c) = c

-- NewClients; `none` is the nil pointer, and `getenv` is os.Getenv.
unfoldable pub new_clients : (Bytes → Bytes) → Option HttpClient → Clients
new_clients getenv http_client = record {
  http = http_or_default http_client;
  cmc_api_key = getenv (text "CMC_API_KEY");
}
