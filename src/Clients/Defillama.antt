-- ===== src/Clients/Defillama.antt =====
-- internal/clients/defillama.go: the value that is locked in a protocol.
use crypto_sentinel.Prelude.{List, [], ◌∷◌, ◌++◌, Bytes, Result, ok, err, map, ◌==◌, if◌then◌else◌}
use crypto_sentinel.Go.Runtime.{Runtime}
use crypto_sentinel.Go.Float64.{Float64}
use crypto_sentinel.Go.Text.{text, to_lower, trim_space}
use crypto_sentinel.Go.Decimal.{format_uint}
use crypto_sentinel.Go.Http.{Request, Response, failed, response, Prog, done, send}
use crypto_sentinel.Clients.Coingecko.{from_agent}

pub record ProtocolTvl : Type 0 where
  pub name : Bytes
  pub chain : Bytes
  pub tvl : Float64

-- The reply; `tvl` has the field TotalLiquidityUSD of each entry, and Date is never read.
pub record ProtocolReply : Type 0 where
  pub name : Bytes
  pub chain : Bytes
  pub tvl : List Float64

pub record ProtocolJson : Type 0 where
  pub decode_protocol : Bytes → Result ProtocolReply

-- strings.ReplaceAll(s, " ", "-")
abbrev dashed : Bytes → Bytes
dashed s = map (λ c. if c == b' ' then b'-' else c) s

-- data.TVL[len(data.TVL)-1] of the list with the first entry `x`
abbrev last_of : Float64 → List Float64 → Float64
last_of x [] = x
last_of x (y ∷ ys) = last_of y ys

abbrev pub latest : Bytes → ProtocolReply → List Float64 → Result ProtocolTvl
latest protocol d [] = err (text "no TVL data for " ++ protocol)
latest protocol d (x ∷ xs) = ok (record { name = d.name; chain = d.chain; tvl = last_of x xs })

module _ ⦃g : Runtime⦄ where
  abbrev slug_of : Bytes → Bytes
  slug_of protocol = to_lower (dashed (trim_space protocol))

  abbrev protocol_request : Bytes → Request
  protocol_request slug = from_agent (text "https://api.llama.fi/protocol/" ++ g.path_escape slug)

  module _ ⦃j : ProtocolJson⦄ where
    unfoldable protocol_tvl_of : Bytes → Response → Result ProtocolTvl
    protocol_tvl_of protocol (failed e) = err (text "DefiLlama request error: " ++ e)
    protocol_tvl_of protocol (response status body) =
        if status == 200
        then elim (j.decode_protocol body) [
          | err e ↦ err (text "decode error: " ++ e)
          | ok d ↦ latest protocol d d.tvl
        ]
        else err (
            text "DefiLlama status "
            ++ format_uint status
            ++ text " for '"
            ++ slug_of protocol
            ++ text "'")

    unfoldable pub fetch_protocol_tvl : Bytes → Prog (Result ProtocolTvl)
    unfolding protocol_tvl_of
    fetch_protocol_tvl protocol =
        send (protocol_request (slug_of protocol)) λ r. done (protocol_tvl_of protocol r)
