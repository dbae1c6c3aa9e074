-- ===== src/Commands/News.antt =====
-- internal/commands/news.go; `key` is the variable NEWSDATA_API_KEY.
pub mod Laws
use crypto_sentinel.Prelude.{
  ℕ, suc, List, [], ◌∷◌, ◌++◌, none, some, Bytes, Result, ok, err, length, Option, slice_to, ltb,
  ◌==◌, is_empty, if◌then◌else◌,
}
use crypto_sentinel.Go.Runtime.{Runtime}
use crypto_sentinel.Go.Text.{text, join, trim_space}
use crypto_sentinel.Go.Decimal.{format_uint}
use crypto_sentinel.Go.Http.{Response, failed, response, Prog, done, send}
use crypto_sentinel.Clients.Coingecko.{from_agent}
use crypto_sentinel.Commands.Shared.{replied}

pub record Story : Type 0 where
  pub title : Bytes
  pub link : Bytes
  pub description : Bytes
  pub source_id : Bytes
  pub pub_date : Bytes

pub record NewsJson : Type 0 where
  pub decode_news : Bytes → Result (List Story)

abbrev default_query : Bytes
default_query = text "crypto OR bitcoin OR ethereum"

-- desc[:217] + "..."; `none` is a slice out of range.
abbrev pub cut : Bytes → Option Bytes
cut desc = elim (slice_to 217 desc) [ none ↦ none | some s ↦ some (s ++ text "...") ]

-- if len(desc) > 220 { desc = desc[:217] + "..." }
unfoldable pub shortened : Bytes → Option Bytes
shortened desc = if ltb 220 (length desc) then cut desc else some desc

-- if s == "" { s = otherwise }
abbrev or_else : Bytes → Bytes → Bytes
or_else otherwise s = if is_empty s then otherwise else s

-- if s != "" { … }
abbrev story_line : Bytes → Bytes → Bytes
story_line label s = if is_empty s then [] else text "   " ++ label ++ s ++ text "\n"

module _ ⦃g : Runtime⦄ where
  abbrev pub query_of : List Bytes → Bytes
  query_of [] = default_query
  query_of (arg ∷ args) = or_else default_query (trim_space (join (arg ∷ args) (text " ")))

  -- params.Encode(): by the names in their order
  abbrev pub news_url : Bytes → Bytes → Bytes
  news_url key query =
      text "https://newsdata.io/api/1/news?apikey="
      ++ g.query_escape key
      ++ text "&category="
      ++ g.query_escape (text "business,technology")
      ++ text "&language="
      ++ g.query_escape (text "en")
      ++ text "&q="
      ++ g.query_escape query

  abbrev pub described : ℕ → Story → Bytes → Bytes
  described i r desc =
      format_uint (suc i)
      ++ text ") "
      ++ or_else (text "(no title)") (trim_space r.title)
      ++ text "\n   Source: "
      ++ or_else (text "unknown source") (trim_space r.source_id)
      ++ text "\n"
      ++ story_line [] desc
      ++ story_line (text "Time: ") r.pub_date
      ++ story_line (text "Link: ") r.link
      ++ text "\n"

  unfoldable pub story_text : ℕ → Story → Option Bytes
  unfolding shortened
  story_text i r = elim (shortened (trim_space r.description)) [
    | none ↦ none
    | some desc ↦ some (described i r desc)
  ]

  -- The loop over the stories that are shown.
  unfoldable pub stories_text : ℕ → List Story → Option Bytes
  unfolding story_text
  stories_text i [] = some []
  stories_text i (r ∷ rs) = elim (story_text i r) [
    | none ↦ none
    | some t ↦ elim (stories_text (suc i) rs) [ none ↦ none | some rest ↦ some (t ++ rest) ]
  ]

  abbrev headline : List Bytes → Bytes
  headline [] = text "📰 Crypto market headlines (NewsData.io)\n\n"
  headline (arg ∷ args) =
      text "📰 News for \"" ++ query_of (arg ∷ args) ++ text "\" (NewsData.io)\n\n"

  abbrev pub max_stories : List Story → ℕ
  max_stories results = if ltb (length results) 5 then length results else 5

  abbrev pub headed : List Bytes → Option Bytes → Option Bytes
  headed args none = none
  headed args (some lines) = some (headline args ++ lines)

  -- r := data.Results[i], for the indices below `max`; `none` is an index out of range.
  abbrev shown_text : List Bytes → Option (List Story) → Option Bytes
  shown_text args none = none
  shown_text args (some shown) = headed args (stories_text 0 shown)

  abbrev pub news_text : List Bytes → List Story → Option Bytes
  news_text args results =
      if is_empty results
      then some (text "No recent crypto news found for your query.")
      else shown_text args (slice_to (max_stories results) results)

  module _ ⦃j : NewsJson⦄ where
    abbrev pub news_reply : List Bytes → Response → Option (Result Bytes)
    news_reply args (failed e) =
        some (ok (text "❌ Failed to reach NewsData.io. Please try again later."))
    news_reply args (response status body) =
        if status == 200
        then elim (j.decode_news body) [
          | err e ↦ some (ok (text "❌ Failed to decode news data from NewsData.io."))
          | ok results ↦ replied (news_text args results)
        ]
        else some (
            ok (
              text "❌ News feed is currently unavailable (status "
              ++ format_uint status
              ++ text "). Please try again later."))

    unfoldable pub cmd_news : Bytes → List Bytes → Prog (Option (Result Bytes))
    unfolding stories_text
    cmd_news key args =
        if is_empty key
        then done (some (ok (text "News service is not configured (missing NEWSDATA_API_KEY).")))
        else elim (g.request_error (news_url key (query_of args))) [
          | some e ↦ done (some (err e))
          | none ↦ send (from_agent (news_url key (query_of args))) (λ r. done (news_reply args r))
        ]
