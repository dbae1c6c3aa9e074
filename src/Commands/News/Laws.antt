-- ===== src/Commands/News/Laws.antt =====
-- No index that `news` computes is out of range.
use crypto_sentinel.Prelude.{
  ℕ, suc, List, [], ◌∷◌, none, some, Option, Bytes, ok, length, take, ltb, ◌==◌, is_empty, IsSome,
  slice_to-take, if-elim, arith, Bool-cases, Option-cases, inl, inr, ◌++◌,
}
use crypto_sentinel.Go.Runtime.{Runtime}
use crypto_sentinel.Go.Text.{text, trim_space}
use crypto_sentinel.Go.Http.{Response, failed, response}
use crypto_sentinel.Go.Http.Laws.{Returns}
use crypto_sentinel.Commands.Shared.{replied, replied-IsSome, decoded-IsSome}
use crypto_sentinel.Commands.News.{
  Story, NewsJson, shortened, story_text, stories_text, headed, described, max_stories, news_text,
  news_reply, news_url, query_of, cmd_news,
}

shortened-IsSome : (desc : Bytes) → IsSome (shortened desc)
unfolding shortened
shortened-IsSome desc = elim (Bool-cases (ltb 220 (length desc))) [
  | inl long ↦ rw long (rw (slice_to-take 217 desc (ground (arith, long)), IsSome) tt)
  | inr short ↦ rw (short, IsSome) tt
]

module _ ⦃g : Runtime⦄ where
  story_text-IsSome : (i : ℕ) (r : Story) → IsSome (story_text i r)
  unfolding story_text
  story_text-IsSome i r =
      elim (shortened (trim_space r.description))
          as (λ o.
            IsSome o → IsSome (elim o [ none ↦ none | some desc ↦ some (described i r desc) ])) [
              | none ↦ λ h. h
              | some desc ↦ λ h. tt
            ]
        (shortened-IsSome (trim_space r.description))

  stories_text-IsSome : (i : ℕ) (rs : List Story) → IsSome (stories_text i rs)
  unfolding stories_text
  stories_text-IsSome i [] = tt
  stories_text-IsSome i (r ∷ rs) =
      both (story_text i r) (stories_text (suc i) rs) (story_text-IsSome i r)
        (stories_text-IsSome (suc i) rs)
    where
      both :
          (o p : Option Bytes)
          → IsSome o
          → IsSome p
          → IsSome (elim o [
            | none ↦ none
            | some t ↦ elim p [ none ↦ none | some rest ↦ some (t ++ rest) ]
          ])
      both none p h k = h
      both (some t) none h k = k
      both (some t) (some rest) h k = tt

  headed-IsSome : (args : List Bytes) (o : Option Bytes) → IsSome o → IsSome (headed args o)
  headed-IsSome args none h = h
  headed-IsSome args (some t) h = tt

  news_text-IsSome : (args : List Bytes) (results : List Story) → IsSome (news_text args results)
  news_text-IsSome args results = if-elim IsSome (is_empty results) _ _ tt (
      rw (slice_to-take (max_stories results) results (ground arith), IsSome)
        (headed-IsSome args _ (stories_text-IsSome 0 (take (max_stories results) results))))

  module _ ⦃j : NewsJson⦄ where
    news_reply-IsSome : (args : List Bytes) (r : Response) → IsSome (news_reply args r)
    news_reply-IsSome args (failed e) = tt
    news_reply-IsSome args (response status body) =
        if-elim IsSome (status == 200) _ _
          (decoded-IsSome (j.decode_news body)
            (λ e. some (ok (text "❌ Failed to decode news data from NewsData.io.")))
            (λ results. replied (news_text args results)) (λ e. tt)
            (λ results. replied-IsSome (news_text args results) (news_text-IsSome args results)))
          tt

    pub cmd_news-IsSome : (key : Bytes) (args : List Bytes) → Returns IsSome (cmd_news key args)
    unfolding cmd_news
    cmd_news-IsSome key args =
        if-elim (Returns IsSome) (is_empty key) _ _ tt
          (elim (Option-cases (g.request_error (news_url key (query_of args)))) [
            | inl fine ↦ rw (fine, Returns) (λ r. news_reply-IsSome args r)
            | inr (e, bad) ↦ rw (bad, Returns) tt
          ])
