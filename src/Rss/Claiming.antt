-- ===== src/Rss/Claiming.antt =====
-- What the next claim of the same job finds in src/rss/store.ts.
use my_discord_agent.Base.{
  Bool-cases, Unique, ℕ, String, ◌≡◌, refl, sym, ap, subst, ◌∙◌, inl, inr, true, false, Option,
  none, some, List, [], ◌∷◌, map, arith,
}
use my_discord_agent.Rss.Articles.{
  ArticleDispatch, map_article, in_urls, no_urls, dispatch_job, ids_of, claim_rows, pending_of,
  claimable_of, claim_new, claim_unread_articles,
}
use my_discord_agent.Rss.Feeds.{RssFeed, RssArticle, RssDb}
use my_discord_agent.Rss.Pending.{marked, pending_after, map-marked}

abbrev pub dispatch_of : RssArticle × RssFeed → List (RssArticle × RssFeed) → ArticleDispatch
dispatch_of r rs = record {
  id = r.0.dispatch_id;
  job_id = r.0.dispatch_job_id;
  articles = map map_article (r ∷ rs);
}

pub claim_pending :
    (uuid job_id : String) (limit : ℕ) (feed_urls : Option (List String)) (db : RssDb)
    (r : RssArticle × RssFeed) (rs : List (RssArticle × RssFeed))
    → no_urls feed_urls ≡ false
    → pending_of job_id db ≡ r ∷ rs
    → claim_unread_articles uuid job_id limit feed_urls db ≡ (some (dispatch_of r rs), db)
unfolding claim_unread_articles
claim_pending uuid job_id limit feed_urls db r rs urls found = rw (urls, found) refl

pub claim_fresh :
    (uuid job_id : String) (limit : ℕ) (feed_urls : Option (List String)) (db : RssDb)
    → no_urls feed_urls ≡ false
    → pending_of job_id db ≡ []
    → claim_unread_articles uuid job_id limit feed_urls db
      ≡ claim_new uuid job_id (claimable_of limit feed_urls db) db
unfolding claim_unread_articles
claim_fresh uuid job_id limit feed_urls db urls found = rw (urls, found) refl

pub claim_absent :
    (uuid job_id : String) (limit : ℕ) (feed_urls : Option (List String)) (db : RssDb)
    → no_urls feed_urls ≡ true
    → claim_unread_articles uuid job_id limit feed_urls db ≡ (none, db)
unfolding claim_unread_articles
claim_absent uuid job_id limit feed_urls db urls = rw urls refl

-- What a new claim has taken is pending afterwards.
pending_of-claim_new :
    (uuid job_id : String) (limit : ℕ) (feed_urls : Option (List String)) (db : RssDb)
    → Unique (map (λ (a : RssArticle). a.id) db.articles)
    → pending_of job_id db ≡ []
    → pending_of job_id (record db {
      articles = claim_rows job_id uuid (ids_of (claimable_of limit feed_urls db)) db.articles;
    })
      ≡ map (marked job_id uuid) (claimable_of limit feed_urls db)
unfolding pending_of claimable_of
pending_of-claim_new uuid job_id limit feed_urls db u none_pending =
    pending_after (in_urls feed_urls) db.feeds job_id uuid
      (ids_of (claimable_of limit feed_urls db)) limit db.articles u (λ a m. refl) none_pending

module _ (uuid uuid2 job_id : String) (limit limit2 : ℕ)
    (feed_urls feed_urls2 : Option (List String)) (db : RssDb)
    (unique : Unique (map (λ (a : RssArticle). a.id) db.articles))
    (urls2 : no_urls feed_urls2 ≡ false) where
  -- A claim of the same job after a result, as the theorem states it.
  abbrev ClaimsAgain : Option ArticleDispatch × RssDb → Type 0
  ClaimsAgain out = claim_unread_articles uuid2 job_id limit2 feed_urls2 out.1 ≡ out

  new_claim_recovers :
      (rows : List (RssArticle × RssFeed)) {d : ArticleDispatch} {after : RssDb}
      → claimable_of limit feed_urls db ≡ rows
      → pending_of job_id db ≡ []
      → claim_new uuid job_id rows db ≡ (some d, after)
      → ClaimsAgain (some d, after)
  unfolding claim_new
  new_claim_recovers [] found none_pending e = absurd (ground (arith, e))
  new_claim_recovers (r ∷ rs) found none_pending e =
      let next = record db { articles = claim_rows job_id uuid (ids_of (r ∷ rs)) db.articles } in
      let pending : pending_of job_id next ≡ map (marked job_id uuid) (r ∷ rs) =
        subst
          (λ rows.
            pending_of job_id
              (record db { articles = claim_rows job_id uuid (ids_of rows) db.articles })
            ≡ map (marked job_id uuid) rows)
          found (pending_of-claim_new uuid job_id limit feed_urls db unique none_pending) in
      subst ClaimsAgain e (
        claim_pending uuid2 job_id limit2 feed_urls2 next (marked job_id uuid r)
          (map (marked job_id uuid) rs) urls2 pending
        ∙ ap
            (λ articles. (
              some (record {
                id = some uuid;
                job_id = some (dispatch_job job_id uuid);
                articles = articles;
              }),
              next,
            ))
            (map-marked job_id uuid (r ∷ rs)))

  recovers_from :
      (pending : List (RssArticle × RssFeed)) {d : ArticleDispatch} {after : RssDb}
      → pending_of job_id db ≡ pending
      → no_urls feed_urls ≡ false
      → claim_unread_articles uuid job_id limit feed_urls db ≡ (some d, after)
      → ClaimsAgain (some d, after)
  recovers_from [] found urls e =
      new_claim_recovers (claimable_of limit feed_urls db) refl found
        (sym (claim_fresh uuid job_id limit feed_urls db urls found) ∙ e)
  recovers_from (r ∷ rs) found urls e =
      subst ClaimsAgain (sym (claim_pending uuid job_id limit feed_urls db r rs urls found) ∙ e)
        (claim_pending uuid2 job_id limit2 feed_urls2 db r rs urls2 found)

-- When the ids of the articles are distinct and a claim of a job returns a dispatch, the next claim of
-- the job with any limit and any urls but an empty list of them returns the same dispatch, whatever
-- randomUUID answers, and changes nothing.
pub claim_recovers :
    (uuid uuid2 job_id : String) (limit limit2 : ℕ) (feed_urls feed_urls2 : Option (List String))
    (db after : RssDb) (d : ArticleDispatch)
    → Unique (map (λ (a : RssArticle). a.id) db.articles)
    → no_urls feed_urls2 ≡ false
    → claim_unread_articles uuid job_id limit feed_urls db ≡ (some d, after)
    → claim_unread_articles uuid2 job_id limit2 feed_urls2 after ≡ (some d, after)
claim_recovers uuid uuid2 job_id limit limit2 feed_urls feed_urls2 db after d u urls2 e =
    elim (Bool-cases (no_urls feed_urls)) [
      | inl empty ↦ absurd (ground (arith, claim_absent uuid job_id limit feed_urls db empty, e))
      | inr urls ↦
          recovers_from uuid uuid2 job_id limit limit2 feed_urls feed_urls2 db u urls2
            (pending_of job_id db) refl urls e
    ]
