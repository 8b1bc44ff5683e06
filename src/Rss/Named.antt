-- ===== src/Rss/Named.antt =====
-- The dispatches that a claim of src/rss/store.ts returns have the ids that their type promises.
use my_discord_agent.Base.{
  Bool-cases, ℕ, String, ◌≡◌, refl, sym, ap, subst, ◌∙◌, ◌⊎◌, inl, inr, true, false, Option, none,
  some, List, [], ◌∷◌, Memᴰ, arith, str_eq, eq_iff,
}
use my_discord_agent.Rss.Articles.{
  ArticleDispatch, no_urls, is_pending, dispatch_job, pending_of, claimable_of, claim_new,
  claim_unread_articles,
}
use my_discord_agent.Rss.Claiming.{dispatch_of, claim_pending, claim_fresh, claim_absent}
use my_discord_agent.Rss.Feeds.{RssFeed, RssArticle, RssDb}
use my_discord_agent.Rss.Invariant.{Free, Held, RssInv}
use my_discord_agent.Rss.Joins.{join_feeds-Memᴰ}
use my_discord_agent.Rss.Reached.{RssReached, dispatches_are_sound}

abbrev Named : String → Option ArticleDispatch → Type 0
Named job_id none = Unit
Named job_id (some d) =
    (uuid : String) × (d.id ≡ some uuid) × (d.job_id ≡ some (dispatch_job job_id uuid))

-- A pending article of a sound table belongs to a whole dispatch of the job.
pending_named :
    (job_id : String) (a : RssArticle)
    → Free a ⊎ Held a
    → is_pending job_id a ≡ true
    → (uuid : String) × (a.dispatch_id ≡ some uuid)
      × (a.dispatch_job_id ≡ some (dispatch_job job_id uuid))
pending_named job_id a (inl (fd, fj, fo)) h = absurd (ground (arith, fd, fj, fo, h))
pending_named job_id a (inr (owner, uuid, hr, hd, hj, ho)) h =
    let mine : str_eq owner job_id ≡ true = ground (arith, ho, h) in
    (uuid, hd, hj ∙ ap (λ o. some (dispatch_job o uuid)) ((eq_iff owner job_id).0 mine))

pending_of-Named :
    (job_id : String) (db : RssDb) (r : RssArticle × RssFeed) (rs : List (RssArticle × RssFeed))
    → RssInv db
    → pending_of job_id db ≡ r ∷ rs
    → Named job_id (some (dispatch_of r rs))
unfolding pending_of
pending_of-Named job_id db r rs inv found =
    let (at, h) =
      join_feeds-Memᴰ (is_pending job_id) (λ f. true) db.feeds db.articles
        (subst (λ l. Memᴰ r l) (sym found) (Memᴰ.head refl)) in
    pending_named job_id r.0 (inv.whole r.0 at) h

claim_new-Named :
    (uuid job_id : String) (rows : List (RssArticle × RssFeed)) (db : RssDb)
    → Named job_id (claim_new uuid job_id rows db).0
unfolding claim_new
claim_new-Named uuid job_id [] db = tt
claim_new-Named uuid job_id (r ∷ rs) db = (uuid, refl, refl)

claim-Named :
    (uuid job_id : String) (limit : ℕ) (feed_urls : Option (List String)) (db : RssDb)
    → RssInv db
    → Named job_id (claim_unread_articles uuid job_id limit feed_urls db).0
claim-Named uuid job_id limit feed_urls db inv = elim (Bool-cases (no_urls feed_urls)) [
  | inl absent ↦
      subst (λ z. Named job_id z.0) (sym (claim_absent uuid job_id limit feed_urls db absent)) tt
  | inr urls ↦ from_pending (pending_of job_id db) refl urls
]
  where
    from_pending :
        (pending : List (RssArticle × RssFeed))
        → pending_of job_id db ≡ pending
        → no_urls feed_urls ≡ false
        → Named job_id (claim_unread_articles uuid job_id limit feed_urls db).0
    from_pending [] e urls =
        subst (λ z. Named job_id z.0) (sym (claim_fresh uuid job_id limit feed_urls db urls e))
          (claim_new-Named uuid job_id (claimable_of limit feed_urls db) db)
    from_pending (r ∷ rs) e urls =
        subst (λ z. Named job_id z.0)
          (sym (claim_pending uuid job_id limit feed_urls db r rs urls e))
          (pending_of-Named job_id db r rs inv e)

-- A dispatch that `claimUnreadArticles` returns in a reachable state of the store has an id, as its
-- type says, and the job id that is made of the claiming job and that id, though both columns may be
-- NULL.
pub dispatch_is_named :
    (uuid job_id : String) (limit : ℕ) (feed_urls : Option (List String)) {db after : RssDb}
    {d : ArticleDispatch}
    → RssReached db
    → claim_unread_articles uuid job_id limit feed_urls db ≡ (some d, after)
    → (id : String) × (d.id ≡ some id) × (d.job_id ≡ some (dispatch_job job_id id))
dispatch_is_named uuid job_id limit feed_urls {db} {after} {d} r e =
    subst (λ z. Named job_id z.0) e
      (claim-Named uuid job_id limit feed_urls db (dispatches_are_sound r))
