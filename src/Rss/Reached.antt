-- ===== src/Rss/Reached.antt =====
-- The tables of src/rss/store.ts that its operations can reach from an empty database.
use mathlib.Core.List.Memᴰ
use my_discord_agent.Base.{
  ◌==◌, Unique, map-update_rows, ℕ, String, ◌≡◌, refl, sym, subst, Option, List, [], map,
}
use my_discord_agent.Rss.Articles.{
  claim_unread_articles, release_dispatch_articles, mark_articles_read,
}
use my_discord_agent.Rss.ClaimInvariant.{claim-RssInv}
use my_discord_agent.Rss.Feeds.{RssFeed, RssDb, touch_feed, SaveInput, saved, save_feed_entries}
use my_discord_agent.Rss.Invariant.{ArticlesInv, RssInv, release-RssInv, mark_read-RssInv}
use my_discord_agent.Rss.Saving.{save-RssInv}

pub data RssReached : RssDb → Type 0 where
  empty_store : RssReached (record { feeds = []; articles = [] })
  feed_touched :
      {db : RssDb} (now : String) (feed_id : ℕ) (name : Option String)
      → RssReached db
      → RssReached (touch_feed now feed_id name db)
  stored :
      {db after : RssDb} {n : ℕ} (now : String) (input : SaveInput)
      → RssReached db
      → save_feed_entries now input db ≡ saved n after
      → RssReached after
  claimed_some :
      {db : RssDb} (uuid job_id : String) (limit : ℕ) (feed_urls : Option (List String))
      → RssReached db
      → RssReached (claim_unread_articles uuid job_id limit feed_urls db).1
  released_some :
      {db : RssDb} (dispatch_id : String) (ids : List ℕ)
      → RssReached db
      → RssReached (release_dispatch_articles dispatch_id ids db)
  marked_read :
      {db : RssDb} (now : String) (ids : List ℕ)
      → RssReached db
      → RssReached (mark_articles_read now ids db)

empty-RssInv : RssInv (record { feeds = []; articles = [] })
unfolding Unique
empty-RssInv = record {
  keys = tt;
  homes = λ a m. absurd (Memᴰ.not-nil m);
  whole = λ a m. absurd (Memᴰ.not-nil m);
  one_dispatch = λ a b owner m. absurd (Memᴰ.not-nil m);
}

touch-RssInv :
    (now : String) (feed_id : ℕ) (name : Option String) (db : RssDb)
    → RssInv db
    → RssInv (touch_feed now feed_id name db)
unfolding touch_feed
touch-RssInv now feed_id name db inv =
    subst (λ ids. ArticlesInv ids db.articles)
      (sym (
        map-update_rows (λ (f : RssFeed). f.id) (λ (f : RssFeed). f.id == feed_id) _ db.feeds
          (λ f. refl)))
      inv

reached-RssInv : {db : RssDb} → RssReached db → RssInv db
reached-RssInv empty_store = empty-RssInv
reached-RssInv (feed_touched now feed_id name r) =
    touch-RssInv now feed_id name _ (reached-RssInv r)
reached-RssInv (stored now input r e) = save-RssInv now input _ e (reached-RssInv r)
reached-RssInv (claimed_some uuid job_id limit feed_urls r) =
    claim-RssInv uuid job_id limit feed_urls _ (reached-RssInv r)
reached-RssInv (released_some dispatch_id ids r) =
    release-RssInv dispatch_id ids _ (reached-RssInv r)
reached-RssInv (marked_read now ids r) = mark_read-RssInv now ids _ (reached-RssInv r)

-- In every state of the store that its operations can reach from an empty one, the ids of the articles
-- are distinct, an article belongs to a feed, it either has no dispatch or is unread and has an owner
-- and the dispatch's id and job, and two articles with one owner have one dispatch.
pub dispatches_are_sound :
    {db : RssDb} → RssReached db → ArticlesInv (map (λ (f : RssFeed). f.id) db.feeds) db.articles
dispatches_are_sound r = reached-RssInv r
