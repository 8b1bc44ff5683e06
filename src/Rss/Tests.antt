-- ===== src/Rss/Tests.antt =====
-- Concrete runs of the store of src/rss/store.ts.
use mathlib.Core.List.Memᴰ
use my_discord_agent.Base.{
  length, find_row, any_row, update_rows, Unique, ℕ, ◌+◌, String, ◌≡◌, refl, ap, subst, false, none,
  some, [], ◌∷◌, map,
}
use my_discord_agent.Rss.Articles.{
  ArticleDispatch, map_article, join_feeds, list_unread_articles, dispatch_job, claim_rows,
  pending_of, claimable_of, claim_new, claim_unread_articles, release_dispatch_articles,
  mark_articles_read,
}
use my_discord_agent.Rss.Claiming.{claim_recovers}
use my_discord_agent.Rss.Feeds.{
  RssFeed, RssArticle, RssDb, get_feed_state, SaveInput, next_id, upsert_feed, save_entries, saved,
  save_feed_entries,
}
use my_discord_agent.Rss.Invariant.{ArticlesInv}
use my_discord_agent.Rss.Named.{dispatch_is_named}
use my_discord_agent.Rss.Reached.{
  RssReached, empty_store, stored, claimed_some, dispatches_are_sound,
}
use my_discord_agent.Rss.Saving.{save_returns}

abbrev news : SaveInput
news = record {
  url = "https://a.example/feed";
  configured_name = none;
  parsed_name = "A";
  etag = some "e1";
  last_modified = none;
  entries =
      record {
        entry_id = "x";
        title = "X";
        link = "https://a.example/x";
        published_at = "2026-01-01";
        summary = "one";
      }
      ∷ [];
  mark_initial_as_read = false;
}

abbrev news_feed : RssFeed
news_feed = record {
  id = 1;
  url = "https://a.example/feed";
  name = some "A";
  etag = some "e1";
  last_modified = none;
  initialized_at = "t0";
  last_fetched_at = "t0";
}

abbrev news_article : RssArticle
news_article = record {
  id = 1;
  feed_id = 1;
  entry_id = "x";
  title = "X";
  link = "https://a.example/x";
  published_at = "2026-01-01";
  summary = "one";
  collected_at = "t0";
  read_at = none;
  dispatch_id = none;
  dispatch_job_id = none;
  dispatch_owner_key = none;
}

abbrev news_db : RssDb
news_db = record { feeds = news_feed ∷ []; articles = news_article ∷ [] }

abbrev claimed_db : RssDb
claimed_db = record {
  feeds = news_feed ∷ [];
  articles =
      record news_article {
        dispatch_id = some "u1";
        dispatch_job_id = some "cron:u1";
        dispatch_owner_key = some "cron";
      }
      ∷ [];
}

abbrev news_dispatch : ArticleDispatch
news_dispatch = record {
  id = some "u1";
  job_id = some "cron:u1";
  articles = map_article (news_article, news_feed) ∷ [];
}

first_save : save_feed_entries "t0" news (record { feeds = []; articles = [] }) ≡ saved 1 news_db
unfolding save_feed_entries save_entries upsert_feed get_feed_state find_row any_row next_id
    update_rows
first_save = refl

-- The same feed again adds nothing.
second_save : save_feed_entries "t0" news news_db ≡ saved 0 news_db
unfolding save_feed_entries save_entries upsert_feed get_feed_state find_row any_row next_id
    update_rows
second_save = refl

first_claim : claim_unread_articles "u1" "cron" 5 none news_db ≡ (some news_dispatch, claimed_db)
unfolding claim_unread_articles claim_new claim_rows pending_of claimable_of join_feeds find_row
    any_row update_rows
first_claim = refl

release_frees : release_dispatch_articles "u1" (1 ∷ []) claimed_db ≡ news_db
unfolding release_dispatch_articles update_rows any_row
release_frees = refl

read_is_not_listed : list_unread_articles 5 none (mark_articles_read "t1" (1 ∷ []) claimed_db) ≡ []
unfolding list_unread_articles mark_articles_read update_rows any_row join_feeds find_row
read_is_not_listed = refl

one_article : Unique (map (λ (a : RssArticle). a.id) news_db.articles)
unfolding Unique
one_article = ((λ y m. absurd (Memᴰ.not-nil m)), tt)

claim_recovers_example :
    claim_unread_articles "u2" "cron" 1 none claimed_db ≡ (some news_dispatch, claimed_db)
claim_recovers_example =
    claim_recovers "u1" "u2" "cron" 5 1 none none news_db claimed_db news_dispatch one_article refl
      first_claim

save_returns_example :
    (n : ℕ) × (after : RssDb) × (feed : ℕ) × (save_feed_entries "t1" news news_db ≡ saved n after)
    × (length after.articles ≡ 1 + n)
    × (get_feed_state "https://a.example/feed" after
        ≡ some (record {
          id = feed;
          url = "https://a.example/feed";
          etag = some "e1";
          last_modified = none;
        }))
save_returns_example = save_returns "t1" news news_db

claimed_db-RssReached : RssReached claimed_db
claimed_db-RssReached =
    subst RssReached (ap (λ z. z.1) first_claim)
      (claimed_some "u1" "cron" 5 none (stored "t0" news empty_store first_save))

dispatches_are_sound_example : ArticlesInv (1 ∷ []) claimed_db.articles
dispatches_are_sound_example = dispatches_are_sound claimed_db-RssReached

dispatch_is_named_example :
    (id : String) × (news_dispatch.id ≡ some id)
    × (news_dispatch.job_id ≡ some (dispatch_job "cron" id))
dispatch_is_named_example =
    dispatch_is_named "u2" "cron" 1 none claimed_db-RssReached claim_recovers_example
