-- ===== src/Rss/Feeds.antt =====
-- The tables rss_feeds and rss_articles, and what saves a feed: `getFeedState`, `touchFeed` and
-- `saveFeedEntries` of src/rss/store.ts.
use my_discord_agent.Base.{
  ◌==◌, if◌then◌else◌, get_or, or_else, is_none, find_row, any_row, update_rows, ℕ, suc, max,
  String, Bool, ◌&&◌, Option, none, some, List, [], ◌∷◌, ◌++◌, map, str_eq,
}

-- A column that may be NULL is optional. A table is the list of its rows by id.
pub record RssFeed : Type 0 where
  pub id : ℕ
  pub url : String
  pub name : Option String
  pub etag : Option String
  pub last_modified : Option String
  pub initialized_at : String
  pub last_fetched_at : String

pub record RssArticle : Type 0 where
  pub id : ℕ
  pub feed_id : ℕ
  pub entry_id : String
  pub title : String
  pub link : String
  pub published_at : String
  pub summary : String
  pub collected_at : String
  pub read_at : Option String
  pub dispatch_id : Option String
  pub dispatch_job_id : Option String
  pub dispatch_owner_key : Option String

pub record RssDb : Type 0 where
  pub feeds : List RssFeed
  pub articles : List RssArticle

pub record FeedState : Type 0 where
  pub id : ℕ
  pub url : String
  pub etag : Option String
  pub last_modified : Option String

-- `RssEntry` of the feed parser.
pub record RssEntry : Type 0 where
  pub entry_id : String
  pub title : String
  pub link : String
  pub published_at : String
  pub summary : String

abbrev pub feed_state : RssFeed → FeedState
feed_state f = record { id = f.id; url = f.url; etag = f.etag; last_modified = f.last_modified }

abbrev pub has_url : String → RssFeed → Bool
has_url url f = str_eq f.url url

unfoldable pub get_feed_state : String → RssDb → Option FeedState
get_feed_state url db = elim (find_row (has_url url) db.feeds) [
  | none ↦ none
  | some f ↦ some (feed_state f)
]

-- `now` is the answer of the clock.
unfoldable pub touch_feed : String → ℕ → Option String → RssDb → RssDb
touch_feed now feed_id configured_name db = record db {
  feeds =
      update_rows (λ (f : RssFeed). f.id == feed_id)
        (λ (f : RssFeed). record f { name = or_else configured_name f.name; last_fetched_at = now })
        db.feeds;
}

pub record SaveInput : Type 0 where
  pub url : String
  pub configured_name : Option String
  pub parsed_name : String
  pub etag : Option String
  pub last_modified : Option String
  pub entries : List RssEntry
  pub mark_initial_as_read : Bool

-- The key that SQLite gives to a row that is inserted: one more than the largest.
unfoldable pub next_id : List ℕ → ℕ
next_id [] = 1
next_id (i ∷ ids) = max (suc i) (next_id ids)

-- `name || null`
abbrev pub text_or_null : String → Option String
text_or_null name = if str_eq name "" then none else some name

abbrev pub saved_name : SaveInput → Option String
saved_name input = text_or_null (get_or input.configured_name input.parsed_name)

abbrev pub renewed : String → SaveInput → RssFeed → RssFeed
renewed now input f = record f {
  name = saved_name input;
  etag = input.etag;
  last_modified = input.last_modified;
  last_fetched_at = now;
}

abbrev pub new_feed : String → SaveInput → ℕ → RssFeed
new_feed now input id = record {
  id = id;
  url = input.url;
  name = saved_name input;
  etag = input.etag;
  last_modified = input.last_modified;
  initialized_at = now;
  last_fetched_at = now;
}

unfoldable pub upsert_feed : String → SaveInput → List RssFeed → List RssFeed
upsert_feed now input feeds =
    if any_row (has_url input.url) feeds
    then update_rows (has_url input.url) (renewed now input) feeds
    else feeds ++ new_feed now input (next_id (map (λ (f : RssFeed). f.id) feeds)) ∷ []

-- UNIQUE(feed_id, entry_id)
abbrev pub is_entry : ℕ → String → RssArticle → Bool
is_entry feed_id entry_id a = (a.feed_id == feed_id) && str_eq a.entry_id entry_id

abbrev pub new_article : String → Option String → ℕ → ℕ → RssEntry → RssArticle
new_article now read_at id feed_id e = record {
  id = id;
  feed_id = feed_id;
  entry_id = e.entry_id;
  title = e.title;
  link = e.link;
  published_at = e.published_at;
  summary = e.summary;
  collected_at = now;
  read_at = read_at;
  dispatch_id = none;
  dispatch_job_id = none;
  dispatch_owner_key = none;
}

abbrev pub edited : RssEntry → RssArticle → RssArticle
edited e a = record a {
  title = e.title;
  link = e.link;
  published_at = e.published_at;
  summary = e.summary;
}

-- The loop over the entries, with `inserted`.
unfoldable pub save_entries :
    String → Option String → ℕ → List RssEntry → List RssArticle → ℕ × List RssArticle
save_entries now read_at feed_id [] articles = (0, articles)
save_entries now read_at feed_id (e ∷ es) articles =
    let (n, after) = save_entries now read_at feed_id es (
      articles
      ++ new_article now read_at (next_id (map (λ (a : RssArticle). a.id) articles)) feed_id e
        ∷ []) in
    let rest =
      save_entries now read_at feed_id es
        (update_rows (is_entry feed_id e.entry_id) (edited e) articles) in
    if any_row (is_entry feed_id e.entry_id) articles then rest else (suc n, after)

-- A transaction that throws leaves the tables as they were.
pub data Saved : Type 0 where
  saved : ℕ → RssDb → Saved
  feed_not_saved : String → Saved

unfoldable pub save_feed_entries : String → SaveInput → RssDb → Saved
save_feed_entries now input db =
    let feeds = upsert_feed now input db.feeds in
    let read_at : Option String =
      if is_none (get_feed_state input.url db) && input.mark_initial_as_read
      then some now
      else none in
    elim (get_feed_state input.url (record db { feeds = feeds })) [
      | none ↦ feed_not_saved input.url
      | some feed ↦
          let (n, articles) = save_entries now read_at feed.id input.entries db.articles in
          saved n (record { feeds = feeds; articles = articles })
    ]
