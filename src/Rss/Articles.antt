-- ===== src/Rss/Articles.antt =====
-- The listing, the dispatches and the reading of articles: `listUnreadArticles`,
-- `claimUnreadArticles`, `releaseDispatchArticles` and `markArticlesRead` of src/rss/store.ts.
use Prim.Native.String.{◌++◌ as str_append}
use my_discord_agent.Base.{
  ◌==◌, if◌then◌else◌, get_or, is_none, is_text, take, find_row, any_row, update_rows, ℕ, String,
  Bool, true, false, ◌&&◌, ◌||◌, Option, none, some, List, [], ◌∷◌, map, str_eq,
}
use my_discord_agent.Rss.Feeds.{RssFeed, RssArticle, RssDb}

pub record UnreadArticle : Type 0 where
  pub id : ℕ
  pub feed_name : String
  pub feed_url : String
  pub title : String
  pub link : String
  pub published_at : String
  pub summary : String

-- The columns that the id and the job of a dispatch come from may be NULL.
pub record ArticleDispatch : Type 0 where
  pub id : Option String
  pub job_id : Option String
  pub articles : List UnreadArticle

abbrev pub map_article : RssArticle × RssFeed → UnreadArticle
map_article (a, f) = record {
  id = a.id;
  feed_name = get_or f.name f.url;
  feed_url = f.url;
  title = a.title;
  link = a.link;
  published_at = a.published_at;
  summary = a.summary;
}

-- FROM rss_articles a JOIN rss_feeds f ON f.id = a.feed_id WHERE p AND q ORDER BY a.id ASC, where p is
-- the condition on the article and q that on the feed.
unfoldable pub join_feeds :
    (RssArticle → Bool)
    → (RssFeed → Bool)
    → List RssFeed
    → List RssArticle
    → List (RssArticle × RssFeed)
join_feeds p q feeds [] = []
join_feeds p q feeds (a ∷ articles) =
    let rest = join_feeds p q feeds articles in
    elim (find_row (λ (f : RssFeed). f.id == a.feed_id) feeds) [
      | none ↦ rest
      | some f ↦ if p a && q f then (a, f) ∷ rest else rest
    ]

-- AND f.url IN (…), when there are urls.
abbrev pub in_urls : Option (List String) → RssFeed → Bool
in_urls none f = true
in_urls (some urls) f = any_row (λ (u : String). str_eq f.url u) urls

abbrev pub no_urls : Option (List String) → Bool
no_urls (some []) = true
no_urls _ = false

unfoldable pub list_unread_articles : ℕ → Option (List String) → RssDb → List UnreadArticle
list_unread_articles limit feed_urls db =
    if no_urls feed_urls
    then []
    else map map_article (
        take limit (
          join_feeds (λ (a : RssArticle). is_none a.read_at) (in_urls feed_urls) db.feeds
            db.articles))

-- The articles of a dispatch that this job has claimed and nobody has read.
abbrev pub is_pending : String → RssArticle → Bool
is_pending job_id a =
    is_none a.read_at
    && (is_text a.dispatch_owner_key job_id
        || (is_none a.dispatch_owner_key && is_text a.dispatch_job_id job_id))

abbrev pub is_undispatched : RssArticle → Bool
is_undispatched a = is_none a.read_at && is_none a.dispatch_id

abbrev pub in_ids : List ℕ → RssArticle → Bool
in_ids ids a = any_row (λ (i : ℕ). a.id == i) ids

abbrev pub dispatch_job : String → String → String
dispatch_job job_id dispatch_id = str_append job_id (str_append ":" dispatch_id)

abbrev pub ids_of : List (RssArticle × RssFeed) → List ℕ
ids_of rows = map (λ (r : RssArticle × RssFeed). r.0.id) rows

-- The UPDATE of a claim.
unfoldable pub claim_rows : String → String → List ℕ → List RssArticle → List RssArticle
claim_rows job_id uuid ids articles =
    update_rows (λ (a : RssArticle). is_none a.dispatch_id && in_ids ids a)
      (λ (a : RssArticle). record a {
        dispatch_id = some uuid;
        dispatch_job_id = some (dispatch_job job_id uuid);
        dispatch_owner_key = some job_id;
      })
      articles

unfoldable pub pending_of : String → RssDb → List (RssArticle × RssFeed)
pending_of job_id db = join_feeds (is_pending job_id) (λ f. true) db.feeds db.articles

unfoldable pub claimable_of : ℕ → Option (List String) → RssDb → List (RssArticle × RssFeed)
claimable_of limit feed_urls db =
    take limit (join_feeds is_undispatched (in_urls feed_urls) db.feeds db.articles)

-- A claim that finds nothing pending.
unfoldable pub claim_new :
    String → String → List (RssArticle × RssFeed) → RssDb → Option ArticleDispatch × RssDb
claim_new uuid job_id [] db = (none, db)
claim_new uuid job_id (r ∷ rs) db = (
  some (record {
    id = some uuid;
    job_id = some (dispatch_job job_id uuid);
    articles = map map_article (r ∷ rs);
  }),
  record db { articles = claim_rows job_id uuid (ids_of (r ∷ rs)) db.articles },
)

-- `uuid` is the answer of randomUUID.
unfoldable pub claim_unread_articles :
    String → String → ℕ → Option (List String) → RssDb → Option ArticleDispatch × RssDb
claim_unread_articles uuid job_id limit feed_urls db =
    if no_urls feed_urls then (none, db) else elim (pending_of job_id db) [
      | [] ↦ claim_new uuid job_id (claimable_of limit feed_urls db) db
      | r ∷ rs ↦ (
        some (record {
          id = r.0.dispatch_id;
          job_id = r.0.dispatch_job_id;
          articles = map map_article (r ∷ rs);
        }),
        db,
      )
    ]

abbrev pub undispatched : RssArticle → RssArticle
undispatched a = record a { dispatch_id = none; dispatch_job_id = none; dispatch_owner_key = none }

unfoldable pub release_dispatch_articles : String → List ℕ → RssDb → RssDb
release_dispatch_articles dispatch_id [] db = db
release_dispatch_articles dispatch_id (i ∷ ids) db = record db {
  articles =
      update_rows (λ (a : RssArticle). is_text a.dispatch_id dispatch_id && in_ids (i ∷ ids) a)
        undispatched db.articles;
}

unfoldable pub mark_articles_read : String → List ℕ → RssDb → RssDb
mark_articles_read now [] db = db
mark_articles_read now (i ∷ ids) db = record db {
  articles =
      update_rows (λ (a : RssArticle). is_none a.read_at && in_ids (i ∷ ids) a)
        (λ (a : RssArticle). record (undispatched a) { read_at = some now }) db.articles;
}
