-- ===== src/XSaved/Store.antt =====
-- The tables of src/integrations/x-saved/store.ts, and `ingestXSavedItems`, `mergeXSavedMedia`,
-- `markInitialImportCompleted` and `recordSyncRun`.
use Prim.Native.String.{◌++◌ as str_append}
use my_discord_agent.Base.{
  ◌==◌, if◌then◌else◌, get_or, or_else, is_some, is_none, find_row, any_row, update_rows, ℕ, ◌+◌,
  String, Bool, true, false, ◌&&◌, ◌||◌, not, Option, none, some, List, [], ◌∷◌, ◌++◌, map, str_eq,
}

-- A column that may be NULL is optional.
pub record XItem : Type 0 where
  pub tweet_id : String
  pub text : String
  pub author_handle : String
  pub url : String
  pub tweet_created_at : Option String
  pub external_urls_json : String
  pub seen_liked : Bool
  pub seen_bookmarked : Bool
  pub first_seen_at : String
  pub last_seen_at : String
  pub media_resolved_at : Option String

pub record XItemState : Type 0 where
  pub tweet_id : String
  pub status : String
  pub note : Option String
  pub updated_at : String

pub data MediaKind : Type 0 where
  image video : MediaKind

pub data MediaStatus : Type 0 where
  media_pending media_done media_failed : MediaStatus

pub record XMedia : Type 0 where
  pub tweet_id : String
  pub kind : MediaKind
  pub position : ℕ
  pub source_url : Option String
  pub alt_text : Option String
  pub status : MediaStatus
  pub terminal_error : Option String

pub data XSavedSyncStatus : Type 0 where
  sync_success sync_partial sync_failed : XSavedSyncStatus

pub record SyncRunRecord : Type 0 where
  pub started_at : String
  pub completed_at : String
  pub status : XSavedSyncStatus
  pub new_items : ℕ
  pub error : Option String

-- `runs` are the rows of x_sync_runs with their ids, and `initial_import` the value of that key in
-- x_meta.
pub record XSavedDb : Type 0 where
  pub items : List XItem
  pub states : List XItemState
  pub media : List XMedia
  pub initial_import : Option String
  pub runs : List (ℕ × SyncRunRecord)
  pub last_run : ℕ

-- `ArchiveMedia`, as far as the store reads it.
pub record MediaEntry : Type 0 where
  pub kind : MediaKind
  pub position : ℕ
  pub source_url : Option String
  pub alt_text : Option String

-- `Hints` is the type of the media hints before they are parsed.
pub record XSavedItem (Hints : Type 0) : Type 0 where
  pub tweet_id : String
  pub text : String
  pub author_handle : Option String
  pub tweet_created_at : Option String
  pub external_urls : Option (List String)
  pub seen_liked : Bool
  pub seen_bookmarked : Bool
  pub hints : Option Hints

abbrev pub is_filled : Option String → Bool
is_filled none = false
is_filled (some s) = not (str_eq s "")

abbrev pub item_url : Option String → String → String
item_url handle tweet_id =
    if is_filled handle
    then str_append "https://x.com/"
        (str_append (get_or handle "") (str_append "/status/" tweet_id))
    else str_append "https://x.com/i/status/" tweet_id

abbrev pub is_tweet : String → XItem → Bool
is_tweet tweet_id x = str_eq x.tweet_id tweet_id

-- JSON.stringify of the urls is the parameter `stringify`.
module _ {Hints : Type 0} (stringify : List String → String) (now : String) where
  abbrev pub urls_json : XSavedItem Hints → Option String
  urls_json item = elim item.external_urls [ none ↦ none | some urls ↦ some (stringify urls) ]

  abbrev pub new_item : XSavedItem Hints → XItem
  new_item item = record {
    tweet_id = item.tweet_id;
    text = item.text;
    author_handle = get_or item.author_handle "";
    url = item_url item.author_handle item.tweet_id;
    tweet_created_at = item.tweet_created_at;
    external_urls_json = get_or (urls_json item) "[]";
    seen_liked = item.seen_liked;
    seen_bookmarked = item.seen_bookmarked;
    first_seen_at = now;
    last_seen_at = now;
    media_resolved_at = none;
  }

  abbrev pub seen_again : XSavedItem Hints → XItem → XItem
  seen_again item x = record x {
    text = item.text;
    author_handle = get_or item.author_handle x.author_handle;
    url = if is_none item.author_handle then x.url else item_url item.author_handle item.tweet_id;
    tweet_created_at = or_else item.tweet_created_at x.tweet_created_at;
    external_urls_json = get_or (urls_json item) x.external_urls_json;
    seen_liked = x.seen_liked || item.seen_liked;
    seen_bookmarked = x.seen_bookmarked || item.seen_bookmarked;
    last_seen_at = now;
  }

  -- INSERT … ON CONFLICT(tweet_id) DO UPDATE
  unfoldable pub upsert_item : XSavedItem Hints → List XItem → List XItem
  upsert_item item items =
      if any_row (is_tweet item.tweet_id) items
      then update_rows (is_tweet item.tweet_id) (seen_again item) items
      else items ++ new_item item ∷ []

-- INSERT OR IGNORE
unfoldable pub ensure_state : String → String → List XItemState → List XItemState
ensure_state now tweet_id states =
    if any_row (λ (s : XItemState). str_eq s.tweet_id tweet_id) states
    then states
    else states
      ++ record { tweet_id = tweet_id; status = "inbox"; note = none; updated_at = now } ∷ []

abbrev pub same_kind : MediaKind → MediaKind → Bool
same_kind image image = true
same_kind video video = true
same_kind _ _ = false

abbrev pub is_done : MediaStatus → Bool
is_done media_done = true
is_done _ = false

-- `a IS b`
abbrev pub is_same : Option String → Option String → Bool
is_same none none = true
is_same (some a) (some b) = str_eq a b
is_same _ _ = false

abbrev pub filled_text : Option String → Option String
filled_text o = if is_filled o then o else none

abbrev pub is_media : String → MediaEntry → XMedia → Bool
is_media tweet_id e m =
    str_eq m.tweet_id tweet_id && (same_kind m.kind e.kind && (m.position == e.position))

-- The three CASEs of the upsert.
abbrev pub merged_media : Bool → MediaEntry → XMedia → XMedia
merged_media resolved e m = record m {
  terminal_error =
      if not (is_done m.status)
        && (is_some e.source_url
            && ((resolved || is_none m.source_url) && not (is_same m.source_url e.source_url)))
      then none
      else m.terminal_error;
  source_url =
      if is_done m.status
      then m.source_url
      else if resolved
      then or_else e.source_url m.source_url
      else or_else m.source_url e.source_url;
  alt_text =
      if is_done m.status
      then m.alt_text
      else if resolved && not (is_same m.source_url e.source_url)
      then e.alt_text
      else or_else (filled_text e.alt_text) m.alt_text;
}

unfoldable pub upsert_media : String → Bool → List MediaEntry → List XMedia → List XMedia
upsert_media tweet_id resolved [] media = media
upsert_media tweet_id resolved (e ∷ es) media = upsert_media tweet_id resolved es (
    if any_row (is_media tweet_id e) media
    then update_rows (is_media tweet_id e) (merged_media resolved e) media
    else media
      ++ record {
        tweet_id = tweet_id;
        kind = e.kind;
        position = e.position;
        source_url = e.source_url;
        alt_text = e.alt_text;
        status = media_pending;
        terminal_error = none;
      }
        ∷ [])

-- `none` where it throws.
unfoldable pub merge_x_saved_media :
    String → List MediaEntry → Option String → XSavedDb → Option XSavedDb
merge_x_saved_media tweet_id entries resolved_at db = elim (find_row (is_tweet tweet_id) db.items) [
  | none ↦ none
  | some x ↦
      if not (is_filled resolved_at) && is_filled x.media_resolved_at
      then some db
      else some (record db {
        media = upsert_media tweet_id (is_filled resolved_at) entries db.media;
        items =
            if is_filled resolved_at
            then update_rows (is_tweet tweet_id)
                (λ (y : XItem). record y { media_resolved_at = resolved_at }) db.items
            else db.items;
      })
]

-- MediaHintsSchema.parse is the parameter `parse`: `none` where it throws. `existing` are the ids that
-- were there or have come, and a transaction that throws is `none`.
module _ {Hints : Type 0} (parse : Hints → Option (List MediaEntry))
    (stringify : List String → String) (now : String) where
  unfoldable pub merge_hints : String → Option Hints → XSavedDb → Option XSavedDb
  merge_hints tweet_id none db = some db
  merge_hints tweet_id (some hints) db = elim (parse hints) [
    | none ↦ none
    | some entries ↦ merge_x_saved_media tweet_id entries none db
  ]

  unfoldable pub ingest_item : XSavedItem Hints → XSavedDb → Option XSavedDb
  ingest_item item db = merge_hints item.tweet_id item.hints (record db {
    items = upsert_item stringify now item db.items;
    states = ensure_state now item.tweet_id db.states;
  })

  unfoldable pub ingest_loop :
      List (XSavedItem Hints) → List String → ℕ → XSavedDb → Option (ℕ × XSavedDb)
  ingest_loop [] existing new_items db = some (new_items, db)
  ingest_loop (item ∷ items) existing new_items db = elim (ingest_item item db) [
    | none ↦ none
    | some after ↦
        if any_row (λ (i : String). str_eq i item.tweet_id) existing
        then ingest_loop items existing new_items after
        else ingest_loop items (item.tweet_id ∷ existing) (new_items + 1) after
  ]

  unfoldable pub ingest_x_saved_items : List (XSavedItem Hints) → XSavedDb → Option (ℕ × XSavedDb)
  ingest_x_saved_items items db = ingest_loop items (map (λ (x : XItem). x.tweet_id) db.items) 0 db

-- INSERT OR IGNORE: whether the key was written.
unfoldable pub mark_initial_import_completed : String → XSavedDb → Bool × XSavedDb
mark_initial_import_completed completed_at db =
    if is_some db.initial_import
    then (false, db)
    else (true, record db { initial_import = some completed_at })

-- AUTOINCREMENT: a new id is above all that were given.
unfoldable pub record_sync_run : SyncRunRecord → XSavedDb → ℕ × XSavedDb
record_sync_run r db = (
  db.last_run + 1,
  record db { runs = db.runs ++ (db.last_run + 1, r) ∷ []; last_run = db.last_run + 1 },
)
