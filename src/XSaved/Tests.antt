-- ===== src/XSaved/Tests.antt =====
-- Concrete runs of the store of src/integrations/x-saved/store.ts.
use my_discord_agent.Base.{
  length, find_row, any_row, update_rows, ℕ, ◌+◌, String, ◌≡◌, refl, Bool, true, false, Option,
  none, some, List, [], ◌∷◌,
}
use my_discord_agent.XSaved.Ingesting.{KeptIn, ingest_counts}
use my_discord_agent.XSaved.Store.{
  XItem, XItemState, XSavedDb, MediaEntry, XSavedItem, upsert_item, ensure_state,
  merge_x_saved_media, merge_hints, ingest_item, ingest_loop, ingest_x_saved_items,
}

abbrev empty_saved : XSavedDb
empty_saved = record {
  items = [];
  states = [];
  media = [];
  initial_import = none;
  runs = [];
  last_run = 0;
}

abbrev post : Bool → XSavedItem ℕ
post liked = record {
  tweet_id = "1";
  text = "t";
  author_handle = some "a";
  tweet_created_at = none;
  external_urls = none;
  seen_liked = liked;
  seen_bookmarked = false;
  hints = none;
}

abbrev urls_text : List String → String
urls_text urls = "[]"

abbrev no_hints : ℕ → Option (List MediaEntry)
no_hints n = none

abbrev saved_row : Bool → String → XItem
saved_row liked last = record {
  tweet_id = "1";
  text = "t";
  author_handle = "a";
  url = "https://x.com/a/status/1";
  tweet_created_at = none;
  external_urls_json = "[]";
  seen_liked = liked;
  seen_bookmarked = false;
  first_seen_at = "t0";
  last_seen_at = last;
  media_resolved_at = none;
}

abbrev inbox : XItemState
inbox = record { tweet_id = "1"; status = "inbox"; note = none; updated_at = "t0" }

abbrev one_saved : String → XSavedDb
one_saved last = record empty_saved { items = saved_row true last ∷ []; states = inbox ∷ [] }

first_ingest :
    ingest_x_saved_items no_hints urls_text "t0" (post true ∷ []) empty_saved
    ≡ some (1, one_saved "t0")
unfolding ingest_x_saved_items ingest_loop ingest_item merge_hints upsert_item ensure_state any_row
    update_rows
first_ingest = refl

-- A post that comes twice, unmarked by now, is counted once and stays liked.
second_ingest :
    ingest_x_saved_items no_hints urls_text "t1" (post false ∷ post false ∷ []) (one_saved "t0")
    ≡ some (0, one_saved "t1")
unfolding ingest_x_saved_items ingest_loop ingest_item merge_hints upsert_item ensure_state any_row
    update_rows
second_ingest = refl

no_owner : merge_x_saved_media "2" [] none (one_saved "t0") ≡ none
unfolding merge_x_saved_media find_row
no_owner = refl

ingest_counts_example :
    (length (one_saved "t1").items ≡ length (one_saved "t0").items + 0)
    × KeptIn (one_saved "t0").items (one_saved "t1").items
ingest_counts_example =
    ingest_counts no_hints urls_text "t1" (post false ∷ post false ∷ []) (one_saved "t0")
      second_ingest
