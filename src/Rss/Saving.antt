-- ===== src/Rss/Saving.antt =====
-- What saving a feed does to the tables of src/rss/store.ts.
use mathlib.Core.List.Memᴰ
use my_discord_agent.Base.{
  if◌then◌else◌, Bool-cases, is_none, length, length-append, find_row, any_row, update_rows,
  find_row-Memᴰ, length-update_rows, find_row-update_rows, find_row_present, find_row_added, Unique,
  Unique-append, map-update_rows, ℕ, ◌+◌, ◌<◌, String, ◌≡◌, refl, sym, ap, subst, ◌∙◌, ◌⊎◌, inl,
  inr, ◌&&◌, Option, none, some, List, [], ◌∷◌, ◌++◌, map, Memᴰ, arith, eq_iff,
}
use my_discord_agent.Rss.Feeds.{
  RssFeed, RssArticle, RssDb, RssEntry, feed_state, has_url, get_feed_state, SaveInput, next_id,
  renewed, new_feed, upsert_feed, is_entry, new_article, edited, save_entries, Saved, saved,
  feed_not_saved, save_feed_entries,
}
use my_discord_agent.Rss.Invariant.{
  article_ids, Free, Held, ArticlesInv, RssInv, update-ArticlesInv,
}

next_id_fresh : (ids : List ℕ) {i : ℕ} → Memᴰ i ids → i < next_id ids
unfolding next_id
next_id_fresh [] m = absurd (Memᴰ.not-nil m)
next_id_fresh (j ∷ ids) m = elim (Memᴰ.cases_cons m) [
  | inl e ↦ omega (arith, e)
  | inr rest ↦ let less = next_id_fresh ids rest in omega (arith, less)
]

map-append_one :
    {A B : Type 0} (f : A → B) (xs : List A) (x : A) → map f (xs ++ x ∷ []) ≡ map f xs ++ f x ∷ []
map-append_one f [] x = refl
map-append_one f (y ∷ xs) x = ap (◌∷◌ (f y)) (map-append_one f xs x)

-- A new article of a known feed.
added-ArticlesInv :
    (feeds : List ℕ) (now : String) (read_at : Option String) (feed_id : ℕ) (e : RssEntry)
    (articles : List RssArticle)
    → Memᴰ feed_id feeds
    → ArticlesInv feeds articles
    → ArticlesInv feeds
        (articles ++ new_article now read_at (next_id (article_ids articles)) feed_id e ∷ [])
added-ArticlesInv feeds now read_at feed_id e articles home inv =
    let x = new_article now read_at (next_id (article_ids articles)) feed_id e in
    record {
      keys = subst Unique (sym (map-append_one (λ (a : RssArticle). a.id) articles x)) (
          Unique-append (article_ids articles) x.id inv.keys
            (λ i m h. let less = next_id_fresh (article_ids articles) m in omega (arith, less, h)));
      homes = λ a m. elim (Memᴰ.append_cases articles m) [
        | inl old ↦ inv.homes a old
        | inr new ↦ subst (λ z. Memᴰ z.feed_id feeds) (sym (Memᴰ.eq_of_singleton new)) home
      ];
      whole = λ a m. elim (Memᴰ.append_cases articles m) [
        | inl old ↦ inv.whole a old
        | inr new ↦
            subst (λ z. Free z ⊎ Held z) (sym (Memᴰ.eq_of_singleton new)) (inl (refl, refl, refl))
      ];
      one_dispatch = λ a b owner ma mb oa ob. elim (Memᴰ.append_cases articles ma) [
        | inr new ↦ absurd (
            let is = ap (λ (z : RssArticle). z.dispatch_owner_key) (Memᴰ.eq_of_singleton new) in
            ground (arith, is, oa))
        | inl old ↦ elim (Memᴰ.append_cases articles mb) [
          | inr new ↦ absurd (
              let is = ap (λ (z : RssArticle). z.dispatch_owner_key) (Memᴰ.eq_of_singleton new) in
              ground (arith, is, ob))
          | inl old2 ↦ inv.one_dispatch a b owner old old2 oa ob
        ]
      ];
    }

save_entries-ArticlesInv :
    (feeds : List ℕ) (now : String) (read_at : Option String) (feed_id : ℕ) (es : List RssEntry)
    (articles : List RssArticle)
    → Memᴰ feed_id feeds
    → ArticlesInv feeds articles
    → ArticlesInv feeds (save_entries now read_at feed_id es articles).1
unfolding save_entries
save_entries-ArticlesInv feeds now read_at feed_id [] articles home inv = inv
save_entries-ArticlesInv feeds now read_at feed_id (e ∷ es) articles home inv =
    elim (Bool-cases (any_row (is_entry feed_id e.entry_id) articles)) [
      | inl old ↦ rw old (
          save_entries-ArticlesInv feeds now read_at feed_id es _ home (
            update-ArticlesInv feeds (is_entry feed_id e.entry_id) (edited e) (λ a. refl)
              (λ a. refl) (λ a. inr (refl, refl, refl, refl)) articles inv))
      | inr new ↦ rw new (
          save_entries-ArticlesInv feeds now read_at feed_id es _ home
            (added-ArticlesInv feeds now read_at feed_id e articles home inv))
    ]

length-save_entries :
    (now : String) (read_at : Option String) (feed_id : ℕ) (es : List RssEntry)
    (articles : List RssArticle)
    → length (save_entries now read_at feed_id es articles).1
      ≡ length articles + (save_entries now read_at feed_id es articles).0
unfolding save_entries
length-save_entries now read_at feed_id [] articles = omega arith
length-save_entries now read_at feed_id (e ∷ es) articles =
    let one = new_article now read_at (next_id (article_ids articles)) feed_id e in
    elim (Bool-cases (any_row (is_entry feed_id e.entry_id) articles)) [
      | inl old ↦
          let ih =
            length-save_entries now read_at feed_id es
              (update_rows (is_entry feed_id e.entry_id) (edited e) articles) in
          let same = length-update_rows (is_entry feed_id e.entry_id) (edited e) articles in
          rw old (omega (arith, ih, same))
      | inr new ↦
          let ih = length-save_entries now read_at feed_id es (articles ++ one ∷ []) in
          let more = length-append articles (one ∷ []) in rw new (omega (arith, ih, more))
    ]

-- The row of the url after the first statement, and the rows that were there.
upserted :
    (now : String) (input : SaveInput) (feeds : List RssFeed)
    → (f : RssFeed) × (find_row (has_url input.url) (upsert_feed now input feeds) ≡ some f)
      × (feed_state f ≡ record {
        id = f.id;
        url = input.url;
        etag = input.etag;
        last_modified = input.last_modified;
      })
unfolding upsert_feed
upserted now input feeds = elim (Bool-cases (any_row (has_url input.url) feeds)) [
  | inl known ↦
      let (f, there) = find_row_present (has_url input.url) feeds known in
      let e =
        find_row-update_rows (has_url input.url) (renewed now input) feeds (λ f. refl) there in
      let (at, url) = find_row-Memᴰ (has_url input.url) _ e in
      let same : f.url ≡ input.url = (eq_iff f.url input.url).0 url in
      (
        renewed now input f,
        rw known e,
        ap
            (λ u. record {
              id = f.id;
              url = u;
              etag = input.etag;
              last_modified = input.last_modified;
            })
            same,
      )
  | inr new ↦
      let row = new_feed now input (next_id (map (λ (f : RssFeed). f.id) feeds)) in
      (
        row,
        rw new (
            find_row_added (has_url input.url) row feeds ((eq_iff input.url input.url).1 refl) new),
        refl,
      )
]

upsert_feed_keeps :
    (now : String) (input : SaveInput) (feeds : List RssFeed) {i : ℕ}
    → Memᴰ i (map (λ (f : RssFeed). f.id) feeds)
    → Memᴰ i (map (λ (f : RssFeed). f.id) (upsert_feed now input feeds))
unfolding upsert_feed
upsert_feed_keeps now input feeds {i} m = elim (Bool-cases (any_row (has_url input.url) feeds)) [
  | inl known ↦ rw known (
      subst (λ l. Memᴰ i l)
        (sym (
          map-update_rows (λ (f : RssFeed). f.id) (has_url input.url) (renewed now input) feeds
            (λ f. refl)))
        m)
  | inr new ↦
      let row = new_feed now input (next_id (map (λ (f : RssFeed). f.id) feeds)) in
      rw new (
        subst (λ l. Memᴰ i l) (sym (map-append_one (λ (f : RssFeed). f.id) feeds row))
          (Memᴰ.append_left (row.id ∷ []) m))
]

more_homes :
    {old new : List ℕ} (articles : List RssArticle)
    → ((i : ℕ) → Memᴰ i old → Memᴰ i new)
    → ArticlesInv old articles
    → ArticlesInv new articles
more_homes articles more inv = record {
  keys = inv.keys;
  homes = λ a m. more a.feed_id (inv.homes a m);
  whole = inv.whole;
  one_dispatch = inv.one_dispatch;
}

get_found :
    (url : String) (db : RssDb) (f : RssFeed)
    → find_row (has_url url) db.feeds ≡ some f
    → get_feed_state url db ≡ some (feed_state f)
unfolding get_feed_state
get_found url db f found = rw (get_feed_state, found) refl

-- The tables that `saveFeedEntries` leaves, for the row of the feed.
save_lem :
    (now : String) (input : SaveInput) (db : RssDb)
    → (n : ℕ) × (after : RssDb) × (feed : ℕ) × (save_feed_entries now input db ≡ saved n after)
      × (get_feed_state input.url after
          ≡ some (record {
            id = feed;
            url = input.url;
            etag = input.etag;
            last_modified = input.last_modified;
          }))
      × (length after.articles ≡ length db.articles + n)
      × (RssInv db → RssInv after)
unfolding save_feed_entries
save_lem now input db =
    let (f, found, state) = upserted now input db.feeds in
    let (at, url) = find_row-Memᴰ (has_url input.url) (upsert_feed now input db.feeds) found in
    let read_at : Option String =
      if is_none (get_feed_state input.url db) && input.mark_initial_as_read
      then some now
      else none in
    let out = save_entries now read_at f.id input.entries db.articles in
    let there : get_feed_state input.url (record db { feeds = upsert_feed now input db.feeds })
        ≡ some (feed_state f) =
      get_found input.url _ f found in
    let there_after : get_feed_state input.url
          (record { feeds = upsert_feed now input db.feeds; articles = out.1 })
        ≡ some (feed_state f) =
      get_found input.url _ f found in
    (
      out.0,
      record { feeds = upsert_feed now input db.feeds; articles = out.1 },
      f.id,
      rw (save_feed_entries, there) refl,
      there_after ∙ ap some state,
      length-save_entries now read_at f.id input.entries db.articles,
      (λ inv.
          save_entries-ArticlesInv (map (λ (f : RssFeed). f.id) (upsert_feed now input db.feeds))
            now read_at f.id input.entries db.articles (Memᴰ.map (λ (f : RssFeed). f.id) at)
            (more_homes db.articles (λ i m. upsert_feed_keeps now input db.feeds m) inv)),
    )

saved_db : Saved → RssDb → RssDb
saved_db (saved n db) other = db
saved_db (feed_not_saved url) other = other

-- `saveFeedEntries` never throws. It returns the number of articles that it has added, and afterwards
-- `getFeedState` of the feed's url answers the etag and the date that were saved.
pub save_returns :
    (now : String) (input : SaveInput) (db : RssDb)
    → (n : ℕ) × (after : RssDb) × (feed : ℕ) × (save_feed_entries now input db ≡ saved n after)
      × (length after.articles ≡ length db.articles + n)
      × (get_feed_state input.url after
          ≡ some (record {
            id = feed;
            url = input.url;
            etag = input.etag;
            last_modified = input.last_modified;
          }))
save_returns now input db =
    let (n, after, feed, e, state, more, inv) = save_lem now input db in
    (n, after, feed, e, more, state)

pub save-RssInv :
    (now : String) (input : SaveInput) (db : RssDb) {n : ℕ} {after : RssDb}
    → save_feed_entries now input db ≡ saved n after
    → RssInv db
    → RssInv after
unfolding saved_db
save-RssInv now input db e0 inv =
    let (m, found, feed, e, state, more, keeps) = save_lem now input db in
    subst RssInv (ap (λ z. saved_db z db) (sym e ∙ e0)) (keeps inv)
