-- ===== src/Rss/Invariant.antt =====
-- Which tables of src/rss/store.ts are sound, and the operations on the articles.
use my_discord_agent.Base.{
  Bool-cases, update_rows, Memᴰ-update_rows, Unique, map-update_rows, ℕ, String, ◌≡◌, refl, sym, ap,
  subst, ◌∙◌, ◌⊎◌, inl, inr, Bool, none, some, List, [], ◌∷◌, map, Memᴰ, arith,
}
use my_discord_agent.Rss.Articles.{
  dispatch_job, undispatched, release_dispatch_articles, mark_articles_read,
}
use my_discord_agent.Rss.Feeds.{RssFeed, RssArticle, RssDb}

abbrev feed_ids : List RssFeed → List ℕ
feed_ids feeds = map (λ (f : RssFeed). f.id) feeds

abbrev pub article_ids : List RssArticle → List ℕ
article_ids articles = map (λ (a : RssArticle). a.id) articles

-- An article of no dispatch, or an unread one of a dispatch of some job.
abbrev pub Free : RssArticle → Type 0
Free a = (a.dispatch_id ≡ none) × (a.dispatch_job_id ≡ none) × (a.dispatch_owner_key ≡ none)

abbrev pub Held : RssArticle → Type 0
Held a =
    (owner : String) × (uuid : String) × (a.read_at ≡ none)
    × (a.dispatch_id ≡ some uuid)
    × (a.dispatch_job_id ≡ some (dispatch_job owner uuid))
    × (a.dispatch_owner_key ≡ some owner)

pub record ArticlesInv (feeds : List ℕ) (articles : List RssArticle) : Type 0 where
  pub keys : Unique (article_ids articles)
  pub homes : (a : RssArticle) → Memᴰ a articles → Memᴰ a.feed_id feeds
  pub whole : (a : RssArticle) → Memᴰ a articles → Free a ⊎ Held a
  pub one_dispatch :
      (a b : RssArticle) (owner : String)
      → Memᴰ a articles
      → Memᴰ b articles
      → a.dispatch_owner_key ≡ some owner
      → b.dispatch_owner_key ≡ some owner
      → a.dispatch_id ≡ b.dispatch_id

abbrev pub RssInv : RssDb → Type 0
RssInv db = ArticlesInv (feed_ids db.feeds) db.articles

-- Two articles of one dispatch, or of none.
abbrev pub Kept : RssArticle → RssArticle → Type 0
Kept a b =
    (b.read_at ≡ a.read_at)
    × (b.dispatch_id ≡ a.dispatch_id)
    × (b.dispatch_job_id ≡ a.dispatch_job_id)
    × (b.dispatch_owner_key ≡ a.dispatch_owner_key)

Kept-Held : (a b : RssArticle) → Kept a b → Free a ⊎ Held a → Free b ⊎ Held b
Kept-Held a b (r, d, j, o) (inl (fd, fj, fo)) = inl (d ∙ fd, j ∙ fj, o ∙ fo)
Kept-Held a b (r, d, j, o) (inr (owner, uuid, hr, hd, hj, ho)) =
    inr (owner, uuid, r ∙ hr, d ∙ hd, j ∙ hj, o ∙ ho)

-- An update that keeps the keys, and either keeps the dispatch of an article or takes it out of one.
module _ (feeds : List ℕ) (p : RssArticle → Bool) (f : RssArticle → RssArticle)
    (keeps_id : (a : RssArticle) → (f a).id ≡ a.id)
    (keeps_feed : (a : RssArticle) → (f a).feed_id ≡ a.feed_id)
    (effect : (a : RssArticle) → Free (f a) ⊎ Kept a (f a)) where
  came_from :
      (articles : List RssArticle) {b : RssArticle}
      → Memᴰ b (update_rows p f articles)
      → (a : RssArticle) × Memᴰ a articles × (b.feed_id ≡ a.feed_id) × (Free b ⊎ Kept a b)
  came_from articles m =
      let (a, at, e) = Memᴰ-update_rows p f articles m in
      elim (Bool-cases (p a)) [
        | inl hit ↦
            let is = rw hit at e in
            (
              a,
              at,
              ap (λ z. z.feed_id) is ∙ keeps_feed a,
              subst (λ z. Free z ⊎ Kept a z) (sym is) (effect a),
            )
        | inr miss ↦
            let is = rw miss at e in
            (
              a,
              at,
              ap (λ z. z.feed_id) is,
              subst (λ z. Free z ⊎ Kept a z) (sym is) (inr (refl, refl, refl, refl)),
            )
      ]

  pub update-ArticlesInv :
      (articles : List RssArticle)
      → ArticlesInv feeds articles
      → ArticlesInv feeds (update_rows p f articles)
  update-ArticlesInv articles inv = record {
    keys =
        subst Unique (sym (map-update_rows (λ (a : RssArticle). a.id) p f articles keeps_id))
          inv.keys;
    homes = λ b m.
        let (a, at, e, c) = came_from articles m in
        subst (λ i. Memᴰ i feeds) (sym e) (inv.homes a at);
    whole = λ b m.
        let (a, at, e, c) = came_from articles m in
        elim c [ inl free ↦ inl free | inr kept ↦ Kept-Held a b kept (inv.whole a at) ];
    one_dispatch = λ b1 b2 owner m1 m2 o1 o2.
        let (a1, at1, e1, c1) = came_from articles m1 in
        let (a2, at2, e2, c2) = came_from articles m2 in
        elim c1 [
          | inl (fd, fj, fo) ↦ absurd (ground (arith, fo, o1))
          | inr (r1, d1, j1, k1) ↦ elim c2 [
            | inl (fd, fj, fo) ↦ absurd (ground (arith, fo, o2))
            | inr (r2, d2, j2, k2) ↦
                d1 ∙ inv.one_dispatch a1 a2 owner at1 at2 (sym k1 ∙ o1) (sym k2 ∙ o2) ∙ sym d2
          ]
        ];
  }

pub release-RssInv :
    (dispatch_id : String) (ids : List ℕ) (db : RssDb)
    → RssInv db
    → RssInv (release_dispatch_articles dispatch_id ids db)
unfolding release_dispatch_articles
release-RssInv dispatch_id [] db inv = inv
release-RssInv dispatch_id (i ∷ ids) db inv =
    update-ArticlesInv (feed_ids db.feeds) _ undispatched (λ a. refl) (λ a. refl)
      (λ a. inl (refl, refl, refl)) db.articles inv

pub mark_read-RssInv :
    (now : String) (ids : List ℕ) (db : RssDb) → RssInv db → RssInv (mark_articles_read now ids db)
unfolding mark_articles_read
mark_read-RssInv now [] db inv = inv
mark_read-RssInv now (i ∷ ids) db inv =
    update-ArticlesInv (feed_ids db.feeds) _ _ (λ a. refl) (λ a. refl) (λ a. inl (refl, refl, refl))
      db.articles inv
