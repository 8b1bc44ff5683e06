-- ===== src/Rss/ClaimInvariant.antt =====
-- The claim of src/rss/store.ts on sound tables.
use my_discord_agent.Base.{
  Bool-cases, &&-eq_true, is_none, take, Memᴰ-update_rows, Unique, map-update_rows, same_row, ℕ,
  String, ◌≡◌, refl, sym, ap, subst, ◌∙◌, ◌⊎◌, inl, inr, true, false, ◌&&◌, Option, none, some,
  List, [], ◌∷◌, map, Memᴰ, arith, eq_iff,
}
use my_discord_agent.Rss.Articles.{
  join_feeds, in_urls, no_urls, is_pending, is_undispatched, in_ids, dispatch_job, ids_of,
  claim_rows, pending_of, claimable_of, claim_new, claim_unread_articles,
}
use my_discord_agent.Rss.Claiming.{claim_pending, claim_fresh, claim_absent}
use my_discord_agent.Rss.Feeds.{RssFeed, RssArticle, RssDb}
use my_discord_agent.Rss.Invariant.{Free, Held, RssInv}
use my_discord_agent.Rss.Joins.{join_feeds-Memᴰ, take-Memᴰ, in_ids-Memᴰ, join_feeds_none}

is_none-eq : {A : Type 0} (o : Option A) → is_none o ≡ true → o ≡ none
is_none-eq none h = refl
is_none-eq (some a) h = cc

module _ (job_id uuid : String) where
  abbrev named : RssArticle → RssArticle
  named a = record a {
    dispatch_id = some uuid;
    dispatch_job_id = some (dispatch_job job_id uuid);
    dispatch_owner_key = some job_id;
  }

  -- A row after the UPDATE of a claim.
  claimed_from :
      (ids : List ℕ) (articles : List RssArticle) {b : RssArticle}
      → Memᴰ b (claim_rows job_id uuid ids articles)
      → (a : RssArticle) × Memᴰ a articles × (((in_ids ids a ≡ true) × (b ≡ named a)) ⊎ (b ≡ a))
  unfolding claim_rows
  claimed_from ids articles m =
      let (a, at, e) =
        Memᴰ-update_rows (λ (a : RssArticle). is_none a.dispatch_id && in_ids ids a) named articles
          m in
      elim (Bool-cases (is_none a.dispatch_id && in_ids ids a)) [
        | inl hit ↦
            (a, at, inl ((&&-eq_true (is_none a.dispatch_id) (in_ids ids a) hit).1, rw hit at e))
        | inr miss ↦ (a, at, inr (rw miss at e))
      ]

  keys-claim_rows :
      (ids : List ℕ) (articles : List RssArticle)
      → map (λ (a : RssArticle). a.id) (claim_rows job_id uuid ids articles)
        ≡ map (λ (a : RssArticle). a.id) articles
  unfolding claim_rows
  keys-claim_rows ids articles =
      map-update_rows (λ (a : RssArticle). a.id)
        (λ (a : RssArticle). is_none a.dispatch_id && in_ids ids a) named articles (λ a. refl)

  -- What the claim finds is unread.
  claimable_unread :
      (limit : ℕ) (feed_urls : Option (List String)) (db : RssDb) {a : RssArticle}
      → RssInv db
      → Memᴰ a db.articles
      → in_ids (ids_of (claimable_of limit feed_urls db)) a ≡ true
      → a.read_at ≡ none
  unfolding claimable_of
  claimable_unread limit feed_urls db {a} inv at h =
      let rows = join_feeds is_undispatched (in_urls feed_urls) db.feeds db.articles in
      let (r, m, e) = in_ids-Memᴰ a (take limit rows) h in
      let (there, free) =
        join_feeds-Memᴰ is_undispatched (in_urls feed_urls) db.feeds db.articles
          (take-Memᴰ limit rows m) in
      let same : a ≡ r.0 = same_row (λ (a : RssArticle). a.id) db.articles inv.keys at there e in
      let unread : is_none r.0.read_at ≡ true =
        (&&-eq_true (is_none r.0.read_at) (is_none r.0.dispatch_id) free).0 in
      ap (λ z. z.read_at) same ∙ is_none-eq r.0.read_at unread

  -- A job with nothing pending owns no article.
  owns_nothing :
      (db : RssDb) (a : RssArticle)
      → RssInv db
      → pending_of job_id db ≡ []
      → Memᴰ a db.articles
      → a.dispatch_owner_key ≡ some job_id
      → ⊥
  unfolding pending_of
  owns_nothing db a inv empty at mine = elim (inv.whole a at) [
    | inl (fd, fj, fo) ↦ ground (arith, fo, mine)
    | inr (owner, u, hr, hd, hj, ho) ↦
        let miss : is_pending job_id a ≡ false =
          join_feeds_none (is_pending job_id) db.feeds db.articles empty at (inv.homes a at) in
        let hit : is_pending job_id a ≡ true = rw (hr, mine, (eq_iff job_id job_id).1 refl) refl in
        ground (arith, miss, hit)
  ]

  claim_rows-RssInv :
      (limit : ℕ) (feed_urls : Option (List String)) (db : RssDb)
      → pending_of job_id db ≡ []
      → RssInv db
      → RssInv (record db {
        articles = claim_rows job_id uuid (ids_of (claimable_of limit feed_urls db)) db.articles;
      })
  claim_rows-RssInv limit feed_urls db empty inv =
      let ids = ids_of (claimable_of limit feed_urls db) in
      record {
        keys = subst Unique (sym (keys-claim_rows ids db.articles)) inv.keys;
        homes = λ b m.
            let (a, at, c) = claimed_from ids db.articles m in
            elim c [
              | inl (chosen, e) ↦
                  subst (λ i. Memᴰ i (map (λ (f : RssFeed). f.id) db.feeds))
                    (sym (ap (λ z. z.feed_id) e)) (inv.homes a at)
              | inr e ↦
                  subst (λ i. Memᴰ i (map (λ (f : RssFeed). f.id) db.feeds))
                    (sym (ap (λ z. z.feed_id) e)) (inv.homes a at)
            ];
        whole = λ b m.
            let (a, at, c) = claimed_from ids db.articles m in
            elim c [
              | inl (chosen, e) ↦
                  subst (λ z. Free z ⊎ Held z) (sym e)
                    (inr (
                      job_id,
                      uuid,
                      claimable_unread limit feed_urls db inv at chosen,
                      refl,
                      refl,
                      refl,
                    ))
              | inr e ↦ subst (λ z. Free z ⊎ Held z) (sym e) (inv.whole a at)
            ];
        one_dispatch = λ b1 b2 owner m1 m2 o1 o2.
            let (a1, at1, c1) = claimed_from ids db.articles m1 in
            let (a2, at2, c2) = claimed_from ids db.articles m2 in
            elim c1 [
              | inl (chosen1, e1) ↦
                  let k1 = ap (λ z. z.dispatch_owner_key) e1 in
                  elim c2 [
                    | inl (chosen2, e2) ↦
                        ap (λ z. z.dispatch_id) e1 ∙ sym (ap (λ z. z.dispatch_id) e2)
                    | inr e2 ↦ absurd (
                        owns_nothing db a2 inv empty at2
                          (sym (ap (λ z. z.dispatch_owner_key) e2) ∙ o2 ∙ sym o1 ∙ k1))
                  ]
              | inr e1 ↦ elim c2 [
                | inl (chosen2, e2) ↦ absurd (
                    owns_nothing db a1 inv empty at1 (
                      sym (ap (λ z. z.dispatch_owner_key) e1)
                      ∙ o1
                      ∙ sym o2
                      ∙ ap (λ z. z.dispatch_owner_key) e2))
                | inr e2 ↦
                    ap (λ z. z.dispatch_id) e1
                    ∙ inv.one_dispatch a1 a2 owner at1 at2
                        (sym (ap (λ z. z.dispatch_owner_key) e1) ∙ o1)
                        (sym (ap (λ z. z.dispatch_owner_key) e2) ∙ o2)
                    ∙ sym (ap (λ z. z.dispatch_id) e2)
              ]
            ];
      }

pub claim-RssInv :
    (uuid job_id : String) (limit : ℕ) (feed_urls : Option (List String)) (db : RssDb)
    → RssInv db
    → RssInv (claim_unread_articles uuid job_id limit feed_urls db).1
unfolding claim_new
claim-RssInv uuid job_id limit feed_urls db inv = elim (Bool-cases (no_urls feed_urls)) [
  | inl absent ↦
      subst (λ z. RssInv z.1) (sym (claim_absent uuid job_id limit feed_urls db absent)) inv
  | inr urls ↦ from_pending (pending_of job_id db) refl urls
]
  where
    from_new :
        (rows : List (RssArticle × RssFeed))
        → claimable_of limit feed_urls db ≡ rows
        → pending_of job_id db ≡ []
        → RssInv (claim_new uuid job_id rows db).1
    from_new [] e empty = inv
    from_new (r ∷ rs) e empty =
        subst (λ l. RssInv (record db { articles = claim_rows job_id uuid (ids_of l) db.articles }))
          e (claim_rows-RssInv job_id uuid limit feed_urls db empty inv)

    from_pending :
        (pending : List (RssArticle × RssFeed))
        → pending_of job_id db ≡ pending
        → no_urls feed_urls ≡ false
        → RssInv (claim_unread_articles uuid job_id limit feed_urls db).1
    from_pending [] e urls =
        subst (λ z. RssInv z.1) (sym (claim_fresh uuid job_id limit feed_urls db urls e))
          (from_new (claimable_of limit feed_urls db) refl e)
    from_pending (r ∷ rs) e urls =
        subst (λ z. RssInv z.1) (sym (claim_pending uuid job_id limit feed_urls db r rs urls e)) inv
