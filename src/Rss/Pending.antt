-- ===== src/Rss/Pending.antt =====
-- What is pending after a claim of src/rss/store.ts.
use mathlib.Core.List.Memᴰ
use my_discord_agent.Base.{
  ◌==◌, Bool-cases, &&-eq_true, is_none, take, find_row, any_row, update_rows, Unique, ℕ, zero, suc,
  String, ◌≡◌, refl, sym, ap, ◌∙◌, ◌≢◌, inl, inr, Bool, true, false, ◌&&◌, some, List, [], ◌∷◌, map,
  Memᴰ, arith, str_eq, eq_iff,
}
use my_discord_agent.Rss.Articles.{
  map_article, join_feeds, is_pending, is_undispatched, in_ids, dispatch_job, ids_of, claim_rows,
}
use my_discord_agent.Rss.Feeds.{RssFeed, RssArticle}
use my_discord_agent.Rss.Joins.{
  join_cases, join_feeds_in, join_feeds_out, join_feeds-Memᴰ, take-Memᴰ, in_ids-Memᴰ,
}

-- A row that a claim has updated.
abbrev pub marked : String → String → RssArticle × RssFeed → RssArticle × RssFeed
marked job_id uuid (a, f) = (
  record a {
    dispatch_id = some uuid;
    dispatch_job_id = some (dispatch_job job_id uuid);
    dispatch_owner_key = some job_id;
  },
  f,
)

own_id : (a : RssArticle) (ids : List ℕ) → in_ids (a.id ∷ ids) a ≡ true
unfolding any_row
own_id a ids = ground arith

other_id :
    (a x : RssArticle) (articles : List RssArticle) (ids : List ℕ)
    → Unique (map (λ (x : RssArticle). x.id) (a ∷ articles))
    → Memᴰ x articles
    → in_ids (a.id ∷ ids) x ≡ in_ids ids x
unfolding any_row Unique
other_id a x articles ids u m =
    let differs : a.id ≢ x.id = u.0 x.id (Memᴰ.map (λ (x : RssArticle). x.id) m) in
    let miss : (x.id == a.id) ≡ false = ground arith in rw miss refl

module _ (q : RssFeed → Bool) (feeds : List RssFeed) (job_id uuid : String) where
  abbrev claimed : ℕ → List RssArticle → List (RssArticle × RssFeed)
  claimed n articles = take n (join_feeds is_undispatched q feeds articles)

  -- No article that stands before a list of others has the id of one that is claimed among these.
  not_claimed :
      (n : ℕ) (a : RssArticle) (articles : List RssArticle)
      → Unique (map (λ (x : RssArticle). x.id) (a ∷ articles))
      → in_ids (ids_of (claimed n articles)) a ≡ false
  unfolding Unique
  not_claimed n a articles u = elim (Bool-cases (in_ids (ids_of (claimed n articles)) a)) [
    | inr miss ↦ miss
    | inl hit ↦
        let (r, m, e) = in_ids-Memᴰ a (claimed n articles) hit in
        let (at, h) =
          join_feeds-Memᴰ is_undispatched q feeds articles
            (take-Memᴰ n (join_feeds is_undispatched q feeds articles) m) in
        absurd (u.0 r.0.id (Memᴰ.map (λ (x : RssArticle). x.id) at) e)
  ]

  -- Nothing is pending in the rest of a table where nothing is.
  none_head :
      (a : RssArticle) (articles : List RssArticle)
      → join_feeds (is_pending job_id) (λ f. true) feeds (a ∷ articles) ≡ []
      → ((f : RssFeed)
          → find_row (λ (f : RssFeed). f.id == a.feed_id) feeds ≡ some f
          → (is_pending job_id a && true) ≡ false)
        × (join_feeds (is_pending job_id) (λ f. true) feeds articles ≡ [])
  none_head a articles h = elim (join_cases (is_pending job_id) (λ f. true) feeds a) [
    | inr out ↦ (out, sym (join_feeds_out (is_pending job_id) (λ f. true) feeds a articles out) ∙ h)
    | inl (f, found, hit) ↦ absurd (
        ground
          (arith, join_feeds_in (is_pending job_id) (λ f. true) feeds a articles f found hit, h))
  ]

  abbrev later : List RssArticle → List ℕ → List (RssArticle × RssFeed)
  later articles ids =
      join_feeds (is_pending job_id) (λ f. true) feeds (claim_rows job_id uuid ids articles)

  -- An article that is not claimed is not pending afterwards.
  later_out :
      (ids : List ℕ) (a : RssArticle) (articles : List RssArticle)
      → in_ids ids a ≡ false
      → join_feeds (is_pending job_id) (λ f. true) feeds (a ∷ articles) ≡ []
      → later (a ∷ articles) ids ≡ later articles ids
  unfolding claim_rows update_rows
  later_out ids a articles out none_pending =
      let kept : (is_none a.dispatch_id && in_ids ids a) ≡ false = ground arith in
      rw kept (
        join_feeds_out (is_pending job_id) (λ f. true) feeds a (claim_rows job_id uuid ids articles)
          (none_head a articles none_pending).0)

  -- One that is claimed is pending afterwards.
  later_in :
      (ids : List ℕ) (a : RssArticle) (articles : List RssArticle) (f : RssFeed)
      → in_ids ids a ≡ true
      → is_undispatched a ≡ true
      → find_row (λ (f : RssFeed). f.id == a.feed_id) feeds ≡ some f
      → later (a ∷ articles) ids ≡ marked job_id uuid (a, f) ∷ later articles ids
  unfolding claim_rows update_rows
  later_in ids a articles f chosen free found =
      let taken : (is_none a.dispatch_id && in_ids ids a) ≡ true = ground arith in
      let mine : str_eq job_id job_id ≡ true = (eq_iff job_id job_id).1 refl in
      let unread : is_none a.read_at ≡ true = ground arith in
      let claimed_row : RssArticle = record a {
        dispatch_id = some uuid;
        dispatch_job_id = some (dispatch_job job_id uuid);
        dispatch_owner_key = some job_id;
      } in
      let hit : (is_pending job_id claimed_row && true) ≡ true = rw (unread, mine) refl in
      rw taken (
        join_feeds_in (is_pending job_id) (λ f. true) feeds claimed_row
          (claim_rows job_id uuid ids articles) f found hit)

  -- The articles that a claim has updated are those that it returns.
  pub pending_after :
      (ids : List ℕ) (n : ℕ) (articles : List RssArticle)
      → Unique (map (λ (x : RssArticle). x.id) articles)
      → ((a : RssArticle) → Memᴰ a articles → in_ids ids a ≡ in_ids (ids_of (claimed n articles)) a)
      → join_feeds (is_pending job_id) (λ f. true) feeds articles ≡ []
      → later articles ids ≡ map (marked job_id uuid) (claimed n articles)
  unfolding claim_rows update_rows join_feeds Unique any_row
  pending_after ids zero [] u same none_pending = refl
  pending_after ids (suc n) [] u same none_pending = refl
  pending_after ids zero (a ∷ articles) u same none_pending =
      later_out ids a articles (same a (Memᴰ.head refl)) none_pending
      ∙ pending_after ids zero articles u.1 (λ x m. same x (Memᴰ.tail m))
          (none_head a articles none_pending).1
  pending_after ids (suc n) (a ∷ articles) u same none_pending =
      let rest = (none_head a articles none_pending).1 in
      elim (join_cases is_undispatched q feeds a) [
        | inr out ↦
            let skip : claimed (suc n) (a ∷ articles) ≡ claimed (suc n) articles =
              ap (take (suc n)) (join_feeds_out is_undispatched q feeds a articles out) in
            let same_rest : (x : RssArticle)
                → Memᴰ x (a ∷ articles)
                → in_ids ids x ≡ in_ids (ids_of (claimed (suc n) articles)) x =
              (λ x m. same x m ∙ ap (λ rows. in_ids (ids_of rows) x) skip) in
            later_out ids a articles
              (same_rest a (Memᴰ.head refl) ∙ not_claimed (suc n) a articles u) none_pending
            ∙ pending_after ids (suc n) articles u.1 (λ x m. same_rest x (Memᴰ.tail m)) rest
            ∙ ap (map (marked job_id uuid)) (sym skip)
        | inl (f, found, hit) ↦
            let takes : claimed (suc n) (a ∷ articles) ≡ (a, f) ∷ claimed n articles =
              ap (take (suc n)) (join_feeds_in is_undispatched q feeds a articles f found hit) in
            let same_rest : (x : RssArticle)
                → Memᴰ x (a ∷ articles)
                → in_ids ids x ≡ in_ids (a.id ∷ ids_of (claimed n articles)) x =
              (λ x m. same x m ∙ ap (λ rows. in_ids (ids_of rows) x) takes) in
            later_in ids a articles f
              (same_rest a (Memᴰ.head refl) ∙ own_id a (ids_of (claimed n articles)))
              (&&-eq_true (is_undispatched a) (q f) hit).0 found
            ∙ ap (◌∷◌ (marked job_id uuid (a, f))) (
                pending_after ids n articles u.1
                  (λ x m.
                    same_rest x (Memᴰ.tail m)
                    ∙ other_id a x articles (ids_of (claimed n articles)) u m)
                  rest)
            ∙ ap (map (marked job_id uuid)) (sym takes)
      ]

pub map-marked :
    (job_id uuid : String) (rows : List (RssArticle × RssFeed))
    → map map_article (map (marked job_id uuid) rows) ≡ map map_article rows
map-marked job_id uuid [] = refl
map-marked job_id uuid (r ∷ rows) = ap (◌∷◌ (map_article r)) (map-marked job_id uuid rows)
