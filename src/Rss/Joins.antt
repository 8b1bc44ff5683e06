-- ===== src/Rss/Joins.antt =====
-- The rows of the joins of src/rss/store.ts.
use mathlib.Core.List.Memᴰ
use mathlib.Core.Option
use my_discord_agent.Base.{
  ◌==◌, Bool-cases, &&-eq_true, Option-cases, take, find_row, any_row, find_row-none, ℕ, zero, suc,
  ◌≡◌, refl, sym, ap, subst, ◌∙◌, ◌⊎◌, inl, inr, Bool, true, false, ◌&&◌, Option, some, List, [],
  ◌∷◌, map, Memᴰ, arith,
}
use my_discord_agent.Rss.Articles.{join_feeds, in_ids, ids_of}
use my_discord_agent.Rss.Feeds.{RssFeed, RssArticle}

module _ (p : RssArticle → Bool) (q : RssFeed → Bool) (feeds : List RssFeed) where
  abbrev pub feed_of : RssArticle → Option RssFeed
  feed_of a = find_row (λ (f : RssFeed). f.id == a.feed_id) feeds

  -- An article that the join takes, or leaves out.
  pub join_cases :
      (a : RssArticle)
      → ((f : RssFeed) × (feed_of a ≡ some f) × ((p a && q f) ≡ true))
        ⊎ ((f : RssFeed) → feed_of a ≡ some f → (p a && q f) ≡ false)
  join_cases a = elim (Option-cases (feed_of a)) [
    | inl homeless ↦ inr (λ f found. absurd (ground (arith, homeless, found)))
    | inr (f, found) ↦ elim (Bool-cases (p a && q f)) [
      | inl hit ↦ inl (f, found, hit)
      | inr miss ↦ inr (λ g again.
          subst (λ z. (p a && q z) ≡ false) (Option.some-injective _ _ (sym found ∙ again)) miss)
    ]
  ]

  pub join_feeds_in :
      (a : RssArticle) (articles : List RssArticle) (f : RssFeed)
      → feed_of a ≡ some f
      → (p a && q f) ≡ true
      → join_feeds p q feeds (a ∷ articles) ≡ (a, f) ∷ join_feeds p q feeds articles
  unfolding join_feeds
  join_feeds_in a articles f found hit = rw (join_feeds, found, hit) refl

  pub join_feeds_out :
      (a : RssArticle) (articles : List RssArticle)
      → ((f : RssFeed) → feed_of a ≡ some f → (p a && q f) ≡ false)
      → join_feeds p q feeds (a ∷ articles) ≡ join_feeds p q feeds articles
  unfolding join_feeds
  join_feeds_out a articles out = elim (Option-cases (feed_of a)) [
    | inl homeless ↦ rw (join_feeds, homeless) refl
    | inr (f, found) ↦ rw (join_feeds, found, out f found) refl
  ]

  -- The rows of a join stand in its table.
  pub join_feeds-Memᴰ :
      (articles : List RssArticle) {r : RssArticle × RssFeed}
      → Memᴰ r (join_feeds p q feeds articles)
      → Memᴰ r.0 articles × (p r.0 ≡ true)
  unfolding join_feeds
  join_feeds-Memᴰ [] m = absurd (Memᴰ.not-nil m)
  join_feeds-Memᴰ (a ∷ articles) {r} m = elim (join_cases a) [
    | inr out ↦
        let (at, h) =
          join_feeds-Memᴰ articles (subst (λ l. Memᴰ r l) (join_feeds_out a articles out) m) in
        (Memᴰ.tail at, h)
    | inl (f, found, hit) ↦
        elim (Memᴰ.cases_cons (subst (λ l. Memᴰ r l) (join_feeds_in a articles f found hit) m)) [
          | inl e ↦
              (Memᴰ.head (ap (λ z. z.0) e), ap (λ z. p z.0) e ∙ (&&-eq_true (p a) (q f) hit).0)
          | inr later ↦ let (at, h) = join_feeds-Memᴰ articles later in (Memᴰ.tail at, h)
        ]
  ]

pub take-Memᴰ : {A : Type 0} (n : ℕ) (xs : List A) {x : A} → Memᴰ x (take n xs) → Memᴰ x xs
take-Memᴰ zero xs m = absurd (Memᴰ.not-nil m)
take-Memᴰ (suc n) [] m = m
take-Memᴰ (suc n) (y ∷ xs) m = elim (Memᴰ.cases_cons m) [
  | inl e ↦ Memᴰ.head e
  | inr later ↦ Memᴰ.tail (take-Memᴰ n xs later)
]

-- An article is in a list of ids when one of the rows has its id.
pub in_ids-Memᴰ :
    (a : RssArticle) (rows : List (RssArticle × RssFeed))
    → in_ids (ids_of rows) a ≡ true
    → (r : RssArticle × RssFeed) × Memᴰ r rows × (a.id ≡ r.0.id)
unfolding any_row
in_ids-Memᴰ a [] h = cc
in_ids-Memᴰ a (r ∷ rows) h = elim (Bool-cases (a.id == r.0.id)) [
  | inl hit ↦ (r, Memᴰ.head refl, ground arith)
  | inr miss ↦ let (s, m, e) = in_ids-Memᴰ a rows (ground (arith, miss)) in (s, Memᴰ.tail m, e)
]

-- A foreign key names a row.
pub home_found :
    (feeds : List RssFeed) (i : ℕ)
    → Memᴰ i (map (λ (f : RssFeed). f.id) feeds)
    → (f : RssFeed) × (find_row (λ (f : RssFeed). f.id == i) feeds ≡ some f)
home_found feeds i m = elim (Option-cases (find_row (λ (f : RssFeed). f.id == i) feeds)) [
  | inr found ↦ found
  | inl nothing ↦
      let (f, at, e) = Memᴰ.of_map (λ (f : RssFeed). f.id) feeds m in
      let miss = find_row-none (λ (f : RssFeed). f.id == i) feeds nothing at in
      absurd (ground (arith, miss, e))
]

-- A join that is empty has passed every article by.
pub join_feeds_none :
    (p : RssArticle → Bool) (feeds : List RssFeed) (articles : List RssArticle) {a : RssArticle}
    → join_feeds p (λ f. true) feeds articles ≡ []
    → Memᴰ a articles
    → Memᴰ a.feed_id (map (λ (f : RssFeed). f.id) feeds)
    → p a ≡ false
join_feeds_none p feeds [] empty m home = absurd (Memᴰ.not-nil m)
join_feeds_none p feeds (x ∷ articles) {a} empty m home = elim (join_cases p (λ f. true) feeds x) [
  | inl (f, found, hit) ↦
      absurd (ground (arith, join_feeds_in p (λ f. true) feeds x articles f found hit, empty))
  | inr out ↦ elim (Memᴰ.cases_cons m) [
    | inl e ↦
        let (f, found) =
          home_found feeds x.feed_id
            (subst (λ z. Memᴰ z.feed_id (map (λ (f : RssFeed). f.id) feeds)) e home) in
        let miss = out f found in ap p e ∙ ground arith
    | inr rest ↦
        join_feeds_none p feeds articles
          (sym (join_feeds_out p (λ f. true) feeds x articles out) ∙ empty) rest home
  ]
]
