-- ===== src/XSaved/Ingesting.antt =====
-- What an ingest of src/integrations/x-saved/store.ts counts and keeps.
use mathlib.Core.List.Memᴰ
use mathlib.Core.Option
use my_discord_agent.Base.{
  Bool-cases, Option-cases, length, length-append, find_row, any_row, update_rows-Memᴰ,
  length-update_rows, any_row-append, any_row-update_rows, ℕ, suc, ◌+◌, String, ◌≡◌, refl, sym, ap,
  subst, ◌∙◌, inl, inr, Bool, true, false, ◌||◌, Option, none, some, List, [], ◌∷◌, map, Memᴰ,
  arith, str_eq,
}
use my_discord_agent.XSaved.Store.{
  XItem, XSavedDb, MediaEntry, XSavedItem, is_filled, is_tweet, new_item, seen_again, upsert_item,
  ensure_state, upsert_media, merge_x_saved_media, merge_hints, ingest_item, ingest_loop,
  ingest_x_saved_items,
}

-- A saved post as it was and as it is: it was first seen at the same time, and keeps its marks.
pub record Kept (x y : XItem) : Type 0 where
  pub same_tweet : y.tweet_id ≡ x.tweet_id
  pub same_first : y.first_seen_at ≡ x.first_seen_at
  pub liked : (x.seen_liked || y.seen_liked) ≡ y.seen_liked
  pub bookmarked : (x.seen_bookmarked || y.seen_bookmarked) ≡ y.seen_bookmarked

-- Every post of a table is kept in another.
abbrev pub KeptIn : List XItem → List XItem → Type 0
KeptIn xs ys = (x : XItem) → Memᴰ x xs → (y : XItem) × Memᴰ y ys × Kept x y

or_or : (a b : Bool) → (a || (a || b)) ≡ (a || b)
or_or true b = refl
or_or false b = refl

or_self : (a : Bool) → (a || a) ≡ a
or_self true = refl
or_self false = refl

or_trans : (a b c : Bool) → (a || b) ≡ b → (b || c) ≡ c → (a || c) ≡ c
or_trans true true true h k = refl
or_trans true true false h k = k
or_trans true false c h k = cc
or_trans false b c h k = refl

Kept-refl : (x : XItem) → Kept x x
Kept-refl x = record {
  same_tweet = refl;
  same_first = refl;
  liked = or_self x.seen_liked;
  bookmarked = or_self x.seen_bookmarked;
}

Kept-trans : (x y z : XItem) → Kept x y → Kept y z → Kept x z
Kept-trans x y z h k = record {
  same_tweet = k.same_tweet ∙ h.same_tweet;
  same_first = k.same_first ∙ h.same_first;
  liked = or_trans x.seen_liked y.seen_liked z.seen_liked h.liked k.liked;
  bookmarked =
      or_trans x.seen_bookmarked y.seen_bookmarked z.seen_bookmarked h.bookmarked k.bookmarked;
}

module _ {Hints : Type 0} (stringify : List String → String) (now : String) where
  upsert_item-KeptIn :
      (item : XSavedItem Hints) (items : List XItem)
      → KeptIn items (upsert_item stringify now item items)
  unfolding upsert_item
  upsert_item-KeptIn item items x m = elim (Bool-cases (any_row (is_tweet item.tweet_id) items)) [
    | inr new ↦ rw new (x, Memᴰ.append_left _ m, Kept-refl x)
    | inl known ↦
        let at =
          update_rows-Memᴰ (is_tweet item.tweet_id) (seen_again stringify now item) items m in
        elim (Bool-cases (is_tweet item.tweet_id x)) [
          | inl hit ↦
              let there = rw hit at at in
              rw known (
                seen_again stringify now item x,
                there,
                record {
                  same_tweet = refl;
                  same_first = refl;
                  liked = or_or x.seen_liked item.seen_liked;
                  bookmarked = or_or x.seen_bookmarked item.seen_bookmarked;
                },
              )
          | inr miss ↦ let there = rw miss at at in rw known (x, there, Kept-refl x)
        ]
  ]

  -- What an ingest of one item does to the posts that are known.
  upsert_item_known :
      (item : XSavedItem Hints) (items : List XItem)
      → any_row (is_tweet item.tweet_id) items ≡ true
      → (length (upsert_item stringify now item items) ≡ length items)
        × ((id : String)
            → any_row (is_tweet id) (upsert_item stringify now item items)
              ≡ any_row (is_tweet id) items)
  unfolding upsert_item
  upsert_item_known item items known = (
    rw known (length-update_rows (is_tweet item.tweet_id) (seen_again stringify now item) items),
    (λ id. rw known (
        any_row-update_rows (is_tweet id) (is_tweet item.tweet_id) (seen_again stringify now item)
          items (λ x. refl))),
  )

  upsert_item_new :
      (item : XSavedItem Hints) (items : List XItem)
      → any_row (is_tweet item.tweet_id) items ≡ false
      → (length (upsert_item stringify now item items) ≡ suc (length items))
        × ((id : String)
            → any_row (is_tweet id) (upsert_item stringify now item items)
              ≡ (any_row (is_tweet id) items || (str_eq item.tweet_id id || false)))
  unfolding upsert_item any_row
  upsert_item_new item items new = (
    rw new
        (let more = length-append items (new_item stringify now item ∷ []) in omega (arith, more)),
    (λ id. rw new (any_row-append (is_tweet id) items (new_item stringify now item ∷ []))),
  )

any_row-ids :
    (id : String) (items : List XItem)
    → any_row (λ (i : String). str_eq i id) (map (λ (x : XItem). x.tweet_id) items)
      ≡ any_row (is_tweet id) items
unfolding any_row
any_row-ids id [] = refl
any_row-ids id (x ∷ items) = ap (λ b. str_eq x.tweet_id id || b) (any_row-ids id items)

or_swap : (a b : Bool) → (a || b) ≡ (b || (a || false))
or_swap true true = refl
or_swap true false = refl
or_swap false true = refl
or_swap false false = refl

merge_keeps_items :
    (tweet_id : String) (entries : List MediaEntry) (db : XSavedDb) {after : XSavedDb}
    → merge_x_saved_media tweet_id entries none db ≡ some after
    → after.items ≡ db.items
unfolding merge_x_saved_media
merge_keeps_items tweet_id entries db {after} e =
    elim (Option-cases (find_row (is_tweet tweet_id) db.items)) [
      | inl nothing ↦ absurd (
          let is : none ≡ some after = rw (merge_x_saved_media, nothing) at e in ground (arith, is))
      | inr (x, found) ↦ elim (Bool-cases (is_filled x.media_resolved_at)) [
        | inl over ↦
            let is : some db ≡ some after = rw (merge_x_saved_media, found, over) at e in
            ap (λ z. z.items) (sym (Option.some-injective _ _ is))
        | inr open_yet ↦
            let is : some (record db { media = upsert_media tweet_id false entries db.media })
                ≡ some after =
              rw (merge_x_saved_media, found, open_yet) at e in
            ap (λ z. z.items) (sym (Option.some-injective _ _ is))
      ]
    ]

module _ {Hints : Type 0} (parse : Hints → Option (List MediaEntry))
    (stringify : List String → String) (now : String) where
  ingest_item_items :
      (item : XSavedItem Hints) (db : XSavedDb) {after : XSavedDb}
      → ingest_item parse stringify now item db ≡ some after
      → after.items ≡ upsert_item stringify now item db.items
  unfolding ingest_item merge_hints
  ingest_item_items item db {after} e = hinted item.hints e
    where
      hinted :
          (h : Option Hints)
          → merge_hints parse stringify now item.tweet_id h (record db {
            items = upsert_item stringify now item db.items;
            states = ensure_state now item.tweet_id db.states;
          })
            ≡ some after
          → after.items ≡ upsert_item stringify now item db.items
      hinted none e = ap (λ z. z.items) (sym (Option.some-injective _ _ e))
      hinted (some hints) e = elim (Option-cases (parse hints)) [
        | inl nothing ↦
            absurd
              (let is : none ≡ some after = rw (merge_hints, nothing) at e in ground (arith, is))
        | inr (entries, read) ↦
            merge_keeps_items item.tweet_id entries _ (rw (merge_hints, read) at e)
      ]

  KeptIn-trans : (xs ys zs : List XItem) → KeptIn xs ys → KeptIn ys zs → KeptIn xs zs
  KeptIn-trans xs ys zs h k x m =
      let (y, at, kept) = h x m in
      let (z, there, keeps) = k y at in (z, there, Kept-trans x y z kept keeps)

  ingest_loop_lem :
      (items : List (XSavedItem Hints)) (existing : List String) (n : ℕ) (db : XSavedDb) {m : ℕ}
      {after : XSavedDb}
      → ((id : String)
          → any_row (λ (i : String). str_eq i id) existing ≡ any_row (is_tweet id) db.items)
      → ingest_loop parse stringify now items existing n db ≡ some (m, after)
      → (length after.items + n ≡ length db.items + m) × KeptIn db.items after.items
  unfolding ingest_loop any_row
  ingest_loop_lem [] existing n db {m} {after} agrees e =
      let is : (n, db) ≡ (m, after) = Option.some-injective _ _ e in
      let size = ap (λ z. length z.1.items) is in
      let count = ap (λ z. z.0) is in
      (
        omega (arith, size, count),
        (λ x at. (x, subst (λ z. Memᴰ x z.items) (ap (λ z. z.1) is) at, Kept-refl x)),
      )
  ingest_loop_lem (item ∷ items) existing n db {m} {after} agrees e =
      elim (Option-cases (ingest_item parse stringify now item db)) [
        | inl nothing ↦
            absurd (
              let is : none ≡ some (m, after) = rw (ingest_loop, nothing) at e in
              ground (arith, is))
        | inr (mid, came) ↦
            let is : mid.items ≡ upsert_item stringify now item db.items =
              ingest_item_items item db came in
            let kept : KeptIn db.items mid.items =
              subst (KeptIn db.items) (sym is) (upsert_item-KeptIn stringify now item db.items) in
            let sizes = ap length is in
            elim (Bool-cases (any_row (λ (i : String). str_eq i item.tweet_id) existing)) [
              | inl known ↦
                  let (same, ids) =
                    upsert_item_known stringify now item db.items
                      (sym (agrees item.tweet_id) ∙ known) in
                  let (grows, keeps) =
                    ingest_loop_lem items existing n mid
                      (λ id. agrees id ∙ sym (ids id) ∙ sym (ap (any_row (is_tweet id)) is))
                      (rw (ingest_loop, came, known) at e) in
                  (
                    omega (arith, grows, same, sizes),
                    KeptIn-trans db.items mid.items after.items kept keeps,
                  )
              | inr new ↦
                  let (more, ids) =
                    upsert_item_new stringify now item db.items
                      (sym (agrees item.tweet_id) ∙ new) in
                  let (grows, keeps) =
                    ingest_loop_lem items (item.tweet_id ∷ existing) (n + 1) mid
                      (λ id.
                        ap (λ b. str_eq item.tweet_id id || b) (agrees id)
                        ∙ or_swap (str_eq item.tweet_id id) (any_row (is_tweet id) db.items)
                        ∙ sym (ids id)
                        ∙ sym (ap (any_row (is_tweet id)) is))
                      (rw (ingest_loop, came, new) at e) in
                  (
                    omega (arith, grows, more, sizes),
                    KeptIn-trans db.items mid.items after.items kept keeps,
                  )
            ]
      ]

  -- An ingest that does not throw counts the posts that it adds. A post that was there is still there,
  -- was first seen when it was, and is not unmarked as liked or as bookmarked.
  pub ingest_counts :
      (items : List (XSavedItem Hints)) (db : XSavedDb) {n : ℕ} {after : XSavedDb}
      → ingest_x_saved_items parse stringify now items db ≡ some (n, after)
      → (length after.items ≡ length db.items + n) × KeptIn db.items after.items
  unfolding ingest_x_saved_items
  ingest_counts items db {n} {after} e =
      let (grows, keeps) =
        ingest_loop_lem items (map (λ (x : XItem). x.tweet_id) db.items) 0 db
          (λ id. any_row-ids id db.items) e in
      (omega (arith, grows), keeps)
