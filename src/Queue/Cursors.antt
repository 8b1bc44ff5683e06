-- ===== src/Queue/Cursors.antt =====
-- What an update of the Discord backfill cursor leaves (`upsertDiscordCursor` of
-- src/queue/repository.ts).
use my_discord_agent.Base.{
  ltb, Bool-cases, Option-cases, find_row, ℕ, max, String, ◌≡◌, refl, ap, ◌∙◌, inl, inr, Option,
  none, some, List, [], ◌∷◌, arith, str_eq, eq_iff,
}
use my_discord_agent.Queue.Cursor.{
  cursor_row, get_discord_cursor, upsert, is_newer, upsert_discord_cursor,
}
use my_discord_agent.Queue.Rows.{DiscordCursor}
use my_discord_agent.Queue.Store.{Db, ◌>>=◌, pure, query, after}

-- The newer of a cursor and a message.
pub newest : Option ℕ → ℕ → ℕ
newest none message = message
newest (some current) message = max current message

upsert-find :
    (row : DiscordCursor) (update : DiscordCursor → DiscordCursor) (rows : List DiscordCursor)
    → ((r : DiscordCursor) → (update r).scope_id ≡ r.scope_id)
    → find_row (λ r. str_eq r.scope_id row.scope_id) (upsert row update rows)
      ≡ some (elim (find_row (λ r. str_eq r.scope_id row.scope_id) rows) as (λ _. DiscordCursor) [
        | none ↦ row
        | some r ↦ update r
      ])
unfolding upsert find_row
upsert-find row update [] keeps = rw ((eq_iff row.scope_id row.scope_id).1 refl) refl
upsert-find row update (r ∷ rows) keeps = elim (Bool-cases (str_eq r.scope_id row.scope_id)) [
  | inl hit ↦ rw hit (rw (keeps r) (rw hit refl))
  | inr miss ↦ rw miss (rw miss (upsert-find row update rows keeps))
]

module _ (row : DiscordCursor) (update : DiscordCursor → DiscordCursor) (message : ℕ)
    (keeps : (r : DiscordCursor) → (update r).scope_id ≡ r.scope_id)
    (new : row.last_message_id ≡ some message)
    (sets : (r : DiscordCursor) → (update r).last_message_id ≡ some message) where
  written : Option DiscordCursor → DiscordCursor
  written none = row
  written (some r) = update r

  written-message : (o : Option DiscordCursor) → (written o).last_message_id ≡ some message
  unfolding written
  written-message none = new
  written-message (some r) = sets r

  same_written :
      (o : Option DiscordCursor)
      → elim o as (λ _. DiscordCursor) [ none ↦ row | some r ↦ update r ] ≡ written o
  unfolding written
  same_written none = refl
  same_written (some r) = refl

  cursor_after :
      (db : Db)
      → get_discord_cursor row.scope_id
          (record db { discord_sync_cursors = upsert row update db.discord_sync_cursors })
        ≡ some message
  unfolding get_discord_cursor cursor_row
  cursor_after db =
      ap (λ o. elim o as (λ _. Option ℕ) [ none ↦ none | some r ↦ r.last_message_id ])
        (upsert-find row update db.discord_sync_cursors keeps ∙ ap some (same_written _))
      ∙ written-message _

-- After `upsertDiscordCursor` the cursor of the scope is the newer of the message and the cursor
-- before: it never moves back.
pub cursor_moves_forward :
    (now : ℕ) (scope : String) (message : ℕ) (db : Db)
    → get_discord_cursor scope (after (upsert_discord_cursor now scope message db))
      ≡ some (newest (get_discord_cursor scope db) message)
unfolding upsert_discord_cursor is_newer newest ◌>>=◌ query pure
cursor_moves_forward now scope message db = elim (Option-cases (get_discord_cursor scope db)) [
  | inl absent ↦ rw absent (cursor_after _ _ message (λ r. refl) refl (λ r. refl) db)
  | inr (current, present) ↦ elim (Bool-cases (ltb current message)) [
    | inl newer ↦
        let top : message ≡ max current message = ground (arith, newer) in
        rw (present, newer) (cursor_after _ _ message (λ r. refl) refl (λ r. refl) db ∙ ap some top)
    | inr older ↦ rw (present, older) (present ∙ ap some (ground arith))
  ]
]
