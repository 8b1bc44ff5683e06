-- ===== src/Queue/Cursor.antt =====
-- The Discord backfill cursors (src/queue/repository.ts): per scope, the newest message seen. A
-- snowflake id is a decimal text, compared as a number.
use my_discord_agent.Base.{
  ltb, if◌then◌else◌, select, find_row, ℕ, String, Bool, true, false, not, Option, none, some, List,
  [], ◌∷◌, str_eq,
}
use my_discord_agent.Queue.Rows.{DiscordCursor}
use my_discord_agent.Queue.Store.{Db, done, M, ◌>>=◌, pure, query}

unfoldable pub cursor_row : String → Db → Option DiscordCursor
cursor_row scope db = find_row (λ r. str_eq r.scope_id scope) db.discord_sync_cursors

unfoldable pub get_discord_cursor : String → Db → Option ℕ
unfolding cursor_row
get_discord_cursor scope db = elim (cursor_row scope db) [
  | none ↦ none
  | some r ↦ r.last_message_id
]

unfoldable pub is_discord_cursor_initialized : String → Db → Bool
unfolding cursor_row
is_discord_cursor_initialized scope db = elim (cursor_row scope db) [
  | none ↦ false
  | some r ↦ r.initialized
]

-- INSERT … ON CONFLICT(scope_id) DO UPDATE
unfoldable pub upsert :
    DiscordCursor → (DiscordCursor → DiscordCursor) → List DiscordCursor → List DiscordCursor
upsert row update [] = row ∷ []
upsert row update (r ∷ rows) =
    if str_eq r.scope_id row.scope_id then update r ∷ rows else r ∷ upsert row update rows

unfoldable pub clear_discord_cursor : String → M (Unit {0})
clear_discord_cursor scope db = done tt (record db {
  discord_sync_cursors = select (λ r. not (str_eq r.scope_id scope)) db.discord_sync_cursors;
})

unfoldable pub initialize_discord_cursor : ℕ → String → M (Unit {0})
unfolding upsert
initialize_discord_cursor now scope db = done tt (record db {
  discord_sync_cursors =
      upsert
        (record { scope_id = scope; last_message_id = none; updated_at = now; initialized = true })
        (λ r. record r { initialized = true; updated_at = now }) db.discord_sync_cursors;
})

-- An id that is not newer than the cursor changes nothing.
unfoldable pub is_newer : ℕ → Option ℕ → Bool
is_newer message none = true
is_newer message (some current) = ltb current message

unfoldable pub upsert_discord_cursor : ℕ → String → ℕ → M (Unit {0})
unfolding upsert is_newer
upsert_discord_cursor now scope message = do
  current ← query (get_discord_cursor scope)
  if is_newer message current then write else pure tt
  where
    write : M (Unit {0})
    write db = done tt (record db {
      discord_sync_cursors =
          upsert
            (record {
              scope_id = scope;
              last_message_id = some message;
              updated_at = now;
              initialized = true;
            })
            (λ r. record r { last_message_id = some message; updated_at = now; initialized = true })
            db.discord_sync_cursors;
    })
