-- ===== src/Queue/Sessions.antt =====
-- Bot Task Sessions (src/queue/repository.ts): creating one or resuming it by its handle, each
-- together with a ticket or a first message in one transaction.
use my_discord_agent.Base.{
  is_text, find_row, any_row, update_rows, ℕ, String, ◌&&◌, ◌||◌, Option, none, some, [], ◌∷◌, ◌++◌,
  str_eq,
}
use my_discord_agent.Queue.Admission.{Admission, create_admission_in_transaction}
use my_discord_agent.Queue.Enqueue.{EnqueueOptions, EnqueueResult, enqueue_in_transaction}
use my_discord_agent.Queue.Metadata.{truthy}
use my_discord_agent.Queue.Payload.{str, Object, put}
use my_discord_agent.Queue.Rows.{BotTaskSession}
use my_discord_agent.Queue.Sources.{Sources}
use my_discord_agent.Queue.Store.{
  Db, Ambient, read_back, done, M, ◌>>=◌, ◌>>◌, pure, query, or_throw, transaction, same_key,
  unless_exists,
}

pub record CreateSession : Type 0 where
  pub session_id : String
  pub handle : String
  pub group_name : String
  pub bot_id : String
  pub source_key : Option String
  pub created_at : ℕ
  pub preview : String

-- INSERT INTO bot_task_sessions: session, handle and source key are unique.
unfoldable pub insert_session : BotTaskSession → M (Unit {0})
insert_session row db =
    unless_exists
      (any_row
        (λ r.
          str_eq r.session_id row.session_id
          || (str_eq r.handle row.handle || same_key r.source_key row.source_key))
        db.bot_task_sessions)
      (record db { bot_task_sessions = db.bot_task_sessions ++ row ∷ [] }) db

unfoldable pub session_by_id : String → Db → Option BotTaskSession
session_by_id id db = find_row (λ r. str_eq r.session_id id) db.bot_task_sessions

unfoldable pub session_by_source : Option String → Db → Option BotTaskSession
session_by_source none db = none
session_by_source (some k) db = find_row (λ r. is_text r.source_key k) db.bot_task_sessions

unfoldable pub new_session : CreateSession → BotTaskSession
new_session input = record {
  session_id = input.session_id;
  handle = input.handle;
  group_name = input.group_name;
  bot_id = input.bot_id;
  source_key = input.source_key;
  created_at = input.created_at;
  last_used_at = input.created_at;
  preview = input.preview;
}

unfoldable pub session_or_new : CreateSession → Option BotTaskSession → M BotTaskSession
session_or_new input (some row) = pure row
session_or_new input none = do
  insert_session (new_session input)
  created ← query (session_by_id input.session_id)
  or_throw created (read_back input.session_id)

unfoldable pub create_session_in_transaction : CreateSession → M BotTaskSession
create_session_in_transaction input = do
  existing ← query (session_by_source (truthy input.source_key))
  session_or_new input existing

unfoldable pub create_session_and_admission :
    Ambient → CreateSession → M (BotTaskSession × Admission)
create_session_and_admission env input = transaction do
  session ← create_session_in_transaction input
  admission ←
      create_admission_in_transaction env session.session_id session.group_name input.created_at
  pure (session, admission)

unfoldable pub owned_session : String → String → String → Db → Option BotTaskSession
owned_session handle group bot db =
    find_row (λ r. str_eq r.handle handle && (str_eq r.group_name group && str_eq r.bot_id bot))
      db.bot_task_sessions

unfoldable pub touch_session : String → ℕ → M (Unit {0})
touch_session id at db = done tt (record db {
  bot_task_sessions =
      update_rows (λ r. str_eq r.session_id id) (λ r. record r { last_used_at = at })
        db.bot_task_sessions;
})

unfoldable pub resume_found :
    Ambient → String → ℕ → Option BotTaskSession → M (Option (BotTaskSession × Admission))
resume_found env group at none = pure none
resume_found env group at (some row) = do
  touch_session row.session_id at
  admission ← create_admission_in_transaction env row.session_id group at
  pure (some (record row { last_used_at = at }, admission))

unfoldable pub resume_in_transaction :
    Ambient → String → String → String → ℕ → M (Option (BotTaskSession × Admission))
resume_in_transaction env handle group bot at = do
  found ← query (owned_session handle group bot)
  resume_found env group at found

unfoldable pub resume_session_and_admission :
    Ambient → String → String → String → ℕ → M (Option (BotTaskSession × Admission))
resume_session_and_admission env handle group bot at =
    transaction (resume_in_transaction env handle group bot at)

-- Create a session and enqueue its first message, in one transaction.
unfoldable pub create_session_and_enqueue :
    Option Sources
    → Ambient
    → EnqueueOptions
    → CreateSession
    → Object
    → M (BotTaskSession × EnqueueResult)
create_session_and_enqueue sources env options input payload = transaction do
  session ← create_session_in_transaction input
  result ←
      enqueue_in_transaction sources env options (put "sessionId" (str session.session_id) payload)
  pure (session, result)

unfoldable pub enqueue_found :
    Option Sources
    → Ambient
    → EnqueueOptions
    → ℕ
    → Object
    → Option BotTaskSession
    → M (Option (BotTaskSession × EnqueueResult))
enqueue_found sources env options at payload none = pure none
enqueue_found sources env options at payload (some row) = do
  touch_session row.session_id at
  result ← enqueue_in_transaction sources env options (put "sessionId" (str row.session_id) payload)
  updated ← query (session_by_id row.session_id)
  session ← or_throw updated (read_back row.session_id)
  pure (some (session, result))

unfoldable pub resume_and_enqueue_in_transaction :
    Option Sources
    → Ambient
    → EnqueueOptions
    → String
    → String
    → String
    → ℕ
    → Object
    → M (Option (BotTaskSession × EnqueueResult))
resume_and_enqueue_in_transaction sources env options handle group bot at payload = do
  found ← query (owned_session handle group bot)
  enqueue_found sources env options at payload found

unfoldable pub resume_session_and_enqueue :
    Option Sources
    → Ambient
    → EnqueueOptions
    → String
    → String
    → String
    → ℕ
    → Object
    → M (Option (BotTaskSession × EnqueueResult))
resume_session_and_enqueue sources env options handle group bot at payload =
    transaction (resume_and_enqueue_in_transaction sources env options handle group bot at payload)
