-- ===== src/Queue/Store.antt =====
-- The database as one value, and the statements on it as a state monad with exceptions. A SQL
-- statement is one action; JavaScript runs the statements of an operation without interruption,
-- and a transaction that throws is rolled back.
use my_discord_agent.Base.{
  ◌==◌, is_text, select, find_row, any_row, update_rows, changes, ℕ, String, Bool, true, false,
  ◌&&◌, ◌||◌, not, Option, none, some, List, [], ◌∷◌, ◌++◌, str_eq,
}
use my_discord_agent.Queue.Rows.{
  JobRow, IdempotencyKey, DeadLetter, DeliveryRow, CommittedConversation, BotTaskSession,
  DiscordCursor,
}

pub record Db : Type 0 where
  pub jobs : List JobRow
  pub deliveries : List DeliveryRow
  pub idempotency_keys : List IdempotencyKey
  pub dead_letters : List DeadLetter
  pub bot_task_sessions : List BotTaskSession
  pub committed_conversations : List CommittedConversation
  pub discord_sync_cursors : List DiscordCursor

abbrev pub empty_db : Db
empty_db = record {
  jobs = [];
  deliveries = [];
  idempotency_keys = [];
  dead_letters = [];
  bot_task_sessions = [];
  committed_conversations = [];
  discord_sync_cursors = [];
}

-- The clock and randomUUID, as one call of an operation reads them. An operation that asks for
-- the time more than once gets the same answer.
pub record Ambient : Type 0 where
  pub now : ℕ
  pub uuid : ℕ → String

pub data Error : Type 0 where
  stale_fencing_token unknown_job not_active claim_race read_back : String → Error
  unregistered_source_kind invalid_source_input : String → Error
  constraint invalid_time : Error

pub data Outcome (A : Type 0) : Type 0 where
  done : A → Db → Outcome A
  threw : Error → Db → Outcome A

abbrev pub M : Type 0 → Type 0
M A = Db → Outcome A

infixl 5 ◌>>=◌ ◌>>◌
unfoldable pub ◌>>=◌ : {A B : Type 0} → M A → (A → M B) → M B
◌>>=◌ m f db = elim (m db) [ done a after ↦ f a after | threw e after ↦ threw e after ]

unfoldable pub ◌>>◌ : {B : Type 0} → M (Unit {0}) → M B → M B
◌>>◌ m k db = elim (m db) [ done a next ↦ k next | threw e next ↦ threw e next ]

unfoldable pub pure : {A : Type 0} → A → M A
pure a db = done a db

unfoldable pub throw : {A : Type 0} → Error → M A
throw e db = threw e db

unfoldable pub require : Bool → Error → M (Unit {0})
require true e db = done tt db
require false e db = threw e db

unfoldable pub query : {A : Type 0} → (Db → A) → M A
query f db = done (f db) db

unfoldable pub or_throw : {A : Type 0} → Option A → Error → M A
or_throw none e db = threw e db
or_throw (some a) e db = done a db

-- The state after a call: what is written, also where it threw.
abbrev pub after : {A : Type 0} → Outcome A → Db
after (done a db) = db
after (threw e db) = db

-- What the body of a transaction gives: a result to commit, or the ROLLBACK sentinel.
pub data Verdict (A : Type 0) : Type 0 where
  commit : A → Verdict A
  rollback : Verdict A

-- BEGIN IMMEDIATE … COMMIT, rolled back if the body throws or returns the sentinel; `undefined`
-- is what the caller then gets.
unfoldable pub in_immediate_transaction : {A : Type 0} → A → M (Verdict A) → M A
in_immediate_transaction undefined body db = elim (body db) [
  | done v next ↦ elim v [ commit a ↦ done a next | rollback ↦ done undefined db ]
  | threw e next ↦ threw e db
]

-- A transaction whose body has no sentinel.
unfoldable pub transaction : {A : Type 0} → M A → M A
transaction body db = elim (body db) [ done a next ↦ done a next | threw e next ↦ threw e db ]

unfoldable pub update_jobs : (JobRow → Bool) → (JobRow → JobRow) → M ℕ
update_jobs p f db = done (changes p db.jobs) (record db { jobs = update_rows p f db.jobs })

-- Two rows collide on a UNIQUE column; NULLs never do.
abbrev pub same_key : Option String → Option String → Bool
same_key a none = false
same_key a (some k) = is_text a k

-- An INSERT that a UNIQUE constraint refuses throws, and changes nothing.
unfoldable pub unless_exists : Bool → Db → M (Unit {0})
unless_exists true next db = threw constraint db
unless_exists false next db = done tt next

unfoldable pub job_exists : JobRow → Db → Bool
job_exists row db =
    any_row (λ r. str_eq r.id row.id || same_key r.idempotency_key row.idempotency_key) db.jobs

-- INSERT INTO jobs: `id` is the primary key and `idempotency_key` is unique.
unfoldable pub insert_job : JobRow → M (Unit {0})
insert_job row db = unless_exists (job_exists row db) (record db { jobs = db.jobs ++ row ∷ [] }) db

unfoldable pub update_deliveries : (DeliveryRow → Bool) → (DeliveryRow → DeliveryRow) → M ℕ
update_deliveries p f db =
    done (changes p db.deliveries) (record db { deliveries = update_rows p f db.deliveries })

unfoldable pub delivery_exists : DeliveryRow → Db → Bool
delivery_exists row db =
    any_row
      (λ r.
        str_eq r.id row.id
        || (str_eq r.host_unique_key.0 row.host_unique_key.0
            && r.host_unique_key.1 == row.host_unique_key.1))
      db.deliveries

-- INSERT INTO deliveries: `id` is the primary key, and the host key is unique.
unfoldable pub insert_delivery : DeliveryRow → M (Unit {0})
insert_delivery row db =
    unless_exists (delivery_exists row db) (record db { deliveries = db.deliveries ++ row ∷ [] }) db

unfoldable pub update_keys :
    (IdempotencyKey → Bool) → (IdempotencyKey → IdempotencyKey) → M (Unit {0})
update_keys p f db = done tt (record db { idempotency_keys = update_rows p f db.idempotency_keys })

-- INSERT INTO idempotency_keys: `key` is the primary key.
unfoldable pub insert_key : IdempotencyKey → M (Unit {0})
insert_key row db =
    unless_exists (any_row (λ r. str_eq r.key row.key) db.idempotency_keys)
      (record db { idempotency_keys = db.idempotency_keys ++ row ∷ [] }) db

-- DELETE FROM idempotency_keys WHERE key=?
unfoldable pub delete_key : String → M (Unit {0})
delete_key key db =
    done tt
      (record db { idempotency_keys = select (λ r. not (str_eq r.key key)) db.idempotency_keys })

unfoldable pub insert_dead_letter : DeadLetter → M (Unit {0})
insert_dead_letter row db = done tt (record db { dead_letters = db.dead_letters ++ row ∷ [] })

-- SELECT * FROM jobs WHERE id=?
unfoldable pub job_by_id : String → Db → Option JobRow
job_by_id id db = find_row (λ r. str_eq r.id id) db.jobs
