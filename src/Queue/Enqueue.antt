-- ===== src/Queue/Enqueue.antt =====
-- Adding jobs: `enqueue` of src/queue/repository.ts. Each enqueue runs in one transaction.
use Prim.Native.String
use mathlib.Core.Option
use my_discord_agent.Base.{
  if◌then◌else◌, get_or, or_else, is_text, find_row, ℕ, suc, max, String, Bool, true, false, ◌&&◌,
  Option, none, some, List, [], ◌∷◌, str_eq,
}
use my_discord_agent.Queue.Metadata.{null_columns, truthy}
use my_discord_agent.Queue.Payload.{
  num, str, Object, get, put, delete, assign, as_str, SourceEnvelope, as_envelope,
}
use my_discord_agent.Queue.Rows.{
  queued, completed, succeeded, is_terminal, JobRow, QueueJob, parse_payload, KeyStatus,
  IdempotencyKey,
}
use my_discord_agent.Queue.Sources.{
  Source, duplicate_or_empty, unregistered, invalid_input, Checked, valid, invalid, Sources, policy,
}
use my_discord_agent.Queue.Store.{
  Db, Ambient, read_back, unregistered_source_kind, invalid_source_input, M, ◌>>=◌, ◌>>◌, pure,
  throw, query, or_throw, transaction, update_jobs, insert_job, insert_key, delete_key, job_by_id,
}

pub record EnqueueOptions : Type 0 where
  pub idempotency_key : Option String
  pub max_attempts : Option ℕ

pub record EnqueueResult : Type 0 where
  pub job : QueueJob
  pub inserted : Bool

-- COALESCE(MAX(sequence),-1)+1 over the jobs of a session.
unfoldable pub next_sequence : String → List JobRow → ℕ
next_sequence session [] = 0
next_sequence session (r ∷ rows) =
    let rest = next_sequence session rows in
    if str_eq r.session_id session then max (suc r.sequence) rest else rest

-- A fresh row, with every column that the INSERT leaves out at its default.
unfoldable pub new_job : String → Option String → Object → String → ℕ → ℕ → ℕ → JobRow
new_job id key payload session sequence max_attempts now = record {
  id = id;
  idempotency_key = key;
  payload = payload;
  source_kind = none;
  allow_failed_predecessor = false;
  session_id = session;
  sequence = sequence;
  status = queued;
  claimed_mirror = false;
  attempts = 0;
  max_attempts = max_attempts;
  next_attempt_at = none;
  lease_until = none;
  worker_id = none;
  fencing_token = 0;
  last_error = none;
  created_at = now;
  updated_at = now;
  completed_at = none;
  claimed_at = none;
  started_at = none;
  heartbeat_at = none;
  error_json = none;
  result_json = none;
  result_state = none;
  terminal_reason = none;
  has_succeeded = false;
  delivery_suppressed = false;
  delivery_id = none;
  metadata = null_columns;
}

-- The answer for a key whose job is gone.
unfoldable pub synthetic_completed : Object → String → ℕ → QueueJob
synthetic_completed payload key now = record {
  payload = put "idempotencyKey" (str key) (
      put "enqueuedAt" (num now)
        (put "retries" (num 0) (put "id" (str (String.◌++◌ "idempotency-" key)) payload)));
  status = completed;
  execution_state = none;
  columns = record (new_job key (some key) payload "" 0 0 now) {
    status = completed;
    completed_at = some now;
    result_state = some succeeded;
    has_succeeded = true;
  };
}

-- `policy` throws; its error goes through.
unfoldable pub policy_or_throw : Checked Source → M (Option Source)
policy_or_throw (valid s) = pure (some s)
policy_or_throw (invalid (duplicate_or_empty k)) = throw (unregistered_source_kind k)
policy_or_throw (invalid (unregistered k)) = throw (unregistered_source_kind k)
policy_or_throw (invalid (invalid_input k)) = throw (invalid_source_input k)

-- The policy of a payload's source; a payload without a source has none.
unfoldable pub source_policy : Option Sources → Option SourceEnvelope → M (Option Source)
source_policy sources none = pure none
source_policy none (some e) = throw (unregistered_source_kind e.kind)
source_policy (some sources) (some e) = policy_or_throw (policy sources e)

abbrev pub key_is_terminal : KeyStatus → Bool
key_is_terminal KeyStatus.active = false
key_is_terminal _ = true

-- `existing?.status ?? idem.status` is 'completed' or 'dead_letter'.
unfoldable pub is_finished : Option QueueJob → KeyStatus → Bool
is_finished none k = key_is_terminal k
is_finished (some job) k = is_terminal job.status

abbrev pub is_active_only : Option Source → Bool
is_active_only none = false
is_active_only (some s) = s.active_only_idempotency

abbrev pub continues : Option Source → Bool
continues none = false
continues (some s) = s.continue_after_failed_chunk

-- `idem.job_id ? this.get(idem.job_id) : undefined`
unfoldable pub existing_job : Option String → Db → Option QueueJob
existing_job none db = none
existing_job (some id) db = elim (job_by_id id db) [ none ↦ none | some r ↦ some (parse_payload r) ]

unfoldable pub unkeyed_row : JobRow → JobRow
unkeyed_row r = record r { idempotency_key = none; payload = delete "idempotencyKey" r.payload }

-- Take the key from the finished job that holds it, for a source that may enqueue it again.
unfoldable pub release_key : String → Option String → M (Unit {0})
release_key key holder = do _ ← update_jobs (λ r. is_text holder r.id) unkeyed_row; delete_key key

-- `job-${randomUUID()}`
unfoldable pub new_job_id : Ambient → String
new_job_id env = String.◌++◌ "job-" (env.uuid 0)

-- The payload as it is stored: `{id, retries: 0, ...payload, enqueuedAt, idempotencyKey?}`.
unfoldable pub stored_payload : Ambient → Option String → Object → Object
stored_payload env key payload =
    let stamped =
      put "enqueuedAt" (num env.now)
        (assign (("id", str (new_job_id env)) ∷ ("retries", num 0) ∷ []) payload) in
    elim (truthy key) [ none ↦ stamped | some k ↦ put "idempotencyKey" (str k) stamped ]

unfoldable pub insert_active_key : Option String → String → ℕ → M (Unit {0})
insert_active_key none id now = pure tt
insert_active_key (some k) id now = insert_key (record {
  key = k;
  job_id = some id;
  status = KeyStatus.active;
  created_at = now;
  completed_at = none;
})

-- The row that an enqueue inserts.
unfoldable pub enqueued_row :
    Ambient → Option String → EnqueueOptions → Option Source → Object → String → ℕ → JobRow
enqueued_row env key options source payload session sequence =
    record (new_job (new_job_id env) key (stored_payload env key payload) session sequence
      (get_or options.max_attempts 10) env.now) {
        source_kind = Option.map (λ e. e.kind) (as_envelope (get "feature" payload));
        allow_failed_predecessor = continues source;
      }

-- INSERT the job at the end of its session, and its key.
unfoldable pub insert_new :
    Ambient → Option String → EnqueueOptions → Option Source → Object → String → M EnqueueResult
insert_new env key options source payload session = do
  sequence ← query (λ db. next_sequence session db.jobs)
  insert_job (enqueued_row env key options source payload session sequence)
  insert_active_key (truthy key) (new_job_id env) env.now
  created ← query (job_by_id (new_job_id env))
  row ← or_throw created (read_back (new_job_id env))
  pure (record { job = parse_payload row; inserted = true })

-- A key that is known: its job is the answer, unless the source lets a finished job's key go.
unfoldable pub enqueue_known :
    Ambient → String → IdempotencyKey → Option Source → Object → M EnqueueResult → M EnqueueResult
enqueue_known env key held source payload insert = do
  existing ← query (existing_job held.job_id)
  if is_active_only source && is_finished existing held.status
      then (release_key key held.job_id >> insert)
      else pure (record {
        job = get_or existing (synthetic_completed payload key env.now);
        inserted = false;
      })

-- `sessionId` of the payload, which the types require.
unfoldable pub session_of : Object → String
session_of payload = get_or (as_str (get "sessionId" payload)) ""

-- `options.idempotencyKey ?? payload.idempotencyKey`
unfoldable pub key_of : EnqueueOptions → Object → Option String
key_of options payload = or_else options.idempotency_key (as_str (get "idempotencyKey" payload))

unfoldable pub held_key : Option String → Db → Option IdempotencyKey
held_key none db = none
held_key (some k) db = find_row (λ r. str_eq r.key k) db.idempotency_keys

unfoldable pub enqueue_held :
    Ambient → Option IdempotencyKey → Option Source → Object → M EnqueueResult → M EnqueueResult
enqueue_held env none source payload insert = insert
enqueue_held env (some row) source payload insert =
    enqueue_known env row.key row source payload insert

unfoldable pub enqueue_in_transaction :
    Option Sources → Ambient → EnqueueOptions → Object → M EnqueueResult
enqueue_in_transaction sources env options payload = do
  source ← source_policy sources (as_envelope (get "feature" payload))
  held ← query (held_key (truthy (key_of options payload)))
  enqueue_held env held source payload
      (insert_new env (key_of options payload) options source payload (session_of payload))

-- Work for an Agent, or for the host alone, which has no session of its own.
pub data QueueInput : Type 0 where
  agent_input : Object → QueueInput
  host_input : (job_kind cron_job_id : String) → ℕ → QueueInput

unfoldable pub stored_input : QueueInput → Object
stored_input (agent_input payload) = payload
stored_input (host_input kind job timestamp) =
    ("jobKind", str kind)
    ∷ ("cronJobId", str job)
    ∷ ("timestamp", num timestamp)
    ∷ ("sessionId", str (String.◌++◌ kind (String.◌++◌ ":" job)))
    ∷ ("channelId", str "")
    ∷ ("groupName", str "")
    ∷ ("content", str "")
    ∷ []

unfoldable pub enqueue : Option Sources → Ambient → EnqueueOptions → QueueInput → M EnqueueResult
enqueue sources env options input =
    transaction (enqueue_in_transaction sources env options (stored_input input))
