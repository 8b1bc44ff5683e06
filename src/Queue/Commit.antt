-- ===== src/Queue/Commit.antt =====
-- Adopting a result: `commitResult` of src/queue/repository.ts. The job is completed, and its
-- deliveries are written, in one transaction.
use Prim.Native.String
use mathlib.Core.List.{head?}
use my_discord_agent.Base.{
  ltb, leb, ◌==◌, if◌then◌else◌, get_or, is_some, find_row, any_row, ℕ, zero, suc, String, Bool,
  true, false, ◌&&◌, ◌||◌, not, Option, none, some, List, [], ◌∷◌, ◌++◌, str_eq,
}
use my_discord_agent.Message.Fence.{discord_max_length, split_message}
use my_discord_agent.Message.Text.{Text}
use my_discord_agent.Queue.Fenced.{holds}
use my_discord_agent.Queue.Metadata.{ExecutionMetadata, truthy, metadata_coalesce}
use my_discord_agent.Queue.Payload.{
  Json, obj, Properties, end, property, Object, get, delete, as_str,
}
use my_discord_agent.Queue.Rows.{
  JobStatus, succeeded, empty_response, ResultValue, text_result, json_result, JobRow, KeyStatus,
  pending, DeliveryPayload, content_chunk, bare, DeliveryRow,
}
use my_discord_agent.Queue.Store.{
  Ambient, stale_fencing_token, constraint, done, threw, M, ◌>>=◌, ◌>>◌, pure, require, query,
  or_throw, transaction, update_jobs, unless_exists, insert_delivery, update_keys,
}

pub record ConversationEntries : Type 0 where
  pub user_entry_id : ℕ
  pub assistant_entry_id : ℕ

pub record CommitOptions : Type 0 where
  pub is_empty : Bool
  pub suppress_delivery : Bool
  pub conversation : Option ConversationEntries
  pub metadata : ExecutionMetadata
  pub delivery_payload : Option Json

-- Functions of the host: createHash("sha256") over a stored payload, and JSON.stringify.
pub record Host : Type 0 where
  pub payload_hash : DeliveryPayload → String
  pub stringify : Json → Text

unfoldable pub properties : Properties → Object
properties end = []
properties (property k v o) = (k, v) ∷ properties o

-- `options.deliveryPayload`, if it is an object, else `{}`. An array has no named property.
unfoldable pub delivery_meta : Option Json → Object
delivery_meta (some (obj o)) = properties o
delivery_meta _ = []

-- `typeof result === "string" ? result : JSON.stringify(result ?? null)`
unfoldable pub result_text : Host → ResultValue → Text
result_text host (text_result t) = t
result_text host (json_result v) = host.stringify v

-- The chunks to deliver. The split ends, so the other case never shows.
unfoldable pub response_chunks : Host → CommitOptions → ResultValue → List Text
response_chunks host options result =
    if options.is_empty || options.suppress_delivery
    then []
    else get_or (split_message (result_text host result) discord_max_length) []

-- Every chunk after the first answers no message and has no placeholder.
unfoldable pub chunk_meta : ℕ → Object → Object
chunk_meta zero meta = meta
chunk_meta (suc i) meta = delete "cronPlaceholderMessageId" (delete "replyMessageId" meta)

unfoldable pub chunk_payload : Bool → Object → ResultValue → ℕ → Text → DeliveryPayload
chunk_payload false meta result index content = bare result
chunk_payload true meta result index content = content_chunk (chunk_meta index meta) content index

unfoldable pub reply_of : ℕ → Object → Option String
reply_of zero meta = as_str (get "replyMessageId" meta)
reply_of (suc i) meta = none

-- The row of one chunk.
unfoldable pub delivery_row :
    Host → Ambient → String → CommitOptions → ResultValue → ℕ → Text → DeliveryRow
delivery_row host env job options result index content = record {
  id = String.◌++◌ "delivery-" (env.uuid index);
  job_id = job;
  status = pending;
  payload = payload;
  response_index = index;
  payload_hash = host.payload_hash payload;
  host_unique_key = (job, index);
  destination_type = get_or (as_str (get "destinationType" meta)) "channel";
  destination_id = as_str (get "destinationId" meta);
  reply_message_id = reply_of index meta;
  cron_thread_id = as_str (get "cronThreadId" meta);
  external_message_id = none;
  attempts = 0;
  next_attempt_at = none;
  lease_until = none;
  worker_id = none;
  fencing_token = 0;
  last_error = none;
  created_at = env.now;
  updated_at = env.now;
}
  where
    meta : Object
    meta = delivery_meta options.delivery_payload

    payload : DeliveryPayload
    payload = chunk_payload (is_some options.delivery_payload) meta result index content

-- The rows of all chunks, from an index on.
unfoldable pub delivery_rows :
    Host → Ambient → String → CommitOptions → ResultValue → ℕ → List Text → List DeliveryRow
delivery_rows host env job options result index [] = []
delivery_rows host env job options result index (content ∷ chunks) =
    delivery_row host env job options result index content
    ∷ delivery_rows host env job options result (suc index) chunks

unfoldable pub insert_deliveries : List DeliveryRow → M (Unit {0})
insert_deliveries [] = pure tt
insert_deliveries (row ∷ rows) = do insert_delivery row; insert_deliveries rows

-- What the Zod schema and the table's CHECKs demand of the adopted entries.
unfoldable pub valid_entries : ConversationEntries → Bool
valid_entries c =
    ltb 0 c.user_entry_id
    && (ltb c.user_entry_id c.assistant_entry_id && leb c.assistant_entry_id 9007199254740991)

unfoldable pub allowed : Option ConversationEntries → Bool
allowed none = true
allowed (some c) = valid_entries c

-- INSERT INTO committed_conversations: `turn_id` is unique, and the group's name is not NULL.
unfoldable pub insert_conversation :
    Ambient → String → Option String → Bool → Option ConversationEntries → M (Unit {0})
insert_conversation env id group suppressed none db = done tt db
insert_conversation env id none suppressed (some c) db = threw constraint db
insert_conversation env id (some group) suppressed (some c) db =
    unless_exists (any_row (λ r. str_eq r.turn_id id) db.committed_conversations)
      (record db {
        committed_conversations =
            db.committed_conversations
            ++ record {
              turn_id = id;
              group_name = group;
              user_entry_id = c.user_entry_id;
              assistant_entry_id = c.assistant_entry_id;
              committed_at = env.now;
              delivery_suppressed = suppressed;
            }
              ∷ [];
      })
      db

-- An empty response adopts no conversation.
unfoldable pub adopted : CommitOptions → Option ConversationEntries
adopted options = if options.is_empty then none else options.conversation

unfoldable pub completed_row : Ambient → CommitOptions → ResultValue → JobRow → JobRow
completed_row env options result r = record r {
  status = JobStatus.completed;
  lease_until = none;
  worker_id = none;
  completed_at = some env.now;
  result_json = some result;
  result_state = some (if options.is_empty then empty_response else succeeded);
  has_succeeded = not options.is_empty;
  delivery_suppressed = options.suppress_delivery;
  delivery_id = none;
  metadata = metadata_coalesce options.metadata r.metadata;
}

unfoldable pub complete_key : ℕ → Option String → M (Unit {0})
complete_key now none = pure tt
complete_key now (some key) =
    update_keys (λ k. str_eq k.key key)
      λ k. record k { status = KeyStatus.completed; completed_at = some now }

unfoldable pub with_delivery : String → JobRow → JobRow
with_delivery delivery r = record r { delivery_id = some delivery }

unfoldable pub link_delivery : String → Option DeliveryRow → M (Unit {0})
link_delivery id none = pure tt
link_delivery id (some d) = do _ ← update_jobs (λ r. str_eq r.id id) (with_delivery d.id); pure tt

unfoldable pub commit_in_transaction :
    Host → Ambient → String → ℕ → ResultValue → CommitOptions → M (Option DeliveryRow)
commit_in_transaction host env id token result options = do
  found ← query (λ db. find_row (holds id token) db.jobs)
  row ← or_throw found (stale_fencing_token id)
  changed ← update_jobs (holds id token) (completed_row env options result)
  require (changed == 1) (stale_fencing_token id)
  insert_conversation env id (as_str (get "groupName" row.payload)) options.suppress_delivery
      (adopted options)
  let rows = delivery_rows host env id options result 0 (response_chunks host options result)
  insert_deliveries rows
  link_delivery id (head? rows)
  complete_key env.now (truthy row.idempotency_key)
  pure (head? rows)

-- Entries that the schema refuses throw before the transaction.
unfoldable pub commit_result :
    Host → Ambient → String → ℕ → ResultValue → CommitOptions → M (Option DeliveryRow)
commit_result host env id token result options = do
  require (allowed (adopted options)) constraint
  transaction (commit_in_transaction host env id token result options)
