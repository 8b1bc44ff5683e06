-- ===== src/Queue/Rows.antt =====
-- The rows of the queue's tables (src/queue/repository.ts). A column is an Option where it may be
-- NULL. Times are milliseconds: an ISO text orders as the time that it stands for.
use my_discord_agent.Base.{ℕ, String, Bool, true, false, Option, none, some}
use my_discord_agent.Message.Text.{Text}
use my_discord_agent.Queue.Metadata.{MetadataColumns}
use my_discord_agent.Queue.Payload.{Json, Object, normalize_inbox_message_payload}

pub data JobStatus : Type 0 where
  queued retry_wait claimed running completed dead_letter : JobStatus

pub data TerminalState : Type 0 where
  succeeded empty_response non_retryable max_retries dead_lettered : TerminalState

-- `status IN ('claimed','running')`
abbrev pub is_active : JobStatus → Bool
is_active claimed = true
is_active running = true
is_active _ = false

-- `status IN ('completed','dead_letter')`
abbrev pub is_terminal : JobStatus → Bool
is_terminal completed = true
is_terminal dead_letter = true
is_terminal _ = false

-- `status IN ('queued','retry_wait')`
abbrev pub is_waiting : JobStatus → Bool
is_waiting queued = true
is_waiting retry_wait = true
is_waiting _ = false

abbrev pub is_queued : JobStatus → Bool
is_queued queued = true
is_queued _ = false

abbrev pub is_running : JobStatus → Bool
is_running running = true
is_running _ = false

-- `status=?`
abbrev pub same_status : JobStatus → JobStatus → Bool
same_status queued queued = true
same_status retry_wait retry_wait = true
same_status claimed claimed = true
same_status running running = true
same_status completed completed = true
same_status dead_letter dead_letter = true
same_status _ _ = false

-- What an Agent run returned: a text, or another value, which is stored as JSON.
pub data ResultValue : Type 0 where
  text_result : Text → ResultValue
  json_result : Json → ResultValue

-- A row of `jobs`. `claimed_mirror` is the legacy column `claimed`.
pub record JobRow : Type 0 where
  pub id : String
  pub idempotency_key : Option String
  pub payload : Object
  pub source_kind : Option String
  pub allow_failed_predecessor : Bool
  pub session_id : String
  pub sequence : ℕ
  pub status : JobStatus
  pub claimed_mirror : Bool
  pub attempts : ℕ
  pub max_attempts : ℕ
  pub next_attempt_at : Option ℕ
  pub lease_until : Option ℕ
  pub worker_id : Option String
  pub fencing_token : ℕ
  pub last_error : Option String
  pub created_at : ℕ
  pub updated_at : ℕ
  pub completed_at : Option ℕ
  pub claimed_at : Option ℕ
  pub started_at : Option ℕ
  pub heartbeat_at : Option ℕ
  pub error_json : Option String
  pub result_json : Option ResultValue
  pub result_state : Option TerminalState
  pub terminal_reason : Option String
  pub has_succeeded : Bool
  pub delivery_suppressed : Bool
  pub delivery_id : Option String
  pub metadata : MetadataColumns

pub data ExecutionState : Type 0 where
  claimed running : ExecutionState

-- What `parsePayload` makes of a row. `columns` stands for the columns that it copies.
pub record QueueJob : Type 0 where
  pub payload : Object
  pub status : JobStatus
  pub execution_state : Option ExecutionState
  pub columns : JobRow

shown_status : JobStatus → JobStatus
shown_status JobStatus.claimed = JobStatus.running
shown_status queued = queued
shown_status retry_wait = retry_wait
shown_status JobStatus.running = JobStatus.running
shown_status completed = completed
shown_status dead_letter = dead_letter

shown_state : JobStatus → Option ExecutionState
shown_state JobStatus.claimed = some ExecutionState.claimed
shown_state JobStatus.running = some ExecutionState.running
shown_state _ = none

unfoldable pub parse_payload : JobRow → QueueJob
unfolding shown_status shown_state normalize_inbox_message_payload
parse_payload row = record {
  payload = normalize_inbox_message_payload row.payload;
  status = shown_status row.status;
  execution_state = shown_state row.status;
  columns = row;
}

pub data KeyStatus : Type 0 where
  active completed dead_letter : KeyStatus

-- A row of `idempotency_keys`.
pub record IdempotencyKey : Type 0 where
  pub key : String
  pub job_id : Option String
  pub status : KeyStatus
  pub created_at : ℕ
  pub completed_at : Option ℕ

-- A row of `dead_letters`.
pub record DeadLetter : Type 0 where
  pub job_id : Option String
  pub reason : String
  pub payload : Option Object
  pub error : Option String
  pub source : String
  pub created_at : ℕ

pub data DeliveryStatus : Type 0 where
  pending retry_wait sending sent failed ambiguous : DeliveryStatus

-- `payload_json` of a delivery: the metadata with `content` and `responseIndex`, or the result.
pub data DeliveryPayload : Type 0 where
  content_chunk : Object → Text → ℕ → DeliveryPayload
  bare : ResultValue → DeliveryPayload

-- A row of `deliveries`. `host_unique_key` is `<job id>:<index>`.
pub record DeliveryRow : Type 0 where
  pub id : String
  pub job_id : String
  pub status : DeliveryStatus
  pub payload : DeliveryPayload
  pub response_index : ℕ
  pub payload_hash : String
  pub host_unique_key : String × ℕ
  pub destination_type : String
  pub destination_id : Option String
  pub reply_message_id : Option String
  pub cron_thread_id : Option String
  pub external_message_id : Option String
  pub attempts : ℕ
  pub next_attempt_at : Option ℕ
  pub lease_until : Option ℕ
  pub worker_id : Option String
  pub fencing_token : ℕ
  pub last_error : Option String
  pub created_at : ℕ
  pub updated_at : ℕ

-- A row of `committed_conversations`, without its AUTOINCREMENT id: rows are in that order.
pub record CommittedConversation : Type 0 where
  pub turn_id : String
  pub group_name : String
  pub user_entry_id : ℕ
  pub assistant_entry_id : ℕ
  pub committed_at : ℕ
  pub delivery_suppressed : Bool

-- A row of `bot_task_sessions`.
pub record BotTaskSession : Type 0 where
  pub session_id : String
  pub handle : String
  pub group_name : String
  pub bot_id : String
  pub source_key : Option String
  pub created_at : ℕ
  pub last_used_at : ℕ
  pub preview : String

-- A row of `discord_sync_cursors`. A message id is a decimal number, none before the first.
pub record DiscordCursor : Type 0 where
  pub scope_id : String
  pub last_message_id : Option ℕ
  pub updated_at : ℕ
  pub initialized : Bool
