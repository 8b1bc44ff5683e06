-- ===== src/Queue/DeliveryWrites.antt =====
-- The writes of the worker that holds a delivery, and of an operator: `updateDelivery`,
-- `failDeliveryBatch`, `resolveAmbiguousDelivery` and `setDeliveryThread` of
-- src/queue/repository.ts.
use my_discord_agent.Base.{
  ◌==◌, if◌then◌else◌, or_else, is_none, find_row, ℕ, String, Bool, true, false, ◌&&◌, not, Option,
  none, some, str_eq,
}
use my_discord_agent.Queue.Delivery.{is_unsent, is_sending, is_ambiguous}
use my_discord_agent.Queue.Rows.{DeliveryStatus, sent, failed, ambiguous, DeliveryRow}
use my_discord_agent.Queue.Store.{
  stale_fencing_token, M, ◌>>=◌, ◌>>◌, pure, require, query, or_throw, transaction,
  update_deliveries,
}

-- The row that the holder of a delivery's token may write.
unfoldable pub holds_delivery : String → ℕ → DeliveryRow → Bool
holds_delivery id token d = str_eq d.id id && (is_sending d.status && d.fencing_token == token)

pub record DeliveryFields : Type 0 where
  pub external_message_id : Option String
  pub cron_thread_id : Option String
  pub error : Option String
  pub retry_at : Option ℕ

-- The states that give up the lease.
abbrev pub ends_lease : DeliveryStatus → Bool
ends_lease sent = true
ends_lease ambiguous = true
ends_lease failed = true
ends_lease DeliveryStatus.retry_wait = true
ends_lease _ = false

unfoldable pub updated_delivery : ℕ → DeliveryStatus → DeliveryFields → DeliveryRow → DeliveryRow
updated_delivery now status fields d = record d {
  status = status;
  updated_at = now;
  external_message_id = or_else fields.external_message_id d.external_message_id;
  cron_thread_id = or_else fields.cron_thread_id d.cron_thread_id;
  last_error = or_else fields.error d.last_error;
  next_attempt_at = or_else fields.retry_at d.next_attempt_at;
  lease_until = if ends_lease status then none else d.lease_until;
  worker_id = if ends_lease status then none else d.worker_id;
}

unfoldable pub update_delivery : ℕ → String → ℕ → DeliveryStatus → DeliveryFields → M (Unit {0})
update_delivery now id token status fields = do
  changed ← update_deliveries (holds_delivery id token) (updated_delivery now status fields)
  require (changed == 1) (stale_fencing_token id)

unfoldable pub given_up : ℕ → DeliveryStatus → String → DeliveryRow → DeliveryRow
given_up now status error d = record d {
  status = status;
  last_error = some error;
  lease_until = none;
  worker_id = none;
  updated_at = now;
}

-- The other chunks of a job that are not sent yet.
unfoldable pub is_unsent_sibling : String → String → DeliveryRow → Bool
is_unsent_sibling job id d = str_eq d.job_id job && (not (str_eq d.id id) && is_unsent d.status)

-- Give up a chunk, and with it every chunk of the job that is not sent yet.
unfoldable pub fail_batch_in_transaction : ℕ → String → ℕ → DeliveryStatus → String → M (Unit {0})
fail_batch_in_transaction now id token status error = do
  found ← query (λ db. find_row (holds_delivery id token) db.deliveries)
  row ← or_throw found (stale_fencing_token id)
  changed ← update_deliveries (holds_delivery id token) (given_up now status error)
  require (changed == 1) (stale_fencing_token id)
  _ ← update_deliveries (is_unsent_sibling row.job_id id) (given_up now failed error)
  pure tt

-- The source's types allow only `failed` and `ambiguous` for the chunk itself.
pub data BatchEnd : Type 0 where
  as_failed as_ambiguous : BatchEnd

abbrev pub batch_status : BatchEnd → DeliveryStatus
batch_status as_failed = failed
batch_status as_ambiguous = ambiguous

unfoldable pub fail_delivery_batch : ℕ → String → ℕ → BatchEnd → String → M (Unit {0})
fail_delivery_batch now id token how error =
    transaction (fail_batch_in_transaction now id token (batch_status how) error)

-- What an operator decides about a send whose outcome is not known.
pub data Resolution : Type 0 where
  to_retry to_sent to_failed : Resolution

abbrev pub resolution_status : Resolution → DeliveryStatus
resolution_status to_retry = DeliveryStatus.retry_wait
resolution_status to_sent = sent
resolution_status to_failed = failed

abbrev pub resolution_time : Resolution → ℕ → Option ℕ
resolution_time to_retry now = some now
resolution_time _ now = none

unfoldable pub resolve_ambiguous_delivery : ℕ → String → Resolution → Option String → M (Unit {0})
resolve_ambiguous_delivery now id how external = do
  _ ←
      update_deliveries (λ d. str_eq d.id id && is_ambiguous d.status)
        λ d. record d {
          status = resolution_status how;
          next_attempt_at = resolution_time how now;
          external_message_id = or_else external d.external_message_id;
          lease_until = none;
          worker_id = none;
          last_error = none;
          updated_at = now;
        }
  pure tt

unfoldable pub threaded : ℕ → String → DeliveryRow → DeliveryRow
threaded now thread d = record d { cron_thread_id = some thread; updated_at = now }

unfoldable pub set_thread_in_transaction : ℕ → String → ℕ → String → M (Unit {0})
set_thread_in_transaction now id token thread = do
  found ← query (λ db. find_row (holds_delivery id token) db.deliveries)
  row ← or_throw found (stale_fencing_token id)
  _ ← update_deliveries (holds_delivery id token) (threaded now thread)
  _ ←
      update_deliveries
        (λ d.
          str_eq d.job_id row.job_id
          && (not (str_eq d.id id) && (is_unsent d.status && is_none d.cron_thread_id)))
        (threaded now thread)
  pure tt

unfoldable pub set_delivery_thread : ℕ → String → ℕ → String → M (Unit {0})
set_delivery_thread now id token thread =
    transaction (set_thread_in_transaction now id token thread)
