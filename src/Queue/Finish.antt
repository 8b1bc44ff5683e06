-- ===== src/Queue/Finish.antt =====
-- How an attempt ends without a result (src/queue/repository.ts): retry, dead letter, and the
-- recovery of expired leases.
use mathlib.Core.Option
use my_discord_agent.Base.{
  leb, ◌==◌, if◌then◌else◌, get_or, ℕ, ◌+◌, ◌*◌, ◌^◌, min, String, Bool, ◌&&◌, Option, none, some,
  str_eq,
}
use my_discord_agent.Queue.Fenced.{fenced, update_payload}
use my_discord_agent.Queue.Metadata.{ExecutionMetadata, truthy, metadata_set_columns}
use my_discord_agent.Queue.Payload.{num, Object, get, put, as_num}
use my_discord_agent.Queue.Rows.{
  JobStatus, TerminalState, empty_response, non_retryable, max_retries, is_active, same_status,
  ResultValue, JobRow, KeyStatus,
}
use my_discord_agent.Queue.Store.{
  Ambient, stale_fencing_token, unknown_job, not_active, invalid_time, M, ◌>>=◌, ◌>>◌, pure,
  require, query, or_throw, transaction, update_jobs, update_keys, insert_dead_letter, job_by_id,
}

-- Mark the key of a job that will not run again.
unfoldable pub kill_key : Option String → M (Unit {0})
kill_key none = pure tt
kill_key (some key) =
    update_keys (λ k. str_eq k.key key) (λ k. record k { status = KeyStatus.dead_letter })

-- `result_state` of a dead letter.
unfoldable pub dead_letter_state : String → TerminalState
dead_letter_state reason =
    if str_eq reason "max_attempts"
    then max_retries
    else if str_eq reason "empty_response"
    then empty_response
    else non_retryable

-- `error_json` is kept by its message.
unfoldable pub dead_row : String → Option String → ExecutionMetadata → JobRow → JobRow
dead_row reason error metadata r = record r {
  status = JobStatus.dead_letter;
  lease_until = none;
  worker_id = none;
  next_attempt_at = none;
  last_error = some (get_or error reason);
  terminal_reason = some reason;
  result_state = some (dead_letter_state reason);
  error_json = some (get_or error reason);
  metadata = metadata_set_columns metadata r.metadata;
}

unfoldable pub dead_letter_in_transaction :
    Ambient → String → ℕ → String → Option String → String → ExecutionMetadata → M (Unit {0})
dead_letter_in_transaction env id token reason error source metadata = do
  row ← query (job_by_id id)
  fenced env id token (dead_row reason error metadata)
  insert_dead_letter (record {
    job_id = some id;
    reason = reason;
    payload = Option.map (λ r. r.payload) row;
    error = error;
    source = source;
    created_at = env.now;
  })
  kill_key (truthy (Option.bind row (λ r. r.idempotency_key)))

-- The row that was selected, still in its state and with no attempt left.
unfoldable pub still_exhausted : JobRow → JobRow → Bool
still_exhausted row r =
    str_eq r.id row.id && (same_status r.status row.status && leb r.max_attempts r.attempts)

unfoldable pub exhausted_row : ℕ → String → String → JobRow → JobRow
exhausted_row now reason error r = record r {
  status = JobStatus.dead_letter;
  lease_until = none;
  worker_id = none;
  next_attempt_at = none;
  last_error = some error;
  terminal_reason = some reason;
  result_state = some max_retries;
  updated_at = now;
}

-- A job whose attempts are used up, found by `claim`. If it has changed since, nothing is done.
unfoldable pub dead_letter_exhausted_in_transaction : Ambient → String → JobRow → M (Unit {0})
dead_letter_exhausted_in_transaction env reason row = do
  changed ←
      update_jobs (still_exhausted row)
        (exhausted_row env.now reason (get_or row.last_error reason))
  if changed == 1
      then (insert_dead_letter (record {
        job_id = some row.id;
        reason = reason;
        payload = some row.payload;
        error = some (get_or row.last_error reason);
        source = "queue";
        created_at = env.now;
      })
          >> kill_key (truthy row.idempotency_key))
      else pure tt

unfoldable pub dead_letter_job :
    Ambient → String → ℕ → String → Option String → ExecutionMetadata → M (Unit {0})
dead_letter_job env id token reason error metadata =
    transaction (dead_letter_in_transaction env id token reason error "queue" metadata)

-- The delay of a retry. A payload whose `retries` is no number makes it NaN, which the
-- conversion to a time refuses.
unfoldable pub backoff_delay_ms : Option ℕ → Option ℕ
backoff_delay_ms none = none
backoff_delay_ms (some retries) = some (min (1000 * 2 ^ retries) 60000)

unfoldable pub retried_row : ℕ → ℕ → String → ExecutionMetadata → JobRow → JobRow
retried_row now delay message metadata r = record r {
  status = JobStatus.retry_wait;
  next_attempt_at = some (now + delay);
  lease_until = none;
  worker_id = none;
  last_error = some message;
  error_json = some message;
  metadata = metadata_set_columns metadata r.metadata;
}

-- `retries` goes up by one in the payload, whatever the patch says of it.
unfoldable pub count_retry : Object → Object → Object
count_retry payload patch =
    put "retries" (num (get_or (as_num (get "retries" payload)) 0 + 1)) patch

-- The job waits for another attempt, or is a dead letter if it has had them all.
unfoldable pub retry_or_bury :
    Ambient → String → ℕ → String → Option ℕ → ExecutionMetadata → JobRow → M (Unit {0})
retry_or_bury env id token message delay_ms metadata row =
    if leb row.max_attempts row.attempts
    then dead_letter_in_transaction env id token "max_attempts" (some message) "queue" metadata
    else do
      delay ← or_throw delay_ms invalid_time
      fenced env id token (retried_row env.now delay message metadata)

-- A job that has a result is left alone.
unfoldable pub retry_unless_done : Option ResultValue → M (Unit {0}) → M (Unit {0})
retry_unless_done (some result) body = pure tt
retry_unless_done none body = body

unfoldable pub retry_in_transaction :
    Ambient → String → ℕ → String → Option ℕ → Object → ExecutionMetadata → M (Unit {0})
retry_in_transaction env id token message delay_ms payload_patch metadata = do
  found ← query (job_by_id id)
  row ← or_throw found (unknown_job id)
  retry_unless_done row.result_json do
    update_payload env id token (count_retry row.payload payload_patch)
    retry_or_bury env id token message delay_ms metadata row

unfoldable pub retry :
    Ambient → String → ℕ → String → Option ℕ → Object → ExecutionMetadata → M (Unit {0})
retry env id token message delay_ms payload_patch metadata =
    transaction (retry_in_transaction env id token message delay_ms payload_patch metadata)

-- `fencing_token` may be left out, and is then the stored one.
unfoldable pub fail_attempt :
    Ambient → String → String → Option ℕ → Object → ExecutionMetadata → M (Unit {0})
fail_attempt env id message fencing_token payload_patch metadata = do
  found ← query (job_by_id id)
  job ← or_throw found (unknown_job id)
  require (is_active job.status) (not_active id)
  require (get_or fencing_token job.fencing_token == job.fencing_token) (stale_fencing_token id)
  retry env id (get_or fencing_token job.fencing_token) message
      (backoff_delay_ms (as_num (get "retries" job.payload))) payload_patch metadata
