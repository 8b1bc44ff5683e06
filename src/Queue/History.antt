-- ===== src/Queue/History.antt =====
-- Histories of the queue: the calls that its clients make, one after another, from an empty
-- database. Each call of src/queue/repository.ts is one event, and what it throws is dropped here:
-- only the database that it leaves counts.
use my_discord_agent.Base.{ℕ, String, Option, List}
use my_discord_agent.Queue.Admission.{
  Admission, admit, try_admit, complete_admission, cancel_admission, recover_admissions,
}
use my_discord_agent.Queue.Claim.{claim}
use my_discord_agent.Queue.Commit.{CommitOptions, Host, commit_result}
use my_discord_agent.Queue.Delivery.{claim_delivery}
use my_discord_agent.Queue.DeliveryWrites.{
  DeliveryFields, update_delivery, BatchEnd, fail_delivery_batch, Resolution,
  resolve_ambiguous_delivery, set_delivery_thread,
}
use my_discord_agent.Queue.Enqueue.{EnqueueOptions, QueueInput, enqueue}
use my_discord_agent.Queue.Fenced.{
  update_payload, mark_running, heartbeat, ExecutionIdentity, freeze_execution_identity,
}
use my_discord_agent.Queue.Finish.{dead_letter_job, retry, fail_attempt}
use my_discord_agent.Queue.Invariant.Moves.{IsEnded}
use my_discord_agent.Queue.Metadata.{ExecutionMetadata}
use my_discord_agent.Queue.Payload.{Object}
use my_discord_agent.Queue.Provision.{provision_cron_job, patch_job_payload}
use my_discord_agent.Queue.Recover.{recover_expired}
use my_discord_agent.Queue.Rows.{ResultValue, DeliveryStatus}
use my_discord_agent.Queue.Sessions.{
  CreateSession, create_session_and_admission, resume_session_and_admission,
  create_session_and_enqueue, resume_session_and_enqueue,
}
use my_discord_agent.Queue.Sources.{Sources}
use my_discord_agent.Queue.Store.{Db, empty_db, Ambient, after}

-- A call, with its arguments and what it reads of the clock and of randomUUID.
pub data Event : Type 0 where
  enqueue_event : Option Sources → Ambient → EnqueueOptions → QueueInput → Event
  claim_event : Ambient → String → ℕ → List String → Event
  update_payload_event : Ambient → String → ℕ → Object → Event
  mark_running_event : Ambient → String → ℕ → Option ℕ → ExecutionMetadata → Event
  freeze_event : (String → String) → Ambient → String → ℕ → ExecutionIdentity → Event
  heartbeat_event : Ambient → String → ℕ → ℕ → Event
  commit_event : Host → Ambient → String → ℕ → ResultValue → CommitOptions → Event
  retry_event : Ambient → String → ℕ → String → Option ℕ → Object → ExecutionMetadata → Event
  fail_event : Ambient → String → String → Option ℕ → Object → ExecutionMetadata → Event
  dead_letter_event : Ambient → String → ℕ → String → Option String → ExecutionMetadata → Event
  recover_event : ℕ → Event
  admit_event try_admit_event complete_event cancel_event : ℕ → Admission → Event
  recover_admissions_event : ℕ → Event
  create_admission_event : Ambient → CreateSession → Event
  resume_admission_event : Ambient → String → String → String → ℕ → Event
  create_enqueue_event : Option Sources → Ambient → EnqueueOptions → CreateSession → Object → Event
  resume_enqueue_event :
      Option Sources → Ambient → EnqueueOptions → String → String → String → ℕ → Object → Event
  patch_event : String → Object → Event
  provision_event : ℕ → String → String → Object → Event
  claim_delivery_event : ℕ → String → ℕ → Event
  update_delivery_event : ℕ → String → ℕ → DeliveryStatus → DeliveryFields → Event
  fail_batch_event : ℕ → String → ℕ → BatchEnd → String → Event
  resolve_event : ℕ → String → Resolution → Option String → Event
  set_thread_event : ℕ → String → ℕ → String → Event

-- The database after a call.
unfoldable pub perform : Event → Db → Db
perform (enqueue_event sources env options input) db = after (enqueue sources env options input db)
perform (claim_event env worker lease exclude) db = after (claim env worker lease exclude db)
perform (update_payload_event env id token patch) db = after (update_payload env id token patch db)
perform (mark_running_event env id token at metadata) db =
    after (mark_running env id token at metadata db)
perform (freeze_event sha env id token identity) db =
    after (freeze_execution_identity sha env id token identity db)
perform (heartbeat_event env id token lease) db = after (heartbeat env id token lease db)
perform (commit_event host env id token result options) db =
    after (commit_result host env id token result options db)
perform (retry_event env id token why delay patch metadata) db =
    after (retry env id token why delay patch metadata db)
perform (fail_event env id why token patch metadata) db =
    after (fail_attempt env id why token patch metadata db)
perform (dead_letter_event env id token why error metadata) db =
    after (dead_letter_job env id token why error metadata db)
perform (recover_event now) db = after (recover_expired now db)
perform (admit_event now a) db = after (admit now a db)
perform (try_admit_event now a) db = after (try_admit now a db)
perform (complete_event now a) db = after (complete_admission now a db)
perform (cancel_event now a) db = after (cancel_admission now a db)
perform (recover_admissions_event now) db = after (recover_admissions now db)
perform (create_admission_event env input) db = after (create_session_and_admission env input db)
perform (resume_admission_event env handle group bot at) db =
    after (resume_session_and_admission env handle group bot at db)
perform (create_enqueue_event sources env options input payload) db =
    after (create_session_and_enqueue sources env options input payload db)
perform (resume_enqueue_event sources env options handle group bot at payload) db =
    after (resume_session_and_enqueue sources env options handle group bot at payload db)
perform (patch_event id patch) db = after (patch_job_payload id patch db)
perform (provision_event now id session patch) db =
    after (provision_cron_job now id session patch db)
perform (claim_delivery_event now worker lease) db = after (claim_delivery now worker lease db)
perform (update_delivery_event now id token status fields) db =
    after (update_delivery now id token status fields db)
perform (fail_batch_event now id token how error) db =
    after (fail_delivery_batch now id token how error db)
perform (resolve_event now id how external) db =
    after (resolve_ambiguous_delivery now id how external db)
perform (set_thread_event now id token thread) db =
    after (set_delivery_thread now id token thread db)

-- A cron job moves only once its result is being delivered, so it has ended.
abbrev pub IsAllowed : Event → Db → Type 0
IsAllowed (provision_event now id session patch) db = IsEnded id db.jobs
IsAllowed _ db = Unit

-- The databases that histories reach.
pub data Reachable : Db → Type 0 where
  at_start : Reachable empty_db
  called : {db : Db} (e : Event) → Reachable db → IsAllowed e db → Reachable (perform e db)
