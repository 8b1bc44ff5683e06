-- ===== src/Queue/Examples.antt =====
-- The properties of single operations on jobs at concrete inputs.
use mathlib.Core.List.Memᴰ
use my_discord_agent.Base.{
  any_row, Unique, ℕ, String, ◌≡◌, refl, sym, ap, subst, ◌∙◌, true, false, none, some, [], ◌∷◌,
  Memᴰ, arith,
}
use my_discord_agent.Queue.Commit.{CommitOptions, Host, allowed, adopted, commit_result}
use my_discord_agent.Queue.Enqueue.{EnqueueOptions, new_job, QueueInput, agent_input}
use my_discord_agent.Queue.Fenced.{
  holds, mark_running, heartbeat, ExecutionIdentity, freeze_execution_identity,
}
use my_discord_agent.Queue.Fencing.{superseded_worker_is_refused}
use my_discord_agent.Queue.Finish.{dead_letter_job}
use my_discord_agent.Queue.Invariant.Defs.{RowInv, Inv}
use my_discord_agent.Queue.Invariant.Moves.{IsEnded, provision_cron_job-Inv}
use my_discord_agent.Queue.Metadata.{no_metadata}
use my_discord_agent.Queue.Payload.{str}
use my_discord_agent.Queue.Provision.{provision_cron_job}
use my_discord_agent.Queue.Recover.{is_expired, recover_expired}
use my_discord_agent.Queue.Recovery.{recover_expired_leaves_none}
use my_discord_agent.Queue.Rows.{
  JobStatus, is_terminal, text_result, JobRow, KeyStatus, IdempotencyKey, DeliveryStatus, pending,
  sending, bare, DeliveryRow,
}
use my_discord_agent.Queue.Store.{Db, empty_db, Ambient, stale_fencing_token, done, threw, after}

abbrev pub at_time : ℕ → Ambient
at_time now = record { now = now; uuid = λ i. "u" }

abbrev pub running_job : JobRow
running_job = record (new_job "job-1" none (("groupName", str "g") ∷ []) "s" 0 10 1) {
  status = JobStatus.running;
  lease_until = some 500;
  fencing_token = 2;
  attempts = 2;
}

abbrev pub taken_key : IdempotencyKey
taken_key = record {
  key = "k";
  job_id = some "job-1";
  status = KeyStatus.active;
  created_at = 1;
  completed_at = none;
}

abbrev pub chunk_row : String → ℕ → DeliveryStatus → ℕ → DeliveryRow
chunk_row id index status token = record {
  id = id;
  job_id = "job-0";
  status = status;
  payload = bare (text_result []);
  response_index = index;
  payload_hash = "h";
  host_unique_key = ("job-0", index);
  destination_type = "channel";
  destination_id = none;
  reply_message_id = none;
  cron_thread_id = none;
  external_message_id = none;
  attempts = 0;
  next_attempt_at = none;
  lease_until = none;
  worker_id = none;
  fencing_token = token;
  last_error = none;
  created_at = 1;
  updated_at = 1;
}

abbrev pub first_chunk : DeliveryRow
first_chunk = chunk_row "d0" 0 sending 3

abbrev pub busy_db : Db
busy_db = record empty_db {
  jobs = running_job ∷ [];
  idempotency_keys = taken_key ∷ [];
  deliveries = first_chunk ∷ chunk_row "d1" 1 pending 0 ∷ [];
}

abbrev no_identity : ExecutionIdentity
no_identity = record {
  snapshot_hash = none;
  tool_call_key = none;
  system_prompt_snapshot_content = none;
  memory_snapshot_content = none;
  system_prompt_snapshot_present = none;
  memory_snapshot_present = none;
  snapshot_present = none;
}

abbrev pub plain_host : Host
plain_host = record { payload_hash = λ p. "hash"; stringify = λ v. [] }

abbrev pub plain_options : CommitOptions
plain_options = record {
  is_empty = false;
  suppress_delivery = false;
  conversation = none;
  metadata = no_metadata;
  delivery_payload = none;
}

old_token_is_lost : any_row (holds "job-1" 1) busy_db.jobs ≡ false
unfolding any_row holds new_job
old_token_is_lost = refl

nothing_is_adopted : allowed (adopted plain_options) ≡ true
unfolding allowed adopted
nothing_is_adopted = refl

superseded_worker_is_refused_example :
    (heartbeat (at_time 9) "job-1" 1 60 busy_db ≡ threw (stale_fencing_token "job-1") busy_db)
    × (mark_running (at_time 9) "job-1" 1 none no_metadata busy_db
        ≡ threw (stale_fencing_token "job-1") busy_db)
    × (freeze_execution_identity (λ s. s) (at_time 9) "job-1" 1 no_identity busy_db
        ≡ threw (stale_fencing_token "job-1") busy_db)
    × (commit_result plain_host (at_time 9) "job-1" 1 (text_result []) plain_options busy_db
        ≡ threw (stale_fencing_token "job-1") busy_db)
    × (dead_letter_job (at_time 9) "job-1" 1 "late" none no_metadata busy_db
        ≡ threw (stale_fencing_token "job-1") busy_db)
superseded_worker_is_refused_example =
    superseded_worker_is_refused (at_time 9) "job-1" 1 busy_db 60 none no_metadata (λ s. s)
      no_identity plain_host (text_result []) plain_options "late" none old_token_is_lost
      nothing_is_adopted

recover_expired_leaves_none_example :
    (n : ℕ) × (next : Db) × (recover_expired 900 busy_db ≡ done n next)
    × (any_row (is_expired 900) next.jobs ≡ false)
recover_expired_leaves_none_example = recover_expired_leaves_none 900 busy_db

abbrev keyed : EnqueueOptions
keyed = record { idempotency_key = some "k"; max_attempts = none }

abbrev message : QueueInput
message = agent_input (("sessionId", str "s") ∷ [])

abbrev ended_job : JobRow
ended_job = record running_job { status = JobStatus.completed; lease_until = none }

abbrev ended_db : Db
ended_db = record empty_db { jobs = ended_job ∷ [] }

only_row : {s : JobRow} → Memᴰ s ended_db.jobs → s ≡ ended_job
only_row m = Memᴰ.eq_of_singleton m

only-IsEnded : IsEnded "job-1" ended_db.jobs
unfolding new_job
only-IsEnded s m e = ap (λ z. is_terminal z.status) (only_row m)

ended-Inv : Inv ended_db.jobs
unfolding Unique new_job
ended-Inv = record {
  ids = ((λ y m. absurd (Memᴰ.not-nil m)), tt);
  numbered = λ a b ma mb e k. ap (λ z. z.id) (only_row ma ∙ sym (only_row mb));
  serial = λ a b ma mb e h k. ap (λ z. is_terminal z.status) (only_row mb);
  rows = λ a ma.
      subst RowInv (sym (only_row ma))
        (record { capped = omega arith; unleased = λ h. refl; unadopted = λ h. refl });
}

provision_cron_job-Inv_example :
    Inv (after (provision_cron_job 9 "job-1" "thread" [] ended_db)).jobs
provision_cron_job-Inv_example =
    provision_cron_job-Inv 9 "job-1" "thread" [] ended_db only-IsEnded ended-Inv
