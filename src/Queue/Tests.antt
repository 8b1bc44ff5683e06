-- ===== src/Queue/Tests.antt =====
-- Runs of the queue at concrete inputs, and the properties there.
use my_discord_agent.Base.{
  select, find_row, any_row, update_rows, changes, find_row-Memᴰ, ℕ, ◌<◌, String, ◌≡◌, refl, true,
  Option, none, some, [], ◌∷◌, Memᴰ, arith, str_eq,
}
use my_discord_agent.Queue.Claim.{
  is_provisioned, is_due, is_ready, is_bot_admission, excludes, is_eligible, is_blocker, is_prior,
  is_claimable, comes_before, first_in_order, claimed_row, still_claimable, dead_letter_rows,
  is_exhausted, claim_row, claim_best, claim_in_transaction, claim,
}
use my_discord_agent.Queue.Enqueue.{
  EnqueueOptions, next_sequence, new_job, source_policy, new_job_id, stored_payload,
  insert_active_key, enqueued_row, insert_new, session_of, key_of, held_key, enqueue_held,
  enqueue_in_transaction, QueueInput, agent_input, stored_input, enqueue,
}
use my_discord_agent.Queue.Fenced.{holds, touched, fenced}
use my_discord_agent.Queue.Finish.{
  kill_key, dead_letter_state, dead_row, dead_letter_in_transaction, dead_letter_job,
}
use my_discord_agent.Queue.History.{
  Event, enqueue_event, claim_event, dead_letter_event, perform, Reachable, at_start, called,
}
use my_discord_agent.Queue.Invariant.Defs.{Inv}
use my_discord_agent.Queue.Invariant.Reached.{Reachable-Inv, one_active_job}
use my_discord_agent.Queue.Metadata.{no_metadata, truthy, metadata_set_columns}
use my_discord_agent.Queue.Payload.{
  str, get, put, delete, assign, is_one, is_str, as_str, as_num, as_envelope,
}
use my_discord_agent.Queue.Rows.{JobStatus, is_active, JobRow, parse_payload}
use my_discord_agent.Queue.Store.{
  Db, empty_db, Ambient, ◌>>=◌, ◌>>◌, pure, require, query, or_throw, transaction, update_jobs,
  unless_exists, job_exists, insert_job, update_keys, insert_dead_letter, job_by_id,
}

abbrev at_time : ℕ → String → Ambient
at_time now id = record { now = now; uuid = λ i. id }

abbrev no_options : EnqueueOptions
no_options = record { idempotency_key = none; max_attempts = none }

abbrev message : QueueInput
message = agent_input (("sessionId", str "s") ∷ ("content", str "hello") ∷ [])

abbrev add_a : Event
add_a = enqueue_event none (at_time 1000 "a") no_options message

abbrev add_b : Event
add_b = enqueue_event none (at_time 1001 "b") no_options message

abbrev take : ℕ → Event
take now = claim_event (at_time now "c") "worker" 60000 []

abbrev bury_a : Event
bury_a = dead_letter_event (at_time 1003 "d") "job-a" 1 "provider" none no_metadata

abbrev two_jobs : Db
two_jobs = perform add_b (perform add_a empty_db)

abbrev one_buried : Db
one_buried = perform bury_a (perform (take 1002) two_jobs)

abbrev one_running : Db
one_running = perform (take 1004) one_buried

one_running-Reachable : Reachable one_running
one_running-Reachable =
    called (take 1004)
      (called bury_a (called (take 1002) (called add_b (called add_a at_start tt) tt) tt) tt) tt

abbrev found : Option JobRow → JobRow
found none = new_job "" none [] "" 0 0 0
found (some r) = r

abbrev job_a : JobRow
job_a = found (job_by_id "job-a" one_running)

abbrev job_b : JobRow
job_b = found (job_by_id "job-b" one_running)

-- After a dead letter the next job of the session is claimed.
job_a_is_found : job_by_id "job-a" one_running ≡ some job_a
unfolding perform enqueue enqueue_in_transaction source_policy held_key enqueue_held insert_new
    next_sequence new_job enqueued_row stored_payload key_of session_of new_job_id insert_job
    unless_exists job_exists any_row insert_active_key stored_input claim transaction
    claim_in_transaction ◌>>=◌ ◌>>◌ query pure require or_throw dead_letter_rows select is_exhausted
    is_eligible is_provisioned is_ready is_due is_bot_admission excludes is_blocker is_prior
    is_claimable comes_before first_in_order claimed_row still_claimable claim_row claim_best
    update_jobs update_rows changes job_by_id find_row parse_payload dead_letter_job
    dead_letter_in_transaction fenced holds touched dead_row dead_letter_state metadata_set_columns
    insert_dead_letter kill_key update_keys as_str as_num get put assign delete as_envelope is_one
    is_str truthy mathlib.Core.Option.bind
job_a_is_found = refl

job_b_is_found : job_by_id "job-b" one_running ≡ some job_b
unfolding perform enqueue enqueue_in_transaction source_policy held_key enqueue_held insert_new
    next_sequence new_job enqueued_row stored_payload key_of session_of new_job_id insert_job
    unless_exists job_exists any_row insert_active_key stored_input claim transaction
    claim_in_transaction ◌>>=◌ ◌>>◌ query pure require or_throw dead_letter_rows select is_exhausted
    is_eligible is_provisioned is_ready is_due is_bot_admission excludes is_blocker is_prior
    is_claimable comes_before first_in_order claimed_row still_claimable claim_row claim_best
    update_jobs update_rows changes job_by_id find_row parse_payload dead_letter_job
    dead_letter_in_transaction fenced holds touched dead_row dead_letter_state metadata_set_columns
    insert_dead_letter kill_key update_keys as_str as_num get put assign delete as_envelope is_one
    is_str truthy mathlib.Core.Option.bind
job_b_is_found = refl

job_a_is_over : job_a.status ≡ JobStatus.dead_letter
unfolding perform enqueue enqueue_in_transaction source_policy held_key enqueue_held insert_new
    next_sequence new_job enqueued_row stored_payload key_of session_of new_job_id insert_job
    unless_exists job_exists any_row insert_active_key stored_input claim transaction
    claim_in_transaction ◌>>=◌ ◌>>◌ query pure require or_throw dead_letter_rows select is_exhausted
    is_eligible is_provisioned is_ready is_due is_bot_admission excludes is_blocker is_prior
    is_claimable comes_before first_in_order claimed_row still_claimable claim_row claim_best
    update_jobs update_rows changes job_by_id find_row parse_payload dead_letter_job
    dead_letter_in_transaction fenced holds touched dead_row dead_letter_state metadata_set_columns
    insert_dead_letter kill_key update_keys as_str as_num get put assign delete as_envelope is_one
    is_str truthy mathlib.Core.Option.bind
job_a_is_over = refl

job_b_is_active : is_active job_b.status ≡ true
unfolding perform enqueue enqueue_in_transaction source_policy held_key enqueue_held insert_new
    next_sequence new_job enqueued_row stored_payload key_of session_of new_job_id insert_job
    unless_exists job_exists any_row insert_active_key stored_input claim transaction
    claim_in_transaction ◌>>=◌ ◌>>◌ query pure require or_throw dead_letter_rows select is_exhausted
    is_eligible is_provisioned is_ready is_due is_bot_admission excludes is_blocker is_prior
    is_claimable comes_before first_in_order claimed_row still_claimable claim_row claim_best
    update_jobs update_rows changes job_by_id find_row parse_payload dead_letter_job
    dead_letter_in_transaction fenced holds touched dead_row dead_letter_state metadata_set_columns
    insert_dead_letter kill_key update_keys as_str as_num get put assign delete as_envelope is_one
    is_str truthy mathlib.Core.Option.bind
job_b_is_active = refl

same_session : job_b.session_id ≡ job_a.session_id
unfolding perform enqueue enqueue_in_transaction source_policy held_key enqueue_held insert_new
    next_sequence new_job enqueued_row stored_payload key_of session_of new_job_id insert_job
    unless_exists job_exists any_row insert_active_key stored_input claim transaction
    claim_in_transaction ◌>>=◌ ◌>>◌ query pure require or_throw dead_letter_rows select is_exhausted
    is_eligible is_provisioned is_ready is_due is_bot_admission excludes is_blocker is_prior
    is_claimable comes_before first_in_order claimed_row still_claimable claim_row claim_best
    update_jobs update_rows changes job_by_id find_row parse_payload dead_letter_job
    dead_letter_in_transaction fenced holds touched dead_row dead_letter_state metadata_set_columns
    insert_dead_letter kill_key update_keys as_str as_num get put assign delete as_envelope is_one
    is_str truthy mathlib.Core.Option.bind
same_session = refl

a_before_b : job_a.sequence < job_b.sequence
unfolding perform enqueue enqueue_in_transaction source_policy held_key enqueue_held insert_new
    next_sequence new_job enqueued_row stored_payload key_of session_of new_job_id insert_job
    unless_exists job_exists any_row insert_active_key stored_input claim transaction
    claim_in_transaction ◌>>=◌ ◌>>◌ query pure require or_throw dead_letter_rows select is_exhausted
    is_eligible is_provisioned is_ready is_due is_bot_admission excludes is_blocker is_prior
    is_claimable comes_before first_in_order claimed_row still_claimable claim_row claim_best
    update_jobs update_rows changes job_by_id find_row parse_payload dead_letter_job
    dead_letter_in_transaction fenced holds touched dead_row dead_letter_state metadata_set_columns
    insert_dead_letter kill_key update_keys as_str as_num get put assign delete as_envelope is_one
    is_str truthy mathlib.Core.Option.bind
a_before_b = omega arith

job_a_in : Memᴰ job_a one_running.jobs
unfolding job_by_id
job_a_in = (find_row-Memᴰ (λ r. str_eq r.id "job-a") one_running.jobs job_a_is_found).0

job_b_in : Memᴰ job_b one_running.jobs
unfolding job_by_id
job_b_in = (find_row-Memᴰ (λ r. str_eq r.id "job-b") one_running.jobs job_b_is_found).0

one_active_job_example : job_b ≡ job_b
one_active_job_example =
    one_active_job one_running one_running-Reachable job_b job_b job_b_in job_b_in refl
      job_b_is_active job_b_is_active

Reachable-Inv_example : Inv one_running.jobs
Reachable-Inv_example = Reachable-Inv one_running one_running-Reachable
