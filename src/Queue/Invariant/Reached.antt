-- ===== src/Queue/Invariant/Reached.antt =====
-- The databases that histories of calls reach, of src/queue/repository.ts.
use mathlib.Core.List.Memᴰ
use my_discord_agent.Base.{Unique, same_row, ℕ, ◌<◌, ◌≡◌, sym, ◌⊎◌, inl, inr, true, Memᴰ, arith}
use my_discord_agent.Queue.History.{
  Event, enqueue_event, claim_event, update_payload_event, mark_running_event, freeze_event,
  heartbeat_event, commit_event, retry_event, fail_event, dead_letter_event, recover_event,
  admit_event, try_admit_event, complete_event, cancel_event, recover_admissions_event,
  create_admission_event, resume_admission_event, create_enqueue_event, resume_enqueue_event,
  patch_event, provision_event, claim_delivery_event, update_delivery_event, fail_batch_event,
  resolve_event, set_thread_event, perform, IsAllowed, Reachable, at_start, called,
}
use my_discord_agent.Queue.Invariant.Calm.{update_rows-Inv}
use my_discord_agent.Queue.Invariant.Claims.{claim-KeepsInv}
use my_discord_agent.Queue.Invariant.Defs.{Inv}
use my_discord_agent.Queue.Invariant.Deliveries.{
  claim_delivery-KeepsJobs, update_delivery-KeepsJobs, fail_delivery_batch-KeepsJobs,
  resolve-KeepsJobs, set_delivery_thread-KeepsJobs,
}
use my_discord_agent.Queue.Invariant.Inserts.{enqueue-KeepsInv}
use my_discord_agent.Queue.Invariant.Moves.{provision_cron_job-Inv}
use my_discord_agent.Queue.Invariant.Results.{
  commit_result-KeepsJobs, complete_admission-KeepsJobs, cancel_admission-KeepsJobs,
  recover_admissions-KeepsJobs, patch_job_payload-KeepsJobs,
}
use my_discord_agent.Queue.Invariant.Tickets.{
  admit-KeepsInv, try_admit-KeepsInv, create_session_and_admission-KeepsInv,
  resume_session_and_admission-KeepsInv, create_session_and_enqueue-KeepsInv,
  resume_session_and_enqueue-KeepsInv,
}
use my_discord_agent.Queue.Invariant.Writes.{
  heartbeat-KeepsJobs, mark_running-KeepsJobs, update_payload-KeepsJobs,
  freeze_execution_identity-KeepsJobs, dead_letter_job-KeepsJobs, retry-KeepsJobs,
  fail_attempt-KeepsJobs, recover_expired-KeepsJobs,
}
use my_discord_agent.Queue.Rows.{is_active, is_terminal, JobRow}
use my_discord_agent.Queue.Store.{Db, empty_db}

perform-Inv : (e : Event) (db : Db) → IsAllowed e db → Inv db.jobs → Inv (perform e db).jobs
unfolding perform
perform-Inv (enqueue_event a b c d) db ok inv = (enqueue-KeepsInv a b c d).keeps db inv
perform-Inv (claim_event a b c d) db ok inv = (claim-KeepsInv a b c d).keeps db inv
perform-Inv (update_payload_event a b c d) db ok inv =
    (update_payload-KeepsJobs Inv update_rows-Inv a b c d).keeps db inv
perform-Inv (mark_running_event a b c d e) db ok inv =
    (mark_running-KeepsJobs Inv update_rows-Inv a b c d e).keeps db inv
perform-Inv (freeze_event a b c d e) db ok inv =
    (freeze_execution_identity-KeepsJobs Inv update_rows-Inv a b c d e).keeps db inv
perform-Inv (heartbeat_event a b c d) db ok inv =
    (heartbeat-KeepsJobs Inv update_rows-Inv a b c d).keeps db inv
perform-Inv (commit_event a b c d e f) db ok inv =
    (commit_result-KeepsJobs Inv update_rows-Inv a b c d e f).keeps db inv
perform-Inv (retry_event a b c d e f g) db ok inv =
    (retry-KeepsJobs Inv update_rows-Inv a b c d e f g).keeps db inv
perform-Inv (fail_event a b c d e f) db ok inv =
    (fail_attempt-KeepsJobs Inv update_rows-Inv a b c d e f).keeps db inv
perform-Inv (dead_letter_event a b c d e f) db ok inv =
    (dead_letter_job-KeepsJobs Inv update_rows-Inv a b c d e f).keeps db inv
perform-Inv (recover_event a) db ok inv =
    (recover_expired-KeepsJobs Inv update_rows-Inv a).keeps db inv
perform-Inv (admit_event a b) db ok inv = (admit-KeepsInv a b).keeps db inv
perform-Inv (try_admit_event a b) db ok inv = (try_admit-KeepsInv a b).keeps db inv
perform-Inv (complete_event a b) db ok inv =
    (complete_admission-KeepsJobs Inv update_rows-Inv a b).keeps db inv
perform-Inv (cancel_event a b) db ok inv =
    (cancel_admission-KeepsJobs Inv update_rows-Inv a b).keeps db inv
perform-Inv (recover_admissions_event a) db ok inv =
    (recover_admissions-KeepsJobs Inv update_rows-Inv a).keeps db inv
perform-Inv (create_admission_event a b) db ok inv =
    (create_session_and_admission-KeepsInv a b).keeps db inv
perform-Inv (resume_admission_event a b c d e) db ok inv =
    (resume_session_and_admission-KeepsInv a b c d e).keeps db inv
perform-Inv (create_enqueue_event a b c d e) db ok inv =
    (create_session_and_enqueue-KeepsInv a b c d e).keeps db inv
perform-Inv (resume_enqueue_event a b c d e f g h) db ok inv =
    (resume_session_and_enqueue-KeepsInv a b c d e f g h).keeps db inv
perform-Inv (patch_event a b) db ok inv =
    (patch_job_payload-KeepsJobs Inv update_rows-Inv a b).keeps db inv
perform-Inv (provision_event a b c d) db ok inv = provision_cron_job-Inv a b c d db ok inv
perform-Inv (claim_delivery_event a b c) db ok inv =
    (claim_delivery-KeepsJobs Inv a b c).keeps db inv
perform-Inv (update_delivery_event a b c d e) db ok inv =
    (update_delivery-KeepsJobs Inv a b c d e).keeps db inv
perform-Inv (fail_batch_event a b c d e) db ok inv =
    (fail_delivery_batch-KeepsJobs Inv a b c d e).keeps db inv
perform-Inv (resolve_event a b c d) db ok inv = (resolve-KeepsJobs Inv a b c d).keeps db inv
perform-Inv (set_thread_event a b c d) db ok inv =
    (set_delivery_thread-KeepsJobs Inv a b c d).keeps db inv

empty_db-Inv : Inv empty_db.jobs
unfolding Unique
empty_db-Inv = record {
  ids = tt;
  numbered = λ a b m. absurd (Memᴰ.not-nil m);
  serial = λ a b m. absurd (Memᴰ.not-nil m);
  rows = λ a m. absurd (Memᴰ.not-nil m);
}

-- In every database that a history of calls reaches, job ids are unique, sequence numbers are unique
-- within a session, every job before an active job of its session has ended, no job has more
-- attempts than its maximum, a waiting job has no lease, and a job that has not ended has no result.
pub Reachable-Inv : (db : Db) → Reachable db → Inv db.jobs
Reachable-Inv _ at_start = empty_db-Inv
Reachable-Inv _ (called {db} e before ok) = perform-Inv e db ok (Reachable-Inv db before)

-- In every database that a history of calls reaches, a session has at most one active job: two
-- active rows of one session are the same row.
pub one_active_job :
    (db : Db)
    → Reachable db
    → (a b : JobRow) → Memᴰ a db.jobs
    → Memᴰ b db.jobs
    → a.session_id ≡ b.session_id
    → is_active a.status ≡ true
    → is_active b.status ≡ true
    → a ≡ b
one_active_job db reached a b ma mb e active_a active_b =
    let inv = Reachable-Inv db reached in
    elim (compare-cases a.sequence b.sequence) [
      | inl lt ↦ absurd (clash a (inv.serial b a mb ma (sym e) active_b lt) active_a)
      | inr (inl eq) ↦ same_row (λ r. r.id) db.jobs inv.ids ma mb (inv.numbered a b ma mb e eq)
      | inr (inr gt) ↦ absurd (clash b (inv.serial a b ma mb e active_a gt) active_b)
    ]
  where
    clash : (r : JobRow) → is_terminal r.status ≡ true → is_active r.status ≡ true → ⊥
    clash r h k = ground arith

    compare-cases : (m n : ℕ) → (m < n) ⊎ ((m ≡ n) ⊎ (n < m))
    compare-cases m n = omega arith
