-- ===== src/Queue/Admission.antt =====
-- Bot Task Sessions and the tickets by which direct Bot calls take their turn in a session
-- (src/queue/repository.ts). A ticket is a row of `jobs` that no worker claims.
use Prim.Native.String
use my_discord_agent.Base.{
  ltb, ◌==◌, if◌then◌else◌, or_else, any_row, ℕ, String, Bool, true, false, ◌&&◌, ◌||◌, not, Option,
  none, some, [], ◌∷◌, str_eq,
}
use my_discord_agent.Queue.Claim.{is_bot_admission}
use my_discord_agent.Queue.Enqueue.{next_sequence, new_job}
use my_discord_agent.Queue.Payload.{bool, num, str, Object}
use my_discord_agent.Queue.Rows.{JobStatus, is_terminal, is_queued, is_running, JobRow}
use my_discord_agent.Queue.Store.{
  Db, Ambient, M, ◌>>=◌, ◌>>◌, pure, query, transaction, update_jobs, insert_job,
}

pub record Admission : Type 0 where
  pub job_id : String
  pub session_id : String
  pub sequence : ℕ

ticket_payload : String → String → String → ℕ → Object
ticket_payload id session group at =
    ("id", str id)
    ∷ ("channelId", str "")
    ∷ ("groupName", str group)
    ∷ ("sessionId", str session)
    ∷ ("content", str "")
    ∷ ("timestamp", num at)
    ∷ ("enqueuedAt", num at)
    ∷ ("retries", num 0)
    ∷ ("botTaskSessionAdmission", bool true)
    ∷ []

unfoldable pub create_admission_in_transaction : Ambient → String → String → ℕ → M Admission
unfolding ticket_payload
create_admission_in_transaction env session group at = do
  let id = String.◌++◌ "bot-admission-" (env.uuid 0)
  sequence ← query (λ db. next_sequence session db.jobs)
  insert_job (new_job id none (ticket_payload id session group at) session sequence 1 at)
  pure (record { job_id = id; session_id = session; sequence = sequence })

-- The ticket's own row, in one of some states.
unfoldable pub is_ticket : (JobStatus → Bool) → Admission → JobRow → Bool
unfolding is_bot_admission
is_ticket in_state a r =
    str_eq r.id a.job_id
    && (str_eq r.session_id a.session_id
        && (r.sequence == a.sequence && (in_state r.status && is_bot_admission r)))

-- An earlier job of the session has not ended.
unfoldable pub is_blocked : Admission → Db → Bool
is_blocked a db =
    any_row
      (λ r.
        str_eq r.session_id a.session_id
        && (ltb r.sequence a.sequence && not (is_terminal r.status)))
      db.jobs

unfoldable pub started_ticket : ℕ → JobRow → JobRow
started_ticket now r = record r { status = JobStatus.running; updated_at = now }

unfoldable pub ended_ticket : JobStatus → Option String → ℕ → JobRow → JobRow
ended_ticket status reason now r = record r {
  status = status;
  completed_at = some now;
  updated_at = now;
  terminal_reason = or_else reason r.terminal_reason;
}

unfoldable pub start_ticket : ℕ → Admission → M Bool
start_ticket now a = do
  changed ← update_jobs (is_ticket is_queued a) (started_ticket now)
  pure (changed == 1)

unfoldable pub end_ticket :
    (JobStatus → Bool) → JobStatus → Option String → ℕ → Admission → M (Unit {0})
end_ticket in_state status reason now a = do
  _ ← update_jobs (is_ticket in_state a) (ended_ticket status reason now)
  pure tt

unfoldable pub admit_in_transaction : ℕ → Admission → Bool → M Bool
admit_in_transaction now a true = pure false
admit_in_transaction now a false = start_ticket now a

unfoldable pub admit : ℕ → Admission → M Bool
admit now a = transaction do is_held ← query (is_blocked a); admit_in_transaction now a is_held

pub data Admitted : Type 0 where
  admitted blocked unavailable : Admitted

unfoldable pub try_admit_in_transaction : ℕ → Admission → Bool → M Admitted
try_admit_in_transaction now a true = do
  end_ticket is_queued JobStatus.dead_letter (some "cancelled") now a
  pure blocked
try_admit_in_transaction now a false = do
  started ← start_ticket now a
  pure (if started then admitted else unavailable)

unfoldable pub try_admit : ℕ → Admission → M Admitted
try_admit now a =
    transaction do is_held ← query (is_blocked a); try_admit_in_transaction now a is_held

unfoldable pub complete_admission : ℕ → Admission → M (Unit {0})
complete_admission = end_ticket is_running JobStatus.completed none

abbrev pub is_open_ticket : JobStatus → Bool
is_open_ticket s = is_queued s || is_running s

unfoldable pub cancel_admission : ℕ → Admission → M (Unit {0})
cancel_admission = end_ticket is_open_ticket JobStatus.dead_letter (some "cancelled")

-- At startup, no ticket of an earlier process is still in use.
unfoldable pub recover_admissions : ℕ → M (Unit {0})
recover_admissions now = transaction do
  _ ←
      update_jobs (λ r. is_bot_admission r && is_open_ticket r.status)
        (ended_ticket JobStatus.dead_letter (some "startup-recovery") now)
  pure tt
