-- ===== src/Queue/Provision.antt =====
-- Changes of a stored cron job from outside its run (src/queue/repository.ts).
use mathlib.Core.Option
use my_discord_agent.Base.{ℕ, ◌+◌, String, false, Option, none, some, str_eq}
use my_discord_agent.Queue.Fenced.{with_payload}
use my_discord_agent.Queue.Payload.{bool, str, Object, put, assign}
use my_discord_agent.Queue.Rows.{JobRow, QueueJob, parse_payload}
use my_discord_agent.Queue.Store.{M, ◌>>=◌, pure, query, transaction, update_jobs, job_by_id}

-- `SET sequence=sequence+1`
unfoldable pub shift_row : JobRow → JobRow
shift_row r = record r { sequence = r.sequence + 1 }

-- `SET payload_json=?,session_id=?,sequence=0,updated_at=?`
unfoldable pub front_of_session : String → Object → ℕ → JobRow → JobRow
front_of_session session payload now r = record r {
  payload = payload;
  session_id = session;
  sequence = 0;
  updated_at = now;
}

unfoldable pub provisioned_payload : String → Object → Object → Object
provisioned_payload session payload patch =
    put "cronProvisioning" (bool false) (put "sessionId" (str session) (assign payload patch))

unfoldable pub provision_found : ℕ → String → String → Object → Option JobRow → M (Option QueueJob)
provision_found now id session patch none = pure none
provision_found now id session patch (some row) = do
  _ ← update_jobs (λ r. str_eq r.session_id session) shift_row
  _ ←
      update_jobs (λ r. str_eq r.id id)
        (front_of_session session (provisioned_payload session row.payload patch) now)
  updated ← query (job_by_id id)
  pure (Option.map parse_payload updated)

unfoldable pub provision_in_transaction : ℕ → String → String → Object → M (Option QueueJob)
provision_in_transaction now id session patch = do
  found ← query (job_by_id id)
  provision_found now id session patch found

-- Move a cron job to the front of the destination session.
unfoldable pub provision_cron_job : ℕ → String → String → Object → M (Option QueueJob)
provision_cron_job now id session patch =
    transaction (provision_in_transaction now id session patch)

unfoldable pub patch_found : String → Object → Option JobRow → M (Option QueueJob)
patch_found id patch none = pure none
patch_found id patch (some row) = do
  _ ← update_jobs (λ r. str_eq r.id id) (with_payload (assign row.payload patch))
  updated ← query (job_by_id id)
  pure (Option.map parse_payload updated)

unfoldable pub patch_in_transaction : String → Object → M (Option QueueJob)
patch_in_transaction id patch = do found ← query (job_by_id id); patch_found id patch found

unfoldable pub patch_job_payload : String → Object → M (Option QueueJob)
patch_job_payload id patch = transaction (patch_in_transaction id patch)
