-- ===== src/Queue/Claim.antt =====
-- Taking the next job: `claim` of src/queue/repository.ts, one transaction.
use mathlib.Core.Option
use my_discord_agent.Base.{
  ltb, leb, ◌==◌, if◌then◌else◌, or_else, at_most, select, any_row, ℕ, ◌+◌, max, String, Bool, true,
  false, ◌&&◌, ◌||◌, not, Option, none, some, List, [], ◌∷◌, str_eq,
}
use my_discord_agent.Queue.Finish.{dead_letter_exhausted_in_transaction}
use my_discord_agent.Queue.Payload.{Object, get, is_one, is_str}
use my_discord_agent.Queue.Rows.{
  JobStatus, is_active, is_terminal, is_waiting, JobRow, QueueJob, parse_payload,
}
use my_discord_agent.Queue.Store.{
  Ambient, claim_race, M, ◌>>=◌, ◌>>◌, pure, require, query, transaction, update_jobs, job_by_id,
}

-- `cronProvisioning IS NOT 1 OR cronDeliveryMode='item-thread'`
unfoldable pub is_provisioned : Object → Bool
is_provisioned o =
    not (is_one (get "cronProvisioning" o)) || is_str (get "cronDeliveryMode" o) "item-thread"

unfoldable pub is_due : ℕ → Option ℕ → Bool
is_due now none = true
is_due now (some at) = leb at now

-- A row that waits and is due, or whose lease has run out.
unfoldable pub is_ready : ℕ → JobRow → Bool
is_ready now r =
    (is_waiting r.status && is_due now r.next_attempt_at)
    || (is_active r.status && at_most r.lease_until now)

unfoldable pub is_bot_admission : JobRow → Bool
is_bot_admission r = is_one (get "botTaskSessionAdmission" r.payload)

unfoldable pub excludes : List String → JobRow → Bool
excludes [] r = false
excludes (id ∷ ids) r = str_eq r.id id || excludes ids r

-- What both SELECTs demand.
unfoldable pub is_eligible : ℕ → List String → JobRow → Bool
is_eligible now exclude r =
    not (is_bot_admission r)
    && (is_provisioned r.payload && (is_ready now r && not (excludes exclude r)))

-- A cron job that is still to be moved into this session.
unfoldable pub is_blocker : String → JobRow → Bool
is_blocker session r =
    is_one (get "cronProvisioning" r.payload) && is_str (get "cronThreadId" r.payload) session

-- An earlier job of the session that has not ended.
unfoldable pub is_prior : JobRow → JobRow → Bool
is_prior job r =
    str_eq r.session_id job.session_id
    && (ltb r.sequence job.sequence && not (is_terminal r.status))

-- The WHERE of the second SELECT.
unfoldable pub is_claimable : ℕ → List String → List JobRow → JobRow → Bool
is_claimable now exclude jobs r =
    is_eligible now exclude r
    && (ltb r.attempts r.max_attempts
        && (not (any_row (is_blocker r.session_id) jobs) && not (any_row (is_prior r) jobs)))

-- ORDER BY created_at,sequence
unfoldable pub comes_before : JobRow → JobRow → Bool
comes_before a b =
    ltb a.created_at b.created_at || (a.created_at == b.created_at && ltb a.sequence b.sequence)

-- LIMIT 1 under that order. Of rows that tie, the first in the table.
unfoldable pub first_in_order : List JobRow → Option JobRow
first_in_order [] = none
first_in_order (r ∷ rows) = elim (first_in_order rows) [
  | none ↦ some r
  | some best ↦ some (if comes_before best r then best else r)
]

-- The SET clause of a claim, whose fencing token comes from the row that was selected.
unfoldable pub claimed_row : ℕ → String → ℕ → JobRow → JobRow → JobRow
claimed_row now worker lease_ms row r = record r {
  status = JobStatus.claimed;
  claimed_mirror = true;
  worker_id = some worker;
  lease_until = some (now + max 1 lease_ms);
  fencing_token = row.fencing_token + 1;
  attempts = r.attempts + 1;
  claimed_at = or_else r.claimed_at (some now);
  heartbeat_at = some now;
  updated_at = now;
}

-- The WHERE of that UPDATE.
unfoldable pub still_claimable : ℕ → JobRow → JobRow → Bool
still_claimable now row r =
    str_eq r.id row.id
    && (r.fencing_token == row.fencing_token
        && ((is_waiting r.status || (is_active r.status && at_most r.lease_until now))
            && ltb r.attempts r.max_attempts))

pub record ClaimedJob : Type 0 where
  pub job : QueueJob
  pub fencing_token : ℕ

-- `for (const row of exhausted) …`
unfoldable pub dead_letter_rows : Ambient → List JobRow → M (Unit {0})
dead_letter_rows env [] = pure tt
dead_letter_rows env (row ∷ rows) = do
  dead_letter_exhausted_in_transaction env "max_attempts" row
  dead_letter_rows env rows

unfoldable pub is_exhausted : ℕ → List String → JobRow → Bool
is_exhausted now exclude r = is_eligible now exclude r && leb r.max_attempts r.attempts

-- Claim the row that the second SELECT found.
unfoldable pub claim_row : ℕ → String → ℕ → JobRow → M (Option ClaimedJob)
claim_row now worker lease_ms row = do
  changed ← update_jobs (still_claimable now row) (claimed_row now worker lease_ms row)
  require (changed == 1) (claim_race row.id)
  found ← query (job_by_id row.id)
  pure (
      Option.map (λ r. record { job = parse_payload r; fencing_token = row.fencing_token + 1 })
        found)

unfoldable pub claim_best : ℕ → String → ℕ → Option JobRow → M (Option ClaimedJob)
claim_best now worker lease_ms none = pure none
claim_best now worker lease_ms (some row) = claim_row now worker lease_ms row

unfoldable pub claim_in_transaction : Ambient → String → ℕ → List String → M (Option ClaimedJob)
claim_in_transaction env worker lease_ms exclude = do
  exhausted ← query (λ db. select (is_exhausted env.now exclude) db.jobs)
  dead_letter_rows env exhausted
  best ← query (λ db. first_in_order (select (is_claimable env.now exclude db.jobs) db.jobs))
  claim_best env.now worker lease_ms best

-- `env.now` is the argument `at`.
unfoldable pub claim : Ambient → String → ℕ → List String → M (Option ClaimedJob)
claim env worker lease_ms exclude = transaction (claim_in_transaction env worker lease_ms exclude)
