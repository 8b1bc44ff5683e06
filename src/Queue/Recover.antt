-- ===== src/Queue/Recover.antt =====
-- `recoverExpired` of src/queue/repository.ts: jobs whose worker has gone wait again.
use my_discord_agent.Base.{
  get_or, at_most, select, ℕ, ◌+◌, Bool, false, ◌&&◌, none, some, List, [], ◌∷◌,
}
use my_discord_agent.Queue.Fenced.{holds}
use my_discord_agent.Queue.Rows.{JobStatus, is_active, JobRow}
use my_discord_agent.Queue.Store.{M, ◌>>=◌, pure, query, transaction, update_jobs}

-- `status IN ('claimed','running') AND lease_until<=?`
unfoldable pub is_expired : ℕ → JobRow → Bool
is_expired now r = is_active r.status && at_most r.lease_until now

unfoldable pub recovered_row : ℕ → JobRow → JobRow
recovered_row now r = record r {
  status = JobStatus.retry_wait;
  claimed_mirror = false;
  worker_id = none;
  lease_until = none;
  next_attempt_at = some now;
  last_error = some (get_or r.last_error "lease expired");
  terminal_reason = none;
  updated_at = now;
}

-- The loop over the rows that were selected before the transaction.
unfoldable pub recover_rows : ℕ → List JobRow → M ℕ
recover_rows now [] = pure 0
recover_rows now (row ∷ rows) = do
  changed ← update_jobs (holds row.id row.fencing_token) (recovered_row now)
  rest ← recover_rows now rows
  pure (changed + rest)

unfoldable pub recover_expired : ℕ → M ℕ
recover_expired now = do
  rows ← query (λ db. select (is_expired now) db.jobs)
  transaction (recover_rows now rows)
