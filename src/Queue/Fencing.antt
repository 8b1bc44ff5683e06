-- ===== src/Queue/Fencing.antt =====
-- The calls of a worker that has lost its fencing token (src/queue/repository.ts).
use my_discord_agent.Base.{
  ◌==◌, find_row, any_row, update_rows_id, changes_none, find_row_absent, ℕ, String, ◌≡◌, refl, ◌∙◌,
  Bool, true, false, Option,
}
use my_discord_agent.Queue.Commit.{
  CommitOptions, Host, allowed, adopted, commit_in_transaction, commit_result,
}
use my_discord_agent.Queue.Fenced.{
  holds, touched, fenced, mark_running, heartbeat, ExecutionIdentity, freeze_execution_identity,
}
use my_discord_agent.Queue.Finish.{dead_row, dead_letter_in_transaction, dead_letter_job}
use my_discord_agent.Queue.Metadata.{ExecutionMetadata}
use my_discord_agent.Queue.Rows.{ResultValue, JobRow}
use my_discord_agent.Queue.Runs.{
  run_done, run_threw, then_done, then_threw, rolls_back, query_run, or_throw-none, require-true,
  require-false,
}
use my_discord_agent.Queue.Store.{
  Db, Ambient, stale_fencing_token, constraint, done, threw, M, ◌>>=◌, query, or_throw, update_jobs,
  job_by_id,
}

update_jobs-none :
    (p : JobRow → Bool) (f : JobRow → JobRow) (db : Db)
    → any_row p db.jobs ≡ false
    → update_jobs p f db ≡ done 0 db
unfolding update_jobs
update_jobs-none p f db e =
    rw (changes_none p db.jobs e, update_rows_id p f db.jobs (changes_none p db.jobs e)) refl

module _ (env : Ambient) (id : String) (token : ℕ) (db : Db)
    (lost : any_row (holds id token) db.jobs ≡ false) where
  fenced_stale :
      (update : JobRow → JobRow) → fenced env id token update db ≡ threw (stale_fencing_token id) db
  unfolding fenced
  fenced_stale update =
      run_done _ _ db (update_jobs-none (holds id token) (touched env.now update) db lost)
      ∙ require-false (0 == 1) (stale_fencing_token id) db refl

  heartbeat_stale :
      (lease : ℕ) → heartbeat env id token lease db ≡ threw (stale_fencing_token id) db
  unfolding heartbeat
  heartbeat_stale lease = fenced_stale _

  mark_running_stale :
      (at : Option ℕ) (metadata : ExecutionMetadata)
      → mark_running env id token at metadata db ≡ threw (stale_fencing_token id) db
  unfolding mark_running
  mark_running_stale at metadata = fenced_stale _

  found_none :
      {B : Type 0} (k : JobRow → M B)
      → (query (λ d. find_row (holds id token) d.jobs) >>= λ found.
            or_throw found (stale_fencing_token id) >>= k)
          db
        ≡ threw (stale_fencing_token id) db
  found_none k =
      query_run (λ d. find_row (holds id token) d.jobs) _ db
      ∙ run_threw _ _ db (or_throw-none _ _ db (find_row_absent (holds id token) db.jobs lost))

  freeze_stale :
      (sha256 : String → String) (identity : ExecutionIdentity)
      → freeze_execution_identity sha256 env id token identity db
        ≡ threw (stale_fencing_token id) db
  unfolding freeze_execution_identity
  freeze_stale sha256 identity = found_none _

  commit_stale :
      (host : Host) (result : ResultValue) (options : CommitOptions)
      → allowed (adopted options) ≡ true
      → commit_result host env id token result options db ≡ threw (stale_fencing_token id) db
  unfolding commit_result commit_in_transaction
  commit_stale host result options ok =
      then_done _ _ db (require-true (allowed (adopted options)) constraint db ok)
      ∙ rolls_back _ db (found_none _)

  dead_letter_stale :
      (reason : String) (error : Option String) (metadata : ExecutionMetadata)
      → dead_letter_job env id token reason error metadata db ≡ threw (stale_fencing_token id) db
  unfolding dead_letter_job dead_letter_in_transaction
  dead_letter_stale reason error metadata = rolls_back _ db (
      query_run (job_by_id id) _ db
      ∙ then_threw _ _ db (fenced_stale (dead_row reason error metadata)))

-- A worker that no active row of the job names any more (by id and fencing token) can neither beat,
-- nor mark the job as running, nor freeze its identity, nor commit a result whose conversation
-- entries are valid, nor dead-letter the job: each call throws the stale-token error and leaves the
-- database as it was.
pub superseded_worker_is_refused :
    (env : Ambient) (id : String) (token : ℕ) (db : Db) (lease : ℕ) (at : Option ℕ)
    (metadata : ExecutionMetadata) (sha256 : String → String) (identity : ExecutionIdentity)
    (host : Host) (result : ResultValue) (options : CommitOptions) (reason : String)
    (error : Option String)
    → any_row (holds id token) db.jobs ≡ false
    → allowed (adopted options) ≡ true
    → (heartbeat env id token lease db ≡ threw (stale_fencing_token id) db)
      × (mark_running env id token at metadata db ≡ threw (stale_fencing_token id) db)
      × (freeze_execution_identity sha256 env id token identity db
          ≡ threw (stale_fencing_token id) db)
      × (commit_result host env id token result options db ≡ threw (stale_fencing_token id) db)
      × (dead_letter_job env id token reason error metadata db ≡ threw (stale_fencing_token id) db)
superseded_worker_is_refused env id token db lease at metadata sha256 identity host result options
      reason error lost ok =
    (
      heartbeat_stale env id token db lost lease,
      mark_running_stale env id token db lost at metadata,
      freeze_stale env id token db lost sha256 identity,
      commit_stale env id token db lost host result options ok,
      dead_letter_stale env id token db lost reason error metadata,
    )
