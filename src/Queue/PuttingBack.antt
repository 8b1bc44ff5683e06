-- ===== src/Queue/PuttingBack.antt =====
-- What `retry` of src/queue/repository.ts leaves.
use my_discord_agent.Base.{
  leb, ◌==◌, if◌then◌else◌, update_rows, update_rows-Memᴰ, find_row-Memᴰ, Unique, map-update_rows,
  changes-one, find_row-only, ℕ, ◌+◌, String, ◌≡◌, refl, sym, ap, subst, ◌∙◌, true, false, Option,
  none, some, map, Memᴰ, arith, str_eq, eq_iff,
}
use my_discord_agent.Queue.Fenced.{
  holds, touched, fenced, patched_payload, with_payload, update_payload,
}
use my_discord_agent.Queue.Finish.{
  retried_row, count_retry, retry_or_bury, retry_unless_done, retry_in_transaction, retry,
}
use my_discord_agent.Queue.Metadata.{ExecutionMetadata, metadata_set_columns}
use my_discord_agent.Queue.Payload.{Object}
use my_discord_agent.Queue.Rows.{JobStatus, ResultValue, JobRow}
use my_discord_agent.Queue.Runs.{
  run_done, then_done, commits, query_run, or_throw-some, require-true, update_jobs_run,
}
use my_discord_agent.Queue.Store.{Db, Ambient, invalid_time, done, M, job_by_id}

holds-id : (id : String) (token : ℕ) (y : JobRow) → holds id token y ≡ true → y.id ≡ id
unfolding holds
holds-id id token y h = (eq_iff y.id id).0 (ground arith)

-- The table after a fenced write.
abbrev pub written_by : ℕ → String → ℕ → (JobRow → JobRow) → Db → Db
written_by now id token f db = record db {
  jobs = update_rows (holds id token) (touched now f) db.jobs;
}

module _ (env : Ambient) (id : String) (token : ℕ) (f : JobRow → JobRow) (db : Db) (row : JobRow)
    (keys : Unique (map (λ r. r.id) db.jobs)) (at : Memᴰ row db.jobs)
    (held : holds id token row ≡ true) where
  fenced_hits : fenced env id token f db ≡ done tt (written_by env.now id token f db)
  unfolding fenced
  fenced_hits =
      let one =
        changes-one (λ (r : JobRow). r.id) (holds id token) row held
          (λ y h. holds-id id token y h ∙ sym (holds-id id token row held)) db.jobs keys at in
      run_done _ _ db (update_jobs_run (holds id token) (touched env.now f) db)
      ∙ require-true _ _ _ (ap (λ n. n == 1) one)

  module _ (same_id : (r : JobRow) → (f r).id ≡ r.id) where
    touched_id : (r : JobRow) → (touched env.now f r).id ≡ r.id
    unfolding touched
    touched_id r = same_id r

    keys_after : Unique (map (λ r. r.id) (written_by env.now id token f db).jobs)
    keys_after =
        subst Unique
          (sym
            (map-update_rows (λ r. r.id) (holds id token) (touched env.now f) db.jobs touched_id))
          keys

    row_after : Memᴰ (touched env.now f row) (written_by env.now id token f db).jobs
    row_after =
        subst (λ z. Memᴰ z (update_rows (holds id token) (touched env.now f) db.jobs))
          (ap (λ b. if b then touched env.now f row else row) held)
          (update_rows-Memᴰ (holds id token) (touched env.now f) db.jobs at)

    pub found_written :
        job_by_id id (written_by env.now id token f db) ≡ some (touched env.now f row)
    unfolding job_by_id
    found_written =
        let new_id : (touched env.now f row).id ≡ id =
          touched_id row ∙ holds-id id token row held in
        find_row-only (λ (r : JobRow). r.id) (λ r. str_eq r.id id) (touched env.now f row)
          ((eq_iff _ id).1 new_id) (λ y h. (eq_iff y.id id).0 h ∙ sym new_id)
          (written_by env.now id token f db).jobs keys_after row_after

-- The row that waits for its next attempt.
abbrev pub waiting_again : ℕ → ℕ → String → ExecutionMetadata → Object → JobRow → JobRow
waiting_again now delay message metadata payload row = record row {
  payload = payload;
  status = JobStatus.retry_wait;
  next_attempt_at = some (now + delay);
  lease_until = none;
  worker_id = none;
  last_error = some message;
  error_json = some message;
  metadata = metadata_set_columns metadata row.metadata;
  updated_at = now;
}

waiting_again_lem :
    (now delay : ℕ) (message : String) (metadata : ExecutionMetadata) (payload : Object)
    (row : JobRow)
    → touched now (retried_row now delay message metadata) (touched now (with_payload payload) row)
      ≡ waiting_again now delay message metadata payload row
unfolding touched retried_row with_payload
waiting_again_lem now delay message metadata payload row = refl

still_held :
    (now : ℕ) (payload : Object) (id : String) (token : ℕ) (row : JobRow)
    → holds id token row ≡ true
    → holds id token (touched now (with_payload payload) row) ≡ true
unfolding holds touched with_payload
still_held now payload id token row h = h

pub found_in :
    (id : String) (db : Db) (row : JobRow) → job_by_id id db ≡ some row → Memᴰ row db.jobs
unfolding job_by_id
found_in id db row e = (find_row-Memᴰ (λ r. str_eq r.id id) db.jobs e).0

pub with_payload-id : (payload : Object) (r : JobRow) → (with_payload payload r).id ≡ r.id
unfolding with_payload
with_payload-id payload r = refl

retried_row-id :
    (now delay : ℕ) (message : String) (metadata : ExecutionMetadata) (r : JobRow)
    → (retried_row now delay message metadata r).id ≡ r.id
unfolding retried_row
retried_row-id now delay message metadata r = refl

pub update_payload_hits :
    (env : Ambient) (id : String) (token : ℕ) (patch : Object) (db : Db) (row : JobRow)
    → Unique (map (λ r. r.id) db.jobs)
    → job_by_id id db ≡ some row
    → Memᴰ row db.jobs
    → holds id token row ≡ true
    → update_payload env id token patch db
      ≡ done tt (written_by env.now id token (with_payload (patched_payload row.payload patch)) db)
unfolding update_payload
update_payload_hits env id token patch db row keys found at held =
    query_run (job_by_id id) _ db
    ∙ run_done _ _ db (or_throw-some _ _ row db found)
    ∙ fenced_hits env id token (with_payload (patched_payload row.payload patch)) db row keys at
        held

waits_if_left :
    (env : Ambient) (id : String) (token : ℕ) (message : String) (delay : ℕ)
    (metadata : ExecutionMetadata) (old row : JobRow) (db : Db)
    → Unique (map (λ r. r.id) db.jobs)
    → Memᴰ row db.jobs
    → holds id token row ≡ true
    → leb old.max_attempts old.attempts ≡ false
    → retry_or_bury env id token message (some delay) metadata old db
      ≡ done tt (written_by env.now id token (retried_row env.now delay message metadata) db)
unfolding retry_or_bury
waits_if_left env id token message delay metadata old row db keys at held left = rw left (
    run_done _ _ db (or_throw-some (some delay) invalid_time delay db refl)
    ∙ fenced_hits env id token (retried_row env.now delay message metadata) db row keys at held)

unless_done_runs :
    (o : Option ResultValue) (body : M (Unit {0})) (db : Db)
    → o ≡ none
    → retry_unless_done o body db ≡ body db
unfolding retry_unless_done
unless_done_runs o body db e = rw e refl

-- Where job ids are unique, the job is active with the caller's token, has no result and has attempts
-- left, `retry` returns, and the job is then in the state retry_wait with its retries counted in the
-- payload, with no lease and no worker, due after the delay, and with its token and attempts as before.
pub retry_puts_back :
    (env : Ambient) (id : String) (token : ℕ) (message : String) (delay : ℕ) (patch : Object)
    (metadata : ExecutionMetadata) (db : Db) (row : JobRow)
    → Unique (map (λ r. r.id) db.jobs)
    → job_by_id id db ≡ some row
    → holds id token row ≡ true
    → row.result_json ≡ none
    → leb row.max_attempts row.attempts ≡ false
    → (next : Db) × (retry env id token message (some delay) patch metadata db ≡ done tt next)
      × (job_by_id id next
          ≡ some (
              waiting_again env.now delay message metadata
                (patched_payload row.payload (count_retry row.payload patch))
                row))
unfolding retry retry_in_transaction
retry_puts_back env id token message delay patch metadata db row keys found held fresh left =
    let payload = patched_payload row.payload (count_retry row.payload patch) in
    let f = with_payload payload in
    let g = retried_row env.now delay message metadata in
    let at = found_in id db row found in
    let db1 = written_by env.now id token f db in
    let row1 = touched env.now f row in
    let held1 = still_held env.now payload id token row held in
    let keys1 = keys_after env id token f db row keys at held (with_payload-id payload) in
    let at1 = row_after env id token f db row keys at held (with_payload-id payload) in
    (
      written_by env.now id token g db1,
      commits _ db (
          query_run (job_by_id id) _ db
          ∙ run_done _ _ db (or_throw-some _ _ row db found)
          ∙ unless_done_runs row.result_json _ db fresh
          ∙ then_done _ _ db (
              update_payload_hits env id token (count_retry row.payload patch) db row keys found at
                held)
          ∙ waits_if_left env id token message delay metadata row row1 db1 keys1 at1 held1 left),
      found_written env id token g db1 row1 keys1 at1 held1
            (retried_row-id env.now delay message metadata)
          ∙ ap some (waiting_again_lem env.now delay message metadata payload row),
    )
