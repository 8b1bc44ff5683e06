-- ===== src/Queue/Taking.antt =====
-- What `claim` of src/queue/repository.ts takes.
use mathlib.Core.Option
use my_discord_agent.Base.{
  ◌==◌, if◌then◌else◌, or_else, select, update_rows, update_rows-Memᴰ, Memᴰ-select, Unique,
  map-update_rows, changes-one, find_row-only, ℕ, ◌+◌, max, String, ◌≡◌, refl, sym, ap, subst, ◌∙◌,
  true, some, List, [], map, Memᴰ, arith, str_eq, eq_iff,
}
use my_discord_agent.Queue.Claim.{
  is_ready, is_eligible, is_claimable, first_in_order, claimed_row, still_claimable, ClaimedJob,
  dead_letter_rows, is_exhausted, claim_row, claim_best, claim_in_transaction, claim,
}
use my_discord_agent.Queue.Invariant.Claims.{first_in_order-Memᴰ}
use my_discord_agent.Queue.Rows.{JobStatus, JobRow, parse_payload}
use my_discord_agent.Queue.Runs.{
  run_done, then_done, commits, query_run, require-true, update_jobs_run, pure_run,
}
use my_discord_agent.Queue.Store.{Db, Ambient, done, pure, job_by_id}

claimable_is_still :
    (now : ℕ) (exclude : List String) (jobs : List JobRow) (row : JobRow)
    → is_claimable now exclude jobs row ≡ true
    → still_claimable now row row ≡ true
unfolding is_claimable is_eligible is_ready still_claimable
claimable_is_still now exclude jobs row h =
    let same_id = (eq_iff row.id row.id).1 refl in ground (arith, same_id)

still_is_row : (now : ℕ) (row y : JobRow) → still_claimable now row y ≡ true → y.id ≡ row.id
unfolding still_claimable
still_is_row now row y h = (eq_iff y.id row.id).0 (ground arith)

claimed_row-id :
    (now : ℕ) (worker : String) (lease_ms : ℕ) (row y : JobRow)
    → (claimed_row now worker lease_ms row y).id ≡ y.id
unfolding claimed_row
claimed_row-id now worker lease_ms row y = refl

-- The row of a job that a worker has claimed.
abbrev pub taken_row : ℕ → String → ℕ → JobRow → JobRow → JobRow
taken_row now worker lease_ms row r = record r {
  status = JobStatus.claimed;
  claimed_mirror = true;
  worker_id = some worker;
  lease_until = some (now + max 1 lease_ms);
  fencing_token = row.fencing_token + 1;
  attempts = r.attempts + 1;
  claimed_at = or_else r.claimed_at (some now);
  heartbeat_at = some now;
  updated_at = now;
}

-- What the worker gets for it.
abbrev pub claim_of : ℕ → String → ℕ → JobRow → ClaimedJob
claim_of now worker lease_ms row = record {
  job = parse_payload (taken_row now worker lease_ms row row);
  fencing_token = row.fencing_token + 1;
}

-- The database that the claim leaves.
abbrev pub taken_from : ℕ → String → ℕ → JobRow → Db → Db
taken_from now worker lease_ms row db = record db {
  jobs = update_rows (still_claimable now row) (taken_row now worker lease_ms row) db.jobs;
}

found_after :
    (now : ℕ) (worker : String) (lease_ms : ℕ) (row : JobRow) (db : Db)
    → Unique (map (λ r. r.id) db.jobs)
    → Memᴰ row db.jobs
    → still_claimable now row row ≡ true
    → job_by_id row.id (taken_from now worker lease_ms row db)
      ≡ some (claimed_row now worker lease_ms row row)
unfolding job_by_id claimed_row
found_after now worker lease_ms row db keys at ok =
    let p = still_claimable now row in
    let f = claimed_row now worker lease_ms row in
    find_row-only (λ (r : JobRow). r.id) (λ r. str_eq r.id row.id) (f row)
      ((eq_iff (f row).id row.id).1 (claimed_row-id now worker lease_ms row row))
      (λ y h. (eq_iff y.id row.id).0 h ∙ sym (claimed_row-id now worker lease_ms row row))
      (update_rows p f db.jobs)
      (subst Unique
        (sym (map-update_rows (λ r. r.id) p f db.jobs (claimed_row-id now worker lease_ms row)))
        keys)
      (subst (λ z. Memᴰ z (update_rows p f db.jobs)) (ap (λ b. if b then f row else row) ok)
        (update_rows-Memᴰ p f db.jobs at))

claim_row-takes :
    (now : ℕ) (worker : String) (lease_ms : ℕ) (row : JobRow) (db : Db)
    → Unique (map (λ r. r.id) db.jobs)
    → Memᴰ row db.jobs
    → still_claimable now row row ≡ true
    → claim_row now worker lease_ms row db
      ≡ done (some (claim_of now worker lease_ms row)) (taken_from now worker lease_ms row db)
unfolding claim_row claimed_row
claim_row-takes now worker lease_ms row db keys at ok =
    let p = still_claimable now row in
    let f = claimed_row now worker lease_ms row in
    let next = taken_from now worker lease_ms row db in
    let one = changes-one (λ r. r.id) p row ok (still_is_row now row) db.jobs keys at in
    run_done _ _ db (update_jobs_run p f db)
    ∙ then_done _ _ next (require-true _ _ next (ap (λ n. n == 1) one))
    ∙ query_run (job_by_id row.id) _ next
    ∙ ap
        (λ o.
          pure
            (Option.map
              (λ r. record { job = parse_payload r; fencing_token = row.fencing_token + 1 }) o)
            next)
        (found_after now worker lease_ms row db keys at ok)
    ∙ pure_run _ next

-- The claim of the row that the second SELECT finds, where the first finds none.
pub claim_takes_the_first :
    (env : Ambient) (worker : String) (lease_ms : ℕ) (exclude : List String) (db : Db)
    (row : JobRow)
    → Unique (map (λ r. r.id) db.jobs)
    → select (is_exhausted env.now exclude) db.jobs ≡ []
    → first_in_order (select (is_claimable env.now exclude db.jobs) db.jobs) ≡ some row
    → claim env worker lease_ms exclude db
      ≡ done
          (some (claim_of env.now worker lease_ms row))
          (taken_from env.now worker lease_ms row db)
unfolding claim claim_in_transaction dead_letter_rows claim_best
claim_takes_the_first env worker lease_ms exclude db row keys fresh first =
    let (at, ok) =
      Memᴰ-select (is_claimable env.now exclude db.jobs) db.jobs (first_in_order-Memᴰ _ first) in
    commits _ db (
      query_run (λ d. select (is_exhausted env.now exclude) d.jobs) _ db
      ∙ then_done _ _ db (ap (λ rows. dead_letter_rows env rows db) fresh ∙ pure_run tt db)
      ∙ query_run (λ d. first_in_order (select (is_claimable env.now exclude d.jobs) d.jobs)) _ db
      ∙ ap (λ o. claim_best env.now worker lease_ms o db) first
      ∙ claim_row-takes env.now worker lease_ms row db keys at
          (claimable_is_still env.now exclude db.jobs row ok))
