-- ===== src/Queue/Retries.antt =====
-- What becomes of a failed attempt (`failAttempt` and `retry` of src/queue/repository.ts).
use my_discord_agent.Base.{
  leb, get_or, or_else, find_row-Memᴰ, Unique, ℕ, zero, suc, ◌+◌, ◌*◌, ◌^◌, ◌≤◌, ◌<◌, min, String,
  ◌≡◌, refl, ap, ◌∙◌, true, false, Option, none, some, map, arith, str_eq,
}
use my_discord_agent.Queue.Fenced.{
  holds, payload_metadata_keys, patch_metadata_keys, patched_payload,
}
use my_discord_agent.Queue.Finish.{backoff_delay_ms, count_retry, retry, fail_attempt}
use my_discord_agent.Queue.Metadata.{ExecutionMetadata}
use my_discord_agent.Queue.Payload.{Json, num, Object, get, put, delete_all, has_key, as_num}
use my_discord_agent.Queue.PayloadLaws.{get-put, get-assign, get-delete_all_other}
use my_discord_agent.Queue.PuttingBack.{waiting_again, retry_puts_back}
use my_discord_agent.Queue.Rows.{is_active, JobRow}
use my_discord_agent.Queue.Runs.{run_done, then_done, query_run, or_throw-some, require-true}
use my_discord_agent.Queue.Store.{Db, Ambient, done, job_by_id}

backoff_bounds :
    (retries : ℕ)
    → (delay : ℕ) × (backoff_delay_ms (some retries) ≡ some delay)
      × (1000 ≤ delay)
      × (delay ≤ 60000)
unfolding backoff_delay_ms
backoff_bounds retries =
    let pos : 1 ≤ 2 ^ retries = power_pos retries in
    (min (1000 * 2 ^ retries) 60000, refl, omega (arith, pos), omega arith)
  where
    power_pos : (n : ℕ) → 1 ≤ 2 ^ n
    power_pos zero = omega arith
    power_pos (suc n) = omega (arith, power_pos n)

active_holds :
    (id : String) (token : ℕ) (db : Db) (row : JobRow)
    → job_by_id id db ≡ some row
    → is_active row.status ≡ true
    → token ≡ row.fencing_token
    → holds id token row ≡ true
unfolding holds job_by_id
active_holds id token db row found busy same =
    let (at, hit) = find_row-Memᴰ (λ r. str_eq r.id id) db.jobs found in ground (arith, hit)

-- A retry is one more in the payload that is stored, whatever the patch says of it.
retries_counted :
    (payload patch : Object) (retries : ℕ)
    → as_num (get "retries" payload) ≡ some retries
    → get "retries" (patched_payload payload (count_retry payload patch)) ≡ some (num (retries + 1))
unfolding patched_payload count_retry has_key
retries_counted payload patch retries counted =
    let next : Json = num (get_or (as_num (get "retries" payload)) 0 + 1) in
    let kept = delete_all payload_metadata_keys payload in
    let given = delete_all patch_metadata_keys (put "retries" next patch) in
    let there : get "retries" given ≡ some next =
      get-delete_all_other "retries" patch_metadata_keys (put "retries" next patch) refl
      ∙ get-put "retries" "retries" next patch in
    get-assign "retries" kept given
    ∙ ap (λ o. or_else o (get "retries" kept)) there
    ∙ ap (λ o. some (num (get_or o 0 + 1))) counted

-- Where job ids are unique, the job is active and has no result, has attempts left and a number of
-- retries in its payload, and the caller gives its fencing token or none, `failAttempt` returns, and the
-- job then waits for its next attempt without lease and worker, due at least one second and at most
-- one minute from now, however often it has been retried, and its payload counts one retry more.
pub failed_attempt_waits :
    (env : Ambient) (id message : String) (token : Option ℕ) (patch : Object)
    (metadata : ExecutionMetadata) (db : Db) (row : JobRow) (retries : ℕ)
    → Unique (map (λ r. r.id) db.jobs)
    → job_by_id id db ≡ some row
    → is_active row.status ≡ true
    → get_or token row.fencing_token ≡ row.fencing_token
    → row.result_json ≡ none
    → row.attempts < row.max_attempts
    → as_num (get "retries" row.payload) ≡ some retries
    → (next : Db) × (delay : ℕ) × (fail_attempt env id message token patch metadata db
        ≡ done tt next)
      × (job_by_id id next
          ≡ some (
              waiting_again env.now delay message metadata
                (patched_payload row.payload (count_retry row.payload patch))
                row))
      × (1000 ≤ delay)
      × (delay ≤ 60000)
      × (get "retries" (patched_payload row.payload (count_retry row.payload patch))
          ≡ some (num (retries + 1)))
unfolding fail_attempt
failed_attempt_waits env id message token patch metadata db row retries keys found busy same fresh
      left counted =
    let given = get_or token row.fencing_token in
    let (delay, is, low, high) = backoff_bounds retries in
    let held = active_holds id given db row found busy same in
    let some_left : leb row.max_attempts row.attempts ≡ false = ground (arith, left) in
    let (next, runs, waits) =
      retry_puts_back env id given message delay patch metadata db row keys found held fresh
        some_left in
    (
      next,
      delay,
      query_run (job_by_id id) _ db
          ∙ run_done _ _ db (or_throw-some _ _ row db found)
          ∙ then_done _ _ db (require-true _ _ db busy)
          ∙ then_done _ _ db (require-true _ _ db (ground (arith, same)))
          ∙ ap (λ d. retry env id given message d patch metadata db)
              (ap backoff_delay_ms counted ∙ is)
          ∙ runs,
      waits,
      low,
      high,
      retries_counted row.payload patch retries counted,
    )
