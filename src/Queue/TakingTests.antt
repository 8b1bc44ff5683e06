-- ===== src/Queue/TakingTests.antt =====
-- A claim at a concrete table.
use mathlib.Core.Bool.{false≢true}
use mathlib.Core.List.Memᴰ
use my_discord_agent.Base.{
  leb, find_row, any_row, Unique, ℕ, ◌≤◌, ◌<◌, ◌≡◌, refl, ◌∙◌, ◌⊎◌, inl, inr, true, false, none,
  some, [], ◌∷◌, map, Memᴰ, arith, eq_iff,
}
use my_discord_agent.Queue.Claim.{
  is_provisioned, is_due, is_ready, is_bot_admission, excludes, is_eligible, is_blocker, is_prior,
  is_claimable, claim,
}
use my_discord_agent.Queue.Enqueue.{new_job}
use my_discord_agent.Queue.Fenced.{holds, patched_payload, update_payload}
use my_discord_agent.Queue.Finish.{count_retry, retry, fail_attempt}
use my_discord_agent.Queue.MayRun.{claimable-MayRun}
use my_discord_agent.Queue.Metadata.{no_metadata}
use my_discord_agent.Queue.Oldest.{IsOlder, oldest_is_claimed}
use my_discord_agent.Queue.Payload.{num, str, get, has_key, is_one, is_str, as_num}
use my_discord_agent.Queue.PuttingBack.{waiting_again, retry_puts_back}
use my_discord_agent.Queue.Retries.{failed_attempt_waits}
use my_discord_agent.Queue.Rows.{JobStatus, is_active, JobRow}
use my_discord_agent.Queue.Store.{Db, empty_db, done, job_by_id}
use my_discord_agent.Queue.StoredKeys.{stored_key}
use my_discord_agent.Queue.Taking.{claim_of, taken_from}

abbrev waiting : JobRow
waiting = new_job "job-1" none (("groupName", str "g") ∷ []) "s" 0 10 1

-- A younger job of another session, which stands before it in the table.
abbrev younger : JobRow
younger = record waiting { id = "job-0"; session_id = "t"; sequence = 5 }

abbrev waiting_db : Db
waiting_db = record empty_db { jobs = younger ∷ waiting ∷ [] }

two_ids : Unique (map (λ r. r.id) waiting_db.jobs)
unfolding Unique new_job
two_ids = (
  λ y m e. elim (Memᴰ.cases_cons m) [
    | inl same ↦ false≢true ((eq_iff "job-0" "job-1").1 (e ∙ same))
    | inr none_left ↦ absurd (Memᴰ.not-nil none_left)
  ],
  ((λ y m. absurd (Memᴰ.not-nil m)), tt),
)

waiting-is_claimable : is_claimable 9 [] waiting_db.jobs waiting ≡ true
unfolding is_claimable is_eligible is_bot_admission is_one get is_provisioned is_ready is_due
    excludes any_row is_blocker is_prior new_job is_str
waiting-is_claimable = refl

in_table : (y : JobRow) → Memᴰ y waiting_db.jobs → (y ≡ younger) ⊎ (y ≡ waiting)
in_table y m = elim (Memᴰ.cases_cons m) [
  | inl same ↦ inl same
  | inr rest ↦ inr (Memᴰ.eq_of_singleton rest)
]

attempts_left_in_table : (y : JobRow) → Memᴰ y waiting_db.jobs → y.attempts < y.max_attempts
unfolding new_job
attempts_left_in_table y m = elim (in_table y m) [
  | inl same ↦ rw same (omega arith)
  | inr same ↦ rw same (omega arith)
]

waiting_is_oldest : (y : JobRow) → Memᴰ y waiting_db.jobs → (y ≡ waiting) ⊎ IsOlder waiting y
unfolding new_job
waiting_is_oldest y m = elim (in_table y m) [
  | inl same ↦ inr (rw same (inr (refl, omega arith)))
  | inr same ↦ inl same
]

oldest_is_claimed_example :
    claim (record { now = 9; uuid = λ i. "u" }) "w" 60 [] waiting_db
    ≡ done (some (claim_of 9 "w" 60 waiting)) (taken_from 9 "w" 60 waiting waiting_db)
oldest_is_claimed_example =
    oldest_is_claimed (record { now = 9; uuid = λ i. "u" }) "w" 60 [] waiting_db waiting two_ids
      (λ y m ready. attempts_left_in_table y m) (Memᴰ.tail (Memᴰ.head refl))
      (claimable-MayRun 9 [] waiting_db.jobs waiting waiting-is_claimable)
      (λ y m may. waiting_is_oldest y m)

abbrev taken : JobRow
taken = record (new_job "job-2" none (("retries", num 1) ∷ []) "s" 0 10 1) {
  status = JobStatus.running;
  lease_until = some 500;
  worker_id = some "w";
  fencing_token = 2;
  attempts = 2;
}

abbrev taken_db : Db
taken_db = record empty_db { jobs = taken ∷ [] }

one_taken_id : Unique (map (λ r. r.id) taken_db.jobs)
unfolding Unique
one_taken_id = ((λ y m. absurd (Memᴰ.not-nil m)), tt)

taken_is_found : job_by_id "job-2" taken_db ≡ some taken
unfolding job_by_id find_row new_job
taken_is_found = refl

taken_is_held : holds "job-2" 2 taken ≡ true
unfolding holds new_job
taken_is_held = refl

taken_is_fresh : taken.result_json ≡ none
unfolding new_job
taken_is_fresh = refl

attempts_are_left : leb taken.max_attempts taken.attempts ≡ false
unfolding new_job
attempts_are_left = refl

retry_puts_back_example :
    (next : Db) × (retry
        (record { now = 9; uuid = λ i. "u" })
        "job-2"
        2
        "failed"
        (some 2000)
        []
        no_metadata
        taken_db
      ≡ done tt next)
    × (job_by_id "job-2" next
        ≡ some (
            waiting_again 9 2000 "failed" no_metadata
              (patched_payload taken.payload (count_retry taken.payload []))
              taken))
retry_puts_back_example =
    retry_puts_back (record { now = 9; uuid = λ i. "u" }) "job-2" 2 "failed" 2000 [] no_metadata
      taken_db taken one_taken_id taken_is_found taken_is_held taken_is_fresh attempts_are_left

taken_is_active : is_active taken.status ≡ true
taken_is_active = refl

taken_was_retried : as_num (get "retries" taken.payload) ≡ some 1
unfolding as_num get new_job
taken_was_retried = refl

failed_attempt_waits_example :
    (next : Db) × (delay : ℕ) × (fail_attempt
        (record { now = 9; uuid = λ i. "u" })
        "job-2"
        "failed"
        (some 2)
        []
        no_metadata
        taken_db
      ≡ done tt next)
    × (job_by_id "job-2" next
        ≡ some (
            waiting_again 9 delay "failed" no_metadata
              (patched_payload taken.payload (count_retry taken.payload []))
              taken))
    × (1000 ≤ delay)
    × (delay ≤ 60000)
    × (get "retries" (patched_payload taken.payload (count_retry taken.payload [])) ≡ some (num 2))
failed_attempt_waits_example =
    failed_attempt_waits (record { now = 9; uuid = λ i. "u" }) "job-2" "failed" (some 2) []
      no_metadata taken_db taken 1 one_taken_id taken_is_found taken_is_active refl taken_is_fresh
      (ground (arith, attempts_are_left)) taken_was_retried

stored_key_example :
    (next : Db) × (after_call : JobRow) × (update_payload
        (record { now = 9; uuid = λ i. "u" })
        "job-2"
        2
        (("status", str "x") ∷ [])
        taken_db
      ≡ done tt next)
    × (job_by_id "job-2" next ≡ some after_call)
    × (get "status" after_call.payload ≡ none)
unfolding has_key
stored_key_example =
    stored_key (record { now = 9; uuid = λ i. "u" }) "job-2" 2 (("status", str "x") ∷ []) taken_db
      taken "status" one_taken_id taken_is_found taken_is_held
