-- ===== src/Queue/Invariant/Writes.antt =====
-- The writes of a worker, retries, dead letters and recovery (src/queue/repository.ts), and
-- properties that calm updates keep.
use my_discord_agent.Base.{
  update_rows, ℕ, String, ◌≡◌, Bool, true, Option, none, some, List, [], ◌∷◌,
}
use my_discord_agent.Queue.Claim.{dead_letter_rows}
use my_discord_agent.Queue.Fenced.{
  holds, touched, fenced, update_payload, mark_running, heartbeat, ExecutionIdentity,
  freeze_execution_identity,
}
use my_discord_agent.Queue.Finish.{
  kill_key, dead_letter_in_transaction, still_exhausted, dead_letter_exhausted_in_transaction,
  dead_letter_job, retry_or_bury, retry_unless_done, retry_in_transaction, retry, fail_attempt,
}
use my_discord_agent.Queue.Invariant.Calm.{IsCalm}
use my_discord_agent.Queue.Invariant.Rows.{
  heartbeat-IsCalm, running-IsCalm, payload-IsCalm, frozen-IsCalm, dead-IsCalm, exhausted-IsCalm,
  retried-IsCalm, recovered-IsCalm,
}
use my_discord_agent.Queue.Keeps.{
  Keeps, Keeps-bind, Keeps-then, Keeps-pure, Keeps-query, Keeps-require, Keeps-or_throw, Keeps-if,
  Keeps-transaction,
}
use my_discord_agent.Queue.Metadata.{ExecutionMetadata}
use my_discord_agent.Queue.Payload.{Object}
use my_discord_agent.Queue.Recover.{recover_rows, recover_expired}
use my_discord_agent.Queue.Rows.{ResultValue, JobRow, DeadLetter}
use my_discord_agent.Queue.Store.{Ambient, M, update_jobs, update_keys, insert_dead_letter}

-- `J` is a property of the table that calm updates keep.
module _ {κ} (J : List JobRow → Type κ)
    (J-calm : (p : JobRow → Bool) (f : JobRow → JobRow)
      → ((s : JobRow) → p s ≡ true → IsCalm s (f s))
      → (jobs : List JobRow) → J jobs
      → J (update_rows p f jobs)) where
  abbrev KeepsJobs : {A : Type 0} → M A → Type κ
  KeepsJobs = Keeps (λ db. J db.jobs)

  update_jobs-KeepsJobs :
      (p : JobRow → Bool) (f : JobRow → JobRow)
      → ((s : JobRow) → p s ≡ true → IsCalm s (f s))
      → KeepsJobs (update_jobs p f)
  unfolding update_jobs
  update_jobs-KeepsJobs p f calm = record { keeps = λ db h. J-calm p f calm db.jobs h }

  fenced-KeepsJobs :
      (env : Ambient) (id : String) (token : ℕ) (f : JobRow → JobRow)
      → ((s : JobRow) → holds id token s ≡ true → IsCalm s (touched env.now f s))
      → KeepsJobs (fenced env id token f)
  unfolding fenced
  fenced-KeepsJobs env id token f calm =
      Keeps-bind _ (update_jobs-KeepsJobs (holds id token) _ calm) (λ n. Keeps-require _ _ _)

  pub heartbeat-KeepsJobs :
      (env : Ambient) (id : String) (token lease_ms : ℕ)
      → KeepsJobs (heartbeat env id token lease_ms)
  unfolding heartbeat
  heartbeat-KeepsJobs env id token lease_ms =
      fenced-KeepsJobs env id token _ (heartbeat-IsCalm id token env.now lease_ms)

  pub mark_running-KeepsJobs :
      (env : Ambient) (id : String) (token : ℕ) (started : Option ℕ) (m : ExecutionMetadata)
      → KeepsJobs (mark_running env id token started m)
  unfolding mark_running
  mark_running-KeepsJobs env id token started m =
      fenced-KeepsJobs env id token _ (running-IsCalm id token env.now started m)

  pub update_payload-KeepsJobs :
      (env : Ambient) (id : String) (token : ℕ) (patch : Object)
      → KeepsJobs (update_payload env id token patch)
  unfolding update_payload
  update_payload-KeepsJobs env id token patch = Keeps-bind _ (Keeps-query _ _) λ found.
      Keeps-bind _ (Keeps-or_throw _ _ _)
        λ row. fenced-KeepsJobs env id token _ (λ s h. payload-IsCalm env.now _ s)

  pub freeze_execution_identity-KeepsJobs :
      (sha256 : String → String) (env : Ambient) (id : String) (token : ℕ) (i : ExecutionIdentity)
      → KeepsJobs (freeze_execution_identity sha256 env id token i)
  unfolding freeze_execution_identity
  freeze_execution_identity-KeepsJobs sha256 env id token i =
      Keeps-bind _ (Keeps-query _ _) λ found. Keeps-bind _ (Keeps-or_throw _ _ _) λ row.
        Keeps-bind _
          (update_jobs-KeepsJobs (holds id token) _ (λ s h. frozen-IsCalm env.now _ _ _ s))
          (λ n. Keeps-require _ _ _)

  insert_dead_letter-KeepsJobs : (d : DeadLetter) → KeepsJobs (insert_dead_letter d)
  unfolding insert_dead_letter
  insert_dead_letter-KeepsJobs d = record { keeps = λ db h. h }

  kill_key-KeepsJobs : (k : Option String) → KeepsJobs (kill_key k)
  unfolding kill_key update_keys
  kill_key-KeepsJobs none = Keeps-pure _ tt
  kill_key-KeepsJobs (some k) = record { keeps = λ db h. h }

  pub dead_letter_in_transaction-KeepsJobs :
      (env : Ambient) (id : String) (token : ℕ) (reason : String) (error : Option String)
      (source : String) (m : ExecutionMetadata)
      → KeepsJobs (dead_letter_in_transaction env id token reason error source m)
  unfolding dead_letter_in_transaction
  dead_letter_in_transaction-KeepsJobs env id token reason error source m =
      Keeps-bind _ (Keeps-query _ _) λ row.
        Keeps-then _ (fenced-KeepsJobs env id token _ (dead-IsCalm id token env.now reason error m))
          (Keeps-then _ (insert_dead_letter-KeepsJobs _) (kill_key-KeepsJobs _))

  pub dead_letter_job-KeepsJobs :
      (env : Ambient) (id : String) (token : ℕ) (reason : String) (error : Option String)
      (m : ExecutionMetadata)
      → KeepsJobs (dead_letter_job env id token reason error m)
  unfolding dead_letter_job
  dead_letter_job-KeepsJobs env id token reason error m =
      Keeps-transaction _ (dead_letter_in_transaction-KeepsJobs env id token reason error "queue" m)

  dead_letter_exhausted-KeepsJobs :
      (env : Ambient) (reason : String) (row : JobRow)
      → KeepsJobs (dead_letter_exhausted_in_transaction env reason row)
  unfolding dead_letter_exhausted_in_transaction
  dead_letter_exhausted-KeepsJobs env reason row =
      Keeps-bind _
        (update_jobs-KeepsJobs (still_exhausted row) _ (λ s h. exhausted-IsCalm env.now reason _ s))
        λ n.
          Keeps-if _ _ (Keeps-then _ (insert_dead_letter-KeepsJobs _) (kill_key-KeepsJobs _))
            (Keeps-pure _ tt)

  pub dead_letter_rows-KeepsJobs :
      (env : Ambient) (rows : List JobRow) → KeepsJobs (dead_letter_rows env rows)
  unfolding dead_letter_rows
  dead_letter_rows-KeepsJobs env [] = Keeps-pure _ tt
  dead_letter_rows-KeepsJobs env (row ∷ rows) =
      Keeps-then _ (dead_letter_exhausted-KeepsJobs env "max_attempts" row)
        (dead_letter_rows-KeepsJobs env rows)

  retry_or_bury-KeepsJobs :
      (env : Ambient) (id : String) (token : ℕ) (why : String) (delay : Option ℕ)
      (m : ExecutionMetadata) (row : JobRow)
      → KeepsJobs (retry_or_bury env id token why delay m row)
  unfolding retry_or_bury
  retry_or_bury-KeepsJobs env id token why delay m row =
      Keeps-if _ _ (dead_letter_in_transaction-KeepsJobs env id token "max_attempts" _ "queue" m) (
        Keeps-bind _ (Keeps-or_throw _ _ _)
          λ ms. fenced-KeepsJobs env id token _ (retried-IsCalm id token env.now ms why m))

  retry_unless_done-KeepsJobs :
      (r : Option ResultValue) (body : M (Unit {0}))
      → KeepsJobs body
      → KeepsJobs (retry_unless_done r body)
  unfolding retry_unless_done
  retry_unless_done-KeepsJobs none body h = h
  retry_unless_done-KeepsJobs (some r) body h = Keeps-pure _ tt

  pub retry-KeepsJobs :
      (env : Ambient) (id : String) (token : ℕ) (why : String) (delay : Option ℕ) (patch : Object)
      (m : ExecutionMetadata)
      → KeepsJobs (retry env id token why delay patch m)
  unfolding retry retry_in_transaction
  retry-KeepsJobs env id token why delay patch m = Keeps-transaction _ (
      Keeps-bind _ (Keeps-query _ _) λ found. Keeps-bind _ (Keeps-or_throw _ _ _) λ row.
        retry_unless_done-KeepsJobs _ _ (
          Keeps-then _ (update_payload-KeepsJobs env id token _)
            (retry_or_bury-KeepsJobs env id token why delay m row)))

  pub fail_attempt-KeepsJobs :
      (env : Ambient) (id why : String) (token : Option ℕ) (patch : Object) (m : ExecutionMetadata)
      → KeepsJobs (fail_attempt env id why token patch m)
  unfolding fail_attempt
  fail_attempt-KeepsJobs env id why token patch m = Keeps-bind _ (Keeps-query _ _) λ found.
      Keeps-bind _ (Keeps-or_throw _ _ _) λ job.
        Keeps-then _ (Keeps-require _ _ _)
          (Keeps-then _ (Keeps-require _ _ _) (retry-KeepsJobs env id _ why _ patch m))

  recover_rows-KeepsJobs : (now : ℕ) (rows : List JobRow) → KeepsJobs (recover_rows now rows)
  unfolding recover_rows
  recover_rows-KeepsJobs now [] = Keeps-pure _ 0
  recover_rows-KeepsJobs now (row ∷ rows) =
      Keeps-bind _
        (update_jobs-KeepsJobs (holds row.id row.fencing_token) _
          (recovered-IsCalm row.id row.fencing_token now))
        λ n. Keeps-bind _ (recover_rows-KeepsJobs now rows) (λ k. Keeps-pure _ _)

  pub recover_expired-KeepsJobs : (now : ℕ) → KeepsJobs (recover_expired now)
  unfolding recover_expired
  recover_expired-KeepsJobs now =
      Keeps-bind _ (Keeps-query _ _) λ rows. Keeps-transaction _ (recover_rows-KeepsJobs now rows)
