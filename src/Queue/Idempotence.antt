-- ===== src/Queue/Idempotence.antt =====
-- An idempotency key that is taken (`enqueueInTransaction` of src/queue/repository.ts).
use my_discord_agent.Base.{get_or, ◌≡◌, refl, ap, ◌∙◌, false, ◌&&◌, Option, some}
use my_discord_agent.Queue.Enqueue.{
  EnqueueOptions, EnqueueResult, synthetic_completed, source_policy, is_finished, is_active_only,
  existing_job, insert_new, enqueue_known, session_of, key_of, held_key, enqueue_held,
  enqueue_in_transaction, QueueInput, stored_input, enqueue,
}
use my_discord_agent.Queue.Metadata.{truthy}
use my_discord_agent.Queue.Payload.{Object, get, as_envelope}
use my_discord_agent.Queue.Rows.{IdempotencyKey}
use my_discord_agent.Queue.Runs.{run_done, commits, query_run}
use my_discord_agent.Queue.Sources.{Source, Sources}
use my_discord_agent.Queue.Store.{Db, Ambient, done, M, pure}

known :
    (env : Ambient) (held : IdempotencyKey) (source : Option Source) (payload : Object)
    (insert : M EnqueueResult) (db : Db)
    → (is_active_only source && is_finished (existing_job held.job_id db) held.status) ≡ false
    → enqueue_known env held.key held source payload insert db
      ≡ done
          (record {
            job =
                get_or (existing_job held.job_id db) (synthetic_completed payload held.key env.now);
            inserted = false;
          })
          db
unfolding enqueue_known pure
known env held source payload insert db stays =
    query_run (existing_job held.job_id) _ db ∙ rw stays refl

-- Where the source of the payload is accepted and its key is taken, and the source does not take
-- keys back or the key's job has not ended, `enqueue` inserts nothing: it leaves the database as it
-- was and returns the key's job, or a synthetic completed job if that is gone.
pub taken_key_inserts_nothing :
    (sources : Option Sources) (env : Ambient) (options : EnqueueOptions) (input : QueueInput)
    (db : Db) (source : Option Source) (held : IdempotencyKey)
    → source_policy sources (as_envelope (get "feature" (stored_input input))) db ≡ done source db
    → held_key (truthy (key_of options (stored_input input))) db ≡ some held
    → (is_active_only source && is_finished (existing_job held.job_id db) held.status) ≡ false
    → enqueue sources env options input db
      ≡ done
          (record {
            job =
                get_or
                  (existing_job held.job_id db)
                  (synthetic_completed (stored_input input) held.key env.now);
            inserted = false;
          })
          db
unfolding enqueue enqueue_in_transaction enqueue_held
taken_key_inserts_nothing sources env options input db source held accepted taken stays =
    commits _ db (
      run_done _ _ db accepted
      ∙ query_run (held_key (truthy (key_of options (stored_input input)))) _ db
      ∙ ap
          (λ o.
            enqueue_held env o source (stored_input input)
              (insert_new env (key_of options (stored_input input)) options source
                (stored_input input) (session_of (stored_input input)))
              db)
          taken
      ∙ known env held source (stored_input input) _ db stays)
