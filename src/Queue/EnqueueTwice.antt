-- ===== src/Queue/EnqueueTwice.antt =====
-- An enqueue that is repeated with its key (`enqueue` of src/queue/repository.ts).
use my_discord_agent.Base.{String, Option, none, some, [], ◌∷◌, ◌++◌}
use my_discord_agent.Queue.Enqueue.{
  EnqueueOptions, next_sequence, new_job_id, enqueued_row, session_of, key_of,
}
use my_discord_agent.Queue.Payload.{Object}
use my_discord_agent.Queue.Rows.{JobRow, KeyStatus, IdempotencyKey}
use my_discord_agent.Queue.Sources.{Source, Sources}
use my_discord_agent.Queue.Store.{Db, Ambient}

-- The row of the job, the row of its key, and the database with both.
abbrev first_row : Ambient → EnqueueOptions → Option Source → Object → Db → JobRow
first_row env options source payload db =
    enqueued_row env (key_of options payload) options source payload (session_of payload)
      (next_sequence (session_of payload) db.jobs)

abbrev first_key : Ambient → String → IdempotencyKey
first_key env k = record {
  key = k;
  job_id = some (new_job_id env);
  status = KeyStatus.active;
  created_at = env.now;
  completed_at = none;
}

abbrev with_job : JobRow → Db → Db
with_job row db = record db { jobs = db.jobs ++ row ∷ [] }

abbrev with_key : IdempotencyKey → Db → Db
with_key key db = record db { idempotency_keys = db.idempotency_keys ++ key ∷ [] }
