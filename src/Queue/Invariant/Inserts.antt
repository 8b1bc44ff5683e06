-- ===== src/Queue/Invariant/Inserts.antt =====
-- `enqueue` and the creation of tickets (src/queue/repository.ts) and the invariant.
use mathlib.Core.Logic.{◌≢◌}
use my_discord_agent.Base.{
  Bool-cases, any_row-false, ℕ, String, ◌≡◌, refl, ◌≢◌, inl, inr, false, ◌||◌, Option, none, some,
  Memᴰ, arith, str_eq, eq_iff,
}
use my_discord_agent.Queue.Admission.{create_admission_in_transaction}
use my_discord_agent.Queue.Enqueue.{
  EnqueueOptions, EnqueueResult, next_sequence, new_job, policy_or_throw, source_policy,
  unkeyed_row, release_key, insert_active_key, enqueued_row, insert_new, enqueue_known,
  enqueue_held, enqueue_in_transaction, QueueInput, stored_input, enqueue,
}
use my_discord_agent.Queue.Invariant.Appends.{IsFresh, append-Inv}
use my_discord_agent.Queue.Invariant.Calm.{IsCalm, update_rows-Inv}
use my_discord_agent.Queue.Invariant.Defs.{Inv}
use my_discord_agent.Queue.Keeps.{
  Keeps, Keeps-outcome, Keeps-bind, Keeps-then, Keeps-pure, Keeps-throw, Keeps-query,
  Keeps-or_throw, Keeps-if, Keeps-transaction, unless_exists_keeps,
}
use my_discord_agent.Queue.Payload.{Object, SourceEnvelope}
use my_discord_agent.Queue.Rows.{JobRow, IdempotencyKey}
use my_discord_agent.Queue.Sources.{
  Source, duplicate_or_empty, unregistered, invalid_input, Checked, valid, invalid, Sources, policy,
}
use my_discord_agent.Queue.Store.{
  Db, Ambient, M, ◌>>=◌, ◌>>◌, query, after, update_jobs, same_key, unless_exists, job_exists,
  insert_job, insert_key, delete_key,
}

-- A job that no row has the id of is new.
job_exists-new :
    (row : JobRow) (db : Db)
    → job_exists row db ≡ false
    → (b : JobRow) → Memᴰ b db.jobs
    → b.id ≢ row.id
unfolding job_exists
job_exists-new row db e b m same =
    let clear =
      any_row-false
        (λ (r : JobRow). str_eq r.id row.id || same_key r.idempotency_key row.idempotency_key)
        db.jobs e m in
    let hit = (eq_iff b.id row.id).1 same in absurd (ground (arith, clear, hit))

insert_job-Inv :
    (session : String) (row : JobRow) (db : Db)
    → IsFresh session (next_sequence session db.jobs) row
    → Inv db.jobs
    → Inv (after (insert_job row db)).jobs
unfolding insert_job unless_exists
insert_job-Inv session row db fresh inv = elim (Bool-cases (job_exists row db)) [
  | inl taken ↦ rw taken inv
  | inr free ↦ rw free (append-Inv session db.jobs row fresh inv (job_exists-new row db free))
]

abbrev pub KeepsInv : {A : Type 0} → M A → Type 0
KeepsInv = Keeps (λ db. Inv db.jobs)

-- Read the next sequence number of a session, insert a row with it, and go on.
insert_numbered-KeepsInv :
    {B : Type 0} (session : String) (row : ℕ → JobRow) (k : ℕ → M B)
    → ((n : ℕ) → IsFresh session n (row n))
    → ((n : ℕ) → KeepsInv (k n))
    → KeepsInv (query (λ db. next_sequence session db.jobs) >>= λ n. insert_job (row n) >> k n)
unfolding ◌>>=◌ ◌>>◌ query
insert_numbered-KeepsInv session row k fresh next = record {
  keeps = λ db inv.
      let n = next_sequence session db.jobs in
      Keeps-outcome (λ db. Inv db.jobs) (insert_job (row n) db) (λ _. k n) (λ _. next n)
        (insert_job-Inv session (row n) db (fresh n) inv);
}

new_job-IsFresh :
    (id : String) (key : Option String) (payload : Object) (session : String) (n m now : ℕ)
    → IsFresh session n (new_job id key payload session n m now)
unfolding new_job
new_job-IsFresh id key payload session n m now = record {
  in_session = refl;
  at_end = refl;
  is_idle = refl;
  sound = record { capped = omega arith; unleased = λ _. refl; unadopted = λ _. refl };
}

enqueued_row-IsFresh :
    (env : Ambient) (key : Option String) (options : EnqueueOptions) (source : Option Source)
    (payload : Object) (session : String) (n : ℕ)
    → IsFresh session n (enqueued_row env key options source payload session n)
unfolding enqueued_row new_job
enqueued_row-IsFresh env key options source payload session n = record {
  in_session = refl;
  at_end = refl;
  is_idle = refl;
  sound = record { capped = omega arith; unleased = λ _. refl; unadopted = λ _. refl };
}

insert_active_key-KeepsInv :
    (key : Option String) (id : String) (now : ℕ) → KeepsInv (insert_active_key key id now)
unfolding insert_active_key insert_key
insert_active_key-KeepsInv none id now = Keeps-pure _ tt
insert_active_key-KeepsInv (some k) id now = record {
  keeps = λ db h. unless_exists_keeps (λ db. Inv db.jobs) _ _ db h h;
}

insert_new-KeepsInv :
    (env : Ambient) (key : Option String) (options : EnqueueOptions) (source : Option Source)
    (payload : Object) (session : String)
    → KeepsInv (insert_new env key options source payload session)
unfolding insert_new
insert_new-KeepsInv env key options source payload session =
    insert_numbered-KeepsInv session _ _
      (enqueued_row-IsFresh env key options source payload session)
      (λ n. Keeps-then _ (insert_active_key-KeepsInv _ _ _) (
        Keeps-bind _ (Keeps-query _ _)
          (λ created. Keeps-bind _ (Keeps-or_throw _ created _) (λ row. Keeps-pure _ _))))

unkeyed-IsCalm : (s : JobRow) → IsCalm s (unkeyed_row s)
unfolding unkeyed_row
unkeyed-IsCalm s = ground arith

release_key-KeepsInv : (key : String) (holder : Option String) → KeepsInv (release_key key holder)
unfolding release_key delete_key update_jobs ◌>>=◌
release_key-KeepsInv key holder = record {
  keeps = λ db inv. update_rows-Inv _ unkeyed_row (λ s _. unkeyed-IsCalm s) db.jobs inv;
}

enqueue_held-KeepsInv :
    (env : Ambient) (held : Option IdempotencyKey) (source : Option Source) (payload : Object)
    (insert : M EnqueueResult)
    → KeepsInv insert
    → KeepsInv (enqueue_held env held source payload insert)
unfolding enqueue_held enqueue_known
enqueue_held-KeepsInv env none source payload insert next = next
enqueue_held-KeepsInv env (some row) source payload insert next =
    Keeps-bind _ (Keeps-query _ _)
      (λ existing. Keeps-if _ _ (Keeps-then _ (release_key-KeepsInv _ _) next) (Keeps-pure _ _))

policy_or_throw-KeepsInv : (c : Checked Source) → KeepsInv (policy_or_throw c)
unfolding policy_or_throw
policy_or_throw-KeepsInv (valid s) = Keeps-pure _ (some s)
policy_or_throw-KeepsInv (invalid (duplicate_or_empty k)) = Keeps-throw _ _
policy_or_throw-KeepsInv (invalid (unregistered k)) = Keeps-throw _ _
policy_or_throw-KeepsInv (invalid (invalid_input k)) = Keeps-throw _ _

source_policy-KeepsInv :
    (sources : Option Sources) (e : Option SourceEnvelope) → KeepsInv (source_policy sources e)
unfolding source_policy
source_policy-KeepsInv sources none = Keeps-pure _ none
source_policy-KeepsInv none (some e) = Keeps-throw _ _
source_policy-KeepsInv (some sources) (some e) = policy_or_throw-KeepsInv (policy sources e)

pub enqueue_in_transaction-KeepsInv :
    (sources : Option Sources) (env : Ambient) (options : EnqueueOptions) (payload : Object)
    → KeepsInv (enqueue_in_transaction sources env options payload)
unfolding enqueue_in_transaction
enqueue_in_transaction-KeepsInv sources env options payload =
    Keeps-bind _ (source_policy-KeepsInv _ _) (λ source.
      Keeps-bind _ (Keeps-query _ _)
        (λ held. enqueue_held-KeepsInv _ held source _ _ (insert_new-KeepsInv _ _ _ _ _ _)))

pub enqueue-KeepsInv :
    (sources : Option Sources) (env : Ambient) (options : EnqueueOptions) (input : QueueInput)
    → KeepsInv (enqueue sources env options input)
unfolding enqueue
enqueue-KeepsInv sources env options input =
    Keeps-transaction _ (enqueue_in_transaction-KeepsInv sources env options (stored_input input))

pub create_admission-KeepsInv :
    (env : Ambient) (session group : String) (at : ℕ)
    → KeepsInv (create_admission_in_transaction env session group at)
unfolding create_admission_in_transaction
create_admission-KeepsInv env session group at =
    insert_numbered-KeepsInv session _ _ (λ n. new_job-IsFresh _ none _ session n 1 at)
      (λ n. Keeps-pure _ _)
