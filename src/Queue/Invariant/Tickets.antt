-- ===== src/Queue/Invariant/Tickets.antt =====
-- Tickets and Bot Task Sessions (src/queue/repository.ts) and the invariant.
use my_discord_agent.Base.{
  ltb, any_row-false, ℕ, String, ◌≡◌, refl, ◌∙◌, Bool, true, false, ◌&&◌, not, Option, none, some,
  arith, str_eq, eq_iff,
}
use my_discord_agent.Queue.Admission.{
  Admission, is_ticket, is_blocked, started_ticket, start_ticket, admit_in_transaction, admit,
  try_admit_in_transaction, try_admit,
}
use my_discord_agent.Queue.Enqueue.{EnqueueOptions}
use my_discord_agent.Queue.Invariant.Calm.{update_rows-Inv}
use my_discord_agent.Queue.Invariant.Defs.{Inv}
use my_discord_agent.Queue.Invariant.Inserts.{
  KeepsInv, enqueue_in_transaction-KeepsInv, create_admission-KeepsInv,
}
use my_discord_agent.Queue.Invariant.Results.{cancel_blocked-KeepsJobs}
use my_discord_agent.Queue.Invariant.Starts.{IsStarted, IsFirst, update_rows-start-Inv}
use my_discord_agent.Queue.Keeps.{
  Keeps-outcome, Keeps-bind, Keeps-then, Keeps-pure, Keeps-query, Keeps-or_throw, Keeps-transaction,
  unless_exists_keeps,
}
use my_discord_agent.Queue.Payload.{Object}
use my_discord_agent.Queue.Rows.{is_terminal, is_queued, JobRow, BotTaskSession}
use my_discord_agent.Queue.Sessions.{
  CreateSession, insert_session, session_or_new, create_session_in_transaction,
  create_session_and_admission, touch_session, resume_found, resume_in_transaction,
  resume_session_and_admission, create_session_and_enqueue, enqueue_found,
  resume_and_enqueue_in_transaction, resume_session_and_enqueue,
}
use my_discord_agent.Queue.Sources.{Sources}
use my_discord_agent.Queue.Store.{Db, Ambient, ◌>>=◌, pure, query, after, update_jobs}

is_blocked-IsFirst :
    (a : Admission) (db : Db) (s : JobRow)
    → is_blocked a db ≡ false
    → s.session_id ≡ a.session_id
    → s.sequence ≡ a.sequence
    → IsFirst db.jobs s
unfolding is_blocked
is_blocked-IsFirst a db s free in_session in_place b m session before =
    let clear =
      any_row-false
        (λ (r : JobRow).
          str_eq r.session_id a.session_id
          && (ltb r.sequence a.sequence && not (is_terminal r.status)))
        db.jobs free m in
    let same = (eq_iff b.session_id a.session_id).1 (session ∙ in_session) in
    ground (arith, clear, same, in_place)

started_ticket_start :
    (a : Admission) (now : ℕ) (s : JobRow)
    → is_ticket is_queued a s ≡ true
    → IsStarted s (started_ticket now s)
unfolding is_ticket started_ticket
started_ticket_start a now s h = ground arith

is_ticket-place :
    (a : Admission) (s : JobRow)
    → is_ticket is_queued a s ≡ true
    → (s.session_id ≡ a.session_id) × (s.sequence ≡ a.sequence)
unfolding is_ticket
is_ticket-place a s h = ((eq_iff s.session_id a.session_id).0 (ground arith), ground arith)

start_ticket-Inv :
    (now : ℕ) (a : Admission) (db : Db)
    → is_blocked a db ≡ false
    → Inv db.jobs
    → Inv (after (start_ticket now a db)).jobs
unfolding start_ticket ◌>>=◌ update_jobs pure
start_ticket-Inv now a db free inv =
    update_rows-start-Inv (is_ticket is_queued a) (started_ticket now) db.jobs
      (λ s m h.
        let (session, place) = is_ticket-place a s h in
        (started_ticket_start a now s h, is_blocked-IsFirst a db s free session place))
      inv

admit_guarded-Inv :
    (now : ℕ) (a : Admission) (db : Db) (held : Bool)
    → is_blocked a db ≡ held
    → Inv db.jobs
    → Inv (after (admit_in_transaction now a held db)).jobs
unfolding admit_in_transaction pure
admit_guarded-Inv now a db true e inv = inv
admit_guarded-Inv now a db false e inv = start_ticket-Inv now a db e inv

admit_body-KeepsInv :
    (now : ℕ) (a : Admission) → KeepsInv (query (is_blocked a) >>= admit_in_transaction now a)
unfolding ◌>>=◌ query
admit_body-KeepsInv now a = record { keeps = λ db inv. admit_guarded-Inv now a db _ refl inv }

pub admit-KeepsInv : (now : ℕ) (a : Admission) → KeepsInv (admit now a)
unfolding admit
admit-KeepsInv now a = Keeps-transaction _ (admit_body-KeepsInv now a)

try_admit_guarded-Inv :
    (now : ℕ) (a : Admission) (db : Db) (held : Bool)
    → is_blocked a db ≡ held
    → Inv db.jobs
    → Inv (after (try_admit_in_transaction now a held db)).jobs
unfolding try_admit_in_transaction ◌>>=◌
try_admit_guarded-Inv now a db true e inv =
    (Keeps-then (λ db. Inv db.jobs) (cancel_blocked-KeepsJobs Inv update_rows-Inv now a)
        (Keeps-pure _ _)).keeps
      db inv
try_admit_guarded-Inv now a db false e inv =
    Keeps-outcome (λ db. Inv db.jobs) (start_ticket now a db) _ (λ started. Keeps-pure _ _)
      (start_ticket-Inv now a db e inv)

try_admit_body-KeepsInv :
    (now : ℕ) (a : Admission) → KeepsInv (query (is_blocked a) >>= try_admit_in_transaction now a)
unfolding ◌>>=◌ query
try_admit_body-KeepsInv now a = record {
  keeps = λ db inv. try_admit_guarded-Inv now a db _ refl inv;
}

pub try_admit-KeepsInv : (now : ℕ) (a : Admission) → KeepsInv (try_admit now a)
unfolding try_admit
try_admit-KeepsInv now a = Keeps-transaction _ (try_admit_body-KeepsInv now a)

insert_session-KeepsInv : (row : BotTaskSession) → KeepsInv (insert_session row)
unfolding insert_session
insert_session-KeepsInv row = record {
  keeps = λ db h. unless_exists_keeps (λ db. Inv db.jobs) _ _ db h h;
}

session_or_new-KeepsInv :
    (input : CreateSession) (o : Option BotTaskSession) → KeepsInv (session_or_new input o)
unfolding session_or_new
session_or_new-KeepsInv input (some row) = Keeps-pure _ row
session_or_new-KeepsInv input none =
    Keeps-then _ (insert_session-KeepsInv _)
      (Keeps-bind _ (Keeps-query _ _) (λ created. Keeps-or_throw _ _ _))

create_session-KeepsInv : (input : CreateSession) → KeepsInv (create_session_in_transaction input)
unfolding create_session_in_transaction
create_session-KeepsInv input =
    Keeps-bind _ (Keeps-query _ _) (λ existing. session_or_new-KeepsInv input existing)

touch_session-KeepsInv : (id : String) (at : ℕ) → KeepsInv (touch_session id at)
unfolding touch_session
touch_session-KeepsInv id at = record { keeps = λ db h. h }

pub create_session_and_admission-KeepsInv :
    (env : Ambient) (input : CreateSession) → KeepsInv (create_session_and_admission env input)
unfolding create_session_and_admission
create_session_and_admission-KeepsInv env input = Keeps-transaction _ (
    Keeps-bind _ (create_session-KeepsInv input)
      (λ s. Keeps-bind _ (create_admission-KeepsInv _ _ _ _) (λ a. Keeps-pure _ _)))

resume_found-KeepsInv :
    (env : Ambient) (group : String) (at : ℕ) (o : Option BotTaskSession)
    → KeepsInv (resume_found env group at o)
unfolding resume_found
resume_found-KeepsInv env group at none = Keeps-pure _ none
resume_found-KeepsInv env group at (some row) =
    Keeps-then _ (touch_session-KeepsInv _ _)
      (Keeps-bind _ (create_admission-KeepsInv _ _ _ _) (λ a. Keeps-pure _ _))

pub resume_session_and_admission-KeepsInv :
    (env : Ambient) (handle group bot : String) (at : ℕ)
    → KeepsInv (resume_session_and_admission env handle group bot at)
unfolding resume_session_and_admission resume_in_transaction
resume_session_and_admission-KeepsInv env handle group bot at =
    Keeps-transaction _
      (Keeps-bind _ (Keeps-query _ _) (λ found. resume_found-KeepsInv env group at found))

pub create_session_and_enqueue-KeepsInv :
    (sources : Option Sources) (env : Ambient) (options : EnqueueOptions) (input : CreateSession)
    (payload : Object)
    → KeepsInv (create_session_and_enqueue sources env options input payload)
unfolding create_session_and_enqueue
create_session_and_enqueue-KeepsInv sources env options input payload = Keeps-transaction _ (
    Keeps-bind _ (create_session-KeepsInv input)
      (λ s. Keeps-bind _ (enqueue_in_transaction-KeepsInv _ _ _ _) (λ r. Keeps-pure _ _)))

enqueue_found-KeepsInv :
    (sources : Option Sources) (env : Ambient) (options : EnqueueOptions) (at : ℕ)
    (payload : Object) (o : Option BotTaskSession)
    → KeepsInv (enqueue_found sources env options at payload o)
unfolding enqueue_found
enqueue_found-KeepsInv sources env options at payload none = Keeps-pure _ none
enqueue_found-KeepsInv sources env options at payload (some row) =
    Keeps-then _ (touch_session-KeepsInv _ _) (
      Keeps-bind _ (enqueue_in_transaction-KeepsInv _ _ _ _) (λ r.
        Keeps-bind _ (Keeps-query _ _)
          (λ u. Keeps-bind _ (Keeps-or_throw _ _ _) (λ s. Keeps-pure _ _))))

pub resume_session_and_enqueue-KeepsInv :
    (sources : Option Sources) (env : Ambient) (options : EnqueueOptions)
    (handle group bot : String) (at : ℕ) (payload : Object)
    → KeepsInv (resume_session_and_enqueue sources env options handle group bot at payload)
unfolding resume_session_and_enqueue resume_and_enqueue_in_transaction
resume_session_and_enqueue-KeepsInv sources env options handle group bot at payload =
    Keeps-transaction _
      (Keeps-bind _ (Keeps-query _ _) (λ found. enqueue_found-KeepsInv _ _ _ _ _ found))
