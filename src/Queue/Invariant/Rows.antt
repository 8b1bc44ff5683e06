-- ===== src/Queue/Invariant/Rows.antt =====
-- Each SET clause of the calm operations, as a change of one row.
use my_discord_agent.Base.{ℕ, String, ◌≡◌, true, Option, arith}
use my_discord_agent.Queue.Admission.{ended_ticket}
use my_discord_agent.Queue.Commit.{CommitOptions, completed_row, with_delivery}
use my_discord_agent.Queue.Fenced.{
  holds, touched, with_payload, running_row, beating_row, frozen_row,
}
use my_discord_agent.Queue.Finish.{dead_row, exhausted_row, retried_row}
use my_discord_agent.Queue.Invariant.Calm.{IsCalm}
use my_discord_agent.Queue.Metadata.{ExecutionMetadata}
use my_discord_agent.Queue.Payload.{Object}
use my_discord_agent.Queue.Recover.{recovered_row}
use my_discord_agent.Queue.Rows.{JobStatus, is_terminal, ResultValue, JobRow}
use my_discord_agent.Queue.Store.{Ambient}

pub heartbeat-IsCalm :
    (id : String) (token now lease_ms : ℕ) (s : JobRow)
    → holds id token s ≡ true
    → IsCalm s (touched now (beating_row now lease_ms) s)
unfolding holds touched beating_row
heartbeat-IsCalm id token now lease_ms s h = ground arith

pub running-IsCalm :
    (id : String) (token now : ℕ) (started : Option ℕ) (m : ExecutionMetadata) (s : JobRow)
    → holds id token s ≡ true
    → IsCalm s (touched now (running_row now started m) s)
unfolding holds touched running_row
running-IsCalm id token now started m s h = ground arith

pub payload-IsCalm : (now : ℕ) (o : Object) (s : JobRow) → IsCalm s (touched now (with_payload o) s)
unfolding touched with_payload
payload-IsCalm now o s = ground arith

pub frozen-IsCalm :
    (now : ℕ) (a b : String) (o : Object) (s : JobRow) → IsCalm s (frozen_row now a b o s)
unfolding frozen_row
frozen-IsCalm now a b o s = ground arith

pub dead-IsCalm :
    (id : String) (token now : ℕ) (reason : String) (error : Option String) (m : ExecutionMetadata)
    (s : JobRow)
    → holds id token s ≡ true
    → IsCalm s (touched now (dead_row reason error m) s)
unfolding holds touched dead_row
dead-IsCalm id token now reason error m s h = ground arith

pub exhausted-IsCalm :
    (now : ℕ) (reason error : String) (s : JobRow) → IsCalm s (exhausted_row now reason error s)
unfolding exhausted_row
exhausted-IsCalm now reason error s = ground arith

pub retried-IsCalm :
    (id : String) (token now delay : ℕ) (why : String) (m : ExecutionMetadata) (s : JobRow)
    → holds id token s ≡ true
    → IsCalm s (touched now (retried_row now delay why m) s)
unfolding holds touched retried_row
retried-IsCalm id token now delay why m s h = ground arith

pub recovered-IsCalm :
    (id : String) (token now : ℕ) (s : JobRow)
    → holds id token s ≡ true
    → IsCalm s (recovered_row now s)
unfolding holds recovered_row
recovered-IsCalm id token now s h = ground arith

pub completed-IsCalm :
    (id : String) (token : ℕ) (env : Ambient) (options : CommitOptions) (result : ResultValue)
    (s : JobRow)
    → holds id token s ≡ true
    → IsCalm s (completed_row env options result s)
unfolding holds completed_row
completed-IsCalm id token env options result s h = ground arith

pub linked-IsCalm : (d : String) (s : JobRow) → IsCalm s (with_delivery d s)
unfolding with_delivery
linked-IsCalm d s = ground arith

pub ticket-IsCalm :
    (status : JobStatus) (reason : Option String) (now : ℕ) (s : JobRow)
    → is_terminal status ≡ true
    → IsCalm s (ended_ticket status reason now s)
unfolding ended_ticket
ticket-IsCalm status reason now s h = ground arith

pub patched-IsCalm : (o : Object) (s : JobRow) → IsCalm s (with_payload o s)
unfolding with_payload
patched-IsCalm o s = ground arith
