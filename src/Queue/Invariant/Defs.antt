-- ===== src/Queue/Invariant/Defs.antt =====
-- What holds of the table `jobs` between two operations of src/queue/repository.ts.
use my_discord_agent.Base.{Unique, ◌≤◌, ◌<◌, ◌≡◌, true, false, none, List, map, Memᴰ}
use my_discord_agent.Queue.Rows.{is_active, is_terminal, is_waiting, JobRow}

-- One row by itself.
pub record RowInv (r : JobRow) : Type 0 where
  pub capped : r.attempts ≤ r.max_attempts
  pub unleased : is_waiting r.status ≡ true → r.lease_until ≡ none
  pub unadopted : is_terminal r.status ≡ false → r.result_json ≡ none

-- Ids are keys, sequence numbers are keys within a session, and every job that stands before an
-- active job of its session has ended.
pub record Inv (jobs : List JobRow) : Type 0 where
  pub ids : Unique (map (λ r. r.id) jobs)
  pub numbered :
      (a b : JobRow)
      → Memᴰ a jobs
      → Memᴰ b jobs
      → a.session_id ≡ b.session_id
      → a.sequence ≡ b.sequence
      → a.id ≡ b.id
  pub serial :
      (a b : JobRow)
      → Memᴰ a jobs
      → Memᴰ b jobs
      → a.session_id ≡ b.session_id
      → is_active a.status ≡ true
      → b.sequence < a.sequence
      → is_terminal b.status ≡ true
  pub rows : (a : JobRow) → Memᴰ a jobs → RowInv a
