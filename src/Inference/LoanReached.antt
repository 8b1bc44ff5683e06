-- ===== src/Inference/LoanReached.antt =====
-- The states of the slot of src/queue/inference-lock.ts that a parent lends.
use my_discord_agent.Base.{
  ◌==◌, length, ℕ, ◌≤◌, ◌<◌, ◌≡◌, sym, ap, ◌∙◌, Bool, true, ◌&&◌, List, arith,
}
use my_discord_agent.Inference.Loan.{
  Semaphore, held_resource, abort_borrow, borrow, give_back, close,
}
use my_discord_agent.Inference.LoanClosing.{count_number, close-LoanInv}
use my_discord_agent.Inference.LoanInvariant.{LoanInv, fresh-LoanInv}
use my_discord_agent.Inference.LoanSteps.{borrow-LoanInv, give_back-LoanInv, abort_borrow-LoanInv}

-- The states after some borrows, aborts, releases and closes. Every waiter has its own abort
-- listener, so `close` runs at least as many listeners of a call as it has waiters.
pub data LoanReached : Semaphore → Type 0 where
  fresh_loan : LoanReached held_resource
  borrowed :
      {s : Semaphore} (signals : ℕ → Bool) (call : ℕ)
      → LoanReached s
      → LoanReached (borrow signals call s)
  aborted_borrow : {s : Semaphore} (call : ℕ) → LoanReached s → LoanReached (abort_borrow call s)
  given_back :
      {s : Semaphore} (signals : ℕ → Bool) (call : ℕ)
      → LoanReached s
      → LoanReached (give_back signals call s)
  closed_loan :
      {s : Semaphore} (listeners : List ℕ)
      → ((w : ℕ) → count_number w s.waiters ≤ count_number w listeners)
      → LoanReached s
      → LoanReached (close listeners s)

reached-LoanInv : {s : Semaphore} → LoanReached s → LoanInv s
reached-LoanInv fresh_loan = fresh-LoanInv
reached-LoanInv (borrowed signals call r) = borrow-LoanInv signals call _ (reached-LoanInv r)
reached-LoanInv (aborted_borrow call r) = abort_borrow-LoanInv call _ (reached-LoanInv r)
reached-LoanInv (given_back signals call r) = give_back-LoanInv signals call _ (reached-LoanInv r)
reached-LoanInv (closed_loan listeners covers r) =
    close-LoanInv listeners _ covers (reached-LoanInv r)

-- In every state that borrows, aborts, releases and closes can reach, the slot is lent to at most one
-- call, a call waits only while the slot is lent, a closed slot has no waiter, and `close` is resolved
-- when and only when the slot is closed and not lent.
pub slot_is_lent_once :
    {s : Semaphore}
    → LoanReached s
    → (length s.lent ≤ 1)
      × (0 < length s.waiters → length s.lent ≡ 1)
      × (s.closed ≡ true → length s.waiters ≡ 0)
      × (s.drained ≡ (s.closed && (length s.lent == 0)))
slot_is_lent_once {s} r =
    let inv = reached-LoanInv r in
    let counts = inv.counts in
    let most = inv.at_most in
    (
      omega (arith, counts, most),
      (λ h. sym counts ∙ inv.waits h),
      inv.shut,
      inv.drains ∙ ap (λ n. s.closed && (n == 0)) counts,
    )
