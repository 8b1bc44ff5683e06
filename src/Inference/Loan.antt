-- ===== src/Inference/Loan.antt =====
-- The slot that a parent lends to one child at a time: the first `acquire` and
-- `createHeldInferenceResource` of src/queue/inference-lock.ts.
use my_discord_agent.Base.{
  ltb, ◌==◌, if◌then◌else◌, length, any_row, ℕ, zero, suc, ◌+◌, ◌-◌, Bool, true, false, ◌&&◌, ◌||◌,
  not, List, [], ◌∷◌, ◌++◌,
}
use my_discord_agent.Inference.Lock.{Settled, granted, rejected}

-- `SemaphoreState`, with the closures of the held resource: `closed` is `controller.signal.aborted`,
-- and `drained` tells whether the promise of `close` is resolved. A waiter is the number of its call;
-- a call is unsettled as long as it waits. `lent` are the calls whose release has not run yet.
pub record Semaphore : Type 0 where
  pub active : ℕ
  pub limit : ℕ
  pub waiters : List ℕ
  pub lent : List ℕ
  pub settled : List Settled
  pub closed : Bool
  pub drained : Bool

unfoldable pub held_resource : Semaphore
held_resource = record {
  active = 0;
  limit = 1;
  waiters = [];
  lent = [];
  settled = [];
  closed = false;
  drained = false;
}

-- The `onIdle` of `borrow`, and the test before each call of it.
unfoldable pub on_idle : Semaphore → Semaphore
on_idle s = if s.closed then record s { drained = true } else s

unfoldable pub idle_check : Semaphore → Semaphore
idle_check s = if (s.active == 0) && not (ltb 0 (length s.waiters)) then on_idle s else s

-- `AbortSignal.any([controller.signal, signal])`, for a call with its own signal.
unfoldable pub call_aborted : (ℕ → Bool) → ℕ → Semaphore → Bool
call_aborted signals call s = s.closed || signals call

unfoldable pub drop_number : ℕ → List ℕ → List ℕ
drop_number call [] = []
drop_number call (w ∷ ws) = let rest = drop_number call ws in if w == call then ws else w ∷ rest

unfoldable pub has_number : ℕ → List ℕ → Bool
has_number call ws = any_row (λ (w : ℕ). w == call) ws

-- The abort listener of a call.
unfoldable pub abort_borrow : ℕ → Semaphore → Semaphore
abort_borrow call s =
    if has_number call s.waiters
    then idle_check (record s {
      waiters = drop_number call s.waiters;
      settled = s.settled ++ rejected call ∷ [];
    })
    else s

-- `grant` of a call that is not among the waiters any more.
unfoldable pub lend : (ℕ → Bool) → ℕ → Semaphore → Semaphore
lend signals call s =
    if call_aborted signals call s
    then idle_check (record s { settled = s.settled ++ rejected call ∷ [] })
    else record s {
      active = s.active + 1;
      lent = call ∷ s.lent;
      settled = s.settled ++ granted call ∷ [];
    }

unfoldable pub borrow : (ℕ → Bool) → ℕ → Semaphore → Semaphore
borrow signals call s =
    if call_aborted signals call s
    then record s { settled = s.settled ++ rejected call ∷ [] }
    else if ltb s.active s.limit
    then lend signals call s
    else record s { waiters = s.waiters ++ call ∷ [] }

-- The loop of the release function: each round shifts a waiter, so the fuel of their number is enough.
unfoldable pub lend_freed : ℕ → (ℕ → Bool) → Semaphore → Semaphore
lend_freed zero signals s = s
lend_freed (suc n) signals s =
    let next : Semaphore = elim s.waiters [
      | [] ↦ s
      | w ∷ ws ↦ lend_freed n signals (lend signals w (record s { waiters = ws }))
    ] in
    if ltb s.active s.limit then next else s

unfoldable pub give_back : (ℕ → Bool) → ℕ → Semaphore → Semaphore
give_back signals call s =
    if has_number call s.lent
    then idle_check (
        lend_freed (length s.waiters) signals
          (record s { active = s.active - 1; lent = drop_number call s.lent }))
    else s

-- The abort listeners of some calls, in the order in which they run.
unfoldable pub abort_borrows : List ℕ → Semaphore → Semaphore
abort_borrows [] s = s
abort_borrows (call ∷ calls) s = abort_borrows calls (abort_borrow call s)

-- `close`. The platform runs the listeners of the combined signals in the order `listeners`.
unfoldable pub close : List ℕ → Semaphore → Semaphore
close listeners s =
    let t = abort_borrows listeners (record s { closed = true }) in
    if t.active == 0 then record t { drained = true } else t
