-- ===== src/Inference/Tests.antt =====
-- Concrete runs of the lock and of the slot of src/queue/inference-lock.ts.
use my_discord_agent.Base.{
  ◌==◌, length, any_row, ℕ, ◌≤◌, ◌<◌, ◌≡◌, refl, Bool, true, false, ◌&&◌, none, some, [], ◌∷◌, Memᴰ,
  arith,
}
use my_discord_agent.Inference.Loan.{
  Semaphore, held_resource, idle_check, call_aborted, drop_number, has_number, abort_borrow, lend,
  borrow, abort_borrows, close,
}
use my_discord_agent.Inference.LoanReached.{
  LoanReached, fresh_loan, borrowed, closed_loan, slot_is_lent_once,
}
use my_discord_agent.Inference.Lock.{
  queued, unlimited, at_most_n, below, Waiter, granted, rejected, OwnedResource, take_waiter,
  has_waiter, grant, choose_owner, fill, is_waiting_idle, pump_loop, pump, entry_of, fresh_resource,
  mismatches, limit_mismatch, refused, acquire, drop_call, has_call, release,
}
use my_discord_agent.Inference.LockInvariant.{within}
use my_discord_agent.Inference.LockReached.{
  LockReached, nobody, acquired, holders_agree, nobody_is_left,
}

abbrev nobody_aborts : ℕ → Bool
nobody_aborts n = false

abbrev first_in : Waiter
first_in = record { call = 1; provider = "local"; limit = at_most_n 2 }

abbrev second : Waiter
second = record { call = 2; provider = "local"; limit = at_most_n 2 }

abbrev stranger : Waiter
stranger = record { call = 3; provider = "other"; limit = at_most_n 1 }

abbrev one_holds : OwnedResource
one_holds = record {
  owner = some "local";
  active = 1;
  limit = at_most_n 2;
  waiters = [];
  holders = first_in ∷ [];
  settled = granted 1 ∷ [];
}

abbrev two_hold : OwnedResource
two_hold = record {
  owner = some "local";
  active = 2;
  limit = at_most_n 2;
  waiters = [];
  holders = second ∷ first_in ∷ [];
  settled = granted 1 ∷ granted 2 ∷ [];
}

abbrev one_waits : OwnedResource
one_waits = record {
  owner = some "local";
  active = 2;
  limit = at_most_n 2;
  waiters = stranger ∷ [];
  holders = second ∷ first_in ∷ [];
  settled = granted 1 ∷ granted 2 ∷ [];
}

abbrev passed_on : OwnedResource
passed_on = record {
  owner = some "other";
  active = 1;
  limit = at_most_n 1;
  waiters = [];
  holders = stranger ∷ [];
  settled = granted 1 ∷ granted 2 ∷ granted 3 ∷ [];
}

first_call : acquire nobody_aborts first_in none ≡ queued one_holds
unfolding acquire pump pump_loop fill choose_owner grant fresh_resource mismatches take_waiter
    has_waiter is_waiting_idle any_row
first_call = refl

stranger_waits : acquire nobody_aborts stranger (some two_hold) ≡ queued one_waits
unfolding acquire pump pump_loop fill choose_owner grant mismatches take_waiter has_waiter
    is_waiting_idle any_row
stranger_waits = refl

-- A limit that differs from the owner's is refused.
other_limit :
    acquire nobody_aborts (record second { limit = unlimited }) (some one_holds)
    ≡ refused limit_mismatch
unfolding acquire mismatches any_row
other_limit = refl

resource_passes :
    release nobody_aborts second (release nobody_aborts first_in one_waits) ≡ passed_on
unfolding release pump pump_loop fill choose_owner grant take_waiter has_waiter is_waiting_idle
    any_row has_call drop_call
resource_passes = refl

two_hold-LockReached : LockReached (some two_hold)
unfolding acquire pump pump_loop fill choose_owner grant fresh_resource mismatches take_waiter
    has_waiter is_waiting_idle any_row entry_of
two_hold-LockReached =
    acquired {entry = some one_holds} {s = two_hold} nobody_aborts second
      (acquired {s = one_holds} nobody_aborts first_in nobody refl refl) refl refl

one_waits-LockReached : LockReached (some one_waits)
unfolding acquire pump pump_loop fill choose_owner grant fresh_resource mismatches take_waiter
    has_waiter is_waiting_idle any_row entry_of
one_waits-LockReached =
    acquired {entry = some two_hold} {s = one_waits} nobody_aborts stranger two_hold-LockReached
      refl refl

holders_agree_example :
    (two_hold.active ≡ length two_hold.holders)
    × ((a b : Waiter)
        → Memᴰ a (second ∷ first_in ∷ [])
        → Memᴰ b (second ∷ first_in ∷ [])
        → (a.provider ≡ b.provider) × (a.limit ≡ b.limit) × (within 2 a.limit ≡ true))
holders_agree_example = holders_agree two_hold-LockReached

nobody_is_left_example :
    (is_waiting_idle one_waits ≡ false)
    × (below 2 (at_most_n 2) ≡ true → has_waiter (some "local") (stranger ∷ []) ≡ false)
nobody_is_left_example = nobody_is_left one_waits-LockReached

abbrev lent_twice : Semaphore
lent_twice = record held_resource {
  active = 1;
  lent = 1 ∷ [];
  waiters = 2 ∷ [];
  settled = granted 1 ∷ [];
}

abbrev closed_lent : Semaphore
closed_lent = record held_resource {
  active = 1;
  lent = 1 ∷ [];
  settled = granted 1 ∷ rejected 2 ∷ [];
  closed = true;
}

second_waits : borrow nobody_aborts 2 (borrow nobody_aborts 1 held_resource) ≡ lent_twice
unfolding borrow lend call_aborted held_resource
second_waits = refl

close_rejects : close (2 ∷ []) lent_twice ≡ closed_lent
unfolding close abort_borrows abort_borrow idle_check held_resource has_number any_row drop_number
close_rejects = refl

closed_lent-LoanReached : LoanReached closed_lent
unfolding close abort_borrows abort_borrow idle_check held_resource has_number any_row drop_number
    borrow lend call_aborted
closed_lent-LoanReached =
    closed_loan {s = lent_twice} (2 ∷ []) (λ w. omega arith)
      (borrowed {s = record held_resource { active = 1; lent = 1 ∷ []; settled = granted 1 ∷ [] }}
        nobody_aborts 2 (borrowed nobody_aborts 1 fresh_loan))

slot_is_lent_once_example :
    (length closed_lent.lent ≤ 1)
    × (0 < length closed_lent.waiters → length closed_lent.lent ≡ 1)
    × (closed_lent.closed ≡ true → length closed_lent.waiters ≡ 0)
    × (closed_lent.drained ≡ (closed_lent.closed && (length closed_lent.lent == 0)))
slot_is_lent_once_example = slot_is_lent_once closed_lent-LoanReached
