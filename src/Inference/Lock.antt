-- ===== src/Inference/Lock.antt =====
-- The lock of one inference resource: `acquireInferenceLock` of src/queue/inference-lock.ts. One
-- provider owns the resource at a time, and has as many holders as its limit allows.
use my_discord_agent.Base.{
  ltb, ◌==◌, if◌then◌else◌, get_or, is_text, length, any_row, ℕ, zero, suc, ◌+◌, ◌-◌, String, Bool,
  true, false, ◌&&◌, ◌||◌, not, Option, none, some, List, [], ◌∷◌, ◌++◌, str_eq,
}

-- `Infinity`, or a positive number.
pub data Limit : Type 0 where
  unlimited : Limit
  at_most_n : ℕ → Limit

abbrev pub below : ℕ → Limit → Bool
below n unlimited = true
below n (at_most_n k) = ltb n k

abbrev pub same_limit : Limit → Limit → Bool
same_limit unlimited unlimited = true
same_limit (at_most_n a) (at_most_n b) = a == b
same_limit _ _ = false

pub data Concurrency : Type 0 where
  parallel serial : Concurrency
  concurrent : ℕ → Concurrency

unfoldable pub limit_of : Concurrency → Limit
limit_of parallel = unlimited
limit_of serial = at_most_n 1
limit_of (concurrent n) = at_most_n n

-- One call of the function: its number stands for the closures that it makes and for its signal.
pub record Waiter : Type 0 where
  pub call : ℕ
  pub provider : String
  pub limit : Limit

-- How the promise of a call is settled.
pub data Settled : Type 0 where
  granted rejected : ℕ → Settled

-- `OwnedResource`. `holders` are the calls whose release function has not run yet, and `settled` the
-- promises in the order in which they were settled.
pub record OwnedResource : Type 0 where
  pub owner : Option String
  pub active : ℕ
  pub limit : Limit
  pub waiters : List Waiter
  pub holders : List Waiter
  pub settled : List Settled

-- `state.waiters.findIndex((waiter) => waiter.provider === state.owner)`, and the splice.
unfoldable pub take_waiter : Option String → List Waiter → Option (Waiter × List Waiter)
take_waiter owner [] = none
take_waiter owner (w ∷ ws) =
    let rest = take_waiter owner ws in
    if is_text owner w.provider
    then some (w, ws)
    else elim rest [ none ↦ none | some (v, vs) ↦ some (v, w ∷ vs) ]

unfoldable pub has_waiter : Option String → List Waiter → Bool
has_waiter owner ws = any_row (λ (w : Waiter). is_text owner w.provider) ws

-- `grant`. `aborted` tells which signals are aborted at this moment.
unfoldable pub grant : (ℕ → Bool) → Waiter → OwnedResource → OwnedResource
grant aborted w s =
    if aborted w.call then record s { settled = s.settled ++ rejected w.call ∷ [] } else record s {
      active = s.active + 1;
      holders = w ∷ s.holders;
      settled = s.settled ++ granted w.call ∷ [];
    }

-- The head of the outer loop: an idle resource passes to the provider of the first waiter, unless
-- its owner has a waiter.
unfoldable pub choose_owner : Limit → OwnedResource → OwnedResource
choose_owner limit s =
    if (s.active == 0) && not (has_waiter s.owner s.waiters)
    then elim s.waiters [
      | [] ↦ record s { owner = none; limit = limit }
      | w ∷ ws ↦ record s { owner = some w.provider; limit = w.limit }
    ]
    else s

-- The inner loop. Each round takes a waiter out, so the fuel of their number is enough.
unfoldable pub fill : ℕ → (ℕ → Bool) → OwnedResource → OwnedResource
fill zero aborted s = s
fill (suc n) aborted s =
    let next : OwnedResource = elim (take_waiter s.owner s.waiters) [
      | none ↦ s
      | some (w, rest) ↦ fill n aborted (grant aborted w (record s { waiters = rest }))
    ] in
    if below s.active s.limit then next else s

unfoldable pub is_waiting_idle : OwnedResource → Bool
is_waiting_idle s = (s.active == 0) && ltb 0 (length s.waiters)

-- The outer loop, with fuel.
unfoldable pub pump_loop : ℕ → (ℕ → Bool) → Limit → OwnedResource → OwnedResource
pump_loop zero aborted limit s = s
pump_loop (suc n) aborted limit s =
    let t = fill (length s.waiters) aborted (choose_owner limit s) in
    let rest = pump_loop n aborted limit t in if is_waiting_idle t then rest else t

unfoldable pub pump : (ℕ → Bool) → Limit → OwnedResource → OwnedResource
pump aborted limit s = pump_loop (suc (length s.waiters)) aborted limit s

-- The entry of `ownedResources` after a pump: an idle resource is deleted. Nobody holds it and nobody
-- waits for it, so no closure changes the old object again.
unfoldable pub entry_of : OwnedResource → Option OwnedResource
entry_of s = if (s.active == 0) && not (ltb 0 (length s.waiters)) then none else some s

unfoldable pub fresh_resource : Limit → OwnedResource
fresh_resource limit = record {
  owner = none;
  active = 0;
  limit = limit;
  waiters = [];
  holders = [];
  settled = [];
}

unfoldable pub mismatches : Waiter → OwnedResource → Bool
mismatches w s =
    (is_text s.owner w.provider && not (same_limit s.limit w.limit))
    || any_row (λ (v : Waiter). str_eq v.provider w.provider && not (same_limit v.limit w.limit))
        s.waiters

-- What the call itself throws; the entry is then left as it was.
pub data LockError : Type 0 where
  lock_aborted limit_mismatch : LockError

pub data Acquired : Type 0 where
  refused : LockError → Acquired
  queued : OwnedResource → Acquired

-- The state after the waiter was pushed and the pump has run.
unfoldable pub acquire : (ℕ → Bool) → Waiter → Option OwnedResource → Acquired
acquire aborted w entry =
    let s = get_or entry (fresh_resource w.limit) in
    if aborted w.call
    then refused lock_aborted
    else if mismatches w s
    then refused limit_mismatch
    else queued (pump aborted w.limit (record s { waiters = s.waiters ++ w ∷ [] }))

-- The first waiter of a call taken out, if it is there: `indexOf` and `splice`.
unfoldable pub drop_call : ℕ → List Waiter → List Waiter
drop_call call [] = []
drop_call call (w ∷ ws) = let rest = drop_call call ws in if w.call == call then ws else w ∷ rest

unfoldable pub has_call : ℕ → List Waiter → Bool
has_call call ws = any_row (λ (w : Waiter). w.call == call) ws

-- The abort listener of a call.
unfoldable pub abort : (ℕ → Bool) → Waiter → OwnedResource → OwnedResource
abort aborted w s =
    if has_call w.call s.waiters
    then pump aborted w.limit (record s {
      waiters = drop_call w.call s.waiters;
      settled = s.settled ++ rejected w.call ∷ [];
    })
    else s

-- The release function of a call: the second time it does nothing.
unfoldable pub release : (ℕ → Bool) → Waiter → OwnedResource → OwnedResource
release aborted w s =
    if has_call w.call s.holders
    then pump aborted w.limit
        (record s { active = s.active - 1; holders = drop_call w.call s.holders })
    else s
