-- ===== src/Inference/LoanInvariant.antt =====
-- Which states of the slot of src/queue/inference-lock.ts are sound, and its filling.
use my_discord_agent.Base.{
  ltb, ◌==◌, Bool-cases, length, ℕ, zero, suc, ◌≤◌, ◌<◌, ◌≡◌, refl, sym, ap, subst, ◌∙◌, inl, inr,
  Bool, true, false, ◌&&◌, not, List, [], ◌∷◌, ◌++◌, arith,
}
use my_discord_agent.Inference.Loan.{
  Semaphore, held_resource, on_idle, idle_check, call_aborted, lend, lend_freed,
}
use my_discord_agent.Inference.Lock.{Settled, rejected}

pub record LoanInv (s : Semaphore) : Type 0 where
  pub one : s.limit ≡ 1
  pub counts : s.active ≡ length s.lent
  pub at_most : s.active ≤ 1
  pub waits : 0 < length s.waiters → s.active ≡ 1
  pub shut : s.closed ≡ true → length s.waiters ≡ 0
  pub drains : s.drained ≡ (s.closed && (s.active == 0))

pub fresh-LoanInv : LoanInv held_resource
unfolding held_resource
fresh-LoanInv = record {
  one = refl;
  counts = refl;
  at_most = omega arith;
  waits = λ h. absurd (omega arith);
  shut = λ h. refl;
  drains = refl;
}

-- What is settled does not matter.
pub logged-LoanInv :
    (s : Semaphore) (log : List Settled) → LoanInv s → LoanInv (record s { settled = log })
logged-LoanInv s log inv = record {
  one = inv.one;
  counts = inv.counts;
  at_most = inv.at_most;
  waits = inv.waits;
  shut = inv.shut;
  drains = inv.drains;
}

on_idle_open : (s : Semaphore) → s.closed ≡ false → on_idle s ≡ s
unfolding on_idle
on_idle_open s h = rw h refl

pub on_idle_closed : (s : Semaphore) → s.closed ≡ true → on_idle s ≡ record s { drained = true }
unfolding on_idle
on_idle_closed s h = rw h refl

drained-LoanInv :
    (s : Semaphore)
    → s.closed ≡ true
    → s.active ≡ 0
    → LoanInv s
    → LoanInv (record s { drained = true })
drained-LoanInv s shut_now idle inv = record {
  one = inv.one;
  counts = inv.counts;
  at_most = inv.at_most;
  waits = inv.waits;
  shut = inv.shut;
  drains = rw (idle, shut_now) refl;
}

-- An open slot is not drained, and the test for idleness does nothing to it.
idle_check_open : (s : Semaphore) → s.closed ≡ false → idle_check s ≡ s
unfolding idle_check
idle_check_open s h = elim (Bool-cases ((s.active == 0) && not (ltb 0 (length s.waiters)))) [
  | inl idle ↦ rw idle (on_idle_open s h)
  | inr busy ↦ rw busy refl
]

pub call_aborted_open :
    (signals : ℕ → Bool) (call : ℕ) (s : Semaphore)
    → call_aborted signals call s ≡ false
    → s.closed ≡ false
unfolding call_aborted
call_aborted_open signals call s h = ground arith

-- A closed slot that was given back is drained.
pub drained_now :
    (signals : ℕ → Bool) (s : Semaphore)
    → length s.waiters ≡ 0
    → s.closed ≡ true
    → s.limit ≡ 1
    → s.active ≡ 0
    → s.active ≡ length s.lent
    → LoanInv (idle_check (lend_freed (length s.waiters) signals s))
unfolding lend_freed idle_check on_idle
drained_now signals s none_wait shut_now one idle counts = rw none_wait (
    rw (idle, none_wait, shut_now)
      (record {
        one = one;
        counts = sym idle ∙ counts;
        at_most = omega arith;
        waits = λ h. absurd (omega (arith, none_wait, h));
        shut = λ h. none_wait;
        drains = refl;
      }))

-- An open slot, whoever waits.
pub record Filling (s : Semaphore) : Type 0 where
  pub one : s.limit ≡ 1
  pub counts : s.active ≡ length s.lent
  pub at_most : s.active ≤ 1
  pub open_now : s.closed ≡ false
  pub undrained : s.drained ≡ false

pub open-Filling :
    (s : Semaphore) (ws : List ℕ)
    → s.closed ≡ false
    → LoanInv s
    → Filling (record s { waiters = ws })
open-Filling s ws h inv = record {
  one = inv.one;
  counts = inv.counts;
  at_most = inv.at_most;
  open_now = h;
  undrained = let d = inv.drains in ground arith;
}

pub full-LoanInv : (s : Semaphore) → Filling s → (0 < length s.waiters → s.active ≡ 1) → LoanInv s
full-LoanInv s f w = record {
  one = f.one;
  counts = f.counts;
  at_most = f.at_most;
  waits = w;
  shut = λ h. absurd (let o = f.open_now in ground arith);
  drains = let o = f.open_now in let u = f.undrained in rw (o, u) refl;
}

pub lend-Filling :
    (signals : ℕ → Bool) (call : ℕ) (s : Semaphore)
    → ltb s.active s.limit ≡ true
    → Filling s
    → Filling (lend signals call s) × ((lend signals call s).waiters ≡ s.waiters)
unfolding lend
lend-Filling signals call s room f = elim (Bool-cases (call_aborted signals call s)) [
  | inl gone ↦ rw gone (
      rw (idle_check_open (record s { settled = s.settled ++ rejected call ∷ [] }) f.open_now) (
        record {
          one = f.one;
          counts = f.counts;
          at_most = f.at_most;
          open_now = f.open_now;
          undrained = f.undrained;
        },
        refl,
      ))
  | inr here ↦
      let one = f.one in
      let counts = f.counts in
      rw here (
        record {
          one = one;
          counts = omega (arith, counts);
          at_most = ground arith;
          open_now = f.open_now;
          undrained = f.undrained;
        },
        refl,
      )
]

pub lend_freed-LoanInv :
    (n : ℕ) (signals : ℕ → Bool) (s : Semaphore)
    → length s.waiters ≤ n
    → Filling s
    → LoanInv (lend_freed n signals s)
unfolding lend_freed
lend_freed-LoanInv zero signals s enough f =
    full-LoanInv s f (λ h. absurd (omega (arith, enough, h)))
lend_freed-LoanInv (suc n) signals s enough f = elim (Bool-cases (ltb s.active s.limit)) [
  | inr full ↦
      rw full (full-LoanInv s f (λ h. let one = f.one in let most = f.at_most in ground arith))
  | inl room ↦ rw room (next room s.waiters refl (lend_freed-LoanInv n signals))
]
  where
    next :
        ltb s.active s.limit ≡ true
        → (ws : List ℕ) → s.waiters ≡ ws
        → ((t : Semaphore) → length t.waiters ≤ n → Filling t → LoanInv (lend_freed n signals t))
        → LoanInv (elim ws as (λ _. Semaphore) [
          | [] ↦ s
          | w ∷ ws ↦ lend_freed n signals (lend signals w (record s { waiters = ws }))
        ])
    next room [] e later =
        full-LoanInv s f (λ h. absurd (let none_left = ap length e in omega (arith, none_left, h)))
    next room (w ∷ ws) e later =
        let left : Semaphore = record s { waiters = ws } in
        let (g, same) = lend-Filling signals w left room (record {
          one = f.one;
          counts = f.counts;
          at_most = f.at_most;
          open_now = f.open_now;
          undrained = f.undrained;
        }) in
        let size = ap length same in
        let before = ap length e in
        later (lend signals w left) (omega (arith, size, before, enough)) g

pub idle_check-LoanInv : (s : Semaphore) → LoanInv s → LoanInv (idle_check s)
unfolding idle_check
idle_check-LoanInv s inv = elim (Bool-cases ((s.active == 0) && not (ltb 0 (length s.waiters)))) [
  | inr busy ↦ rw busy inv
  | inl idle ↦ elim (Bool-cases s.closed) [
    | inr open_now ↦ rw idle (subst LoanInv (sym (on_idle_open s open_now)) inv)
    | inl shut_now ↦ rw idle (
        subst LoanInv (sym (on_idle_closed s shut_now))
          (drained-LoanInv s shut_now (ground arith) inv))
  ]
]
