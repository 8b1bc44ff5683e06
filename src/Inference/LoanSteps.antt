-- ===== src/Inference/LoanSteps.antt =====
-- The steps of the slot of src/queue/inference-lock.ts on sound states.
use my_discord_agent.Base.{
  ltb, ◌==◌, Bool-cases, length, any_row, ℕ, suc, ◌-◌, ◌≡◌, refl, ap, inl, inr, Bool, true, false,
  List, [], ◌∷◌, arith,
}
use my_discord_agent.Inference.Loan.{
  Semaphore, call_aborted, drop_number, has_number, abort_borrow, borrow, give_back,
}
use my_discord_agent.Inference.LoanInvariant.{
  LoanInv, logged-LoanInv, call_aborted_open, drained_now, Filling, open-Filling, full-LoanInv,
  lend-Filling, lend_freed-LoanInv, idle_check-LoanInv,
}

length-drop_number :
    (call : ℕ) (ws : List ℕ)
    → has_number call ws ≡ true
    → length ws ≡ suc (length (drop_number call ws))
unfolding drop_number has_number any_row
length-drop_number call [] h = cc
length-drop_number call (w ∷ ws) h = elim (Bool-cases (w == call)) [
  | inl hit ↦ rw hit refl
  | inr miss ↦ rw miss (ap suc (length-drop_number call ws (ground (arith, miss))))
]

pub borrow-LoanInv :
    (signals : ℕ → Bool) (call : ℕ) (s : Semaphore) → LoanInv s → LoanInv (borrow signals call s)
unfolding borrow
borrow-LoanInv signals call s inv = elim (Bool-cases (call_aborted signals call s)) [
  | inl gone ↦ rw gone (logged-LoanInv s _ inv)
  | inr here ↦
      let open_now : s.closed ≡ false = call_aborted_open signals call s here in
      let f : Filling s = open-Filling s s.waiters open_now inv in
      elim (Bool-cases (ltb s.active s.limit)) [
        | inr full ↦
            rw (here, full)
              (full-LoanInv _ (open-Filling s _ open_now inv)
                (λ h. let one = inv.one in let most = inv.at_most in ground arith))
        | inl room ↦
            let (g, same) = lend-Filling signals call s room f in
            let size = ap length same in
            rw (here, room)
              (full-LoanInv _ g (λ h.
                absurd (
                  let one = inv.one in let w = inv.waits (omega (arith, size, h)) in ground arith)))
      ]
]

pub give_back-LoanInv :
    (signals : ℕ → Bool) (call : ℕ) (s : Semaphore) → LoanInv s → LoanInv (give_back signals call s)
unfolding give_back
give_back-LoanInv signals call s inv = elim (Bool-cases (has_number call s.lent)) [
  | inr absent ↦ rw absent inv
  | inl held ↦
      let size = length-drop_number call s.lent held in
      let counts = inv.counts in
      let most = inv.at_most in
      let left : Semaphore = record s { active = s.active - 1; lent = drop_number call s.lent } in
      elim (Bool-cases s.closed) [
        | inr open_now ↦ rw held (
            idle_check-LoanInv _ (
              lend_freed-LoanInv (length s.waiters) signals left (omega arith) (record {
                one = inv.one;
                counts = omega (arith, counts, size);
                at_most = omega (arith, most);
                open_now = open_now;
                undrained = let d = inv.drains in ground arith;
              })))
        | inl shut_now ↦ rw held (
            drained_now signals left (inv.shut shut_now) shut_now inv.one
              (omega (arith, counts, size, most)) (omega (arith, counts, size)))
      ]
]

pub abort_borrow-LoanInv : (call : ℕ) (s : Semaphore) → LoanInv s → LoanInv (abort_borrow call s)
unfolding abort_borrow
abort_borrow-LoanInv call s inv = elim (Bool-cases (has_number call s.waiters)) [
  | inr absent ↦ rw absent inv
  | inl waiting ↦
      let size = length-drop_number call s.waiters waiting in
      rw waiting (
        idle_check-LoanInv _ (record {
          one = inv.one;
          counts = inv.counts;
          at_most = inv.at_most;
          waits = λ h. inv.waits (omega (arith, size));
          shut = λ h. absurd (let none_left = inv.shut h in omega (arith, size, none_left));
          drains = inv.drains;
        }))
]
