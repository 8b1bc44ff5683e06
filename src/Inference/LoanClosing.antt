-- ===== src/Inference/LoanClosing.antt =====
-- The closing of the slot of src/queue/inference-lock.ts.
use my_discord_agent.Base.{
  ltb, ◌==◌, if◌then◌else◌, Bool-cases, length, any_row, ℕ, suc, ◌-◌, ◌≤◌, ◌≡◌, refl, sym, ap,
  subst, inl, inr, Bool, true, false, ◌&&◌, not, List, [], ◌∷◌, arith,
}
use my_discord_agent.Inference.Loan.{
  Semaphore, idle_check, drop_number, has_number, abort_borrow, abort_borrows, close,
}
use my_discord_agent.Inference.LoanInvariant.{LoanInv, on_idle_closed}

unfoldable pub count_number : ℕ → List ℕ → ℕ
count_number call [] = 0
count_number call (w ∷ ws) = let rest = count_number call ws in if w == call then suc rest else rest

drop_number_absent :
    (call : ℕ) (ws : List ℕ) → has_number call ws ≡ false → drop_number call ws ≡ ws
unfolding drop_number has_number any_row
drop_number_absent call [] h = refl
drop_number_absent call (w ∷ ws) h = elim (Bool-cases (w == call)) [
  | inl hit ↦ absurd (ground (arith, hit))
  | inr miss ↦ rw miss (ap (◌∷◌ w) (drop_number_absent call ws (ground (arith, miss))))
]

no_numbers : (ws : List ℕ) → ((w : ℕ) → count_number w ws ≤ 0) → length ws ≡ 0
unfolding count_number
no_numbers [] h = refl
no_numbers (w ∷ ws) h = absurd (let one = h w in ground arith)

-- A call that is dropped has one place less.
count_number_less :
    (call w : ℕ) (ws : List ℕ)
    → (count_number w (drop_number call ws) ≤ count_number w ws)
      × (call ≡ w → count_number w (drop_number call ws) ≡ count_number w ws - 1)
unfolding count_number drop_number
count_number_less call w [] = (omega arith, (λ e. refl))
count_number_less call w (x ∷ ws) =
    let (less, one) = count_number_less call w ws in
    elim (Bool-cases (x == call)) [
      | inl hit ↦ rw hit (ground arith, (λ e. ground arith))
      | inr miss ↦ rw miss (ground arith, (λ e. let o = one e in ground arith))
    ]

count_number-drop :
    (call w : ℕ) (ws calls : List ℕ)
    → count_number w ws ≤ count_number w (call ∷ calls)
    → count_number w (drop_number call ws) ≤ count_number w calls
unfolding count_number
count_number-drop call w ws calls h =
    let (less, one) = count_number_less call w ws in
    elim (Bool-cases (call == w)) [
      | inl hit ↦ let o = one (ground arith) in ground arith
      | inr miss ↦ ground arith
    ]

not_drained : (b : Bool) → (b ≡ true → ⊥) → b ≡ false
not_drained true no_way = absurd (no_way refl)
not_drained false no_way = refl

-- A slot that is being closed.
record Closing (s : Semaphore) : Type 0 where
  one : s.limit ≡ 1
  counts : s.active ≡ length s.lent
  at_most : s.active ≤ 1
  closed_now : s.closed ≡ true
  idle : s.drained ≡ true → s.active ≡ 0

idle_check-Closing :
    (s : Semaphore) → Closing s → Closing (idle_check s) × ((idle_check s).waiters ≡ s.waiters)
unfolding idle_check
idle_check-Closing s c = elim (Bool-cases ((s.active == 0) && not (ltb 0 (length s.waiters)))) [
  | inr busy ↦ rw busy (c, refl)
  | inl idle ↦ rw idle (
      subst (λ t. Closing t × (t.waiters ≡ s.waiters)) (sym (on_idle_closed s c.closed_now))
        (
          record {
            one = c.one;
            counts = c.counts;
            at_most = c.at_most;
            closed_now = c.closed_now;
            idle = λ h. ground arith;
          },
          refl,
        ))
]

abort_borrow-Closing :
    (call : ℕ) (s : Semaphore)
    → Closing s
    → Closing (abort_borrow call s) × ((abort_borrow call s).waiters ≡ drop_number call s.waiters)
unfolding abort_borrow
abort_borrow-Closing call s c = elim (Bool-cases (has_number call s.waiters)) [
  | inr absent ↦ rw absent (c, sym (drop_number_absent call s.waiters absent))
  | inl waiting ↦ rw waiting (
      idle_check-Closing _ (record {
        one = c.one;
        counts = c.counts;
        at_most = c.at_most;
        closed_now = c.closed_now;
        idle = c.idle;
      }))
]

abort_borrows-Closing :
    (calls : List ℕ) (s : Semaphore)
    → ((w : ℕ) → count_number w s.waiters ≤ count_number w calls)
    → Closing s
    → Closing (abort_borrows calls s) × (length (abort_borrows calls s).waiters ≡ 0)
unfolding abort_borrows count_number
abort_borrows-Closing [] s covers c = (c, no_numbers s.waiters covers)
abort_borrows-Closing (call ∷ calls) s covers c =
    let (d, same) = abort_borrow-Closing call s c in
    abort_borrows-Closing calls (abort_borrow call s)
      (λ w.
        subst (λ ws. count_number w ws ≤ count_number w calls) (sym same)
          (count_number-drop call w s.waiters calls (covers w)))
      d

pub close-LoanInv :
    (listeners : List ℕ) (s : Semaphore)
    → ((w : ℕ) → count_number w s.waiters ≤ count_number w listeners)
    → LoanInv s
    → LoanInv (close listeners s)
unfolding close
close-LoanInv listeners s covers inv =
    let (c, empty) =
      abort_borrows-Closing listeners (record s { closed = true }) covers
        (record {
          one = inv.one;
          counts = inv.counts;
          at_most = inv.at_most;
          closed_now = refl;
          idle = λ h. let d = inv.drains in ground arith;
        }) in
    closed_up (abort_borrows listeners (record s { closed = true })) c empty
  where
    closed_up :
        (t : Semaphore)
        → Closing t
        → length t.waiters ≡ 0
        → LoanInv (if t.active == 0 then record t { drained = true } else t)
    closed_up t c empty = elim (Bool-cases (t.active == 0)) [
      | inl idle ↦ rw idle (record {
        one = c.one;
        counts = c.counts;
        at_most = c.at_most;
        waits = λ h. absurd (omega (arith, empty, h));
        shut = λ h. empty;
        drains = rw (c.closed_now, idle) refl;
      })
      | inr busy ↦ rw busy (record {
        one = c.one;
        counts = c.counts;
        at_most = c.at_most;
        waits = λ h. absurd (omega (arith, empty, h));
        shut = λ h. empty;
        drains =
            rw (c.closed_now, busy) (not_drained t.drained (λ h. let z = c.idle h in ground arith));
      })
    ]
