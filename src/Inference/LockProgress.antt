-- ===== src/Inference/LockProgress.antt =====
-- The pump of the lock of src/queue/inference-lock.ts: where its loops stop.
use my_discord_agent.Base.{
  ◌==◌, Bool-cases, Option-cases, is_text, length, any_row, ℕ, zero, suc, ◌≤◌, ◌<◌, String, ◌≡◌,
  refl, sym, ap, subst, ◌∙◌, inl, inr, Bool, true, false, ◌&&◌, ◌||◌, not, Option, none, some, List,
  [], ◌∷◌, arith, eq_iff,
}
use my_discord_agent.Inference.Lock.{
  Limit, below, Waiter, OwnedResource, take_waiter, has_waiter, grant, choose_owner, fill,
  is_waiting_idle, pump_loop, pump,
}
use my_discord_agent.Inference.LockInvariant.{
  LockInv, take_waiter-some, fill-LockInv, choose_owner-LockInv,
}

-- Somebody waits for nothing: the owner has room and a waiter, or nobody holds the resource.
unfoldable pub is_stuck : OwnedResource → Bool
is_stuck s = (below s.active s.limit && has_waiter s.owner s.waiters) || is_waiting_idle s

take_waiter-none :
    (owner : Option String) (ws : List Waiter)
    → take_waiter owner ws ≡ none
    → has_waiter owner ws ≡ false
unfolding take_waiter has_waiter any_row
take_waiter-none owner [] e = refl
take_waiter-none owner (w ∷ ws) e = elim (Bool-cases (is_text owner w.provider)) [
  | inl mine ↦ absurd (ground (arith, mine))
  | inr other ↦ elim (Option-cases (take_waiter owner ws)) [
    | inl nothing ↦ rw other (take_waiter-none owner ws nothing)
    | inr ((v, vs), found) ↦ absurd (ground (arith, other, found))
  ]
]

no_waiter : (o : Option String) (ws : List Waiter) → length ws ≡ 0 → has_waiter o ws ≡ false
unfolding has_waiter any_row
no_waiter o [] e = refl
no_waiter o (w ∷ ws) e = absurd (omega arith)

first_waiter : (w : Waiter) (ws : List Waiter) → has_waiter (some w.provider) (w ∷ ws) ≡ true
unfolding has_waiter any_row
first_waiter w ws = rw ((eq_iff w.provider w.provider).1 refl) refl

idle_waits :
    (s : OwnedResource) → is_waiting_idle s ≡ true → (s.active ≡ 0) × (0 < length s.waiters)
unfolding is_waiting_idle
idle_waits s h = (ground arith, ground arith)

module _ (aborted : ℕ → Bool) where
  grant_keeps :
      (w : Waiter) (s : OwnedResource)
      → ((grant aborted w s).waiters ≡ s.waiters)
        × (s.active ≤ (grant aborted w s).active)
        × ((grant aborted w s).owner ≡ s.owner)
        × ((grant aborted w s).limit ≡ s.limit)
  unfolding grant
  grant_keeps w s = elim (Bool-cases (aborted w.call)) [
    | inl gone ↦ rw gone (refl, omega arith, refl, refl)
    | inr here ↦ rw here (refl, omega arith, refl, refl)
  ]

  fill_bounds :
      (n : ℕ) (s : OwnedResource)
      → (length (fill n aborted s).waiters ≤ length s.waiters)
        × (s.active ≤ (fill n aborted s).active)
  unfolding fill
  fill_bounds zero s = (omega arith, omega arith)
  fill_bounds (suc n) s = elim (Bool-cases (below s.active s.limit)) [
    | inr full ↦ rw full (omega arith, omega arith)
    | inl room ↦ elim (Option-cases (take_waiter s.owner s.waiters)) [
      | inl nobody ↦ rw (room, nobody) (omega arith, omega arith)
      | inr ((w, rest), found) ↦
          let (at, mine, sub, len) = take_waiter-some s.owner s.waiters found in
          let next = grant aborted w (record s { waiters = rest }) in
          let (same, more, o, l) = grant_keeps w (record s { waiters = rest }) in
          let (fewer, grows) = fill_bounds n next in
          let size = ap length same in
          rw (room, found) (omega (arith, fewer, size, len), omega (arith, grows, more))
    ]
  ]

  fill_takes :
      (n : ℕ) (s : OwnedResource)
      → below s.active s.limit ≡ true
      → has_waiter s.owner s.waiters ≡ true
      → length (fill (suc n) aborted s).waiters < length s.waiters
  unfolding fill
  fill_takes n s room mine = elim (Option-cases (take_waiter s.owner s.waiters)) [
    | inl nobody ↦ absurd (ground (arith, take_waiter-none s.owner s.waiters nobody))
    | inr ((w, rest), found) ↦
        let (at, is, sub, len) = take_waiter-some s.owner s.waiters found in
        let next = grant aborted w (record s { waiters = rest }) in
        let (same, more, o, l) = grant_keeps w (record s { waiters = rest }) in
        let (fewer, grows) = fill_bounds n next in
        let size = ap length same in rw (room, found) (omega (arith, fewer, size, len))
  ]

  fill_ends :
      (n : ℕ) (s : OwnedResource)
      → length s.waiters ≤ n
      → (below (fill n aborted s).active (fill n aborted s).limit
          && has_waiter (fill n aborted s).owner (fill n aborted s).waiters)
        ≡ false
  unfolding fill
  fill_ends zero s enough = rw (no_waiter s.owner s.waiters (omega arith)) (ground arith)
  fill_ends (suc n) s enough = elim (Bool-cases (below s.active s.limit)) [
    | inr full ↦ rw full (rw full refl)
    | inl room ↦ elim (Option-cases (take_waiter s.owner s.waiters)) [
      | inl nobody ↦ rw (room, nobody) (rw (room, take_waiter-none s.owner s.waiters nobody) refl)
      | inr ((w, rest), found) ↦
          let (at, mine, sub, len) = take_waiter-some s.owner s.waiters found in
          let next = grant aborted w (record s { waiters = rest }) in
          let (same, more, o, l) = grant_keeps w (record s { waiters = rest }) in
          let size = ap length same in
          rw (room, found) (fill_ends n next (omega (arith, size, len)))
    ]
  ]

  choose_owner_keeps :
      (limit : Limit) (s : OwnedResource)
      → ((choose_owner limit s).waiters ≡ s.waiters) × ((choose_owner limit s).active ≡ s.active)
  unfolding choose_owner
  choose_owner_keeps limit s =
      elim (Bool-cases ((s.active == 0) && not (has_waiter s.owner s.waiters))) [
        | inr busy ↦ rw busy (refl, refl)
        | inl idle ↦ rw idle (passed s.waiters)
      ]
    where
      passed :
          (ws : List Waiter)
          → ((elim ws as (λ _. OwnedResource) [
            | [] ↦ record s { owner = none; limit = limit }
            | w ∷ rest ↦ record s { owner = some w.provider; limit = w.limit }
          ]).waiters
              ≡ s.waiters)
            × ((elim ws as (λ _. OwnedResource) [
              | [] ↦ record s { owner = none; limit = limit }
              | w ∷ rest ↦ record s { owner = some w.provider; limit = w.limit }
            ]).active
                ≡ s.active)
      passed [] = (refl, refl)
      passed (w ∷ ws) = (refl, refl)

  -- An idle resource with waiters passes to one of them.
  choose_owner_finds :
      (limit : Limit) (s : OwnedResource)
      → s.active ≡ 0
      → 0 < length s.waiters
      → has_waiter (choose_owner limit s).owner s.waiters ≡ true
  unfolding choose_owner
  choose_owner_finds limit s idle some_wait = elim (Bool-cases (has_waiter s.owner s.waiters)) [
    | inl mine ↦
        let busy : ((s.active == 0) && not (has_waiter s.owner s.waiters)) ≡ false = ground arith in
        rw busy mine
    | inr other ↦
        let free : ((s.active == 0) && not (has_waiter s.owner s.waiters)) ≡ true = ground arith in
        rw free (passed s.waiters some_wait)
  ]
    where
      passed :
          (ws : List Waiter)
          → 0 < length ws
          → has_waiter
              (elim ws as (λ _. OwnedResource) [
                | [] ↦ record s { owner = none; limit = limit }
                | w ∷ rest ↦ record s { owner = some w.provider; limit = w.limit }
              ]).owner
              ws
            ≡ true
      passed [] h = absurd (omega arith)
      passed (w ∷ ws) h = first_waiter w ws

  -- One round of the outer loop on an idle resource leaves fewer waiters.
  round_takes :
      (limit : Limit) (s : OwnedResource)
      → below 0 limit ≡ true
      → LockInv s
      → s.active ≡ 0
      → 0 < length s.waiters
      → length (fill (length s.waiters) aborted (choose_owner limit s)).waiters < length s.waiters
  round_takes limit s room inv idle some_wait = go s.waiters refl
    where
      go :
          (ws : List Waiter)
          → s.waiters ≡ ws
          → length (fill (length s.waiters) aborted (choose_owner limit s)).waiters
            < length s.waiters
      go [] e = absurd (let h = ap length e in omega (arith, h))
      go (w ∷ ws) e =
          let (same, act) = choose_owner_keeps limit s in
          let kept : LockInv (choose_owner limit s) =
            choose_owner-LockInv aborted limit s room inv in
          let room_here : below (choose_owner limit s).active (choose_owner limit s).limit ≡ true =
            subst (λ n. below n (choose_owner limit s).limit ≡ true) (sym (act ∙ idle))
              kept.open_limit in
          let mine : has_waiter (choose_owner limit s).owner (choose_owner limit s).waiters ≡ true =
            subst (λ l. has_waiter (choose_owner limit s).owner l ≡ true) (sym same)
              (choose_owner_finds limit s idle some_wait) in
          let less = fill_takes (length ws) (choose_owner limit s) room_here mine in
          let size : length s.waiters ≡ suc (length ws) = ap length e in
          let sizes : length (choose_owner limit s).waiters ≡ length s.waiters = ap length same in
          subst (λ n. length (fill n aborted (choose_owner limit s)).waiters < length s.waiters)
            (sym size) (omega (arith, less, sizes))

  pump_loop_ends :
      (n : ℕ) (limit : Limit) (s : OwnedResource)
      → below 0 limit ≡ true
      → LockInv s
      → length s.waiters < n
      → is_stuck (pump_loop n aborted limit s) ≡ false
  unfolding pump_loop is_stuck
  pump_loop_ends zero limit s room inv enough = absurd (omega arith)
  pump_loop_ends (suc n) limit s room inv enough =
      let t : OwnedResource = fill (length s.waiters) aborted (choose_owner limit s) in
      let (same, act) = choose_owner_keeps limit s in
      let sizes : length (choose_owner limit s).waiters ≡ length s.waiters = ap length same in
      let once : LockInv t =
        fill-LockInv aborted (length s.waiters) (choose_owner limit s)
          (choose_owner-LockInv aborted limit s room inv) in
      let (fewer, grows) = fill_bounds (length s.waiters) (choose_owner limit s) in
      let ended = fill_ends (length s.waiters) (choose_owner limit s) (omega (arith, sizes)) in
      elim (Bool-cases (is_waiting_idle t)) [
        | inr ends ↦ rw (ends, ended) (ends)
        | inl again ↦
            let (t_idle, t_waits) = idle_waits t again in
            let less =
              round_takes limit s room inv (omega (arith, act, grows, t_idle))
                (omega (arith, fewer, sizes, t_waits)) in
            rw again (pump_loop_ends n limit t room once (omega (arith, less, enough)))
      ]

  pub pump_ends :
      (limit : Limit) (s : OwnedResource)
      → below 0 limit ≡ true
      → LockInv s
      → is_stuck (pump aborted limit s) ≡ false
  unfolding pump
  pump_ends limit s room inv =
      pump_loop_ends (suc (length s.waiters)) limit s room inv (omega arith)
