-- ===== src/Inference/LockInvariant.antt =====
-- Which states of the lock of src/queue/inference-lock.ts are sound, and that its steps keep them so.
use mathlib.Core.List.Memᴰ
use mathlib.Core.Option
use my_discord_agent.Base.{
  leb, ◌==◌, Bool-cases, Option-cases, is_text, length, ℕ, zero, suc, ◌+◌, ◌-◌, String, ◌≡◌, refl,
  sym, ap, subst, ◌∙◌, inl, inr, Bool, true, ◌&&◌, not, Option, none, some, List, [], ◌∷◌, Memᴰ,
  arith, eq_iff,
}
use my_discord_agent.Inference.Lock.{
  Limit, unlimited, at_most_n, below, same_limit, Waiter, Settled, OwnedResource, take_waiter,
  has_waiter, grant, choose_owner, fill, is_waiting_idle, pump_loop, pump,
}

abbrev pub within : ℕ → Limit → Bool
within n unlimited = true
within n (at_most_n k) = leb n k

-- One provider holds the resource, within its own limit.
pub record LockInv (s : OwnedResource) : Type 0 where
  pub counted : s.active ≡ length s.holders
  pub owned : (h : Waiter) → Memᴰ h s.holders → is_text s.owner h.provider ≡ true
  pub limited : (h : Waiter) → Memᴰ h s.holders → h.limit ≡ s.limit
  pub fits : within s.active s.limit ≡ true
  pub open_limit : below 0 s.limit ≡ true
  pub agreed :
      (w : Waiter) → Memᴰ w s.waiters → is_text s.owner w.provider ≡ true → w.limit ≡ s.limit
  pub alike :
      (v w : Waiter)
      → Memᴰ v s.waiters
      → Memᴰ w s.waiters
      → v.provider ≡ w.provider
      → v.limit ≡ w.limit
  pub positive : (w : Waiter) → Memᴰ w s.waiters → below 0 w.limit ≡ true

pub same_limit-eq : (a b : Limit) → same_limit a b ≡ true → a ≡ b
same_limit-eq unlimited unlimited h = refl
same_limit-eq unlimited (at_most_n k) h = cc
same_limit-eq (at_most_n k) unlimited h = cc
same_limit-eq (at_most_n a) (at_most_n b) h = ap at_most_n (ground arith)

within_next : (n : ℕ) (l : Limit) → below n l ≡ true → within (n + 1) l ≡ true
within_next n unlimited h = refl
within_next n (at_most_n k) h = ground arith

pub within_less : (n : ℕ) (l : Limit) → within n l ≡ true → within (n - 1) l ≡ true
within_less n unlimited h = refl
within_less n (at_most_n k) h = ground arith

pub within_zero : (l : Limit) → within 0 l ≡ true
within_zero unlimited = refl
within_zero (at_most_n k) = ground arith

no_holders : (hs : List Waiter) {h : Waiter} → length hs ≡ 0 → Memᴰ h hs → ⊥
no_holders [] e m = Memᴰ.not-nil m
no_holders (x ∷ hs) e m = omega arith

pub take_waiter-some :
    (owner : Option String) (ws : List Waiter) {w : Waiter} {rest : List Waiter}
    → take_waiter owner ws ≡ some (w, rest)
    → Memᴰ w ws
      × (is_text owner w.provider ≡ true)
      × ((v : Waiter) → Memᴰ v rest → Memᴰ v ws)
      × (length ws ≡ suc (length rest))
unfolding take_waiter
take_waiter-some owner [] e = absurd (ground arith)
take_waiter-some owner (x ∷ ws) {w} {rest} e = elim (Bool-cases (is_text owner x.provider)) [
  | inl mine ↦
      let pair : (x, ws) ≡ (w, rest) = Option.some-injective _ _ (rw mine at e) in
      let hw : x ≡ w = ap (λ p. p.0) pair in
      let hr : ws ≡ rest = ap (λ p. p.1) pair in
      (
        Memᴰ.head (sym hw),
        subst (λ z. is_text owner z.provider ≡ true) hw mine,
        (λ v m. Memᴰ.tail (subst (λ z. Memᴰ v z) (sym hr) m)),
        ap (λ z. suc (length z)) hr,
      )
  | inr other ↦ elim (Option-cases (take_waiter owner ws)) [
    | inl nothing ↦ absurd (ground (arith, nothing, other))
    | inr ((v, vs), found) ↦
        let (at, is, sub, len) = take_waiter-some owner ws found in
        let pair : (v, x ∷ vs) ≡ (w, rest) = Option.some-injective _ _ (rw (other, found) at e) in
        let hw : v ≡ w = ap (λ p. p.0) pair in
        let hr : x ∷ vs ≡ rest = ap (λ p. p.1) pair in
        (
          subst (λ z. Memᴰ z (x ∷ ws)) hw (Memᴰ.tail at),
          subst (λ z. is_text owner z.provider ≡ true) hw is,
          (λ z m. elim (Memᴰ.cases_cons (subst (λ l. Memᴰ z l) (sym hr) m)) [
            | inl first ↦ Memᴰ.head first
            | inr deep ↦ Memᴰ.tail (sub z deep)
          ]),
          ap suc len ∙ ap (λ z. suc (length z)) hr,
        )
  ]
]

module _ (aborted : ℕ → Bool) where
  -- Fewer waiters, whatever is settled meanwhile.
  pub fewer-LockInv :
      (s : OwnedResource) (ws : List Waiter) (log : List Settled)
      → ((v : Waiter) → Memᴰ v ws → Memᴰ v s.waiters)
      → LockInv s
      → LockInv (record s { waiters = ws; settled = log })
  fewer-LockInv s ws log sub inv = record {
    counted = inv.counted;
    owned = inv.owned;
    limited = inv.limited;
    fits = inv.fits;
    open_limit = inv.open_limit;
    agreed = λ w m. inv.agreed w (sub w m);
    alike = λ v w mv mw. inv.alike v w (sub v mv) (sub w mw);
    positive = λ w m. inv.positive w (sub w m);
  }

  granted-LockInv :
      (w : Waiter) (s : OwnedResource) (log : List Settled)
      → LockInv s
      → is_text s.owner w.provider ≡ true
      → w.limit ≡ s.limit
      → below s.active s.limit ≡ true
      → LockInv (record s { active = s.active + 1; holders = w ∷ s.holders; settled = log })
  granted-LockInv w s log inv mine own room = record {
    counted = let c = inv.counted in omega (arith, c);
    owned = λ h m. elim (Memᴰ.cases_cons m) [
      | inl e ↦ subst (λ z. is_text s.owner z.provider ≡ true) (sym e) mine
      | inr old ↦ inv.owned h old
    ];
    limited = λ h m. elim (Memᴰ.cases_cons m) [
      | inl e ↦ ap (λ z. z.limit) e ∙ own
      | inr old ↦ inv.limited h old
    ];
    fits = within_next s.active s.limit room;
    open_limit = inv.open_limit;
    agreed = inv.agreed;
    alike = inv.alike;
    positive = inv.positive;
  }

  grant-LockInv :
      (w : Waiter) (s : OwnedResource)
      → LockInv s
      → is_text s.owner w.provider ≡ true
      → w.limit ≡ s.limit
      → below s.active s.limit ≡ true
      → LockInv (grant aborted w s)
  unfolding grant
  grant-LockInv w s inv mine own room = elim (Bool-cases (aborted w.call)) [
    | inl gone ↦ rw gone (fewer-LockInv s s.waiters _ (λ v m. m) inv)
    | inr here ↦ rw here (granted-LockInv w s _ inv mine own room)
  ]

  pub fill-LockInv : (n : ℕ) (s : OwnedResource) → LockInv s → LockInv (fill n aborted s)
  unfolding fill
  fill-LockInv zero s inv = inv
  fill-LockInv (suc n) s inv = elim (Bool-cases (below s.active s.limit)) [
    | inr full ↦ rw full inv
    | inl room ↦ elim (Option-cases (take_waiter s.owner s.waiters)) [
      | inl nobody ↦ rw (room, nobody) inv
      | inr ((w, rest), found) ↦
          let (at, mine, sub, len) = take_waiter-some s.owner s.waiters found in
          rw (room, found)
            (fill-LockInv n (grant aborted w (record s { waiters = rest })) (
              grant-LockInv w (record s { waiters = rest }) (fewer-LockInv s rest s.settled sub inv)
                mine (inv.agreed w at mine) room))
    ]
  ]

  -- An idle resource has no holder, so its owner and its limit may change.
  passed-LockInv :
      (s : OwnedResource) (owner : Option String) (limit : Limit)
      → s.active ≡ 0
      → below 0 limit ≡ true
      → ((v : Waiter) → Memᴰ v s.waiters → is_text owner v.provider ≡ true → v.limit ≡ limit)
      → LockInv s
      → LockInv (record s { owner = owner; limit = limit })
  passed-LockInv s owner limit idle room agrees inv =
      let empty : length s.holders ≡ 0 = sym inv.counted ∙ idle in
      record {
        counted = inv.counted;
        owned = λ h m. absurd (no_holders s.holders empty m);
        limited = λ h m. absurd (no_holders s.holders empty m);
        fits = rw idle (within_zero limit);
        open_limit = room;
        agreed = agrees;
        alike = inv.alike;
        positive = inv.positive;
      }

  pub choose_owner-LockInv :
      (limit : Limit) (s : OwnedResource)
      → below 0 limit ≡ true
      → LockInv s
      → LockInv (choose_owner limit s)
  unfolding choose_owner
  choose_owner-LockInv limit s room inv =
      elim (Bool-cases ((s.active == 0) && not (has_waiter s.owner s.waiters))) [
        | inr busy ↦ rw busy inv
        | inl idle ↦ rw idle (pass_on limit s s.waiters refl room (ground arith) inv)
      ]
    where
      pass_on :
          (limit : Limit) (s : OwnedResource) (ws : List Waiter)
          → s.waiters ≡ ws
          → below 0 limit ≡ true
          → s.active ≡ 0
          → LockInv s
          → LockInv (elim ws as (λ _. OwnedResource) [
            | [] ↦ record s { owner = none; limit = limit }
            | w ∷ rest ↦ record s { owner = some w.provider; limit = w.limit }
          ])
      pass_on limit s [] e room idle inv = passed-LockInv s none limit idle room (λ v m h. cc) inv
      pass_on limit s (w ∷ rest) e room idle inv =
          let at : Memᴰ w s.waiters = subst (λ l. Memᴰ w l) (sym e) (Memᴰ.head refl) in
          passed-LockInv s (some w.provider) w.limit idle (inv.positive w at)
            (λ v m h. inv.alike v w m at (sym ((eq_iff w.provider v.provider).0 h))) inv

  pump_loop-LockInv :
      (n : ℕ) (limit : Limit) (s : OwnedResource)
      → below 0 limit ≡ true
      → LockInv s
      → LockInv (pump_loop n aborted limit s)
  unfolding pump_loop
  pump_loop-LockInv zero limit s room inv = inv
  pump_loop-LockInv (suc n) limit s room inv =
      let t = fill (length s.waiters) aborted (choose_owner limit s) in
      let once : LockInv t =
        fill-LockInv (length s.waiters) (choose_owner limit s)
          (choose_owner-LockInv limit s room inv) in
      elim (Bool-cases (is_waiting_idle t)) [
        | inl again ↦ rw again (pump_loop-LockInv n limit t room once)
        | inr ends ↦ rw ends once
      ]

  pub pump-LockInv :
      (limit : Limit) (s : OwnedResource)
      → below 0 limit ≡ true
      → LockInv s
      → LockInv (pump aborted limit s)
  unfolding pump
  pump-LockInv limit s room inv = pump_loop-LockInv (suc (length s.waiters)) limit s room inv
