-- ===== src/Inference/LockReached.antt =====
-- The entries of `ownedResources` that the calls of src/queue/inference-lock.ts can reach.
use mathlib.Core.List.Memᴰ
use my_discord_agent.Base.{
  ltb, ◌==◌, Bool-cases, get_or, is_text, length, any_row, any_row-false, ℕ, suc, ◌-◌, String, ◌≡◌,
  refl, sym, ap, subst, ◌∙◌, inl, inr, Bool, true, false, ◌&&◌, not, Option, none, some, List, [],
  ◌∷◌, ◌++◌, Memᴰ, arith, str_eq, eq_iff,
}
use my_discord_agent.Inference.Lock.{
  queued, Limit, below, same_limit, Waiter, OwnedResource, has_waiter, is_waiting_idle, pump,
  entry_of, fresh_resource, mismatches, acquire, drop_call, has_call, abort, release,
}
use my_discord_agent.Inference.LockInvariant.{
  within, LockInv, same_limit-eq, within_less, within_zero, fewer-LockInv, pump-LockInv,
}
use my_discord_agent.Inference.LockProgress.{is_stuck, pump_ends}

-- The entry of one resource after some calls, aborts and releases. Which signals are aborted may
-- change from one step to the next. A call's limit is positive, as its configuration demands.
pub data LockReached : Option OwnedResource → Type 0 where
  nobody : LockReached none
  acquired :
      {entry : Option OwnedResource} {s : OwnedResource} (aborted : ℕ → Bool) (w : Waiter)
      → LockReached entry
      → below 0 w.limit ≡ true
      → acquire aborted w entry ≡ queued s
      → LockReached (entry_of s)
  gave_up :
      {s : OwnedResource} (aborted : ℕ → Bool) (w : Waiter)
      → LockReached (some s)
      → below 0 w.limit ≡ true
      → LockReached (entry_of (abort aborted w s))
  released :
      {s : OwnedResource} (aborted : ℕ → Bool) (w : Waiter)
      → LockReached (some s)
      → below 0 w.limit ≡ true
      → LockReached (entry_of (release aborted w s))

fresh-LockInv : (limit : Limit) → below 0 limit ≡ true → LockInv (fresh_resource limit)
unfolding fresh_resource
fresh-LockInv limit room = record {
  counted = refl;
  owned = λ h m. absurd (Memᴰ.not-nil m);
  limited = λ h m. absurd (Memᴰ.not-nil m);
  fits = within_zero limit;
  open_limit = room;
  agreed = λ w m. absurd (Memᴰ.not-nil m);
  alike = λ v w m. absurd (Memᴰ.not-nil m);
  positive = λ w m. absurd (Memᴰ.not-nil m);
}

-- What a call whose limit does not mismatch may count on.
fits_in :
    (w : Waiter) (s : OwnedResource)
    → mismatches w s ≡ false
    → (is_text s.owner w.provider ≡ true → w.limit ≡ s.limit)
      × ((v : Waiter) → Memᴰ v s.waiters → v.provider ≡ w.provider → v.limit ≡ w.limit)
unfolding mismatches
fits_in w s h = (
  (λ mine. sym (same_limit-eq s.limit w.limit (ground arith))),
  (λ v m e.
      let same = (eq_iff v.provider w.provider).1 e in
      let out =
        any_row-false
          (λ (v : Waiter). str_eq v.provider w.provider && not (same_limit v.limit w.limit))
          s.waiters (ground arith) m in
      same_limit-eq v.limit w.limit (ground arith)),
)

pushed-LockInv :
    (w : Waiter) (s : OwnedResource)
    → below 0 w.limit ≡ true
    → mismatches w s ≡ false
    → LockInv s
    → LockInv (record s { waiters = s.waiters ++ w ∷ [] })
pushed-LockInv w s room h inv =
    let (own, like) = fits_in w s h in
    record {
      counted = inv.counted;
      owned = inv.owned;
      limited = inv.limited;
      fits = inv.fits;
      open_limit = inv.open_limit;
      agreed = λ v m mine. elim (Memᴰ.append_cases s.waiters m) [
        | inl old ↦ inv.agreed v old mine
        | inr new ↦
            let e : v ≡ w = Memᴰ.eq_of_singleton new in
            ap (λ z. z.limit) e ∙ own (subst (λ z. is_text s.owner z.provider ≡ true) e mine)
      ];
      alike = λ v u mv mu e. elim (Memᴰ.append_cases s.waiters mv) [
        | inl old ↦ elim (Memᴰ.append_cases s.waiters mu) [
          | inl old2 ↦ inv.alike v u old old2 e
          | inr new ↦
              let is : u ≡ w = Memᴰ.eq_of_singleton new in
              like v old (e ∙ ap (λ z. z.provider) is) ∙ ap (λ z. z.limit) (sym is)
        ]
        | inr new ↦
            let is : v ≡ w = Memᴰ.eq_of_singleton new in
            elim (Memᴰ.append_cases s.waiters mu) [
              | inl old2 ↦
                  ap (λ z. z.limit) is ∙ sym (like u old2 (sym e ∙ ap (λ z. z.provider) is))
              | inr new2 ↦ ap (λ z. z.limit) (is ∙ sym (Memᴰ.eq_of_singleton new2))
            ]
      ];
      positive = λ v m. elim (Memᴰ.append_cases s.waiters m) [
        | inl old ↦ inv.positive v old
        | inr new ↦ subst (λ z. below 0 z.limit ≡ true) (sym (Memᴰ.eq_of_singleton new)) room
      ];
    }

drop_call-Memᴰ : (call : ℕ) (ws : List Waiter) {v : Waiter} → Memᴰ v (drop_call call ws) → Memᴰ v ws
unfolding drop_call
drop_call-Memᴰ call [] m = m
drop_call-Memᴰ call (w ∷ ws) m = elim (Bool-cases (w.call == call)) [
  | inl hit ↦ Memᴰ.tail (rw hit at m)
  | inr miss ↦ elim (Memᴰ.cases_cons (rw miss at m)) [
    | inl e ↦ Memᴰ.head e
    | inr rest ↦ Memᴰ.tail (drop_call-Memᴰ call ws rest)
  ]
]

length-drop_call :
    (call : ℕ) (ws : List Waiter)
    → has_call call ws ≡ true
    → length ws ≡ suc (length (drop_call call ws))
unfolding drop_call has_call any_row
length-drop_call call [] h = cc
length-drop_call call (w ∷ ws) h = elim (Bool-cases (w.call == call)) [
  | inl hit ↦ rw hit refl
  | inr miss ↦ rw miss (ap suc (length-drop_call call ws (ground (arith, miss))))
]

released-LockInv :
    (call : ℕ) (s : OwnedResource)
    → has_call call s.holders ≡ true
    → LockInv s
    → LockInv (record s { active = s.active - 1; holders = drop_call call s.holders })
released-LockInv call s held inv = record {
  counted =
      let count = inv.counted in
      let size = length-drop_call call s.holders held in omega (arith, count, size);
  owned = λ h m. inv.owned h (drop_call-Memᴰ call s.holders m);
  limited = λ h m. inv.limited h (drop_call-Memᴰ call s.holders m);
  fits = within_less s.active s.limit inv.fits;
  open_limit = inv.open_limit;
  agreed = inv.agreed;
  alike = inv.alike;
  positive = inv.positive;
}

-- A sound resource where nobody waits for nothing.
abbrev pub Sound : OwnedResource → Type 0
Sound s = LockInv s × (is_stuck s ≡ false)

pump-Sound :
    (aborted : ℕ → Bool) (limit : Limit) (s : OwnedResource)
    → below 0 limit ≡ true
    → LockInv s
    → Sound (pump aborted limit s)
pump-Sound aborted limit s room inv =
    (pump-LockInv aborted limit s room inv, pump_ends aborted limit s room inv)

acquire-Sound :
    (aborted : ℕ → Bool) (w : Waiter) (entry : Option OwnedResource) {s : OwnedResource}
    → below 0 w.limit ≡ true
    → LockInv (get_or entry (fresh_resource w.limit))
    → acquire aborted w entry ≡ queued s
    → Sound s
unfolding acquire
acquire-Sound aborted w entry {s} room inv e =
    let old = get_or entry (fresh_resource w.limit) in
    elim (Bool-cases (aborted w.call)) [
      | inl gone ↦ absurd (ground (arith, gone))
      | inr here ↦ elim (Bool-cases (mismatches w old)) [
        | inl bad ↦ absurd (ground (arith, here, bad))
        | inr fine ↦
            let is : pump aborted w.limit (record old { waiters = old.waiters ++ w ∷ [] }) ≡ s =
              ground (arith, here, fine) in
            subst Sound is (pump-Sound aborted w.limit _ room (pushed-LockInv w old room fine inv))
      ]
    ]

abort-Sound :
    (aborted : ℕ → Bool) (w : Waiter) (s : OwnedResource)
    → below 0 w.limit ≡ true
    → Sound s
    → Sound (abort aborted w s)
unfolding abort
abort-Sound aborted w s room sound = elim (Bool-cases (has_call w.call s.waiters)) [
  | inr absent ↦ rw absent sound
  | inl waits ↦ rw waits (
      pump-Sound aborted w.limit _ room (
        fewer-LockInv aborted s (drop_call w.call s.waiters) _
          (λ v m. drop_call-Memᴰ w.call s.waiters m) sound.0))
]

release-Sound :
    (aborted : ℕ → Bool) (w : Waiter) (s : OwnedResource)
    → below 0 w.limit ≡ true
    → Sound s
    → Sound (release aborted w s)
unfolding release
release-Sound aborted w s room sound = elim (Bool-cases (has_call w.call s.holders)) [
  | inr absent ↦ rw absent sound
  | inl holds ↦
      rw holds (pump-Sound aborted w.limit _ room (released-LockInv w.call s holds sound.0))
]

entry_of-some : (s : OwnedResource) {t : OwnedResource} → entry_of s ≡ some t → s ≡ t
unfolding entry_of
entry_of-some s e = elim (Bool-cases ((s.active == 0) && not (ltb 0 (length s.waiters)))) [
  | inl gone ↦ absurd (ground (arith, gone))
  | inr kept ↦ ground (arith, kept)
]

reached-Sound :
    {entry : Option OwnedResource}
    → LockReached entry
    → (s : OwnedResource) → entry ≡ some s
    → Sound s
reached-Sound nobody s e = cc
reached-Sound (acquired {entry} {s = t} aborted w before room e0) s e =
    subst Sound (entry_of-some t e)
      (acquire-Sound aborted w entry room (start entry (reached-Sound before)) e0)
  where
    start :
        (x : Option OwnedResource)
        → ((old : OwnedResource) → x ≡ some old → Sound old)
        → LockInv (get_or x (fresh_resource w.limit))
    start none keeps = fresh-LockInv w.limit room
    start (some old) keeps = (keeps old refl).0
reached-Sound (gave_up {s = t} aborted w before room) s e =
    subst Sound (entry_of-some _ e) (abort-Sound aborted w t room (reached-Sound before t refl))
reached-Sound (released {s = t} aborted w before room) s e =
    subst Sound (entry_of-some _ e) (release-Sound aborted w t room (reached-Sound before t refl))

is_text_one : (o : Option String) {a b : String} → is_text o a ≡ true → is_text o b ≡ true → a ≡ b
is_text_one none {a} {b} ha hb = cc
is_text_one (some x) {a} {b} ha hb = sym ((eq_iff x a).0 ha) ∙ (eq_iff x b).0 hb

-- In every entry of `ownedResources` that calls with positive limits, aborts and releases can reach,
-- the calls that hold the resource are as many as `active` says, two of them have one provider and one
-- limit, and their number is within that limit.
pub holders_agree :
    {s : OwnedResource}
    → LockReached (some s)
    → (s.active ≡ length s.holders)
      × ((a b : Waiter)
          → Memᴰ a s.holders
          → Memᴰ b s.holders
          → (a.provider ≡ b.provider)
            × (a.limit ≡ b.limit)
            × (within (length s.holders) a.limit ≡ true))
holders_agree {s} r =
    let (inv, moves) = reached-Sound r s refl in
    (
      inv.counted,
      (λ a b ma mb. (
        is_text_one s.owner (inv.owned a ma) (inv.owned b mb),
        inv.limited a ma ∙ sym (inv.limited b mb),
        subst (λ n. within n a.limit ≡ true) inv.counted
            (subst (λ l. within s.active l ≡ true) (sym (inv.limited a ma)) inv.fits),
      )),
    )

-- In every entry of `ownedResources` that calls with positive limits, aborts and releases can reach,
-- no waiter is left behind: the resource is held or nobody waits, and when it is below the limit of
-- its owner, no waiter has the owner's provider.
pub nobody_is_left :
    {s : OwnedResource}
    → LockReached (some s)
    → (is_waiting_idle s ≡ false)
      × (below s.active s.limit ≡ true → has_waiter s.owner s.waiters ≡ false)
unfolding is_stuck
nobody_is_left {s} r =
    let (inv, moves) = reached-Sound r s refl in (ground arith, (λ room. ground arith))
