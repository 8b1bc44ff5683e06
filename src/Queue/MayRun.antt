-- ===== src/Queue/MayRun.antt =====
-- The rows that may run, which `claim` of src/queue/repository.ts chooses from.
use mathlib.Core.List.Memᴰ
use my_discord_agent.Base.{
  ltb, Bool-cases, at_most, any_row, any_row-false, any_row_none, ℕ, ◌≤◌, ◌<◌, String, ◌≡◌, refl,
  ◌↔◌, ◌⊎◌, inl, inr, true, false, ◌&&◌, Option, none, some, List, [], ◌∷◌, Memᴰ, arith, str_eq,
  eq_iff,
}
use my_discord_agent.Queue.Claim.{
  is_provisioned, is_due, is_ready, is_bot_admission, excludes, is_eligible, is_blocker, is_prior,
  is_claimable, is_exhausted,
}
use my_discord_agent.Queue.Invariant.Claims.{is_claimable-IsFirst}
use my_discord_agent.Queue.Payload.{get, is_one, is_str}
use my_discord_agent.Queue.Rows.{is_active, is_terminal, is_waiting, JobRow}

-- A time that has come, where none is no bar; and a lease that has run out, where none never does.
abbrev pub HasCome : ℕ → Option ℕ → Type 0
HasCome now none = Unit
HasCome now (some at) = at ≤ now

abbrev pub HasRunOut : ℕ → Option ℕ → Type 0
HasRunOut now none = ⊥
HasRunOut now (some at) = at ≤ now

-- A row that waits and is due, or that a worker holds under a lease that has run out.
abbrev pub IsReady : ℕ → JobRow → Type 0
IsReady now r =
    ((is_waiting r.status ≡ true) × HasCome now r.next_attempt_at)
    ⊎ ((is_active r.status ≡ true) × HasRunOut now r.lease_until)

-- A row that may run now: no ticket of a Bot, moved to its session or bound to a thread of its own,
-- ready, not excluded, with attempts left, in a session that no cron job is still to be moved into and
-- whose earlier jobs have all ended.
pub record MayRun (now : ℕ) (exclude : List String) (jobs : List JobRow) (r : JobRow) : Type 0 where
  no_ticket : is_one (get "botTaskSessionAdmission" r.payload) ≡ false
  placed :
      (is_one (get "cronProvisioning" r.payload) ≡ false)
      ⊎ (is_str (get "cronDeliveryMode" r.payload) "item-thread" ≡ true)
  ready : IsReady now r
  included : Memᴰ r.id exclude → ⊥
  attempts_left : r.attempts < r.max_attempts
  free :
      (y : JobRow)
      → Memᴰ y jobs
      → is_one (get "cronProvisioning" y.payload) ≡ true
      → is_str (get "cronThreadId" y.payload) r.session_id ≡ false
  serial :
      (y : JobRow)
      → Memᴰ y jobs
      → y.session_id ≡ r.session_id
      → y.sequence < r.sequence
      → is_terminal y.status ≡ true

due_iff : (now : ℕ) (at : Option ℕ) → is_due now at ≡ true ↔ HasCome now at
unfolding is_due
due_iff now none = ((λ h. tt), (λ h. refl))
due_iff now (some at) = ((λ h. ground arith), (λ h. ground arith))

run_out_iff : (now : ℕ) (at : Option ℕ) → at_most at now ≡ true ↔ HasRunOut now at
run_out_iff now none = ((λ h. cc), (λ h. absurd h))
run_out_iff now (some at) = ((λ h. ground arith), (λ h. ground arith))

is_ready-IsReady : (now : ℕ) (r : JobRow) → is_ready now r ≡ true → IsReady now r
unfolding is_ready
is_ready-IsReady now r h = elim (Bool-cases (is_waiting r.status && is_due now r.next_attempt_at)) [
  | inl waits ↦
      inl (ground (arith, waits), (due_iff now r.next_attempt_at).0 (ground (arith, waits)))
  | inr held ↦
      inr (ground (arith, h, held), (run_out_iff now r.lease_until).0 (ground (arith, h, held)))
]

IsReady-is_ready : (now : ℕ) (r : JobRow) → IsReady now r → is_ready now r ≡ true
unfolding is_ready
IsReady-is_ready now r (inl (waits, come)) =
    let due = (due_iff now r.next_attempt_at).1 come in ground (arith, waits, due)
IsReady-is_ready now r (inr (held, out)) =
    let gone = (run_out_iff now r.lease_until).1 out in ground (arith, held, gone)

not_excluded : (ids : List String) (r : JobRow) → excludes ids r ≡ false → Memᴰ r.id ids → ⊥
unfolding excludes
not_excluded [] r h m = Memᴰ.not-nil m
not_excluded (id ∷ ids) r h m = elim (Memᴰ.cases_cons m) [
  | inl same ↦ absurd (let hit = (eq_iff r.id id).1 same in ground (arith, h, hit))
  | inr rest ↦ not_excluded ids r (ground (arith, h)) rest
]

excludes_none : (ids : List String) (r : JobRow) → (Memᴰ r.id ids → ⊥) → excludes ids r ≡ false
unfolding excludes
excludes_none [] r out = refl
excludes_none (id ∷ ids) r out =
    let rest = excludes_none ids r (λ m. out (Memᴰ.tail m)) in
    elim (Bool-cases (str_eq r.id id)) [
      | inl hit ↦ absurd (out (Memᴰ.head ((eq_iff r.id id).0 hit)))
      | inr miss ↦ ground (arith, miss, rest)
    ]

-- What the second SELECT finds are the rows that may run.
pub claimable-MayRun :
    (now : ℕ) (exclude : List String) (jobs : List JobRow) (r : JobRow)
    → is_claimable now exclude jobs r ≡ true
    → MayRun now exclude jobs r
unfolding is_claimable is_eligible is_bot_admission is_provisioned is_blocker
claimable-MayRun now exclude jobs r h =
    let clear : any_row (is_blocker r.session_id) jobs ≡ false = ground (arith, h) in
    record {
      no_ticket = ground (arith, h);
      placed = elim (Bool-cases (is_one (get "cronProvisioning" r.payload))) [
        | inl moves ↦ inr (ground (arith, h, moves))
        | inr stays ↦ inl stays
      ];
      ready = is_ready-IsReady now r (ground (arith, h));
      included = not_excluded exclude r (ground (arith, h));
      attempts_left = ground (arith, h);
      free = λ y m moves.
          let miss = any_row-false (is_blocker r.session_id) jobs {x = y} clear m in
          ground (arith, miss, moves);
      serial = is_claimable-IsFirst now exclude jobs r h;
    }

no_prior :
    (r y : JobRow)
    → (y.session_id ≡ r.session_id → y.sequence < r.sequence → is_terminal y.status ≡ true)
    → is_prior r y ≡ false
unfolding is_prior
no_prior r y serial = elim (Bool-cases (str_eq y.session_id r.session_id)) [
  | inr other ↦ ground (arith, other)
  | inl same ↦ elim (Bool-cases (ltb y.sequence r.sequence)) [
    | inr after_it ↦ ground (arith, after_it)
    | inl before ↦
        let over = serial ((eq_iff y.session_id r.session_id).0 same) (ground (arith, before)) in
        ground (arith, over)
  ]
]

no_blocker :
    (session : String) (y : JobRow)
    → (is_one (get "cronProvisioning" y.payload) ≡ true
        → is_str (get "cronThreadId" y.payload) session ≡ false)
    → is_blocker session y ≡ false
unfolding is_blocker
no_blocker session y free = elim (Bool-cases (is_one (get "cronProvisioning" y.payload))) [
  | inl moves ↦ let elsewhere = free moves in ground (arith, elsewhere)
  | inr stays ↦ ground (arith, stays)
]

pub MayRun-claimable :
    (now : ℕ) (exclude : List String) (jobs : List JobRow) (r : JobRow)
    → MayRun now exclude jobs r
    → is_claimable now exclude jobs r ≡ true
unfolding is_claimable is_eligible is_bot_admission is_provisioned
MayRun-claimable now exclude jobs r may =
    let ticket = may.no_ticket in
    let left = may.attempts_left in
    let ready = IsReady-is_ready now r may.ready in
    let kept = excludes_none exclude r may.included in
    let free =
      any_row_none (is_blocker r.session_id) jobs
        (λ y m. no_blocker r.session_id y (may.free y m)) in
    let first = any_row_none (is_prior r) jobs (λ y m. no_prior r y (may.serial y m)) in
    elim may.placed [
      | inl stays ↦ ground (arith, ticket, left, ready, kept, free, first, stays)
      | inr bound ↦ ground (arith, ticket, left, ready, kept, free, first, bound)
    ]

pub none_spent :
    (now : ℕ) (exclude : List String) (y : JobRow)
    → (IsReady now y → y.attempts < y.max_attempts)
    → is_exhausted now exclude y ≡ false
unfolding is_exhausted is_eligible
none_spent now exclude y left = elim (Bool-cases (is_ready now y)) [
  | inl ready ↦ let less = left (is_ready-IsReady now y ready) in ground (arith, less)
  | inr rests ↦ ground (arith, rests)
]
