-- ===== src/Queue/Oldest.antt =====
-- Which job `claim` of src/queue/repository.ts takes.
use mathlib.Core.List.Memᴰ
use my_discord_agent.Base.{
  if◌then◌else◌, Bool-cases, Option-cases, select, Memᴰ-select, select-Memᴰ, Unique, ℕ, ◌<◌, String,
  ◌≡◌, refl, sym, ap, ◌∙◌, ◌⊎◌, inl, inr, Bool, true, false, none, some, List, [], ◌∷◌, map, Memᴰ,
  arith,
}
use my_discord_agent.Queue.Claim.{is_claimable, comes_before, first_in_order, is_exhausted, claim}
use my_discord_agent.Queue.Invariant.Claims.{first_in_order-Memᴰ}
use my_discord_agent.Queue.MayRun.{IsReady, MayRun, claimable-MayRun, MayRun-claimable, none_spent}
use my_discord_agent.Queue.Rows.{JobRow}
use my_discord_agent.Queue.Store.{Db, Ambient, done}
use my_discord_agent.Queue.Taking.{claim_of, taken_from, claim_takes_the_first}

-- One row is older than another: it was created before it, or in the same millisecond with a lower
-- sequence number.
abbrev pub IsOlder : JobRow → JobRow → Type 0
IsOlder a b =
    (a.created_at < b.created_at) ⊎ ((a.created_at ≡ b.created_at) × (a.sequence < b.sequence))

older_comes_first :
    (a b : JobRow) → IsOlder a b → (comes_before a b ≡ true) × (comes_before b a ≡ false)
unfolding comes_before
older_comes_first a b (inl before) = (ground (arith, before), ground (arith, before))
older_comes_first a b (inr (same, before)) =
    (ground (arith, same, before), ground (arith, same, before))

pick_older :
    (b r row : JobRow)
    → (b ≡ row) ⊎ IsOlder row b
    → (r ≡ row) ⊎ IsOlder row r
    → (b ≡ row) ⊎ (r ≡ row)
    → (if comes_before b r then b else r) ≡ row
pick_older b r row (inl at_b) (inl at_r) one = elim (Bool-cases (comes_before b r)) [
  | inl h ↦ rw h at_b
  | inr h ↦ rw h at_r
]
pick_older b r row (inl at_b) (inr later) one =
    let h : comes_before b r ≡ true =
      ap (λ z. comes_before z r) at_b ∙ (older_comes_first row r later).0 in
    rw h at_b
pick_older b r row (inr later) (inl at_r) one =
    let h : comes_before b r ≡ false =
      ap (comes_before b) at_r ∙ (older_comes_first row b later).1 in
    rw h at_r
pick_older b r row (inr _) (inr later) (inl at_b) =
    let h : comes_before b r ≡ true =
      ap (λ z. comes_before z r) at_b ∙ (older_comes_first row r later).0 in
    rw h at_b
pick_older b r row (inr later) (inr _) (inr at_r) =
    let h : comes_before b r ≡ false =
      ap (comes_before b) at_r ∙ (older_comes_first row b later).1 in
    rw h at_r

first_with :
    (r b : JobRow) (rows : List JobRow)
    → first_in_order rows ≡ some b
    → first_in_order (r ∷ rows) ≡ some (if comes_before b r then b else r)
unfolding first_in_order
first_with r b rows e = rw e refl

first_alone :
    (r : JobRow) (rows : List JobRow)
    → first_in_order rows ≡ none
    → first_in_order (r ∷ rows) ≡ some r
unfolding first_in_order
first_alone r rows e = rw e refl

oldest_is_first :
    (rows : List JobRow) (row : JobRow)
    → Memᴰ row rows
    → ((y : JobRow) → Memᴰ y rows → (y ≡ row) ⊎ IsOlder row y)
    → first_in_order rows ≡ some row
oldest_is_first [] row m oldest = absurd (Memᴰ.not-nil m)
oldest_is_first (r ∷ rows) row m oldest =
    let at_head = oldest r (Memᴰ.head refl) in
    let below : (y : JobRow) → Memᴰ y rows → (y ≡ row) ⊎ IsOlder row y =
      λ y my. oldest y (Memᴰ.tail my) in
    elim (Memᴰ.cases_cons m) [
      | inl same ↦ elim (Option-cases (first_in_order rows)) [
        | inl nothing ↦ first_alone r rows nothing ∙ ap some (sym same)
        | inr (b, found) ↦
            first_with r b rows found
            ∙ ap some (
                pick_older b r row (below b (first_in_order-Memᴰ rows found)) at_head
                  (inr (sym same)))
      ]
      | inr rest ↦
          first_with r row rows (oldest_is_first rows row rest below)
          ∙ ap some (pick_older row r row (inl refl) at_head (inl refl))
    ]

select_none :
    (p : JobRow → Bool) (rows : List JobRow)
    → ((y : JobRow) → Memᴰ y rows → p y ≡ false)
    → select p rows ≡ []
unfolding select
select_none p [] misses = refl
select_none p (r ∷ rows) misses =
    rw (misses r (Memᴰ.head refl)) (select_none p rows (λ y m. misses y (Memᴰ.tail m)))

-- Where job ids are unique, every row that is ready has attempts left, and a row may run that is older
-- than every other row that may run, `claim` returns with that row: it is marked claimed by the worker,
-- its fencing token and its attempts go up by one, its lease ends at least one millisecond after the
-- claim, and nothing else changes.
pub oldest_is_claimed :
    (env : Ambient) (worker : String) (lease_ms : ℕ) (exclude : List String) (db : Db)
    (row : JobRow)
    → Unique (map (λ r. r.id) db.jobs)
    → ((y : JobRow) → Memᴰ y db.jobs → IsReady env.now y → y.attempts < y.max_attempts)
    → Memᴰ row db.jobs
    → MayRun env.now exclude db.jobs row
    → ((y : JobRow) → Memᴰ y db.jobs → MayRun env.now exclude db.jobs y → (y ≡ row) ⊎ IsOlder row y)
    → claim env worker lease_ms exclude db
      ≡ done
          (some (claim_of env.now worker lease_ms row))
          (taken_from env.now worker lease_ms row db)
oldest_is_claimed env worker lease_ms exclude db row keys left at may oldest =
    let p = is_claimable env.now exclude db.jobs in
    claim_takes_the_first env worker lease_ms exclude db row keys
      (select_none (is_exhausted env.now exclude) db.jobs
        (λ y m. none_spent env.now exclude y (left y m)))
      (oldest_is_first (select p db.jobs) row
        (select-Memᴰ p db.jobs at (MayRun-claimable env.now exclude db.jobs row may))
        (λ y m.
          let (my, ok) = Memᴰ-select p db.jobs m in
          oldest y my (claimable-MayRun env.now exclude db.jobs y ok)))
