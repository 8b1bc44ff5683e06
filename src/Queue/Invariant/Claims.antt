-- ===== src/Queue/Invariant/Claims.antt =====
-- `claim` of src/queue/repository.ts and the invariant of the table of jobs.
use my_discord_agent.Base.{
  Bool-cases, Option-cases, select, update_rows, Memᴰ-select, any_row-false, same_row, ℕ, String,
  ◌≡◌, refl, sym, subst, inl, inr, true, Option, none, some, List, [], ◌∷◌, Memᴰ, arith, eq_iff,
}
use my_discord_agent.Queue.Claim.{
  is_prior, is_claimable, comes_before, first_in_order, claimed_row, still_claimable, claim_row,
  claim_best, claim_in_transaction, claim,
}
use my_discord_agent.Queue.Invariant.Calm.{update_rows-Inv}
use my_discord_agent.Queue.Invariant.Defs.{Inv}
use my_discord_agent.Queue.Invariant.Starts.{IsStarted, IsFirst, update_rows-start-Inv}
use my_discord_agent.Queue.Invariant.Writes.{dead_letter_rows-KeepsJobs}
use my_discord_agent.Queue.Keeps.{
  Keeps, Keeps-bind, Keeps-then, Keeps-pure, Keeps-query, Keeps-require, Keeps-transaction,
}
use my_discord_agent.Queue.Rows.{JobRow}
use my_discord_agent.Queue.Store.{Db, Ambient, ◌>>=◌, pure, query, after, update_jobs, job_by_id}

-- A row that the second SELECT finds stands first among the open jobs of its session.
pub is_claimable-IsFirst :
    (now : ℕ) (exclude : List String) (jobs : List JobRow) (row : JobRow)
    → is_claimable now exclude jobs row ≡ true
    → IsFirst jobs row
unfolding is_claimable is_prior
is_claimable-IsFirst now exclude jobs row h b at session before =
    let clear = any_row-false (is_prior row) jobs {x = b} (ground arith) at in
    let same = (eq_iff b.session_id row.session_id).1 session in
    unfold is_prior in ground (arith, clear, same)

IsStarted-claim :
    (now : ℕ) (worker : String) (lease_ms : ℕ) (row s : JobRow)
    → still_claimable now row s ≡ true
    → IsStarted s (claimed_row now worker lease_ms row s)
unfolding still_claimable claimed_row
IsStarted-claim now worker lease_ms row s h = ground arith

still_claimable-id : (now : ℕ) (row s : JobRow) → still_claimable now row s ≡ true → s.id ≡ row.id
unfolding still_claimable
still_claimable-id now row s h = (eq_iff s.id row.id).0 (ground arith)

claim_row-Inv :
    (now : ℕ) (worker : String) (lease_ms : ℕ) (exclude : List String) (row : JobRow) (db : Db)
    → Memᴰ row db.jobs
    → is_claimable now exclude db.jobs row ≡ true
    → Inv db.jobs
    → Inv (after (claim_row now worker lease_ms row db)).jobs
unfolding claim_row ◌>>=◌ update_jobs
claim_row-Inv now worker lease_ms exclude row db at ok inv =
    let p = still_claimable now row in
    let f = claimed_row now worker lease_ms row in
    let start : (s : JobRow) → Memᴰ s db.jobs → p s ≡ true → IsStarted s (f s) × IsFirst db.jobs s =
      λ s ms h.
        let same : s ≡ row =
          same_row (λ r. r.id) db.jobs inv.ids ms at (still_claimable-id now row s h) in
        (
          IsStarted-claim now worker lease_ms row s h,
          subst (IsFirst db.jobs) (sym same) (is_claimable-IsFirst now exclude db.jobs row ok),
        ) in
    (Keeps-then (λ d. Inv d.jobs) (Keeps-require _ _ _)
        (Keeps-bind (λ d. Inv d.jobs) (Keeps-query _ (job_by_id row.id))
          (λ found. Keeps-pure _ _))).keeps
      (record db { jobs = update_rows p f db.jobs }) (update_rows-start-Inv p f db.jobs start inv)

pub first_in_order-Memᴰ :
    (rows : List JobRow) {best : JobRow} → first_in_order rows ≡ some best → Memᴰ best rows
unfolding first_in_order
first_in_order-Memᴰ [] e = absurd (ground arith)
first_in_order-Memᴰ (r ∷ rows) {best} e = elim (Option-cases (first_in_order rows)) [
  | inl nothing ↦ Memᴰ.head (ground (arith, nothing))
  | inr (b, found) ↦
      let rest = first_in_order-Memᴰ rows found in
      elim (Bool-cases (comes_before b r)) [
        | inl keep ↦ Memᴰ.tail (subst (λ z. Memᴰ z rows) (ground arith) rest)
        | inr new ↦ Memᴰ.head (ground arith)
      ]
]

claim_best-Inv :
    (now : ℕ) (worker : String) (lease_ms : ℕ) (exclude : List String) (best : Option JobRow)
    (db : Db)
    → first_in_order (select (is_claimable now exclude db.jobs) db.jobs) ≡ best
    → Inv db.jobs
    → Inv (after (claim_best now worker lease_ms best db)).jobs
unfolding claim_best pure
claim_best-Inv now worker lease_ms exclude none db e inv = inv
claim_best-Inv now worker lease_ms exclude (some row) db e inv =
    let (at, ok) =
      Memᴰ-select (is_claimable now exclude db.jobs) db.jobs (first_in_order-Memᴰ _ e) in
    claim_row-Inv now worker lease_ms exclude row db at ok inv

claim_rest-KeepsInv :
    (now : ℕ) (worker : String) (lease_ms : ℕ) (exclude : List String)
    → Keeps
        (λ d. Inv d.jobs)
        (query (λ db. first_in_order (select (is_claimable now exclude db.jobs) db.jobs))
          >>= claim_best now worker lease_ms)
unfolding ◌>>=◌ query
claim_rest-KeepsInv now worker lease_ms exclude = record {
  keeps = λ db inv. claim_best-Inv now worker lease_ms exclude _ db refl inv;
}

pub claim-KeepsInv :
    (env : Ambient) (worker : String) (lease_ms : ℕ) (exclude : List String)
    → Keeps (λ d. Inv d.jobs) (claim env worker lease_ms exclude)
unfolding claim claim_in_transaction
claim-KeepsInv env worker lease_ms exclude = Keeps-transaction _ (
    Keeps-bind _ (Keeps-query _ _) (λ exhausted.
      Keeps-then _ (dead_letter_rows-KeepsJobs Inv update_rows-Inv env exhausted)
        (claim_rest-KeepsInv env.now worker lease_ms exclude)))
