-- ===== src/Queue/Recovery.antt =====
-- The recovery of expired leases (`recoverExpired` of src/queue/repository.ts).
use mathlib.Core.List.Memᴰ
use mathlib.Core.Bool.{false≢true}
use my_discord_agent.Base.{
  Bool-cases, select, any_row, update_rows, changes, Memᴰ-update_rows, select-Memᴰ, any_row_none, ℕ,
  ◌+◌, ◌≡◌, refl, sym, ap, subst, ◌∙◌, inl, inr, true, false, List, [], ◌∷◌, Memᴰ, arith, eq_iff,
}
use my_discord_agent.Queue.Fenced.{holds}
use my_discord_agent.Queue.Recover.{is_expired, recovered_row, recover_rows, recover_expired}
use my_discord_agent.Queue.Rows.{JobRow}
use my_discord_agent.Queue.Runs.{run_done, commits, query_run, update_jobs_run, pure_run}
use my_discord_agent.Queue.Store.{Db, done, pure}

-- The expired rows of a table are among the rows that are still to be handled.
IsCovered : ℕ → List JobRow → List JobRow → Type 0
IsCovered now rows jobs =
    (s : JobRow)
    → Memᴰ s jobs
    → is_expired now s ≡ true
    → (r : JobRow) × Memᴰ r rows × (s.id ≡ r.id) × (s.fencing_token ≡ r.fencing_token)

recovered_is_idle : (now : ℕ) (r : JobRow) → is_expired now (recovered_row now r) ≡ false
unfolding is_expired recovered_row
recovered_is_idle now r = refl

expired_is_held :
    (now : ℕ) (s r : JobRow)
    → is_expired now s ≡ true
    → s.id ≡ r.id
    → s.fencing_token ≡ r.fencing_token
    → holds r.id r.fencing_token s ≡ true
unfolding is_expired holds
expired_is_held now s r h i t = let same = (eq_iff s.id r.id).1 i in ground (arith, same, t, h)

IsCovered-rest :
    (now : ℕ) (row : JobRow) (rows jobs : List JobRow)
    → IsCovered now (row ∷ rows) jobs
    → IsCovered now rows (update_rows (holds row.id row.fencing_token) (recovered_row now) jobs)
unfolding IsCovered
IsCovered-rest now row rows jobs covered s m expired =
    let (o, at, e) = Memᴰ-update_rows (holds row.id row.fencing_token) (recovered_row now) jobs m in
    elim (Bool-cases (holds row.id row.fencing_token o)) [
      | inl hit ↦
          let done_with : s ≡ recovered_row now o = rw hit at e in
          absurd
            (false≢true (sym (ap (is_expired now) done_with ∙ recovered_is_idle now o) ∙ expired))
      | inr miss ↦
          let same : s ≡ o = rw miss at e in
          let (r, mr, i, t) = covered o at (subst (λ z. is_expired now z ≡ true) same expired) in
          elim (Memᴰ.cases_cons mr) [
            | inl eq ↦ absurd (
                false≢true (
                  sym miss
                  ∙ expired_is_held now o row (subst (λ z. is_expired now z ≡ true) same expired)
                      (i ∙ ap (λ z. z.id) eq) (t ∙ ap (λ z. z.fencing_token) eq)))
            | inr rest ↦ (r, rest, ap (λ z. z.id) same ∙ i, ap (λ z. z.fencing_token) same ∙ t)
          ]
    ]

recover_rows-done :
    (now : ℕ) (rows : List JobRow) (db : Db)
    → IsCovered now rows db.jobs
    → (n : ℕ) × (next : Db) × (recover_rows now rows db ≡ done n next)
      × ((s : JobRow) → Memᴰ s next.jobs → is_expired now s ≡ false)
unfolding recover_rows pure IsCovered
recover_rows-done now [] db covered = (
  0,
  db,
  refl,
  λ s m. elim (Bool-cases (is_expired now s)) [
    | inl h ↦ absurd (Memᴰ.not-nil (covered s m h).1)
    | inr h ↦ h
  ],
)
recover_rows-done now (row ∷ rows) db covered =
    let p = holds row.id row.fencing_token in
    let db' = record db { jobs = update_rows p (recovered_row now) db.jobs } in
    let (n, next, e, clear) =
      recover_rows-done now rows db' (IsCovered-rest now row rows db.jobs covered) in
    (
      changes p db.jobs + n,
      next,
      run_done _ _ db (update_jobs_run p (recovered_row now) db)
          ∙ run_done _ _ db' e
          ∙ pure_run (changes p db.jobs + n) next,
      clear,
    )

-- `recoverExpired` returns, and in the database that it leaves no claimed or running job has a lease
-- that ended at or before `now`.
pub recover_expired_leaves_none :
    (now : ℕ) (db : Db)
    → (n : ℕ) × (next : Db) × (recover_expired now db ≡ done n next)
      × (any_row (is_expired now) next.jobs ≡ false)
unfolding recover_expired IsCovered
recover_expired_leaves_none now db =
    let (n, next, e, clear) =
      recover_rows-done now (select (is_expired now) db.jobs) db
        (λ s m h. (s, select-Memᴰ (is_expired now) db.jobs m h, refl, refl)) in
    (
      n,
      next,
      query_run (λ d. select (is_expired now) d.jobs) _ db ∙ commits _ db e,
      any_row_none (is_expired now) next.jobs clear,
    )
