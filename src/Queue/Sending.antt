-- ===== src/Queue/Sending.antt =====
-- The order of the chunks of an answer, and the calls of a worker that has lost a delivery
-- (`claimDelivery`, `updateDelivery`, `failDeliveryBatch`, `setDeliveryThread` of
-- src/queue/repository.ts).
use mathlib.Core.Bool.{false≢true}
use my_discord_agent.Base.{
  ◌==◌, Bool-cases, find_row, any_row, update_rows, changes, Memᴰ-update_rows, find_row-Memᴰ,
  any_row_none, update_rows_id, changes_none, find_row_absent, Unique, same_row, ℕ, String, ◌≡◌,
  refl, sym, ap, subst, ◌∙◌, inl, inr, Bool, true, false, ◌&&◌, some, List, map, Memᴰ, arith,
  str_eq, eq_iff,
}
use my_discord_agent.Queue.Delivery.{is_unsent}
use my_discord_agent.Queue.DeliveryWrites.{
  holds_delivery, DeliveryFields, updated_delivery, update_delivery, given_up, is_unsent_sibling,
  fail_batch_in_transaction, BatchEnd, as_failed, as_ambiguous, batch_status, fail_delivery_batch,
  set_thread_in_transaction, set_delivery_thread,
}
use my_discord_agent.Queue.Rows.{DeliveryStatus, failed, DeliveryRow}
use my_discord_agent.Queue.Runs.{
  run_done, run_threw, then_done, commits, rolls_back, query_run, or_throw-none, or_throw-some,
  require-true, require-false, update_deliveries_run, pure_run,
}
use my_discord_agent.Queue.Store.{Db, stale_fencing_token, done, threw, update_deliveries}

update_deliveries-none :
    (p : DeliveryRow → Bool) (f : DeliveryRow → DeliveryRow) (db : Db)
    → any_row p db.deliveries ≡ false
    → update_deliveries p f db ≡ done 0 db
unfolding update_deliveries
update_deliveries-none p f db e =
    rw
      (
        changes_none p db.deliveries e,
        update_rows_id p f db.deliveries (changes_none p db.deliveries e),
      )
      refl

-- A worker that no sending row of a delivery names any more can neither record an outcome, nor give
-- up the batch, nor record a thread: each call throws the stale-token error and leaves the database
-- as it was.
pub superseded_sender_is_refused :
    (now : ℕ) (id : String) (token : ℕ) (db : Db) (status : DeliveryStatus)
    (fields : DeliveryFields) (how : BatchEnd) (error thread : String)
    → any_row (holds_delivery id token) db.deliveries ≡ false
    → (update_delivery now id token status fields db ≡ threw (stale_fencing_token id) db)
      × (fail_delivery_batch now id token how error db ≡ threw (stale_fencing_token id) db)
      × (set_delivery_thread now id token thread db ≡ threw (stale_fencing_token id) db)
unfolding update_delivery fail_delivery_batch fail_batch_in_transaction set_delivery_thread
    set_thread_in_transaction
superseded_sender_is_refused now id token db status fields how error thread lost =
    let missing = find_row_absent (holds_delivery id token) db.deliveries lost in
    (
      run_done _ _ db (
            update_deliveries-none (holds_delivery id token) (updated_delivery now status fields) db
              lost)
          ∙ require-false (0 == 1) (stale_fencing_token id) db refl,
      rolls_back _ db (
          query_run (λ d. find_row (holds_delivery id token) d.deliveries) _ db
          ∙ run_threw _ _ db (or_throw-none _ _ db missing)),
      rolls_back _ db (
          query_run (λ d. find_row (holds_delivery id token) d.deliveries) _ db
          ∙ run_threw _ _ db (or_throw-none _ _ db missing)),
    )

given_up_is_over :
    (now : ℕ) (error : String) (d : DeliveryRow)
    → is_unsent (given_up now failed error d).status ≡ false
unfolding given_up
given_up_is_over now error d = refl

given_up_chunk :
    (now : ℕ) (how : BatchEnd) (error : String) (d : DeliveryRow)
    → is_unsent (given_up now (batch_status how) error d).status ≡ false
unfolding given_up
given_up_chunk now as_failed error d = refl
given_up_chunk now as_ambiguous error d = refl

unsent_stays :
    (status : DeliveryStatus) (s : DeliveryRow) (job id : String)
    → is_unsent_sibling job id s ≡ false
    → str_eq s.id id ≡ false
    → s.job_id ≡ job
    → status ≡ s.status
    → is_unsent status ≡ false
unfolding is_unsent_sibling
unsent_stays status s job id miss other in_job same =
    let hit = (eq_iff s.job_id job).1 in_job in ap is_unsent same ∙ ground (arith, miss, other, hit)

other_row :
    (s row : DeliveryRow) (id : String) (token : ℕ)
    → holds_delivery id token row ≡ true
    → holds_delivery id token s ≡ false
    → (s.id ≡ row.id → s ≡ row)
    → str_eq s.id id ≡ false
unfolding holds_delivery
other_row s row id token held free same_of = elim (Bool-cases (str_eq s.id id)) [
  | inr miss ↦ miss
  | inl hit ↦
      let row_id : row.id ≡ id = (eq_iff row.id id).0 (ground arith) in
      let same = same_of ((eq_iff s.id id).0 hit ∙ sym row_id) in
      absurd (false≢true (sym free ∙ ap (holds_delivery id token) same ∙ held))
]

-- The two UPDATEs of a given-up batch.
no_chunk_left :
    (now : ℕ) (id : String) (token : ℕ) (how : BatchEnd) (error : String) (row : DeliveryRow)
    (rows : List DeliveryRow)
    → Unique (map (λ d. d.id) rows)
    → find_row (holds_delivery id token) rows ≡ some row
    → (d : DeliveryRow)
    → Memᴰ d (
        update_rows
          (is_unsent_sibling row.job_id id)
          (given_up now failed error)
          (update_rows (holds_delivery id token) (given_up now (batch_status how) error) rows))
    → d.job_id ≡ row.job_id
    → is_unsent d.status ≡ false
no_chunk_left now id token how error row rows keys found d m in_job =
    let p = holds_delivery id token in
    let q = is_unsent_sibling row.job_id id in
    let (e, me, de) = Memᴰ-update_rows q (given_up now failed error) _ m in
    elim (Bool-cases (q e)) [
      | inl hit ↦
          let same : d ≡ given_up now failed error e = rw hit at de in
          ap (λ z. is_unsent z.status) same ∙ given_up_is_over now error e
      | inr miss ↦
          let same : d ≡ e = rw miss at de in
          let (s, ms, es) = Memᴰ-update_rows p (given_up now (batch_status how) error) rows me in
          elim (Bool-cases (p s)) [
            | inl held ↦
                let given : e ≡ given_up now (batch_status how) error s = rw held at es in
                ap (λ z. is_unsent z.status) (same ∙ given) ∙ given_up_chunk now how error s
            | inr free ↦
                let old : e ≡ s = rw free at es in
                let (mr, holds_row) = find_row-Memᴰ p rows found in
                let other : str_eq s.id id ≡ false =
                  other_row s row id token holds_row free
                    (λ h. same_row (λ z. z.id) rows keys ms mr h) in
                unsent_stays d.status s row.job_id id
                  (subst (λ z. is_unsent_sibling row.job_id id z ≡ false) old miss) other
                  (sym (ap (λ z. z.job_id) (same ∙ old)) ∙ in_job) (ap (λ z. z.status) (same ∙ old))
          ]
    ]

-- A chunk of a job that is pending or waits for a retry.
abbrev pub is_unsent_of : String → DeliveryRow → Bool
is_unsent_of job d = str_eq d.job_id job && is_unsent d.status

no_unsent :
    (job : String) (d : DeliveryRow)
    → (d.job_id ≡ job → is_unsent d.status ≡ false)
    → is_unsent_of job d ≡ false
no_unsent job d over = elim (Bool-cases (str_eq d.job_id job)) [
  | inl same ↦ rw same (over ((eq_iff d.job_id job).0 same))
  | inr other ↦ rw other refl
]

-- Where delivery ids are unique and exactly one sending row has the id and the token,
-- `failDeliveryBatch` returns, and leaves no chunk of that job pending or waiting for a retry.
pub failed_batch_leaves_no_chunk :
    (now : ℕ) (id : String) (token : ℕ) (how : BatchEnd) (error : String) (db : Db)
    (row : DeliveryRow)
    → Unique (map (λ d. d.id) db.deliveries)
    → find_row (holds_delivery id token) db.deliveries ≡ some row
    → changes (holds_delivery id token) db.deliveries ≡ 1
    → (next : Db) × (fail_delivery_batch now id token how error db ≡ done tt next)
      × (any_row (is_unsent_of row.job_id) next.deliveries ≡ false)
unfolding fail_delivery_batch fail_batch_in_transaction
failed_batch_leaves_no_chunk now id token how error db row keys found one =
    let p = holds_delivery id token in
    let f = given_up now (batch_status how) error in
    let q = is_unsent_sibling row.job_id id in
    let g = given_up now failed error in
    let db1 = record db { deliveries = update_rows p f db.deliveries } in
    let db2 = record db { deliveries = update_rows q g (update_rows p f db.deliveries) } in
    (
      db2,
      commits _ db (
          query_run (λ d. find_row p d.deliveries) _ db
          ∙ run_done _ _ db (or_throw-some _ _ row db found)
          ∙ run_done _ _ db (update_deliveries_run p f db)
          ∙ then_done _ _ db1 (require-true _ _ db1 (ap (λ n. n == 1) one))
          ∙ run_done _ _ db1 (update_deliveries_run q g db1)
          ∙ pure_run tt db2),
      any_row_none (is_unsent_of row.job_id) db2.deliveries (λ d m.
          no_unsent row.job_id d
            (no_chunk_left now id token how error row db.deliveries keys found d m)),
    )
