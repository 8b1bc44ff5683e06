-- ===== src/Queue/Invariant/Deliveries.antt =====
-- The operations on deliveries (src/queue/repository.ts) and the table of jobs.
use my_discord_agent.Base.{ℕ, String, Bool, Option, none, some, List}
use my_discord_agent.Queue.Delivery.{send_row, claim_delivery_in_transaction, claim_delivery}
use my_discord_agent.Queue.DeliveryWrites.{
  DeliveryFields, update_delivery, fail_batch_in_transaction, BatchEnd, fail_delivery_batch,
  Resolution, resolve_ambiguous_delivery, set_thread_in_transaction, set_delivery_thread,
}
use my_discord_agent.Queue.Keeps.{
  Keeps, Keeps-bind, Keeps-then, Keeps-pure, Keeps-query, Keeps-require, Keeps-or_throw,
  Keeps-transaction,
}
use my_discord_agent.Queue.Rows.{JobRow, DeliveryStatus, DeliveryRow}
use my_discord_agent.Queue.Store.{
  Db, Outcome, done, threw, M, after, Verdict, commit, rollback, in_immediate_transaction,
  update_deliveries,
}

module _ {κ} (J : List JobRow → Type κ) where
  abbrev KeepsJobs : {A : Type 0} → M A → Type κ
  KeepsJobs = Keeps (λ db. J db.jobs)

  update_deliveries-KeepsJobs :
      (p : DeliveryRow → Bool) (f : DeliveryRow → DeliveryRow) → KeepsJobs (update_deliveries p f)
  unfolding update_deliveries
  update_deliveries-KeepsJobs p f = record { keeps = λ db h. h }

  undone :
      {A : Type 0} (r : Outcome (Verdict A)) (u : A) (db : Db)
      → J db.jobs
      → J (after r).jobs
      → J
          (after (elim r as (λ _. Outcome A) [
            | done v next ↦ elim v [ commit a ↦ done a next | rollback ↦ done u db ]
            | threw e next ↦ threw e db
          ])).jobs
  undone (done (commit a) next) u db h h' = h'
  undone (done rollback next) u db h h' = h
  undone (threw e next) u db h h' = h

  send_row-KeepsJobs :
      (now : ℕ) (worker : String) (lease : ℕ) (o : Option DeliveryRow)
      → KeepsJobs (send_row now worker lease o)
  unfolding send_row
  send_row-KeepsJobs now worker lease none = Keeps-pure _ _
  send_row-KeepsJobs now worker lease (some row) =
      Keeps-bind _ (update_deliveries-KeepsJobs _ _) (λ n. Keeps-pure _ _)

  claim_body-KeepsJobs :
      (now : ℕ) (worker : String) (lease : ℕ)
      → KeepsJobs (claim_delivery_in_transaction now worker lease)
  unfolding claim_delivery_in_transaction
  claim_body-KeepsJobs now worker lease = Keeps-bind _ (update_deliveries-KeepsJobs _ _) (λ n.
      Keeps-bind _ (Keeps-query _ _) (λ jobs.
        Keeps-bind _ (update_deliveries-KeepsJobs _ _)
          (λ m. Keeps-bind _ (Keeps-query _ _) (λ best. send_row-KeepsJobs now worker lease best))))

  pub claim_delivery-KeepsJobs :
      (now : ℕ) (worker : String) (lease : ℕ) → KeepsJobs (claim_delivery now worker lease)
  unfolding claim_delivery in_immediate_transaction
  claim_delivery-KeepsJobs now worker lease = record {
    keeps = λ db h.
        undone (claim_delivery_in_transaction now worker lease db) none db h
          ((claim_body-KeepsJobs now worker lease).keeps db h);
  }

  pub update_delivery-KeepsJobs :
      (now : ℕ) (id : String) (token : ℕ) (status : DeliveryStatus) (fields : DeliveryFields)
      → KeepsJobs (update_delivery now id token status fields)
  unfolding update_delivery
  update_delivery-KeepsJobs now id token status fields =
      Keeps-bind _ (update_deliveries-KeepsJobs _ _) (λ n. Keeps-require _ _ _)

  pub fail_delivery_batch-KeepsJobs :
      (now : ℕ) (id : String) (token : ℕ) (how : BatchEnd) (error : String)
      → KeepsJobs (fail_delivery_batch now id token how error)
  unfolding fail_delivery_batch fail_batch_in_transaction
  fail_delivery_batch-KeepsJobs now id token how error = Keeps-transaction _ (
      Keeps-bind _ (Keeps-query _ _) (λ found. Keeps-bind _ (Keeps-or_throw _ _ _) (λ row.
        Keeps-bind _ (update_deliveries-KeepsJobs _ _) (λ n.
          Keeps-then _ (Keeps-require _ _ _)
            (Keeps-bind _ (update_deliveries-KeepsJobs _ _) (λ m. Keeps-pure _ tt))))))

  pub resolve-KeepsJobs :
      (now : ℕ) (id : String) (how : Resolution) (external : Option String)
      → KeepsJobs (resolve_ambiguous_delivery now id how external)
  unfolding resolve_ambiguous_delivery
  resolve-KeepsJobs now id how external =
      Keeps-bind _ (update_deliveries-KeepsJobs _ _) (λ n. Keeps-pure _ tt)

  pub set_delivery_thread-KeepsJobs :
      (now : ℕ) (id : String) (token : ℕ) (thread : String)
      → KeepsJobs (set_delivery_thread now id token thread)
  unfolding set_delivery_thread set_thread_in_transaction
  set_delivery_thread-KeepsJobs now id token thread = Keeps-transaction _ (
      Keeps-bind _ (Keeps-query _ _) (λ found. Keeps-bind _ (Keeps-or_throw _ _ _) (λ row.
        Keeps-bind _ (update_deliveries-KeepsJobs _ _)
          (λ n. Keeps-bind _ (update_deliveries-KeepsJobs _ _) (λ m. Keeps-pure _ tt)))))
