-- ===== src/Queue/Sends.antt =====
-- What `claimDelivery` of src/queue/repository.ts returns, by the row that its selection finds.
-- The rows as the selection of `claimDelivery` sees them: lost sends are marked, threads recovered.
use my_discord_agent.Base.{
  ◌==◌, if◌then◌else◌, select, update_rows, changes, Memᴰ-select, Unique, map-update_rows,
  changes-one, ℕ, ◌+◌, String, ◌≡◌, refl, sym, ap, subst, ◌∙◌, Bool, true, ◌&&◌, none, some, map,
  Memᴰ, arith, str_eq, eq_iff,
}
use my_discord_agent.Queue.Delivery.{
  is_unsent, is_lost, lost_row, needs_thread, recovered_thread, is_sendable, first_delivery,
  DeliveryClaim, sending_row, send_row, claim_delivery_in_transaction, claim_delivery,
}
use my_discord_agent.Queue.LostSends.{
  first_delivery-Memᴰ, sendable_is_unsent, lost_row-id, recovered_thread-id,
}
use my_discord_agent.Queue.Rows.{DeliveryRow}
use my_discord_agent.Queue.Runs.{run_done, query_run, update_deliveries_run, pure_run}
use my_discord_agent.Queue.Store.{
  Db, done, M, pure, Verdict, commit, rollback, in_immediate_transaction,
}

abbrev pub marked_rows : ℕ → Db → Db
marked_rows now db = record db {
  deliveries =
      update_rows (needs_thread db.jobs) (recovered_thread db.jobs now)
        (update_rows (is_lost now) (lost_row now) db.deliveries);
}

-- The delivery that is claimed for a row, and the rows after it.
abbrev pub sent_for : ℕ → String → ℕ → DeliveryRow → DeliveryClaim
sent_for now worker lease_ms row = record {
  row = sending_row now worker lease_ms row row;
  fencing_token = row.fencing_token + 1;
}

abbrev pub sent_from : ℕ → String → ℕ → DeliveryRow → Db → Db
sent_from now worker lease_ms row db = record db {
  deliveries =
      update_rows (λ d. str_eq d.id row.id && is_unsent d.status)
        (sending_row now worker lease_ms row) db.deliveries;
}

send_row_takes :
    (now : ℕ) (worker : String) (lease_ms : ℕ) (db : Db) (row : DeliveryRow)
    → Unique (map (λ d. d.id) db.deliveries)
    → Memᴰ row db.deliveries
    → is_unsent row.status ≡ true
    → send_row now worker lease_ms (some row) db
      ≡ done
          (commit (some (sent_for now worker lease_ms row)))
          (sent_from now worker lease_ms row db)
unfolding send_row
send_row_takes now worker lease_ms db row keys at unsent =
    let same = (eq_iff row.id row.id).1 refl in
    let p : DeliveryRow → Bool = λ d. str_eq d.id row.id && is_unsent d.status in
    let f = sending_row now worker lease_ms row in
    let next = sent_from now worker lease_ms row db in
    let c = sent_for now worker lease_ms row in
    let one : changes p db.deliveries ≡ 1 =
      changes-one (λ (d : DeliveryRow). d.id) p row (ground (arith, same, unsent))
        (λ y h. (eq_iff y.id row.id).0 (ground (arith, h))) db.deliveries keys at in
    run_done _ _ db (update_deliveries_run p f db)
    ∙ ap (λ n. pure (if n == 1 then commit (some c) else rollback) next) one
    ∙ pure_run (commit (some c)) next

pub marked_ids :
    (now : ℕ) (db : Db)
    → Unique (map (λ d. d.id) db.deliveries)
    → Unique (map (λ d. d.id) (marked_rows now db).deliveries)
marked_ids now db keys =
    let id : DeliveryRow → String = λ d. d.id in
    subst Unique
      (sym (
        map-update_rows id (needs_thread db.jobs) (recovered_thread db.jobs now)
          (update_rows (is_lost now) (lost_row now) db.deliveries) (recovered_thread-id db.jobs now)
        ∙ map-update_rows id (is_lost now) (lost_row now) db.deliveries (lost_row-id now)))
      keys

-- `claimDelivery` is the claim of the first sendable row among the marked ones.
claim_body_is :
    (now : ℕ) (worker : String) (lease_ms : ℕ) (db : Db)
    → claim_delivery_in_transaction now worker lease_ms db
      ≡ send_row now worker lease_ms
          (first_delivery
            (select (is_sendable now (marked_rows now db)) (marked_rows now db).deliveries))
          (marked_rows now db)
unfolding claim_delivery_in_transaction
claim_body_is now worker lease_ms db =
    let p = is_lost now in
    let f = lost_row now in
    let q = needs_thread db.jobs in
    let g = recovered_thread db.jobs now in
    let db1 = record db { deliveries = update_rows p f db.deliveries } in
    run_done _ _ db (update_deliveries_run p f db)
    ∙ query_run (λ d. d.jobs) _ db1
    ∙ run_done _ _ db1 (update_deliveries_run q g db1)
    ∙ query_run (λ d. first_delivery (select (is_sendable now d) d.deliveries)) _
        (marked_rows now db)

committed :
    {A : Type 0} (otherwise a : A) (body : M (Verdict A)) (db next : Db)
    → body db ≡ done (commit a) next
    → in_immediate_transaction otherwise body db ≡ done a next
unfolding in_immediate_transaction
committed otherwise a body db next e = rw (in_immediate_transaction, e) refl

-- What `claimDelivery` returns, by what the selection finds.
pub claims_nothing :
    (now : ℕ) (worker : String) (lease_ms : ℕ) (db : Db)
    → first_delivery (select (is_sendable now (marked_rows now db)) (marked_rows now db).deliveries)
      ≡ none
    → claim_delivery now worker lease_ms db ≡ done none (marked_rows now db)
unfolding claim_delivery send_row
claims_nothing now worker lease_ms db nothing = committed _ _ _ db (marked_rows now db) (
    claim_body_is now worker lease_ms db
    ∙ ap (λ o. send_row now worker lease_ms o (marked_rows now db)) nothing
    ∙ pure_run (commit none) (marked_rows now db))

pub claims_first :
    (now : ℕ) (worker : String) (lease_ms : ℕ) (db : Db) (row : DeliveryRow)
    → Unique (map (λ d. d.id) db.deliveries)
    → first_delivery (select (is_sendable now (marked_rows now db)) (marked_rows now db).deliveries)
      ≡ some row
    → claim_delivery now worker lease_ms db
      ≡ done
          (some (sent_for now worker lease_ms row))
          (sent_from now worker lease_ms row (marked_rows now db))
unfolding claim_delivery
claims_first now worker lease_ms db row keys found =
    let db2 = marked_rows now db in
    let (at, ok) = Memᴰ-select (is_sendable now db2) db2.deliveries (first_delivery-Memᴰ _ found) in
    committed _ _ _ db (sent_from now worker lease_ms row db2) (
      claim_body_is now worker lease_ms db
      ∙ ap (λ o. send_row now worker lease_ms o db2) found
      ∙ send_row_takes now worker lease_ms db2 row (marked_ids now db keys) at
          (sendable_is_unsent now db2 row ok))
