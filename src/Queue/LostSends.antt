-- ===== src/Queue/LostSends.antt =====
-- Sends whose worker has gone (`claimDelivery` of src/queue/repository.ts).
use my_discord_agent.Base.{
  ◌==◌, if◌then◌else◌, Bool-cases, Option-cases, select, any_row, update_rows, changes,
  Memᴰ-update_rows, Memᴰ-select, any_row_none, Unique, map-update_rows, changes-one, ℕ, ◌+◌, String,
  ◌≡◌, refl, sym, ap, subst, ◌∙◌, inl, inr, Bool, true, false, ◌&&◌, Option, none, some, List, [],
  ◌∷◌, map, Memᴰ, arith, str_eq, eq_iff,
}
use my_discord_agent.Queue.Delivery.{
  is_unsent, is_lost, lost_row, needs_thread, recovered_thread, is_sendable, earlier,
  first_delivery, DeliveryClaim, sending_row, send_row, claim_delivery_in_transaction,
  claim_delivery,
}
use my_discord_agent.Queue.Keeps.{Keeps, Keeps-outcome, Keeps-bind, Keeps-pure, Keeps-query}
use my_discord_agent.Queue.Rows.{JobRow, DeliveryRow}
use my_discord_agent.Queue.Runs.{run_done, query_run, update_deliveries_run, pure_run}
use my_discord_agent.Queue.Store.{
  Db, Outcome, done, threw, ◌>>=◌, pure, after, commit, rollback, in_immediate_transaction,
  update_deliveries,
}

-- No delivery is still marked as being sent under a lease that has ended.
NoneLost : ℕ → Db → Type 0
NoneLost now db = (d : DeliveryRow) → Memᴰ d db.deliveries → is_lost now d ≡ false

update_deliveries-NoneLost :
    (now : ℕ) (p : DeliveryRow → Bool) (f : DeliveryRow → DeliveryRow)
    → ((d : DeliveryRow) → p d ≡ true → is_lost now d ≡ false → is_lost now (f d) ≡ false)
    → Keeps (NoneLost now) (update_deliveries p f)
unfolding update_deliveries NoneLost
update_deliveries-NoneLost now p f good = record {
  keeps = λ db h r m.
      let (d, at, e) = Memᴰ-update_rows p f db.deliveries m in
      elim (Bool-cases (p d)) [
        | inl hit ↦ ap (is_lost now) (rw hit at e) ∙ good d hit (h d at)
        | inr miss ↦ ap (is_lost now) (rw miss at e) ∙ h d at
      ];
}

marked_is_not_lost : (now : ℕ) (d : DeliveryRow) → is_lost now (lost_row now d) ≡ false
unfolding is_lost lost_row
marked_is_not_lost now d = refl

lost_are_marked :
    (now : ℕ) (db : Db) → NoneLost now (after (update_deliveries (is_lost now) (lost_row now) db))
unfolding update_deliveries NoneLost
lost_are_marked now db r m =
    let (d, at, e) = Memᴰ-update_rows (is_lost now) (lost_row now) db.deliveries m in
    elim (Bool-cases (is_lost now d)) [
      | inl hit ↦ ap (is_lost now) (rw hit at e) ∙ marked_is_not_lost now d
      | inr miss ↦ ap (is_lost now) (rw miss at e) ∙ miss
    ]

threaded_is_not_lost :
    (jobs : List JobRow) (now : ℕ) (d : DeliveryRow)
    → is_lost now d ≡ false
    → is_lost now (recovered_thread jobs now d) ≡ false
unfolding is_lost recovered_thread
threaded_is_not_lost jobs now d h = h

sending_is_not_lost :
    (now : ℕ) (worker : String) (lease_ms : ℕ) (row d : DeliveryRow)
    → is_lost now (sending_row now worker lease_ms row d) ≡ false
unfolding is_lost sending_row
sending_is_not_lost now worker lease_ms row d = ground arith

send_row-NoneLost :
    (now : ℕ) (worker : String) (lease_ms : ℕ) (o : Option DeliveryRow)
    → Keeps (NoneLost now) (send_row now worker lease_ms o)
unfolding send_row
send_row-NoneLost now worker lease_ms none = Keeps-pure _ _
send_row-NoneLost now worker lease_ms (some row) =
    Keeps-bind _
      (update_deliveries-NoneLost now _ _ (λ d h k. sending_is_not_lost now worker lease_ms row d))
      (λ n. Keeps-pure _ _)

claim_body-NoneLost :
    (now : ℕ) (worker : String) (lease_ms : ℕ) (db : Db)
    → NoneLost now (after (claim_delivery_in_transaction now worker lease_ms db))
unfolding claim_delivery_in_transaction ◌>>=◌
claim_body-NoneLost now worker lease_ms db =
    Keeps-outcome (NoneLost now) (update_deliveries (is_lost now) (lost_row now) db) _
      (λ n. Keeps-bind _ (Keeps-query _ _) (λ jobs.
        Keeps-bind _
          (update_deliveries-NoneLost now _ _ (λ d h k. threaded_is_not_lost jobs now d k))
          (λ m.
            Keeps-bind _ (Keeps-query _ _) (λ best. send_row-NoneLost now worker lease_ms best))))
      (lost_are_marked now db)

pub first_delivery-Memᴰ :
    (rows : List DeliveryRow) {best : DeliveryRow}
    → first_delivery rows ≡ some best
    → Memᴰ best rows
unfolding first_delivery
first_delivery-Memᴰ [] e = absurd (ground arith)
first_delivery-Memᴰ (d ∷ rows) {best} e = elim (Option-cases (first_delivery rows)) [
  | inl nothing ↦ Memᴰ.head (ground (arith, nothing))
  | inr (b, found) ↦
      let rest = first_delivery-Memᴰ rows found in
      elim (Bool-cases (earlier b d)) [
        | inl keep ↦ Memᴰ.tail (subst (λ z. Memᴰ z rows) (ground arith) rest)
        | inr new ↦ Memᴰ.head (ground arith)
      ]
]

pub sendable_is_unsent :
    (now : ℕ) (db : Db) (d : DeliveryRow) → is_sendable now db d ≡ true → is_unsent d.status ≡ true
unfolding is_sendable
sendable_is_unsent now db d h = ground arith

-- The row that is chosen is still there to be taken.
send_row-commits :
    (now : ℕ) (worker : String) (lease_ms : ℕ) (db : Db) (o : Option DeliveryRow)
    → Unique (map (λ d. d.id) db.deliveries)
    → first_delivery (select (is_sendable now db) db.deliveries) ≡ o
    → (c : Option DeliveryClaim) × (next : Db) × (send_row now worker lease_ms o db
        ≡ done (commit c) next)
unfolding send_row
send_row-commits now worker lease_ms db none keys e = (none, db, pure_run (commit none) db)
send_row-commits now worker lease_ms db (some row) keys e =
    let (at, ok) = Memᴰ-select (is_sendable now db) db.deliveries (first_delivery-Memᴰ _ e) in
    let same = (eq_iff row.id row.id).1 refl in
    let unsent = sendable_is_unsent now db row ok in
    let p : DeliveryRow → Bool = λ d. str_eq d.id row.id && is_unsent d.status in
    let f = sending_row now worker lease_ms row in
    let next : Db = record db { deliveries = update_rows p f db.deliveries } in
    let c : DeliveryClaim = record { row = f row; fencing_token = row.fencing_token + 1 } in
    let one : changes p db.deliveries ≡ 1 =
      changes-one (λ (d : DeliveryRow). d.id) p row (ground (arith, same, unsent))
        (λ y h. (eq_iff y.id row.id).0 (ground (arith, h))) db.deliveries keys at in
    (
      some c,
      next,
      run_done _ _ db (update_deliveries_run p f db)
          ∙ ap (λ n. pure (if n == 1 then commit (some c) else rollback) next) one
          ∙ pure_run (commit (some c)) next,
    )

pub lost_row-id : (now : ℕ) (d : DeliveryRow) → (lost_row now d).id ≡ d.id
unfolding lost_row
lost_row-id now d = refl

pub recovered_thread-id :
    (jobs : List JobRow) (now : ℕ) (d : DeliveryRow) → (recovered_thread jobs now d).id ≡ d.id
unfolding recovered_thread
recovered_thread-id jobs now d = refl

claim_body-commits :
    (now : ℕ) (worker : String) (lease_ms : ℕ) (db : Db)
    → Unique (map (λ d. d.id) db.deliveries)
    → (c : Option DeliveryClaim) × (next : Db) × (claim_delivery_in_transaction now worker lease_ms
          db
        ≡ done (commit c) next)
unfolding claim_delivery_in_transaction
claim_body-commits now worker lease_ms db keys =
    let id : DeliveryRow → String = λ d. d.id in
    let p = is_lost now in
    let f = lost_row now in
    let q = needs_thread db.jobs in
    let g = recovered_thread db.jobs now in
    let db1 = record db { deliveries = update_rows p f db.deliveries } in
    let db2 = record db { deliveries = update_rows q g (update_rows p f db.deliveries) } in
    let keys2 =
      subst Unique
        (sym (
          map-update_rows id q g db1.deliveries (recovered_thread-id db.jobs now)
          ∙ map-update_rows id p f db.deliveries (lost_row-id now)))
        keys in
    let (c, next, e) = send_row-commits now worker lease_ms db2 _ keys2 refl in
    (
      c,
      next,
      run_done _ _ db (update_deliveries_run p f db)
          ∙ query_run (λ d. d.jobs) _ db1
          ∙ run_done _ _ db1 (update_deliveries_run q g db1)
          ∙ query_run (λ d. first_delivery (select (is_sendable now d) d.deliveries)) _ db2
          ∙ e,
    )

-- Where delivery ids are unique, `claimDelivery` returns and is not rolled back, and leaves no delivery
-- that is still marked as being sent under a lease that has ended.
pub claim_marks_lost_sends :
    (now : ℕ) (worker : String) (lease_ms : ℕ) (db : Db)
    → Unique (map (λ d. d.id) db.deliveries)
    → (c : Option DeliveryClaim) × (next : Db) × (claim_delivery_in_transaction now worker lease_ms
          db
        ≡ done (commit c) next)
      × (claim_delivery now worker lease_ms db ≡ done c next)
      × (any_row (is_lost now) next.deliveries ≡ false)
unfolding claim_delivery in_immediate_transaction NoneLost
claim_marks_lost_sends now worker lease_ms db keys =
    let (c, next, e) = claim_body-commits now worker lease_ms db keys in
    (
      c,
      next,
      e,
      ap
          (λ r. elim r as (λ _. Outcome (Option DeliveryClaim)) [
            | done v after_body ↦ elim v [ commit a ↦ done a after_body | rollback ↦ done none db ]
            | threw why after_body ↦ threw why db
          ])
          e,
      any_row_none (is_lost now) next.deliveries
          (subst (λ r. NoneLost now (after r)) e (claim_body-NoneLost now worker lease_ms db)),
    )
