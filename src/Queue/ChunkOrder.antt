-- ===== src/Queue/ChunkOrder.antt =====
-- The order in which `claimDelivery` of src/queue/repository.ts takes the chunks of an answer.
use mathlib.Core.Option
use my_discord_agent.Base.{
  if◌then◌else◌, Bool-cases, Option-cases, select, Memᴰ-update_rows, Memᴰ-select, any_row-false,
  any_row-true, Unique, same_row, ℕ, ◌<◌, String, ◌≡◌, refl, sym, ap, subst, ◌∙◌, ◌⊎◌, inl, inr,
  Bool, true, ◌&&◌, ◌||◌, Option, none, some, List, map, Memᴰ, arith, str_eq, eq_iff,
}
use my_discord_agent.Queue.Delivery.{
  is_unsent, is_sent, is_failed, allows_failed, holds_back, is_sendable, first_delivery,
  DeliveryClaim, sending_row, claim_delivery,
}
use my_discord_agent.Queue.LostSends.{first_delivery-Memᴰ}
use my_discord_agent.Queue.Rows.{
  JobRow, DeliveryStatus, pending, sending, sent, failed, ambiguous, DeliveryRow,
}
use my_discord_agent.Queue.Sends.{marked_rows, sent_from, marked_ids, claims_nothing, claims_first}
use my_discord_agent.Queue.Store.{Db, Outcome, done, threw, after}

sendable_waits_for_none :
    (now : ℕ) (db : Db) (d e : DeliveryRow)
    → is_sendable now db d ≡ true
    → Memᴰ e db.deliveries
    → e.job_id ≡ d.job_id
    → e.response_index < d.response_index
    → (is_sent e.status || (allows_failed db.jobs d.job_id && is_failed e.status)) ≡ true
unfolding is_sendable holds_back
sendable_waits_for_none now db d e ok m job before =
    let clear = any_row-false (holds_back db.jobs d) db.deliveries {x = e} (ground arith) m in
    let same = (eq_iff e.job_id d.job_id).1 job in unfold holds_back in ground (arith, clear, same)

abbrev value_of : {A : Type 0} → Outcome (Option A) → Option A
value_of (done v db) = v
value_of (threw why db) = none

-- A row that the claim leaves, of a chunk before the claimed one, is a row that was there before it.
not_the_claimed :
    (now : ℕ) (worker : String) (lease_ms : ℕ) (row e : DeliveryRow) (db : Db)
    → Unique (map (λ d. d.id) db.deliveries)
    → Memᴰ row db.deliveries
    → Memᴰ e (sent_from now worker lease_ms row db).deliveries
    → e.response_index < row.response_index
    → Memᴰ e db.deliveries
unfolding sending_row
not_the_claimed now worker lease_ms row e db keys at m before =
    let p : DeliveryRow → Bool = λ d. str_eq d.id row.id && is_unsent d.status in
    let (y, my, is) = Memᴰ-update_rows p (sending_row now worker lease_ms row) db.deliveries m in
    elim (Bool-cases (p y)) [
      | inr miss ↦
          subst (λ z. Memᴰ z db.deliveries)
            (sym (is ∙ ap (λ b. if b then sending_row now worker lease_ms row y else y) miss)) my
      | inl hit ↦
          let same : y ≡ row =
            same_row (λ d. d.id) db.deliveries keys my at
              ((eq_iff y.id row.id).0 (ground (arith, hit))) in
          let at_place : e.response_index ≡ y.response_index =
            ap (λ d. d.response_index)
              (is ∙ ap (λ b. if b then sending_row now worker lease_ms row y else y) hit) in
          let place : y.response_index ≡ row.response_index = ap (λ d. d.response_index) same in
          absurd (omega (arith, before, at_place, place))
    ]

is_sent-sent : (s : DeliveryStatus) → is_sent s ≡ true → s ≡ sent
is_sent-sent sent h = refl
is_sent-sent pending h = cc
is_sent-sent DeliveryStatus.retry_wait h = cc
is_sent-sent sending h = cc
is_sent-sent failed h = cc
is_sent-sent ambiguous h = cc

is_failed-failed : (s : DeliveryStatus) → is_failed s ≡ true → s ≡ failed
is_failed-failed failed h = refl
is_failed-failed pending h = cc
is_failed-failed DeliveryStatus.retry_wait h = cc
is_failed-failed sending h = cc
is_failed-failed sent h = cc
is_failed-failed ambiguous h = cc

out_cases :
    (jobs left : List JobRow) (row e : DeliveryRow)
    → e.job_id ≡ row.job_id
    → jobs ≡ left
    → (is_sent e.status || (allows_failed jobs row.job_id && is_failed e.status)) ≡ true
    → (e.status ≡ sent)
      ⊎ ((e.status ≡ failed)
          × ((j : JobRow) × Memᴰ j left × (j.id ≡ e.job_id) × (j.allow_failed_predecessor ≡ true)))
unfolding allows_failed
out_cases jobs left row e job same h = elim (Bool-cases (is_sent e.status)) [
  | inl out ↦ inl (is_sent-sent e.status out)
  | inr still ↦
      let (j, at, ok) =
        any_row-true (λ j. str_eq j.id row.job_id && j.allow_failed_predecessor) jobs
          (ground (arith, h, still)) in
      inr (
        is_failed-failed e.status (ground (arith, h, still)),
        (
          j,
          subst (Memᴰ j) same at,
          (eq_iff j.id row.job_id).0 (ground (arith, ok)) ∙ sym job,
          ground (arith, ok),
        ),
      )
]

-- Where delivery ids are unique and `claimDelivery` returns a delivery, every earlier chunk of that
-- delivery's job in the database that it leaves has been sent, or has failed where the job's source
-- lets later chunks follow a failed one.
pub chunks_go_in_order :
    (now : ℕ) (worker : String) (lease_ms : ℕ) (db next : Db) (c : DeliveryClaim) (e : DeliveryRow)
    → Unique (map (λ d. d.id) db.deliveries)
    → claim_delivery now worker lease_ms db ≡ done (some c) next
    → Memᴰ e next.deliveries
    → e.job_id ≡ c.row.job_id
    → e.response_index < c.row.response_index
    → (e.status ≡ sent)
      ⊎ ((e.status ≡ failed)
          × ((j : JobRow) × Memᴰ j next.jobs
              × (j.id ≡ e.job_id)
              × (j.allow_failed_predecessor ≡ true)))
unfolding sending_row
chunks_go_in_order now worker lease_ms db next c e keys claims m job before =
    let db2 = marked_rows now db in
    elim (Option-cases (first_delivery (select (is_sendable now db2) db2.deliveries))) [
      | inl nothing ↦ absurd (
          let no_claim : none ≡ some c =
            ap value_of (sym (claims_nothing now worker lease_ms db nothing) ∙ claims) in
          ground (arith, no_claim))
      | inr (row, found) ↦
          let same = sym (claims_first now worker lease_ms db row keys found) ∙ claims in
          let is_row : sending_row now worker lease_ms row row ≡ c.row =
            ap (λ d. d.row) (Option.some-injective _ _ (ap value_of same)) in
          let leaves : sent_from now worker lease_ms row db2 ≡ next = ap after same in
          let of_job : row.job_id ≡ c.row.job_id = ap (λ d. d.job_id) is_row in
          let place : row.response_index ≡ c.row.response_index =
            ap (λ d. d.response_index) is_row in
          let (at, ok) =
            Memᴰ-select (is_sendable now db2) db2.deliveries (first_delivery-Memᴰ _ found) in
          let stood =
            not_the_claimed now worker lease_ms row e db2 (marked_ids now db keys) at
              (subst (λ d. Memᴰ e d.deliveries) (sym leaves) m) (omega (arith, before, place)) in
          out_cases db2.jobs next.jobs row e (job ∙ sym of_job) (ap (λ d. d.jobs) leaves) (
            sendable_waits_for_none now db2 row e ok stood (job ∙ sym of_job)
              (omega (arith, before, place)))
    ]
