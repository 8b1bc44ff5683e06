-- ===== src/Queue/Delivery.antt =====
-- The outbox: `claimDelivery` and the writes of the delivery worker (src/queue/repository.ts).
use my_discord_agent.Base.{
  ltb, leb, ◌==◌, if◌then◌else◌, get_or, is_some, is_none, at_most, select, find_row, any_row, ℕ,
  ◌+◌, max, String, Bool, true, false, ◌&&◌, ◌||◌, not, Option, none, some, List, [], ◌∷◌, str_eq,
}
use my_discord_agent.Queue.Payload.{get, is_str, is_not_null, as_str}
use my_discord_agent.Queue.Rows.{
  JobRow, DeliveryStatus, pending, sending, sent, failed, ambiguous, DeliveryRow,
}
use my_discord_agent.Queue.Store.{
  Db, M, ◌>>=◌, pure, query, Verdict, commit, rollback, in_immediate_transaction, update_deliveries,
}

-- `status IN ('pending','retry_wait')`
abbrev pub is_unsent : DeliveryStatus → Bool
is_unsent pending = true
is_unsent DeliveryStatus.retry_wait = true
is_unsent _ = false

abbrev pub is_sending : DeliveryStatus → Bool
is_sending sending = true
is_sending _ = false

abbrev pub is_sent : DeliveryStatus → Bool
is_sent sent = true
is_sent _ = false

abbrev pub is_failed : DeliveryStatus → Bool
is_failed failed = true
is_failed _ = false

abbrev pub is_ambiguous : DeliveryStatus → Bool
is_ambiguous ambiguous = true
is_ambiguous _ = false

-- A send whose lease ran out may have reached Discord.
unfoldable pub is_lost : ℕ → DeliveryRow → Bool
is_lost now d = is_sending d.status && at_most d.lease_until now

unfoldable pub lost_row : ℕ → DeliveryRow → DeliveryRow
lost_row now d = record d {
  status = ambiguous;
  lease_until = none;
  worker_id = none;
  last_error = some (get_or d.last_error "sending lease expired");
  updated_at = now;
}

-- The thread that a job's payload records for an item-thread delivery.
unfoldable pub item_thread : List JobRow → String → Option String
item_thread jobs job_id =
    elim (find_row
      (λ j.
        str_eq j.id job_id
        && (is_str (get "cronDeliveryMode" j.payload) "item-thread"
            && is_not_null (get "cronThreadId" j.payload)))
      jobs) [ none ↦ none | some j ↦ as_str (get "cronThreadId" j.payload) ]

-- Recover the thread of an unsent row from its job.
unfoldable pub needs_thread : List JobRow → DeliveryRow → Bool
needs_thread jobs d =
    is_none d.cron_thread_id && (is_unsent d.status && is_some (item_thread jobs d.job_id))

unfoldable pub recovered_thread : List JobRow → ℕ → DeliveryRow → DeliveryRow
recovered_thread jobs now d = record d {
  cron_thread_id = item_thread jobs d.job_id;
  updated_at = now;
}

-- `source_job.allow_failed_predecessor=1`
unfoldable pub allows_failed : List JobRow → String → Bool
allows_failed jobs job_id = any_row (λ j. str_eq j.id job_id && j.allow_failed_predecessor) jobs

-- An earlier chunk of the same job that holds the candidate back.
unfoldable pub holds_back : List JobRow → DeliveryRow → DeliveryRow → Bool
holds_back jobs candidate d =
    str_eq d.job_id candidate.job_id
    && (ltb d.response_index candidate.response_index
        && (not (is_sent d.status)
            && not (allows_failed jobs candidate.job_id && is_failed d.status)))

unfoldable pub due : ℕ → Option ℕ → Bool
due now none = true
due now (some at) = leb at now

unfoldable pub is_sendable : ℕ → Db → DeliveryRow → Bool
is_sendable now db d =
    is_unsent d.status
    && (due now d.next_attempt_at && not (any_row (holds_back db.jobs d) db.deliveries))

-- ORDER BY created_at,response_index,rowid LIMIT 1
unfoldable pub earlier : DeliveryRow → DeliveryRow → Bool
earlier a b =
    ltb a.created_at b.created_at
    || (a.created_at == b.created_at && ltb a.response_index b.response_index)

unfoldable pub first_delivery : List DeliveryRow → Option DeliveryRow
first_delivery [] = none
first_delivery (d ∷ rows) = elim (first_delivery rows) [
  | none ↦ some d
  | some best ↦ some (if earlier best d then best else d)
]

pub record DeliveryClaim : Type 0 where
  pub row : DeliveryRow
  pub fencing_token : ℕ

unfoldable pub sending_row : ℕ → String → ℕ → DeliveryRow → DeliveryRow → DeliveryRow
sending_row now worker lease_ms row d = record d {
  status = sending;
  attempts = d.attempts + 1;
  lease_until = some (now + max 1 lease_ms);
  worker_id = some worker;
  fencing_token = row.fencing_token + 1;
  updated_at = now;
}

unfoldable pub send_row : ℕ → String → ℕ → Option DeliveryRow → M (Verdict (Option DeliveryClaim))
send_row now worker lease_ms none = pure (commit none)
send_row now worker lease_ms (some row) = do
  changed ←
      update_deliveries (λ d. str_eq d.id row.id && is_unsent d.status)
        (sending_row now worker lease_ms row)
  pure (
      if changed == 1
      then commit (
          some (record {
            row = sending_row now worker lease_ms row row;
            fencing_token = row.fencing_token + 1;
          }))
      else rollback)

unfoldable pub claim_delivery_in_transaction : ℕ → String → ℕ → M (Verdict (Option DeliveryClaim))
claim_delivery_in_transaction now worker lease_ms = do
  _ ← update_deliveries (is_lost now) (lost_row now)
  jobs ← query (λ db. db.jobs)
  _ ← update_deliveries (needs_thread jobs) (recovered_thread jobs now)
  best ← query (λ db. first_delivery (select (is_sendable now db) db.deliveries))
  send_row now worker lease_ms best

unfoldable pub claim_delivery : ℕ → String → ℕ → M (Option DeliveryClaim)
claim_delivery now worker lease_ms =
    in_immediate_transaction none (claim_delivery_in_transaction now worker lease_ms)
