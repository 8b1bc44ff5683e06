-- ===== src/Queue/DeliveryExamples.antt =====
-- The properties of deliveries, answers and cursors at concrete inputs.
use mathlib.Core.List.Memᴰ
use mathlib.Core.Bool.{false≢true}
use my_discord_agent.Base.{
  get_elem?, codes, select, find_row, any_row, update_rows, changes, Unique, ◌≡◌, refl, sym, ◌∙◌,
  ◌⊎◌, inl, inr, true, false, Option, none, some, [], ◌∷◌, map, Memᴰ, arith, eq_iff,
}
use my_discord_agent.Message.Fence.{split_message}
use my_discord_agent.Message.Text.{Text}
use my_discord_agent.Queue.Answers.{IsChunkAt, answer_is_numbered}
use my_discord_agent.Queue.ChunkOrder.{chunks_go_in_order}
use my_discord_agent.Queue.Commit.{result_text, response_chunks, delivery_row, delivery_rows}
use my_discord_agent.Queue.Cursor.{get_discord_cursor, upsert_discord_cursor}
use my_discord_agent.Queue.Cursors.{newest, cursor_moves_forward}
use my_discord_agent.Queue.Delivery.{
  is_lost, lost_row, item_thread, needs_thread, allows_failed, holds_back, due, is_sendable,
  first_delivery, DeliveryClaim, sending_row, send_row, claim_delivery_in_transaction,
  claim_delivery,
}
use my_discord_agent.Queue.DeliveryWrites.{
  holds_delivery, DeliveryFields, update_delivery, as_failed, fail_delivery_batch,
  set_delivery_thread,
}
use my_discord_agent.Queue.Examples.{
  at_time, chunk_row, first_chunk, busy_db, plain_host, plain_options,
}
use my_discord_agent.Queue.LostSends.{claim_marks_lost_sends}
use my_discord_agent.Queue.Rows.{text_result, JobRow, pending, sent, failed}
use my_discord_agent.Queue.Sending.{
  superseded_sender_is_refused, is_unsent_of, failed_batch_leaves_no_chunk,
}
use my_discord_agent.Queue.Store.{
  Db, empty_db, stale_fencing_token, done, threw, ◌>>=◌, pure, query, after, commit,
  in_immediate_transaction, update_deliveries,
}

abbrev sent_db : Db
sent_db = record empty_db { deliveries = chunk_row "d0" 0 sent 1 ∷ chunk_row "d1" 1 pending 0 ∷ [] }

old_sender_is_lost : any_row (holds_delivery "d0" 2) busy_db.deliveries ≡ false
unfolding any_row holds_delivery
old_sender_is_lost = refl

abbrev no_fields : DeliveryFields
no_fields = record {
  external_message_id = none;
  cron_thread_id = none;
  error = none;
  retry_at = none;
}

superseded_sender_is_refused_example :
    (update_delivery 9 "d0" 2 sent no_fields busy_db ≡ threw (stale_fencing_token "d0") busy_db)
    × (fail_delivery_batch 9 "d0" 2 as_failed "e" busy_db
        ≡ threw (stale_fencing_token "d0") busy_db)
    × (set_delivery_thread 9 "d0" 2 "t" busy_db ≡ threw (stale_fencing_token "d0") busy_db)
superseded_sender_is_refused_example =
    superseded_sender_is_refused 9 "d0" 2 busy_db sent no_fields as_failed "e" "t"
      old_sender_is_lost

sent_ids_differ : Unique (map (λ d. d.id) sent_db.deliveries)
unfolding Unique
sent_ids_differ = (
  λ y m e. elim (Memᴰ.cases_cons m) [
    | inl is_d1 ↦ false≢true ((eq_iff "d0" "d1").1 (e ∙ is_d1))
    | inr none_left ↦ absurd (Memᴰ.not-nil none_left)
  ],
  ((λ y m. absurd (Memᴰ.not-nil m)), tt),
)

-- The second chunk is claimed once the first is out.
abbrev second_claim : DeliveryClaim
second_claim = record {
  row = sending_row 9 "w" 60 (chunk_row "d1" 1 pending 0) (chunk_row "d1" 1 pending 0);
  fencing_token = 1;
}

abbrev second_db : Db
second_db = record empty_db {
  deliveries =
      chunk_row "d0" 0 sent 1
      ∷ sending_row 9 "w" 60 (chunk_row "d1" 1 pending 0) (chunk_row "d1" 1 pending 0)
      ∷ [];
}

second_is_claimed : claim_delivery 9 "w" 60 sent_db ≡ done (some second_claim) second_db
unfolding claim_delivery in_immediate_transaction claim_delivery_in_transaction ◌>>=◌ query pure
    update_deliveries update_rows changes send_row sending_row first_delivery select is_sendable due
    any_row holds_back allows_failed is_lost lost_row needs_thread item_thread find_row
second_is_claimed = refl

sending_keeps_place : (second_claim.row.job_id ≡ "job-0") × (second_claim.row.response_index ≡ 1)
unfolding sending_row
sending_keeps_place = (refl, refl)

chunks_go_in_order_example :
    (sent ≡ sent)
    ⊎ ((sent ≡ failed)
        × ((j : JobRow) × Memᴰ j [] × (j.id ≡ "job-0") × (j.allow_failed_predecessor ≡ true)))
chunks_go_in_order_example =
    chunks_go_in_order 9 "w" 60 sent_db second_db second_claim (chunk_row "d0" 0 sent 1)
      sent_ids_differ second_is_claimed (Memᴰ.head refl) (sym (sending_keeps_place.0))
      (let place = sending_keeps_place.1 in omega (arith, place))

first_is_held : find_row (holds_delivery "d0" 3) busy_db.deliveries ≡ some first_chunk
unfolding find_row holds_delivery
first_is_held = refl

only_one_is_held : changes (holds_delivery "d0" 3) busy_db.deliveries ≡ 1
unfolding changes holds_delivery
only_one_is_held = refl

ids_differ : Unique (map (λ d. d.id) busy_db.deliveries)
unfolding Unique
ids_differ = (
  λ y m e. elim (Memᴰ.cases_cons m) [
    | inl is_d1 ↦ false≢true ((eq_iff "d0" "d1").1 (e ∙ is_d1))
    | inr none_left ↦ absurd (Memᴰ.not-nil none_left)
  ],
  ((λ y m. absurd (Memᴰ.not-nil m)), tt),
)

failed_batch_leaves_no_chunk_example :
    (next : Db) × (fail_delivery_batch 9 "d0" 3 as_failed "e" busy_db ≡ done tt next)
    × (any_row (is_unsent_of "job-0") next.deliveries ≡ false)
failed_batch_leaves_no_chunk_example =
    failed_batch_leaves_no_chunk 9 "d0" 3 as_failed "e" busy_db first_chunk ids_differ first_is_held
      only_one_is_held

cursor_moves_forward_example :
    get_discord_cursor "c" (after (upsert_discord_cursor 9 "c" 42 busy_db))
    ≡ some (newest (get_discord_cursor "c" busy_db) 42)
cursor_moves_forward_example = cursor_moves_forward 9 "c" 42 busy_db

abbrev greeting : Text
greeting = codes "hi"

one_chunk :
    get_elem?
      (delivery_rows plain_host
        (at_time 9)
        "job-1"
        plain_options
        (text_result greeting)
        0
        (response_chunks plain_host plain_options (text_result greeting)))
      0
    ≡ some (
        delivery_row plain_host (at_time 9) "job-1" plain_options (text_result greeting) 0 greeting)
unfolding delivery_rows response_chunks split_message result_text
one_chunk = refl

answer_is_numbered_example :
    (content : Text) × (get_elem?
        (response_chunks plain_host plain_options (text_result greeting))
        0
      ≡ some content)
    × IsChunkAt plain_options (text_result greeting) "job-1" 0 content (
        delivery_row plain_host (at_time 9) "job-1" plain_options (text_result greeting) 0 greeting)
answer_is_numbered_example =
    answer_is_numbered plain_host (at_time 9) "job-1" plain_options (text_result greeting) 0
      (delivery_row plain_host (at_time 9) "job-1" plain_options (text_result greeting) 0 greeting)
      one_chunk

claim_marks_lost_sends_example :
    (c : Option DeliveryClaim) × (next : Db) × (claim_delivery_in_transaction 9 "w" 60 busy_db
      ≡ done (commit c) next)
    × (claim_delivery 9 "w" 60 busy_db ≡ done c next)
    × (any_row (is_lost 9) next.deliveries ≡ false)
claim_marks_lost_sends_example = claim_marks_lost_sends 9 "w" 60 busy_db ids_differ
