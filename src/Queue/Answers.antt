-- ===== src/Queue/Answers.antt =====
-- The deliveries of an answer (`commitResult` of src/queue/repository.ts).
use mathlib.Core.Option
use my_discord_agent.Base.{
  ◌==◌, Bool-cases, is_some, is_none, length, All, get_elem?, ℕ, zero, suc, ◌+◌, ◌≤◌, ◌<◌, String,
  ◌≡◌, refl, subst, inl, inr, Bool, true, false, ◌||◌, none, some, List, [], ◌∷◌, arith,
}
use my_discord_agent.Message.Bounds.{Fits}
use my_discord_agent.Message.Fence.{discord_max_length}
use my_discord_agent.Message.FenceBounds.{split_message-Splits}
use my_discord_agent.Message.Text.{Text}
use my_discord_agent.Queue.Commit.{
  CommitOptions, Host, delivery_meta, result_text, response_chunks, chunk_meta, chunk_payload,
  reply_of, delivery_row, delivery_rows,
}
use my_discord_agent.Queue.Payload.{Object, get, delete}
use my_discord_agent.Queue.PayloadLaws.{get-delete, delete-none}
use my_discord_agent.Queue.Rows.{ResultValue, pending, content_chunk, bare, DeliveryRow}
use my_discord_agent.Queue.Store.{Ambient}

-- A row of an answer of a job, at its place. With a payload of the caller, the row carries the chunk
-- under its index, the first with the caller's own properties and the later ones without a message
-- to reply to and without a placeholder; with none, it carries the whole result.
pub record IsChunkAt (options : CommitOptions) (result : ResultValue) (job : String) (index : ℕ)
    (content : Text) (d : DeliveryRow) : Type 0 where
  carries :
      is_some options.delivery_payload ≡ true
      → (meta : Object) × (d.payload ≡ content_chunk meta content index)
        × (index ≡ 0 → meta ≡ delivery_meta options.delivery_payload)
        × (0 < index
            → (get "replyMessageId" meta ≡ none) × (get "cronPlaceholderMessageId" meta ≡ none))
  bare_result : is_some options.delivery_payload ≡ false → d.payload ≡ bare result
  at_place : d.response_index ≡ index
  keyed : d.host_unique_key ≡ (job, index)
  of_job : d.job_id ≡ job
  unsent : d.status ≡ pending
  first_replies : (index == 0 || is_none d.reply_message_id) ≡ true
  fits : length content ≤ discord_max_length

chunks_fit :
    (host : Host) (options : CommitOptions) (result : ResultValue)
    → All (Fits discord_max_length) (response_chunks host options result)
unfolding response_chunks
chunks_fit host options result = elim (Bool-cases (options.is_empty || options.suppress_delivery)) [
  | inl quiet ↦ rw quiet tt
  | inr loud ↦
      let (chunks, e, fit) =
        split_message-Splits (result_text host result) discord_max_length (omega arith) in
      rw (loud, e) fit
]

reply_of_later : (i : ℕ) (meta : Object) → (i == 0 || is_none (reply_of i meta)) ≡ true
unfolding reply_of
reply_of_later zero meta = refl
reply_of_later (suc i) meta = ground arith

chunk_meta_lem :
    (index : ℕ) (meta : Object)
    → (index ≡ 0 → chunk_meta index meta ≡ meta)
      × (0 < index
          → (get "replyMessageId" (chunk_meta index meta) ≡ none)
            × (get "cronPlaceholderMessageId" (chunk_meta index meta) ≡ none))
unfolding chunk_meta
chunk_meta_lem zero meta = ((λ h. refl), (λ h. absurd (omega arith)))
chunk_meta_lem (suc i) meta = (
  (λ h. absurd (omega (arith, h))),
  (λ h. (
    delete-none "replyMessageId" "cronPlaceholderMessageId" (delete "replyMessageId" meta)
        (get-delete "replyMessageId" meta),
    get-delete "cronPlaceholderMessageId" (delete "replyMessageId" meta),
  )),
)

chunk_payload_structured :
    (structured : Bool) (meta : Object) (result : ResultValue) (index : ℕ) (content : Text)
    → structured ≡ true
    → chunk_payload structured meta result index content
      ≡ content_chunk (chunk_meta index meta) content index
unfolding chunk_payload
chunk_payload_structured structured meta result index content e = rw e refl

chunk_payload_bare :
    (structured : Bool) (meta : Object) (result : ResultValue) (index : ℕ) (content : Text)
    → structured ≡ false
    → chunk_payload structured meta result index content ≡ bare result
unfolding chunk_payload
chunk_payload_bare structured meta result index content e = rw e refl

row_is_chunk :
    (host : Host) (env : Ambient) (job : String) (options : CommitOptions) (result : ResultValue)
    (index : ℕ) (content : Text)
    → Fits discord_max_length content
    → IsChunkAt options result job index content
        (delivery_row host env job options result index content)
unfolding delivery_row
row_is_chunk host env job options result index content fit =
    let meta = delivery_meta options.delivery_payload in
    let (first, later) = chunk_meta_lem index meta in
    record {
      carries = λ given. (
        chunk_meta index meta,
        chunk_payload_structured (is_some options.delivery_payload) meta result index content given,
        first,
        later,
      );
      bare_result = λ missing.
          chunk_payload_bare (is_some options.delivery_payload) meta result index content missing;
      at_place = refl;
      keyed = refl;
      of_job = refl;
      unsent = refl;
      first_replies = reply_of_later index _;
      fits = fit;
    }

module _ (host : Host) (env : Ambient) (job : String) (options : CommitOptions)
    (result : ResultValue) where
  rows_at :
      (index : ℕ) (chunks : List Text) (i : ℕ) (d : DeliveryRow)
      → All (Fits discord_max_length) chunks
      → get_elem? (delivery_rows host env job options result index chunks) i ≡ some d
      → (content : Text) × (get_elem? chunks i ≡ some content)
        × IsChunkAt options result job (index + i) content d
  unfolding delivery_rows
  rows_at index [] i d fit e = absurd (ground arith)
  rows_at index (content ∷ chunks) zero d fit e =
      let same : delivery_row host env job options result index content ≡ d =
        Option.some-injective _ _ e in
      (
        content,
        refl,
        subst (IsChunkAt options result job (index + 0) content) same (
            subst
              (λ n.
                IsChunkAt options result job n content
                  (delivery_row host env job options result index content))
              (omega arith) (row_is_chunk host env job options result index content fit.0)),
      )
  rows_at index (content ∷ chunks) (suc i) d fit e =
      let (c, h, at) = rows_at (suc index) chunks i d fit.1 e in
      (c, h, subst (λ n. IsChunkAt options result job n c d) (omega arith) at)

-- The deliveries that an answer is turned into: the row at place i has response index i and the host
-- key (job, i), is pending, and replies to no message unless it is the first. Where the caller gives a
-- payload, the row carries the i-th chunk of the answer, the first with the caller's properties and the
-- later ones without a message to reply to and without a placeholder; where it gives none, the row
-- carries the whole result. The i-th chunk is no longer than Discord's limit of 2000.
pub answer_is_numbered :
    (host : Host) (env : Ambient) (job : String) (options : CommitOptions) (result : ResultValue)
    (i : ℕ) (d : DeliveryRow)
    → get_elem?
        (delivery_rows host env job options result 0 (response_chunks host options result))
        i
      ≡ some d
    → (content : Text) × (get_elem? (response_chunks host options result) i ≡ some content)
      × IsChunkAt options result job i content d
answer_is_numbered host env job options result i d e =
    let (content, h, at) =
      rows_at host env job options result 0 (response_chunks host options result) i d
        (chunks_fit host options result) e in
    (content, h, subst (λ n. IsChunkAt options result job n content d) (omega arith) at)
