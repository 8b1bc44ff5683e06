-- ===== src/Queue/StoredKeys.antt =====
-- What `updatePayload` of src/queue/repository.ts stores under each key.
use mathlib.Core.Path.{ap₂}
use my_discord_agent.Base.{
  if◌then◌else◌, Bool-cases, or_else, Unique, ℕ, String, ◌≡◌, refl, sym, ap, ◌∙◌, inl, inr, true,
  none, some, List, map,
}
use my_discord_agent.Queue.Fenced.{
  holds, touched, payload_metadata_keys, patch_metadata_keys, patched_payload, with_payload,
  update_payload,
}
use my_discord_agent.Queue.Payload.{Object, get, delete_all, has_key}
use my_discord_agent.Queue.PayloadLaws.{get-delete_all, get-assign, get-delete_all_other}
use my_discord_agent.Queue.PuttingBack.{
  written_by, found_written, found_in, with_payload-id, update_payload_hits,
}
use my_discord_agent.Queue.Rows.{JobRow}
use my_discord_agent.Queue.Store.{Db, Ambient, done, job_by_id}

-- The value under a key of an object that some keys are taken out of.
without_keys :
    (k : String) (ks : List String) (o : Object)
    → get k (delete_all ks o) ≡ (if has_key k ks then none else get k o)
without_keys k ks o = elim (Bool-cases (has_key k ks)) [
  | inl gone ↦ get-delete_all k ks o gone ∙ ap (λ b. if b then none else get k o) (sym gone)
  | inr stays ↦
      get-delete_all_other k ks o stays ∙ ap (λ b. if b then none else get k o) (sym stays)
]

touched_payload :
    (now : ℕ) (payload : Object) (row : JobRow)
    → (touched now (with_payload payload) row).payload ≡ payload
unfolding touched with_payload
touched_payload now payload row = refl

-- Where job ids are unique and the job is active with the caller's token, `updatePayload` returns, and
-- the job's payload then has under each key the value of the patch, or else the value that it had:
-- values of the patch under the keys listed for the patch are ignored, and old values under the keys
-- listed for the payload are dropped. So a key of both lists is in no payload after the call.
pub stored_key :
    (env : Ambient) (id : String) (token : ℕ) (patch : Object) (db : Db) (row : JobRow) (k : String)
    → Unique (map (λ r. r.id) db.jobs)
    → job_by_id id db ≡ some row
    → holds id token row ≡ true
    → (next : Db) × (after_call : JobRow) × (update_payload env id token patch db ≡ done tt next)
      × (job_by_id id next ≡ some after_call)
      × (get k after_call.payload
          ≡ or_else
              (if has_key k patch_metadata_keys then none else get k patch)
              (if has_key k payload_metadata_keys then none else get k row.payload))
unfolding patched_payload
stored_key env id token patch db row k keys found held =
    let payload = patched_payload row.payload patch in
    let at = found_in id db row found in
    (
      written_by env.now id token (with_payload payload) db,
      touched env.now (with_payload payload) row,
      update_payload_hits env id token patch db row keys found at held,
      found_written env id token (with_payload payload) db row keys at held
          (with_payload-id payload),
      ap (get k) (touched_payload env.now payload row)
          ∙ get-assign k (delete_all payload_metadata_keys row.payload)
              (delete_all patch_metadata_keys patch)
          ∙ ap₂ or_else (without_keys k patch_metadata_keys patch)
              (without_keys k payload_metadata_keys row.payload),
    )
