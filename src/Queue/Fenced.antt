-- ===== src/Queue/Fenced.antt =====
-- Writes of the worker that holds a job (src/queue/repository.ts): each is an UPDATE that demands
-- an active row with the worker's fencing token, and throws if it changes no row.
use Prim.Native.String
use my_discord_agent.Base.{
  ◌==◌, get_or, or_else, find_row, ℕ, ◌+◌, max, String, Bool, false, ◌&&◌, Option, none, some, List,
  [], ◌∷◌, str_eq,
}
use my_discord_agent.Queue.Metadata.{ExecutionMetadata, metadata_set_columns}
use my_discord_agent.Queue.Payload.{bool, str, Object, put, delete_all, assign}
use my_discord_agent.Queue.Rows.{running, is_active, JobRow}
use my_discord_agent.Queue.Store.{
  Ambient, stale_fencing_token, unknown_job, M, ◌>>=◌, require, query, or_throw, update_jobs,
  job_by_id,
}

-- The row that the holder of a token may write.
unfoldable pub holds : String → ℕ → JobRow → Bool
holds id token r = str_eq r.id id && (is_active r.status && r.fencing_token == token)

-- Every such write sets `updated_at` too.
unfoldable pub touched : ℕ → (JobRow → JobRow) → JobRow → JobRow
touched now update r = record (update r) { updated_at = now }

unfoldable pub fenced : Ambient → String → ℕ → (JobRow → JobRow) → M (Unit {0})
fenced env id token update = do
  changed ← update_jobs (holds id token) (touched env.now update)
  require (changed == 1) (stale_fencing_token id)

-- Keys that `updatePayload` takes out of the stored payload: execution metadata that leaked in.
abbrev pub payload_metadata_keys : List String
payload_metadata_keys =
    "executionState" ∷ "claimedAt" ∷ "startedAt" ∷ "heartbeatAt" ∷ "exitCode" ∷ "termination"
    ∷ "stopReason" ∷ "usage" ∷ "timing" ∷ "error" ∷ "systemPromptSnapshotHash"
    ∷ "memorySnapshotHash" ∷ "workspacePath" ∷ "conversationPath" ∷ "status" ∷ "attempts"
    ∷ "maxAttempts" ∷ "nextAttemptAt" ∷ "leaseUntil" ∷ "workerId" ∷ "fencingToken" ∷ "lastError"
    ∷ "sequence" ∷ "succeeded" ∷ "deliverySuppressed" ∷ "terminalState" ∷ "resultJson"
    ∷ "deliveryId" ∷ []

-- Keys that it takes out of the patch.
abbrev pub patch_metadata_keys : List String
patch_metadata_keys =
    "fencingToken" ∷ "workerId" ∷ "lastError" ∷ "status" ∷ "attempts" ∷ "maxAttempts"
    ∷ "nextAttemptAt" ∷ "leaseUntil" ∷ "executionState" ∷ "claimedAt" ∷ "startedAt" ∷ "heartbeatAt"
    ∷ "exitCode" ∷ "termination" ∷ "stopReason" ∷ "usage" ∷ "timing" ∷ "error"
    ∷ "systemPromptSnapshotHash" ∷ "memorySnapshotHash" ∷ "workspacePath" ∷ "conversationPath"
    ∷ "deliverySuppressed" ∷ []

unfoldable pub patched_payload : Object → Object → Object
patched_payload payload patch =
    assign (delete_all payload_metadata_keys payload) (delete_all patch_metadata_keys patch)

unfoldable pub with_payload : Object → JobRow → JobRow
with_payload payload r = record r { payload = payload }

unfoldable pub update_payload : Ambient → String → ℕ → Object → M (Unit {0})
update_payload env id token patch = do
  found ← query (job_by_id id)
  row ← or_throw found (unknown_job id)
  fenced env id token (with_payload (patched_payload row.payload patch))

unfoldable pub update_running : Ambient → String → ℕ → Object → M (Unit {0})
update_running = update_payload

-- `metadata.startedAt ?? nowIso()` is the second argument.
unfoldable pub running_row : ℕ → Option ℕ → ExecutionMetadata → JobRow → JobRow
running_row now started_at metadata r = record r {
  status = running;
  claimed_mirror = false;
  started_at = some (get_or started_at now);
  heartbeat_at = some now;
  metadata = metadata_set_columns metadata r.metadata;
}

unfoldable pub mark_running : Ambient → String → ℕ → Option ℕ → ExecutionMetadata → M (Unit {0})
mark_running env id token started_at metadata =
    fenced env id token (running_row env.now started_at metadata)

unfoldable pub beating_row : ℕ → ℕ → JobRow → JobRow
beating_row now lease_ms r = record r {
  lease_until = some (now + max 1 lease_ms);
  heartbeat_at = some now;
}

unfoldable pub heartbeat : Ambient → String → ℕ → ℕ → M (Unit {0})
heartbeat env id token lease_ms = fenced env id token (beating_row env.now lease_ms)

-- What a run fixes of its inputs before it starts.
pub record ExecutionIdentity : Type 0 where
  pub snapshot_hash : Option String
  pub tool_call_key : Option String
  pub system_prompt_snapshot_content : Option String
  pub memory_snapshot_content : Option String
  pub system_prompt_snapshot_present : Option Bool
  pub memory_snapshot_present : Option Bool
  pub snapshot_present : Option Bool

put_str : String → Option String → Object → Object
put_str k none o = o
put_str k (some s) o = put k (str s) o

put_bool : String → Option Bool → Object → Object
put_bool k none o = o
put_bool k (some b) o = put k (bool b) o

identity_payload : ExecutionIdentity → Object → Object
unfolding put_str put_bool
identity_payload i o = put_bool "snapshotPresent" i.snapshot_present (
    put_bool "memorySnapshotPresent" i.memory_snapshot_present (
      put_bool "systemPromptSnapshotPresent" i.system_prompt_snapshot_present (
        put_str "memorySnapshotContent" i.memory_snapshot_content
          (put_str "systemPromptSnapshotContent" i.system_prompt_snapshot_content o))))

unfoldable pub frozen_row : ℕ → String → String → Object → JobRow → JobRow
frozen_row now snapshot_hash tool_call_key payload r = record r {
  payload = payload;
  metadata = record (r.metadata) {
    snapshot_hash = or_else r.metadata.snapshot_hash (some snapshot_hash);
    tool_call_key = or_else r.metadata.tool_call_key (some tool_call_key);
  };
  updated_at = now;
}

-- `sha256` is createHash("sha256").update(…).digest("hex").
unfoldable pub freeze_execution_identity :
    (sha256 : String → String) → Ambient → String → ℕ → ExecutionIdentity → M (Unit {0})
unfolding identity_payload
freeze_execution_identity sha256 env id token identity = do
  found ← query (λ db. find_row (holds id token) db.jobs)
  row ← or_throw found (stale_fencing_token id)
  changed ← update_jobs (holds id token) (
      frozen_row env.now (get_or identity.snapshot_hash "phase2-absent-snapshot-v1")
        (get_or identity.tool_call_key (sha256 (String.◌++◌ "phase2-job:" id)))
        (identity_payload identity row.payload))
  require (changed == 1) (stale_fencing_token id)
