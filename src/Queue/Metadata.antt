-- ===== src/Queue/Metadata.antt =====
-- The execution metadata of a job and its columns (src/queue/repository.ts). A field of the
-- metadata is `none` where the object has no such field, and a column is `none` where it is NULL.
use my_discord_agent.Base.{if◌then◌else◌, or_else, ℕ, String, Option, none, some, str_eq}
use my_discord_agent.Queue.Payload.{Json}

-- ExecutionMetadata, less the timestamps, which `markRunning` writes itself.
-- `exitCode` may be missing, null or a number.
pub record ExecutionMetadata : Type 0 where
  pub exit_code : Option (Option ℕ)
  pub termination : Option String
  pub stop_reason : Option String
  pub usage : Option Json
  pub timing : Option Json
  pub system_prompt_snapshot_hash : Option String
  pub memory_snapshot_hash : Option String
  pub snapshot_hash : Option String
  pub tool_call_key : Option String
  pub workspace_path : Option String
  pub conversation_path : Option String

pub record MetadataColumns : Type 0 where
  pub exit_code : Option ℕ
  pub termination : Option String
  pub stop_reason : Option String
  pub usage_json : Option Json
  pub timing_json : Option Json
  pub agents_snapshot_hash : Option String
  pub memory_snapshot_hash : Option String
  pub snapshot_hash : Option String
  pub tool_call_key : Option String
  pub workspace_path : Option String
  pub conversation_path : Option String

abbrev pub no_metadata : ExecutionMetadata
no_metadata = record {
  exit_code = none;
  termination = none;
  stop_reason = none;
  usage = none;
  timing = none;
  system_prompt_snapshot_hash = none;
  memory_snapshot_hash = none;
  snapshot_hash = none;
  tool_call_key = none;
  workspace_path = none;
  conversation_path = none;
}

abbrev pub null_columns : MetadataColumns
null_columns = record {
  exit_code = none;
  termination = none;
  stop_reason = none;
  usage_json = none;
  timing_json = none;
  agents_snapshot_hash = none;
  memory_snapshot_hash = none;
  snapshot_hash = none;
  tool_call_key = none;
  workspace_path = none;
  conversation_path = none;
}

-- `value || undefined`: an empty text is dropped too.
unfoldable pub truthy : Option String → Option String
truthy none = none
truthy (some s) = if str_eq s "" then none else some s

-- A SET entry that is omitted keeps the column.
abbrev set_column {ℓ} : {A : Type ℓ} → Option (Option A) → Option A → Option A
set_column none old = old
set_column (some new) old = new

-- The SET entries of `metadataSetColumns`.
unfoldable pub metadata_set_columns : ExecutionMetadata → MetadataColumns → MetadataColumns
unfolding truthy
metadata_set_columns m c = record {
  exit_code = set_column m.exit_code c.exit_code;
  termination = or_else (truthy m.termination) c.termination;
  stop_reason = or_else (truthy m.stop_reason) c.stop_reason;
  usage_json = or_else m.usage c.usage_json;
  timing_json = or_else m.timing c.timing_json;
  agents_snapshot_hash = or_else (truthy m.system_prompt_snapshot_hash) c.agents_snapshot_hash;
  memory_snapshot_hash = or_else (truthy m.memory_snapshot_hash) c.memory_snapshot_hash;
  snapshot_hash = or_else (truthy m.snapshot_hash) c.snapshot_hash;
  tool_call_key = or_else (truthy m.tool_call_key) c.tool_call_key;
  workspace_path = or_else (truthy m.workspace_path) c.workspace_path;
  conversation_path = or_else (truthy m.conversation_path) c.conversation_path;
}

abbrev flatten {ℓ} : {A : Type ℓ} → Option (Option A) → Option A
flatten none = none
flatten (some v) = v

-- `column=COALESCE(?,column)` over the values of `metadataCoalesceValues`.
unfoldable pub metadata_coalesce : ExecutionMetadata → MetadataColumns → MetadataColumns
metadata_coalesce m c = record {
  exit_code = or_else (flatten m.exit_code) c.exit_code;
  termination = or_else m.termination c.termination;
  stop_reason = or_else m.stop_reason c.stop_reason;
  usage_json = or_else m.usage c.usage_json;
  timing_json = or_else m.timing c.timing_json;
  agents_snapshot_hash =
      or_else (or_else m.system_prompt_snapshot_hash m.snapshot_hash) c.agents_snapshot_hash;
  memory_snapshot_hash = or_else m.memory_snapshot_hash c.memory_snapshot_hash;
  snapshot_hash = or_else m.snapshot_hash c.snapshot_hash;
  tool_call_key = or_else m.tool_call_key c.tool_call_key;
  workspace_path = or_else m.workspace_path c.workspace_path;
  conversation_path = or_else m.conversation_path c.conversation_path;
}
