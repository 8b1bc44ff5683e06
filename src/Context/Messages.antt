-- ===== src/Context/Messages.antt =====
-- The messages of a session, as far as src/features/session-context reads them. The message types of
-- the agent package are not in the repository: a constructor has the fields that the code reads.
use my_discord_agent.Base.{any_row, ℕ, String, Bool, true, false, Option, List, [], ◌∷◌, str_eq}

pub data Block : Type 0 where
  text_block : String → Block
  tool_call other_block : Block

pub data StopReason : Type 0 where
  stopped cut_by_length tool_use failed_with aborted_by : StopReason

pub record Usage : Type 0 where
  pub total_tokens : ℕ
  pub input : ℕ
  pub output : ℕ
  pub cache_read : ℕ
  pub cache_write : ℕ

pub record AssistantMessage : Type 0 where
  pub content : List Block
  pub stop_reason : StopReason
  pub error_message : Option String
  pub usage : Option Usage

pub data ContextMode : Type 0 where
  full final_only : ContextMode

-- `CompactionMessage` without its recent messages.
pub record Checkpoint : Type 0 where
  pub content : String
  pub archive_session_id : String
  pub operation_id : String
  pub context_mode : ContextMode
  pub timestamp : ℕ

-- A custom message has its customType, and its operationId if it has one. The recent messages of a
-- checkpoint are messages again.
mutual
  pub data AgentMessage : Type 0 where
    user_message : String → ℕ → AgentMessage
    assistant_message : AssistantMessage → AgentMessage
    tool_result : String → AgentMessage
    custom_message : String → Option String → AgentMessage
    compaction_message : Checkpoint → RecentMessages → AgentMessage

  pub data RecentMessages : Type 0 where
    no_more : RecentMessages
    then_message : AgentMessage → RecentMessages → RecentMessages

unfoldable pub listed : RecentMessages → List AgentMessage
listed no_more = []
listed (then_message m ms) = m ∷ listed ms

unfoldable pub kept_messages : List AgentMessage → RecentMessages
kept_messages [] = no_more
kept_messages (m ∷ ms) = then_message m (kept_messages ms)

abbrev pub is_user : AgentMessage → Bool
is_user (user_message content timestamp) = true
is_user _ = false

abbrev pub is_compaction_message : AgentMessage → Bool
is_compaction_message (compaction_message c recent) = true
is_compaction_message _ = false

abbrev pub is_tool_call : Block → Bool
is_tool_call tool_call = true
is_tool_call _ = false

-- The customTypes of `isContextInitialization`: the reset, both kinds of snapshot, the time anchor,
-- the initial memory and the bootstraps.
abbrev pub initialization_types : List String
initialization_types =
    "session-context-reset" ∷ "system-prompt-snapshot" ∷ "agents-snapshot" ∷ "session-time-anchor"
    ∷ "initial-agent-memory" ∷ "context-bootstrap" ∷ "memory-bootstrap" ∷ "self-bootstrap" ∷ []

unfoldable pub is_context_initialization : AgentMessage → Bool
is_context_initialization (custom_message custom_type operation) =
    any_row (λ (t : String). str_eq custom_type t) initialization_types
is_context_initialization _ = false
