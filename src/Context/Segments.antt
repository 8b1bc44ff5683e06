-- ===== src/Context/Segments.antt =====
-- The archives that a session goes back to, and what a run starts with: `loadContextSegments` of
-- src/features/session-context/compaction.ts and `prepareSessionContext` of preprocessing.ts there.
use my_discord_agent.Base.{
  ◌==◌, if◌then◌else◌, is_some, is_text, length, select, any_row, ℕ, zero, suc, String, Bool, true,
  false, ◌&&◌, not, Option, none, some, List, [], ◌∷◌, ◌++◌, str_eq,
}
use my_discord_agent.Context.Messages.{
  ContextMode, full, final_only, Checkpoint, AgentMessage, custom_message, compaction_message,
  is_context_initialization,
}

pub record Segment : Type 0 where
  pub session_id : String
  pub messages : List AgentMessage

unfoldable pub find_checkpoint : List AgentMessage → Option Checkpoint
find_checkpoint [] = none
find_checkpoint (compaction_message c recent ∷ ms) = some c
find_checkpoint (m ∷ ms) = find_checkpoint ms

abbrev pub same_mode : ContextMode → ContextMode → Bool
same_mode full full = true
same_mode final_only final_only = true
same_mode _ _ = false

-- `!checkpoint || checkpoint.contextMode === contextMode`
unfoldable pub stops_at : ContextMode → List AgentMessage → Bool
stops_at mode messages = elim (find_checkpoint messages) [
  | none ↦ true
  | some c ↦ same_mode c.context_mode mode
]

-- The loop, with fuel: `load` reads the messages of a session, and `segments` are those of the sessions
-- that were read before.
unfoldable pub load_context_segments :
    ℕ → (String → List AgentMessage) → ContextMode → String → List Segment → Option (List Segment)
load_context_segments zero load mode session segments = none
load_context_segments (suc n) load mode session segments =
    let found = record { session_id = session; messages = load session } ∷ segments in
    elim (find_checkpoint (load session)) [
      | none ↦ some found
      | some c ↦
          let rest = load_context_segments n load mode c.archive_session_id found in
          if same_mode c.context_mode mode then some found else rest
    ]

abbrev pub oldest : List Segment → Option Segment
oldest [] = none
oldest (s ∷ ss) = some s

pub data ContextAction : Type 0 where
  clear compact : ContextAction

pub record ContextOperation : Type 0 where
  pub action : Option ContextAction
  pub operation_id : String
  pub allow_context_reset : Bool

-- `replaced` is the content that `replaceSessionContext` writes, when it is called.
pub record Prepared : Type 0 where
  pub messages : List AgentMessage
  pub already_applied : Bool
  pub response : Option String
  pub replaced : Option (List AgentMessage)

pub data Preparation : Type 0 where
  reset_refused : Preparation
  prepared : Prepared → Preparation

abbrev pub has_operation : String → AgentMessage → Bool
has_operation id (custom_message custom_type operation) = is_text operation id
has_operation id (compaction_message c recent) = str_eq c.operation_id id
has_operation id _ = false

unfoldable pub last_messages : List Segment → List AgentMessage
last_messages [] = []
last_messages (s ∷ []) = s.messages
last_messages (s ∷ t ∷ ss) = last_messages (t ∷ ss)

abbrev pub is_shown : AgentMessage → Bool
is_shown (compaction_message c recent) = same_mode c.context_mode full
is_shown m = not (is_context_initialization m)

unfoldable pub shown_messages : List Segment → List AgentMessage
shown_messages [] = []
shown_messages (s ∷ ss) = select is_shown s.messages ++ shown_messages ss

unfoldable pub full_messages : List Segment → List AgentMessage
full_messages segments =
    if length segments == 1
    then last_messages segments
    else select is_context_initialization (last_messages segments) ++ shown_messages segments

unfoldable pub clear_context : String → Bool → Preparation
clear_context id applied = prepared (record {
  messages = [];
  already_applied = applied;
  response = some "コンテキストをクリアしました。旧履歴はsession-logsで検索できます。";
  replaced = if applied then none else some (custom_message "session-context-reset" (some id) ∷ []);
})

-- What a run without a clear starts with; `compacts` tells that it compacts.
unfoldable pub keep_context : Bool → Bool → List Segment → Preparation
keep_context compacts applied segments = prepared (record {
  messages = full_messages segments;
  already_applied = applied;
  response = if compacts && applied then some "コンテキストを圧縮しました。旧履歴はsession-logsで検索できます。" else none;
  replaced = none;
})

abbrev pub was_applied : String → List Segment → Bool
was_applied id segments = any_row (has_operation id) (last_messages segments)

unfoldable pub prepare_session_context : Option ContextOperation → List Segment → Preparation
prepare_session_context none segments = keep_context false false segments
prepare_session_context (some op) segments =
    if is_some op.action && not op.allow_context_reset then reset_refused else elim op.action [
      | some clear ↦ clear_context op.operation_id (was_applied op.operation_id segments)
      | some compact ↦ keep_context true (was_applied op.operation_id segments) segments
      | none ↦ keep_context false (was_applied op.operation_id segments) segments
    ]
