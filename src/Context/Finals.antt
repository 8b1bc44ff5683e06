-- ===== src/Context/Finals.antt =====
-- The projection of a session to its adopted final answers: `projectSessionContext` of
-- src/features/session-context/final-only.ts.
use Prim.Native.String.{◌++◌ as str_append}
use my_discord_agent.Base.{
  ◌==◌, if◌then◌else◌, select, any_row, ℕ, String, Bool, true, false, ◌&&◌, not, Option, none, some,
  List, [], ◌∷◌, map, str_eq,
}
use my_discord_agent.Context.Messages.{
  Block, text_block, StopReason, stopped, cut_by_length, AssistantMessage, AgentMessage,
  assistant_message, is_user, is_tool_call,
}

pub record ConversationEntries : Type 0 where
  pub user_entry_id : ℕ
  pub assistant_entry_id : ℕ

abbrev pub is_text_block : Block → Bool
is_text_block (text_block t) = true
is_text_block _ = false

abbrev pub is_adopted_stop : StopReason → Bool
is_adopted_stop stopped = true
is_adopted_stop cut_by_length = true
is_adopted_stop _ = false

-- `content.map((block) => block.text).join("")`
unfoldable pub joined_text : List Block → String
joined_text [] = ""
joined_text (text_block t ∷ bs) = str_append t (joined_text bs)
joined_text (b ∷ bs) = joined_text bs

abbrev pub has_error : AssistantMessage → Bool
has_error a = elim a.error_message [ none ↦ false | some e ↦ not (str_eq e "") ]

abbrev pub text_only : AssistantMessage → AssistantMessage
text_only a = record a { content = select is_text_block a.content }

-- The tests on the assistant's entry. `blank` tells whether trim() leaves nothing of a text.
unfoldable pub is_final : (String → Bool) → AssistantMessage → Bool
is_final blank a =
    not (has_error a)
    && is_adopted_stop a.stop_reason
    && not (any_row is_tool_call a.content)
    && not (blank (joined_text (select is_text_block a.content)))

unfoldable pub final_message : (String → Bool) → Option AgentMessage → Option AssistantMessage
final_message blank (some (assistant_message a)) =
    if is_final blank a then some (text_only a) else none
final_message blank _ = none

abbrev pub is_user_entry : Option AgentMessage → Bool
is_user_entry (some m) = is_user m
is_user_entry none = false

-- What the loop body sets for a reference.
unfoldable pub final_of :
    (String → Bool) → (ℕ → Option AgentMessage) → ConversationEntries → Option AssistantMessage
final_of blank entries r =
    if is_user_entry (entries r.user_entry_id)
    then final_message blank (entries r.assistant_entry_id)
    else none

-- `finals.set`: a Map keeps the place of a key that it has.
unfoldable pub set_final :
    ℕ → AssistantMessage → List (ℕ × AssistantMessage) → List (ℕ × AssistantMessage)
set_final k a [] = (k, a) ∷ []
set_final k a (p ∷ ps) = let rest = set_final k a ps in if p.0 == k then (k, a) ∷ ps else p ∷ rest

unfoldable pub collect_finals :
    (String → Bool)
    → (ℕ → Option AgentMessage)
    → List (ℕ × AssistantMessage)
    → List ConversationEntries
    → List (ℕ × AssistantMessage)
collect_finals blank entries finals [] = finals
collect_finals blank entries finals (r ∷ rs) = elim (final_of blank entries r) [
  | none ↦ collect_finals blank entries finals rs
  | some a ↦ collect_finals blank entries (set_final r.assistant_entry_id a finals) rs
]

unfoldable pub project_session_context :
    (String → Bool) → (ℕ → Option AgentMessage) → List ConversationEntries → List AssistantMessage
project_session_context blank entries references =
    map (λ (p : ℕ × AssistantMessage). p.1) (collect_finals blank entries [] references)
