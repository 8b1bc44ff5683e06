-- ===== src/Context/Tests.antt =====
-- Concrete runs of the context of a session (src/features/session-context).
use mathlib.Core.List.Memᴰ
use mathlib.Core.Option
use my_discord_agent.Base.{
  if◌then◌else◌, Bool-cases, select, any_row, ℕ, zero, suc, ◌+◌, ◌≤◌, ◌<◌, String, ◌≡◌, refl, ap,
  subst, ◌↔◌, inl, inr, true, false, Option, none, some, List, [], ◌∷◌, ◌++◌, Memᴰ, arith, str_eq,
}
use my_discord_agent.Context.Archives.{segments_end, clear_is_applied_once}
use my_discord_agent.Context.Compaction.{
  expanded, expand_compaction, is_user_turn, is_turn_start, projected_history, reported_tokens,
  tokens_at, starts_at, latest_turn_tokens, gather_recent, back_to_turn, cut_history,
  split_compaction_history, estimate_previous_context_tokens,
}
use my_discord_agent.Context.Estimates.{ends_estimate, estimate_looks_back}
use my_discord_agent.Context.Finals.{project_session_context}
use my_discord_agent.Context.Histories.{StandsFor, split-StandsFor}
use my_discord_agent.Context.Messages.{
  Block, text_block, tool_call, stopped, AssistantMessage, full, final_only, Checkpoint,
  AgentMessage, user_message, assistant_message, tool_result, custom_message, compaction_message,
  no_more, is_compaction_message, is_context_initialization,
}
use my_discord_agent.Context.Projection.{Adopted, projection_selects_finals}
use my_discord_agent.Context.Segments.{
  Segment, find_checkpoint, same_mode, stops_at, load_context_segments, oldest, clear,
  ContextOperation, Prepared, prepared, last_messages, clear_context, prepare_session_context,
}
use my_discord_agent.Context.Splitting.{total, split_keeps_turns}

abbrev said : Block → AssistantMessage
said b = record { content = b ∷ []; stop_reason = stopped; error_message = none; usage = none }

-- A text has as many tokens as its number, any other message one.
abbrev weigh : AgentMessage → ℕ
weigh (user_message t n) = n
weigh _ = 1

abbrev talk : List AgentMessage
talk =
    custom_message "session-time-anchor" none
    ∷ user_message "a" 4
    ∷ assistant_message (said tool_call)
    ∷ tool_result "r"
    ∷ user_message "b" 2
    ∷ assistant_message (said (text_block "c"))
    ∷ []

abbrev old_talk : List AgentMessage
old_talk = user_message "a" 4 ∷ assistant_message (said tool_call) ∷ tool_result "r" ∷ []

abbrev new_talk : List AgentMessage
new_talk = user_message "b" 2 ∷ assistant_message (said (text_block "c")) ∷ []

cuts_at_turn :
    split_compaction_history weigh talk 3 ≡ record { older = old_talk; recent = new_talk }
unfolding split_compaction_history cut_history latest_turn_tokens gather_recent back_to_turn
    starts_at tokens_at expand_compaction expanded projected_history select any_row
    is_context_initialization is_turn_start
cuts_at_turn = refl

-- A tool exchange is not cut: with more tokens to keep, the whole history is summarized.
cuts_nothing_out :
    split_compaction_history weigh talk 5 ≡ record { older = old_talk ++ new_talk; recent = [] }
unfolding split_compaction_history cut_history latest_turn_tokens gather_recent back_to_turn
    starts_at tokens_at expand_compaction expanded projected_history select any_row
    is_context_initialization is_turn_start
cuts_nothing_out = refl

split-StandsFor_example : StandsFor talk (
    (split_compaction_history weigh talk 3).older ++ (split_compaction_history weigh talk 3).recent)
split-StandsFor_example = split-StandsFor weigh talk 3

split_keeps_turns_example :
    (is_turn_start (any_row is_user_turn (projected_history talk)) (user_message "b" 2) ≡ true)
    × (3 ≤ total weigh new_talk)
split_keeps_turns_example =
    split_keeps_turns weigh talk 3 (ap (λ h. h.recent) cuts_at_turn)
      (ap (λ h. h.older) cuts_at_turn)

abbrev measured : AgentMessage
measured = assistant_message (record (said (text_block "x")) {
  usage =
      some (record { total_tokens = 0; input = 10; output = 5; cache_read = 1; cache_write = 0 });
})

measured_ends : ends_estimate measured ≡ true
unfolding reported_tokens
measured_ends = refl

user_does_not : (t : AgentMessage) → Memᴰ t (user_message "b" 2 ∷ []) → ends_estimate t ≡ false
unfolding reported_tokens
user_does_not t m = ap ends_estimate (Memᴰ.eq_of_singleton m)

estimate_looks_back_example :
    estimate_previous_context_tokens weigh (old_talk ++ measured ∷ user_message "b" 2 ∷ []) ≡ (
      if is_compaction_message measured
      then 0
      else reported_tokens measured + total weigh (user_message "b" 2 ∷ []))
estimate_looks_back_example =
    estimate_looks_back weigh old_talk measured (user_message "b" 2 ∷ []) measured_ends
      user_does_not

-- A session with a checkpoint of the other mode, and its archive.
abbrev one_archive : String → List AgentMessage
one_archive s =
    if str_eq s "s"
    then compaction_message
        (record {
          content = "sum";
          archive_session_id = "s-before-1";
          operation_id = "o";
          context_mode = final_only;
          timestamp = 0;
        })
        no_more
      ∷ []
    else user_message "a" 4 ∷ []

abbrev age : String → ℕ
age s = if str_eq s "s" then 1 else 0

one_archive_falls :
    (s : String) (c : Checkpoint)
    → find_checkpoint (one_archive s) ≡ some c
    → same_mode c.context_mode full ≡ false
    → age c.archive_session_id < age s
unfolding find_checkpoint
one_archive_falls s c found other = elim (Bool-cases (str_eq s "s")) [
  | inr outside ↦
      absurd (let nothing : none ≡ some c = rw outside at found in ground (arith, nothing))
  | inl here ↦
      let is = Option.some-injective _ _ (rw here at found) in
      rw here (subst (λ z. age z.archive_session_id < 1) is (omega arith))
]

segments_end_example :
    (front : List Segment) × (first : Segment) × (load_context_segments 2 one_archive full "s" []
      ≡ some (front ++ record { session_id = "s"; messages = one_archive "s" } ∷ []))
    × (oldest (front ++ record { session_id = "s"; messages = one_archive "s" } ∷ []) ≡ some first)
    × (stops_at full first.messages ≡ true)
    × ((s : Segment) → Memᴰ s front → s.messages ≡ one_archive s.session_id)
segments_end_example = segments_end 2 one_archive full age one_archive_falls "s" [] (omega arith)

abbrev clear_once : ContextOperation
clear_once = record { action = some clear; operation_id = "o"; allow_context_reset = true }

abbrev cleared : Prepared
cleared = record {
  messages = [];
  already_applied = false;
  response = some "コンテキストをクリアしました。旧履歴はsession-logsで検索できます。";
  replaced = some (custom_message "session-context-reset" (some "o") ∷ []);
}

clears :
    prepare_session_context
      (some clear_once)
      (record { session_id = "s"; messages = old_talk } ∷ [])
    ≡ prepared cleared
unfolding prepare_session_context clear_context last_messages any_row
clears = refl

clear_is_applied_once_example :
    prepare_session_context (some clear_once) (
      record { session_id = "s"; messages = custom_message "session-context-reset" (some "o") ∷ [] }
      ∷ [])
    ≡ prepared (record cleared { already_applied = true; replaced = none })
clear_is_applied_once_example =
    clear_is_applied_once "o" "s" (record { session_id = "s"; messages = old_talk } ∷ []) clears
      refl

abbrev two_entries : ℕ → Option AgentMessage
two_entries zero = some (user_message "a" 4)
two_entries (suc n) = some (assistant_message (said (text_block "c")))

projection_selects_finals_example :
    Memᴰ (said (text_block "c")) (
      project_session_context
        (λ t. str_eq t "")
        two_entries
        (record { user_entry_id = 0; assistant_entry_id = 1 } ∷ []))
    ↔ Adopted
        (λ t. str_eq t "")
        two_entries
        (record { user_entry_id = 0; assistant_entry_id = 1 } ∷ [])
        (said (text_block "c"))
projection_selects_finals_example =
    projection_selects_finals (λ t. str_eq t "") two_entries
      (record { user_entry_id = 0; assistant_entry_id = 1 } ∷ []) (said (text_block "c"))
