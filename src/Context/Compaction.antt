-- ===== src/Context/Compaction.antt =====
-- The split of a history and the estimate of its tokens: `expandCompaction`, `splitCompactionHistory`
-- and `estimatePreviousContextTokens` of src/features/session-context/compaction.ts.
use Prim.Native.String.{◌++◌ as str_append}
use mathlib.Core.List.{reverse}
use my_discord_agent.Base.{
  ltb, leb, ◌==◌, if◌then◌else◌, length, get_elem?, take, drop, select, any_row, ℕ, zero, suc, ◌+◌,
  Bool, true, false, not, none, some, List, [], ◌∷◌, ◌++◌, str_eq,
}
use my_discord_agent.Context.Messages.{
  failed_with, aborted_by, AgentMessage, user_message, assistant_message, compaction_message,
  listed, is_user, is_compaction_message, is_tool_call, is_context_initialization,
}

unfoldable pub expanded : AgentMessage → List AgentMessage
expanded (compaction_message c recent) =
    if str_eq c.content ""
    then listed recent
    else user_message (str_append "Previous conversation checkpoint:\n" c.content) c.timestamp
      ∷ listed recent
expanded m = m ∷ []

-- flatMap
unfoldable pub expand_compaction : List AgentMessage → List AgentMessage
expand_compaction [] = []
expand_compaction (m ∷ ms) = expanded m ++ expand_compaction ms

abbrev pub is_user_turn : AgentMessage → Bool
is_user_turn (compaction_message c recent) = any_row is_user (listed recent)
is_user_turn m = is_user m

unfoldable pub is_turn_start : Bool → AgentMessage → Bool
is_turn_start true m = is_user m
is_turn_start false (assistant_message a) = not (any_row is_tool_call a.content)
is_turn_start false _ = false

unfoldable pub projected_history : List AgentMessage → List AgentMessage
projected_history messages =
    select (λ (m : AgentMessage). not (is_context_initialization m)) messages

pub record History : Type 0 where
  pub older : List AgentMessage
  pub recent : List AgentMessage

-- `usage.totalTokens || usage.input + …`, for an assistant whose usage counts.
unfoldable pub reported_tokens : AgentMessage → ℕ
reported_tokens (assistant_message a) = elim a.stop_reason [
  | failed_with ↦ 0
  | aborted_by ↦ 0
  | _ ↦ elim a.usage [
    | none ↦ 0
    | some u ↦
        if u.total_tokens == 0
        then u.input + u.output + u.cache_read + u.cache_write
        else u.total_tokens
  ]
]
reported_tokens _ = 0

-- `estimateMessageTokens` measures the JSON of a message: it is the parameter `tokens`.
module _ (tokens : AgentMessage → ℕ) where
  -- The tokens of `history[index]`; the loops stay in range.
  unfoldable pub tokens_at : List AgentMessage → ℕ → ℕ
  tokens_at history i = elim (get_elem? history i) [ none ↦ 0 | some m ↦ tokens m ]

  unfoldable pub starts_at : Bool → List AgentMessage → ℕ → Bool
  starts_at has_user_turns history i = elim (get_elem? history i) [
    | none ↦ false
    | some m ↦ is_turn_start has_user_turns m
  ]

  -- The first loop, from the index below the number down.
  unfoldable pub latest_turn_tokens : Bool → List AgentMessage → ℕ → ℕ
  latest_turn_tokens has_user_turns history zero = 0
  latest_turn_tokens has_user_turns history (suc i) =
      let rest = latest_turn_tokens has_user_turns history i in
      if starts_at has_user_turns history i then tokens_at history i else tokens_at history i + rest

  -- The second loop: `tokens` and `cut` at its end.
  unfoldable pub gather_recent : ℕ → List AgentMessage → ℕ → ℕ → ℕ × ℕ
  gather_recent keep history zero sum = (sum, 0)
  gather_recent keep history (suc i) sum =
      let rest = gather_recent keep history i (sum + tokens_at history i) in
      if leb keep (sum + tokens_at history i) then (sum + tokens_at history i, i) else rest

  -- The third loop.
  unfoldable pub back_to_turn : Bool → List AgentMessage → ℕ → ℕ
  back_to_turn has_user_turns history zero = 0
  back_to_turn has_user_turns history (suc i) =
      let rest = back_to_turn has_user_turns history i in
      if starts_at has_user_turns history (suc i) then suc i else rest

  -- The part after the first loop.
  unfoldable pub cut_history : ℕ → Bool → List AgentMessage → History
  cut_history keep has_user_turns history =
      let (sum, cut) = gather_recent keep history (length history) 0 in
      let start = back_to_turn has_user_turns history cut in
      if ltb sum keep
      then record { older = []; recent = history }
      else if start == 0
      then record { older = history; recent = [] }
      else record { older = take start history; recent = drop start history }

  unfoldable pub split_compaction_history : List AgentMessage → ℕ → History
  split_compaction_history messages keep =
      let has_user_turns = any_row is_user_turn (projected_history messages) in
      let history = expand_compaction (projected_history messages) in
      if ltb keep (latest_turn_tokens has_user_turns history (length history))
      then record { older = history; recent = [] }
      else cut_history keep has_user_turns history

  -- The loop, over the messages from the last to the first, with `trailingTokens`.
  unfoldable pub estimate_back : List AgentMessage → ℕ → ℕ
  estimate_back [] trailing = 0
  estimate_back (m ∷ ms) trailing =
      let rest = estimate_back ms (trailing + tokens m) in
      if is_compaction_message m
      then 0
      else if ltb 0 (reported_tokens m)
      then reported_tokens m + trailing
      else rest

  unfoldable pub estimate_previous_context_tokens : List AgentMessage → ℕ
  estimate_previous_context_tokens messages = estimate_back (reverse messages) 0
