-- ===== src/Context/Histories.antt =====
-- What `splitCompactionHistory` of src/features/session-context/compaction.ts keeps of a history.
use Prim.Native.String.{◌++◌ as str_append}
use my_discord_agent.Base.{
  Bool-cases, select, ℕ, ◌≡◌, refl, sym, ap, subst, ◌∙◌, ◌≢◌, inl, inr, true, false, List, [], ◌∷◌,
  ◌++◌, arith, str_eq, eq_iff,
}
use my_discord_agent.Context.Compaction.{
  expanded, expand_compaction, projected_history, split_compaction_history,
}
use my_discord_agent.Context.Messages.{
  Checkpoint, AgentMessage, user_message, assistant_message, tool_result, custom_message,
  compaction_message, RecentMessages, listed, is_compaction_message, is_context_initialization,
}
use my_discord_agent.Context.Splitting.{whole_history, split_is_whole}

-- A history and the messages that stand for it, in order: initialization messages are left out, a
-- checkpoint is replaced by a user message with its text, if it has one, and the messages that it
-- kept, and every other message stands for itself.
pub data StandsFor : List AgentMessage → List AgentMessage → Type 0 where
  nothing : StandsFor [] []
  left_out :
      {ms out : List AgentMessage} (m : AgentMessage)
      → is_context_initialization m ≡ true
      → StandsFor ms out
      → StandsFor (m ∷ ms) out
  kept :
      {ms out : List AgentMessage} (m : AgentMessage)
      → is_context_initialization m ≡ false
      → is_compaction_message m ≡ false
      → StandsFor ms out
      → StandsFor (m ∷ ms) (m ∷ out)
  silent_checkpoint :
      {ms out : List AgentMessage} (c : Checkpoint) (recent : RecentMessages)
      → c.content ≡ ""
      → StandsFor ms out
      → StandsFor (compaction_message c recent ∷ ms) (listed recent ++ out)
  checkpoint :
      {ms out : List AgentMessage} (c : Checkpoint) (recent : RecentMessages)
      → c.content ≢ ""
      → StandsFor ms out
      → StandsFor (compaction_message c recent ∷ ms) (
          user_message (str_append "Previous conversation checkpoint:\n" c.content) c.timestamp
            ∷ listed recent
          ++ out)

whole_left_out :
    (m : AgentMessage) (ms : List AgentMessage)
    → is_context_initialization m ≡ true
    → whole_history (m ∷ ms) ≡ whole_history ms
unfolding projected_history select
whole_left_out m ms h = rw h refl

whole_expanded :
    (m : AgentMessage) (ms : List AgentMessage)
    → is_context_initialization m ≡ false
    → whole_history (m ∷ ms) ≡ expanded m ++ whole_history ms
unfolding projected_history select expand_compaction
whole_expanded m ms h = rw h refl

expanded_kept : (m : AgentMessage) → is_compaction_message m ≡ false → expanded m ≡ m ∷ []
unfolding expanded
expanded_kept (user_message t at) h = refl
expanded_kept (assistant_message a) h = refl
expanded_kept (tool_result t) h = refl
expanded_kept (custom_message t operation) h = refl
expanded_kept (compaction_message c recent) h = cc

checkpoint_is_context :
    (c : Checkpoint) (recent : RecentMessages)
    → is_context_initialization (compaction_message c recent) ≡ false
unfolding is_context_initialization
checkpoint_is_context c recent = refl

expanded_silent :
    (c : Checkpoint) (recent : RecentMessages)
    → str_eq c.content "" ≡ true
    → expanded (compaction_message c recent) ≡ listed recent
unfolding expanded
expanded_silent c recent h = rw h refl

expanded_checkpoint :
    (c : Checkpoint) (recent : RecentMessages)
    → str_eq c.content "" ≡ false
    → expanded (compaction_message c recent)
      ≡ user_message (str_append "Previous conversation checkpoint:\n" c.content) c.timestamp
        ∷ listed recent
unfolding expanded
expanded_checkpoint c recent h = rw h refl

keeps_message :
    (m : AgentMessage) (ms : List AgentMessage)
    → is_compaction_message m ≡ false
    → StandsFor ms (whole_history ms)
    → StandsFor (m ∷ ms) (whole_history (m ∷ ms))
keeps_message m ms plain rest = elim (Bool-cases (is_context_initialization m)) [
  | inl init ↦ subst (StandsFor (m ∷ ms)) (sym (whole_left_out m ms init)) (left_out m init rest)
  | inr talk ↦
      subst (StandsFor (m ∷ ms))
        (sym
          (whole_expanded m ms talk ∙ ap (λ out. out ++ whole_history ms) (expanded_kept m plain)))
        (kept m talk plain rest)
]

whole-StandsFor : (ms : List AgentMessage) → StandsFor ms (whole_history ms)
unfolding projected_history select expand_compaction
whole-StandsFor [] = nothing
whole-StandsFor (user_message t at ∷ ms) =
    keeps_message (user_message t at) ms refl (whole-StandsFor ms)
whole-StandsFor (assistant_message a ∷ ms) =
    keeps_message (assistant_message a) ms refl (whole-StandsFor ms)
whole-StandsFor (tool_result t ∷ ms) = keeps_message (tool_result t) ms refl (whole-StandsFor ms)
whole-StandsFor (custom_message t operation ∷ ms) =
    keeps_message (custom_message t operation) ms refl (whole-StandsFor ms)
whole-StandsFor (compaction_message c recent ∷ ms) =
    let rest = whole-StandsFor ms in
    let whole = whole_expanded (compaction_message c recent) ms (checkpoint_is_context c recent) in
    elim (Bool-cases (str_eq c.content "")) [
      | inl silent ↦
          subst (StandsFor (compaction_message c recent ∷ ms))
            (sym (whole ∙ ap (λ out. out ++ whole_history ms) (expanded_silent c recent silent)))
            (silent_checkpoint c recent ((eq_iff c.content "").0 silent) rest)
      | inr speaks ↦
          subst (StandsFor (compaction_message c recent ∷ ms))
            (sym
              (whole ∙ ap (λ out. out ++ whole_history ms) (expanded_checkpoint c recent speaks)))
            (checkpoint c recent
              (λ e. absurd (let hit = (eq_iff c.content "").1 e in ground (arith, speaks, hit)))
              rest)
    ]

-- The older messages of a `splitCompactionHistory` followed by the recent ones stand for the whole
-- history, in its order: only initialization messages are left out, and a checkpoint is replaced by
-- its text, if it has any, and the messages that it kept.
pub split-StandsFor :
    (tokens : AgentMessage → ℕ) (messages : List AgentMessage) (keep : ℕ)
    → StandsFor messages (
        (split_compaction_history tokens messages keep).older
        ++ (split_compaction_history tokens messages keep).recent)
split-StandsFor tokens messages keep =
    subst (StandsFor messages) (sym (split_is_whole tokens messages keep))
      (whole-StandsFor messages)
