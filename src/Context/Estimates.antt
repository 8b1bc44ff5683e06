-- ===== src/Context/Estimates.antt =====
-- What `estimatePreviousContextTokens` of src/features/session-context/compaction.ts adds up.
use mathlib.Core.List.{reverse, reverse-append, reverse-cons, append_assoc}
use my_discord_agent.Base.{
  ltb, if◌then◌else◌, Bool-cases, ℕ, ◌+◌, ◌≡◌, refl, ap, ◌∙◌, inl, inr, Bool, true, false, ◌||◌,
  List, [], ◌∷◌, ◌++◌, Memᴰ, arith,
}
use my_discord_agent.Context.Compaction.{
  reported_tokens, estimate_back, estimate_previous_context_tokens,
}
use my_discord_agent.Context.Messages.{AgentMessage, is_compaction_message}
use my_discord_agent.Context.Splitting.{total}

-- A message at which the estimate ends: a checkpoint, or an assistant whose usage counts.
abbrev pub ends_estimate : AgentMessage → Bool
ends_estimate m = is_compaction_message m || ltb 0 (reported_tokens m)

module _ (tokens : AgentMessage → ℕ) where
  estimate_back_past :
      (trailing rest : List AgentMessage) (sum : ℕ)
      → ((t : AgentMessage) → Memᴰ t trailing → ends_estimate t ≡ false)
      → estimate_back tokens (reverse trailing ++ rest) sum
        ≡ estimate_back tokens rest (sum + total tokens trailing)
  unfolding estimate_back
  estimate_back_past [] rest sum silent = ap (estimate_back tokens rest) (omega arith)
  estimate_back_past (t ∷ trailing) rest sum silent =
      let quiet : ends_estimate t ≡ false = silent t (Memᴰ.head refl) in
      let plain : is_compaction_message t ≡ false = ground arith in
      let unreported : ltb 0 (reported_tokens t) ≡ false = ground arith in
      ap (λ l. estimate_back tokens l sum)
        (ap (λ l. l ++ rest) (reverse-cons t trailing)
          ∙ append_assoc (reverse trailing) (t ∷ []) rest)
      ∙ estimate_back_past trailing (t ∷ rest) sum (λ u m. silent u (Memᴰ.tail m))
      ∙ rw (plain, unreported) (ap (estimate_back tokens rest) (omega arith))

  -- `estimatePreviousContextTokens` looks back to the last message that is a checkpoint or reports its
  -- usage. It is 0 at a checkpoint, and else the reported tokens with the estimates of the messages
  -- after it.
  pub estimate_looks_back :
      (before : List AgentMessage) (m : AgentMessage) (trailing : List AgentMessage)
      → ends_estimate m ≡ true
      → ((t : AgentMessage) → Memᴰ t trailing → ends_estimate t ≡ false)
      → estimate_previous_context_tokens tokens (before ++ m ∷ trailing)
        ≡ (if is_compaction_message m then 0 else reported_tokens m + total tokens trailing)
  unfolding estimate_previous_context_tokens estimate_back
  estimate_looks_back before m trailing ends silent =
      ap (λ l. estimate_back tokens l 0)
        (reverse-append before (m ∷ trailing)
          ∙ ap (λ l. l ++ reverse before) (reverse-cons m trailing)
          ∙ append_assoc (reverse trailing) (m ∷ []) (reverse before))
      ∙ estimate_back_past trailing (m ∷ reverse before) 0 silent
      ∙ here
    where
      here :
          estimate_back tokens (m ∷ reverse before) (0 + total tokens trailing)
          ≡ (if is_compaction_message m then 0 else reported_tokens m + total tokens trailing)
      here = elim (Bool-cases (is_compaction_message m)) [
        | inl checkpoint ↦ rw checkpoint refl
        | inr plain ↦
            let counts : ltb 0 (reported_tokens m) ≡ true = ground arith in
            rw (plain, counts) (omega arith)
      ]
