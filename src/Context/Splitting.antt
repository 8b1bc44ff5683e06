-- ===== src/Context/Splitting.antt =====
-- Where `splitCompactionHistory` of src/features/session-context/compaction.ts cuts.
use mathlib.Core.List.{append-nil}
use my_discord_agent.Base.{
  ltb, leb, ◌==◌, Bool-cases, length, get_elem?, drop, take-append-drop, any_row, ℕ, zero, suc, ◌+◌,
  ◌≤◌, ◌<◌, ◌≡◌, refl, ap, inl, inr, Bool, true, some, List, [], ◌∷◌, ◌++◌, arith,
}
use my_discord_agent.Context.Compaction.{
  expand_compaction, is_user_turn, is_turn_start, projected_history, tokens_at, starts_at,
  latest_turn_tokens, gather_recent, back_to_turn, cut_history, split_compaction_history,
}
use my_discord_agent.Context.Messages.{AgentMessage}

module _ (tokens : AgentMessage → ℕ) where
  abbrev pub total : List AgentMessage → ℕ
  total [] = 0
  total (m ∷ ms) = tokens m + total ms

  total-drop :
      (history : List AgentMessage) (i : ℕ)
      → total (drop i history) ≡ tokens_at tokens history i + total (drop (suc i) history)
  unfolding tokens_at
  total-drop [] zero = refl
  total-drop [] (suc i) = refl
  total-drop (m ∷ ms) zero = refl
  total-drop (m ∷ ms) (suc i) = total-drop ms i

  gather_recent_lem :
      (keep : ℕ) (history : List AgentMessage) (i sum : ℕ)
      → sum ≡ total (drop i history)
      → ((gather_recent tokens keep history i sum).0
          ≡ total (drop (gather_recent tokens keep history i sum).1 history))
  unfolding gather_recent
  gather_recent_lem keep history zero sum e = e
  gather_recent_lem keep history (suc i) sum e =
      let step = total-drop history i in
      elim (Bool-cases (leb keep (sum + tokens_at tokens history i))) [
        | inl enough ↦ rw enough (omega (arith, step, e))
        | inr more ↦ rw more (
            gather_recent_lem keep history i (sum + tokens_at tokens history i)
              (omega (arith, step, e)))
      ]

  back_to_turn_lem :
      (turns : Bool) (history : List AgentMessage) (cut : ℕ)
      → (total (drop cut history) ≤ total (drop (back_to_turn tokens turns history cut) history))
        × (0 < back_to_turn tokens turns history cut
            → starts_at tokens turns history (back_to_turn tokens turns history cut) ≡ true)
  unfolding back_to_turn
  back_to_turn_lem turns history zero = (omega arith, (λ h. absurd (omega arith)))
  back_to_turn_lem turns history (suc i) =
      elim (Bool-cases (starts_at tokens turns history (suc i))) [
        | inl starts ↦ rw starts (omega arith, (λ h. starts))
        | inr inside ↦
            let (grows, at) = back_to_turn_lem turns history i in
            let step = total-drop history i in rw inside (omega (arith, grows, step), at)
      ]

  get_elem?-drop :
      {A : Type 0} (xs : List A) (i : ℕ) {m : A} {rest : List A}
      → drop i xs ≡ m ∷ rest
      → get_elem? xs i ≡ some m
  get_elem?-drop [] zero e = cc
  get_elem?-drop [] (suc i) e = cc
  get_elem?-drop (x ∷ xs) zero e = ground (arith, e)
  get_elem?-drop (x ∷ xs) (suc i) e = get_elem?-drop xs i e

  total_end : (history : List AgentMessage) → 0 ≡ total (drop (length history) history)
  total_end [] = refl
  total_end (m ∷ ms) = total_end ms

  starts_with :
      (turns : Bool) (history : List AgentMessage) (i : ℕ) (m : AgentMessage)
      → get_elem? history i ≡ some m
      → starts_at tokens turns history i ≡ true
      → is_turn_start turns m ≡ true
  unfolding starts_at
  starts_with turns history i m found starts = rw (starts_at, found) at starts

  cut_history_whole :
      (keep : ℕ) (turns : Bool) (history : List AgentMessage)
      → (cut_history tokens keep turns history).older
          ++ (cut_history tokens keep turns history).recent
        ≡ history
  unfolding cut_history
  cut_history_whole keep turns history =
      elim (Bool-cases (ltb (gather_recent tokens keep history (length history) 0).0 keep)) [
        | inl short ↦ rw short refl
        | inr long ↦
            elim (Bool-cases (
              back_to_turn tokens turns history
                (gather_recent tokens keep history (length history) 0).1
              == 0)) [
                | inl whole ↦ rw (long, whole) (append-nil history)
                | inr part ↦
                    rw (long, part)
                      (take-append-drop
                        (back_to_turn tokens turns history
                          (gather_recent tokens keep history (length history) 0).1)
                        history)
              ]
      ]

  cut_history_turn :
      (keep : ℕ) (turns : Bool) (history : List AgentMessage) {m o : AgentMessage}
      {ms os : List AgentMessage}
      → (cut_history tokens keep turns history).recent ≡ m ∷ ms
      → (cut_history tokens keep turns history).older ≡ o ∷ os
      → (is_turn_start turns m ≡ true) × (keep ≤ total (m ∷ ms))
  unfolding cut_history
  cut_history_turn keep turns history {m} {o} {ms} {os} r e =
      let sum = (gather_recent tokens keep history (length history) 0).0 in
      let cut = (gather_recent tokens keep history (length history) 0).1 in
      let start = back_to_turn tokens turns history cut in
      elim (Bool-cases (ltb sum keep)) [
        | inl short ↦
            absurd (let none_older : [] ≡ o ∷ os = rw short at e in ground (arith, none_older))
        | inr long ↦ elim (Bool-cases (start == 0)) [
          | inl whole ↦
              absurd (
                let none_recent : [] ≡ m ∷ ms = rw (long, whole) at r in
                ground (arith, none_recent))
          | inr part ↦
              let is : drop start history ≡ m ∷ ms = rw (long, part) at r in
              let size = gather_recent_lem keep history (length history) 0 (total_end history) in
              let (grows, at) = back_to_turn_lem turns history cut in
              let enough : total (drop start history) ≡ total (m ∷ ms) = ap total is in
              (
                starts_with turns history start m (get_elem?-drop history start is)
                    (at (ground arith)),
                ground (arith, size, grows, enough, long),
              )
        ]
      ]

-- The history of a session without its initialization messages, with its checkpoints expanded.
abbrev pub whole_history : List AgentMessage → List AgentMessage
whole_history messages = expand_compaction (projected_history messages)

-- The older messages followed by the recent ones are the expanded history.
pub split_is_whole :
    (tokens : AgentMessage → ℕ) (messages : List AgentMessage) (keep : ℕ)
    → (split_compaction_history tokens messages keep).older
        ++ (split_compaction_history tokens messages keep).recent
      ≡ whole_history messages
unfolding split_compaction_history
split_is_whole tokens messages keep =
    let turns = any_row is_user_turn (projected_history messages) in
    let history = whole_history messages in
    elim (Bool-cases (ltb keep (latest_turn_tokens tokens turns history (length history)))) [
      | inl long ↦ rw long (append-nil history)
      | inr short ↦ rw short (cut_history_whole tokens keep turns history)
    ]

-- When `splitCompactionHistory` keeps messages and leaves some to be summarized, the first message that
-- it keeps starts a turn, and the messages that it keeps have at least as many tokens as asked for.
pub split_keeps_turns :
    (tokens : AgentMessage → ℕ) (messages : List AgentMessage) (keep : ℕ) {m o : AgentMessage}
    {ms os : List AgentMessage}
    → (split_compaction_history tokens messages keep).recent ≡ m ∷ ms
    → (split_compaction_history tokens messages keep).older ≡ o ∷ os
    → (is_turn_start (any_row is_user_turn (projected_history messages)) m ≡ true)
      × (keep ≤ total tokens (m ∷ ms))
unfolding split_compaction_history
split_keeps_turns tokens messages keep {m} {o} {ms} {os} r e =
    let turns = any_row is_user_turn (projected_history messages) in
    let history = whole_history messages in
    elim (Bool-cases (ltb keep (latest_turn_tokens tokens turns history (length history)))) [
      | inl long ↦
          absurd (let none_recent : [] ≡ m ∷ ms = rw long at r in ground (arith, none_recent))
      | inr short ↦ cut_history_turn tokens keep turns history (rw short at r) (rw short at e)
    ]
