-- ===== src/Message/Content.antt =====
-- What `splitPlainMessage` (src/utils/splitMessage.ts) drops of a text.
use my_discord_agent.Base.{
  ltb, leb, Bool-cases, length, All, take, drop, take-append-drop, ℕ, zero, suc, ◌≤◌, ◌<◌, ◌≡◌,
  refl, sym, ap, ◌∙◌, inl, inr, true, false, some, List, [], ◌∷◌, ◌++◌, arith,
}
use my_discord_agent.Message.Bounds.{length-after_chunk}
use my_discord_agent.Message.Fence.{chunk}
use my_discord_agent.Message.Plain.{split_index, after_chunk, plain_loop, split_plain_message}
use my_discord_agent.Message.Text.{Text, is_space, trim_start}

-- The chunks make up a text, in order, with nothing but white space between them and behind them.
abbrev pub Covers : List Text → Text → Type 0
Covers [] text = text ≡ []
Covers (chunk ∷ chunks) text =
    (gap : Text) × (rest : Text) × (text ≡ chunk ++ (gap ++ rest))
    × All (λ c. is_space c ≡ true) gap
    × Covers chunks rest

trim_start-gap :
    (text : Text)
    → (gap : Text) × (text ≡ gap ++ trim_start text) × All (λ c. is_space c ≡ true) gap
unfolding trim_start
trim_start-gap [] = ([], refl, tt)
trim_start-gap (c ∷ cs) =
    let (gap, e, spaces) = trim_start-gap cs in
    elim (Bool-cases (is_space c)) [
      | inl space ↦ (c ∷ gap, rw space (ap (◌∷◌ c) e), (space, spaces))
      | inr other ↦ ([], rw other refl, tt)
    ]

whole : (text : Text) → text ≡ text ++ ([] ++ [])
whole [] = refl
whole (c ∷ cs) = ap (◌∷◌ c) (whole cs)

empty_text : (text : Text) → ltb 0 (length text) ≡ false → text ≡ []
empty_text [] h = refl
empty_text (c ∷ cs) h = absurd (ground arith)

plain_loop-Covers :
    (fuel : ℕ) (text : Text) (max_length : ℕ)
    → 1 ≤ max_length
    → length text < fuel
    → (chunks : List Text) × (plain_loop fuel text max_length ≡ some chunks) × Covers chunks text
unfolding plain_loop after_chunk
plain_loop-Covers zero text max_length h enough = elim enough [ ]
plain_loop-Covers (suc fuel) text max_length h enough =
    elim (Bool-cases (ltb max_length (length text))) [
      | inl long ↦
          let shorter = length-after_chunk text max_length h (ground arith) in
          let (chunks, e, covers) =
            plain_loop-Covers fuel (after_chunk text max_length) max_length h (omega arith) in
          let n = split_index text max_length in
          let (gap, g, spaces) = trim_start-gap (drop n text) in
          (
            take n text ∷ chunks,
            rw (long, e),
            (
              gap,
              after_chunk text max_length,
              sym (take-append-drop n text) ∙ ap (λ r. take n text ++ r) g,
              spaces,
              covers,
            ),
          )
      | inr short ↦ elim (Bool-cases (ltb 0 (length text))) [
        | inl full ↦ (text ∷ [], rw (short, full), ([], [], whole text, tt, refl))
        | inr none_left ↦ ([], rw (short, none_left), empty_text text none_left)
      ]
    ]

-- For every text and every limit of at least one code unit, splitPlainMessage ends, and the chunks that
-- it gives make up the text in order: all that is dropped is white space behind a chunk.
pub split_plain_message-Covers :
    (text : Text) (max_length : ℕ)
    → 1 ≤ max_length
    → (chunks : List Text) × (split_plain_message text max_length ≡ some chunks)
      × Covers chunks text
unfolding split_plain_message
split_plain_message-Covers text max_length h = elim (Bool-cases (leb (length text) max_length)) [
  | inl short ↦ (text ∷ [], rw short, ([], [], whole text, tt, refl))
  | inr long ↦ rw long (plain_loop-Covers (suc (length text)) text max_length h (omega arith))
]
