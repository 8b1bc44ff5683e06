-- ===== src/Message/Bounds.antt =====
-- Every text is cut into chunks within the limit, and the loops of the cut end.
use my_discord_agent.Base.{
  ltb, leb, leb→le, Bool-cases, Option-cases, length, All, take, drop, length-take, length-drop, ℕ,
  zero, suc, ◌≤◌, ◌<◌, ◌≡◌, inl, inr, Option, some, List, [], ◌∷◌, arith,
}
use my_discord_agent.Message.Fence.{chunk}
use my_discord_agent.Message.Plain.{split_index, after_chunk, plain_loop, split_plain_message}
use my_discord_agent.Message.Text.{Text, last_index_of_newline, trim_start}

last_index_of_newline-le :
    (text : Text) (k : ℕ) {i : ℕ}
    → last_index_of_newline text k ≡ some i
    → (i ≤ k) × (i < length text)
unfolding last_index_of_newline
last_index_of_newline-le [] k e = cc
last_index_of_newline-le (c ∷ cs) zero e = ground arith
last_index_of_newline-le (c ∷ cs) (suc k) e = elim (Option-cases (last_index_of_newline cs k)) [
  | inl gone ↦ let e' = rw gone at e in ground arith
  | inr (j, at) ↦ let below = last_index_of_newline-le cs k at in ground arith
]

split_index_bounds :
    (text : Text) (max_length : ℕ)
    → 1 ≤ max_length
    → (1 ≤ split_index text max_length) × (split_index text max_length ≤ max_length)
unfolding split_index
split_index_bounds text max_length h = elim (Option-cases (last_index_of_newline text max_length)) [
  | inl gone ↦ ground arith
  | inr (j, at) ↦ let below = last_index_of_newline-le text max_length at in ground arith
]

length-trim_start : (text : Text) → length (trim_start text) ≤ length text
unfolding trim_start
length-trim_start [] = omega arith
length-trim_start (c ∷ cs) = ground (arith, length-trim_start cs)

pub length-after_chunk :
    (text : Text) (max_length : ℕ)
    → 1 ≤ max_length
    → max_length < length text
    → length (after_chunk text max_length) < length text
unfolding after_chunk
length-after_chunk text max_length h long = omega (
  arith,
  split_index_bounds text max_length h,
  length-trim_start (drop (split_index text max_length) text),
  length-drop (split_index text max_length) text,
)

-- What a caller needs of a chunk.
abbrev pub Fits : ℕ → Text → Type 0
Fits max_length chunk = length chunk ≤ max_length

-- The chunks that a split gives, and that it gives them.
abbrev pub Splits : ℕ → Option (List Text) → Type 0
Splits max_length r = (chunks : List Text) × (r ≡ some chunks) × All (Fits max_length) chunks

plain_loop-Splits :
    (fuel : ℕ) (text : Text) (max_length : ℕ)
    → 1 ≤ max_length
    → length text < fuel
    → Splits max_length (plain_loop fuel text max_length)
unfolding plain_loop
plain_loop-Splits zero text max_length h enough = elim enough [ ]
plain_loop-Splits (suc fuel) text max_length h enough =
    elim (Bool-cases (ltb max_length (length text))) [
      | inl long ↦
          let shorter = length-after_chunk text max_length h (ground arith) in
          let (chunks, e, fit) =
            plain_loop-Splits fuel (after_chunk text max_length) max_length h (omega arith) in
          (
            take (split_index text max_length) text ∷ chunks,
            rw (long, e),
            (
              omega (
                arith,
                length-take (split_index text max_length) text,
                split_index_bounds text max_length h,
              ),
              fit,
            ),
          )
      | inr short ↦ elim (Bool-cases (ltb 0 (length text))) [
        | inl full ↦ (text ∷ [], rw (short, full), (ground arith, tt))
        | inr none_left ↦ ([], rw (short, none_left), tt)
      ]
    ]

-- For every text and every limit of at least one code unit, splitPlainMessage ends, and no chunk that
-- it gives is longer than the limit.
pub split_plain_message-Splits :
    (text : Text) (max_length : ℕ)
    → 1 ≤ max_length
    → Splits max_length (split_plain_message text max_length)
unfolding split_plain_message
split_plain_message-Splits text max_length h = elim (Bool-cases (leb (length text) max_length)) [
  | inl short ↦ (text ∷ [], rw short, (leb→le _ _ short, tt))
  | inr long ↦ rw long (plain_loop-Splits (suc (length text)) text max_length h (omega arith))
]
