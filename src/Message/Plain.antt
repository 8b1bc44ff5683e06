-- ===== src/Message/Plain.antt =====
-- `splitPlainMessage` (src/utils/splitMessage.ts).
use mathlib.Core.Option
use my_discord_agent.Base.{
  ltb, leb, if◌then◌else◌, length, take, drop, ℕ, zero, suc, Option, none, some, List, [], ◌∷◌,
}
use my_discord_agent.Message.Text.{Text, last_index_of_newline, trim_start}

-- Where the next chunk ends: at the last line end in reach, else at the limit.
unfoldable pub split_index : Text → ℕ → ℕ
split_index remaining max_length = elim (last_index_of_newline remaining max_length) [
  | none ↦ max_length
  | some i ↦ if ltb i 1 then max_length else i
]

-- The text after a chunk.
unfoldable pub after_chunk : Text → ℕ → Text
after_chunk remaining max_length = trim_start (drop (split_index remaining max_length) remaining)

-- The `while` loop, with fuel; `none` means that the fuel ran out.
unfoldable pub plain_loop : ℕ → Text → ℕ → Option (List Text)
plain_loop zero remaining max_length = none
plain_loop (suc fuel) remaining max_length =
    let rest = plain_loop fuel (after_chunk remaining max_length) max_length in
    if ltb max_length (length remaining)
    then Option.map (◌∷◌ (take (split_index remaining max_length) remaining)) rest
    else some (if ltb 0 (length remaining) then remaining ∷ [] else [])

unfoldable pub split_plain_message : Text → ℕ → Option (List Text)
unfolding plain_loop
split_plain_message text max_length =
    if leb (length text) max_length
    then some (text ∷ [])
    else plain_loop (suc (length text)) text max_length
