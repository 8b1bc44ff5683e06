-- ===== src/Message/Tests.antt =====
-- Runs of the message split on short texts.
use my_discord_agent.Base.{codes, ◌≡◌, refl, some, List, [], ◌∷◌, arith}
use my_discord_agent.Message.Bounds.{Splits}
use my_discord_agent.Message.Content.{Covers, split_plain_message-Covers}
use my_discord_agent.Message.Fence.{
  opening_fence, is_closing_fence, fence_at, has_opening_fence, closing_fence, reopening,
  next_point, chunk, note, scan_loop, choose, fenced_loop, split_fenced_message, split_message,
}
use my_discord_agent.Message.FenceBounds.{split_message-Splits}
use my_discord_agent.Message.Plain.{split_index, after_chunk, plain_loop, split_plain_message}
use my_discord_agent.Message.Text.{Text, last_index_of_newline, first_newline, is_space, trim_start}

plain_lines :
    split_plain_message (codes "ab\ncd ef") 4 ≡ some (codes "ab" ∷ codes "cd e" ∷ codes "f" ∷ [])
unfolding split_plain_message plain_loop split_index after_chunk last_index_of_newline trim_start
    is_space
plain_lines = refl

fenced_lines :
    split_message (codes "```js\naaaa\nbbbb\n```") 16
    ≡ some (codes "```js\naaaa\n```" ∷ codes "```js\nbbbb\n```" ∷ [])
unfolding split_fenced_message has_opening_fence fenced_loop split_message fence_at first_newline
    opening_fence next_point chunk note scan_loop choose closing_fence reopening is_closing_fence
fenced_lines = refl

split_message-Splits_example : Splits 16 (split_message (codes "```js\naaaa\nbbbb\n```") 16)
split_message-Splits_example =
    split_message-Splits (codes "```js\naaaa\nbbbb\n```") 16 (omega arith)

split_plain_message-Covers_example :
    (chunks : List Text) × (split_plain_message (codes "ab\ncd ef") 4 ≡ some chunks)
    × Covers chunks (codes "ab\ncd ef")
split_plain_message-Covers_example = split_plain_message-Covers (codes "ab\ncd ef") 4 (omega arith)
