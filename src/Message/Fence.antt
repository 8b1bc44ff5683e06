-- ===== src/Message/Fence.antt =====
-- Code fences: `fenceAt`, `splitFencedMessage` and `splitMessage` (src/utils/splitMessage.ts).
use mathlib.Core.Option
use my_discord_agent.Base.{
  ltb, leb, ◌==◌, if◌then◌else◌, length, get_elem?, take, drop, ℕ, zero, suc, ◌+◌, ◌-◌, Bool, true,
  false, ◌&&◌, ◌||◌, not, Option, none, some, List, [], ◌∷◌, ◌++◌,
}
use my_discord_agent.Message.Plain.{split_plain_message}
use my_discord_agent.Message.Text.{Text, newline, slice, first_newline}

abbrev pub backtick : ℕ
backtick = 96

pub record FenceState : Type 0 where
  pub opening_line : Text
  pub delimiter : Text

pub record SplitPoint : Type 0 where
  pub index : ℕ
  pub state : Option FenceState

-- How many backticks a line begins with, and what follows them.
backticks : Text → ℕ × Text
backticks [] = (0, [])
backticks (c ∷ cs) =
    let (n, rest) = backticks cs in if c == backtick then (suc n, rest) else (0, c ∷ cs)

all_units : (ℕ → Bool) → Text → Bool
all_units p [] = true
all_units p (c ∷ cs) = p c && all_units p cs

-- The expression of three or more backticks and then anything but backticks and line ends.
unfoldable pub opening_fence : Text → Option FenceState
unfolding backticks all_units
opening_fence line =
    let (n, rest) = backticks line in
    if leb 3 n && all_units (λ c. not (c == backtick || (c == 13 || c == newline))) rest
    then some (record { opening_line = line; delimiter = take n line })
    else none

-- At least as many backticks as opened the fence, and then only blanks and tabs.
unfoldable pub is_closing_fence : Text → FenceState → Bool
unfolding backticks all_units
is_closing_fence line state =
    let (n, rest) = backticks line in
    leb 3 n && (all_units (λ c. c == 32 || c == 9) rest && leb (length state.delimiter) n)

-- `line.endsWith("\r") ? line.slice(0, -1) : line`
strip_cr : Text → Text
strip_cr [] = []
strip_cr (c ∷ []) = if c == 13 then [] else c ∷ []
strip_cr (c ∷ d ∷ cs) = c ∷ strip_cr (d ∷ cs)

starts_line : Text → ℕ → Bool
starts_line text zero = true
starts_line text (suc i) = elim (get_elem? text i) [ some c ↦ c == newline | none ↦ false ]

unfoldable pub fence_on : Text → ℕ → Option FenceState → Option SplitPoint
unfolding opening_fence is_closing_fence
fence_on line end none = elim (opening_fence line) [
  | none ↦ none
  | some opened ↦ some (record { index = end; state = some opened })
]
fence_on line end (some state) =
    if is_closing_fence line state then some (record { index = end; state = none }) else none

-- The index behind the line that starts at an index, and the line without its end.
unfoldable pub line_end : Text → ℕ → ℕ
line_end text index = elim (first_newline (drop index text)) [
  | none ↦ length text
  | some k ↦ index + k + 1
]

line_at : Text → ℕ → Text
line_at text index = elim (first_newline (drop index text)) [
  | none ↦ drop index text
  | some k ↦ take k (drop index text)
]

unfoldable pub fence_at : Text → ℕ → Option FenceState → Option SplitPoint
unfolding starts_line fence_on line_end line_at strip_cr
fence_at text index state =
    if starts_line text index
    then fence_on (strip_cr (line_at text index)) (line_end text index) state
    else none

-- The loop of `hasOpeningFence` over the starts of the lines, with fuel.
opening_loop : ℕ → Text → ℕ → Bool
unfolding fence_at
opening_loop zero text index = false
opening_loop (suc fuel) text index =
    let rest : Bool = elim (first_newline (drop index text)) [
      | none ↦ false
      | some k ↦ opening_loop fuel text (index + k + 1)
    ] in
    if ltb index (length text)
    then elim (fence_at text index none) [
      | some p ↦ elim p.state [ some s ↦ true | none ↦ rest ]
      | none ↦ rest
    ]
    else false

-- Each round passes a line end, so there are at most as many rounds as code units, and one.
unfoldable pub has_opening_fence : Text → Bool
unfolding opening_loop
has_opening_fence text = opening_loop (suc (length text)) text 0

ends_line : Text → Bool
ends_line [] = false
ends_line (c ∷ []) = c == newline
ends_line (c ∷ d ∷ cs) = ends_line (d ∷ cs)

-- What closes the fence that is open at the end of a chunk.
unfoldable pub closing_fence : Text → Option FenceState → Text
unfolding ends_line
closing_fence content none = []
closing_fence content (some state) =
    if ends_line content then state.delimiter else newline ∷ state.delimiter

-- What reopens the fence that is open at the start of a chunk.
unfoldable pub reopening : Option FenceState → Text
reopening none = []
reopening (some state) = state.opening_line ++ newline ∷ []

-- One step of the scan: behind a fence line, or one code unit on.
unfoldable pub next_point : Text → ℕ → Option FenceState → SplitPoint
unfolding fence_at
next_point text scan state = elim (fence_at text scan state) [
  | some p ↦ p
  | none ↦ record { index = scan + 1; state = state }
]

-- The chunk from `start` to a split point.
unfoldable pub chunk : Text → ℕ → Option FenceState → SplitPoint → Text
unfolding closing_fence reopening
chunk text start state p =
    let content = slice text start p.index in
    reopening state ++ content ++ closing_fence content p.state

-- The variables `lastValid` and `lastNewline`.
pub record Found : Type 0 where
  pub last_valid : Option SplitPoint
  pub last_newline : Option SplitPoint

-- `if (text[scan - 1] === "\n") lastNewline = lastValid`
unfoldable pub at_newline : Option ℕ → SplitPoint → Option SplitPoint → Option SplitPoint
at_newline none p old = old
at_newline (some c) p old = if c == newline then some p else old

unfoldable pub note : Text → SplitPoint → Found → Found
unfolding at_newline
note text p found = record {
  last_valid = some p;
  last_newline = at_newline (get_elem? text (p.index - 1)) p found.last_newline;
}

-- The inner `while` loop. Each round moves `scan` on, so the fuel of the length is enough.
unfoldable pub scan_loop :
    ℕ → Text → ℕ → ℕ → Option FenceState → ℕ → Option FenceState → Found → Found
unfolding next_point chunk note
scan_loop zero text max_length start state scan scan_state found = found
scan_loop (suc fuel) text max_length start state scan scan_state found =
    let p = next_point text scan scan_state in
    let rest = scan_loop fuel text max_length start state p.index p.state (note text p found) in
    if ltb scan (length text)
    then (if ltb max_length (length (chunk text start state p)) then found else rest)
    else found

-- The split point that is taken: the end of the text, else the last line end, else the last point.
unfoldable pub prefer_newline : ℕ → Option SplitPoint → SplitPoint → Option SplitPoint
prefer_newline start none v = some v
prefer_newline start (some n) v = if ltb 1 (n.index - start) then some n else some v

unfoldable pub choose : Text → ℕ → Option SplitPoint → Option SplitPoint → Option SplitPoint
unfolding prefer_newline
choose text start none last_newline = none
choose text start (some v) last_newline =
    if v.index == length text then some v else prefer_newline start last_newline v

unfoldable pub split_point : Text → ℕ → ℕ → Option FenceState → Option SplitPoint
unfolding scan_loop choose
split_point text max_length start state =
    let found =
      scan_loop (length text) text max_length start state start state
        (record { last_valid = none; last_newline = none }) in
    choose text start found.last_valid found.last_newline

-- The outer `while` loop, with fuel: `none` means that it ran out, and `some none` that no split
-- point fits, so the loop is left for the plain split.
unfoldable pub fenced_loop : ℕ → Text → ℕ → ℕ → Option FenceState → Option (Option (List Text))
unfolding split_point chunk
fenced_loop zero text max_length start state = none
fenced_loop (suc fuel) text max_length start state =
    let rest : Option (Option (List Text)) = elim (split_point text max_length start state) [
      | none ↦ some none
      | some p ↦
          Option.map (Option.map (◌∷◌ (chunk text start state p)))
            (fenced_loop fuel text max_length p.index p.state)
    ] in
    if ltb start (length text) then rest else some (some [])

unfoldable pub split_fenced_message : Text → ℕ → Option (List Text)
split_fenced_message text max_length =
    elim (fenced_loop (suc (length text)) text max_length 0 none) [
      | none ↦ none
      | some chunks ↦ elim chunks [
        | none ↦ split_plain_message text max_length
        | some found ↦ some found
      ]
    ]

abbrev pub discord_max_length : ℕ
discord_max_length = 2000

unfoldable pub split_message : Text → ℕ → Option (List Text)
split_message text max_length =
    if leb (length text) max_length
    then some (text ∷ [])
    else if has_opening_fence text
    then split_fenced_message text max_length
    else split_plain_message text max_length
