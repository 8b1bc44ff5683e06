-- ===== src/Message/FenceBounds.antt =====
-- The bounds of the split that keeps code fences whole, and that its loops end.
use my_discord_agent.Base.{
  ltb, leb, ◌==◌, leb→le, Bool-cases, Option-cases, length, All, get_elem?, drop, length-drop, ℕ,
  zero, suc, ◌-◌, ◌≤◌, ◌<◌, ◌≡◌, refl, subst, ◌⊎◌, inl, inr, Option, none, some, List, [], ◌∷◌,
  arith,
}
use my_discord_agent.Message.Bounds.{Fits, Splits, split_plain_message-Splits}
use my_discord_agent.Message.Fence.{
  FenceState, SplitPoint, fence_on, line_end, fence_at, has_opening_fence, next_point, chunk, Found,
  at_newline, note, scan_loop, choose, split_point, fenced_loop, split_fenced_message,
  split_message,
}
use my_discord_agent.Message.Text.{Text, newline, first_newline}

first_newline-lt : (text : Text) {i : ℕ} → first_newline text ≡ some i → i < length text
unfolding first_newline
first_newline-lt [] e = cc
first_newline-lt (c ∷ cs) e = elim (Option-cases (first_newline cs)) [
  | inl gone ↦ let e' = rw gone at e in ground arith
  | inr (j, at) ↦ let below = first_newline-lt cs at in ground arith
]

line_end_bounds :
    (text : Text) (index : ℕ)
    → index < length text
    → (index < line_end text index) × (line_end text index ≤ length text)
unfolding line_end
line_end_bounds text index h = elim (Option-cases (first_newline (drop index text))) [
  | inl gone ↦ rw (gone, line_end) (h, omega arith)
  | inr (k, at) ↦
      let below = first_newline-lt (drop index text) at in
      rw (at, line_end) (omega arith, omega (arith, length-drop index text))
]

-- A fence line is left at its end.
fence_at-index :
    (text : Text) (index : ℕ) (state : Option FenceState) {p : SplitPoint}
    → fence_at text index state ≡ some p
    → p.index ≡ line_end text index
unfolding fence_at fence_on
fence_at-index text index none e = ground arith
fence_at-index text index (some state) e = ground arith

next_point_bounds :
    (text : Text) (scan : ℕ) (state : Option FenceState)
    → scan < length text
    → let p = next_point text scan state in (scan < p.index) × (p.index ≤ length text)
unfolding next_point
next_point_bounds text scan state h = elim (Option-cases (fence_at text scan state)) [
  | inl plain ↦ rw (plain, next_point) (omega arith, omega arith)
  | inr (p, e) ↦
      let ends = fence_at-index text scan state e in
      let inside = line_end_bounds text scan h in rw (e, next_point) (omega arith, omega arith)
]

module _ (text : Text) (max_length start : ℕ) (state : Option FenceState) where
  -- A split point behind the start whose chunk is within the limit.
  abbrev IsGood : SplitPoint → Type 0
  IsGood p =
      (start < p.index) × (p.index ≤ length text) × (length (chunk text start state p) ≤ max_length)

  abbrev AllGood : Option SplitPoint → Type 0
  AllGood none = Unit
  AllGood (some p) = IsGood p

  abbrev IsGoodFound : Found → Type 0
  IsGoodFound found = AllGood found.last_valid × AllGood found.last_newline

  at_newline-AllGood :
      (c : Option ℕ) (p : SplitPoint) (old : Option SplitPoint)
      → IsGood p
      → AllGood old
      → AllGood (at_newline c p old)
  unfolding at_newline
  at_newline-AllGood none p old good before = before
  at_newline-AllGood (some c) p old good before = elim (Bool-cases (c == newline)) [
    | inl e ↦ rw e good
    | inr e ↦ rw e before
  ]

  note-IsGoodFound :
      (p : SplitPoint) (found : Found)
      → IsGood p
      → IsGoodFound found
      → IsGoodFound (note text p found)
  unfolding note
  note-IsGoodFound p found good before =
      (good, at_newline-AllGood (get_elem? text (p.index - 1)) p found.last_newline good before.1)

  scan_loop-IsGoodFound :
      (fuel scan : ℕ) (scan_state : Option FenceState) (found : Found)
      → start ≤ scan
      → IsGoodFound found
      → IsGoodFound (scan_loop fuel text max_length start state scan scan_state found)
  unfolding scan_loop
  scan_loop-IsGoodFound zero scan scan_state found h good = good
  scan_loop-IsGoodFound (suc fuel) scan scan_state found h good =
      elim (Bool-cases (ltb scan (length text))) [
        | inr at_end ↦ rw at_end good
        | inl inside ↦
            let p = next_point text scan scan_state in
            let moved = next_point_bounds text scan scan_state (ground arith) in
            elim (Bool-cases (ltb max_length (length (chunk text start state p)))) [
              | inl long ↦ rw (inside, long) good
              | inr fits ↦
                  rw (inside, fits)
                    (scan_loop-IsGoodFound fuel p.index p.state (note text p found) (omega arith)
                      (note-IsGoodFound p found (omega arith, moved.1, ground arith) good))
            ]
      ]

  choose-AllGood :
      (v n : Option SplitPoint) → AllGood v → AllGood n → AllGood (choose text start v n)
  unfolding choose
  choose-AllGood none n good _ = tt
  choose-AllGood (some v) none good _ = elim (Bool-cases (v.index == length text)) [
    | inl e ↦ rw e good
    | inr e ↦ rw e good
  ]
  choose-AllGood (some v) (some n) good good_line = elim (Bool-cases (v.index == length text)) [
    | inl e ↦ rw e good
    | inr e ↦ elim (Bool-cases (ltb 1 (n.index - start))) [
      | inl long ↦ rw (e, long) good_line
      | inr short ↦ rw (e, short) good
    ]
  ]

  split_point-AllGood : AllGood (split_point text max_length start state)
  unfolding split_point
  split_point-AllGood =
      let empty_found : Found = record { last_valid = none; last_newline = none } in
      let good =
        scan_loop-IsGoodFound (length text) start state empty_found (omega arith) (tt, tt) in
      choose-AllGood _ _ good.0 good.1

-- What the outer loop gives: nothing, for the plain split, or chunks within the limit.
abbrev LoopSplits : ℕ → Option (Option (List Text)) → Type 0
LoopSplits max_length r =
    (r ≡ some none)
    ⊎ ((chunks : List Text) × (r ≡ some (some chunks)) × All (Fits max_length) chunks)

fenced_loop-LoopSplits :
    (fuel : ℕ) (text : Text) (max_length start : ℕ) (state : Option FenceState)
    → length text - start < fuel
    → LoopSplits max_length (fenced_loop fuel text max_length start state)
unfolding fenced_loop
fenced_loop-LoopSplits zero text max_length start state enough = elim enough [ ]
fenced_loop-LoopSplits (suc fuel) text max_length start state enough =
    elim (Bool-cases (ltb start (length text))) [
      | inr at_end ↦ rw at_end (inr ([], refl, tt))
      | inl inside ↦ elim (Option-cases (split_point text max_length start state)) [
        | inl stuck ↦ inl (rw (inside, stuck))
        | inr (p, e) ↦
            let good : IsGood text max_length start state p =
              subst (AllGood text max_length start state) e
                (split_point-AllGood text max_length start state) in
            elim (fenced_loop-LoopSplits fuel text max_length p.index p.state (ground arith)) [
              | inl stuck ↦ inl (rw (inside, e, stuck))
              | inr (chunks, found, fit) ↦
                  inr (chunk text start state p ∷ chunks, rw (inside, e, found), (good.2, fit))
            ]
      ]
    ]

split_fenced_message-Splits :
    (text : Text) (max_length : ℕ)
    → 1 ≤ max_length
    → Splits max_length (split_fenced_message text max_length)
unfolding split_fenced_message
split_fenced_message-Splits text max_length h =
    elim (fenced_loop-LoopSplits (suc (length text)) text max_length 0 none (omega arith)) [
      | inl stuck ↦ rw (stuck, split_fenced_message) (split_plain_message-Splits text max_length h)
      | inr (chunks, e, fit) ↦ (chunks, rw (e, split_fenced_message), fit)
    ]

-- For every text and every limit of at least one code unit, splitMessage ends, and no chunk that it
-- gives, with the fences that it closes and reopens, is longer than the limit.
pub split_message-Splits :
    (text : Text) (max_length : ℕ)
    → 1 ≤ max_length
    → Splits max_length (split_message text max_length)
unfolding split_message
split_message-Splits text max_length h = elim (Bool-cases (leb (length text) max_length)) [
  | inl short ↦ (text ∷ [], rw short, (leb→le _ _ short, tt))
  | inr long ↦ elim (Bool-cases (has_opening_fence text)) [
    | inl fenced ↦ rw (long, fenced) (split_fenced_message-Splits text max_length h)
    | inr plain ↦ rw (long, plain) (split_plain_message-Splits text max_length h)
  ]
]
