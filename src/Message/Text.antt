-- ===== src/Message/Text.antt =====
-- JavaScript strings, and the string methods that src/utils/splitMessage.ts calls.
use mathlib.Core.Option
use my_discord_agent.Base.{
  leb, ◌==◌, if◌then◌else◌, take, drop, ℕ, zero, suc, ◌-◌, Bool, ◌&&◌, ◌||◌, Option, none, some,
  List, [], ◌∷◌,
}

-- The UTF-16 code units.
abbrev pub Text : Type 0
Text = List ℕ

abbrev pub newline : ℕ
newline = 10

-- `text.slice(from, to)`
abbrev pub slice : Text → ℕ → ℕ → Text
slice text from to = take (to - from) (drop from text)

-- `text.lastIndexOf("\n", from)`
unfoldable pub last_index_of_newline : Text → ℕ → Option ℕ
last_index_of_newline [] k = none
last_index_of_newline (c ∷ cs) zero = if c == newline then some 0 else none
last_index_of_newline (c ∷ cs) (suc k) = elim (last_index_of_newline cs k) [
  | some i ↦ some (suc i)
  | none ↦ if c == newline then some 0 else none
]

-- `text.indexOf("\n")`
unfoldable pub first_newline : Text → Option ℕ
first_newline [] = none
first_newline (c ∷ cs) = if c == newline then some 0 else Option.map suc (first_newline cs)

-- The white space and line ends that `trimStart` removes.
unfoldable pub is_space : ℕ → Bool
is_space c =
    (leb 9 c && leb c 13)
    || (c == 32
        || (c == 160
            || (c == 0x1680
                || ((leb 0x2000 c && leb c 0x200a)
                    || (c == 0x2028
                        || (c == 0x2029
                            || (c == 0x202f || (c == 0x205f || (c == 0x3000 || c == 0xfeff)))))))))

unfoldable pub trim_start : Text → Text
trim_start [] = []
trim_start (c ∷ cs) = let rest = trim_start cs in if is_space c then rest else c ∷ cs
