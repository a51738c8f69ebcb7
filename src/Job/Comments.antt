-- ===== src/Job/Comments.antt =====
-- The line comments of job and hosts files: removeLineComments of job/config.go, with the indicator
-- "//" that both readers pass. A line is its bytes without the line's end.
pub mod Literals
mod Tracks
mod Walk
pub mod Scanner
use x_cuter.Common.{
  ℕ, zero, suc, ◌+◌, ◌-◌, ◌%◌, ◌==◌, Bool, true, false, ◌&&◌, Option, none, some, List, [], ◌∷◌,
  ◌++◌, Bytes, length, take, drop, if◌then◌else◌,
}

-- The line begins with `indicator`.
abbrev pub is_comment : Bytes → Bool
is_comment [] = false
is_comment (c ∷ []) = false
is_comment (c ∷ d ∷ rest) = (c == b'/') && (d == b'/')

abbrev pub indicator : Bytes
indicator = b'/' ∷ b'/' ∷ []

-- `strings.Index(line, indicator)`, none for -1.
unfoldable pub index_of : Bytes → Option ℕ
index_of [] = none
index_of (c ∷ rest) =
    let later = index_of rest in
    if is_comment (c ∷ rest) then some 0 else (elim later [ none ↦ none | some n ↦ some (suc n) ])

abbrev pub bit : Bool → ℕ
bit true = 1
bit false = 0

-- `strings.Count(line, "\"")`
unfoldable pub count_quotes : Bytes → ℕ
count_quotes [] = 0
count_quotes (c ∷ rest) = bit (c == b'"') + count_quotes rest

-- `strings.Count(line, "\\\"")`: the places where a quote stands behind a backslash.
unfoldable pub count_escaped : Bytes → ℕ
count_escaped [] = 0
count_escaped (c ∷ []) = 0
count_escaped (c ∷ d ∷ rest) = bit ((c == b'\\') && (d == b'"')) + count_escaped (d ∷ rest)

-- `numDoubleQuotes % 2 == 0`
unfoldable pub is_even : Bytes → Bool
unfolding count_quotes count_escaped
is_even before = (count_quotes before - count_escaped before) % 2 == 0

-- The loop for one line: `before` is `line[:start]` and `rest` is `line[start:]`. Each turn takes
-- the two bytes of an indicator away, so that as much fuel as there are bytes is enough.
unfoldable pub cut_from : ℕ → Bytes → Bytes → Bytes
unfolding index_of is_even
cut_from zero before rest = before ++ rest
cut_from (suc fuel) before rest = elim (index_of rest) [
  | none ↦ before ++ rest
  | some n ↦
      let front = before ++ take n rest in
      if is_even front then front else cut_from fuel (front ++ indicator) (drop (n + 2) rest)
]

unfoldable pub cut_line : Bytes → Bytes
unfolding cut_from
cut_line line = cut_from (length line) [] line

-- `removeLineComments`: what is written of the lines, one behind the other.
unfoldable pub remove_line_comments : List Bytes → Bytes
unfolding cut_line
remove_line_comments [] = []
remove_line_comments (line ∷ lines) = cut_line line ++ remove_line_comments lines
