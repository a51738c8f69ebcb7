-- ===== src/Scp/Utf8.antt =====
-- The parts of the standard library that the lexer of scp/lex.go reads its input with:
-- `utf8.DecodeRune` and `unicode.IsNumber`. A rune above Latin-1 is a number if the tables of
-- package unicode say so; they are the argument `wide`.
pub mod Width
use x_cuter.Common.{
  ℕ, ◌+◌, ◌-◌, ◌*◌, ◌≡◌, ◌≢◌, Bool, true, ◌&&◌, ◌||◌, [], ◌∷◌, ◌++◌, ltb, ◌==◌, within,
  if◌then◌else◌, Bytes, length,
}

-- `utf8.RuneError`
abbrev pub rune_error : ℕ
rune_error = 0xFFFD

abbrev low_bits : ℕ → ℕ
low_bits c = c - 0x80

decode_two : ℕ → Bytes → ℕ × ℕ
decode_two a [] = (rune_error, 1)
decode_two a (b ∷ _) =
    if within 0x80 0xBF b then ((a - 0xC0) * 64 + low_bits b, 2) else (rune_error, 1)

-- The range of the second byte depends on the first.
decode_three : ℕ → ℕ → ℕ → Bytes → ℕ × ℕ
decode_three a lo hi (b ∷ c ∷ _) =
    if within lo hi b && within 0x80 0xBF c
    then ((a - 0xE0) * 4096 + low_bits b * 64 + low_bits c, 3)
    else (rune_error, 1)
decode_three a lo hi _ = (rune_error, 1)

decode_four : ℕ → ℕ → ℕ → Bytes → ℕ × ℕ
decode_four a lo hi (b ∷ c ∷ d ∷ _) =
    if within lo hi b && within 0x80 0xBF c && within 0x80 0xBF d
    then ((a - 0xF0) * 262144 + low_bits b * 4096 + low_bits c * 64 + low_bits d, 4)
    else (rune_error, 1)
decode_four a lo hi _ = (rune_error, 1)

decode_multi : ℕ → Bytes → ℕ × ℕ
unfolding decode_two decode_three decode_four
decode_multi a rest =
    if within 0xC2 0xDF a
    then decode_two a rest
    else if within 0xE0 0xEF a
    then decode_three a (if a == 0xE0 then 0xA0 else 0x80) (if a == 0xED then 0x9F else 0xBF) rest
    else if within 0xF0 0xF4 a
    then decode_four a (if a == 0xF0 then 0x90 else 0x80) (if a == 0xF4 then 0x8F else 0xBF) rest
    else (rune_error, 1)

-- The first rune and its width: (RuneError, 0) for no input, (RuneError, 1) for a broken encoding.
unfoldable pub decode_rune : Bytes → ℕ × ℕ
unfolding decode_multi
decode_rune [] = (rune_error, 0)
decode_rune (a ∷ rest) = if ltb a 0x80 then (a, 1) else decode_multi a rest

-- `unicode.IsNumber`. In Latin-1: the digits, the superscripts 1 to 3, the three fractions.
unfoldable pub unicode_is_number : (ℕ → Bool) → ℕ → Bool
unicode_is_number wide r =
    if ltb r 256
    then within b'0' b'9' r || r == 0xB2 || r == 0xB3 || r == 0xB9 || within 0xBC 0xBE r
    else wide r

-- A text that is the encoding of runes which all pass the test `p`: each piece decodes to its
-- rune whatever follows it.
pub data Encodes (p : ℕ → Bool) : Bytes → Type 0 where
  done : Encodes p []
  rune :
      (r a : ℕ) (piece rest : Bytes) {all : Bytes}
      → ((more : Bytes) → decode_rune (a ∷ (piece ++ more)) ≡ (r, length (a ∷ piece)))
      → r ≢ rune_error
      → p r ≡ true
      → Encodes p rest
      → all ≡ a ∷ (piece ++ rest)
      → Encodes p all
