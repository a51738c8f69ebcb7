-- ===== src/Job/Comments/Literals.antt =====
-- The grammar of JSON string literals in a line, as RFC 8259 has it: what the comments of a line are.
use x_cuter.Common.{ℕ, ◌==◌, Bool, true, false, not, ◌&&◌, [], ◌∷◌, Bytes, if◌then◌else◌}
use x_cuter.Job.Comments.{is_comment}

-- Outside of literals, in one, or in one behind a backslash that escapes.
pub data Place : Type 0 where
  outside inside escaped : Place

abbrev pub is_outside : Place → Bool
is_outside outside = true
is_outside inside = false
is_outside escaped = false

abbrev pub is_inside : Place → Bool
is_inside outside = false
is_inside inside = true
is_inside escaped = false

-- The place behind a byte.
abbrev pub move : Place → ℕ → Place
move outside c = if c == b'"' then inside else outside
move inside c = if c == b'"' then outside else if c == b'\\' then escaped else inside
move escaped c = inside

-- The line up to the first indicator that stands in no literal.
unfoldable pub without_comment : Place → Bytes → Bytes
without_comment place [] = []
without_comment place (c ∷ rest) =
    let later = without_comment (move place c) rest in
    if is_outside place && is_comment (c ∷ rest) then [] else c ∷ later

-- Up to the comment there is no backslash outside of literals and no escaped backslash.
unfoldable pub is_plain : Place → Bytes → Bool
is_plain place [] = true
is_plain place (c ∷ rest) =
    let later = is_plain (move place c) rest in
    if is_outside place && is_comment (c ∷ rest)
    then true
    else if (c == b'\\') && not (is_inside place)
    then false
    else later
