-- ===== src/Job/Comments/Tracks.antt =====
-- What the counts of quotes in removeLineComments (job/config.go) say of a place in the line.
use mathlib.Core.List.{append_assoc}
use x_cuter.Common.{
  ℕ, ◌+◌, ◌≤◌, ◌==◌, ◌≡◌, refl, subst, inl, inr, Bool, true, false, not, ◌&&◌, [], ◌∷◌, ◌++◌, Bytes,
  if◌then◌else◌, arith, Bool-cases,
}
use x_cuter.Job.Comments.Literals.{Place, outside, inside, escaped, is_outside, is_inside, move}
use x_cuter.Job.Comments.{indicator, bit, count_quotes, count_escaped, is_even}

-- The last byte is a backslash.
unfoldable pub ends_escaping : Bytes → Bool
ends_escaping [] = false
ends_escaping (c ∷ []) = c == b'\\'
ends_escaping (c ∷ d ∷ rest) = ends_escaping (d ∷ rest)

count_quotes-concat :
    (b : Bytes) (c : ℕ) → count_quotes (b ++ c ∷ []) ≡ count_quotes b + bit (c == b'"')
unfolding count_quotes
count_quotes-concat [] c = omega arith
count_quotes-concat (d ∷ b) c = omega (arith, count_quotes-concat b c)

count_escaped-concat :
    (b : Bytes) (c : ℕ)
    → count_escaped (b ++ c ∷ []) ≡ count_escaped b + bit (ends_escaping b && (c == b'"'))
unfolding count_escaped ends_escaping
count_escaped-concat [] c = refl
count_escaped-concat (d ∷ []) c = omega arith
count_escaped-concat (d ∷ e ∷ b) c = omega (arith, count_escaped-concat (e ∷ b) c)

ends_escaping-concat : (b : Bytes) (c : ℕ) → ends_escaping (b ++ c ∷ []) ≡ (c == b'\\')
unfolding ends_escaping
ends_escaping-concat [] c = refl
ends_escaping-concat (d ∷ []) c = refl
ends_escaping-concat (d ∷ e ∷ b) c = ends_escaping-concat (e ∷ b) c

-- Every escaped quote is a quote, and none is the first byte.
count_escaped_bound :
    (c : ℕ) (b : Bytes) → count_escaped (c ∷ b) + bit (c == b'"') ≤ count_quotes (c ∷ b)
unfolding count_escaped count_quotes
count_escaped_bound c [] = ground arith
count_escaped_bound c (d ∷ b) = ground (arith, count_escaped_bound d b)

count_escaped_le : (b : Bytes) → count_escaped b ≤ count_quotes b
unfolding count_escaped count_quotes
count_escaped_le [] = ground arith
count_escaped_le (c ∷ b) = ground (arith, count_escaped_bound c b)

-- What the counts say of the place behind `before`.
abbrev pub Tracks : Place → Bytes → Type 0
Tracks outside before = (is_even before ≡ true) × (ends_escaping before ≡ false)
Tracks inside before = (is_even before ≡ false) × (ends_escaping before ≡ false)
Tracks escaped before = (is_even before ≡ false) × (ends_escaping before ≡ true)

is_even-concat :
    (b : Bytes) (c : ℕ)
    → is_even (b ++ c ∷ [])
      ≡ (if (c == b'"') && not (ends_escaping b) then not (is_even b) else is_even b)
unfolding is_even
is_even-concat b c =
    ground (arith, count_quotes-concat b c, count_escaped-concat b c, count_escaped_le b)

pub Tracks-concat :
    (place : Place) (b : Bytes) (c : ℕ)
    → Tracks place b
    → ((c == b'\\') && not (is_inside place)) ≡ false
    → Tracks (move place c) (b ++ c ∷ [])
Tracks-concat outside b c (e, l) h =
    let even = is_even-concat b c in
    let last = ends_escaping-concat b c in
    elim (Bool-cases (c == b'"')) [
      | inl q ↦ rw q (ground (arith, even, q, e, l), ground (arith, last, q))
      | inr q ↦ rw q (ground (arith, even, q, e, l), ground (arith, last, h))
    ]
Tracks-concat inside b c (e, l) h =
    let even = is_even-concat b c in
    let last = ends_escaping-concat b c in
    elim (Bool-cases (c == b'"')) [
      | inl q ↦ rw q (ground (arith, even, q, e, l), ground (arith, last, q))
      | inr q ↦ rw q (elim (Bool-cases (c == b'\\')) [
        | inl r ↦ rw r (ground (arith, even, q, e, l), ground (arith, last, r))
        | inr r ↦ rw r (ground (arith, even, q, e, l), ground (arith, last, r))
      ])
    ]
Tracks-concat escaped b c (e, l) h =
    (ground (arith, is_even-concat b c, e, l), ground (arith, ends_escaping-concat b c, h))

-- Behind the two bytes of an indicator in a literal the place is inside.
move-indicator : (place : Place) → is_outside place ≡ false → move (move place b'/') b'/' ≡ inside
move-indicator outside h = cc
move-indicator inside h = refl
move-indicator escaped h = refl

pub Tracks-indicator :
    (place : Place) (b : Bytes)
    → is_outside place ≡ false
    → Tracks place b
    → Tracks inside (b ++ indicator)
Tracks-indicator outside b h t = cc
Tracks-indicator inside b h t =
    subst (Tracks inside) (append_assoc b (b'/' ∷ []) (b'/' ∷ []))
      (Tracks-concat inside (b ++ b'/' ∷ []) b'/' (Tracks-concat inside b b'/' t refl) refl)
Tracks-indicator escaped b h t =
    subst (Tracks inside) (append_assoc b (b'/' ∷ []) (b'/' ∷ []))
      (Tracks-concat inside (b ++ b'/' ∷ []) b'/' (Tracks-concat escaped b b'/' t refl) refl)

-- With an even count the place is outside.
pub is_even-is_outside : (place : Place) (b : Bytes) → Tracks place b → is_even b ≡ is_outside place
is_even-is_outside outside b (e, l) = e
is_even-is_outside inside b (e, l) = e
is_even-is_outside escaped b (e, l) = e
