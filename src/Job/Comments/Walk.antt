-- ===== src/Job/Comments/Walk.antt =====
-- The loop of removeLineComments (job/config.go) over the indicators as one over the bytes.
use mathlib.Core.List.{append_assoc, append-nil}
use x_cuter.Common.{
  ℕ, zero, suc, ◌+◌, ◌≤◌, ◌≡◌, refl, sym, ◌∙◌, inl, inr, true, false, Option, none, some, [], ◌∷◌,
  ◌++◌, Bytes, length, length-drop, take, drop, if◌then◌else◌, arith, Bool-cases, Option-cases,
}
use x_cuter.Job.Comments.{is_comment, indicator, index_of, is_even, cut_from}

-- The loop of the code byte by byte.
unfoldable pub walk : Bytes → Bytes → Bytes
walk before [] = before
walk before (c ∷ []) = before ++ c ∷ []
walk before (c ∷ d ∷ rest) =
    let skipped = walk (before ++ c ∷ d ∷ []) rest in
    let further = walk (before ++ c ∷ []) (d ∷ rest) in
    if is_comment (c ∷ d ∷ rest) then if is_even before then before else skipped else further

pub slashes : (c d : ℕ) (rest : Bytes) → is_comment (c ∷ d ∷ rest) ≡ true → (c ≡ b'/') × (d ≡ b'/')
slashes c d rest h = (ground (arith, h), ground (arith, h))

index_of-here : (c : ℕ) (rest : Bytes) → is_comment (c ∷ rest) ≡ true → index_of (c ∷ rest) ≡ some 0
unfolding index_of
index_of-here c rest e = rw e refl

abbrev next_index : Option ℕ → Option ℕ
next_index none = none
next_index (some n) = some (suc n)

index_of-later :
    (c : ℕ) (rest : Bytes)
    → is_comment (c ∷ rest) ≡ false
    → index_of (c ∷ rest) ≡ next_index (index_of rest)
unfolding index_of
index_of-later c rest e =
    rw e (elim (Option-cases (index_of rest)) [ inl o ↦ rw o refl | inr (m, o) ↦ rw o refl ])

next_index-none : (o : Option ℕ) → next_index o ≡ none → o ≡ none
next_index-none none h = refl
next_index-none (some n) h = cc

next_index-some :
    (o : Option ℕ) (n : ℕ) → next_index o ≡ some n → (m : ℕ) × (n ≡ suc m) × (o ≡ some m)
next_index-some none n h = cc
next_index-some (some m) n h = (m, ground (arith, h), refl)

walk-none : (before rest : Bytes) → index_of rest ≡ none → walk before rest ≡ before ++ rest
unfolding walk index_of
walk-none before [] h = sym (append-nil before)
walk-none before (c ∷ []) h = refl
walk-none before (c ∷ d ∷ rest) h = elim (Bool-cases (is_comment (c ∷ d ∷ rest))) [
  | inl e ↦ ground (arith, index_of-here c (d ∷ rest) e, h)
  | inr e ↦ rw e (
      walk-none (before ++ c ∷ []) (d ∷ rest)
        (next_index-none _ (sym (index_of-later c (d ∷ rest) e) ∙ h))
      ∙ append_assoc before (c ∷ []) (d ∷ rest))
]

walk-some :
    (before rest : Bytes) (n : ℕ)
    → index_of rest ≡ some n
    → walk before rest ≡ (
        let front = before ++ take n rest in
        if is_even front then front else walk (front ++ indicator) (drop (n + 2) rest))
unfolding walk index_of
walk-some before [] n h = cc
walk-some before (c ∷ []) n h = cc
walk-some before (c ∷ d ∷ rest) n h = elim (Bool-cases (is_comment (c ∷ d ∷ rest))) [
  | inl e ↦
      let z : n ≡ 0 = ground (arith, index_of-here c (d ∷ rest) e, h) in
      let (cs, ds) = slashes c d rest e in rw (z, cs, ds, append-nil) refl
  | inr e ↦
      let (m, z, o) = next_index-some _ n (sym (index_of-later c (d ∷ rest) e) ∙ h) in
      let front : (before ++ c ∷ []) ++ take m (d ∷ rest) ≡ before ++ c ∷ take m (d ∷ rest) =
        append_assoc before (c ∷ []) (take m (d ∷ rest)) in
      let two : suc m + 2 ≡ suc (m + 2) = omega arith in
      rw (e, z, two) (walk-some (before ++ c ∷ []) (d ∷ rest) m o ∙ rw front refl)
]

-- With as much fuel as bytes are left, the loop does not run out of it.
pub cut_from-walk :
    (fuel : ℕ) (before rest : Bytes)
    → length rest ≤ fuel
    → cut_from fuel before rest ≡ walk before rest
unfolding cut_from walk
cut_from-walk zero before [] h = append-nil before
cut_from-walk zero before (c ∷ rest) h = ground (arith, h)
cut_from-walk (suc fuel) before rest h = elim (Option-cases (index_of rest)) [
  | inl o ↦ rw (o, cut_from) (sym (walk-none before rest o))
  | inr (n, o) ↦
      let front = before ++ take n rest in
      rw (o, cut_from)
        (elim (Bool-cases (is_even front)) [
          | inl e ↦ rw e (sym (walk-some before rest n o ∙ rw e refl))
          | inr e ↦ rw e (
              cut_from-walk fuel (front ++ indicator) (drop (n + 2) rest)
                (omega (arith, length-drop (n + 2) rest))
              ∙ sym (walk-some before rest n o ∙ rw e refl))
        ])
]
