-- ===== src/Job/Comments/Scanner.antt =====
-- The count of quotes in removeLineComments (job/config.go) against the grammar of string literals.
use mathlib.Core.List.{append_assoc, append-nil}
use x_cuter.Common.{
  ℕ, ◌==◌, ◌≡◌, refl, sym, ap, subst, ◌∙◌, inl, inr, true, false, not, ◌&&◌, [], ◌∷◌, ◌++◌, Bytes,
  length, arith, Bool-cases,
}
use x_cuter.Job.Comments.Literals.{
  Place, outside, inside, escaped, is_outside, is_inside, move, without_comment, is_plain,
}
use x_cuter.Job.Comments.{is_comment, indicator, count_quotes, count_escaped, is_even, cut_line}
use x_cuter.Job.Comments.Tracks.{
  ends_escaping, Tracks, Tracks-concat, Tracks-indicator, is_even-is_outside,
}
use x_cuter.Job.Comments.Walk.{walk, slashes, cut_from-walk}

without_comment-indicator :
    (place : Place) (rest : Bytes)
    → is_outside place ≡ false
    → without_comment place (b'/' ∷ b'/' ∷ rest) ≡ b'/' ∷ b'/' ∷ without_comment inside rest
unfolding without_comment
without_comment-indicator outside rest h = cc
without_comment-indicator inside rest h = refl
without_comment-indicator escaped rest h = refl

is_plain-indicator :
    (place : Place) (rest : Bytes)
    → is_outside place ≡ false
    → is_plain place (b'/' ∷ b'/' ∷ rest) ≡ is_plain inside rest
unfolding is_plain
is_plain-indicator outside rest h = cc
is_plain-indicator inside rest h = refl
is_plain-indicator escaped rest h = refl

-- An indicator, `further` being what is known of the bytes behind it.
walk-indicator :
    (place : Place) (b rest : Bytes)
    → Tracks place b
    → is_plain place (b'/' ∷ b'/' ∷ rest) ≡ true
    → ((b' : Bytes)
        → Tracks inside b'
        → is_plain inside rest ≡ true
        → walk b' rest ≡ b' ++ without_comment inside rest)
    → walk b (b'/' ∷ b'/' ∷ rest) ≡ b ++ without_comment place (b'/' ∷ b'/' ∷ rest)
unfolding walk without_comment
walk-indicator outside b rest t p further = rw (is_even-is_outside outside b t) (sym (append-nil b))
walk-indicator inside b rest t p further = rw (is_even-is_outside inside b t) (
    further (b ++ indicator) (Tracks-indicator inside b refl t)
      (sym (is_plain-indicator inside rest refl) ∙ p)
    ∙ append_assoc b indicator (without_comment inside rest))
walk-indicator escaped b rest t p further = rw (is_even-is_outside escaped b t) (
    further (b ++ indicator) (Tracks-indicator escaped b refl t)
      (sym (is_plain-indicator escaped rest refl) ∙ p)
    ∙ append_assoc b indicator (without_comment inside rest))

-- A byte that begins no indicator.
is_plain-byte :
    (place : Place) (c : ℕ) (rest : Bytes)
    → is_comment (c ∷ rest) ≡ false
    → is_plain place (c ∷ rest) ≡ true
    → (((c == b'\\') && not (is_inside place)) ≡ false) × (is_plain (move place c) rest ≡ true)
unfolding is_plain
is_plain-byte outside c rest e p = (ground (arith, e, p), ground (arith, e, p))
is_plain-byte inside c rest e p = (ground (arith, e, p), ground (arith, e, p))
is_plain-byte escaped c rest e p = (ground (arith, e, p), ground (arith, e, p))

without_comment-byte :
    (place : Place) (c : ℕ) (rest : Bytes)
    → is_comment (c ∷ rest) ≡ false
    → without_comment place (c ∷ rest) ≡ c ∷ without_comment (move place c) rest
unfolding without_comment
without_comment-byte outside c rest e = rw e refl
without_comment-byte inside c rest e = refl
without_comment-byte escaped c rest e = refl

walk-byte :
    (b : Bytes) (c d : ℕ) (rest : Bytes)
    → is_comment (c ∷ d ∷ rest) ≡ false
    → walk b (c ∷ d ∷ rest) ≡ walk (b ++ c ∷ []) (d ∷ rest)
unfolding walk
walk-byte b c d rest e = rw e refl

walk-without_comment :
    (place : Place) (b rest : Bytes)
    → Tracks place b
    → is_plain place rest ≡ true
    → walk b rest ≡ b ++ without_comment place rest
unfolding walk without_comment
walk-without_comment place b [] t p = sym (append-nil b)
walk-without_comment place b (c ∷ []) t p = rw (without_comment-byte place c [] refl) refl
walk-without_comment place b (c ∷ d ∷ rest) t p = elim (Bool-cases (is_comment (c ∷ d ∷ rest))) [
  | inl e ↦
      let (cs, ds) = slashes c d rest e in
      let same : (c ∷ d ∷ rest) ≡ (b'/' ∷ b'/' ∷ rest) =
        ap (λ x. x ∷ d ∷ rest) cs ∙ ap (λ y. b'/' ∷ y ∷ rest) ds in
      subst (λ l. walk b l ≡ b ++ without_comment place l) (sym same)
        (walk-indicator place b rest t (sym (ap (is_plain place) same) ∙ p)
          (λ b' t' p'. walk-without_comment inside b' rest t' p'))
  | inr e ↦
      let (q, p') = is_plain-byte place c (d ∷ rest) e p in
      walk-byte b c d rest e
      ∙ (walk-without_comment (move place c) (b ++ c ∷ []) (d ∷ rest) (Tracks-concat place b c t q)
            p'
          ∙ append_assoc b (c ∷ []) (without_comment (move place c) (d ∷ rest))
          ∙ ap (λ l. b ++ l) (sym (without_comment-byte place c (d ∷ rest) e)))
]

-- What is kept of a line is the line up to the first "//" that stands in no string literal of the
-- JSON grammar, or the whole line if there is none; if, up to there, no backslash stands outside of
-- literals and no backslash is escaped.
pub cut_line-without_comment :
    (line : Bytes) → is_plain outside line ≡ true → cut_line line ≡ without_comment outside line
unfolding cut_line is_even count_quotes count_escaped ends_escaping
cut_line-without_comment line p =
    cut_from-walk (length line) [] line (omega arith)
    ∙ walk-without_comment outside [] line (refl, refl) p
