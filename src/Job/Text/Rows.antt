-- ===== src/Job/Text/Rows.antt =====
-- The lines of the text of an execution tree: one for each node that is shown.
use Prim.Native.Char.{code}
use Prim.Native.String.{◌++◌ as str_append}
use text.Mathlib.TextLemmas.{nil-append, cons-append}
use x_cuter.Common.{
  ◌∙◌, true, false, ◌-◌, ℕ, zero, suc, ◌+◌, ◌==◌, ◌||◌, leb, subst, ◌≡◌, refl, ap, Bool-cases,
  Option-cases, inl, inr, Option, none, some, if◌then◌else◌, String, arith,
}
use x_cuter.Job.Text.{
  indent, Stringer, leaf, branch, simple_branch, Stringers, no_more, more, TextEngine, length_of,
  for_host, is_cut, leaf_text, child_line, last_line, more_line, string_of, branch_text, first_text,
  children_text,
}
use x_cuter.Job.{Host, Config}

unfoldable pub newlines : String → ℕ
newlines String.[] = 0
newlines (String.◌∷◌ c s) = let n = newlines s in if code c == 10 then suc n else n

newlines-append : (s t : String) → newlines (str_append s t) ≡ newlines s + newlines t
unfolding newlines
newlines-append String.[] t = let same = ap newlines (nil-append t) in omega arith
newlines-append (String.◌∷◌ c s) t =
    ap newlines (cons-append c s t) ∙ elim (Bool-cases (code c == 10)) [
      | inl e ↦ simp e (let rest = newlines-append s t in omega arith)
      | inr e ↦ simp e (newlines-append s t)
    ]

newlines-indent :
    (margin s : String) → newlines margin ≡ 0 → newlines (indent margin s) ≡ newlines s
unfolding newlines indent
newlines-indent margin String.[] h = refl
newlines-indent margin (String.◌∷◌ c s) h =
    let rest = newlines-indent margin s h in
    let both = newlines-append margin (indent margin s) in
    elim (Bool-cases (code c == 10)) [
      | inl e ↦ simp (e, newlines) (omega arith)
      | inr e ↦ simp (e, newlines) rest
    ]

newlines-below :
    (root below : String)
    → newlines root ≡ 0
    → newlines (str_append root (str_append "\n" below)) ≡ suc (newlines below)
unfolding newlines
newlines-below root below h =
    let outer = newlines-append root (str_append "\n" below) in
    let inner = newlines-append "\n" below in omega arith

abbrev pub count : Stringers → ℕ
count no_more = 0
count (more t ts) = suc (count ts)

-- The nodes that are shown: all but those that a branch cuts off behind its maximum, if it has one
-- and has more children, for which there is one more line.
unfoldable mutual
  pub shown : Stringer → ℕ
  shown (leaf s) = 1
  shown (branch h (simple_branch root ts max raw)) =
      let all = all_shown ts in
      let cut = first_shown max ts in
      if max == 0 || leb (count ts) max then suc all else suc (suc cut)

  pub first_shown : ℕ → Stringers → ℕ
  first_shown zero ts = 0
  first_shown (suc n) no_more = 0
  first_shown (suc n) (more t ts) = shown t + first_shown n ts

  pub all_shown : Stringers → ℕ
  all_shown no_more = 0
  all_shown (more t ts) = shown t + all_shown ts

count-length_of : (ts : Stringers) → length_of ts ≡ count ts
unfolding length_of
count-length_of no_more = refl
count-length_of (more t ts) = ap suc (count-length_of ts)

-- The engine behind a branch with a host.
abbrev pub engine_of : Option Host → Option TextEngine → Option TextEngine
engine_of none v = v
engine_of (some h) none = none
engine_of (some h) (some te) = some (record te { host = some h })

engine_of-for_host : (h : Option Host) (v : Option TextEngine) → engine_of h v ≡ for_host h v
engine_of-for_host none v = refl
engine_of-for_host (some h) none = refl
engine_of-for_host (some h) (some te) = refl

-- Of what a template gives, or of the text if it gives nothing.
abbrev pub OneLineMade : String → Option String → Type 0
OneLineMade s none = newlines s ≡ 0
OneLineMade s (some t) = newlines t ≡ 0

module _ (interpolate : Config → Option Host → String → Option String) where
  -- What is shown of a text has no newline: the text, or what the template in it gives.
  abbrev pub OneLineText : Option TextEngine → String → Type 0
  OneLineText none s = newlines s ≡ 0
  OneLineText (some te) s = OneLineMade s (interpolate te.config te.host s)

  -- What is shown of each node has no newline. A raw branch shows its children as they are.
  unfoldable mutual
    pub OneLine : Option TextEngine → Stringer → Type 0
    OneLine v (leaf s) = OneLineText v s
    OneLine v (branch h (simple_branch root ts max raw)) =
        OneLineText (engine_of h v) root × OneLines (if raw then none else engine_of h v) ts

    pub OneLines : Option TextEngine → Stringers → Type 0
    OneLines v no_more = Unit
    OneLines v (more t ts) = OneLine v t × OneLines v ts

module _ (interpolate : Config → Option Host → String → Option String) (decimal : ℕ → String)
    (one_number : (n : ℕ) → newlines (decimal n) ≡ 0) where
  newlines-leaf_text :
      (v : Option TextEngine) (s : String)
      → OneLineText interpolate v s
      → newlines (leaf_text interpolate decimal v s) ≡ 0
  unfolding leaf_text
  newlines-leaf_text none s h = h
  newlines-leaf_text (some te) s h = elim (Option-cases (interpolate te.config te.host s)) [
    | inl n ↦ simp (n, leaf_text) (subst (OneLineMade s) n h)
    | inr (t, n) ↦ simp (n, leaf_text) (subst (OneLineMade s) n h)
  ]

  newlines-child_line :
      (sub : String) → newlines (child_line interpolate decimal sub) ≡ suc (newlines sub)
  unfolding newlines
  newlines-child_line sub =
      let outer = newlines-append "├─ " (str_append (indent "│  " sub) "\n") in
      let inner = newlines-append (indent "│  " sub) "\n" in
      let same = newlines-indent "│  " sub refl in omega arith

  newlines-last_line : (sub : String) → newlines (last_line interpolate decimal sub) ≡ newlines sub
  unfolding newlines
  newlines-last_line sub =
      let outer = newlines-append "└─ " (indent "   " sub) in
      let same = newlines-indent "   " sub refl in omega arith

  newlines-more_line : (n : ℕ) → newlines (more_line interpolate decimal n) ≡ 0
  unfolding newlines
  newlines-more_line n =
      let outer = newlines-append "└─ and " (str_append (decimal n) " more ...") in
      let inner = newlines-append (decimal n) " more ..." in
      let number = one_number n in omega arith

  mutual
    unfolding string_of branch_text children_text first_text newlines OneLine shown length_of

    string_of-rows :
        (v : Option TextEngine) (t : Stringer)
        → OneLine interpolate v t
        → suc (newlines (string_of interpolate decimal v t)) ≡ shown t
    string_of-rows v (leaf s) h = ap suc (newlines-leaf_text v s h)
    string_of-rows v (branch host (simple_branch root no_more max raw)) (h, hs) =
        let te = for_host host v in
        let one =
          newlines-leaf_text te root
            (subst (λ e. OneLineText interpolate e root) (engine_of-for_host host v) h) in
        let none_cut : (max == 0 || leb 0 max) ≡ true = ground arith in simp none_cut (ap suc one)
    string_of-rows v (branch host (simple_branch root (more t ts) max raw)) (h, hs) =
        let te = for_host host v in
        let inner = if raw then none else te in
        let l = suc (length_of ts) in
        let same = engine_of-for_host host v in
        let one = newlines-leaf_text te root (subst (λ e. OneLineText interpolate e root) same h) in
        let below_one =
          subst (λ e. OneLines interpolate (if raw then none else e) (more t ts)) same hs in
        let number = count-length_of ts in
        let cut = first_text interpolate decimal inner max (more t ts) in
        let dots = more_line interpolate decimal (l - max) in
        elim (Bool-cases (is_cut max l)) [
          | inl e ↦
              let framed =
                newlines-below (leaf_text interpolate decimal te root) (str_append cut dots) one in
              let both = newlines-append cut dots in
              let rows = first_text-rows inner max (more t ts) below_one in
              let line = newlines-more_line (l - max) in
              let less : (max == 0 || leb (suc (count ts)) max) ≡ false =
                ground (arith, e, number) in
              simp (e, less) (omega arith)
          | inr e ↦
              let below = children_text interpolate decimal inner (more t ts) in
              let framed = newlines-below (leaf_text interpolate decimal te root) below one in
              let first = string_of-rows inner t below_one.0 in
              let rows = children_text-rows inner (more t ts) below_one in
              let fits : (max == 0 || leb (suc (count ts)) max) ≡ true =
                ground (arith, e, number) in
              simp (e, fits) (omega arith)
        ]

    first_text-rows :
        (v : Option TextEngine) (n : ℕ) (ts : Stringers)
        → OneLines interpolate v ts
        → newlines (first_text interpolate decimal v n ts) ≡ first_shown n ts
    first_text-rows v zero ts h = refl
    first_text-rows v (suc n) no_more h = refl
    first_text-rows v (suc n) (more t ts) (h, hs) =
        let both =
          newlines-append (child_line interpolate decimal (string_of interpolate decimal v t))
            (first_text interpolate decimal v n ts) in
        let line = newlines-child_line (string_of interpolate decimal v t) in
        let row = string_of-rows v t h in let rows = first_text-rows v n ts hs in omega arith

    children_text-rows :
        (v : Option TextEngine) (ts : Stringers)
        → OneLines interpolate v ts
        → newlines (children_text interpolate decimal v ts) ≡ all_shown ts - 1
    children_text-rows v no_more h = refl
    children_text-rows v (more t no_more) (h, hs) =
        let line = newlines-last_line (string_of interpolate decimal v t) in
        let row = string_of-rows v t h in omega arith
    children_text-rows v (more t (more u us)) (h, (k, hs)) =
        let both =
          newlines-append (child_line interpolate decimal (string_of interpolate decimal v t))
            (children_text interpolate decimal v (more u us)) in
        let line = newlines-child_line (string_of interpolate decimal v t) in
        let row = string_of-rows v t h in
        let next = string_of-rows v u k in
        let rows = children_text-rows v (more u us) (k, hs) in omega arith

  -- If what is shown of each node has no newline, with the templates of its text filled in under
  -- the Vars given, and no number has one, then the text of the tree has one line for each node that
  -- is shown: all nodes but those that a branch cuts off behind its maximum, and one line for those.
  pub string_of-shown :
      (v : Option TextEngine) (t : Stringer)
      → OneLine interpolate v t
      → newlines (string_of interpolate decimal v t) + 1 ≡ shown t
  string_of-shown v t h = let rows = string_of-rows v t h in omega arith
