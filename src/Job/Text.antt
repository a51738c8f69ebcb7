-- ===== src/Job/Text.antt =====
-- The text of an execution tree (job/tree.go). The clock and the environment of the templating
-- engine belong to package text/template here, and what is printed for an error is left out.
pub mod Rows
pub mod Builder
pub mod Whole
use Prim.Native.Char.{code}
use Prim.Native.String.{◌++◌ as str_append}
use x_cuter.Common.{
  ℕ, zero, suc, ◌-◌, ◌==◌, ltb, ◌&&◌, Bool, Option, none, some, if◌then◌else◌, String,
}
use x_cuter.Job.{Host, Config}

-- `strings.Replace(s, "\n", "\n" + margin, -1)`
unfoldable pub indent : String → String → String
indent margin String.[] = ""
indent margin (String.◌∷◌ c s) =
    let rest = indent margin s in
    if code c == 10 then String.◌∷◌ c (str_append margin rest) else String.◌∷◌ c rest

mutual
  -- A `Stringer`: a Leaf, or a SimpleBranch, which a partHost has with its host.
  pub data Stringer : Type 0 where
    leaf : String → Stringer
    branch : Option Host → SimpleBranch → Stringer

  -- `Root`, `Leafs`, `max` and `raw`; a `max` below 0 is 0, which is none.
  pub data SimpleBranch : Type 0 where
    simple_branch : String → Stringers → ℕ → Bool → SimpleBranch

  pub data Stringers : Type 0 where
    no_more : Stringers
    more : Stringer → Stringers → Stringers

-- A `TemplatingEngine`.
pub record TextEngine : Type 0 where
  pub config : Config
  pub host : Option Host

unfoldable pub length_of : Stringers → ℕ
length_of no_more = 0
length_of (more t ts) = suc (length_of ts)

-- The engine that a partHost gives its branch.
abbrev pub for_host : Option Host → Option TextEngine → Option TextEngine
for_host none v = v
for_host (some h) none = none
for_host (some h) (some te) = some (record te { host = some h })

-- The number of children that are printed one by one, if not all are.
abbrev pub is_cut : ℕ → ℕ → Bool
is_cut max l = ltb 0 max && ltb max l

-- `interpolate` is package text/template, `decimal` is `%d`.
module _ (interpolate : Config → Option Host → String → Option String) (decimal : ℕ → String) where
  -- `Leaf.String`, for the `Te` of the Vars.
  unfoldable pub leaf_text : Option TextEngine → String → String
  leaf_text none s = s
  leaf_text (some te) s = elim (interpolate te.config te.host s) [ none ↦ s | some t ↦ t ]

  -- A child that is not the last.
  abbrev pub child_line : String → String
  child_line sub = str_append "├─ " (str_append (indent "│  " sub) "\n")

  abbrev pub last_line : String → String
  last_line sub = str_append "└─ " (indent "   " sub)

  abbrev pub more_line : ℕ → String
  more_line n = str_append "└─ and " (str_append (decimal n) " more ...")

  unfoldable mutual
    unfolding leaf_text indent length_of

    -- `String`
    pub string_of : Option TextEngine → Stringer → String
    string_of v (leaf s) = leaf_text v s
    string_of v (branch h b) = branch_text (for_host h v) b

    pub branch_text : Option TextEngine → SimpleBranch → String
    branch_text v (simple_branch root no_more max raw) = leaf_text v root
    branch_text v (simple_branch root (more t ts) max raw) =
        let inner = if raw then none else v in
        let l = suc (length_of ts) in
        let all = children_text inner (more t ts) in
        let some_of = first_text inner max (more t ts) in
        str_append (leaf_text v root)
          (str_append "\n" (if is_cut max l then str_append some_of (more_line (l - max)) else all))

    -- The first children, so many.
    pub first_text : Option TextEngine → ℕ → Stringers → String
    first_text v zero ts = ""
    first_text v (suc n) no_more = ""
    first_text v (suc n) (more t ts) = str_append (child_line (string_of v t)) (first_text v n ts)

    -- All children; the last is drawn in another way.
    pub children_text : Option TextEngine → Stringers → String
    children_text v no_more = ""
    children_text v (more t no_more) = last_line (string_of v t)
    children_text v (more t (more u us)) =
        str_append (child_line (string_of v t)) (children_text v (more u us))
