-- ===== src/Telemetry/Visual/Draws.antt =====
-- Drawings of nodes that are ready print what the tree without nodes prints.
use Prim.Native.String.{◌++◌ as str_append}
use x_cuter.Common.{ℕ, zero, suc, ◌-◌, ◌≡◌, refl, ap, ◌∙◌, Option, none, if◌then◌else◌, String}
use x_cuter.Job.Text.Builder.{add_last}
use x_cuter.Job.Text.{
  Stringer, leaf, branch, simple_branch, Stringers, no_more, more, TextEngine, length_of, for_host,
  is_cut, leaf_text, child_line, last_line, more_line, string_of, branch_text, first_text,
  children_text,
}
use x_cuter.Job.{Host, Config}
use x_cuter.Telemetry.Nodes.{state_ready}
use x_cuter.Telemetry.Visual.{
  Head, Drawing, node, drawing_branch, Drawings, no_drawings, drawings, count_drawings, add_drawing,
  Colours, format_string, draw, draw_branch, draw_first, draw_all,
}
use x_cuter.Telemetry.Visual.Builder.{plain_head}

module _ (colours : Colours) (interpolate : Config → Option Host → String → Option String)
    (decimal : ℕ → String) where
  -- The drawing prints what the Stringer prints.
  abbrev pub Draws : Stringer → Drawing → Type 0
  Draws t d =
      (v : Option TextEngine)
      → draw colours interpolate decimal v d ≡ string_of interpolate decimal v t

  abbrev pub DrawsAll : Stringers → Drawings → Type 0
  DrawsAll no_more no_drawings = Unit
  DrawsAll no_more (drawings d ds) = ⊥
  DrawsAll (more t ts) no_drawings = ⊥
  DrawsAll (more t ts) (drawings d ds) = Draws t d × DrawsAll ts ds

  count-DrawsAll :
      (ts : Stringers) (ds : Drawings) → DrawsAll ts ds → count_drawings ds ≡ length_of ts
  unfolding count_drawings length_of
  count-DrawsAll no_more no_drawings h = refl
  count-DrawsAll no_more (drawings d ds) h = elim h [ ]
  count-DrawsAll (more t ts) no_drawings h = elim h [ ]
  count-DrawsAll (more t ts) (drawings d ds) (h, hs) = ap suc (count-DrawsAll ts ds hs)

  pub add-DrawsAll :
      (ts : Stringers) (ds : Drawings) (t : Stringer) (d : Drawing)
      → DrawsAll ts ds
      → Draws t d
      → DrawsAll (add_last ts t) (add_drawing ds d)
  add-DrawsAll no_more no_drawings t d h k = (k, tt)
  add-DrawsAll no_more (drawings e es) t d h k = elim h [ ]
  add-DrawsAll (more u us) no_drawings t d h k = elim h [ ]
  add-DrawsAll (more u us) (drawings e es) t d (h, hs) k = (h, add-DrawsAll us es t d hs k)

  draw_first-DrawsAll :
      (v : Option TextEngine) (n : ℕ) (ts : Stringers) (ds : Drawings)
      → DrawsAll ts ds
      → draw_first colours interpolate decimal v n ds ≡ first_text interpolate decimal v n ts
  unfolding draw_first first_text
  draw_first-DrawsAll v zero ts ds h = refl
  draw_first-DrawsAll v (suc n) no_more no_drawings h = refl
  draw_first-DrawsAll v (suc n) no_more (drawings d ds) h = elim h [ ]
  draw_first-DrawsAll v (suc n) (more t ts) no_drawings h = elim h [ ]
  draw_first-DrawsAll v (suc n) (more t ts) (drawings d ds) (h, hs) =
      ap
        (λ s.
          str_append (child_line interpolate decimal s)
            (draw_first colours interpolate decimal v n ds))
        (h v)
      ∙ ap (str_append (child_line interpolate decimal (string_of interpolate decimal v t)))
          (draw_first-DrawsAll v n ts ds hs)

  draw_all-DrawsAll :
      (v : Option TextEngine) (ts : Stringers) (ds : Drawings)
      → DrawsAll ts ds
      → draw_all colours interpolate decimal v ds ≡ children_text interpolate decimal v ts
  unfolding draw_all children_text
  draw_all-DrawsAll v no_more no_drawings h = refl
  draw_all-DrawsAll v no_more (drawings d ds) h = elim h [ ]
  draw_all-DrawsAll v (more t ts) no_drawings h = elim h [ ]
  draw_all-DrawsAll v (more t no_more) (drawings d no_drawings) (h, hs) =
      ap (last_line interpolate decimal) (h v)
  draw_all-DrawsAll v (more t no_more) (drawings d (drawings e es)) (h, hs) = elim hs [ ]
  draw_all-DrawsAll v (more t (more u us)) (drawings d no_drawings) (h, hs) = elim hs [ ]
  draw_all-DrawsAll v (more t (more u us)) (drawings d (drawings e es)) (h, hs) =
      ap
        (λ s.
          str_append (child_line interpolate decimal s)
            (draw_all colours interpolate decimal v (drawings e es)))
        (h v)
      ∙ ap (str_append (child_line interpolate decimal (string_of interpolate decimal v t)))
          (draw_all-DrawsAll v (more u us) (drawings e es) hs)

  draw_branch-DrawsAll :
      (v : Option TextEngine) (head : Head) (ts : Stringers) (ds : Drawings)
      → DrawsAll ts ds
      → draw_branch colours interpolate decimal v (drawing_branch head ds)
        ≡ branch_text interpolate decimal
            (for_host head.host v)
            (simple_branch head.root ts head.max head.raw)
  unfolding draw_branch branch_text
  draw_branch-DrawsAll v head no_more no_drawings h = refl
  draw_branch-DrawsAll v head no_more (drawings d ds) h = elim h [ ]
  draw_branch-DrawsAll v head (more t ts) no_drawings h = elim h [ ]
  draw_branch-DrawsAll v head (more t ts) (drawings d ds) h =
      let te = for_host head.host v in
      let inner : Option TextEngine = if head.raw then none else te in
      let frame : ℕ → String → String → String = λ l cut all.
        str_append (leaf_text interpolate decimal te head.root) (
          str_append "\n" (
            if is_cut head.max (suc l)
            then str_append cut (more_line interpolate decimal (suc l - head.max))
            else all)) in
      let cut = draw_first colours interpolate decimal inner head.max (drawings d ds) in
      let all = draw_all colours interpolate decimal inner (drawings d ds) in
      ap (λ l. frame l cut all) (count-DrawsAll ts ds h.1)
      ∙ ap (λ s. frame (length_of ts) s all)
          (draw_first-DrawsAll inner head.max (more t ts) (drawings d ds) h)
      ∙ ap (frame (length_of ts) (first_text interpolate decimal inner head.max (more t ts)))
          (draw_all-DrawsAll inner (more t ts) (drawings d ds) h)

  -- A node that is ready prints its branch.
  pub node-Draws :
      (name : String) (head head' : Head) (ts : Stringers) (ds : Drawings)
      → head' ≡ head
      → DrawsAll ts ds
      → Draws
          (branch head.host (simple_branch head.root ts head.max head.raw))
          (node name state_ready (drawing_branch head' ds))
  unfolding draw string_of format_string
  node-Draws name head head' ts ds e h v =
      ap (λ x. draw_branch colours interpolate decimal v (drawing_branch x ds)) e
      ∙ draw_branch-DrawsAll v head ts ds h

  pub leaf-Draws :
      (name s : String)
      → Draws (leaf s) (node name state_ready (drawing_branch (plain_head s) no_drawings))
  unfolding draw draw_branch string_of format_string
  leaf-Draws name s v = refl
