-- ===== src/Telemetry/Visual.antt =====
-- The visualization of a job (telemetry/visualization.go). A node of the tree has its name and its
-- status, by which the source's map of nodes finds it; the log events of a node are further leaves.
pub mod Builder
mod Draws
pub mod Ready
use Prim.Native.Char.{code}
use Prim.Native.String.{◌++◌ as str_append}
use text.Mathlib.Text.{◌==◌ as str_eq}
use x_cuter.Common.{
  ℕ, zero, suc, ◌-◌, ◌==◌, Bool, false, Option, none, some, List, if◌then◌else◌, String,
}
use x_cuter.Job.Text.Builder.{
  Panics, panicked, fine, ◌<>◌, output_string, host_name, command_line, redirected, address,
  executed,
}
use x_cuter.Job.Text.{
  TextEngine, for_host, is_cut, leaf_text, child_line, last_line, more_line, indent,
}
use x_cuter.Job.Visit.Stateful.{visit_config}
use x_cuter.Job.Visit.{Visited, built, ◌and_then◌}
use x_cuter.Job.{Output, Host, HostsFile, Config}
use x_cuter.Telemetry.Naming.{NamedBuilder, naming_builder}
use x_cuter.Telemetry.Nodes.{NodeStatus, state_ready, state_running, state_completed, state_failed}
use x_cuter.Telemetry.{EventType, event_start, event_log, event_end, event_failed, LogInfo, Event}

-- What a SimpleBranch or a partHost has but its leaves.
pub record Head : Type 0 where
  pub host : Option Host
  pub root : String
  pub max : ℕ
  pub raw : Bool

mutual
  -- A `visualizationNode`, with its name, or the Leaf of a log event.
  pub data Drawing : Type 0 where
    note : String → Drawing
    node : String → NodeStatus → DrawingBranch → Drawing

  pub data DrawingBranch : Type 0 where
    drawing_branch : Head → Drawings → DrawingBranch

  pub data Drawings : Type 0 where
    no_drawings : Drawings
    drawings : Drawing → Drawings → Drawings

-- The text up to the first newline, and from there on.
unfoldable pub first_line : String → String
first_line String.[] = ""
first_line (String.◌∷◌ c s) =
    let rest = first_line s in if code c == 10 then "" else String.◌∷◌ c rest

unfoldable pub other_lines : String → String
other_lines String.[] = ""
other_lines (String.◌∷◌ c s) =
    let rest = other_lines s in if code c == 10 then String.◌∷◌ c s else rest

unfoldable pub count_drawings : Drawings → ℕ
count_drawings no_drawings = 0
count_drawings (drawings d ds) = suc (count_drawings ds)

abbrev pub add_drawing : Drawings → Drawing → Drawings
add_drawing no_drawings d = drawings d no_drawings
add_drawing (drawings e es) d = drawings e (add_drawing es d)

-- `yellow`, `green` and `red` of package color.
pub record Colours : Type 0 where
  pub yellow : String → String
  pub green : String → String
  pub red : String → String

abbrev pub coloured : (String → String) → String → String
coloured colour s = colour (first_line s) <> other_lines s

-- `formatString`
unfoldable pub format_string : Colours → String → NodeStatus → String
unfolding first_line other_lines
format_string colours s state_ready = s
format_string colours s state_running = coloured colours.yellow ("➤ " <> s)
format_string colours s state_completed = coloured colours.green ("✔ " <> s)
format_string colours s state_failed = coloured colours.red ("✘ " <> s)

module _ (colours : Colours) (interpolate : Config → Option Host → String → Option String)
    (decimal : ℕ → String) where
  unfoldable mutual
    unfolding leaf_text indent count_drawings format_string

    -- `visualizationNode.String`, and that of the branch in it
    pub draw : Option TextEngine → Drawing → String
    draw v (note s) = leaf_text interpolate decimal v s
    draw v (node name status b) = let shown = draw_branch v b in format_string colours shown status

    pub draw_branch : Option TextEngine → DrawingBranch → String
    draw_branch v (drawing_branch head no_drawings) =
        leaf_text interpolate decimal (for_host head.host v) head.root
    draw_branch v (drawing_branch head (drawings d ds)) =
        let te = for_host head.host v in
        let inner = if head.raw then none else te in
        let l = suc (count_drawings ds) in
        let all = draw_all inner (drawings d ds) in
        let some_of = draw_first inner head.max (drawings d ds) in
        str_append (leaf_text interpolate decimal te head.root) (
          str_append "\n" (
            if is_cut head.max l
            then str_append some_of (more_line interpolate decimal (l - head.max))
            else all))

    pub draw_first : Option TextEngine → ℕ → Drawings → String
    draw_first v zero ds = ""
    draw_first v (suc n) no_drawings = ""
    draw_first v (suc n) (drawings d ds) =
        str_append (child_line interpolate decimal (draw v d)) (draw_first v n ds)

    pub draw_all : Option TextEngine → Drawings → String
    draw_all v no_drawings = ""
    draw_all v (drawings d no_drawings) = last_line interpolate decimal (draw v d)
    draw_all v (drawings d (drawings e es)) =
        str_append (child_line interpolate decimal (draw v d)) (draw_all v (drawings e es))

-- `Apply` on the node that the event names: its status, or one more leaf, the text of the event.
abbrev pub draw_event : (Event → String) → Event → NodeStatus → DrawingBranch → Drawing
draw_event line event status (drawing_branch head ds) = elim event.event_type [
  | event_start ↦ node event.name state_running (drawing_branch head ds)
  | event_end ↦ node event.name state_completed (drawing_branch head ds)
  | event_failed ↦ node event.name state_failed (drawing_branch head ds)
  | event_log ↦ node event.name status (drawing_branch head (add_drawing ds (note (line event))))
]

unfoldable mutual
  -- `Visualization.Apply`
  pub apply_drawing : (Event → String) → Event → Drawing → Drawing
  apply_drawing line event (note s) = note s
  apply_drawing line event (node name status (drawing_branch head ds)) =
      let below = apply_drawings line event ds in
      if str_eq event.name name
      then draw_event line event status (drawing_branch head below)
      else node name status (drawing_branch head below)

  pub apply_drawings : (Event → String) → Event → Drawings → Drawings
  apply_drawings line event no_drawings = no_drawings
  apply_drawings line event (drawings d ds) =
      drawings (apply_drawing line event d) (apply_drawings line event ds)
