-- ===== src/Telemetry/Visual/Builder.antt =====
-- The builder that makes the nodes of a visualization, and its text (telemetry/visualization.go).
use x_cuter.Common.{ℕ, false, Option, none, some, List, String}
use x_cuter.Job.Text.Builder.{
  Panics, panicked, fine, ◌<>◌, output_string, host_name, command_line, redirected, address,
  executed,
}
use x_cuter.Job.Visit.Stateful.{visit_config}
use x_cuter.Job.Visit.{Visited, built, ◌and_then◌}
use x_cuter.Job.{Output, Host, HostsFile, Config}
use x_cuter.Telemetry.Naming.{NamedBuilder, naming_builder}
use x_cuter.Telemetry.Nodes.{state_ready}
use x_cuter.Telemetry.Visual.{
  Head, Drawing, node, drawing_branch, Drawings, no_drawings, drawings, add_drawing, Colours, draw,
}

abbrev pub VisualPart : Type 0
VisualPart = Panics (Option Drawing)

pub record VisualGroup : Type 0 where
  pub name : String
  pub head : Head
  pub leaves : Drawings

abbrev pub append_drawing : Panics VisualGroup → VisualPart → Panics VisualGroup
append_drawing (fine g) (fine none) = fine g
append_drawing (fine g) (fine (some d)) = fine (record g { leaves = add_drawing g.leaves d })
append_drawing (fine g) panicked = panicked
append_drawing panicked t = panicked

-- `visualizationNode.Wrap`
abbrev pub wrap_drawing : Panics VisualGroup → VisualPart
wrap_drawing (fine g) = fine (some (node g.name state_ready (drawing_branch g.head g.leaves)))
wrap_drawing panicked = panicked

abbrev pub plain_head : String → Head
plain_head root = record { host = none; root = root; max = 0; raw = false }

-- `storeNode` of a node for a group, for a leaf, and for a branch around a child.
abbrev pub visual_group : String → Head → Unit {0} → Unit {0} × Panics VisualGroup
visual_group name head st = (st, fine (record { name = name; head = head; leaves = no_drawings }))

abbrev pub visual_leaf : String → String → Unit {0} → Unit {0} × VisualPart
visual_leaf name s st =
    (st, fine (some (node name state_ready (drawing_branch (plain_head s) no_drawings))))

abbrev pub visual_around : String → String → VisualPart → VisualPart
visual_around name root (fine (some d)) =
    fine (some (node name state_ready (drawing_branch (plain_head root) (drawings d no_drawings))))
visual_around name root (fine none) = panicked
visual_around name root panicked = panicked

-- With an output there is a leaf, else nil.
abbrev pub visual_output : String → Option Output → Unit {0} → Unit {0} × VisualPart
visual_output name none st = (st, fine none)
visual_output name (some o) st = visual_leaf name ("Output: " <> output_string o) st

module _ {D : Type 0} (decimal : ℕ → String) (quoted : String → String)
    (duration : D → String) where
  -- The `stringBuilder`; its StringBuilder is full and has no maxima.
  abbrev pub visual_builder : NamedBuilder (Unit {0}) VisualPart (Panics VisualGroup) D
  visual_builder = record {
    nil = fine none;
    append = append_drawing;
    wrap = wrap_drawing;
    sequential = λ node_name. visual_group node_name (plain_head "Sequential");
    parallel = λ node_name. visual_group node_name (plain_head "Parallel");
    job = λ node_name name. visual_group node_name (plain_head name);
    output = visual_output;
    job_logger = λ node_name job_name. visual_leaf node_name "Create job logger";
    host_logger = λ node_name job_name h. visual_leaf node_name "Create host logger";
    timeout = λ node_name d. visual_leaf node_name ("Timeout: " <> duration d);
    scp = λ node_name scp.
        visual_leaf node_name
          ("SCP listen on " <> address decimal quoted duration scp.addr scp.port);
    hosts = λ node_name. visual_group node_name (plain_head "Target hosts");
    host = λ node_name c h.
        visual_group node_name (record (plain_head ("Host " <> host_name h)) { host = some h });
    error_safeguard = λ node_name t st. (st, visual_around node_name "Error safeguard" t);
    context_bounds = λ node_name t st. (st, visual_around node_name "Context Bounds" t);
    retry = λ node_name t n st.
        (st, visual_around node_name ("Retry up to " <> decimal n <> " times") t);
    templating = λ node_name c h. visual_leaf node_name "Create templating engine";
    ssh_client = λ node_name addr port user key password interactive.
        visual_leaf node_name
          ("Open SSH connection to " <> user <> "@" <> address decimal quoted duration addr port);
    forwarding = λ node_name f. visual_leaf node_name (
        "Forward "
        <> address decimal quoted duration f.remote_host f.remote_port
        <> " to "
        <> address decimal quoted duration f.local_host f.local_port);
    tunnel = λ node_name f. visual_leaf node_name (
        "Tunnel "
        <> address decimal quoted duration f.local_host f.local_port
        <> " to "
        <> address decimal quoted duration f.remote_host f.remote_port);
    commands = λ node_name cmd. visual_group node_name (plain_head "Command");
    command = λ node_name cmd.
        visual_leaf node_name (executed decimal quoted duration (command_line cmd) "");
    local_command = λ node_name cmd.
        visual_leaf node_name (executed decimal quoted duration (command_line cmd) " locally");
    stdout = λ node_name o. visual_leaf node_name (redirected "STDOUT" o);
    stderr = λ node_name o. visual_leaf node_name (redirected "STDERR" o);
  }

  -- `Visualization.String` of a tree for the configuration.
  abbrev pub visual_text :
      Colours
      → (Config → Option Host → String → Option String)
      → Config
      → VisualPart
      → Panics String
  visual_text colours interpolate c (fine (some d)) =
      fine (draw colours interpolate decimal (some (record { config = c; host = none })) d)
  visual_text colours interpolate c (fine none) = panicked
  visual_text colours interpolate c panicked = panicked

  -- `NewVisualization`, which asserts that there is a node, and its text.
  unfoldable pub new_visualization :
      Colours
      → (Config → Option Host → String → Option String)
      → (ℕ → String)
      → (String → Option D)
      → (List HostsFile → Option (List Host))
      → Config
      → Visited (Panics String)
  unfolding visit_config draw
  new_visualization colours interpolate uuid parse_duration read_hosts c =
      visit_config parse_duration read_hosts (naming_builder uuid visual_builder) c (0, tt)
      and_then (λ tree. built (visual_text colours interpolate c tree.1))
