-- ===== src/Telemetry/Visual/Ready.antt =====
-- The visualization before any event: its text is that of the tree of the configuration.
use x_cuter.Common.{ℕ, ◌≡◌, refl, sym, ap, true, false, Option, none, some, List, String}
use x_cuter.Job.Text.Builder.{
  Panics, panicked, fine, TextPart, TextGroup, StringBuilder, append_text, wrap_text, around_text,
  only_child, printed, string_builder, config_tree,
}
use x_cuter.Job.Text.{simple_branch, no_more, more}
use x_cuter.Job.Visit.Stateful.Agree.{Agree, Related}
use x_cuter.Job.Visit.Stateful.OfJob.{visit_config-Agree}
use x_cuter.Job.Visit.{Visited, built, refused, nil_pointer, ◌and_then◌}
use x_cuter.Job.{Output, Host, HostsFile, Config}
use x_cuter.Telemetry.Naming.{naming_builder}
use x_cuter.Telemetry.Visual.{Head, no_drawings, drawings, Colours}
use x_cuter.Telemetry.Visual.Builder.{
  VisualPart, VisualGroup, append_drawing, wrap_drawing, plain_head, visual_around, visual_output,
  visual_builder, visual_text, new_visualization,
}
use x_cuter.Telemetry.Visual.Draws.{Draws, DrawsAll, add-DrawsAll, node-Draws, leaf-Draws}

-- What the visualization shows.
abbrev pub full_tree : StringBuilder
full_tree = record { full = true; raw = false; max_hosts = 0; max_commands = 0 }

module _ (colours : Colours) (interpolate : Config → Option Host → String → Option String)
    (decimal : ℕ → String) where
  abbrev pub SamePart : TextPart → VisualPart → Type 0
  SamePart panicked panicked = Unit
  SamePart panicked (fine t') = ⊥
  SamePart (fine t) panicked = ⊥
  SamePart (fine none) (fine none) = Unit
  SamePart (fine none) (fine (some d)) = ⊥
  SamePart (fine (some t)) (fine none) = ⊥
  SamePart (fine (some t)) (fine (some d)) = Draws colours interpolate decimal t d

  abbrev pub SameGroup : TextGroup → Panics VisualGroup → Type 0
  SameGroup panicked panicked = Unit
  SameGroup panicked (fine g') = ⊥
  SameGroup (fine g) panicked = ⊥
  SameGroup (fine (h, simple_branch root ts max raw)) (fine g') =
      (g'.head ≡ record { host = h; root = root; max = max; raw = raw })
      × DrawsAll colours interpolate decimal ts g'.leaves

  append-SameGroup :
      (g : TextGroup) (g' : Panics VisualGroup) (t : TextPart) (t' : VisualPart)
      → SameGroup g g'
      → SamePart t t'
      → SameGroup (append_text g t) (append_drawing g' t')
  append-SameGroup panicked panicked t t' h k = tt
  append-SameGroup panicked (fine g') t t' h k = elim h [ ]
  append-SameGroup (fine g) panicked t t' h k = elim h [ ]
  append-SameGroup (fine g) (fine g') panicked panicked h k = tt
  append-SameGroup (fine g) (fine g') panicked (fine t') h k = elim k [ ]
  append-SameGroup (fine g) (fine g') (fine t) panicked h k = elim k [ ]
  append-SameGroup (fine g) (fine g') (fine none) (fine none) h k = h
  append-SameGroup (fine g) (fine g') (fine none) (fine (some d)) h k = elim k [ ]
  append-SameGroup (fine g) (fine g') (fine (some t)) (fine none) h k = elim k [ ]
  append-SameGroup (fine (host, simple_branch root ts max raw)) (fine g') (fine (some t))
        (fine (some d)) h k =
      (h.0, add-DrawsAll colours interpolate decimal ts g'.leaves t d h.1 k)

  wrap-SamePart :
      (g : TextGroup) (g' : Panics VisualGroup)
      → SameGroup g g'
      → SamePart (wrap_text g) (wrap_drawing g')
  wrap-SamePart panicked panicked h = tt
  wrap-SamePart panicked (fine g') h = elim h [ ]
  wrap-SamePart (fine g) panicked h = elim h [ ]
  wrap-SamePart (fine (host, simple_branch root ts max raw)) (fine g') h =
      let head : Head = record { host = host; root = root; max = max; raw = raw } in
      node-Draws colours interpolate decimal g'.name head g'.head ts g'.leaves h.0 h.1

  around-SamePart :
      (name root : String) (t : TextPart) (t' : VisualPart)
      → SamePart t t'
      → SamePart (around_text (only_child root) t) (visual_around name root t')
  around-SamePart name root panicked panicked h = tt
  around-SamePart name root panicked (fine t') h = elim h [ ]
  around-SamePart name root (fine t) panicked h = elim h [ ]
  around-SamePart name root (fine none) (fine none) h = tt
  around-SamePart name root (fine none) (fine (some d)) h = elim h [ ]
  around-SamePart name root (fine (some t)) (fine none) h = elim h [ ]
  around-SamePart name root (fine (some t)) (fine (some d)) h =
      node-Draws colours interpolate decimal name (plain_head root) (plain_head root)
        (more t no_more) (drawings d no_drawings) refl (h, tt)

  module _ {D : Type 0} (quoted : String → String) (duration : D → String) (uuid : ℕ → String) where
    output-SamePart :
        (o : Option Output) (name : String)
        → SamePart
            ((string_builder decimal quoted duration full_tree).output o)
            (visual_output name o tt).1
    output-SamePart none name = tt
    output-SamePart (some o) name = leaf-Draws colours interpolate decimal name _

    builders-Related :
        Related SamePart SamePart SameGroup
          (string_builder decimal quoted duration full_tree)
          (naming_builder uuid (visual_builder decimal quoted duration))
    builders-Related = record {
      whole = λ t t' h. h;
      nil = tt;
      append = append-SameGroup;
      wrap = wrap-SamePart;
      sequential = λ st. (refl, tt);
      parallel = λ st. (refl, tt);
      job = λ name st. (refl, tt);
      output = λ o st. output-SamePart o _;
      job_logger = λ name st. leaf-Draws colours interpolate decimal _ _;
      host_logger = λ name h st. leaf-Draws colours interpolate decimal _ _;
      timeout = λ d st. leaf-Draws colours interpolate decimal _ _;
      scp = λ s st. leaf-Draws colours interpolate decimal _ _;
      hosts = λ st. (refl, tt);
      host = λ c h st. (refl, tt);
      error_safeguard = λ t t' st h. around-SamePart _ _ t t' h;
      context_bounds = λ t t' st h. around-SamePart _ _ t t' h;
      retry = λ t t' n st h. around-SamePart _ _ t t' h;
      templating = λ c h st. leaf-Draws colours interpolate decimal _ _;
      ssh_client =
          λ addr port user key password interactive st. leaf-Draws colours interpolate decimal _ _;
      forwarding = λ f st. leaf-Draws colours interpolate decimal _ _;
      tunnel = λ f st. leaf-Draws colours interpolate decimal _ _;
      commands = λ c st. (refl, tt);
      command = λ c st. leaf-Draws colours interpolate decimal _ _;
      local_command = λ c st. leaf-Draws colours interpolate decimal _ _;
      stdout = λ o st. leaf-Draws colours interpolate decimal _ _;
      stderr = λ o st. leaf-Draws colours interpolate decimal _ _;
    }

    text-SamePart :
        (c : Config) (t : TextPart) (t' : VisualPart)
        → SamePart t t'
        → visual_text decimal quoted duration colours interpolate c t'
          ≡ printed decimal quoted duration interpolate
              (some (record { config = c; host = none }))
              t
    text-SamePart c panicked panicked h = refl
    text-SamePart c panicked (fine t') h = elim h [ ]
    text-SamePart c (fine t) panicked h = elim h [ ]
    text-SamePart c (fine none) (fine none) h = refl
    text-SamePart c (fine none) (fine (some d)) h = elim h [ ]
    text-SamePart c (fine (some t)) (fine none) h = elim h [ ]
    text-SamePart c (fine (some t)) (fine (some d)) h =
        ap fine (h (some (record { config = c; host = none })))

    texts-Agree :
        (c : Config) (m : Visited TextPart) (m' : Visited ((ℕ × Unit {0}) × VisualPart))
        → Agree SamePart m m'
        → (m' and_then (λ tree.
            built (visual_text decimal quoted duration colours interpolate c tree.1)))
          ≡ (m and_then (λ f. built (
              printed decimal quoted duration interpolate
                (some (record { config = c; host = none }))
                f)))
    texts-Agree c (built t) (built (st, t')) h = ap built (text-SamePart c t t' h)
    texts-Agree c (built t) (refused e) h = elim h [ ]
    texts-Agree c (built t) nil_pointer h = elim h [ ]
    texts-Agree c (refused e) (built s) h = elim h [ ]
    texts-Agree c (refused e) (refused e') h = ap refused (sym h)
    texts-Agree c (refused e) nil_pointer h = elim h [ ]
    texts-Agree c nil_pointer (built s) h = elim h [ ]
    texts-Agree c nil_pointer (refused e) h = elim h [ ]
    texts-Agree c nil_pointer nil_pointer h = refl

    -- For any configuration, any colours and names of nodes, and with one and the same interpolation
    -- of templates, a new visualization is refused, follows a nil pointer or panics when `Tree` does so
    -- for the full tree without maxima, and otherwise its text, before any event, is the text that
    -- `Tree` gives.
    pub new_visualization-config_tree :
        (parse_duration : String → Option D) (read_hosts : List HostsFile → Option (List Host))
        (c : Config)
        → new_visualization decimal quoted duration colours interpolate uuid parse_duration
            read_hosts c
          ≡ config_tree decimal quoted duration interpolate parse_duration read_hosts full_tree c
    unfolding new_visualization config_tree
    new_visualization-config_tree parse_duration read_hosts c = texts-Agree c _ _ (
        visit_config-Agree SamePart SamePart SameGroup _ _ builders-Related parse_duration
          read_hosts c (0, tt))
