-- ===== src/Telemetry/Same/Job.antt =====
-- The tree of a job with telemetry does what the tree without does.
use x_cuter.Common.Pointwise.{Pointwise, Pointwise-concat}
use x_cuter.Common.{ℕ, ◌≡◌, refl, subst, Bool, true, false, Option, none, some, List, map, String}
use x_cuter.Flunc.Parallel.{Goroutines, parallel}
use x_cuter.Flunc.{sequential, error_safeguard, context_bounds, retry}
use x_cuter.Job.Tree.Builder.{ExecutionGroup, tree_contexts, wrap_group, around, tree_builder}
use x_cuter.Job.Tree.{
  System, TreeError, Step, Logger, child, output_step, logger_step, timeout_step, scp_step,
  templating_step, ssh_client_step, forwarding_step, tunnel_step, command_step, local_command_step,
  stdout_step, stderr_step,
}
use x_cuter.Job.Visit.Stateful.Agree.{Agree, Related}
use x_cuter.Job.Visit.Stateful.OfJob.{visit_config-Agree}
use x_cuter.Job.Visit.Stateful as Stateful
use x_cuter.Job.Visit as Pure
use x_cuter.Job.{Host, HostsFile, Config}
use x_cuter.Telemetry.Builder.{with_events, NodeGroup, instrumented, telemetry_builder}
use x_cuter.Telemetry.Naming.{naming_builder}
use x_cuter.Telemetry.Same.Groups.{SameSchedule, sequential_from-Same, parallel-Same}
use x_cuter.Telemetry.Same.Logged.{
  timeout_step-SameLogged, scp_step-SameLogged, ssh_client_step-SameLogged,
  forwarding_step-SameLogged, tunnel_step-SameLogged, command_step-SameLogged,
  local_command_step-SameLogged, stdout_step-SameLogged, stderr_step-SameLogged,
}
use x_cuter.Telemetry.Same.Steps.{templating_step-Same, logger_step-Same, output_step-Same}
use x_cuter.Telemetry.Same.Wrappers.{
  instrument-Same, error_safeguard-SameLogged, context_bounds-SameLogged, retry-SameLogged,
}
use x_cuter.Telemetry.Same.{Same, SameLogged}
use x_cuter.Telemetry.{Event}

module _ {S K W C D : Type 0} (sys : System S K W C D) (d : Logger W) where
  -- Both parts are nil, or the one with the events does what the other does.
  abbrev pub SamePart : Option (Step sys) → Option (Step (with_events sys)) → Type 0
  SamePart none none = Unit
  SamePart (some f) (some f') = Same sys d f f'
  SamePart none (some f') = ⊥
  SamePart (some f) none = ⊥

  -- Groups of one kind whose fluncs do the same.
  abbrev pub SameGroup : ExecutionGroup (Step sys) → NodeGroup (Step (with_events sys)) → Type 0
  SameGroup g g' =
      (g.is_parallel ≡ g'.group.is_parallel) × Pointwise (Same sys d) g.fluncs g'.group.fluncs

  -- What does the same with or without a logger does so with one.
  Same-SameLogged :
      (f : Step sys) (f' : Step (with_events sys)) → Same sys d f f' → SameLogged sys d f f'
  Same-SameLogged f f' h ctx s events i = h ctx s events

  module _ (go : Goroutines S TreeError) (go' : Goroutines (S × List Event) TreeError)
      (now : S → S × ℕ) (schedule : SameSchedule go go') (clock : (s : S) → (now s).0 ≡ s) where
    instrumented-SamePart :
        (name : String) (f : Step sys) (f' : Step (with_events sys))
        → SameLogged sys d f f'
        → SamePart (some f) (instrumented sys go' now name (some f'))
    instrumented-SamePart name f f' h = instrument-Same sys d now name f f' clock h

    always-SamePart :
        (name : String) (f : Step sys) (f' : Step (with_events sys))
        → Same sys d f f'
        → SamePart (some f) (instrumented sys go' now name (some f'))
    always-SamePart name f f' h = instrumented-SamePart name f f' (Same-SameLogged f f' h)

    around-SamePart :
        (name : String) (wrap : Step sys → Step sys)
        (wrap' : Step (with_events sys) → Step (with_events sys)) (t : Option (Step sys))
        (t' : Option (Step (with_events sys)))
        → ((f : Step sys) (f' : Step (with_events sys))
            → SameLogged sys d f f'
            → SameLogged sys d (wrap f) (wrap' f'))
        → SamePart t t'
        → SamePart
            (around sys go wrap t)
            (instrumented sys go' now name (around (with_events sys) go' wrap' t'))
    around-SamePart name wrap wrap' none none w h = tt
    around-SamePart name wrap wrap' none (some f') w h = elim h [ ]
    around-SamePart name wrap wrap' (some f) none w h = elim h [ ]
    around-SamePart name wrap wrap' (some f) (some f') w h =
        instrumented-SamePart name (wrap f) (wrap' f') (w f f' (Same-SameLogged f f' h))

    append_node-SameGroup :
        (g : ExecutionGroup (Step sys)) (g' : NodeGroup (Step (with_events sys)))
        (t : Option (Step sys)) (t' : Option (Step (with_events sys)))
        → SameGroup g g'
        → SamePart t t'
        → SameGroup
            ((tree_builder sys go).append g t)
            ((telemetry_builder sys go' now).append g' t')
    append_node-SameGroup g g' none none h p = h
    append_node-SameGroup g g' none (some f') h p = elim p [ ]
    append_node-SameGroup g g' (some f) none h p = elim p [ ]
    append_node-SameGroup g g' (some f) (some f') h p =
        (h.0, Pointwise-concat (Same sys d) g.fluncs g'.group.fluncs f f' h.1 p)

    -- The Flunc of a group, whatever its kind.
    kind-SamePart :
        (name : String) (is_parallel : Bool) (fs : List (Step sys))
        (fs' : List (Step (with_events sys)))
        → Pointwise (Same sys d) fs fs'
        → SamePart (wrap_group sys go (record { is_parallel = is_parallel; fluncs = fs })) (
            instrumented sys go' now name (
              wrap_group
                (with_events sys)
                go'
                (record { is_parallel = is_parallel; fluncs = fs' })))
    kind-SamePart name true fs fs' h =
        always-SamePart name (parallel (tree_contexts sys go) go child (map some fs))
          (parallel (tree_contexts (with_events sys) go') go' child (map some fs'))
          (parallel-Same sys d go go' fs fs' schedule h)
    kind-SamePart name false fs fs' h =
        always-SamePart name (sequential (tree_contexts sys go) (map some fs))
          (sequential (tree_contexts (with_events sys) go') (map some fs'))
          (sequential_from-Same sys d go go' 0 fs fs' h)

    wrap_node-SamePart :
        (g : ExecutionGroup (Step sys)) (g' : NodeGroup (Step (with_events sys)))
        → SameGroup g g'
        → SamePart ((tree_builder sys go).wrap g) ((telemetry_builder sys go' now).wrap g')
    wrap_node-SamePart g g' h =
        subst
          (λ p. SamePart (wrap_group sys go g) (
            instrumented sys go' now g'.name (
              wrap_group (with_events sys) go'
                (record { is_parallel = p; fluncs = g'.group.fluncs }))))
          h.0 (kind-SamePart g'.name g.is_parallel g.fluncs g'.group.fluncs h.1)

    -- The builders make parts that do the same.
    pub builders-Related :
        (uuid : ℕ → String)
        → Related SamePart SamePart SameGroup
            (tree_builder sys go)
            (naming_builder uuid (telemetry_builder sys go' now))
    builders-Related uuid = record {
      whole = λ t t' h. h;
      nil = tt;
      append = append_node-SameGroup;
      wrap = wrap_node-SamePart;
      sequential = λ st. (refl, tt);
      parallel = λ st. (refl, tt);
      job = λ name st. (refl, tt);
      output = λ o st.
          always-SamePart _ (output_step sys o) (output_step (with_events sys) o)
            (output_step-Same sys d o);
      job_logger = λ name st.
          always-SamePart _ (logger_step sys name none) (logger_step (with_events sys) name none)
            (logger_step-Same sys d name none);
      host_logger = λ name h st.
          always-SamePart _ (logger_step sys name (some h))
            (logger_step (with_events sys) name (some h)) (logger_step-Same sys d name (some h));
      timeout = λ t st.
          instrumented-SamePart _ (timeout_step sys t) (timeout_step (with_events sys) t)
            (timeout_step-SameLogged sys d t);
      scp = λ s st.
          instrumented-SamePart _ (scp_step sys s) (scp_step (with_events sys) s)
            (scp_step-SameLogged sys d s);
      hosts = λ st. (refl, tt);
      host = λ c h st. (refl, tt);
      error_safeguard = λ t t' st r.
          around-SamePart _ (error_safeguard (tree_contexts sys go))
            (error_safeguard (tree_contexts (with_events sys) go')) t t'
            (error_safeguard-SameLogged sys d go go') r;
      context_bounds = λ t t' st r.
          around-SamePart _ (context_bounds (tree_contexts sys go))
            (context_bounds (tree_contexts (with_events sys) go')) t t'
            (context_bounds-SameLogged sys d go go') r;
      retry = λ t t' n st r.
          around-SamePart _ (λ f. retry (tree_contexts sys go) f n)
            (λ f. retry (tree_contexts (with_events sys) go') f n) t t'
            (retry-SameLogged sys d go go' n) r;
      templating = λ c h st.
          always-SamePart _ (templating_step sys c h) (templating_step (with_events sys) c h)
            (templating_step-Same sys d c h);
      ssh_client = λ addr port user key password interactive st.
          instrumented-SamePart _ (ssh_client_step sys addr port user key password interactive)
            (ssh_client_step (with_events sys) addr port user key password interactive)
            (ssh_client_step-SameLogged sys d addr port user key password interactive);
      forwarding = λ f st.
          instrumented-SamePart _ (forwarding_step sys f) (forwarding_step (with_events sys) f)
            (forwarding_step-SameLogged sys d f);
      tunnel = λ f st.
          instrumented-SamePart _ (tunnel_step sys f) (tunnel_step (with_events sys) f)
            (tunnel_step-SameLogged sys d f);
      commands = λ c st. (refl, tt);
      command = λ c st.
          instrumented-SamePart _ (command_step sys c) (command_step (with_events sys) c)
            (command_step-SameLogged sys d c);
      local_command = λ c st.
          instrumented-SamePart _ (local_command_step sys c)
            (local_command_step (with_events sys) c) (local_command_step-SameLogged sys d c);
      stdout = λ o st.
          instrumented-SamePart _ (stdout_step sys o) (stdout_step (with_events sys) o)
            (stdout_step-SameLogged sys d o);
      stderr = λ o st.
          instrumented-SamePart _ (stderr_step sys o) (stderr_step (with_events sys) o)
            (stderr_step-SameLogged sys d o);
    }

    -- For goroutines that are run in the same order with and without events and a clock that is read
    -- without an effect, and for any configuration: the visitor with the named builder of telemetry
    -- refuses it with the error with which it refuses it for the plain builder, follows a nil pointer
    -- when it does so there, and otherwise what it builds does, run in any context and world with any
    -- events, what the plain tree does in the world without the events and in the context with the
    -- logger that is behind those of telemetry, or with any logger when there is none: the same world
    -- and the same outcome, up to the logger in the context that it passes on.
    pub visit_config_telemetry :
        (uuid : ℕ → String) (parse_duration : String → Option D)
        (read_hosts : List HostsFile → Option (List Host)) (c : Config) (counter : ℕ)
        → Agree SamePart (Pure.visit_config parse_duration read_hosts (tree_builder sys go) c) (
            Stateful.visit_config parse_duration read_hosts
              (naming_builder uuid (telemetry_builder sys go' now))
              c
              (counter, tt))
    visit_config_telemetry uuid parse_duration read_hosts c counter =
        visit_config-Agree SamePart SamePart SameGroup _ _ (builders-Related uuid) parse_duration
          read_hosts c (counter, tt)
