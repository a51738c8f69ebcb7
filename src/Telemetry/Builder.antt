-- ===== src/Telemetry/Builder.antt =====
-- The builder that instruments the execution tree (telemetry/builder.go), over the operations of the
-- ExecutionTreeBuilder, in a world with the events. What the operations print, which the loggers of
-- telemetry store as messages, is left out with all that is printed.
use x_cuter.Common.{ℕ, Option, none, some, List, String}
use x_cuter.Flunc.Parallel.{Goroutines}
use x_cuter.Job.Tree.Builder.{ExecutionGroup, append_flunc, wrap_group, tree_builder}
use x_cuter.Job.Tree.{System, Context, TreeError, Step, Logger}
use x_cuter.Logging.{origin_opt}
use x_cuter.Telemetry.Naming.{NamedBuilder}
use x_cuter.Telemetry.{Event, Loggers, instrument}

-- The operations of a world, in the world with the events.
abbrev pub with_events : {S K W C D : Type 0} → System S K W C D → System (S × List Event) K W C D
with_events sys = record {
  done = λ k s. sys.done k s.0;
  with_cancel = λ k s. let (t, k') = sys.with_cancel k s.0 in ((t, s.1), k');
  with_timeout = λ k d s. let (t, k') = sys.with_timeout k d s.0 in ((t, s.1), k');
  cancel = λ k s. (sys.cancel k s.0, s.1);
  os_stdout = sys.os_stdout;
  os_stderr = sys.os_stderr;
  discard = sys.discard;
  open_file = λ name truncate s. let (t, w) = sys.open_file name truncate s.0 in ((t, s.1), w);
  banner = λ w s. (sys.banner w s.0, s.1);
  close_when_done = λ k w s. (sys.close_when_done k w s.0, s.1);
  interpolate = λ c h text s. sys.interpolate c h text s.0;
  read_file = λ name s. sys.read_file name s.0;
  serve_scp = λ k b addr port verbose s. (sys.serve_scp k b addr port verbose s.0, s.1);
  dial = λ k addr port user key password interactive s.
      let (t, c) = sys.dial k addr port user key password interactive s.0 in ((t, s.1), c);
  forward_remote = λ c k f s. (sys.forward_remote c k f s.0, s.1);
  forward_local = λ c k f s. (sys.forward_local c k f s.0, s.1);
  run_remote =
      λ c k line out err s. let (t, ok) = sys.run_remote c k line out err s.0 in ((t, s.1), ok);
  shell_words = sys.shell_words;
  run_local =
      λ k exe args out err s. let (t, ok) = sys.run_local k exe args out err s.0 in ((t, s.1), ok);
}

-- The logger of a context of the execution tree.
abbrev pub tree_loggers : {K W C : Type 0} → Loggers (Context K W C) (Logger W)
tree_loggers = record {
  get_logger = λ ctx. origin_opt ctx.logger;
  put_logger = λ l ctx. record ctx { logger = some l };
}

-- A `nodeGroup`
pub record NodeGroup (F : Type 0) : Type 0 where
  pub name : String
  pub group : ExecutionGroup F

module _ {S K W C D : Type 0} (sys : System S K W C D) (go : Goroutines (S × List Event) TreeError)
    (now : S → S × ℕ) where
  abbrev pub exec : System (S × List Event) K W C D
  exec = with_events sys

  -- `instrument` of a Flunc of the execution tree; no operation of the builder is nil.
  abbrev pub instrumented : String → Option (Step exec) → Option (Step exec)
  instrumented name none = none
  instrumented name (some f) = some (instrument now tree_loggers name f)

  abbrev pub append_node : NodeGroup (Step exec) → Option (Step exec) → NodeGroup (Step exec)
  append_node g t = record g { group = append_flunc exec go g.group t }

  abbrev pub wrap_node : NodeGroup (Step exec) → Option (Step exec)
  wrap_node g = instrumented g.name (wrap_group exec go g.group)

  -- A node that `make` names, whatever the state, which is none.
  abbrev pub part_node : String → Option (Step exec) → Unit {0} → Unit {0} × Option (Step exec)
  part_node name t st = (st, instrumented name t)

  abbrev pub group_node :
      String → ExecutionGroup (Step exec) → Unit {0} → Unit {0} × NodeGroup (Step exec)
  group_node name g st = (st, record { name = name; group = g })

  abbrev pub telemetry_builder :
      NamedBuilder (Unit {0}) (Option (Step exec)) (NodeGroup (Step exec)) D
  telemetry_builder =
      let b = tree_builder exec go in
      record {
        nil = none;
        append = append_node;
        wrap = wrap_node;
        sequential = λ node. group_node node b.sequential;
        parallel = λ node. group_node node b.parallel;
        job = λ node name. group_node node (b.job name);
        output = λ node o. part_node node (b.output o);
        job_logger = λ node job_name. part_node node (b.job_logger job_name);
        host_logger = λ node job_name h. part_node node (b.host_logger job_name h);
        timeout = λ node d. part_node node (b.timeout d);
        scp = λ node s. part_node node (b.scp s);
        hosts = λ node. group_node node b.hosts;
        host = λ node c h. group_node node (b.host c h);
        error_safeguard = λ node t. part_node node (b.error_safeguard t);
        context_bounds = λ node t. part_node node (b.context_bounds t);
        retry = λ node t n. part_node node (b.retry t n);
        templating = λ node c h. part_node node (b.templating c h);
        ssh_client = λ node addr port user key password interactive.
            part_node node (b.ssh_client addr port user key password interactive);
        forwarding = λ node f. part_node node (b.forwarding f);
        tunnel = λ node f. part_node node (b.tunnel f);
        commands = λ node c. group_node node (b.commands c);
        command = λ node c. part_node node (b.command c);
        local_command = λ node c. part_node node (b.local_command c);
        stdout = λ node o. part_node node (b.stdout o);
        stderr = λ node o. part_node node (b.stderr o);
      }
