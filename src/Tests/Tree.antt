-- ===== src/Tests/Tree.antt =====
-- The execution tree of a job that runs "ls" on a host, in a world that counts what is done.
use x_cuter.Common.{ℕ, suc, ◌≡◌, refl, Bool, true, false, Option, none, some, List, [], String}
use x_cuter.Flunc.Parallel.{Goroutines}
use x_cuter.Flunc.{passed, sequential_from, error_safeguard, context_bounds}
use x_cuter.Job.Tree.Builder.{
  ExecutionGroup, append_flunc, sequential_group, tree_builder, wrap_group,
}
use x_cuter.Job.Tree.Keys.{Ready, Post}
use x_cuter.Logging.{plain}
use x_cuter.Job.Tree.Meets.Hosts.{visit_host_meets}
use x_cuter.Job.Tree.Meets.Job.{visit_config_meets}
use x_cuter.Job.Tree.{
  System, Context, TreeError, Step, command_step, templating_step, output_step, logger_step,
  ssh_client_step, interpolated,
}
use x_cuter.Tests.Goroutines.{one_after_other}
use x_cuter.Job.Visit.{
  Visited, built, refused, nil_pointer, visit_config, check_hosts, host_part, visit_host, is_remote,
  add_hosts, add_local, add_timeout, visit_command, finish_command,
}
use x_cuter.Job.{Host, HostsFile, absent, command, no_more, Config}

-- The world counts the effects; a connection, a writer and a duration are numbers.
abbrev pub system : System ℕ Bool ℕ ℕ ℕ
system = record {
  done = λ k s. none;
  with_cancel = λ k s. (s, k);
  with_timeout = λ k d s. (s, k);
  cancel = λ k s. s;
  os_stdout = 1;
  os_stderr = 2;
  discard = 0;
  open_file = λ name truncate s. (suc s, some 3);
  banner = λ w s. s;
  close_when_done = λ k w s. s;
  interpolate = λ c h text s. some text;
  read_file = λ name s. none;
  serve_scp = λ k b addr port verbose s. s;
  dial = λ k addr port user key password interactive s. (suc s, some 7);
  forward_remote = λ c k f s. s;
  forward_local = λ c k f s. s;
  run_remote = λ c k line out err s. (suc s, true);
  shell_words = λ line. none;
  run_local = λ k exe args out err s. (s, true);
}

abbrev pub goroutines : Goroutines ℕ TreeError
goroutines = one_after_other

abbrev pub list_files : Config
list_files = record {
  name = "files";
  schedule = "once";
  timeout = "";
  telemetry = false;
  output = none;
  host = some (record {
    name = "web";
    addr = "10.0.0.1";
    port = 22;
    user = "root";
    private_key = "";
    password = "";
    keyboard_interactive = [];
    tags = [];
  });
  hosts_file = none;
  pre = absent;
  command =
      command
        (record {
          name = "list";
          command = "ls";
          flow = "sequential";
          target = "";
          retries = 0;
          timeout = "";
          ignore_error = false;
          stdout = none;
          stderr = none;
        })
        no_more;
  post = absent;
  forwarding = none;
  tunnel = none;
  scp = none;
}

abbrev pub no_durations : String → Option ℕ
no_durations s = none

abbrev pub no_hosts : List HostsFile → Option (List Host)
no_hosts files = none

tree_of : Visited (Option (Step system)) → Step system
tree_of (built (some f)) = f
tree_of (built none) = λ ctx s. (s, passed none)
tree_of (refused e) = λ ctx s. (s, passed none)
tree_of nil_pointer = λ ctx s. (s, passed none)

tree : Step system
unfolding tree_of visit_config
tree = tree_of (visit_config no_durations no_hosts (tree_builder system goroutines) list_files)

tree-built :
    visit_config no_durations no_hosts (tree_builder system goroutines) list_files
    ≡ built (some tree)
unfolding tree check_hosts add_timeout add_local visit_command add_hosts host_part visit_host
    is_remote
tree-built = refl

abbrev pub nothing_set : Context Bool ℕ ℕ
nothing_set = record {
  token = false;
  output = none;
  logger = none;
  ssh_client = none;
  templating = none;
  stdout = none;
  stderr = none;
}

visit_config_meets_example : Post system (Ready false) nothing_set (tree nothing_set 0).1
visit_config_meets_example =
    visit_config_meets system goroutines no_durations no_hosts list_files tree nothing_set 0
      tree-built

-- The connection and the command are the two effects.
two_effects : (tree nothing_set 0).0 ≡ 2
unfolding tree check_hosts add_timeout add_local visit_command add_hosts host_part visit_host
    is_remote finish_command sequential_from templating_step output_step logger_step error_safeguard
    context_bounds ssh_client_step command_step interpolated
two_effects = refl

group_of : Visited (ExecutionGroup (Step system)) → ExecutionGroup (Step system)
group_of (built g) = g
group_of (refused e) = sequential_group system goroutines
group_of nil_pointer = sequential_group system goroutines

abbrev web : Host
web = record {
  name = "web";
  addr = "10.0.0.1";
  port = 22;
  user = "root";
  private_key = "";
  password = "";
  keyboard_interactive = [];
  tags = [];
}

host_group : ExecutionGroup (Step system)
unfolding group_of
host_group = group_of (visit_host no_durations (tree_builder system goroutines) list_files web)

host_command : Step system
unfolding tree_of visit_command
host_command =
    tree_of (visit_command no_durations (tree_builder system goroutines) list_files.command)

host_run : Step system
unfolding tree_of
host_run = tree_of (
    built (
      wrap_group system goroutines (append_flunc system goroutines host_group (some host_command))))

-- The context behind the loggers of the job.
abbrev job_context : Context Bool ℕ ℕ
job_context = record nothing_set {
  output = some 1;
  logger = some (plain (record { writer = 1; job_name = "files"; host = none }));
  templating = some (record { config = list_files; host = none });
}

visit_host_meets_example : Post system (Ready false) job_context (host_run job_context 0).1
unfolding host_group host_command host_run visit_host is_remote visit_command add_timeout
    finish_command
visit_host_meets_example =
    visit_host_meets system goroutines no_durations list_files web host_group (some host_command)
      host_run job_context 0 refl refl refl
      (record { output = tt; logger = tt; templating = tt; client_ready = tt })

-- It makes a connection and runs the command.
host_two_effects : (host_run job_context 0).0 ≡ 2
unfolding host_run host_group host_command visit_host is_remote visit_command add_timeout
    finish_command sequential_from templating_step logger_step context_bounds ssh_client_step
    command_step interpolated
host_two_effects = refl
