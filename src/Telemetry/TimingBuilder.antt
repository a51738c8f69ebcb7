-- ===== src/Telemetry/TimingBuilder.antt =====
-- The builder of the nodes of a timing (telemetry/timing.go): it makes nothing, and keeps a node for
-- each host.
use x_cuter.Common.{ℕ, Option, none, List, [], String, pos}
use x_cuter.Job.Visit.Stateful.{visit_config}
use x_cuter.Job.Visit.{Visited, built, ◌and_then◌}
use x_cuter.Job.{Host, HostsFile, Config}
use x_cuter.Telemetry.Naming.{NamedBuilder, naming_builder}
use x_cuter.Telemetry.{Timing, store_node}

-- A `noopGroup`, and nil.
abbrev pub no_group : {B : Type 0} → B → B × Unit {0}
no_group st = (st, tt)

abbrev pub no_part : {B : Type 0} → B → B × Unit {0}
no_part st = (st, tt)

abbrev pub timing_builder : {D : Type 0} → NamedBuilder Timing (Unit {0}) (Unit {0}) D
timing_builder = record {
  nil = tt;
  append = λ g t. tt;
  wrap = λ g. tt;
  sequential = λ node. no_group;
  parallel = λ node. no_group;
  job = λ node name. no_group;
  output = λ node o. no_part;
  job_logger = λ node job_name. no_part;
  host_logger = λ node job_name h. no_part;
  timeout = λ node d. no_part;
  scp = λ node s. no_part;
  hosts = λ node. no_group;
  host = λ node c h st. (store_node node h st, tt);
  error_safeguard = λ node t. no_part;
  context_bounds = λ node t. no_part;
  retry = λ node t n. no_part;
  templating = λ node c h. no_part;
  ssh_client = λ node addr port user key password interactive. no_part;
  forwarding = λ node f. no_part;
  tunnel = λ node f. no_part;
  commands = λ node c. no_group;
  command = λ node c. no_part;
  local_command = λ node c. no_part;
  stdout = λ node o. no_part;
  stderr = λ node o. no_part;
}

abbrev pub empty_timing : Timing
empty_timing = record { job_start = none; nodes = []; job_runtime = pos 0; hosts = [] }

-- `NewTiming`
unfoldable pub new_timing :
    {D : Type 0}
    → (ℕ → String)
    → (String → Option D)
    → (List HostsFile → Option (List Host))
    → Config
    → Visited Timing
unfolding visit_config
new_timing uuid parse_duration read_hosts c =
    visit_config parse_duration read_hosts (naming_builder uuid timing_builder) c (0, empty_timing)
    and_then (λ tree. built tree.0.1)
