-- ===== src/Tests/Steps.antt =====
-- Fluncs that count their calls, and a configuration with one command.
use x_cuter.Common.{
  ℕ, suc, ◌≡◌, refl, true, false, Option, none, some, List, [], ◌∷◌, ◌++◌, String, ◌⊎◌, ◌+◌,
}
use x_cuter.Flunc.Order.{sequential_from-error_safeguard, Succeeds, GivesUp, retry-cases}
use x_cuter.Flunc.{
  passed, failed, Flunc, Contexts, sequential_from, error_safeguard, context_bounds, retry,
}
use x_cuter.Job.Visit.Absent.{visit_config_absent}
use x_cuter.Job.Visit.Local.{rebuilt, visit_command-local_command}
use x_cuter.Job.Visit.{
  Builder, built, refused, nil_pointer, no_config_command, ◌and_then◌, local_command, visit_command,
  visit_config, visit_host, check_hosts, add_timeout, finish_command,
}
use x_cuter.Job.{Host, Settings, absent, command, no_more, Config}

-- The world counts the calls, and an error is the number of a child.
abbrev counting : Contexts ℕ ℕ ℕ
counting = record {
  done = λ ctx s. none;
  with_cancel = λ ctx s. (s, ctx);
  cancel = λ ctx s. s;
  wrap_child = λ i e. i;
  has_logger = λ ctx. true;
  log_error = λ ctx e s. s;
  no_logger = 99;
}

abbrev works : Flunc ℕ ℕ ℕ
works ctx s = (suc s, passed (some (ctx + 1)))

abbrev breaks : Flunc ℕ ℕ ℕ
breaks ctx s = (suc s, failed 5)

retry-cases_example :
    Succeeds counting breaks 3 (passed none) 1 0 (retry counting breaks 3 1 0)
    ⊎ GivesUp counting breaks 3 (passed none) 1 0 (retry counting breaks 3 1 0)
retry-cases_example = retry-cases counting breaks 3 1 0 refl

-- A builder that lists the steps.
abbrev listing : Builder (List String) (List String) ℕ
listing = record {
  nil = [];
  append = λ g t. g ++ t;
  wrap = λ g. g;
  sequential = "sequential" ∷ [];
  parallel = "parallel" ∷ [];
  job = λ n. "job" ∷ [];
  output = λ o. "output" ∷ [];
  job_logger = λ n. "logger" ∷ [];
  host_logger = λ n h. "logger" ∷ [];
  timeout = λ d. "timeout" ∷ [];
  scp = λ s. "scp" ∷ [];
  hosts = "hosts" ∷ [];
  host = λ c h. "host" ∷ [];
  error_safeguard = λ t. t;
  context_bounds = λ t. t;
  retry = λ t n. "retry" ∷ t;
  templating = λ c h. "templating" ∷ [];
  ssh_client = λ a p u k w i. "ssh" ∷ [];
  forwarding = λ f. "forwarding" ∷ [];
  tunnel = λ f. "tunnel" ∷ [];
  commands = λ c. [];
  command = λ c. "remote" ∷ [];
  local_command = λ c. "local" ∷ [];
  stdout = λ o. "stdout" ∷ [];
  stderr = λ o. "stderr" ∷ [];
}

abbrev settings : Settings
settings = record {
  name = "list";
  command = "ls";
  flow = "";
  target = "remote";
  retries = 3;
  timeout = "5s";
  ignore_error = false;
  stdout = none;
  stderr = none;
}

abbrev durations : String → Option ℕ
durations s = some 5

-- The same command as the job gives it, and made local.
remote_steps :
    visit_command durations listing (command settings no_more)
    ≡ built ("retry" ∷ "timeout" ∷ "remote" ∷ [])
unfolding visit_command add_timeout finish_command
remote_steps = refl

local_steps :
    (local_command (command settings no_more) and_then visit_command durations listing)
    ≡ built ("retry" ∷ "local" ∷ [])
unfolding local_command visit_command add_timeout finish_command
local_steps = refl

visit_command-local_command_example :
    (local_command (command settings no_more) and_then visit_command durations listing) ≡ (
      local_command (command settings no_more)
      and_then visit_command durations (rebuilt durations listing (λ c. []) (λ d. [])))
visit_command-local_command_example =
    visit_command-local_command durations listing (λ c. []) (λ d. []) (command settings no_more)

abbrev server : Host
server = record {
  name = "web";
  addr = "10.0.0.1";
  port = 22;
  user = "root";
  private_key = "";
  password = "";
  keyboard_interactive = [];
  tags = [];
}

abbrev no_command_config : Config
no_command_config = record {
  name = "empty";
  schedule = "once";
  timeout = "";
  telemetry = false;
  output = none;
  host = some server;
  hosts_file = none;
  pre = absent;
  command = absent;
  post = absent;
  forwarding = none;
  tunnel = none;
  scp = none;
}

no_command-check_hosts : check_hosts no_command_config ≡ none
unfolding check_hosts
no_command-check_hosts = refl

visit_config_absent_example :
    (visit_config durations (λ files. none) listing no_command_config ≡ nil_pointer)
    × (visit_host durations listing no_command_config server ≡ refused no_config_command)
visit_config_absent_example =
    visit_config_absent durations listing (λ files. none) no_command_config server
      no_command-check_hosts refl refl refl

sequential_from-error_safeguard_example :
    let child = error_safeguard counting (context_bounds counting breaks) in
    sequential_from counting 0 (some child ∷ some works ∷ []) 3 0
    ≡ sequential_from counting 1 (some works ∷ []) 3 (child 3 0).0
sequential_from-error_safeguard_example =
    sequential_from-error_safeguard counting 0 breaks (some works ∷ []) 3 0 refl refl
