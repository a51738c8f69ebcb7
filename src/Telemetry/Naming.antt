-- ===== src/Telemetry/Naming.antt =====
-- The names of nodes (telemetry/naming.go): a builder that gives each node that another builder makes
-- a name, with a counter.
use Prim.Native.String.{◌++◌ as str_append}
use x_cuter.Common.{ℕ, ◌+◌, ◌%◌, ◌^◌, Option, List, String}
use x_cuter.Job.Visit.Stateful.{StatefulBuilder}
use x_cuter.Job.{Output, Host, Forwarding, ScpData, Command, Config}

-- A `NamedConfigBuilder` with its state `B`: each operation gets the name of the node first.
pub record NamedBuilder (B T G D : Type 0) : Type 0 where
  pub nil : T
  pub append : G → T → G
  pub wrap : G → T
  pub sequential : String → B → B × G
  pub parallel : String → B → B × G
  pub job : String → String → B → B × G
  pub output : String → Option Output → B → B × T
  pub job_logger : String → String → B → B × T
  pub host_logger : String → String → Host → B → B × T
  pub timeout : String → D → B → B × T
  pub scp : String → ScpData → B → B × T
  pub hosts : String → B → B × G
  pub host : String → Config → Host → B → B × G
  pub error_safeguard : String → T → B → B × T
  pub context_bounds : String → T → B → B × T
  pub retry : String → T → ℕ → B → B × T
  pub templating : String → Config → Option Host → B → B × T
  pub ssh_client :
      String → String → ℕ → String → String → String → List (String × String) → B → B × T
  pub forwarding : String → Forwarding → B → B × T
  pub tunnel : String → Forwarding → B → B × T
  pub commands : String → Command → B → B × G
  pub command : String → Command → B → B × T
  pub local_command : String → Command → B → B × T
  pub stdout : String → Output → B → B × T
  pub stderr : String → Output → B → B × T

-- `nextName` and what it is called for: the counter is a uint64, `uuid` is `uuid.NewV5` on it.
abbrev pub with_name :
    {B A : Type 0} → (ℕ → String) → String → (String → B → B × A) → ℕ × B → (ℕ × B) × A
with_name uuid kind make (i, st) =
    let n = (i + 1) % 2 ^ 64 in let (st', a) = make (str_append kind (uuid n)) st in ((n, st'), a)

module _ {B T G D : Type 0} (uuid : ℕ → String) where
  abbrev pub naming_builder : NamedBuilder B T G D → StatefulBuilder (ℕ × B) T G D
  naming_builder b = record {
    nil = b.nil;
    append = b.append;
    wrap = b.wrap;
    sequential = with_name uuid "Sequential" (b.sequential);
    parallel = with_name uuid "Parallel" (b.parallel);
    job = λ name. with_name uuid "Job" (λ node. b.job node name);
    output = λ o. with_name uuid "Output" (λ node. b.output node o);
    job_logger = λ job_name. with_name uuid "Sequential" (λ node. b.job_logger node job_name);
    host_logger = λ job_name h. with_name uuid "HostLogger" (λ node. b.host_logger node job_name h);
    timeout = λ d. with_name uuid "Timeout" (λ node. b.timeout node d);
    scp = λ s. with_name uuid "SCP" (λ node. b.scp node s);
    hosts = with_name uuid "Hosts" (b.hosts);
    host = λ c h. with_name uuid "Host" (λ node. b.host node c h);
    error_safeguard = λ t. with_name uuid "ErrorSafeguard" (λ node. b.error_safeguard node t);
    context_bounds = λ t. with_name uuid "ContextBounds" (λ node. b.context_bounds node t);
    retry = λ t n. with_name uuid "Retry" (λ node. b.retry node t n);
    templating = λ c h. with_name uuid "Templating" (λ node. b.templating node c h);
    ssh_client = λ addr port user key password interactive.
        with_name uuid "SSHClient"
          (λ node. b.ssh_client node addr port user key password interactive);
    forwarding = λ f. with_name uuid "Forwarding" (λ node. b.forwarding node f);
    tunnel = λ f. with_name uuid "Tunnel" (λ node. b.tunnel node f);
    commands = λ c. with_name uuid "Commands" (λ node. b.commands node c);
    command = λ c. with_name uuid "Command" (λ node. b.command node c);
    local_command = λ c. with_name uuid "LocalCommand" (λ node. b.local_command node c);
    stdout = λ o. with_name uuid "Stdout" (λ node. b.stdout node o);
    stderr = λ o. with_name uuid "Stderr" (λ node. b.stderr node o);
  }
