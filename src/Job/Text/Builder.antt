-- ===== src/Job/Text/Builder.antt =====
-- The builder that makes the text of an execution tree (job/string.go). A call that panics gives
-- `panicked`, and so does what is made of that.
use Prim.Native.String.{◌++◌ as str_append}
use text.Mathlib.Text.{◌==◌ as str_eq}
use x_cuter.Common.{ℕ, Bool, true, false, Option, none, some, List, if◌then◌else◌, String}
use x_cuter.Job.Text.{
  TextEngine, string_of, Stringer, leaf, branch, SimpleBranch, simple_branch, Stringers, no_more,
  more,
}
use x_cuter.Job.Visit.{Builder, Visited, built, ◌and_then◌, visit_config}
use x_cuter.Job.{Output, Host, HostsFile, Command, absent, command, Config, HostsFile}

pub data Panics (A : Type 0) : Type 0 where
  panicked : Panics A
  fine : A → Panics A

-- A part is nil or a Stringer; a group is a SimpleBranch or a partHost.
abbrev pub TextPart : Type 0
TextPart = Panics (Option Stringer)

abbrev pub TextGroup : Type 0
TextGroup = Panics (Option Host × SimpleBranch)

pub record StringBuilder : Type 0 where
  pub full : Bool
  pub raw : Bool
  pub max_hosts : ℕ
  pub max_commands : ℕ

abbrev pub add_last : Stringers → Stringer → Stringers
add_last no_more t = more t no_more
add_last (more u us) t = more u (add_last us t)

abbrev pub add_leaf : SimpleBranch → Stringer → SimpleBranch
add_leaf (simple_branch root leafs max raw) t = simple_branch root (add_last leafs t) max raw

-- `SimpleBranch.Append`: nil is skipped.
abbrev pub append_text : TextGroup → TextPart → TextGroup
append_text (fine g) (fine none) = fine g
append_text (fine (h, b)) (fine (some t)) = fine (h, add_leaf b t)
append_text (fine g) panicked = panicked
append_text panicked t = panicked

-- `Wrap` of a SimpleBranch and of a partHost
abbrev pub wrap_text : TextGroup → TextPart
wrap_text (fine (h, b)) = fine (some (branch h b))
wrap_text panicked = panicked

abbrev pub new_branch : String → ℕ → Bool → TextGroup
new_branch root max raw = fine (none, simple_branch root no_more max raw)

abbrev pub new_leaf : String → TextPart
new_leaf s = fine (some (leaf s))

-- A branch with the child alone; a child that is nil is no Stringer.
abbrev pub only_child : String → Stringer → Stringer
only_child root t = branch none (simple_branch root (more t no_more) 0 false)

abbrev pub around_text : (Stringer → Stringer) → TextPart → TextPart
around_text wrap (fine (some t)) = fine (some (wrap t))
around_text wrap (fine none) = panicked
around_text wrap panicked = panicked

-- `%t`
abbrev pub bool_text : Bool → String
bool_text true = "true"
bool_text false = "false"

infixr 40 ◌<>◌
abbrev pub ◌<>◌ : String → String → String
s <> t = str_append s t

-- `Output.String` of job/config.go
abbrev pub output_string : Output → String
output_string o = o.file <> ", Raw: " <> bool_text o.raw <> ", Overwrite: " <> bool_text o.overwrite

-- `h.Name`, or the address.
abbrev pub host_name : Host → String
host_name h = if str_eq h.name "" then h.addr else h.name

-- `cmd.Command`; the builder's methods are not called on nil.
abbrev pub command_line : Command → String
command_line absent = ""
command_line (command s cs) = s.command

-- What `Stdout` and `Stderr` say, with the name of the stream.
abbrev pub redirected : String → Output → String
redirected stream o =
    if str_eq o.file "null"
    then "Discard any output from " <> stream
    else "Redirect " <> stream <> " to " <> output_string o

-- `decimal`, `quoted` and `duration` are `%d`, `%q` and the text of a duration, of package fmt.
module _ {D : Type 0} (decimal : ℕ → String) (quoted : String → String)
    (duration : D → String) where
  abbrev pub address : String → ℕ → String
  address host port = host <> ":" <> decimal port

  abbrev pub executed : String → String → String
  executed line where_to =
      if str_eq line "" then "!!! ERROR !!!" else "Execute " <> quoted line <> where_to

  abbrev pub string_builder : StringBuilder → Builder TextPart TextGroup D
  string_builder s = record {
    nil = fine none;
    append = append_text;
    wrap = wrap_text;
    sequential = new_branch "Sequential" 0 false;
    parallel = new_branch "Parallel" 0 false;
    job = λ name. new_branch name 0 s.raw;
    output =
        λ o. elim o [ none ↦ fine none | some out ↦ new_leaf ("Output: " <> output_string out) ];
    job_logger = λ name. if s.full then new_leaf "Create job logger" else fine none;
    host_logger = λ name h. if s.full then new_leaf "Create host logger" else fine none;
    timeout = λ d. new_leaf ("Timeout: " <> duration d);
    scp = λ scp. new_leaf ("SCP listen on " <> address scp.addr scp.port);
    hosts = new_branch "Target hosts" s.max_hosts false;
    host = λ c h. fine (some h, simple_branch ("Host " <> host_name h) no_more 0 false);
    error_safeguard = around_text (λ t. if s.full then only_child "Error safeguard" t else t);
    context_bounds = around_text (λ t. if s.full then only_child "Context Bounds" t else t);
    retry = λ t n. around_text (only_child ("Retry up to " <> decimal n <> " times")) t;
    templating = λ c h. if s.full then new_leaf "Create templating engine" else fine none;
    ssh_client = λ addr port user key password interactive.
        new_leaf ("Open SSH connection to " <> user <> "@" <> address addr port);
    forwarding = λ f. new_leaf (
        "Forward "
        <> address f.remote_host f.remote_port
        <> " to "
        <> address f.local_host f.local_port);
    tunnel = λ f. new_leaf (
        "Tunnel "
        <> address f.local_host f.local_port
        <> " to "
        <> address f.remote_host f.remote_port);
    commands = λ cmd. new_branch "Command" s.max_commands false;
    command = λ cmd. new_leaf (executed (command_line cmd) "");
    local_command = λ cmd. new_leaf (executed (command_line cmd) " locally");
    stdout = λ o. new_leaf (redirected "STDOUT" o);
    stderr = λ o. new_leaf (redirected "STDERR" o);
  }

  -- `f.(Stringer).String`
  abbrev pub printed :
      (Config → Option Host → String → Option String) → Option TextEngine → TextPart → Panics String
  printed interpolate v (fine (some t)) = fine (string_of interpolate decimal v t)
  printed interpolate v (fine none) = panicked
  printed interpolate v panicked = panicked

  -- `Config.Tree` of job/config.go
  unfoldable pub config_tree :
      (Config → Option Host → String → Option String)
      → (String → Option D)
      → (List HostsFile → Option (List Host))
      → StringBuilder
      → Config
      → Visited (Panics String)
  unfolding visit_config string_of
  config_tree interpolate parse_duration read_hosts s c =
      visit_config parse_duration read_hosts (string_builder s) c
      and_then (λ f. built (printed interpolate (some (record { config = c; host = none })) f))
