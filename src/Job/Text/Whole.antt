-- ===== src/Job/Text/Whole.antt =====
-- The visitor makes a tree with the builder of texts, for every configuration, and no call panics.
use x_cuter.Common.{ℕ, Bool, true, false, Option, none, some, List, String, if◌then◌else◌}
use x_cuter.Job.Text.Builder.{
  printed, config_tree, Panics, panicked, fine, TextPart, TextGroup, StringBuilder, append_text,
  wrap_text, around_text, new_leaf, output_string, string_builder, ◌<>◌,
}
use x_cuter.Job.Text.{TextEngine, Stringer}
use x_cuter.Job.Visit.Holds.{Holds, Holds-and_then}
use x_cuter.Job.Visit.Stateful.Agree.{Agree, Related}
use x_cuter.Job.Visit.Stateful.OfJob.{visit_config-Agree}
use x_cuter.Job.Visit.{Visited, built, refused, nil_pointer, visit_config}
use x_cuter.Job.{Output, Host, HostsFile, Config}
use x_cuter.Telemetry.Naming.{naming_builder}
use x_cuter.Telemetry.TimingBuilder.{empty_timing, timing_builder}

abbrev pub IsFine : {A : Type 0} → Panics A → Type 0
IsFine panicked = ⊥
IsFine (fine a) = Unit

-- A part that is there, neither a panic nor nil.
abbrev pub IsStringer : TextPart → Type 0
IsStringer panicked = ⊥
IsStringer (fine none) = ⊥
IsStringer (fine (some t)) = Unit

IsStringer-IsFine : (t : TextPart) → IsStringer t → IsFine t
IsStringer-IsFine panicked h = h
IsStringer-IsFine (fine none) h = tt
IsStringer-IsFine (fine (some t)) h = tt

append_text-IsFine : (g : TextGroup) (t : TextPart) → IsFine g → IsFine t → IsFine (append_text g t)
append_text-IsFine panicked t h k = elim h [ ]
append_text-IsFine (fine g) panicked h k = elim k [ ]
append_text-IsFine (fine g) (fine none) h k = tt
append_text-IsFine (fine (host, b)) (fine (some t)) h k = tt

wrap_text-IsStringer : (g : TextGroup) → IsFine g → IsStringer (wrap_text g)
wrap_text-IsStringer panicked h = elim h [ ]
wrap_text-IsStringer (fine (host, b)) h = tt

around_text-IsStringer :
    (wrap : Stringer → Stringer) (t : TextPart) → IsStringer t → IsStringer (around_text wrap t)
around_text-IsStringer wrap panicked h = elim h [ ]
around_text-IsStringer wrap (fine none) h = elim h [ ]
around_text-IsStringer wrap (fine (some t)) h = tt

-- What is only made if the tree is to be full.
full-IsFine : (full : Bool) (s : String) → IsFine (if full then new_leaf s else fine none)
full-IsFine true s = tt
full-IsFine false s = tt

output-IsFine :
    (o : Option Output)
    → IsFine {A = Option Stringer}
        (elim o [ none ↦ fine none | some out ↦ new_leaf ("Output: " <> output_string out) ])
output-IsFine none = tt
output-IsFine (some o) = tt

Agree-Holds :
    {B A A' : Type 0} (P : A → Type 0) (m : Visited A) (m' : Visited (B × A'))
    → Agree (λ a a'. P a) m m'
    → Holds P m
Agree-Holds P (built a) (built s) h = h
Agree-Holds P (built a) (refused e) h = elim h [ ]
Agree-Holds P (built a) nil_pointer h = elim h [ ]
Agree-Holds P (refused e) m' h = tt
Agree-Holds P nil_pointer m' h = tt

module _ {D : Type 0} (decimal : ℕ → String) (quoted : String → String) (duration : D → String)
    (s : StringBuilder) where
  -- Beside another builder, of which nothing matters but that it is one.
  builders-Related :
      Related {T' = Unit {0}} {G' = Unit {0}}
        (λ t t'. IsFine t)
        (λ t t'. IsStringer t)
        (λ g g'. IsFine g)
        (string_builder decimal quoted duration s)
        (naming_builder (λ n. "") timing_builder)
  builders-Related = record {
    whole = λ t t' h. IsStringer-IsFine t h;
    nil = tt;
    append = λ g g' t t' h k. append_text-IsFine g t h k;
    wrap = λ g g' h. wrap_text-IsStringer g h;
    sequential = λ st. tt;
    parallel = λ st. tt;
    job = λ name st. tt;
    output = λ o st. output-IsFine o;
    job_logger = λ name st. full-IsFine s.full _;
    host_logger = λ name h st. full-IsFine s.full _;
    timeout = λ d st. tt;
    scp = λ scp st. tt;
    hosts = λ st. tt;
    host = λ c h st. tt;
    error_safeguard = λ t t' st h. around_text-IsStringer _ t h;
    context_bounds = λ t t' st h. around_text-IsStringer _ t h;
    retry = λ t t' n st h. around_text-IsStringer _ t h;
    templating = λ c h st. full-IsFine s.full _;
    ssh_client = λ addr port user key password interactive st. tt;
    forwarding = λ f st. tt;
    tunnel = λ f st. tt;
    commands = λ c st. tt;
    command = λ c st. tt;
    local_command = λ c st. tt;
    stdout = λ o st. tt;
    stderr = λ o st. tt;
  }

  -- What the visitor builds, if it builds something, is a tree.
  visit_config-Stringer :
      (parse_duration : String → Option D) (read_hosts : List HostsFile → Option (List Host))
      (c : Config)
      → Holds IsStringer
          (visit_config parse_duration read_hosts (string_builder decimal quoted duration s) c)
  visit_config-Stringer parse_duration read_hosts c =
      Agree-Holds IsStringer _ _ (
        visit_config-Agree _ _ _ _ _ builders-Related parse_duration read_hosts c (0, empty_timing))

  printed-IsFine :
      (interpolate : Config → Option Host → String → Option String) (v : Option TextEngine)
      (t : TextPart)
      → IsStringer t
      → IsFine (printed decimal quoted duration interpolate v t)
  printed-IsFine interpolate v panicked h = h
  printed-IsFine interpolate v (fine none) h = h
  printed-IsFine interpolate v (fine (some t)) h = tt

  -- For any configuration that the visitor does not refuse and in which no nil pointer is followed,
  -- and whatever is to be shown, `Tree` gives a text: no call of the builder panics because a child
  -- is nil, and what the visitor returns is a Stringer.
  pub config_tree-IsFine :
      (interpolate : Config → Option Host → String → Option String)
      (parse_duration : String → Option D) (read_hosts : List HostsFile → Option (List Host))
      (c : Config)
      → Holds IsFine (config_tree decimal quoted duration interpolate parse_duration read_hosts s c)
  unfolding config_tree
  config_tree-IsFine interpolate parse_duration read_hosts c =
      let v : Option TextEngine = some (record { config = c; host = none }) in
      Holds-and_then IsStringer IsFine _ _ (visit_config-Stringer parse_duration read_hosts c)
        (λ t h. printed-IsFine interpolate v t h)
