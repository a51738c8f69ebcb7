-- ===== src/Job/Visit/Stateful/Agree.antt =====
-- What it is for the visitor for a builder with a state to do what the one for a builder without
-- does: results that agree, and builders whose operations make related parts.
use x_cuter.Common.{ℕ, ◌≡◌, refl, Option, List, String}
use x_cuter.Job.Visit.{Builder, Visited, built, refused, nil_pointer, ◌and_then◌}
use x_cuter.Job.Visit.Stateful.{StatefulBuilder}
use x_cuter.Job.{Output, Host, Forwarding, ScpData, Command, Config}

-- The same error, a nil pointer on both sides, or values that `R` relates.
abbrev pub Agree : {B A A' : Type 0} → (A → A' → Type 0) → Visited A → Visited (B × A') → Type 0
Agree R (built a) (built (st, a')) = R a a'
Agree R (refused e) (refused e') = e ≡ e'
Agree R nil_pointer nil_pointer = Unit
Agree R (built a) (refused e) = ⊥
Agree R (built a) nil_pointer = ⊥
Agree R (refused e) (built s) = ⊥
Agree R (refused e) nil_pointer = ⊥
Agree R nil_pointer (built s) = ⊥
Agree R nil_pointer (refused e) = ⊥

pub Agree-and_then :
    {B A A' C C' : Type 0} (R : A → A' → Type 0) (Q : C → C' → Type 0) (m : Visited A)
    (m' : Visited (B × A')) (f : A → Visited C) (f' : B × A' → Visited (B × C'))
    → Agree R m m'
    → ((a : A) (s : B × A') → R a s.1 → Agree Q (f a) (f' s))
    → Agree Q (m and_then f) (m' and_then f')
Agree-and_then R Q (built a) (built (st, a')) f f' h k = k a (st, a') h
Agree-and_then R Q (refused e) (refused e') f f' h k = h
Agree-and_then R Q nil_pointer nil_pointer f f' h k = tt
Agree-and_then R Q (built a) (refused e) f f' h k = elim h [ ]
Agree-and_then R Q (built a) nil_pointer f f' h k = elim h [ ]
Agree-and_then R Q (refused e) (built s) f f' h k = elim h [ ]
Agree-and_then R Q (refused e) nil_pointer f f' h k = elim h [ ]
Agree-and_then R Q nil_pointer (built s) f f' h k = elim h [ ]
Agree-and_then R Q nil_pointer (refused e) f f' h k = elim h [ ]

-- What is computed before a builder comes in is the same on both sides.
pub same-and_then :
    {B A C C' : Type 0} (Q : C → C' → Type 0) (m : Visited A) (f : A → Visited C)
    (f' : A → Visited (B × C'))
    → ((a : A) → Agree Q (f a) (f' a))
    → Agree Q (m and_then f) (m and_then f')
same-and_then Q (built a) f f' k = k a
same-and_then Q (refused e) f f' k = refl
same-and_then Q nil_pointer f f' k = tt

-- Each operation of the two builders relates what it makes: by `Q` groups, by `R` parts, by `W` parts
-- that a group or a wrapper has made.
pub record Related {B T G T' G' D : Type 0} (R W : T → T' → Type 0) (Q : G → G' → Type 0)
    (b : Builder T G D) (b' : StatefulBuilder B T' G' D) : Type 0 where
  pub whole : (t : T) (t' : T') → W t t' → R t t'
  pub nil : R b.nil b'.nil
  pub append :
      (g : G) (g' : G') (t : T) (t' : T') → Q g g' → R t t' → Q (b.append g t) (b'.append g' t')
  pub wrap : (g : G) (g' : G') → Q g g' → W (b.wrap g) (b'.wrap g')
  pub sequential : (st : B) → Q b.sequential (b'.sequential st).1
  pub parallel : (st : B) → Q b.parallel (b'.parallel st).1
  pub job : (name : String) (st : B) → Q (b.job name) (b'.job name st).1
  pub output : (o : Option Output) (st : B) → R (b.output o) (b'.output o st).1
  pub job_logger : (name : String) (st : B) → R (b.job_logger name) (b'.job_logger name st).1
  pub host_logger :
      (name : String) (h : Host) (st : B) → R (b.host_logger name h) (b'.host_logger name h st).1
  pub timeout : (d : D) (st : B) → R (b.timeout d) (b'.timeout d st).1
  pub scp : (s : ScpData) (st : B) → R (b.scp s) (b'.scp s st).1
  pub hosts : (st : B) → Q b.hosts (b'.hosts st).1
  pub host : (c : Config) (h : Host) (st : B) → Q (b.host c h) (b'.host c h st).1
  pub error_safeguard :
      (t : T) (t' : T') (st : B) → W t t' → W (b.error_safeguard t) (b'.error_safeguard t' st).1
  pub context_bounds :
      (t : T) (t' : T') (st : B) → W t t' → W (b.context_bounds t) (b'.context_bounds t' st).1
  pub retry : (t : T) (t' : T') (n : ℕ) (st : B) → W t t' → W (b.retry t n) (b'.retry t' n st).1
  pub templating :
      (c : Config) (h : Option Host) (st : B) → R (b.templating c h) (b'.templating c h st).1
  pub ssh_client :
      (addr : String) (port : ℕ) (user key password : String) (interactive : List (String × String))
      (st : B)
      → R
          (b.ssh_client addr port user key password interactive)
          (b'.ssh_client addr port user key password interactive st).1
  pub forwarding : (f : Forwarding) (st : B) → R (b.forwarding f) (b'.forwarding f st).1
  pub tunnel : (f : Forwarding) (st : B) → R (b.tunnel f) (b'.tunnel f st).1
  pub commands : (c : Command) (st : B) → Q (b.commands c) (b'.commands c st).1
  pub command : (c : Command) (st : B) → R (b.command c) (b'.command c st).1
  pub local_command : (c : Command) (st : B) → R (b.local_command c) (b'.local_command c st).1
  pub stdout : (o : Output) (st : B) → R (b.stdout o) (b'.stdout o st).1
  pub stderr : (o : Output) (st : B) → R (b.stderr o) (b'.stderr o st).1
