-- ===== src/Job/Visit.antt =====
-- The visitor of configVisitor.go: it walks a configuration and has a builder make a part for each
-- step of the job.
pub mod Holds
pub mod Local
pub mod Absent
pub mod Stateful
use text.Mathlib.Text.{◌==◌ as str_eq}
use x_cuter.Common.{
  ℕ, Bool, true, false, not, Option, none, some, List, [], ◌∷◌, ltb, ◌&&◌, ◌||◌, if◌then◌else◌,
  String,
}
use x_cuter.Job.{
  Output, Host, HostsFile, Forwarding, ScpData, Settings, Command, absent, command, Commands,
  no_more, child, Config,
}

-- A `ConfigBuilder`: `T` are the values of type interface{}, `G` the groups and `D` the durations.
-- `append` gives the group behind an `Append` of one
-- child. `ssh_client` gets the address and the port of the host apart, before they are formatted.
pub record Builder (T G D : Type 0) : Type 0 where
  pub nil : T
  pub append : G → T → G
  pub wrap : G → T
  pub sequential : G
  pub parallel : G
  pub job : String → G
  pub output : Option Output → T
  pub job_logger : String → T
  pub host_logger : String → Host → T
  pub timeout : D → T
  pub scp : ScpData → T
  pub hosts : G
  pub host : Config → Host → G
  pub error_safeguard : T → T
  pub context_bounds : T → T
  pub retry : T → ℕ → T
  pub templating : Config → Option Host → T
  pub ssh_client : String → ℕ → String → String → String → List (String × String) → T
  pub forwarding : Forwarding → T
  pub tunnel : Forwarding → T
  pub commands : Command → G
  pub command : Command → T
  pub local_command : Command → T
  pub stdout : Output → T
  pub stderr : Output → T

-- The error at the bottom of what the visitor returns, without what is wrapped around it.
pub data VisitError : Type 0 where
  no_host both_hosts hosts_unread no_config_command : VisitError
  forwarding_local tunnel_local both_commands no_command : VisitError
  bad_timeout unknown_flow : String → VisitError

-- A value, an error, or a nil pointer that is followed, which is a panic.
pub data Visited (A : Type 0) : Type 0 where
  built : A → Visited A
  refused : VisitError → Visited A
  nil_pointer : Visited A

infix 3 ◌and_then◌
abbrev pub ◌and_then◌ : {A B : Type 0} → Visited A → (A → Visited B) → Visited B
(built a) and_then f = f a
(refused e) and_then f = refused e
nil_pointer and_then f = nil_pointer

-- `localCommand`
unfoldable mutual
  pub local_command : Command → Visited Command
  local_command absent = nil_pointer
  local_command (command s cs) =
      local_commands cs
      and_then (λ locals. built (command (record s { target = "local"; timeout = "" }) locals))

  pub local_commands : Commands → Visited Commands
  local_commands no_more = built no_more
  local_commands (child c cs) =
      local_command c and_then (λ l. local_commands cs and_then (λ ls. built (child l ls)))

-- `IsRemote`
unfoldable mutual
  pub is_remote : Command → Visited Bool
  is_remote absent = nil_pointer
  is_remote (command s cs) =
      let below = is_remote_commands cs in
      if not (str_eq s.command "") && not (str_eq s.target "local") then built true else below

  pub is_remote_commands : Commands → Visited Bool
  is_remote_commands no_more = built false
  is_remote_commands (child c cs) =
      let rest = is_remote_commands cs in is_remote c and_then (λ r. if r then built true else rest)

-- `len(cs) > 0`
abbrev pub has_commands : Commands → Bool
has_commands no_more = false
has_commands (child c cs) = true

-- The first two tests of `VisitConfig`.
unfoldable pub check_hosts : Config → Option VisitError
check_hosts c = elim c.host [
  | none ↦ elim c.hosts_file [ none ↦ some no_host | some f ↦ none ]
  | some h ↦ elim c.hosts_file [ none ↦ none | some f ↦ some both_hosts ]
]

module _ {T G D : Type 0} (parse_duration : String → Option D) where
  -- `stdout` and `stderr` of `visitCommand`
  abbrev pub stdout_of : Builder T G D → Settings → T
  stdout_of b s = elim s.stdout [ none ↦ b.nil | some o ↦ b.stdout o ]

  abbrev pub stderr_of : Builder T G D → Settings → T
  stderr_of b s = elim s.stderr [
    | none ↦ b.nil
    | some e ↦ elim s.stdout [
      | none ↦ b.stderr e
      | some o ↦ if str_eq e.file o.file then b.stdout o else b.stderr e
    ]
  ]

  -- `if timeout != "" { ... children.Append(builder.Timeout(...)) }`
  unfoldable pub add_timeout : Builder T G D → String → G → Visited G
  add_timeout b timeout g = if str_eq timeout "" then built g else (elim (parse_duration timeout) [
    | none ↦ refused (bad_timeout timeout)
    | some d ↦ built (b.append g (b.timeout d))
  ])

  -- The group that `visitCommands` begins with.
  unfoldable pub flow_group : Builder T G D → String → Visited G
  flow_group b flow =
      if str_eq flow "sequential"
      then built b.sequential
      else if str_eq flow "parallel"
      then built b.parallel
      else refused (unknown_flow flow)

  -- What `visitCommand` makes of the group of its parts.
  unfoldable pub finish_command : Builder T G D → Settings → G → T
  finish_command b s g =
      let bounded = b.context_bounds (b.wrap g) in
      let retried = if ltb 1 s.retries then b.retry bounded s.retries else bounded in
      if s.ignore_error then b.error_safeguard retried else retried

  -- `visitCommand`, and the loop of `visitCommands`.
  unfoldable mutual
    pub visit_command : Builder T G D → Command → Visited T
    visit_command b absent = nil_pointer
    visit_command b (command s cs) =
        let group = flow_group b s.flow and_then (λ g. visit_each b g cs) in
        if not (str_eq s.command "") && has_commands cs
        then refused both_commands
        else (add_timeout b s.timeout
              (b.append (b.append (b.commands (command s cs)) (stdout_of b s)) (stderr_of b s))
            and_then (λ g.
                (if not (str_eq s.command "")
                  then (if str_eq s.target "local"
                      then built (b.local_command (command s cs))
                      else built (b.command (command s cs)))
                  else if has_commands cs
                  then group and_then (λ children. built (b.wrap children))
                  else refused no_command)
                and_then (λ cmds. built (finish_command b s (b.append g cmds)))))

    pub visit_each : Builder T G D → G → Commands → Visited G
    visit_each b g no_more = built g
    visit_each b g (child c cs) =
        visit_command b c and_then (λ exec. visit_each b (b.append g exec) cs)

  -- The branches of `visitHost` for a forwarding and a tunnel.
  abbrev pub add_remote_only :
      {F : Type 0} → Bool → VisitError → (F → T) → Builder T G D → Option F → G → Visited G
  add_remote_only remote e part b none g = built g
  add_remote_only true e part b (some f) g = built (b.append g (part f))
  add_remote_only false e part b (some f) g = refused e

  -- `visitHost`
  unfoldable pub visit_host : Builder T G D → Config → Host → Visited G
  visit_host b c h = elim c.command [
    | absent ↦ refused no_config_command
    | command s cs ↦
        let begun =
          b.append (b.append (b.host c h) (b.host_logger c.name h)) (b.templating c (some h)) in
        is_remote (command s cs) and_then (λ remote.
          let client =
            b.ssh_client h.addr h.port h.user h.private_key h.password h.keyboard_interactive in
          let g = if remote then b.append begun client else begun in
          add_remote_only remote forwarding_local b.forwarding b c.forwarding g
          and_then (λ g'. add_remote_only remote tunnel_local b.tunnel b c.tunnel g'))
  ]

  -- A host with the command of the job behind it.
  unfoldable pub host_part : Builder T G D → Config → T → Host → Visited T
  host_part b c cmd h =
      visit_host b c h
      and_then (λ g. built (b.error_safeguard (b.context_bounds (b.wrap (b.append g cmd)))))

  unfoldable pub host_parts : Builder T G D → Config → T → List Host → G → Visited G
  host_parts b c cmd [] g = built g
  host_parts b c cmd (h ∷ hs) g =
      host_part b c cmd h and_then (λ part. host_parts b c cmd hs (b.append g part))

  -- `if cmd != nil { ... children.Append(...) }` for the commands before and behind the job's.
  unfoldable pub add_local : Builder T G D → Command → G → Visited G
  add_local b absent g = built g
  add_local b (command s cs) g =
      local_command (command s cs)
      and_then (λ l. visit_command b l and_then (λ part. built (b.append g part)))

  -- The host of `VisitConfig`, or the hosts of its hosts files; `read_hosts` is `readHostsFiles`.
  unfoldable pub add_hosts :
      (List HostsFile → Option (List Host)) → Builder T G D → Config → T → G → Visited G
  add_hosts read_hosts b c cmd g =
      (elim c.host [
        | none ↦ built g
        | some h ↦ host_part b c cmd h and_then (λ part. built (b.append g part))
      ])
      and_then (λ g'. elim c.hosts_file [
        | none ↦ built g'
        | some files ↦ elim (read_hosts files) [
          | none ↦ refused hosts_unread
          | some hs ↦
              host_parts b c cmd hs b.hosts and_then (λ all. built (b.append g' (b.wrap all)))
        ]
      ])

  abbrev pub add_scp : Builder T G D → Option ScpData → G → G
  add_scp b none g = g
  add_scp b (some s) g = b.append g (b.scp s)

  -- `VisitConfig`
  unfoldable pub visit_config :
      (List HostsFile → Option (List Host)) → Builder T G D → Config → Visited T
  visit_config read_hosts b c = elim (check_hosts c) [
    | some e ↦ refused e
    | none ↦
        let begun =
          b.append (b.append (b.append (b.job c.name) (b.templating c none)) (b.output c.output))
            (b.job_logger c.name) in
        (add_timeout b c.timeout begun and_then (λ timed.
          add_local b c.pre (add_scp b c.scp timed) and_then (λ g.
            visit_command b c.command and_then (λ cmd.
              add_hosts read_hosts b c cmd g
              and_then (λ g'. add_local b c.post g' and_then (λ g''. built (b.wrap g'')))))))
  ]
