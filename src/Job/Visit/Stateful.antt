-- ===== src/Job/Visit/Stateful.antt =====
-- The visitor of configVisitor.go for a builder with a state, such as one that numbers the nodes
-- that it makes: the calls of the builder are made one after the other, in the order of the code.
pub mod Agree
mod OfCommand
pub mod OfJob
use text.Mathlib.Text.{◌==◌ as str_eq}
use x_cuter.Common.{
  ℕ, Bool, true, false, not, Option, none, some, List, [], ◌∷◌, ltb, ◌&&◌, if◌then◌else◌, String,
}
use x_cuter.Job.Visit.{
  Visited, built, refused, nil_pointer, ◌and_then◌, VisitError, hosts_unread, no_config_command,
  forwarding_local, tunnel_local, both_commands, no_command, bad_timeout, unknown_flow,
  local_command, is_remote, has_commands, check_hosts,
}
use x_cuter.Job.{
  Output, Host, HostsFile, Forwarding, ScpData, Settings, Command, absent, command, Commands,
  no_more, child, Config,
}

-- A `ConfigBuilder` with its state `B`; a group and what is appended to it are values.
pub record StatefulBuilder (B T G D : Type 0) : Type 0 where
  pub nil : T
  pub append : G → T → G
  pub wrap : G → T
  pub sequential : B → B × G
  pub parallel : B → B × G
  pub job : String → B → B × G
  pub output : Option Output → B → B × T
  pub job_logger : String → B → B × T
  pub host_logger : String → Host → B → B × T
  pub timeout : D → B → B × T
  pub scp : ScpData → B → B × T
  pub hosts : B → B × G
  pub host : Config → Host → B → B × G
  pub error_safeguard : T → B → B × T
  pub context_bounds : T → B → B × T
  pub retry : T → ℕ → B → B × T
  pub templating : Config → Option Host → B → B × T
  pub ssh_client : String → ℕ → String → String → String → List (String × String) → B → B × T
  pub forwarding : Forwarding → B → B × T
  pub tunnel : Forwarding → B → B × T
  pub commands : Command → B → B × G
  pub command : Command → B → B × T
  pub local_command : Command → B → B × T
  pub stdout : Output → B → B × T
  pub stderr : Output → B → B × T

module _ {B T G D : Type 0} (parse_duration : String → Option D) where
  abbrev pub append_to : StatefulBuilder B T G D → G → B × T → B × G
  append_to b g (st, t) = (st, b.append g t)

  -- The parts for the outputs of a command, appended to its group.
  abbrev pub add_outputs : StatefulBuilder B T G D → Settings → B × G → B × G
  add_outputs b s (st, g) = elim s.stdout [
    | none ↦ elim s.stderr [
      | none ↦ (st, b.append (b.append g b.nil) b.nil)
      | some e ↦ append_to b (b.append g b.nil) (b.stderr e st)
    ]
    | some o ↦
        let (out_st, out) = b.stdout o st in
        elim s.stderr [
          | none ↦ (out_st, b.append (b.append g out) b.nil)
          | some e ↦
              if str_eq e.file o.file
              then (out_st, b.append (b.append g out) out)
              else append_to b (b.append g out) (b.stderr e out_st)
        ]
  ]

  unfoldable pub add_timeout : StatefulBuilder B T G D → String → B × G → Visited (B × G)
  add_timeout b timeout (st, g) =
      if str_eq timeout "" then built (st, g) else (elim (parse_duration timeout) [
        | none ↦ refused (bad_timeout timeout)
        | some d ↦ built (append_to b g (b.timeout d st))
      ])

  unfoldable pub flow_group : StatefulBuilder B T G D → String → B → Visited (B × G)
  flow_group b flow st =
      if str_eq flow "sequential"
      then built (b.sequential st)
      else if str_eq flow "parallel"
      then built (b.parallel st)
      else refused (unknown_flow flow)

  -- The wrappers of a command that `retries` and `ignore_error` ask for.
  abbrev pub retried : StatefulBuilder B T G D → Settings → B × T → B × T
  retried b s (st, t) = if ltb 1 s.retries then b.retry t s.retries st else (st, t)

  abbrev pub ignored : StatefulBuilder B T G D → Settings → B × T → B × T
  ignored b s (st, t) = if s.ignore_error then b.error_safeguard t st else (st, t)

  unfoldable pub finish_command : StatefulBuilder B T G D → Settings → B × G → B × T
  finish_command b s (st, g) = ignored b s (retried b s (b.context_bounds (b.wrap g) st))

  unfoldable mutual
    pub visit_command : StatefulBuilder B T G D → Command → B → Visited (B × T)
    visit_command b absent st = nil_pointer
    visit_command b (command s cs) st =
        let children = λ (group : B × G). visit_each b cs group in
        if not (str_eq s.command "") && has_commands cs
        then refused both_commands
        else (add_timeout b s.timeout (add_outputs b s (b.commands (command s cs) st))
            and_then (λ timed.
                (if not (str_eq s.command "")
                  then (if str_eq s.target "local"
                      then built (b.local_command (command s cs) timed.0)
                      else built (b.command (command s cs) timed.0))
                  else if has_commands cs
                  then (flow_group b s.flow timed.0 and_then children)
                    and_then (λ group. built (group.0, b.wrap group.1))
                  else refused no_command)
                and_then (λ cmds. built (finish_command b s (append_to b timed.1 cmds)))))

    pub visit_each : StatefulBuilder B T G D → Commands → B × G → Visited (B × G)
    visit_each b no_more group = built group
    visit_each b (child c cs) group =
        visit_command b c group.0 and_then (λ exec. visit_each b cs (append_to b group.1 exec))

  abbrev pub add_remote_only :
      {F : Type 0}
      → Bool
      → VisitError
      → (F → B → B × T)
      → StatefulBuilder B T G D
      → Option F
      → B × G
      → Visited (B × G)
  add_remote_only remote e part b none (st, g) = built (st, g)
  add_remote_only true e part b (some f) (st, g) = built (append_to b g (part f st))
  add_remote_only false e part b (some f) (st, g) = refused e

  -- The group of a host with its logger and its templating engine.
  abbrev pub begin_host : StatefulBuilder B T G D → Config → Host → B → B × G
  begin_host b c h st =
      let (st₁, g) = b.host c h st in
      let (st₂, g₂) = append_to b g (b.host_logger c.name h st₁) in
      append_to b g₂ (b.templating c (some h) st₂)

  abbrev pub add_client : Bool → StatefulBuilder B T G D → Host → B × G → B × G
  add_client false b h (st, g) = (st, g)
  add_client true b h (st, g) =
      append_to b g
        (b.ssh_client h.addr h.port h.user h.private_key h.password h.keyboard_interactive st)

  unfoldable pub visit_host : StatefulBuilder B T G D → Config → Host → B → Visited (B × G)
  visit_host b c h st = elim c.command [
    | absent ↦ refused no_config_command
    | command s cs ↦
        let begun = begin_host b c h st in
        is_remote (command s cs) and_then (λ remote.
          add_remote_only remote forwarding_local b.forwarding b c.forwarding
            (add_client remote b h begun)
          and_then (λ group. add_remote_only remote tunnel_local b.tunnel b c.tunnel group))
  ]

  -- A host with the command of the job behind it.
  abbrev pub guarded : StatefulBuilder B T G D → T → B × G → B × T
  guarded b cmd (st, g) =
      let (st₁, t) = b.context_bounds (b.wrap (b.append g cmd)) st in b.error_safeguard t st₁

  unfoldable pub host_part : StatefulBuilder B T G D → Config → T → Host → B → Visited (B × T)
  host_part b c cmd h st = visit_host b c h st and_then (λ group. built (guarded b cmd group))

  unfoldable pub host_parts :
      StatefulBuilder B T G D → Config → T → List Host → B × G → Visited (B × G)
  host_parts b c cmd [] group = built group
  host_parts b c cmd (h ∷ hs) group =
      host_part b c cmd h group.0
      and_then (λ part. host_parts b c cmd hs (append_to b group.1 part))

  unfoldable pub add_local : StatefulBuilder B T G D → Command → B × G → Visited (B × G)
  add_local b absent group = built group
  add_local b (command s cs) group =
      local_command (command s cs)
      and_then (λ l. visit_command b l group.0 and_then (λ part. built (append_to b group.1 part)))

  unfoldable pub add_hosts :
      (List HostsFile → Option (List Host))
      → StatefulBuilder B T G D
      → Config
      → T
      → B × G
      → Visited (B × G)
  add_hosts read_hosts b c cmd group =
      (elim c.host [
        | none ↦ built group
        | some h ↦ host_part b c cmd h group.0 and_then (λ part. built (append_to b group.1 part))
      ])
      and_then (λ one. elim c.hosts_file [
        | none ↦ built one
        | some files ↦ elim (read_hosts files) [
          | none ↦ refused hosts_unread
          | some hs ↦
              host_parts b c cmd hs (b.hosts one.0)
              and_then (λ all. built (all.0, b.append one.1 (b.wrap all.1)))
        ]
      ])

  abbrev pub add_scp : StatefulBuilder B T G D → Option ScpData → B × G → B × G
  add_scp b none group = group
  add_scp b (some s) group = append_to b group.1 (b.scp s group.0)

  -- The group of the job with its first three parts.
  abbrev pub begin_job : StatefulBuilder B T G D → Config → B → B × G
  begin_job b c st =
      let (st₁, g) = b.job c.name st in
      let (st₂, g₂) = append_to b g (b.templating c none st₁) in
      let (st₃, g₃) = append_to b g₂ (b.output c.output st₂) in
      append_to b g₃ (b.job_logger c.name st₃)

  -- `VisitConfig`
  unfoldable pub visit_config :
      (List HostsFile → Option (List Host)) → StatefulBuilder B T G D → Config → B → Visited (B × T)
  visit_config read_hosts b c st = elim (check_hosts c) [
    | some e ↦ refused e
    | none ↦ add_timeout b c.timeout (begin_job b c st) and_then (λ timed.
        add_local b c.pre (add_scp b c.scp timed) and_then (λ group.
          visit_command b c.command group.0 and_then (λ cmd.
            add_hosts read_hosts b c cmd.1 (cmd.0, group.1) and_then (λ hosted.
              add_local b c.post hosted and_then (λ whole. built (whole.0, b.wrap whole.1))))))
  ]
