-- ===== src/Job/Tree/Meets/Hosts.antt =====
-- Hosts in the execution tree.
use x_cuter.Common.{
  ◌≡◌, refl, subst, Bool, true, false, Option, none, some, List, [], ◌∷◌, inl, inr, if◌then◌else◌,
  String,
}
use x_cuter.Flunc.Parallel.{Goroutines}
use x_cuter.Job.Tree.Builder.{ExecutionGroup, append_flunc, tree_builder, wrap_group}
use x_cuter.Job.Tree.Combine.{context_bounds-Safe, error_safeguard-Steady}
use x_cuter.Job.Tree.Keys.{
  Ready, Post, Safe, host_logger-Safe, host_templating-Safe, ssh_client_step-Safe,
  forwarding_step-Safe, tunnel_step-Safe,
}
use x_cuter.Job.Tree.Meets.Commands.{visit_command-PartSteady}
use x_cuter.Job.Tree.Meets.Groups.{
  PartSteady, GroupSteady, append_flunc-GroupSteady, Staged, empty-Staged, append_flunc-Staged,
  append_part-Staged, PartSafe, wrap_group-PartSafe,
}
use x_cuter.Job.Tree.Meets.Remote.{Enough}
use x_cuter.Flunc.{Outcome, passed, failed}
use x_cuter.Job.Tree.{System, Context, TreeError, Step, forwarding_step, tunnel_step}
use x_cuter.Job.Visit.Holds.{Command-cases, Holds, Holds-and_then, Holds-all, Holds-map}
use x_cuter.Job.Visit.{
  VisitError, Visited, built, refused, nil_pointer, ◌and_then◌, is_remote, visit_command,
  visit_host, host_part, host_parts, add_remote_only, forwarding_local, tunnel_local,
}
use x_cuter.Job.{Host, Command, command, Config}

module _ {S K W C D : Type 0} (sys : System S K W C D) (go : Goroutines S TreeError)
    (parse_duration : String → Option D) where
  -- A part that the job's command may be: it needs a client only if the command is remote.
  abbrev pub CommandPart : Command → Option (Step sys) → Type 0
  CommandPart c t = (p : (client : Bool) × Enough client c) → PartSteady sys go p.0 t

  pub visit_command-CommandPart :
      (c : Command) → Holds (CommandPart c) (visit_command parse_duration (tree_builder sys go) c)
  visit_command-CommandPart c =
      Holds-all (λ (p : (client : Bool) × Enough client c). PartSteady sys go p.0) _
        (λ p. visit_command-PartSteady sys go parse_duration p.0 c p.1)

  -- The group of a host: it brings a client if the job's command is remote.
  record HostGroup (c : Command) (g : ExecutionGroup (Step sys)) : Type 0 where
    client : Bool
    enough : Enough client c
    staged : Staged sys go (Ready false) g (Ready client)

  begun-Staged :
      (c : Config) (h : Host)
      → Staged sys go
          (Ready false)
          (append_flunc sys go
            (append_flunc sys go
              ((tree_builder sys go).host c h)
              ((tree_builder sys go).host_logger c.name h))
            ((tree_builder sys go).templating c (some h)))
          (Ready false)
  begun-Staged c h =
      append_flunc-Staged sys go (Ready false) (Ready false) (Ready false) _ _
        (append_flunc-Staged sys go (Ready false) (Ready false) (Ready false) _ _
          (empty-Staged sys go (Ready false)) (host_logger-Safe sys false c.name (some h)))
        (host_templating-Safe sys false c (some h))

  -- A forwarding or a tunnel, where the command is remote.
  add_remote_only-Staged :
      {F : Type 0} (remote : Bool) (e : VisitError) (part : F → Step sys) (o : Option F)
      (g : ExecutionGroup (Step sys))
      → ((f : F) → Safe sys (Ready true) (part f) (Ready true))
      → Staged sys go (Ready false) g (Ready remote)
      → Holds
          (λ g'. Staged sys go (Ready false) g' (Ready remote))
          (add_remote_only parse_duration remote e (λ f. some (part f)) (tree_builder sys go) o g)
  add_remote_only-Staged true e part none g k h = h
  add_remote_only-Staged false e part none g k h = h
  add_remote_only-Staged true e part (some f) g k h =
      append_flunc-Staged sys go (Ready false) (Ready true) (Ready true) g (part f) h (k f)
  add_remote_only-Staged false e part (some f) g k h = tt

  -- The SSH client of a host, where the command is remote.
  client-Staged :
      (h : Host) (remote : Bool) (g : ExecutionGroup (Step sys))
      → Staged sys go (Ready false) g (Ready false)
      → Staged sys go
          (Ready false)
          (if remote
            then append_flunc sys go g (
                (tree_builder sys go).ssh_client h.addr h.port h.user h.private_key h.password
                  h.keyboard_interactive)
            else g)
          (Ready remote)
  client-Staged h false g k = k
  client-Staged h true g k =
      append_flunc-Staged sys go (Ready false) (Ready false) (Ready true) g _ k (
        ssh_client_step-Safe sys h.addr h.port h.user h.private_key h.password
          h.keyboard_interactive)

  Enough-of : (cmd : Command) (remote : Bool) → is_remote cmd ≡ built remote → Enough remote cmd
  Enough-of cmd true e = inl refl
  Enough-of cmd false e = inr e

  -- The rest of `visitHost`, the test for remote commands having given `v`.
  by_remote-HostGroup :
      (c : Config) (h : Host) (cmd : Command) (v : Visited Bool) (g : ExecutionGroup (Step sys))
      → is_remote cmd ≡ v
      → Staged sys go (Ready false) g (Ready false)
      → Holds (HostGroup cmd) (
          v and_then (λ remote.
            add_remote_only parse_duration remote forwarding_local
              (tree_builder sys go).forwarding
              (tree_builder sys go)
              c.forwarding
              (if remote
                then append_flunc sys go g (
                    (tree_builder sys go).ssh_client h.addr h.port h.user h.private_key h.password
                      h.keyboard_interactive)
                else g)
            and_then (λ g'.
                add_remote_only parse_duration remote tunnel_local
                  (tree_builder sys go).tunnel
                  (tree_builder sys go)
                  c.tunnel
                  g')))
  by_remote-HostGroup c h cmd nil_pointer g e k = tt
  by_remote-HostGroup c h cmd (refused x) g e k = tt
  by_remote-HostGroup c h cmd (built remote) g e k =
      Holds-and_then (λ g'. Staged sys go (Ready false) g' (Ready remote)) (HostGroup cmd) _ _
        (add_remote_only-Staged remote forwarding_local (forwarding_step sys) c.forwarding _
          (forwarding_step-Safe sys) (client-Staged h remote g k))
        (λ g' k'.
          Holds-map (λ g''. Staged sys go (Ready false) g'' (Ready remote)) (HostGroup cmd) _
            (add_remote_only-Staged remote tunnel_local (tunnel_step sys) c.tunnel g'
              (tunnel_step-Safe sys) k')
            (λ g'' k''. record { client = remote; enough = Enough-of cmd remote e; staged = k'' }))

  visit_host-HostGroup :
      (c : Config) (h : Host)
      → Holds (HostGroup c.command) (visit_host parse_duration (tree_builder sys go) c h)
  unfolding visit_host
  visit_host-HostGroup c h = elim (Command-cases c.command) [
    | inl n ↦ simp (n, visit_host) tt
    | inr (s, cs, n) ↦
        simp (n, visit_host)
          (by_remote-HostGroup c h (command s cs) (is_remote (command s cs)) _ refl
            (begun-Staged c h))
  ]

  -- A host with the command behind it is safe from the job's loggers on, and leaves them.
  pub host_part-PartSteady :
      (c : Config) (cmd : Option (Step sys)) (h : Host)
      → CommandPart c.command cmd
      → Holds (PartSteady sys go false) (host_part parse_duration (tree_builder sys go) c cmd h)
  unfolding host_part
  host_part-PartSteady c cmd h k =
      Holds-and_then (HostGroup c.command) (PartSteady sys go false) _ _ (visit_host-HostGroup c h)
        (λ g host.
          let whole = append_flunc sys go g cmd in
          let staged =
            append_part-Staged sys go (Ready false) host.client g cmd host.staged
              (k (host.client, host.enough)) in
          error_safeguard-Steady sys go false _ (
            context_bounds-Safe sys go false (Ready host.client) _
              (wrap_group-PartSafe sys go (Ready false) (Ready host.client) whole staged)))

  pub host_parts-GroupSteady :
      (c : Config) (cmd : Option (Step sys)) (hs : List Host) (g : ExecutionGroup (Step sys))
      → CommandPart c.command cmd
      → GroupSteady sys go false g
      → Holds
          (GroupSteady sys go false)
          (host_parts parse_duration (tree_builder sys go) c cmd hs g)
  unfolding host_parts
  host_parts-GroupSteady c cmd [] g k h = h
  host_parts-GroupSteady c cmd (x ∷ xs) g k h =
      Holds-and_then (PartSteady sys go false) (GroupSteady sys go false) _ _
        (host_part-PartSteady c cmd x k)
        (λ part p.
          host_parts-GroupSteady c cmd xs (append_flunc sys go g part) k
            (append_flunc-GroupSteady sys go false g part h p))

  Ready-weaken : (client : Bool) (ctx : Context K W C) → Ready client ctx → Ready false ctx
  Ready-weaken client ctx h = record {
    output = h.output;
    logger = h.logger;
    templating = h.templating;
    client_ready = tt;
  }

  Post-weaken :
      (client : Bool) (ctx : Context K W C) (r : Outcome (Context K W C) TreeError)
      → Post sys (Ready client) ctx r
      → Post sys (Ready false) ctx r
  Post-weaken client ctx (passed none) h = Ready-weaken client ctx h
  Post-weaken client ctx (passed (some c)) h = Ready-weaken client c h
  Post-weaken client ctx (failed e) h = h

  -- The part of a host without the safeguard that `VisitConfig` puts around it: the steps of
  -- `visitHost`, and the job's command behind them, one after the other. Called in a context with an
  -- output, a logger and a templating engine, but no matter whether with an SSH client, it fails, if
  -- it fails, with another error than that of a value that its context lacks. So where the command,
  -- a forwarding or a tunnel needs an SSH client, a step before it has put one into the context.
  pub visit_host_meets :
      (c : Config) (h : Host) (g : ExecutionGroup (Step sys)) (cmd : Option (Step sys))
      (f : Step sys) (ctx : Context K W C) (s : S)
      → visit_host parse_duration (tree_builder sys go) c h ≡ built g
      → visit_command parse_duration (tree_builder sys go) c.command ≡ built cmd
      → wrap_group sys go (append_flunc sys go g cmd) ≡ some f
      → Ready false ctx
      → Post sys (Ready false) ctx (f ctx s).1
  visit_host_meets c h g cmd f ctx s e k w ready =
      let host = subst (Holds (HostGroup c.command)) e (visit_host-HostGroup c h) in
      let part = subst (Holds (CommandPart c.command)) k (visit_command-CommandPart c.command) in
      let staged =
        append_part-Staged sys go (Ready false) host.client g cmd host.staged
          (part (host.client, host.enough)) in
      let safe =
        subst (λ t. PartSafe sys go (Ready false) t (Ready host.client)) w
          (wrap_group-PartSafe sys go (Ready false) (Ready host.client) (append_flunc sys go g cmd)
            staged) in
      Post-weaken host.client ctx (f ctx s).1 (safe ctx s ready)
