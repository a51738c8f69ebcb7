-- ===== src/Job/Tree/Meets/Job.antt =====
-- Whole jobs in the execution tree.
use text.Mathlib.Text.{◌==◌ as str_eq}
use x_cuter.Common.{
  subst, Bool-cases, ◌≡◌, true, false, Option, none, some, List, Option-cases, inl, inr, String,
}
use x_cuter.Flunc.Parallel.{Goroutines}
use x_cuter.Job.Tree.Builder.{ExecutionGroup, append_flunc, tree_builder, wrap_group}
use x_cuter.Job.Tree.Keys.{
  Ready, Post, Anywhere, HasEngine, HasOutput, templating_step-Safe, output_step-Safe,
  job_logger-Safe, scp_step-Safe, timeout_step-Safe,
}
use x_cuter.Job.Tree.Meets.Commands.{visit_command-PartSteady}
use x_cuter.Job.Tree.Meets.Groups.{
  PartSteady, GroupSteady, empty-GroupSteady, wrap_group-PartSteady, Staged, empty-Staged,
  append_flunc-Staged, append_part-Staged, PartSafe, wrap_group-PartSafe,
}
use x_cuter.Job.Tree.Meets.Remote.{IsLocal-is_remote}
use x_cuter.Job.Tree.{System, Context, TreeError, Step}
use x_cuter.Job.Visit.Holds.{Holds, Holds-and_then}
use x_cuter.Job.Visit.Local.{IsLocal, local_command-IsLocal}
use x_cuter.Job.Visit.{
  built, ◌and_then◌, local_command, host_part, add_local, add_hosts, add_scp, add_timeout,
  check_hosts, visit_config,
}
use x_cuter.Job.{Host, HostsFile, ScpData, Command, absent, command, Config}
use x_cuter.Job.Tree.Meets.Hosts.{
  CommandPart, visit_command-CommandPart, host_part-PartSteady, host_parts-GroupSteady,
}

module _ {S K W C D : Type 0} (sys : System S K W C D) (go : Goroutines S TreeError)
    (parse_duration : String → Option D) where
  -- The group of a job.
  abbrev JobGroup : ExecutionGroup (Step sys) → Type 0
  JobGroup g = Staged sys go Anywhere g (Ready false)

  begun-JobGroup :
      (c : Config)
      → JobGroup (
          append_flunc sys go
            (append_flunc sys go
              (append_flunc sys go
                ((tree_builder sys go).job c.name)
                ((tree_builder sys go).templating c none))
              ((tree_builder sys go).output c.output))
            ((tree_builder sys go).job_logger c.name))
  begun-JobGroup c =
      append_flunc-Staged sys go Anywhere HasOutput (Ready false) _ _
        (append_flunc-Staged sys go Anywhere HasEngine HasOutput _ _
          (append_flunc-Staged sys go Anywhere Anywhere HasEngine _ _ (empty-Staged sys go Anywhere)
            (templating_step-Safe sys c none))
          (output_step-Safe sys c.output))
        (job_logger-Safe sys c.name)

  add_timeout-JobGroup :
      (timeout : String) (g : ExecutionGroup (Step sys))
      → JobGroup g
      → Holds JobGroup (add_timeout parse_duration (tree_builder sys go) timeout g)
  unfolding add_timeout
  add_timeout-JobGroup timeout g h = elim (Bool-cases (str_eq timeout "")) [
    | inl e ↦ rw (e, add_timeout) h
    | inr e ↦
        rw (e, add_timeout)
          (elim (Option-cases (parse_duration timeout)) [
            | inl n ↦ rw n tt
            | inr (d, n) ↦ rw n (
                append_flunc-Staged sys go Anywhere (Ready false) (Ready false) g _ h
                  (timeout_step-Safe sys false d))
          ])
  ]

  add_scp-JobGroup :
      (scp : Option ScpData) (g : ExecutionGroup (Step sys))
      → JobGroup g
      → JobGroup (add_scp parse_duration (tree_builder sys go) scp g)
  add_scp-JobGroup none g h = h
  add_scp-JobGroup (some scp) g h =
      append_flunc-Staged sys go Anywhere (Ready false) (Ready false) g _ h
        (scp_step-Safe sys false scp)

  add_local-JobGroup :
      (c : Command) (g : ExecutionGroup (Step sys))
      → JobGroup g
      → Holds JobGroup (add_local parse_duration (tree_builder sys go) c g)
  unfolding add_local
  add_local-JobGroup absent g h = h
  add_local-JobGroup (command s cs) g h =
      Holds-and_then IsLocal JobGroup (local_command (command s cs)) _
        (local_command-IsLocal (command s cs))
        (λ l k.
          Holds-and_then (PartSteady sys go false) JobGroup _ _
            (visit_command-PartSteady sys go parse_duration false l (inr (IsLocal-is_remote l k)))
            (λ part p. append_part-Staged sys go Anywhere false g part h p))

  add_host-JobGroup :
      (c : Config) (cmd : Option (Step sys)) (o : Option Host) (g : ExecutionGroup (Step sys))
      → CommandPart sys go parse_duration c.command cmd
      → JobGroup g
      → Holds JobGroup (elim o [
        | none ↦ built g
        | some h ↦
            host_part parse_duration (tree_builder sys go) c cmd h
            and_then (λ part. built (append_flunc sys go g part))
      ])
  add_host-JobGroup c cmd none g k h = h
  add_host-JobGroup c cmd (some x) g k h =
      Holds-and_then (PartSteady sys go false) JobGroup _ _
        (host_part-PartSteady sys go parse_duration c cmd x k)
        (λ part p. append_part-Staged sys go Anywhere false g part h p)

  add_hosts-JobGroup :
      (read_hosts : List HostsFile → Option (List Host)) (c : Config) (cmd : Option (Step sys))
      (g : ExecutionGroup (Step sys))
      → CommandPart sys go parse_duration c.command cmd
      → JobGroup g
      → Holds JobGroup (add_hosts parse_duration read_hosts (tree_builder sys go) c cmd g)
  unfolding add_hosts
  add_hosts-JobGroup read_hosts c cmd g k h =
      Holds-and_then JobGroup JobGroup _ _ (add_host-JobGroup c cmd c.host g k h) (λ g' h'.
        elim (Option-cases c.hosts_file) [
          | inl n ↦ simp n h'
          | inr (files, n) ↦ simp n (elim (Option-cases (read_hosts files)) [
            | inl m ↦ rw m tt
            | inr (hs, m) ↦ rw m (
                Holds-and_then (GroupSteady sys go false) JobGroup _ _
                  (host_parts-GroupSteady sys go parse_duration c cmd hs _ k
                    (empty-GroupSteady sys go false true))
                  (λ all p.
                    append_part-Staged sys go Anywhere false g' (wrap_group sys go all) h'
                      (wrap_group-PartSteady sys go false all p)))
          ])
        ])

  visit_config-PartSafe :
      (read_hosts : List HostsFile → Option (List Host)) (c : Config)
      → Holds
          (λ t. PartSafe sys go Anywhere t (Ready false))
          (visit_config parse_duration read_hosts (tree_builder sys go) c)
  unfolding visit_config
  visit_config-PartSafe read_hosts c = elim (Option-cases (check_hosts c)) [
    | inr (e, n) ↦ rw (n, visit_config) tt
    | inl n ↦
        rw (n, visit_config)
          (Holds-and_then JobGroup (λ t. PartSafe sys go Anywhere t (Ready false)) _ _
            (add_timeout-JobGroup c.timeout _ (begun-JobGroup c))
            (λ timed h1.
              Holds-and_then JobGroup (λ t. PartSafe sys go Anywhere t (Ready false)) _ _
                (add_local-JobGroup c.pre _ (add_scp-JobGroup c.scp timed h1))
                (λ g h2.
                  Holds-and_then (CommandPart sys go parse_duration c.command)
                    (λ t. PartSafe sys go Anywhere t (Ready false)) _ _
                    (visit_command-CommandPart sys go parse_duration c.command)
                    (λ cmd k.
                      Holds-and_then JobGroup (λ t. PartSafe sys go Anywhere t (Ready false)) _ _
                        (add_hosts-JobGroup read_hosts c cmd g k h2)
                        (λ g' h3.
                          Holds-and_then JobGroup (λ t. PartSafe sys go Anywhere t (Ready false)) _
                            _ (add_local-JobGroup c.post g' h3)
                            (λ g'' h4.
                              wrap_group-PartSafe sys go Anywhere (Ready false) g'' h4))))))
  ]

  -- The execution tree that the visitor builds of any configuration, run in any context and world,
  -- never fails for a value that its context lacks: it leaves a context with an output, a logger and
  -- a templating engine, or its error is another one. What happens inside of the part of a host does
  -- not show in this, since the safeguard around it keeps its errors.
  pub visit_config_meets :
      (read_hosts : List HostsFile → Option (List Host)) (c : Config) (f : Step sys)
      (ctx : Context K W C) (s : S)
      → visit_config parse_duration read_hosts (tree_builder sys go) c ≡ built (some f)
      → Post sys (Ready false) ctx (f ctx s).1
  visit_config_meets read_hosts c f ctx s h =
      let safe =
        subst (Holds (λ t. PartSafe sys go Anywhere t (Ready false))) h
          (visit_config-PartSafe read_hosts c) in
      safe ctx s tt
