-- ===== src/Job/Visit/Stateful/OfJob.antt =====
-- The hosts and the whole of a job, visited for a builder without and for one with a state.
use x_cuter.Common.{
  refl, Bool, true, false, Option, none, some, List, [], ◌∷◌, if◌then◌else◌, String, Option-cases,
  inl, inr,
}
use x_cuter.Job.Visit.{
  Builder, Visited, built, refused, nil_pointer, ◌and_then◌, VisitError, stdout_of, stderr_of,
  has_commands, check_hosts, local_command, is_remote, forwarding_local, tunnel_local, no_command,
  hosts_unread,
}
use x_cuter.Job.Visit as Pure
use x_cuter.Job.Visit.Stateful.{
  StatefulBuilder, append_to, add_outputs, retried, ignored, begin_host, add_client, guarded,
  begin_job,
}
use x_cuter.Job.Visit.Stateful as Stateful
use x_cuter.Job.{Host, HostsFile, ScpData, Command, absent, command, Config}
use x_cuter.Job.Visit.Stateful.Agree.{Agree, Agree-and_then, same-and_then, Related}
use x_cuter.Job.Visit.Stateful.OfCommand.{add_timeout-Agree, visit_command-Agree}
use x_cuter.Job.Visit.Holds.{Command-cases}

module _ {B T G T' G' D : Type 0} (R W : T → T' → Type 0) (Q : G → G' → Type 0) (b : Builder T G D)
    (b' : StatefulBuilder B T' G' D) (r : Related R W Q b b')
    (parse_duration : String → Option D) where
  begin_host-Related :
      (c : Config) (h : Host) (st : B)
      → Q
          (b.append (b.append (b.host c h) (b.host_logger c.name h)) (b.templating c (some h)))
          (begin_host parse_duration b' c h st).1
  begin_host-Related c h st =
      r.append _ _ _ _ (r.append _ _ _ _ (r.host c h st) (r.host_logger c.name h _))
        (r.templating c (some h) _)

  add_client-Related :
      (remote : Bool) (h : Host) (g : G) (group : B × G')
      → Q g group.1
      → Q
          (if remote
            then b.append g
                (b.ssh_client h.addr h.port h.user h.private_key h.password h.keyboard_interactive)
            else g)
          (add_client parse_duration remote b' h group).1
  add_client-Related true h g group q =
      r.append _ _ _ _ q
        (r.ssh_client h.addr h.port h.user h.private_key h.password h.keyboard_interactive group.0)
  add_client-Related false h g group q = q

  add_remote_only-Agree :
      {F : Type 0} (remote : Bool) (e : VisitError) (part : F → T) (part' : F → B → B × T')
      (f : Option F) (g : G) (group : B × G')
      → ((x : F) (st : B) → R (part x) (part' x st).1)
      → Q g group.1
      → Agree Q
          (Pure.add_remote_only parse_duration remote e part b f g)
          (Stateful.add_remote_only parse_duration remote e part' b' f group)
  add_remote_only-Agree remote e part part' none g group h q = q
  add_remote_only-Agree true e part part' (some x) g group h q = r.append _ _ _ _ q (h x group.0)
  add_remote_only-Agree false e part part' (some x) g group h q = refl

  visit_host-Agree :
      (c : Config) (h : Host) (st : B)
      → Agree Q
          (Pure.visit_host parse_duration b c h)
          (Stateful.visit_host parse_duration b' c h st)
  unfolding Pure.visit_host Stateful.visit_host
  visit_host-Agree c h st = elim (Command-cases c.command) [
    | inl e ↦ simp (e, Pure.visit_host, Stateful.visit_host) refl
    | inr (s, cs, e) ↦
        simp (e, Pure.visit_host, Stateful.visit_host)
          (same-and_then Q (is_remote (command s cs)) _ _ (λ remote.
            Agree-and_then Q Q _ _ _ _
              (add_remote_only-Agree remote forwarding_local b.forwarding b'.forwarding c.forwarding
                _ _ r.forwarding
                (add_client-Related remote h _ (begin_host parse_duration b' c h st)
                  (begin_host-Related c h st)))
              (λ g group q.
                add_remote_only-Agree remote tunnel_local b.tunnel b'.tunnel c.tunnel g group
                  r.tunnel q)))
  ]

  host_part-Agree :
      (c : Config) (t : T) (t' : T') (h : Host) (st : B)
      → R t t'
      → Agree W
          (Pure.host_part parse_duration b c t h)
          (Stateful.host_part parse_duration b' c t' h st)
  unfolding Pure.host_part Stateful.host_part
  host_part-Agree c t t' h st u = Agree-and_then Q W _ _ _ _ (visit_host-Agree c h st) (λ g group q.
      r.error_safeguard _ _ _ (r.context_bounds _ _ group.0 (r.wrap _ _ (r.append _ _ _ _ q u))))

  host_parts-Agree :
      (c : Config) (t : T) (t' : T') (hs : List Host) (g : G) (group : B × G')
      → R t t'
      → Q g group.1
      → Agree Q
          (Pure.host_parts parse_duration b c t hs g)
          (Stateful.host_parts parse_duration b' c t' hs group)
  unfolding Pure.host_parts Stateful.host_parts
  host_parts-Agree c t t' [] g group u q = q
  host_parts-Agree c t t' (h ∷ hs) g group u q =
      Agree-and_then W Q _ _ _ _ (host_part-Agree c t t' h group.0 u) (λ x part v.
        host_parts-Agree c t t' hs (b.append g x) (append_to parse_duration b' group.1 part) u
          (r.append _ _ _ _ q (r.whole _ _ v)))

  add_local-Agree :
      (c : Command) (g : G) (group : B × G')
      → Q g group.1
      → Agree Q (Pure.add_local parse_duration b c g) (Stateful.add_local parse_duration b' c group)
  unfolding Pure.add_local Stateful.add_local
  add_local-Agree absent g group q = q
  add_local-Agree (command s cs) g group q =
      same-and_then Q (local_command (command s cs)) _ _ (λ l.
        Agree-and_then W Q _ _ _ _ (visit_command-Agree R W Q b b' r parse_duration l group.0)
          (λ t part u. r.append _ _ _ _ q (r.whole _ _ u)))

  -- The hosts of the hosts files.
  files-Agree :
      (read_hosts : List HostsFile → Option (List Host)) (c : Config) (t : T) (t' : T')
      (files : Option (List HostsFile)) (g : G) (group : B × G')
      → R t t'
      → Q g group.1
      → Agree Q
          (elim files [
            | none ↦ built g
            | some fs ↦ elim (read_hosts fs) [
              | none ↦ refused hosts_unread
              | some hs ↦
                  Pure.host_parts parse_duration b c t hs b.hosts
                  and_then (λ all. built (b.append g (b.wrap all)))
            ]
          ])
          (elim files [
            | none ↦ built group
            | some fs ↦ elim (read_hosts fs) [
              | none ↦ refused hosts_unread
              | some hs ↦
                  Stateful.host_parts parse_duration b' c t' hs (b'.hosts group.0)
                  and_then (λ all. built (all.0, b'.append group.1 (b'.wrap all.1)))
            ]
          ])
  files-Agree read_hosts c t t' none g group u q = q
  files-Agree read_hosts c t t' (some fs) g group u q = elim (Option-cases (read_hosts fs)) [
    | inl n ↦ simp n refl
    | inr (hs, n) ↦ simp n (
        Agree-and_then Q Q _ _ _ _
          (host_parts-Agree c t t' hs b.hosts (b'.hosts group.0) u (r.hosts group.0))
          (λ all all' v. r.append _ _ _ _ q (r.whole _ _ (r.wrap _ _ v))))
  ]

  one_host-Agree :
      (c : Config) (t : T) (t' : T') (host : Option Host) (g : G) (group : B × G')
      → R t t'
      → Q g group.1
      → Agree Q
          (elim host [
            | none ↦ built g
            | some h ↦
                Pure.host_part parse_duration b c t h and_then (λ part. built (b.append g part))
          ])
          (elim host [
            | none ↦ built group
            | some h ↦
                Stateful.host_part parse_duration b' c t' h group.0
                and_then (λ part. built (append_to parse_duration b' group.1 part))
          ])
  one_host-Agree c t t' none g group u q = q
  one_host-Agree c t t' (some h) g group u q =
      Agree-and_then W Q _ _ _ _ (host_part-Agree c t t' h group.0 u)
        (λ x part v. r.append _ _ _ _ q (r.whole _ _ v))

  add_hosts-Agree :
      (read_hosts : List HostsFile → Option (List Host)) (c : Config) (t : T) (t' : T') (g : G)
      (group : B × G')
      → R t t'
      → Q g group.1
      → Agree Q
          (Pure.add_hosts parse_duration read_hosts b c t g)
          (Stateful.add_hosts parse_duration read_hosts b' c t' group)
  unfolding Pure.add_hosts Stateful.add_hosts
  add_hosts-Agree read_hosts c t t' g group u q =
      Agree-and_then Q Q _ _ _ _ (one_host-Agree c t t' c.host g group u q)
        (λ x one v. files-Agree read_hosts c t t' c.hosts_file x one u v)

  add_scp-Related :
      (scp : Option ScpData) (g : G) (group : B × G')
      → Q g group.1
      → Q (Pure.add_scp parse_duration b scp g) (Stateful.add_scp parse_duration b' scp group).1
  add_scp-Related none g group q = q
  add_scp-Related (some s) g group q = r.append _ _ _ _ q (r.scp s group.0)

  begin_job-Related :
      (c : Config) (st : B)
      → Q
          (b.append
            (b.append (b.append (b.job c.name) (b.templating c none)) (b.output c.output))
            (b.job_logger c.name))
          (begin_job parse_duration b' c st).1
  begin_job-Related c st =
      r.append _ _ _ _
        (r.append _ _ _ _ (r.append _ _ _ _ (r.job c.name st) (r.templating c none _))
          (r.output c.output _))
        (r.job_logger c.name _)

  -- For two builders, one without and one with a state, whose operations make related parts of
  -- related parts in every state, and for any configuration, the visitor gives related results: both
  -- visits are refused with the same error, both follow a nil pointer, or both build something and
  -- what they build is related, as what a group or a wrapper makes of related parts is.
  pub visit_config-Agree :
      (read_hosts : List HostsFile → Option (List Host)) (c : Config) (st : B)
      → Agree W
          (Pure.visit_config parse_duration read_hosts b c)
          (Stateful.visit_config parse_duration read_hosts b' c st)
  unfolding Pure.visit_config Stateful.visit_config
  visit_config-Agree read_hosts c st = elim (Option-cases (check_hosts c)) [
    | inr (e, n) ↦ simp (n, Pure.visit_config, Stateful.visit_config) refl
    | inl n ↦
        simp (n, Pure.visit_config, Stateful.visit_config)
          (Agree-and_then Q W _ _ _ _
            (add_timeout-Agree R W Q b b' r parse_duration c.timeout _ _ (begin_job-Related c st))
            (λ g timed q.
              Agree-and_then Q W _ _ _ _
                (add_local-Agree c.pre _ _ (add_scp-Related c.scp g timed q))
                (λ g₂ group q₂.
                  Agree-and_then W W _ _ _ _
                    (visit_command-Agree R W Q b b' r parse_duration c.command group.0)
                    (λ t cmd u.
                      Agree-and_then Q W _ _ _ _
                        (add_hosts-Agree read_hosts c t cmd.1 g₂ (cmd.0, group.1) (r.whole _ _ u)
                          q₂)
                        (λ g₃ hosted q₃.
                          Agree-and_then Q W _ _ _ _ (add_local-Agree c.post g₃ hosted q₃)
                            (λ g₄ whole q₄. r.wrap _ _ q₄))))))
  ]
