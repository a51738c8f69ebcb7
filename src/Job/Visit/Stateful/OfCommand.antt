-- ===== src/Job/Visit/Stateful/OfCommand.antt =====
-- Commands, visited for a builder without and for one with a state.
use text.Mathlib.Text.{◌==◌ as str_eq}
use x_cuter.Common.{
  refl, not, Option, none, some, ltb, ◌&&◌, if◌then◌else◌, String, Option-cases, Bool-cases, inl,
  inr,
}
use x_cuter.Job.Visit.{
  Builder, Visited, built, refused, nil_pointer, ◌and_then◌, VisitError, stdout_of, stderr_of,
  has_commands, check_hosts, local_command, is_remote, forwarding_local, tunnel_local, no_command,
  hosts_unread,
}
use x_cuter.Job.Visit as Pure
use x_cuter.Job.Visit.Stateful.{
  StatefulBuilder, append_to, add_outputs, retried, ignored, begin_host, add_client, guarded,
  begin_job,
}
use x_cuter.Job.Visit.Stateful as Stateful
use x_cuter.Job.{Output, Settings, Command, absent, command, Commands, no_more, child}
use x_cuter.Job.Visit.Stateful.Agree.{Agree, Agree-and_then, Related}

module _ {B T G T' G' D : Type 0} (R W : T → T' → Type 0) (Q : G → G' → Type 0) (b : Builder T G D)
    (b' : StatefulBuilder B T' G' D) (r : Related R W Q b b')
    (parse_duration : String → Option D) where
  -- With the outputs as they are and by cases.
  outputs-Related :
      (s : Settings) (out err : Option Output) (g : G) (group : B × G')
      → Q g group.1
      → let t = record s { stdout = out; stderr = err } in
        Q
          (b.append (b.append g (stdout_of parse_duration b t)) (stderr_of parse_duration b t))
          (add_outputs parse_duration b' t group).1
  outputs-Related s none none g group q = r.append _ _ _ _ (r.append _ _ _ _ q r.nil) r.nil
  outputs-Related s none (some x) g group q =
      r.append _ _ _ _ (r.append _ _ _ _ q r.nil) (r.stderr x group.0)
  outputs-Related s (some y) none g group q =
      r.append _ _ _ _ (r.append _ _ _ _ q (r.stdout y group.0)) r.nil
  outputs-Related s (some y) (some x) g group q =
      let out = r.stdout y group.0 in
      let first = r.append _ _ _ _ q out in
      elim (Bool-cases (str_eq x.file y.file)) [
        | inl f ↦ simp f (r.append _ _ _ _ first out)
        | inr f ↦ simp f (r.append _ _ _ _ first (r.stderr x (b'.stdout y group.0).0))
      ]

  add_outputs-Related :
      (s : Settings) (g : G) (group : B × G')
      → Q g group.1
      → Q
          (b.append (b.append g (stdout_of parse_duration b s)) (stderr_of parse_duration b s))
          (add_outputs parse_duration b' s group).1
  add_outputs-Related s g group q = outputs-Related s s.stdout s.stderr g group q

  pub add_timeout-Agree :
      (timeout : String) (g : G) (group : B × G')
      → Q g group.1
      → Agree Q
          (Pure.add_timeout parse_duration b timeout g)
          (Stateful.add_timeout parse_duration b' timeout group)
  unfolding Pure.add_timeout Stateful.add_timeout
  add_timeout-Agree timeout g group q = elim (Bool-cases (str_eq timeout "")) [
    | inl e ↦ rw e q
    | inr e ↦ rw e (elim (Option-cases (parse_duration timeout)) [
      | inl n ↦ rw n refl
      | inr (d, n) ↦ rw n (r.append _ _ _ _ q (r.timeout d group.0))
    ])
  ]

  flow_group-Agree :
      (flow : String) (st : B)
      → Agree Q
          (Pure.flow_group parse_duration b flow)
          (Stateful.flow_group parse_duration b' flow st)
  unfolding Pure.flow_group Stateful.flow_group
  flow_group-Agree flow st = elim (Bool-cases (str_eq flow "sequential")) [
    | inl e ↦ rw e (r.sequential st)
    | inr e ↦ rw e (elim (Bool-cases (str_eq flow "parallel")) [
      | inl p ↦ rw p (r.parallel st)
      | inr p ↦ rw p refl
    ])
  ]

  finish_command-Related :
      (s : Settings) (g : G) (group : B × G')
      → Q g group.1
      → W
          (Pure.finish_command parse_duration b s g)
          (Stateful.finish_command parse_duration b' s group).1
  unfolding Pure.finish_command Stateful.finish_command
  finish_command-Related s g group q =
      let bounded = r.context_bounds _ _ group.0 (r.wrap _ _ q) in
      elim (Bool-cases (ltb 1 s.retries)) [
        | inl n ↦
            let again =
              r.retry _ _ s.retries (b'.context_bounds (b'.wrap group.1) group.0).0 bounded in
            elim (Bool-cases s.ignore_error) [
              | inl i ↦ simp (n, i) (r.error_safeguard _ _ _ again)
              | inr i ↦ simp (n, i) again
            ]
        | inr n ↦ elim (Bool-cases s.ignore_error) [
          | inl i ↦ simp (n, i) (r.error_safeguard _ _ _ bounded)
          | inr i ↦ simp (n, i) bounded
        ]
      ]

  -- The part of a command that is none of the wrappers.
  leaf-Agree :
      (s : Settings) (cs : Commands) (st : B)
      → Agree R
          (if str_eq s.target "local"
            then built (b.local_command (command s cs))
            else built (b.command (command s cs)))
          (if str_eq s.target "local"
            then built (b'.local_command (command s cs) st)
            else built (b'.command (command s cs) st))
  leaf-Agree s cs st = elim (Bool-cases (str_eq s.target "local")) [
    | inl e ↦ simp e (r.local_command (command s cs) st)
    | inr e ↦ simp e (r.command (command s cs) st)
  ]

  -- What a command runs: itself, or its child commands, which agree by `each`.
  runs-Agree :
      (s : Settings) (cs : Commands) (st : B)
      → ((g : G) (group : B × G')
          → Q g group.1
          → Agree Q
              (Pure.visit_each parse_duration b g cs)
              (Stateful.visit_each parse_duration b' cs group))
      → Agree R
          (if not (str_eq s.command "")
            then (if str_eq s.target "local"
                then built (b.local_command (command s cs))
                else built (b.command (command s cs)))
            else if has_commands cs
            then (Pure.flow_group parse_duration b s.flow
                and_then (λ g. Pure.visit_each parse_duration b g cs))
              and_then (λ children. built (b.wrap children))
            else refused no_command)
          (if not (str_eq s.command "")
            then (if str_eq s.target "local"
                then built (b'.local_command (command s cs) st)
                else built (b'.command (command s cs) st))
            else if has_commands cs
            then (Stateful.flow_group parse_duration b' s.flow st
                and_then (λ (group : B × G'). Stateful.visit_each parse_duration b' cs group))
              and_then (λ group. built (group.0, b'.wrap group.1))
            else refused no_command)
  runs-Agree s cs st each = elim (Bool-cases (not (str_eq s.command ""))) [
    | inl c ↦ simp c (leaf-Agree s cs st)
    | inr c ↦ simp c (elim (Bool-cases (has_commands cs)) [
      | inr h ↦ simp h refl
      | inl h ↦ simp h (
          Agree-and_then Q R _ _ _ _ (Agree-and_then Q Q _ _ _ _ (flow_group-Agree s.flow st) each)
            (λ g group q. r.whole _ _ (r.wrap _ _ q)))
    ])
  ]

  mutual
    unfolding Pure.visit_command Stateful.visit_command

    command-Agree :
        (c : Command) (st : B)
        → Agree W
            (Pure.visit_command parse_duration b c)
            (Stateful.visit_command parse_duration b' c st)
    command-Agree absent st = tt
    command-Agree (command s cs) st =
        let begun = b'.commands (command s cs) st in
        elim (Bool-cases (not (str_eq s.command "") && has_commands cs)) [
          | inl e ↦ simp e refl
          | inr e ↦ simp e (
              Agree-and_then Q W _ _ _ _
                (add_timeout-Agree s.timeout _ _
                  (add_outputs-Related s _ begun (r.commands (command s cs) st)))
                (λ g timed q.
                  Agree-and_then R W _ _ _ _
                    (runs-Agree s cs timed.0 (λ g group q. each-Agree cs g group q))
                    (λ t cmds u.
                      finish_command-Related s _ (append_to parse_duration b' timed.1 cmds)
                        (r.append _ _ _ _ q u))))
        ]

    each-Agree :
        (cs : Commands) (g : G) (group : B × G')
        → Q g group.1
        → Agree Q
            (Pure.visit_each parse_duration b g cs)
            (Stateful.visit_each parse_duration b' cs group)
    each-Agree no_more g group q = q
    each-Agree (child c cs) g group q =
        Agree-and_then W Q _ _ _ _ (command-Agree c group.0) (λ t exec u.
          each-Agree cs (b.append g t) (append_to parse_duration b' group.1 exec)
            (r.append _ _ _ _ q (r.whole _ _ u)))

  pub visit_command-Agree :
      (c : Command) (st : B)
      → Agree W
          (Pure.visit_command parse_duration b c)
          (Stateful.visit_command parse_duration b' c st)
  visit_command-Agree c st = command-Agree c st
