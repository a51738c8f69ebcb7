-- ===== src/Job/Visit/Local.antt =====
-- `localCommand` of configVisitor.go: what the visitor makes of a command that runs locally only.
use text.Mathlib.Text.{◌==◌ as str_eq}
use x_cuter.Common.{◌≡◌, refl, ap, true, Option, String, inl, inr, Bool-cases}
use x_cuter.Job.{Command, absent, command, Commands, no_more, child}
use x_cuter.Job.Visit.Holds.{Holds, Holds-and_then, and_then-cong, and_then_ext}
use x_cuter.Job.Visit.{
  Builder, built, ◌and_then◌, local_command, local_commands, visit_command, visit_each, add_timeout,
  flow_group, finish_command, stdout_of, stderr_of,
}

-- No command of the tree but is there, has the local target and has no timeout.
unfoldable mutual
  pub IsLocal : Command → Type 0
  IsLocal absent = ⊥
  IsLocal (command s cs) =
      (str_eq s.target "local" ≡ true) × (str_eq s.timeout "" ≡ true) × AllLocal cs

  pub AllLocal : Commands → Type 0
  AllLocal no_more = Unit
  AllLocal (child c cs) = IsLocal c × AllLocal cs

mutual
  unfolding local_command IsLocal

  pub local_command-IsLocal : (c : Command) → Holds IsLocal (local_command c)
  local_command-IsLocal absent = tt
  local_command-IsLocal (command s cs) =
      Holds-and_then AllLocal IsLocal (local_commands cs) _ (local_commands-AllLocal cs)
        (λ locals h. (refl, refl, h))

  local_commands-AllLocal : (cs : Commands) → Holds AllLocal (local_commands cs)
  local_commands-AllLocal no_more = tt
  local_commands-AllLocal (child c cs) =
      Holds-and_then IsLocal AllLocal (local_command c) _ (local_command-IsLocal c) (λ l h.
        Holds-and_then AllLocal AllLocal (local_commands cs) _ (local_commands-AllLocal cs)
          (λ ls k. (h, k)))

module _ {T G D : Type 0} (parse_duration : String → Option D) where
  -- A builder with other parts for a remote command and for a timeout.
  abbrev pub rebuilt : Builder T G D → (Command → T) → (D → T) → Builder T G D
  rebuilt b remote limit = record b { command = remote; timeout = limit }

  add_timeout_none :
      (b : Builder T G D) (timeout : String) (g : G)
      → str_eq timeout "" ≡ true
      → add_timeout parse_duration b timeout g ≡ built g
  unfolding add_timeout
  add_timeout_none b timeout g h = rw (h, add_timeout) refl

  module _ (b : Builder T G D) (remote : Command → T) (limit : D → T) where
    mutual
      unfolding visit_command IsLocal flow_group finish_command

      visit_command-IsLocal :
          (c : Command)
          → IsLocal c
          → visit_command parse_duration b c
            ≡ visit_command parse_duration (rebuilt b remote limit) c
      visit_command-IsLocal absent h = refl
      visit_command-IsLocal (command s no_more) (target, timeout, below) =
          let ours = λ (g : G). add_timeout_none b s.timeout g timeout in
          let theirs = λ (g : G). add_timeout_none (rebuilt b remote limit) s.timeout g timeout in
          elim (Bool-cases (str_eq s.command "")) [
            | inl e ↦ rw (e, ours, theirs) refl
            | inr e ↦ rw (e, ours, theirs, target) refl
          ]
      visit_command-IsLocal (command s (child c cs)) (target, timeout, below) =
          let ours = λ (g : G). add_timeout_none b s.timeout g timeout in
          let theirs = λ (g : G). add_timeout_none (rebuilt b remote limit) s.timeout g timeout in
          elim (Bool-cases (str_eq s.command "")) [
            | inl e ↦
                rw (e, ours, theirs)
                  (ap
                    (λ v. (v and_then (λ children. built (b.wrap children))) and_then (λ cmds.
                      built (
                        finish_command parse_duration b s (
                          b.append
                            (b.append
                              (b.append (b.commands (command s (child c cs)))
                                (stdout_of parse_duration b s))
                              (stderr_of parse_duration b s))
                            cmds))))
                    (and_then_ext (flow_group parse_duration b s.flow) _ _
                      (λ g. visit_each-AllLocal g (child c cs) below)))
            | inr e ↦ rw e refl
          ]

      visit_each-AllLocal :
          (g : G) (cs : Commands)
          → AllLocal cs
          → visit_each parse_duration b g cs
            ≡ visit_each parse_duration (rebuilt b remote limit) g cs
      visit_each-AllLocal g no_more h = refl
      visit_each-AllLocal g (child c cs) (h, k) = rw (visit_command-IsLocal c h) (
          and_then_ext (visit_command parse_duration (rebuilt b remote limit) c) _ _
            (λ exec. visit_each-AllLocal (b.append g exec) cs k))

    -- A command made local, as those before and behind the job's are, gives what it gives with any
    -- other builder for remote commands and for timeouts: no part of it is remote, and none sets a
    -- timeout, whatever the targets and the timeouts of the command and of those below it are.
    pub visit_command-local_command :
        (c : Command)
        → (local_command c and_then visit_command parse_duration b)
          ≡ (local_command c and_then visit_command parse_duration (rebuilt b remote limit))
    visit_command-local_command c =
        and_then-cong IsLocal (local_command c) _ _ (local_command-IsLocal c)
          (λ l h. visit_command-IsLocal l h)
