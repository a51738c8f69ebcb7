-- ===== src/Job/Tree/Meets/Commands.antt =====
-- Commands in the execution tree.
use text.Mathlib.Text.{◌==◌ as str_eq}
use x_cuter.Common.{
  ◌≡◌, Bool, true, false, not, ◌&&◌, ltb, Option, Option-cases, Bool-cases, inl, inr, if◌then◌else◌,
  String,
}
use x_cuter.Flunc.Parallel.{Goroutines}
use x_cuter.Flunc.{error_safeguard, context_bounds, retry}
use x_cuter.Job.Tree.Builder.{ExecutionGroup, tree_contexts, append_flunc, tree_builder, wrap_group}
use x_cuter.Job.Tree.Combine.{context_bounds-Safe, error_safeguard-Steady, retry-Steady}
use x_cuter.Job.Tree.Keys.{
  Ready, stdout_step-Safe, stderr_step-Safe, timeout_step-Safe, command_step-Safe,
  local_command_step-Safe,
}
use x_cuter.Job.Tree.Meets.Groups.{
  PartSteady, GroupSteady, empty-GroupSteady, append_flunc-GroupSteady, wrap_group-PartSteady,
  around-PartSteady,
}
use x_cuter.Job.Tree.Meets.Remote.{Enough, EnoughAll, Enough-child, Enough-commands, Enough-remote}
use x_cuter.Job.Tree.{System, TreeError, Step}
use x_cuter.Job.Visit.Holds.{Holds, Holds-and_then}
use x_cuter.Job.Visit.{
  Visited, built, refused, ◌and_then◌, stdout_of, stderr_of, add_timeout, flow_group,
  finish_command, visit_command, visit_each, has_commands, no_command,
}
use x_cuter.Job.{Settings, Command, absent, command, Commands, no_more, child}

module _ {S K W C D : Type 0} (sys : System S K W C D) (go : Goroutines S TreeError)
    (parse_duration : String → Option D) (client : Bool) where
  stdout_of-PartSteady :
      (s : Settings) → PartSteady sys go client (stdout_of parse_duration (tree_builder sys go) s)
  stdout_of-PartSteady s = elim (Option-cases s.stdout) [
    | inl n ↦ rw n tt
    | inr (o, n) ↦ rw n (stdout_step-Safe sys client o)
  ]

  stderr_of-PartSteady :
      (s : Settings) → PartSteady sys go client (stderr_of parse_duration (tree_builder sys go) s)
  stderr_of-PartSteady s = elim (Option-cases s.stderr) [
    | inl n ↦ rw n tt
    | inr (e, n) ↦ rw n (elim (Option-cases s.stdout) [
      | inl m ↦ rw m (stderr_step-Safe sys client e)
      | inr (o, m) ↦ rw m (elim (Bool-cases (str_eq e.file o.file)) [
        | inl same ↦ rw same (stdout_step-Safe sys client o)
        | inr other ↦ rw other (stderr_step-Safe sys client e)
      ])
    ])
  ]

  pub add_timeout-GroupSteady :
      (timeout : String) (g : ExecutionGroup (Step sys))
      → GroupSteady sys go client g
      → Holds
          (GroupSteady sys go client)
          (add_timeout parse_duration (tree_builder sys go) timeout g)
  unfolding add_timeout
  add_timeout-GroupSteady timeout g h = elim (Bool-cases (str_eq timeout "")) [
    | inl e ↦ rw (e, add_timeout) h
    | inr e ↦
        rw (e, add_timeout)
          (elim (Option-cases (parse_duration timeout)) [
            | inl n ↦ rw n tt
            | inr (d, n) ↦ rw n (
                append_flunc-GroupSteady sys go client g ((tree_builder sys go).timeout d) h
                  (timeout_step-Safe sys client d))
          ])
  ]

  flow_group-GroupSteady :
      (flow : String)
      → Holds (GroupSteady sys go client) (flow_group parse_duration (tree_builder sys go) flow)
  unfolding flow_group
  flow_group-GroupSteady flow = elim (Bool-cases (str_eq flow "sequential")) [
    | inl e ↦ rw (e, flow_group) (empty-GroupSteady sys go client false)
    | inr e ↦
        rw (e, flow_group)
          (elim (Bool-cases (str_eq flow "parallel")) [
            | inl f ↦ rw f (empty-GroupSteady sys go client true)
            | inr f ↦ rw f tt
          ])
  ]

  guarded-PartSteady :
      (ignore : Bool) (t : Option (Step sys))
      → PartSteady sys go client t
      → PartSteady sys go client (if ignore then (tree_builder sys go).error_safeguard t else t)
  guarded-PartSteady true t h =
      around-PartSteady sys go client (error_safeguard (tree_contexts sys go)) t
        (error_safeguard-Steady sys go client) h
  guarded-PartSteady false t h = h

  finish_command-PartSteady :
      (s : Settings) (g : ExecutionGroup (Step sys))
      → GroupSteady sys go client g
      → PartSteady sys go client (finish_command parse_duration (tree_builder sys go) s g)
  unfolding finish_command
  finish_command-PartSteady s g h =
      let whole = wrap_group sys go g in
      let inner = (tree_builder sys go).context_bounds whole in
      let bounded =
        around-PartSteady sys go client (context_bounds (tree_contexts sys go)) whole
          (context_bounds-Safe sys go client (Ready client))
          (wrap_group-PartSteady sys go client g h) in
      elim (Bool-cases (ltb 1 s.retries)) [
        | inl r ↦ rw r (
            guarded-PartSteady s.ignore_error ((tree_builder sys go).retry inner s.retries) (
              around-PartSteady sys go client (λ f. retry (tree_contexts sys go) f s.retries) inner
                (λ f k. retry-Steady sys go client f s.retries k) bounded))
        | inr r ↦ rw r (guarded-PartSteady s.ignore_error inner bounded)
      ]

  -- The group of a command when its output is redirected.
  redirected-GroupSteady :
      (s : Settings) (cs : Commands)
      → GroupSteady sys go client (
          append_flunc sys go
            (append_flunc sys go
              ((tree_builder sys go).commands (command s cs))
              (stdout_of parse_duration (tree_builder sys go) s))
            (stderr_of parse_duration (tree_builder sys go) s))
  redirected-GroupSteady s cs =
      let begun = (tree_builder sys go).commands (command s cs) in
      let out = stdout_of parse_duration (tree_builder sys go) s in
      let err = stderr_of parse_duration (tree_builder sys go) s in
      append_flunc-GroupSteady sys go client (append_flunc sys go begun out) err
        (append_flunc-GroupSteady sys go client begun out (empty-GroupSteady sys go client false)
          (stdout_of-PartSteady s))
        (stderr_of-PartSteady s)

  -- What stands in the group of a command: a single one, here or on the host.
  single-PartSteady :
      (s : Settings) (cs : Commands)
      → Enough client (command s cs)
      → str_eq s.command "" ≡ false
      → Holds (PartSteady sys go client) (
          if str_eq s.target "local"
          then built ((tree_builder sys go).local_command (command s cs))
          else built ((tree_builder sys go).command (command s cs)))
  single-PartSteady s cs h e = elim (Bool-cases (str_eq s.target "local")) [
    | inl t ↦ rw t (local_command_step-Safe sys client (command s cs))
    | inr t ↦ rw (t, Enough-remote client s cs h e t) (command_step-Safe sys (command s cs))
  ]

  -- What stands in the group of a command, the child commands being visited.
  contents-PartSteady :
      (s : Settings) (cs : Commands) (children : Visited (ExecutionGroup (Step sys)))
      → Enough client (command s cs)
      → Holds (GroupSteady sys go client) children
      → Holds (PartSteady sys go client) (
          if not (str_eq s.command "")
          then (if str_eq s.target "local"
              then built ((tree_builder sys go).local_command (command s cs))
              else built ((tree_builder sys go).command (command s cs)))
          else if has_commands cs
          then children and_then (λ g. built ((tree_builder sys go).wrap g))
          else refused no_command)
  contents-PartSteady s cs children h k = elim (Bool-cases (str_eq s.command "")) [
    | inr e ↦ rw e (single-PartSteady s cs h e)
    | inl e ↦ rw e (elim (Bool-cases (has_commands cs)) [
      | inr n ↦ rw n tt
      | inl n ↦ rw n (
          Holds-and_then (GroupSteady sys go client) (PartSteady sys go client) children
            (λ g. built (wrap_group sys go g)) k (λ g k'. wrap_group-PartSteady sys go client g k'))
    ])
  ]

  whole-PartSteady :
      (s : Settings) (cs : Commands) (contents : Visited (Option (Step sys)))
      → Holds (PartSteady sys go client) contents
      → Holds (PartSteady sys go client) (
          add_timeout parse_duration (tree_builder sys go) s.timeout (
            append_flunc sys go
              (append_flunc sys go
                ((tree_builder sys go).commands (command s cs))
                (stdout_of parse_duration (tree_builder sys go) s))
              (stderr_of parse_duration (tree_builder sys go) s))
          and_then (λ g. contents and_then (λ cmds. built (
              finish_command parse_duration (tree_builder sys go) s (append_flunc sys go g cmds)))))
  whole-PartSteady s cs contents h =
      Holds-and_then (GroupSteady sys go client) (PartSteady sys go client) _ _
        (add_timeout-GroupSteady s.timeout _ (redirected-GroupSteady s cs))
        (λ g k.
          Holds-and_then (PartSteady sys go client) (PartSteady sys go client) contents _ h
            (λ cmds p.
              finish_command-PartSteady s (append_flunc sys go g cmds)
                (append_flunc-GroupSteady sys go client g cmds k p)))

  mutual
    unfolding visit_command

    pub visit_command-PartSteady :
        (c : Command)
        → Enough client c
        → Holds (PartSteady sys go client) (visit_command parse_duration (tree_builder sys go) c)
    visit_command-PartSteady absent h = tt
    visit_command-PartSteady (command s cs) h =
        elim (Bool-cases (not (str_eq s.command "") && has_commands cs)) [
          | inl b ↦ rw b tt
          | inr b ↦ rw b (
              whole-PartSteady s cs _ (
                contents-PartSteady s cs _ h (
                  Holds-and_then (GroupSteady sys go client) (GroupSteady sys go client) _ _
                    (flow_group-GroupSteady s.flow)
                    (λ g k. visit_each-GroupSteady g cs (Enough-commands client s cs h) k))))
        ]

    visit_each-GroupSteady :
        (g : ExecutionGroup (Step sys)) (cs : Commands)
        → EnoughAll client cs
        → GroupSteady sys go client g
        → Holds (GroupSteady sys go client) (visit_each parse_duration (tree_builder sys go) g cs)
    visit_each-GroupSteady g no_more h k = k
    visit_each-GroupSteady g (child c cs) h k =
        let (own, others) = Enough-child client c cs h in
        Holds-and_then (PartSteady sys go client) (GroupSteady sys go client) _ _
          (visit_command-PartSteady c own)
          (λ exec p.
            visit_each-GroupSteady (append_flunc sys go g exec) cs others
              (append_flunc-GroupSteady sys go client g exec k p))
