-- ===== src/Telemetry/Same/Logged.antt =====
-- The steps that need a logger, with and without events.
use x_cuter.Common.{
  ℕ, ◌≡◌, refl, ap, Bool, true, false, Option, none, some, List, [], ◌∷◌, String, Option-cases,
  Bool-cases, inl, inr,
}
use text.Mathlib.Text.{◌==◌ as str_eq}
use x_cuter.Flunc.{passed, failed}
use x_cuter.Job.Tree.{
  words_failed, no_words, System, Context, Logger, timeout_step, scp_step, ssh_client_step,
  forwarding_step, tunnel_step, ended, command_step, local_command_step, redirect, stdout_step,
  stderr_step, text_of, writer_or,
}
use x_cuter.Job.{Output, Forwarding, ScpData, Command}
use x_cuter.Telemetry.Builder.{with_events}
use x_cuter.Telemetry.Same.{erase, forget, SameLogged}
use x_cuter.Telemetry.{Event}
use x_cuter.Telemetry.Same.Values.{
  require-forget, logger-forget, interpolated-forget, open_and_keep-forget,
}

module _ {S K W C D : Type 0} (sys : System S K W C D) (d : Logger W) where
  -- Steps that need a logger do the same when the context has one.
  pub timeout_step-SameLogged :
      (t : D) → SameLogged sys d (timeout_step sys t) (timeout_step (with_events sys) t)
  unfolding timeout_step
  timeout_step-SameLogged t ctx s events i = logger-forget sys d ctx.logger s events _ _ i refl

  pub scp_step-SameLogged :
      (scp : ScpData) → SameLogged sys d (scp_step sys scp) (scp_step (with_events sys) scp)
  unfolding scp_step
  scp_step-SameLogged scp ctx s events i =
      logger-forget sys d ctx.logger s events _ _ i (elim (Option-cases (sys.read_file scp.key s)) [
        | inl n ↦ simp n refl
        | inr (b, n) ↦ simp n refl
      ])

  pub ssh_client_step-SameLogged :
      (addr : String) (port : ℕ) (user key password : String) (interactive : List (String × String))
      → SameLogged sys d
          (ssh_client_step sys addr port user key password interactive)
          (ssh_client_step (with_events sys) addr port user key password interactive)
  unfolding ssh_client_step
  ssh_client_step-SameLogged addr port user key password interactive ctx s events i =
      logger-forget sys d ctx.logger s events _ _ i
        (elim (Option-cases (sys.dial ctx.token addr port user key password interactive s).1) [
          | inl n ↦ simp n refl
          | inr (c, n) ↦ simp n refl
        ])

  pub forwarding_step-SameLogged :
      (f : Forwarding)
      → SameLogged sys d (forwarding_step sys f) (forwarding_step (with_events sys) f)
  unfolding forwarding_step
  forwarding_step-SameLogged f ctx s events i =
      logger-forget sys d ctx.logger s events _ _ i
        (require-forget sys d ctx.ssh_client _ s events _ _ (λ c. refl))

  pub tunnel_step-SameLogged :
      (f : Forwarding) → SameLogged sys d (tunnel_step sys f) (tunnel_step (with_events sys) f)
  unfolding tunnel_step
  tunnel_step-SameLogged f ctx s events i =
      logger-forget sys d ctx.logger s events _ _ i
        (require-forget sys d ctx.ssh_client _ s events _ _ (λ c. refl))

  ended-forget :
      (t : S) (ok : Bool) (events : List Event)
      → forget d (ended (with_events sys) ((t, events), ok)) ≡ ended sys (t, ok)
  ended-forget t true events = refl
  ended-forget t false events = refl

  pub command_step-SameLogged :
      (cmd : Command) → SameLogged sys d (command_step sys cmd) (command_step (with_events sys) cmd)
  unfolding command_step
  command_step-SameLogged cmd ctx s events i = logger-forget sys d ctx.logger s events _ _ i (
      require-forget sys d ctx.ssh_client _ s events _ _ (λ c.
        require-forget sys d ctx.templating _ s events _ _ (λ engine.
          interpolated-forget sys d engine (text_of sys cmd) s events _ _ (λ line.
            let ran =
              sys.run_remote c ctx.token line (writer_or sys sys.os_stdout ctx.stdout)
                (writer_or sys sys.os_stderr ctx.stderr) s in
            ended-forget ran.0 ran.1 events))))

  -- What runs for the words of a line.
  words-forget :
      (ctx : Context K W C) (text line : String) (words : Option (List String)) (s : S)
      (events : List Event)
      → forget d (elim words [
        | none ↦ ((s, events), failed (words_failed text))
        | some parts ↦ elim parts [
          | [] ↦ ((s, events), failed (no_words line))
          | exe ∷ args ↦ ended (with_events sys) (
              (with_events sys).run_local ctx.token exe args
                (writer_or (with_events sys) sys.os_stdout ctx.stdout)
                (writer_or (with_events sys) sys.os_stderr ctx.stderr)
                (s, events))
        ]
      ])
        ≡ elim words [
          | none ↦ (s, failed (words_failed text))
          | some parts ↦ elim parts [
            | [] ↦ (s, failed (no_words line))
            | exe ∷ args ↦ ended sys (
                sys.run_local ctx.token exe args
                  (writer_or sys sys.os_stdout ctx.stdout)
                  (writer_or sys sys.os_stderr ctx.stderr)
                  s)
          ]
        ]
  words-forget ctx text line none s events = refl
  words-forget ctx text line (some []) s events = refl
  words-forget ctx text line (some (exe ∷ args)) s events =
      let ran =
        sys.run_local ctx.token exe args (writer_or sys sys.os_stdout ctx.stdout)
          (writer_or sys sys.os_stderr ctx.stderr) s in
      ended-forget ran.0 ran.1 events

  pub local_command_step-SameLogged :
      (cmd : Command)
      → SameLogged sys d (local_command_step sys cmd) (local_command_step (with_events sys) cmd)
  unfolding local_command_step
  local_command_step-SameLogged cmd ctx s events i = logger-forget sys d ctx.logger s events _ _ i (
      require-forget sys d ctx.templating _ s events _ _ (λ engine.
        interpolated-forget sys d engine (text_of sys cmd) s events _ _
          (λ line. words-forget ctx (text_of sys cmd) line (sys.shell_words line) s events)))

  redirect-SameLogged :
      (o : Output) (keep : Context K W C → W → Context K W C)
      → ((ctx : Context K W C) (w : W) → erase d (keep ctx w) ≡ keep (erase d ctx) w)
      → SameLogged sys d (redirect sys o keep) (redirect (with_events sys) o keep)
  unfolding redirect
  redirect-SameLogged o keep h ctx s events i = elim (Bool-cases (str_eq o.file "null")) [
    | inl e ↦ simp e (ap (λ c. (s, passed (some c))) (h ctx sys.discard))
    | inr e ↦ simp e (
        logger-forget sys d ctx.logger s events _ _ i (
          require-forget sys d ctx.templating _ s events _ _ (λ engine.
            interpolated-forget sys d engine o.file s events _ _
              (λ file. open_and_keep-forget sys d ctx o file o.file _ _ s events (h ctx)))))
  ]

  pub stdout_step-SameLogged :
      (o : Output) → SameLogged sys d (stdout_step sys o) (stdout_step (with_events sys) o)
  unfolding stdout_step
  stdout_step-SameLogged o =
      redirect-SameLogged o (λ ctx w. record ctx { stdout = some w }) (λ ctx w. refl)

  pub stderr_step-SameLogged :
      (o : Output) → SameLogged sys d (stderr_step sys o) (stderr_step (with_events sys) o)
  unfolding stderr_step
  stderr_step-SameLogged o =
      redirect-SameLogged o (λ ctx w. record ctx { stderr = some w }) (λ ctx w. refl)
