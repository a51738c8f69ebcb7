-- ===== src/Job/Tree/Keys.antt =====
-- Which values the functions of the execution tree need in their context, and which they leave.
use text.Mathlib.Text.{◌==◌ as str_eq}
use x_cuter.Common.{
  ℕ, Bool, true, false, Option, none, some, List, [], ◌∷◌, Option-cases, Bool-cases, inl, inr,
  String,
}
use x_cuter.Flunc.{Outcome, passed, failed}
use x_cuter.Job.Tree.{
  System, Context, TreeError, missing, child, Key, Step, require, interpolated, open_output_file,
  open_and_keep, Engine, ended, output_step, logger_step, timeout_step, scp_step, templating_step,
  ssh_client_step, forwarding_step, tunnel_step, command_step, local_command_step, redirect,
  stdout_step, stderr_step, text_of, output_key, logger_key, ssh_client_key, templating_key,
}
use x_cuter.Job.{Output, Host, Forwarding, ScpData, Command, Config}

-- The error is not that of a value that the context lacks.
unfoldable pub NotMissing : TreeError → Type 0
NotMissing (missing k) = ⊥
NotMissing (child i e) = NotMissing e
NotMissing _ = Unit

abbrev pub IsSome : {A : Type 0} → Option A → Type 0
IsSome none = ⊥
IsSome (some a) = Unit

abbrev pub HasClient : {C : Type 0} → Bool → Option C → Type 0
HasClient false c = Unit
HasClient true c = IsSome c

module _ {K W C : Type 0} where
  -- What the functions behind the loggers need: an SSH client if `client`.
  pub record Ready (client : Bool) (ctx : Context K W C) : Type 0 where
    pub output : IsSome ctx.output
    pub logger : IsSome ctx.logger
    pub templating : IsSome ctx.templating
    pub client_ready : HasClient client ctx.ssh_client

  -- The two stages before.
  abbrev pub Anywhere : Context K W C → Type 0
  Anywhere ctx = Unit

  abbrev pub HasEngine : Context K W C → Type 0
  HasEngine ctx = IsSome ctx.templating

  abbrev pub HasOutput : Context K W C → Type 0
  HasOutput ctx = IsSome ctx.templating × IsSome ctx.output

module _ {S K W C D : Type 0} (sys : System S K W C D) where
  -- The context that is passed on satisfies `Q`, or the error is not a value that is missing.
  abbrev pub Post :
      (Context K W C → Type 0) → Context K W C → Outcome (Context K W C) TreeError → Type 0
  Post Q ctx (passed none) = Q ctx
  Post Q ctx (passed (some c)) = Q c
  Post Q ctx (failed e) = NotMissing e

  abbrev pub Safe : (Context K W C → Type 0) → Step sys → (Context K W C → Type 0) → Type 0
  Safe P f Q = (ctx : Context K W C) (s : S) → P ctx → Post Q ctx (f ctx s).1

  require-Post :
      {A : Type 0} (Q : Context K W C → Type 0) (ctx : Context K W C) (o : Option A) (k : Key)
      (s : S) (next : A → S × Outcome (Context K W C) TreeError)
      → IsSome o
      → ((a : A) → Post Q ctx (next a).1)
      → Post Q ctx (require sys o k s next).1
  require-Post Q ctx none k s next h go = elim h [ ]
  require-Post Q ctx (some a) k s next h go = go a

  interpolated-Post :
      (Q : Context K W C → Type 0) (ctx : Context K W C) (engine : Engine) (text : String) (s : S)
      (next : String → S × Outcome (Context K W C) TreeError)
      → ((a : String) → Post Q ctx (next a).1)
      → Post Q ctx (interpolated sys engine text s next).1
  unfolding interpolated NotMissing
  interpolated-Post Q ctx engine text s next go =
      elim (Option-cases (sys.interpolate engine.config engine.host text s)) [
        | inl n ↦ rw (n, interpolated) tt
        | inr (a, n) ↦ rw (n, interpolated) (go a)
      ]

  open_and_keep-Post :
      (Q : Context K W C → Type 0) (ctx : Context K W C) (o : Output) (file name : String)
      (keep : W → Context K W C) (s : S)
      → ((f : W) → Q (keep f))
      → Post Q ctx (open_and_keep sys ctx o file name keep s).1
  unfolding open_and_keep NotMissing
  open_and_keep-Post Q ctx o file name keep s h =
      elim (Option-cases (open_output_file sys file o.raw o.overwrite s).1) [
        | inl n ↦ rw (n, open_and_keep) tt
        | inr (f, n) ↦ rw (n, open_and_keep) (h f)
      ]

  pub scp_step-Safe :
      (client : Bool) (scp : ScpData) → Safe (Ready client) (scp_step sys scp) (Ready client)
  unfolding scp_step NotMissing
  scp_step-Safe client scp ctx s h =
      require-Post (Ready client) ctx ctx.logger logger_key s _ h.logger (λ l.
        elim (Option-cases (sys.read_file scp.key s)) [ inl n ↦ rw n tt | inr (b, n) ↦ rw n h ])

  ended-Post :
      (Q : Context K W C → Type 0) (ctx : Context K W C) (r : S × Bool)
      → Q ctx
      → Post Q ctx (ended sys r).1
  unfolding NotMissing
  ended-Post Q ctx (t, true) h = h
  ended-Post Q ctx (t, false) h = tt

  -- The templating engine, the output and the job's logger, in this order.
  pub templating_step-Safe :
      (c : Config) (h : Option Host) → Safe Anywhere (templating_step sys c h) HasEngine
  unfolding templating_step
  templating_step-Safe c h ctx s p = tt

  pub output_step-Safe : (o : Option Output) → Safe HasEngine (output_step sys o) HasOutput
  unfolding output_step
  output_step-Safe o ctx s h = elim (Option-cases ctx.output) [
    | inr (w, n) ↦ rw (n, output_step) (h, rw n tt)
    | inl n ↦
        simp (n, output_step)
          (elim (Option-cases o) [
            | inl e ↦ rw e (h, tt)
            | inr (out, e) ↦ rw e (
                require-Post HasOutput ctx ctx.templating templating_key s _ h (λ engine.
                  interpolated-Post HasOutput ctx engine out.file s _ (λ file.
                    open_and_keep-Post HasOutput ctx out file file
                      (λ f. record ctx { output = some f }) s (λ f. (h, tt)))))
          ])
  ]

  pub job_logger-Safe : (name : String) → Safe HasOutput (logger_step sys name none) (Ready false)
  unfolding logger_step
  job_logger-Safe name ctx s h =
      require-Post (Ready false) ctx ctx.output output_key s _ h.1
        (λ w. record { output = h.1; logger = tt; templating = h.0; client_ready = tt })

  -- The other functions, behind these.
  pub host_logger-Safe :
      (client : Bool) (name : String) (h : Option Host)
      → Safe (Ready client) (logger_step sys name h) (Ready client)
  unfolding logger_step
  host_logger-Safe client name host ctx s h =
      require-Post (Ready client) ctx ctx.output output_key s _ h.output (λ w. record {
        output = h.output;
        logger = tt;
        templating = h.templating;
        client_ready = h.client_ready;
      })

  pub host_templating-Safe :
      (client : Bool) (c : Config) (h : Option Host)
      → Safe (Ready client) (templating_step sys c h) (Ready client)
  unfolding templating_step
  host_templating-Safe client c host ctx s h = record {
    output = h.output;
    logger = h.logger;
    templating = tt;
    client_ready = h.client_ready;
  }

  pub timeout_step-Safe :
      (client : Bool) (d : D) → Safe (Ready client) (timeout_step sys d) (Ready client)
  unfolding timeout_step
  timeout_step-Safe client d ctx s h =
      require-Post (Ready client) ctx ctx.logger logger_key s _ h.logger (λ l. record {
        output = h.output;
        logger = h.logger;
        templating = h.templating;
        client_ready = h.client_ready;
      })

  pub ssh_client_step-Safe :
      (addr : String) (port : ℕ) (user key_file password : String)
      (interactive : List (String × String))
      → Safe
          (Ready false)
          (ssh_client_step sys addr port user key_file password interactive)
          (Ready true)
  unfolding ssh_client_step NotMissing
  ssh_client_step-Safe addr port user key_file password interactive ctx s h =
      require-Post (Ready true) ctx ctx.logger logger_key s _ h.logger (λ l.
        elim (Option-cases (sys.dial ctx.token addr port user key_file password interactive s).1) [
          | inl n ↦ rw n tt
          | inr (c, n) ↦ rw n (record {
            output = h.output;
            logger = h.logger;
            templating = h.templating;
            client_ready = tt;
          })
        ])

  pub forwarding_step-Safe :
      (f : Forwarding) → Safe (Ready true) (forwarding_step sys f) (Ready true)
  unfolding forwarding_step
  forwarding_step-Safe f ctx s h =
      require-Post (Ready true) ctx ctx.logger logger_key s _ h.logger (λ l.
        require-Post (Ready true) ctx ctx.ssh_client ssh_client_key s _ h.client_ready (λ c. h))

  pub tunnel_step-Safe : (f : Forwarding) → Safe (Ready true) (tunnel_step sys f) (Ready true)
  unfolding tunnel_step
  tunnel_step-Safe f ctx s h =
      require-Post (Ready true) ctx ctx.logger logger_key s _ h.logger (λ l.
        require-Post (Ready true) ctx ctx.ssh_client ssh_client_key s _ h.client_ready (λ c. h))

  pub command_step-Safe : (cmd : Command) → Safe (Ready true) (command_step sys cmd) (Ready true)
  unfolding command_step
  command_step-Safe cmd ctx s h =
      require-Post (Ready true) ctx ctx.logger logger_key s _ h.logger (λ l.
        require-Post (Ready true) ctx ctx.ssh_client ssh_client_key s _ h.client_ready (λ c.
          require-Post (Ready true) ctx ctx.templating templating_key s _ h.templating (λ engine.
            interpolated-Post (Ready true) ctx engine (text_of sys cmd) s _
              (λ line. ended-Post (Ready true) ctx _ h))))

  pub local_command_step-Safe :
      (client : Bool) (cmd : Command)
      → Safe (Ready client) (local_command_step sys cmd) (Ready client)
  unfolding local_command_step NotMissing
  local_command_step-Safe client cmd ctx s h =
      require-Post (Ready client) ctx ctx.logger logger_key s _ h.logger (λ l.
        require-Post (Ready client) ctx ctx.templating templating_key s _ h.templating (λ engine.
          interpolated-Post (Ready client) ctx engine (text_of sys cmd) s _ (λ line.
            elim (Option-cases (sys.shell_words line)) [
              | inl n ↦ rw n tt
              | inr ([], n) ↦ rw n tt
              | inr (exe ∷ args, n) ↦ rw n (ended-Post (Ready client) ctx _ h)
            ])))

  redirect-Safe :
      (client : Bool) (o : Output) (keep : Context K W C → W → Context K W C)
      → ((ctx : Context K W C) (w : W) → Ready client ctx → Ready client (keep ctx w))
      → Safe (Ready client) (redirect sys o keep) (Ready client)
  unfolding redirect
  redirect-Safe client o keep keeps ctx s h = elim (Bool-cases (str_eq o.file "null")) [
    | inl e ↦ rw (e, redirect) (keeps ctx sys.discard h)
    | inr e ↦
        rw (e, redirect)
          (require-Post (Ready client) ctx ctx.logger logger_key s _ h.logger (λ l.
            require-Post (Ready client) ctx ctx.templating templating_key s _ h.templating
              (λ engine. interpolated-Post (Ready client) ctx engine o.file s _ (λ file.
                open_and_keep-Post (Ready client) ctx o file o.file (keep ctx) s
                  (λ f. keeps ctx f h)))))
  ]

  pub stdout_step-Safe :
      (client : Bool) (o : Output) → Safe (Ready client) (stdout_step sys o) (Ready client)
  unfolding stdout_step
  stdout_step-Safe client o =
      redirect-Safe client o (λ ctx w. record ctx { stdout = some w })
        (λ ctx w h. record {
          output = h.output;
          logger = h.logger;
          templating = h.templating;
          client_ready = h.client_ready;
        })

  pub stderr_step-Safe :
      (client : Bool) (o : Output) → Safe (Ready client) (stderr_step sys o) (Ready client)
  unfolding stderr_step
  stderr_step-Safe client o =
      redirect-Safe client o (λ ctx w. record ctx { stderr = some w })
        (λ ctx w h. record {
          output = h.output;
          logger = h.logger;
          templating = h.templating;
          client_ready = h.client_ready;
        })
