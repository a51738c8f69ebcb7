-- ===== src/Job/Tree.antt =====
-- The execution tree of job/executionTree.go: the functions that the ExecutionTreeBuilder makes of
-- the steps of a job. What they print on loggers is left out.
pub mod Builder
pub mod Keys
pub mod Combine
pub mod Meets
use text.Mathlib.Text.{◌==◌ as str_eq}
use x_cuter.Common.{ℕ, Bool, true, false, Option, none, some, List, [], ◌∷◌, if◌then◌else◌, String}
use x_cuter.Flunc.{Outcome, passed, failed, Flunc}
use x_cuter.Logging.{NodeLogger, plain}
use x_cuter.Job.{Output, Host, Forwarding, ScpData, Settings, Command, absent, command, Config}

-- The keys of configVisitor.go under which a context holds values.
pub data Key : Type 0 where
  output_key logger_key ssh_client_key templating_key : Key

pub data ContextError : Type 0 where
  canceled deadline_exceeded : ContextError

-- The errors of the functions, one constructor for each message; the step is told by its message.
pub data TreeError : Type 0 where
  -- "error while setting up ...: no %s available"
  missing : Key → TreeError
  context_error : ContextError → TreeError
  template_failed open_failed key_unread : String → TreeError
  -- "error parsing command line %s", and a command line without a word, where `parts[0]` panics
  words_failed no_words : String → TreeError
  ssh_failed command_failed : TreeError
  -- "... flunc, child %d failed"
  child : ℕ → TreeError → TreeError

-- What the functions use of other packages, over a world `S`: `K` are the cancellation parts of
-- contexts, `W` writers, `C` SSH clients and `D` durations.
pub record System (S K W C D : Type 0) : Type 0 where
  pub done : K → S → Option ContextError
  pub with_cancel : K → S → S × K
  pub with_timeout : K → D → S → S × K
  pub cancel : K → S → S
  pub os_stdout : W
  pub os_stderr : W
  pub discard : W
  -- `os.OpenFile` for writing, its flag being whether the file is truncated; the banner; and the
  -- goroutine that closes the file when the context is done
  pub open_file : String → Bool → S → S × Option W
  pub banner : W → S → S
  pub close_when_done : K → W → S → S
  -- package text/template, on the configuration and the host of the engine
  pub interpolate : Config → Option Host → String → S → Option String
  pub read_file : String → S → Option String
  -- `doSCP`, whose error the caller drops
  pub serve_scp : K → String → String → ℕ → Bool → S → S
  -- `newSSHClient`, and the methods of a client; `run_remote` gives whether there is no error
  pub dial : K → String → ℕ → String → String → String → List (String × String) → S → S × Option C
  pub forward_remote : C → K → Forwarding → S → S
  pub forward_local : C → K → Forwarding → S → S
  pub run_remote : C → K → String → W → W → S → S × Bool
  -- package shellwords, and package os/exec on the program and its arguments
  pub shell_words : String → Option (List String)
  pub run_local : K → String → List String → W → W → S → S × Bool

-- A `TemplatingEngine`: its configuration and its host, which may be nil.
pub record Engine : Type 0 where
  pub config : Config
  pub host : Option Host

-- The loggers are told apart by their writer and what they prefix.
pub record Logger (W : Type 0) : Type 0 where
  pub writer : W
  pub job_name : String
  pub host : Option Host

-- A context: when it is done, and its values.
pub record Context (K W C : Type 0) : Type 0 where
  pub token : K
  pub output : Option W
  pub logger : Option (NodeLogger (Logger W))
  pub ssh_client : Option C
  pub templating : Option Engine
  pub stdout : Option W
  pub stderr : Option W

module _ {S K W C D : Type 0} (sys : System S K W C D) where
  abbrev pub Step : Type 0
  Step = Flunc S (Context K W C) TreeError

  -- A value of the context, or the error that there is none.
  abbrev pub require :
      {A : Type 0}
      → Option A
      → Key
      → S
      → (A → S × Outcome (Context K W C) TreeError)
      → S × Outcome (Context K W C) TreeError
  require none key s next = (s, failed (missing key))
  require (some a) key s next = next a

  -- `Interpolate` and the test of its error.
  unfoldable pub interpolated :
      Engine
      → String
      → S
      → (String → S × Outcome (Context K W C) TreeError)
      → S × Outcome (Context K W C) TreeError
  interpolated engine text s next = elim (sys.interpolate engine.config engine.host text s) [
    | none ↦ (s, failed (template_failed text))
    | some result ↦ next result
  ]

  -- `openOutputFile`
  unfoldable pub open_output_file : String → Bool → Bool → S → S × Option W
  open_output_file file raw overwrite s =
      let (t, opened) = sys.open_file file overwrite s in
      elim opened [ none ↦ (t, none) | some f ↦ (if raw then t else sys.banner f t, some f) ]

  -- The file of an output, opened, with `keep` the context that holds it, and closed with `ctx`;
  -- an error says `name`.
  unfoldable pub open_and_keep :
      Context K W C
      → Output
      → String
      → String
      → (W → Context K W C)
      → S
      → S × Outcome (Context K W C) TreeError
  open_and_keep ctx o file name keep s =
      let (t, opened) = open_output_file file o.raw o.overwrite s in
      elim opened [
        | none ↦ (t, failed (open_failed name))
        | some f ↦ (sys.close_when_done ctx.token f t, passed (some (keep f)))
      ]

  -- `Output`
  unfoldable pub output_step : Option Output → Step
  output_step o ctx s = elim ctx.output [
    | some w ↦ (s, passed (some ctx))
    | none ↦ elim o [
      | none ↦ (s, passed (some (record ctx { output = some sys.os_stdout })))
      | some out ↦ require ctx.templating templating_key s (λ engine.
          interpolated engine out.file s
            (λ file. open_and_keep ctx out file file (λ f. record ctx { output = some f }) s))
    ]
  ]

  -- `JobLogger` and `HostLogger`, the host of the latter being not nil
  unfoldable pub logger_step : String → Option Host → Step
  logger_step job_name host ctx s = require ctx.output output_key s (λ w. (
    s,
    passed (
        some (record ctx {
          logger = some (plain (record { writer = w; job_name = job_name; host = host }));
        })),
  ))

  -- `Timeout`
  unfoldable pub timeout_step : D → Step
  timeout_step timeout ctx s = require ctx.logger logger_key s (λ l.
      let (t, k) = sys.with_timeout ctx.token timeout s in
      (t, passed (some (record ctx { token = k }))))

  -- `SCP`
  unfoldable pub scp_step : ScpData → Step
  scp_step scp ctx s = require ctx.logger logger_key s (λ l. elim (sys.read_file scp.key s) [
    | none ↦ (s, failed (key_unread scp.key))
    | some b ↦ (sys.serve_scp ctx.token b scp.addr scp.port scp.verbose s, passed none)
  ])

  -- `Templating`
  unfoldable pub templating_step : Config → Option Host → Step
  templating_step c h ctx s =
      (s, passed (some (record ctx { templating = some (record { config = c; host = h }) })))

  -- `SSHClient`
  unfoldable pub ssh_client_step :
      String → ℕ → String → String → String → List (String × String) → Step
  ssh_client_step addr port user key_file password interactive ctx s =
      require ctx.logger logger_key s (λ l.
        let (t, client) = sys.dial ctx.token addr port user key_file password interactive s in
        elim client [
          | none ↦ (t, failed ssh_failed)
          | some c ↦ (t, passed (some (record ctx { ssh_client = some c })))
        ])

  -- `Forwarding`
  unfoldable pub forwarding_step : Forwarding → Step
  forwarding_step f ctx s = require ctx.logger logger_key s (λ l.
      require ctx.ssh_client ssh_client_key s
        (λ c. (sys.forward_remote c ctx.token f s, passed none)))

  -- `Tunnel`
  unfoldable pub tunnel_step : Forwarding → Step
  tunnel_step f ctx s = require ctx.logger logger_key s (λ l.
      require ctx.ssh_client ssh_client_key s
        (λ c. (sys.forward_local c ctx.token f s, passed none)))

  -- The writer of a context, or that of the process.
  abbrev pub writer_or : W → Option W → W
  writer_or default none = default
  writer_or default (some w) = w

  -- `cmd.Command`; the builder's methods are not called on nil.
  abbrev pub text_of : Command → String
  text_of absent = ""
  text_of (command s cs) = s.command

  abbrev pub ended : S × Bool → S × Outcome (Context K W C) TreeError
  ended (t, true) = (t, passed none)
  ended (t, false) = (t, failed command_failed)

  -- `Command`
  unfoldable pub command_step : Command → Step
  command_step cmd ctx s = require ctx.logger logger_key s (λ l.
      require ctx.ssh_client ssh_client_key s (λ c.
        require ctx.templating templating_key s (λ engine.
          interpolated engine (text_of cmd) s (λ line. ended (
            sys.run_remote c ctx.token line (writer_or sys.os_stdout ctx.stdout)
              (writer_or sys.os_stderr ctx.stderr) s)))))

  -- `LocalCommand`
  unfoldable pub local_command_step : Command → Step
  local_command_step cmd ctx s = require ctx.logger logger_key s (λ l.
      require ctx.templating templating_key s (λ engine.
        interpolated engine (text_of cmd) s (λ line. elim (sys.shell_words line) [
          | none ↦ (s, failed (words_failed (text_of cmd)))
          | some words ↦ elim words [
            | [] ↦ (s, failed (no_words line))
            | exe ∷ args ↦ ended (
                sys.run_local ctx.token exe args (writer_or sys.os_stdout ctx.stdout)
                  (writer_or sys.os_stderr ctx.stderr) s)
          ]
        ])))

  -- What `Stdout` and `Stderr` have in common: `keep` gives the context with the writer.
  unfoldable pub redirect : Output → (Context K W C → W → Context K W C) → Step
  redirect o keep ctx s =
      if str_eq o.file "null"
      then (s, passed (some (keep ctx sys.discard)))
      else require ctx.logger logger_key s (λ l. require ctx.templating templating_key s (λ engine.
        interpolated engine o.file s (λ file. open_and_keep ctx o file o.file (keep ctx) s)))

  -- `Stdout`
  unfoldable pub stdout_step : Output → Step
  unfolding redirect
  stdout_step o = redirect o (λ ctx w. record ctx { stdout = some w })

  -- `Stderr`
  unfoldable pub stderr_step : Output → Step
  unfolding redirect
  stderr_step o = redirect o (λ ctx w. record ctx { stderr = some w })
