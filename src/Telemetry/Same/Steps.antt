-- ===== src/Telemetry/Same/Steps.antt =====
-- The steps that set up a context, with and without events.
use x_cuter.Common.{refl, Option, String, Option-cases, inl, inr}
use x_cuter.Job.Tree.{System, Logger, output_step, logger_step, templating_step}
use x_cuter.Job.{Output, Host, Config}
use x_cuter.Telemetry.Builder.{with_events}
use x_cuter.Telemetry.Same.{original, Same}
use x_cuter.Telemetry.Same.Values.{require-forget, interpolated-forget, open_and_keep-forget}

module _ {S K W C D : Type 0} (sys : System S K W C D) (d : Logger W) where
  pub templating_step-Same :
      (c : Config) (h : Option Host)
      → Same sys d (templating_step sys c h) (templating_step (with_events sys) c h)
  unfolding templating_step
  templating_step-Same c h ctx s events = refl

  pub logger_step-Same :
      (name : String) (h : Option Host)
      → Same sys d (logger_step sys name h) (logger_step (with_events sys) name h)
  unfolding logger_step original
  logger_step-Same name h ctx s events = require-forget sys d ctx.output _ s events _ _ (λ w. refl)

  pub output_step-Same :
      (o : Option Output) → Same sys d (output_step sys o) (output_step (with_events sys) o)
  unfolding output_step
  output_step-Same o ctx s events = elim (Option-cases ctx.output) [
    | inr (w, n) ↦ simp (n, output_step) refl
    | inl n ↦
        simp (n, output_step)
          (elim (Option-cases o) [
            | inl e ↦ simp e refl
            | inr (out, e) ↦ simp e (
                require-forget sys d ctx.templating _ s events _ _ (λ engine.
                  interpolated-forget sys d engine out.file s events _ _ (λ file.
                    open_and_keep-forget sys d ctx out file file _ _ s events (λ w. refl))))
          ])
  ]
