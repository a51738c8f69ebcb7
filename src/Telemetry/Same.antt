-- ===== src/Telemetry/Same.antt =====
-- A job with telemetry does what the job does without: contexts and runs without what telemetry adds.
mod Values
mod Steps
mod Logged
mod Wrappers
pub mod Groups
pub mod Job
use x_cuter.Common.{◌≡◌, Option, none, some, List}
use x_cuter.Flunc.{Outcome, passed, failed}
use x_cuter.Job.Tree.Keys.{IsSome}
use x_cuter.Job.Tree.{System, Context, TreeError, Step, Logger}
use x_cuter.Logging.{NodeLogger, plain, Origin, find_original, origin_opt}
use x_cuter.Telemetry.Builder.{with_events}
use x_cuter.Telemetry.{Event}

-- The logger behind those of telemetry, or `d` if there is none.
abbrev pub or_default : {L : Type 0} → L → Option L → L
or_default d none = d
or_default d (some l) = l

unfoldable pub original : {W : Type 0} → Logger W → Option (NodeLogger (Logger W)) → Logger W
unfolding find_original
original d l = or_default d (find_original (origin_opt l))

module _ {K W C : Type 0} (d : Logger W) where
  -- The context with the logger behind those of telemetry.
  abbrev pub erase : Context K W C → Context K W C
  erase ctx = record ctx { logger = some (plain (original d ctx.logger)) }

  abbrev pub erase_outcome : Outcome (Context K W C) TreeError → Outcome (Context K W C) TreeError
  erase_outcome (passed none) = passed none
  erase_outcome (passed (some ctx)) = passed (some (erase ctx))
  erase_outcome (failed e) = failed e

  -- A run without its events.
  abbrev pub forget :
      {S : Type 0}
      → (S × List Event) × Outcome (Context K W C) TreeError
      → S × Outcome (Context K W C) TreeError
  forget r = (r.0.0, erase_outcome r.1)

module _ {S K W C D : Type 0} (sys : System S K W C D) (d : Logger W) where
  -- The Flunc with the events does what the one without does in the context without telemetry.
  abbrev pub Same : Step sys → Step (with_events sys) → Type 0
  Same f f' =
      (ctx : Context K W C) (s : S) (events : List Event)
      → forget d (f' ctx (s, events)) ≡ f (erase d ctx) s

  -- The same for contexts that have a logger.
  abbrev pub SameLogged : Step sys → Step (with_events sys) → Type 0
  SameLogged f f' =
      (ctx : Context K W C) (s : S) (events : List Event)
      → IsSome ctx.logger
      → forget d (f' ctx (s, events)) ≡ f (erase d ctx) s
