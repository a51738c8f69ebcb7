-- ===== src/Telemetry/Same/Values.antt =====
-- What the steps of the execution tree have in common, with and without events.
use x_cuter.Common.{
  ◌≡◌, refl, ap, Bool, true, false, Option, none, some, List, String, Option-cases, inl, inr,
  if◌then◌else◌,
}
use x_cuter.Flunc.{Outcome, passed, failed}
use x_cuter.Job.Tree.Keys.{IsSome}
use x_cuter.Job.Tree.{
  open_failed, Key, System, Context, TreeError, Engine, Logger, require, interpolated,
  open_output_file, open_and_keep, logger_key,
}
use x_cuter.Job.{Output}
use x_cuter.Logging.{NodeLogger}
use x_cuter.Telemetry.Builder.{with_events}
use x_cuter.Telemetry.Same.{erase, forget}
use x_cuter.Telemetry.{Event}

module _ {S K W C D : Type 0} (sys : System S K W C D) (d : Logger W) where
  -- A value that is in both contexts, or in none.
  pub require-forget :
      {A : Type 0} (o : Option A) (k : Key) (s : S) (events : List Event)
      (next' : A → (S × List Event) × Outcome (Context K W C) TreeError)
      (next : A → S × Outcome (Context K W C) TreeError)
      → ((a : A) → forget d (next' a) ≡ next a)
      → forget d (require (with_events sys) o k (s, events) next') ≡ require sys o k s next
  require-forget none k s events next' next h = refl
  require-forget (some a) k s events next' next h = h a

  -- The logger, which is there in both.
  pub logger-forget :
      (o : Option (NodeLogger (Logger W))) (s : S) (events : List Event)
      (run' : (S × List Event) × Outcome (Context K W C) TreeError)
      (run : S × Outcome (Context K W C) TreeError)
      → IsSome o
      → forget d run' ≡ run
      → forget d (require (with_events sys) o logger_key (s, events) (λ l. run')) ≡ run
  logger-forget none s events run' run i h = elim i [ ]
  logger-forget (some l) s events run' run i h = h

  pub interpolated-forget :
      (engine : Engine) (text : String) (s : S) (events : List Event)
      (next' : String → (S × List Event) × Outcome (Context K W C) TreeError)
      (next : String → S × Outcome (Context K W C) TreeError)
      → ((a : String) → forget d (next' a) ≡ next a)
      → forget d (interpolated (with_events sys) engine text (s, events) next')
        ≡ interpolated sys engine text s next
  unfolding interpolated
  interpolated-forget engine text s events next' next h =
      elim (Option-cases (sys.interpolate engine.config engine.host text s)) [
        | inl n ↦ rw (n, interpolated) refl
        | inr (a, n) ↦ rw (n, interpolated) (h a)
      ]

  -- What is kept of a file that has been opened, or not.
  kept-forget :
      (ctx : Context K W C) (raw : Bool) (name : String) (keep' keep : W → Context K W C) (t : S)
      (opened : Option W) (events : List Event)
      → ((w : W) → erase d (keep' w) ≡ keep w)
      → let written : S × Option W = elim opened [
        | none ↦ (t, none)
        | some f ↦ (if raw then t else sys.banner f t, some f)
      ] in
        let written' : (S × List Event) × Option W = elim opened [
          | none ↦ ((t, events), none)
          | some f ↦ (if raw then (t, events) else (sys.banner f t, events), some f)
        ] in
        forget d (elim written'.1 [
          | none ↦ (written'.0, failed (open_failed name))
          | some f ↦ (
            (sys.close_when_done ctx.token f written'.0.0, written'.0.1),
            passed (some (keep' f)),
          )
        ])
        ≡ elim written.1 [
          | none ↦ (written.0, failed (open_failed name))
          | some f ↦ (sys.close_when_done ctx.token f written.0, passed (some (keep f)))
        ]
  kept-forget ctx raw name keep' keep t none events h = refl
  kept-forget ctx true name keep' keep t (some f) events h =
      ap (λ c. (sys.close_when_done ctx.token f t, passed (some c))) (h f)
  kept-forget ctx false name keep' keep t (some f) events h =
      ap (λ c. (sys.close_when_done ctx.token f (sys.banner f t), passed (some c))) (h f)

  pub open_and_keep-forget :
      (ctx : Context K W C) (o : Output) (file name : String) (keep' keep : W → Context K W C)
      (s : S) (events : List Event)
      → ((w : W) → erase d (keep' w) ≡ keep w)
      → forget d (open_and_keep (with_events sys) ctx o file name keep' (s, events))
        ≡ open_and_keep sys (erase d ctx) o file name keep s
  unfolding open_and_keep open_output_file
  open_and_keep-forget ctx o file name keep' keep s events h =
      let opened = sys.open_file file o.overwrite s in
      kept-forget ctx o.raw name keep' keep opened.0 opened.1 events h
