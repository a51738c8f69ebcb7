-- ===== src/Telemetry/Same/Wrappers.antt =====
-- `instrument` and the combinators around one Flunc, with and without events.
use x_cuter.Common.{
  ℕ, zero, suc, ◌≡◌, refl, ap, ◌∙◌, true, false, Option, none, some, List, if◌then◌else◌, String,
}
use x_cuter.Flunc.Parallel.{Goroutines}
use x_cuter.Flunc.{Outcome, passed, failed, error_safeguard, context_bounds, retry_from, retry}
use x_cuter.Job.Tree.Builder.{tree_contexts}
use x_cuter.Job.Tree.Keys.{IsSome}
use x_cuter.Job.Tree.{System, Context, TreeError, Step, Logger}
use x_cuter.Logging.{
  NodeLogger, Origin, nil, origin, plain, telemetry, find_original, origin_of, origin_opt,
}
use x_cuter.Telemetry.Builder.{with_events, tree_loggers}
use x_cuter.Telemetry.Same.{original, or_default, erase, erase_outcome, forget, Same, SameLogged}
use x_cuter.Telemetry.{Event, store, start_of, instrument, telemetry_context}

-- What was behind the loggers of telemetry is still behind one more.
original-telemetry :
    {W : Type 0} (d : Logger W) (name : String) (o : Origin (Logger W))
    → find_original (origin (telemetry name (origin_of (find_original o)))) ≡ find_original o
unfolding find_original
original-telemetry d name nil = refl
original-telemetry d name (origin (plain l)) = refl
original-telemetry d name (origin (telemetry n o)) = original-telemetry d name o

module _ {S K W C D : Type 0} (sys : System S K W C D) (d : Logger W) where
  erase-telemetry :
      (name : String) (ctx : Context K W C)
      → erase d (telemetry_context tree_loggers name ctx) ≡ erase d ctx
  unfolding original
  erase-telemetry name ctx =
      ap (λ o. record ctx { logger = some (plain (or_default d o)) })
        (original-telemetry d name (origin_opt ctx.logger))

  -- The telemetry around a Flunc gives its context a logger.
  pub instrument-Same :
      (now : S → S × ℕ) (name : String) (f : Step sys) (f' : Step (with_events sys))
      → ((s : S) → (now s).0 ≡ s)
      → SameLogged sys d f f'
      → Same sys d f (instrument now tree_loggers name f')
  unfolding instrument
  instrument-Same now name f f' clock h ctx s events =
      let inner = telemetry_context tree_loggers name ctx in
      let begun = now s in
      let known = store (start_of begun.1 name) events in
      let run = f' inner (begun.0, known) in
      ap (λ u. (u, erase_outcome d run.1)) (clock run.0.0)
      ∙ h inner begun.0 known tt
      ∙ ap (f (erase d inner)) (clock s)
      ∙ ap (λ c. f c s) (erase-telemetry name ctx)

  -- The test whether the context has a logger.
  if_logger-forget :
      (o : Option (NodeLogger (Logger W)))
      (run' other' : (S × List Event) × Outcome (Context K W C) TreeError)
      (run : S × Outcome (Context K W C) TreeError)
      → IsSome o
      → forget d run' ≡ run
      → forget d (if (elim o [ none ↦ false | some l ↦ true ]) then run' else other') ≡ run
  if_logger-forget none run' other' run i h = elim i [ ]
  if_logger-forget (some l) run' other' run i h = h

  module _ (go : Goroutines S TreeError) (go' : Goroutines (S × List Event) TreeError) where
    -- The rest of `ErrorSafeguard`, behind its child.
    safeguarded-forget :
        (r : (S × List Event) × Outcome (Context K W C) TreeError)
        → forget d (elim r.1 [ failed e ↦ (r.0, passed none) | passed c ↦ (r.0, passed c) ])
          ≡ elim (erase_outcome d r.1) [
            | failed e ↦ (r.0.0, passed none)
            | passed c ↦ (r.0.0, passed c)
          ]
    safeguarded-forget (s, passed none) = refl
    safeguarded-forget (s, passed (some c)) = refl
    safeguarded-forget (s, failed e) = refl

    pub error_safeguard-SameLogged :
        (f : Step sys) (f' : Step (with_events sys))
        → SameLogged sys d f f'
        → SameLogged sys d
            (error_safeguard (tree_contexts sys go) f)
            (error_safeguard (tree_contexts (with_events sys) go') f')
    unfolding error_safeguard
    error_safeguard-SameLogged f f' h ctx s events i = if_logger-forget ctx.logger _ _ _ i (
        safeguarded-forget (f' ctx (s, events))
        ∙ ap (λ r. elim r.1 [ failed e ↦ (r.0, passed none) | passed c ↦ (r.0, passed c) ])
            (h ctx s events i))

    bounded-forget :
        (r : Outcome (Context K W C) TreeError)
        → erase_outcome {K = K} {C = C} d (elim r [ passed c ↦ passed none | failed e ↦ failed e ])
          ≡ elim (erase_outcome {K = K} {C = C} d r) [
            | passed c ↦ passed none
            | failed e ↦ failed e
          ]
    bounded-forget (passed none) = refl
    bounded-forget (passed (some c)) = refl
    bounded-forget (failed e) = refl

    pub context_bounds-SameLogged :
        (f : Step sys) (f' : Step (with_events sys))
        → SameLogged sys d f f'
        → SameLogged sys d
            (context_bounds (tree_contexts sys go) f)
            (context_bounds (tree_contexts (with_events sys) go') f')
    unfolding context_bounds
    context_bounds-SameLogged f f' h ctx s events i =
        let opened = sys.with_cancel ctx.token s in
        let inner : Context K W C = record ctx { token = opened.1 } in
        let run = f' inner (opened.0, events) in
        ap (λ o. (sys.cancel opened.1 run.0.0, o)) (bounded-forget run.1)
        ∙ ap
            (λ r.
              (sys.cancel opened.1 r.0, elim r.1 [ passed c ↦ passed none | failed e ↦ failed e ]))
            (h inner opened.0 events i)

    -- A turn of `Retry`, behind its child.
    retried-forget :
        (ctx : Context K W C) (r : (S × List Event) × Outcome (Context K W C) TreeError)
        (again' : TreeError → S × List Event → (S × List Event) × Outcome (Context K W C) TreeError)
        (again : TreeError → S → S × Outcome (Context K W C) TreeError)
        → ((e : TreeError) (s : S) (events : List Event)
            → forget d (again' e (s, events)) ≡ again e s)
        → forget d (elim r.1 [ passed c ↦ (r.0, passed c) | failed e ↦ again' e r.0 ])
          ≡ elim (erase_outcome d r.1) [ passed c ↦ (r.0.0, passed c) | failed e ↦ again e r.0.0 ]
    retried-forget ctx (s, passed none) again' again h = refl
    retried-forget ctx (s, passed (some c)) again' again h = refl
    retried-forget ctx ((s, events), failed e) again' again h = h e s events

    retry_from-forget :
        (n : ℕ) (last : Outcome (Context K W C) TreeError) (f : Step sys)
        (f' : Step (with_events sys)) (ctx : Context K W C) (s : S) (events : List Event)
        → SameLogged sys d f f'
        → IsSome ctx.logger
        → forget d (retry_from (tree_contexts (with_events sys) go') n last f' ctx (s, events))
          ≡ retry_from (tree_contexts sys go) n (erase_outcome d last) f (erase d ctx) s
    unfolding retry_from
    retry_from-forget zero last f f' ctx s events h i = refl
    retry_from-forget (suc n) last f f' ctx s events h i =
        retried-forget ctx (f' ctx (s, events))
          (λ e t. retry_from (tree_contexts (with_events sys) go') n (failed e) f' ctx t)
          (λ e t. retry_from (tree_contexts sys go) n (failed e) f (erase d ctx) t)
          (λ e t later. retry_from-forget n (failed e) f f' ctx t later h i)
        ∙ ap
            (λ r. elim r.1 [
              | passed c ↦ (r.0, passed c)
              | failed e ↦ retry_from (tree_contexts sys go) n (failed e) f (erase d ctx) r.0
            ])
            (h ctx s events i)

    pub retry-SameLogged :
        (n : ℕ) (f : Step sys) (f' : Step (with_events sys))
        → SameLogged sys d f f'
        → SameLogged sys d
            (retry (tree_contexts sys go) f n)
            (retry (tree_contexts (with_events sys) go') f' n)
    unfolding retry
    retry-SameLogged n f f' h ctx s events i =
        if_logger-forget ctx.logger _ _ _ i
          (retry_from-forget n (passed none) f f' ctx s events h i)
