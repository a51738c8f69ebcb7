-- ===== src/Telemetry/Same/Groups.antt =====
-- The combinators of several Fluncs, with and without events.
use x_cuter.Common.Pointwise.{Pointwise, length-Pointwise}
use x_cuter.Common.{ℕ, suc, ◌≡◌, refl, ap, ◌∙◌, Option, none, some, List, [], ◌∷◌, map, length}
use x_cuter.Flunc.Parallel.{
  Task, Goroutines, Arrival, wait, sent_error, tasks_from, first_outcome, parallel,
}
use x_cuter.Flunc.{Outcome, passed, failed, passed_on, sequential_from}
use x_cuter.Job.Tree.Builder.{tree_contexts}
use x_cuter.Job.Tree.{System, Context, TreeError, child, Step, Logger}
use x_cuter.Telemetry.Builder.{with_events}
use x_cuter.Telemetry.Same.{erase, erase_outcome, forget, Same}
use x_cuter.Telemetry.{Event}

-- A goroutine's task does the same, whatever the events.
abbrev pub SameTask : {S E : Type 0} → Task S E → Task (S × List Event) E → Type 0
SameTask {S} t t' = (s : S) (events : List Event) → ((t' (s, events)).0.0, (t' (s, events)).1) ≡ t s

-- Goroutines that do the same are run in the same order, whatever the events.
abbrev pub SameSchedule : {S E : Type 0} → Goroutines S E → Goroutines (S × List Event) E → Type 0
SameSchedule {S} {E} go go' =
    (tasks : List (Task S E)) (tasks' : List (Task (S × List Event) E)) (done : S → Option E)
    (s : S) (events : List Event)
    → Pointwise SameTask tasks tasks'
    → let joined = go'.together tasks' (λ s. done s.0) (s, events) in
      (joined.0.0, joined.1) ≡ go.together tasks done s

module _ {S K W C D : Type 0} (sys : System S K W C D) (d : Logger W) where
  -- Where the loop goes on unless the context is done.
  done-forget :
      (o : Option TreeError) (s : S) (events : List Event)
      (gone : TreeError → Outcome (Context K W C) TreeError)
      (next' : (S × List Event) × Outcome (Context K W C) TreeError)
      (next : S × Outcome (Context K W C) TreeError)
      → ((e : TreeError) → erase_outcome d (gone e) ≡ gone e)
      → forget d next' ≡ next
      → forget d (elim o [ some e ↦ ((s, events), gone e) | none ↦ next' ])
        ≡ elim o [ some e ↦ (s, gone e) | none ↦ next ]
  done-forget none s events gone next' next g h = h
  done-forget (some e) s events gone next' next g h = ap (λ o. (s, o)) (g e)

  module _ (go : Goroutines S TreeError) (go' : Goroutines (S × List Event) TreeError) where
    -- A child that has run in a sequence, and what comes behind it.
    child-forget :
        (i : ℕ) (ctx : Context K W C) (r : (S × List Event) × Outcome (Context K W C) TreeError)
        (rest' : Step (with_events sys)) (rest : Step sys)
        → Same sys d rest rest'
        → forget d (elim r.1 [
          | failed e ↦ (r.0, failed (child i e))
          | passed c ↦ rest' (passed_on (tree_contexts (with_events sys) go') ctx c) r.0
        ])
          ≡ elim (erase_outcome d r.1) [
            | failed e ↦ (r.0.0, failed (child i e))
            | passed c ↦ rest (passed_on (tree_contexts sys go) (erase d ctx) c) r.0.0
          ]
    child-forget i ctx ((s, events), passed none) rest' rest h = h ctx s events
    child-forget i ctx ((s, events), passed (some c)) rest' rest h = h c s events
    child-forget i ctx ((s, events), failed e) rest' rest h = refl

    pub sequential_from-Same :
        (i : ℕ) (fs : List (Step sys)) (fs' : List (Step (with_events sys)))
        → Pointwise (Same sys d) fs fs'
        → Same sys d
            (sequential_from (tree_contexts sys go) i (map some fs))
            (sequential_from (tree_contexts (with_events sys) go') i (map some fs'))
    unfolding sequential_from
    sequential_from-Same i [] [] h ctx s events = refl
    sequential_from-Same i [] (f' ∷ fs') h ctx s events = elim h [ ]
    sequential_from-Same i (f ∷ fs) [] h ctx s events = elim h [ ]
    sequential_from-Same i (f ∷ fs) (f' ∷ fs') (h, hs) ctx s events =
        let rest = sequential_from (tree_contexts sys go) (suc i) (map some fs) in
        done-forget ((tree_contexts sys go).done ctx s) s events failed _ _ (λ e. refl)
          (child-forget i ctx (f' ctx (s, events))
              (sequential_from (tree_contexts (with_events sys) go') (suc i) (map some fs')) rest
              (sequential_from-Same (suc i) fs fs' hs)
            ∙ ap
                (λ r. elim r.1 [
                  | failed e ↦ (r.0, failed (child i e))
                  | passed c ↦ rest (passed_on (tree_contexts sys go) (erase d ctx) c) r.0
                ])
                (h ctx s events))

    sent_error-forget :
        (i : ℕ) (r : (S × List Event) × Outcome (Context K W C) TreeError)
        → ◌≡◌ {A = S × Option TreeError}
            (r.0.0, sent_error child i r.1)
            (r.0.0, sent_error child i (erase_outcome d r.1))
    unfolding sent_error
    sent_error-forget i (s, passed none) = refl
    sent_error-forget i (s, passed (some c)) = refl
    sent_error-forget i (s, failed e) = refl

    tasks_from-SameTask :
        (i : ℕ) (fs : List (Step sys)) (fs' : List (Step (with_events sys))) (ctx : Context K W C)
        → Pointwise (Same sys d) fs fs'
        → Pointwise SameTask
            (tasks_from child i (map some fs) (erase d ctx))
            (tasks_from child i (map some fs') ctx)
    unfolding tasks_from
    tasks_from-SameTask i [] [] ctx h = tt
    tasks_from-SameTask i [] (f' ∷ fs') ctx h = elim h [ ]
    tasks_from-SameTask i (f ∷ fs) [] ctx h = elim h [ ]
    tasks_from-SameTask i (f ∷ fs) (f' ∷ fs') ctx (h, hs) = (
      λ s events.
          sent_error-forget i (f' ctx (s, events))
          ∙ ap (λ r. (r.0, sent_error child i r.1)) (h ctx s events),
      tasks_from-SameTask (suc i) fs fs' ctx hs,
    )

    first-forget :
        (o : Option TreeError)
        → erase_outcome {K = K} {C = C} d
            (first_outcome (tree_contexts (with_events sys) go') go' child o)
          ≡ first_outcome (tree_contexts sys go) go child o
    first-forget none = refl
    first-forget (some e) = refl

    pub parallel-Same :
        (fs : List (Step sys)) (fs' : List (Step (with_events sys)))
        → SameSchedule go go'
        → Pointwise (Same sys d) fs fs'
        → Same sys d
            (parallel (tree_contexts sys go) go child (map some fs))
            (parallel (tree_contexts (with_events sys) go') go' child (map some fs'))
    unfolding parallel
    parallel-Same fs fs' schedule h ctx s events =
        let opened = sys.with_cancel ctx.token s in
        let inner : Context K W C = record ctx { token = opened.1 } in
        let tasks = tasks_from child 0 (map some fs) (erase d inner) in
        let tasks' = tasks_from child 0 (map some fs') inner in
        let done = (tree_contexts sys go).done (erase d ctx) in
        let same = tasks_from-SameTask 0 fs fs' inner h in
        let joined = go'.together tasks' (λ t. done t.0) (opened.0, events) in
        let ending : ℕ → S × List (Arrival TreeError) → S × Outcome (Context K W C) TreeError =
          λ n r.
            (sys.cancel opened.1 r.0, first_outcome (tree_contexts sys go) go child (wait n r.1)) in
        done-forget (done s) s events (λ e. passed none) _ _ (λ e. refl)
          (ap (λ o. (sys.cancel opened.1 joined.0.0, o))
              (first-forget (wait (length tasks') joined.1))
            ∙ ap (λ n. ending n (joined.0.0, joined.1))
                (length-Pointwise SameTask tasks tasks' same)
            ∙ ap (ending (length tasks)) (schedule tasks tasks' done opened.0 events same))
