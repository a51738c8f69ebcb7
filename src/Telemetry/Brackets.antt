-- ===== src/Telemetry/Brackets.antt =====
-- The events of a job that runs in order: what instrumented Fluncs (telemetry.go) and the
-- combinators around them store.
use mathlib.Core.List.{append_assoc, append-nil}
use x_cuter.Common.{
  ℕ, zero, suc, ◌≡◌, refl, sym, ap, subst, ◌∙◌, ◌⊎◌, inl, inr, Option, none, some, List, [], ◌∷◌,
  ◌++◌, String, Option-cases, Bool-cases,
}
use x_cuter.Flunc.{
  Outcome, passed, failed, Flunc, Contexts, sequential_from, error_safeguard, context_bounds, retry,
  retry_from, passed_on,
}
use x_cuter.Flunc.Order.{Run-cases}
use x_cuter.Telemetry.{
  EventType, event_log, event_end, event_failed, Event, start_of, end_of, instrument, Loggers,
  telemetry_context, store, plain_event,
}

abbrev pub Ends : EventType → Type 0
Ends kind = (kind ≡ event_end) ⊎ (kind ≡ event_failed)

-- Messages, and calls whose start stands before the events of the call and whose end behind them.
pub data Nested : List Event → Type 0 where
  quiet : Nested []
  message :
      (e : Event) {later : List Event}
      → e.event_type ≡ event_log
      → Nested later
      → Nested (e ∷ later)
  call :
      (kind : EventType) (begun stopped : ℕ) (name : String) {inner later : List Event}
      → Ends kind
      → Nested inner
      → Nested later
      → Nested (start_of begun name ∷ (inner ++ (plain_event kind stopped name ∷ later)))

Nested-append : {xs ys : List Event} → Nested xs → Nested ys → Nested (xs ++ ys)
Nested-append quiet k = k
Nested-append (message e l h) k = message e l (Nested-append h k)
Nested-append {xs} {ys} (call kind begun stopped name {inner} {later} t h₁ h₂) k =
    subst (λ es. Nested (start_of begun name ∷ es))
      (sym (append_assoc inner (plain_event kind stopped name ∷ later) ys))
      (call kind begun stopped name t h₁ (Nested-append h₂ k))

-- The events behind a step are those before it and nested ones.
abbrev pub Adds : List Event → List Event → Type 0
Adds old new = (later : List Event) × (new ≡ old ++ later) × Nested later

Adds-same : (old new : List Event) → new ≡ old → Adds old new
Adds-same old new e = ([], e ∙ sym (append-nil old), quiet)

Adds-trans : (a b c : List Event) → Adds a b → Adds b c → Adds a c
Adds-trans a b c (l, e, h) (m, f, k) =
    (l ++ m, f ∙ ap (λ es. es ++ m) e ∙ append_assoc a l m, Nested-append h k)

module _ {S Ctx E : Type 0} where
  abbrev pub Nests : Flunc (S × List Event) Ctx E → Type 0
  Nests f = (ctx : Ctx) (s : S) (events : List Event) → Adds events (f ctx (s, events)).0.1

  -- What the combinators do to the context stores messages at most.
  pub record KeepsEvents (contexts : Contexts (S × List Event) Ctx E) : Type 0 where
    pub with_cancel_keeps :
        (ctx : Ctx) (s : S) (events : List Event)
        → (contexts.with_cancel ctx (s, events)).0.1 ≡ events
    pub cancel_keeps :
        (ctx : Ctx) (s : S) (events : List Event) → (contexts.cancel ctx (s, events)).1 ≡ events
    pub log_error_adds :
        (ctx : Ctx) (e : E) (s : S) (events : List Event)
        → Adds events (contexts.log_error ctx e (s, events)).1

  -- A call of an instrumented Flunc is one call in the store, with what the Flunc stores inside.
  instrument-Nests :
      {L : Type 0} (now : S → S × ℕ) (loggers : Loggers Ctx L) (name : String)
      (f : Flunc (S × List Event) Ctx E)
      → Nests f
      → Nests (instrument now loggers name f)
  unfolding instrument
  instrument-Nests now loggers name f n ctx s events =
      let begun = (now s).1 in
      let front : List Event = store (start_of begun name) events in
      let run = f (telemetry_context loggers name ctx) ((now s).0, front) in
      let stopped = (now run.0.0).1 in
      let (later, e, h) = n (telemetry_context loggers name ctx) (now s).0 front in
      elim (run.1) as (λ r. Adds events (run.0.1 ++ end_of r stopped name ∷ [])) [
        | passed c ↦ (
          _,
          ap (λ es. es ++ plain_event event_end stopped name ∷ []) e ∙ simp append_assoc,
          call event_end begun stopped name (inl refl) h quiet,
        )
        | failed x ↦ (
          _,
          ap (λ es. es ++ plain_event event_failed stopped name ∷ []) e ∙ simp append_assoc,
          call event_failed begun stopped name (inr refl) h quiet,
        )
      ]

module _ {S Ctx E : Type 0} (contexts : Contexts (S × List Event) Ctx E) where
  mutual
    -- A Flunc made of parts that store messages, instrumented or not, in a tree of the combinators
    -- that run their children in order.
    pub data Tree : Flunc (S × List Event) Ctx E → Type 1 where
      leaf : (f : Flunc (S × List Event) Ctx E) → Nests f → Tree f
      instrumented :
          {L : Type 0} (now : S → S × ℕ) (loggers : Loggers Ctx L) (name : String)
          (f : Flunc (S × List Event) Ctx E)
          → Tree f
          → Tree (instrument now loggers name f)
      in_order :
          (i : ℕ) (fs : List (Option (Flunc (S × List Event) Ctx E)))
          → Trees fs
          → Tree (sequential_from contexts i fs)
      safeguarded : (f : Flunc (S × List Event) Ctx E) → Tree f → Tree (error_safeguard contexts f)
      bounded : (f : Flunc (S × List Event) Ctx E) → Tree f → Tree (context_bounds contexts f)
      retried : (f : Flunc (S × List Event) Ctx E) (n : ℕ) → Tree f → Tree (retry contexts f n)

    pub data Trees : List (Option (Flunc (S × List Event) Ctx E)) → Type 1 where
      no_trees : Trees []
      skip : {fs : List (Option (Flunc (S × List Event) Ctx E))} → Trees fs → Trees (none ∷ fs)
      tree :
          {f : Flunc (S × List Event) Ctx E} {fs : List (Option (Flunc (S × List Event) Ctx E))}
          → Tree f
          → Trees fs
          → Trees (some f ∷ fs)

module _ {S Ctx E : Type 0} (contexts : Contexts (S × List Event) Ctx E)
    (keeps : KeepsEvents contexts) where
  error_safeguard-Nests :
      (f : Flunc (S × List Event) Ctx E) → Nests f → Nests (error_safeguard contexts f)
  unfolding error_safeguard
  error_safeguard-Nests f n ctx s events = elim (Bool-cases (contexts.has_logger ctx)) [
    | inr e ↦ simp e (Adds-same events events refl)
    | inl e ↦ simp e (elim (Run-cases (f ctx (s, events))) [
      | inl (t, c, r) ↦ simp (ap (λ p. p.1) r) (n ctx s events)
      | inr (t, x, r) ↦ simp (ap (λ p. p.1) r) (
          Adds-trans events (f ctx (s, events)).0.1 _ (n ctx s events)
            (keeps.log_error_adds ctx x (f ctx (s, events)).0.0 (f ctx (s, events)).0.1))
    ])
  ]

  context_bounds-Nests :
      (f : Flunc (S × List Event) Ctx E) → Nests f → Nests (context_bounds contexts f)
  unfolding context_bounds
  context_bounds-Nests f n ctx s events =
      let begun = contexts.with_cancel ctx (s, events) in
      let run = f begun.1 begun.0 in
      let same = keeps.with_cancel_keeps ctx s events in
      Adds-trans events run.0.1 _
        (subst (λ es. Adds es run.0.1) same (n begun.1 begun.0.0 begun.0.1))
        (Adds-same run.0.1 _ (keeps.cancel_keeps begun.1 run.0.0 run.0.1))

  retry_from-Nests :
      (f : Flunc (S × List Event) Ctx E) (k : ℕ) (last : Outcome Ctx E)
      → Nests f
      → Nests (retry_from contexts k last f)
  unfolding retry_from
  retry_from-Nests f zero last n ctx s events = Adds-same events events refl
  retry_from-Nests f (suc k) last n ctx s events = elim (Run-cases (f ctx (s, events))) [
    | inl (t, c, r) ↦ rw (ap (λ p. p.1) r, retry_from) (n ctx s events)
    | inr (t, x, r) ↦
        let run = (f ctx (s, events)).0 in
        let logged = contexts.log_error ctx x run in
        rw (ap (λ p. p.1) r, retry_from)
          (Adds-trans events logged.1 _
            (Adds-trans events run.1 logged.1 (n ctx s events)
              (keeps.log_error_adds ctx x run.0 run.1))
            (retry_from-Nests f k (failed x) n ctx logged.0 logged.1))
  ]

  retry-Nests : (f : Flunc (S × List Event) Ctx E) (k : ℕ) → Nests f → Nests (retry contexts f k)
  unfolding retry
  retry-Nests f k n ctx s events = elim (Bool-cases (contexts.has_logger ctx)) [
    | inr e ↦ simp e (Adds-same events events refl)
    | inl e ↦ simp e (retry_from-Nests f k (passed none) n ctx s events)
  ]

  -- A sequence whose first child is `f`, by what it does behind a test of the context.
  sequential_from-Nests-cons :
      (i : ℕ) (f : Flunc (S × List Event) Ctx E) (fs : List (Option (Flunc (S × List Event) Ctx E)))
      → Nests f
      → Nests (sequential_from contexts (suc i) fs)
      → Nests (sequential_from contexts i (some f ∷ fs))
  unfolding sequential_from
  sequential_from-Nests-cons i f fs n rest ctx s events =
      elim (Option-cases (contexts.done ctx (s, events))) [
        | inr (e, h) ↦ rw (h, sequential_from) (Adds-same events events refl)
        | inl h ↦
            rw (h, sequential_from)
              (elim (Run-cases (f ctx (s, events))) [
                | inr (t, x, r) ↦ rw (ap (λ p. p.1) r, sequential_from) (n ctx s events)
                | inl (t, c, r) ↦
                    let run = (f ctx (s, events)).0 in
                    rw (ap (λ p. p.1) r, sequential_from)
                      (Adds-trans events run.1 _ (n ctx s events)
                        (rest (passed_on contexts ctx c) run.0 run.1))
              ])
      ]

  sequential_from-Nests-none :
      (i : ℕ) (fs : List (Option (Flunc (S × List Event) Ctx E)))
      → Nests (sequential_from contexts (suc i) fs)
      → Nests (sequential_from contexts i (none ∷ fs))
  unfolding sequential_from
  sequential_from-Nests-none i fs rest ctx s events =
      elim (Option-cases (contexts.done ctx (s, events))) [
        | inr (e, h) ↦ rw (h, sequential_from) (Adds-same events events refl)
        | inl h ↦ rw (h, sequential_from) (rest ctx s events)
      ]

  empty-Nests : (i : ℕ) → Nests (sequential_from contexts i [])
  unfolding sequential_from
  empty-Nests i ctx s events = Adds-same events events refl

  mutual
    Tree-Nests' : (f : Flunc (S × List Event) Ctx E) → Tree contexts f → Nests f
    Tree-Nests' f (leaf g n) = n
    Tree-Nests' f (instrumented now loggers name g t) =
        instrument-Nests now loggers name g (Tree-Nests' g t)
    Tree-Nests' f (in_order i fs ts) = Trees-Nests i fs ts
    Tree-Nests' f (safeguarded g t) = error_safeguard-Nests g (Tree-Nests' g t)
    Tree-Nests' f (bounded g t) = context_bounds-Nests g (Tree-Nests' g t)
    Tree-Nests' f (retried g n t) = retry-Nests g n (Tree-Nests' g t)

    Trees-Nests :
        (i : ℕ) (fs : List (Option (Flunc (S × List Event) Ctx E)))
        → Trees contexts fs
        → Nests (sequential_from contexts i fs)
    Trees-Nests i [] no_trees = empty-Nests i
    Trees-Nests i (none ∷ fs) (skip ts) =
        sequential_from-Nests-none i fs (Trees-Nests (suc i) fs ts)
    Trees-Nests i (some f ∷ fs) (tree t ts) =
        sequential_from-Nests-cons i f fs (Tree-Nests' f t) (Trees-Nests (suc i) fs ts)

  -- Whatever a tree of instrumented Fluncs does that run in order, also when some of them fail, are
  -- tried again or stop early, the events that it adds to the store are nested: each start event of a
  -- node has its end or failed event, and what stands between is messages and whole calls. The leaves
  -- and what the combinators do to contexts add nested events.
  pub Tree-Nests : (f : Flunc (S × List Event) Ctx E) → Tree contexts f → Nests f
  Tree-Nests f t = Tree-Nests' f t
