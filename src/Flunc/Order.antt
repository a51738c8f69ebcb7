-- ===== src/Flunc/Order.antt =====
-- In which order and how often the combinators of flunc/flunc.go and job/executionTree.go call.
use x_cuter.Common.{
  ℕ, zero, suc, ◌+◌, ◌<◌, ◌≡◌, refl, ap, ◌∙◌, ◌⊎◌, inl, inr, true, Option, none, some, List, [],
  ◌∷◌, ◌++◌, length, arith, Option-cases,
}
use x_cuter.Flunc.{
  Outcome, passed, failed, Flunc, Contexts, passed_on, sequential_from, error_safeguard,
  context_bounds, retry_from, retry,
}

-- What a Flunc gives is a context or an error, in some world.
pub Run-cases :
    {S Ctx E : Type 0} (r : S × Outcome Ctx E)
    → ((t : S) × (c : Option Ctx) × (r ≡ (t, passed c))) ⊎ ((t : S) × (e : E) × (r ≡ (t, failed e)))
Run-cases (t, passed c) = inl (t, c, refl)
Run-cases (t, failed e) = inr (t, e, refl)

module _ {S Ctx E : Type 0} (contexts : Contexts S Ctx E) where
  -- What a sequence does behind the outcome of the one before it: nothing behind an error.
  abbrev pub behind :
      ℕ → List (Option (Flunc S Ctx E)) → Ctx → S × Outcome Ctx E → S × Outcome Ctx E
  behind i children ctx (t, failed e) = (t, failed e)
  behind i children ctx (t, passed c) =
      sequential_from contexts i children (passed_on contexts ctx c) t

  -- A sequence that passes gives a context, so it does not matter which one it was called with.
  behind-sequential_from :
      (m i : ℕ) (xs ys : List (Option (Flunc S Ctx E))) (a b ctx : Ctx) (s : S)
      → behind m ys a (sequential_from contexts i xs ctx s)
        ≡ behind m ys b (sequential_from contexts i xs ctx s)
  unfolding sequential_from
  behind-sequential_from m i [] ys a b ctx s = refl
  behind-sequential_from m i (none ∷ xs) ys a b ctx s = elim (Option-cases (contexts.done ctx s)) [
    | inr (e, h) ↦ rw (h, sequential_from) refl
    | inl h ↦ rw (h, sequential_from) (behind-sequential_from m (suc i) xs ys a b ctx s)
  ]
  behind-sequential_from m i (some f ∷ xs) ys a b ctx s =
      elim (Option-cases (contexts.done ctx s)) [
        | inr (e, h) ↦ rw (h, sequential_from) refl
        | inl h ↦
            rw (h, sequential_from)
              (elim (Run-cases (f ctx s)) [
                | inr (t, e, r) ↦ rw (ap (λ p. p.1) r, sequential_from) refl
                | inl (t, c, r) ↦
                    rw (ap (λ p. p.1) r, sequential_from)
                      (behind-sequential_from m (suc i) xs ys a b (passed_on contexts ctx c)
                        (f ctx s).0)
              ])
      ]

  -- A sequence of children is the sequence of the first ones and then that of the others, which
  -- get the context that the first ones pass on. If the first ones end in an error, the others do
  -- nothing and the error is that of the first ones. The number of a child in an error counts the
  -- nil children too.
  pub sequential_from-append :
      (i : ℕ) (xs ys : List (Option (Flunc S Ctx E))) (ctx : Ctx) (s : S)
      → sequential_from contexts i (xs ++ ys) ctx s
        ≡ behind (length xs + i) ys ctx (sequential_from contexts i xs ctx s)
  unfolding sequential_from
  sequential_from-append i [] ys ctx s =
      let same : i ≡ 0 + i = omega arith in ap (λ m. sequential_from contexts m ys ctx s) same
  sequential_from-append i (none ∷ xs) ys ctx s =
      let shift : length xs + suc i ≡ suc (length xs) + i = omega arith in
      elim (Option-cases (contexts.done ctx s)) [
        | inr (e, h) ↦ rw (h, sequential_from) refl
        | inl h ↦
            rw (h, sequential_from)
              (sequential_from-append (suc i) xs ys ctx s
                ∙ ap (λ m. behind m ys ctx (sequential_from contexts (suc i) xs ctx s)) shift)
      ]
  sequential_from-append i (some f ∷ xs) ys ctx s =
      let shift : length xs + suc i ≡ suc (length xs) + i = omega arith in
      elim (Option-cases (contexts.done ctx s)) [
        | inr (e, h) ↦ rw (h, sequential_from) refl
        | inl h ↦
            rw (h, sequential_from)
              (elim (Run-cases (f ctx s)) [
                | inr (t, e, r) ↦ rw (ap (λ p. p.1) r, sequential_from) refl
                | inl (t, c, r) ↦
                    rw (ap (λ p. p.1) r, sequential_from)
                      (sequential_from-append (suc i) xs ys (passed_on contexts ctx c) (f ctx s).0
                        ∙ behind-sequential_from (length xs + suc i) (suc i) xs ys
                            (passed_on contexts ctx c) ctx (passed_on contexts ctx c) (f ctx s).0
                        ∙ ap
                            (λ m. behind m ys ctx (
                              sequential_from contexts (suc i) xs (passed_on contexts ctx c)
                                (f ctx s).0))
                            shift)
              ])
      ]

  -- `k` calls of `f` in a row, each with an error, which is printed; `last` is the last outcome.
  pub data Failures (f : Flunc S Ctx E) (ctx : Ctx)
      : ℕ → Outcome Ctx E → S → S → Outcome Ctx E → Type 0 where
    stop : {last : Outcome Ctx E} {s : S} → Failures f ctx 0 last s s last
    again :
        {k : ℕ} {last o : Outcome Ctx E} {s t u : S} {e : E}
        → f ctx s ≡ (t, failed e)
        → Failures f ctx k (failed e) (contexts.log_error ctx e t) u o
        → Failures f ctx (suc k) last s u o

  -- A call succeeds behind fewer than `n` that fail.
  pub record Succeeds (f : Flunc S Ctx E) (n : ℕ) (last : Outcome Ctx E) (ctx : Ctx) (s : S)
      (result : S × Outcome Ctx E) : Type 0 where
    pub failures : ℕ
    pub fewer : failures < n
    pub before : S
    pub latest : Outcome Ctx E
    pub failing : Failures f ctx failures last s before latest
    pub after : S
    pub child_ctx : Option Ctx
    pub succeeds : f ctx before ≡ (after, passed child_ctx)
    pub returned : result ≡ (after, passed child_ctx)

  pub record GivesUp (f : Flunc S Ctx E) (n : ℕ) (last : Outcome Ctx E) (ctx : Ctx) (s : S)
      (result : S × Outcome Ctx E) : Type 0 where
    pub after : S
    pub latest : Outcome Ctx E
    pub failing : Failures f ctx n last s after latest
    pub returned : result ≡ (after, latest)

  retry_from-cases :
      (f : Flunc S Ctx E) (n : ℕ) (last : Outcome Ctx E) (ctx : Ctx) (s : S)
      → Succeeds f n last ctx s (retry_from contexts n last f ctx s)
        ⊎ GivesUp f n last ctx s (retry_from contexts n last f ctx s)
  unfolding retry_from
  retry_from-cases f zero last ctx s =
      inr (record { after = s; latest = last; failing = stop; returned = refl })
  retry_from-cases f (suc n) last ctx s = elim (Run-cases (f ctx s)) [
    | inl (t, c, h) ↦ inl (record {
      failures = 0;
      fewer = omega arith;
      before = s;
      latest = last;
      failing = stop;
      after = t;
      child_ctx = c;
      succeeds = h;
      returned = rw (ap (λ p. p.1) h, retry_from) (ap (λ p. (p.0, passed c)) h);
    })
    | inr (t, e, h) ↦
        rw (ap (λ p. p.1) h, retry_from)
          (rw (ap (λ p. p.0) h)
            (elim (retry_from-cases f n (failed e) ctx (contexts.log_error ctx e t)) [
              | inl r ↦ inl (record {
                failures = suc r.failures;
                fewer = omega (arith, r.fewer);
                before = r.before;
                latest = r.latest;
                failing = again h r.failing;
                after = r.after;
                child_ctx = r.child_ctx;
                succeeds = r.succeeds;
                returned = r.returned;
              })
              | inr r ↦ inr (record {
                after = r.after;
                latest = r.latest;
                failing = again h r.failing;
                returned = r.returned;
              })
            ]))
  ]

  -- `Retry` with a logger calls its child until a call succeeds, `num_retries` times at most: either
  -- fewer calls than that fail in a row and the next one succeeds, whose outcome is returned,
  -- or just so many calls fail and the outcome of the last one is returned.
  pub retry-cases :
      (f : Flunc S Ctx E) (num_retries : ℕ) (ctx : Ctx) (s : S)
      → contexts.has_logger ctx ≡ true
      → Succeeds f num_retries (passed none) ctx s (retry contexts f num_retries ctx s)
        ⊎ GivesUp f num_retries (passed none) ctx s (retry contexts f num_retries ctx s)
  unfolding retry
  retry-cases f n ctx s h = rw (h, retry) (retry_from-cases f n (passed none) ctx s)

  bounded-Outcome :
      (f : Flunc S Ctx E) (ctx : Ctx) (s : S)
      → contexts.has_logger ctx ≡ true
      → (error_safeguard contexts (context_bounds contexts f) ctx s).1 ≡ passed none
  unfolding error_safeguard context_bounds
  bounded-Outcome f ctx s h =
      let (t, child_ctx) = contexts.with_cancel ctx s in
      rw (h, error_safeguard)
        (elim (Run-cases (f child_ctx t)) [
          | inl (u, c, r) ↦ rw (ap (λ p. p.1) r) refl
          | inr (u, e, r) ↦ rw (ap (λ p. p.1) r) refl
        ])

  -- A child in `ErrorSafeguard` around `ContextBounds`, as each host of a job is, that is called in
  -- a sequence with a logger and a context that is not done: whatever the child does, an error
  -- included, the children behind it are called with the context that it got.
  pub sequential_from-error_safeguard :
      (i : ℕ) (f : Flunc S Ctx E) (children : List (Option (Flunc S Ctx E))) (ctx : Ctx) (s : S)
      → contexts.has_logger ctx ≡ true
      → contexts.done ctx s ≡ none
      → let child = error_safeguard contexts (context_bounds contexts f) in
        sequential_from contexts i (some child ∷ children) ctx s
        ≡ sequential_from contexts (suc i) children ctx (child ctx s).0
  unfolding sequential_from
  sequential_from-error_safeguard i f children ctx s logger going =
      rw (going, sequential_from) (rw (bounded-Outcome f ctx s logger) refl)
