-- ===== src/Flunc.antt =====
-- The combinators of flunc/flunc.go that run one after the other, and those of
-- job/executionTree.go that wrap a Flunc. `S` is the world, `Ctx` a context and `E` an error.
pub mod Order
pub mod Parallel
use x_cuter.Common.{
  ℕ, zero, suc, ◌+◌, Bool, true, false, Option, none, some, List, [], ◌∷◌, if◌then◌else◌,
}

-- `(ctx, nil)`, the context being nil or not, or `(nil, err)`.
pub data Outcome (Ctx E : Type 0) : Type 0 where
  passed : Option Ctx → Outcome Ctx E
  failed : E → Outcome Ctx E

abbrev pub Flunc : Type 0 → Type 0 → Type 0 → Type 0
Flunc S Ctx E = Ctx → S → S × Outcome Ctx E

-- What the combinators use of package context, of package errors and of the job logger.
pub record Contexts (S Ctx E : Type 0) : Type 0 where
  -- `ctx.Err()`, which is nil until the context is done
  pub done : Ctx → S → Option E
  -- `context.WithCancel` and the cancel function of what it returns
  pub with_cancel : Ctx → S → S × Ctx
  pub cancel : Ctx → S → S
  -- `errs.Wrapf(err, "sequential flunc, child %d failed", i)`
  pub wrap_child : ℕ → E → E
  -- whether the context has a logger, and what is printed on it for an error
  pub has_logger : Ctx → Bool
  pub log_error : Ctx → E → S → S
  -- "error while setting up ...: no logger available"
  pub no_logger : E

module _ {S Ctx E : Type 0} (contexts : Contexts S Ctx E) where
  -- The context that the next child gets.
  abbrev pub passed_on : Ctx → Option Ctx → Ctx
  passed_on ctx none = ctx
  passed_on ctx (some child_ctx) = child_ctx

  -- The loop of `Sequential` from the child with the number `i` on; a child may be nil.
  unfoldable pub sequential_from : ℕ → List (Option (Flunc S Ctx E)) → Flunc S Ctx E
  sequential_from i [] ctx s = (s, passed (some ctx))
  sequential_from i (child ∷ children) ctx s = elim (contexts.done ctx s) [
    | some e ↦ (s, failed e)
    | none ↦ elim child [
      | none ↦ sequential_from (suc i) children ctx s
      | some f ↦
          (let (t, r) = f ctx s in
            elim r [
              | failed e ↦ (t, failed (contexts.wrap_child i e))
              | passed c ↦ sequential_from (suc i) children (passed_on ctx c) t
            ])
    ]
  ]

  abbrev pub sequential : List (Option (Flunc S Ctx E)) → Flunc S Ctx E
  sequential children = sequential_from 0 children

  -- `ErrorSafeguard`
  unfoldable pub error_safeguard : Flunc S Ctx E → Flunc S Ctx E
  error_safeguard f ctx s =
      if contexts.has_logger ctx
      then (let (t, r) = f ctx s in
          elim r [
            | failed e ↦ (contexts.log_error ctx e t, passed none)
            | passed c ↦ (t, passed c)
          ])
      else (s, failed contexts.no_logger)

  -- `ContextBounds`
  unfoldable pub context_bounds : Flunc S Ctx E → Flunc S Ctx E
  context_bounds f ctx s =
      let (t, child_ctx) = contexts.with_cancel ctx s in
      let (u, r) = f child_ctx t in
      (contexts.cancel child_ctx u, elim r [ passed c ↦ passed none | failed e ↦ failed e ])

  -- The loop of `Retry` with `n` attempts left, `last` being what the latest one has given.
  unfoldable pub retry_from : ℕ → Outcome Ctx E → Flunc S Ctx E → Flunc S Ctx E
  retry_from zero last f ctx s = (s, last)
  retry_from (suc n) last f ctx s =
      let (t, r) = f ctx s in
      elim r [
        | passed c ↦ (t, passed c)
        | failed e ↦ retry_from n (failed e) f ctx (contexts.log_error ctx e t)
      ]

  -- `Retry`
  unfoldable pub retry : Flunc S Ctx E → ℕ → Flunc S Ctx E
  unfolding retry_from
  retry f num_retries ctx s =
      if contexts.has_logger ctx
      then retry_from num_retries (passed none) f ctx s
      else (s, failed contexts.no_logger)
