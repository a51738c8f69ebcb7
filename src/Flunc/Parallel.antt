-- ===== src/Flunc/Parallel.antt =====
-- `Parallel` of flunc/flunc.go. That goroutines run at once, and in which order what they send
-- arrives, is the Go runtime's doing: it is a parameter with what the code relies on.
use x_cuter.Common.{
  zero, All, length, subst, ◌∙◌, inl, inr, ℕ, suc, ◌≡◌, ◌⊎◌, Option, none, some, List, [], ◌∷◌,
}
use x_cuter.Flunc.{Outcome, passed, failed, Flunc, Contexts}

-- The error that a goroutine sends, if any.
abbrev pub Task : Type 0 → Type 0 → Type 0
Task S E = S → S × Option E

-- One of the tasks ends with the error `e` in some world.
abbrev pub Sends : {S E : Type 0} → E → List (Task S E) → Type 0
Sends e [] = ⊥
Sends {S} e (t ∷ ts) = ((s : S) × ((t s).1 ≡ some e)) ⊎ Sends e ts

-- What the loop of `Parallel` receives in a turn: what a goroutine sends on the channel, or that the
-- context is done, with its error.
pub data Arrival (E : Type 0) : Type 0 where
  from_child : Option E → Arrival E
  stopped : E → Arrival E

-- An error that arrives is sent by a task, or is that of the context.
abbrev pub Arrived : {S E : Type 0} → List (Task S E) → (S → Option E) → Arrival E → Type 0
Arrived tasks done (from_child none) = Unit
Arrived tasks done (from_child (some e)) = Sends e tasks
Arrived {S} tasks done (stopped e) = (t : S) × (done t ≡ some e)

-- The arrivals are enough for a loop of `n` turns.
abbrev pub Answered : {E : Type 0} → ℕ → List (Arrival E) → Type 0
Answered zero arrivals = Unit
Answered (suc n) [] = ⊥
Answered (suc n) (from_child none ∷ arrivals) = Answered n arrivals
Answered (suc n) (from_child (some e) ∷ arrivals) = Unit
Answered (suc n) (stopped e ∷ arrivals) = Unit

-- The goroutines of the tasks, run together with the loop: the world behind the loop and what it
-- receives, in the order of arrival; every task ends and so sends, unless the context is done first.
pub record Goroutines (S E : Type 0) : Type 0 where
  pub together : List (Task S E) → (S → Option E) → S → S × List (Arrival E)
  pub arrived :
      (tasks : List (Task S E)) (done : S → Option E) (s : S)
      → All (Arrived tasks done) (together tasks done s).1
  pub enough :
      (tasks : List (Task S E)) (done : S → Option E) (s : S)
      → Answered (length tasks) (together tasks done s).1

-- The loop of `Parallel` with `n` turns left; without an arrival it blocks, which `Answered` excludes.
unfoldable pub wait : {E : Type 0} → ℕ → List (Arrival E) → Option E
wait zero arrivals = none
wait (suc n) [] = none
wait (suc n) (from_child (some e) ∷ arrivals) = some e
wait (suc n) (from_child none ∷ arrivals) = wait n arrivals
wait (suc n) (stopped e ∷ arrivals) = some e

-- The error that the loop returns is one that has arrived.
pub wait-Arrived :
    {S E : Type 0} (tasks : List (Task S E)) (done : S → Option E) (n : ℕ)
    (arrivals : List (Arrival E)) (e : E)
    → All (Arrived tasks done) arrivals
    → wait n arrivals ≡ some e
    → Sends e tasks ⊎ ((t : S) × (done t ≡ some e))
unfolding wait
wait-Arrived tasks done zero arrivals e a h = cc
wait-Arrived tasks done (suc n) [] e a h = cc
wait-Arrived tasks done (suc n) (from_child none ∷ arrivals) e (a, rest) h =
    wait-Arrived tasks done n arrivals e rest h
wait-Arrived {S} {E} tasks done (suc n) (from_child (some x) ∷ arrivals) e (a, rest) h =
    let same : x ≡ e = cc in inl (subst (λ y. Sends y tasks) same a)
wait-Arrived tasks done (suc n) (stopped x ∷ arrivals) e (a, rest) h = inr (a.0, a.1 ∙ h)

-- What a goroutine sends on the channel; `wrap` is
-- `errs.Wrapf(err, "parallel flunc, child %d failed", i)`.
unfoldable pub sent_error : {Ctx E : Type 0} → (ℕ → E → E) → ℕ → Outcome Ctx E → Option E
sent_error wrap i (passed c) = none
sent_error wrap i (failed e) = some (wrap i e)

module _ {S Ctx E : Type 0} (wrap : ℕ → E → E) where
  -- The goroutines for the children from the number `i` on, but those that are nil.
  unfoldable pub tasks_from : ℕ → List (Option (Flunc S Ctx E)) → Ctx → List (Task S E)
  unfolding sent_error
  tasks_from i [] ctx = []
  tasks_from i (none ∷ children) ctx = tasks_from (suc i) children ctx
  tasks_from i (some f ∷ children) ctx =
      (λ s. let (t, r) = f ctx s in (t, sent_error wrap i r)) ∷ tasks_from (suc i) children ctx

module _ {S Ctx E : Type 0} (contexts : Contexts S Ctx E) (go : Goroutines S E)
    (wrap : ℕ → E → E) where
  abbrev pub first_outcome : Option E → Outcome Ctx E
  first_outcome none = passed none
  first_outcome (some e) = failed e

  -- `Parallel`
  unfoldable pub parallel : List (Option (Flunc S Ctx E)) → Flunc S Ctx E
  unfolding tasks_from wait
  parallel children ctx s = elim (contexts.done ctx s) [
    | some e ↦ (s, passed none)
    | none ↦
        let (t, child_ctx) = contexts.with_cancel ctx s in
        let tasks = tasks_from wrap 0 children child_ctx in
        let (u, arrivals) = go.together tasks (contexts.done ctx) t in
        (contexts.cancel child_ctx u, first_outcome (wait (length tasks) arrivals))
  ]
