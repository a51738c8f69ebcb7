-- ===== src/Tests/Goroutines.antt =====
-- Goroutines that run one after the other, in any world.
use x_cuter.Common.{
  All, All-weaken, length, ℕ, suc, ◌≡◌, refl, Option, none, some, List, [], ◌∷◌, inl, inr, ap, ◌∙◌,
}
use x_cuter.Common.Pointwise.{Pointwise}
use x_cuter.Flunc.Parallel.{Task, Goroutines, Arrival, from_child, stopped, Arrived, Answered}
use x_cuter.Telemetry.Same.Groups.{SameTask, SameSchedule}
use x_cuter.Telemetry.{Event}

-- One goroutine after the other, and the loop behind them.
abbrev pub one_by_one : {S E : Type 0} → List (Task S E) → S → S × List (Arrival E)
one_by_one [] s = (s, [])
one_by_one (t ∷ ts) s =
    let (u, o) = t s in let (v, later) = one_by_one ts u in (v, from_child o ∷ later)

Arrived-first :
    {S E : Type 0} (t : Task S E) (ts : List (Task S E)) (done : S → Option E) (s : S)
    (o : Option E)
    → (t s).1 ≡ o
    → Arrived (t ∷ ts) done (from_child o)
Arrived-first t ts done s none h = tt
Arrived-first t ts done s (some e) h = inl (s, h)

Arrived-later :
    {S E : Type 0} (t : Task S E) (ts : List (Task S E)) (done : S → Option E) (a : Arrival E)
    → Arrived ts done a
    → Arrived (t ∷ ts) done a
Arrived-later t ts done (from_child none) h = tt
Arrived-later t ts done (from_child (some e)) h = inr h
Arrived-later t ts done (stopped e) h = h

pub one_by_one-Arrived :
    {S E : Type 0} (tasks : List (Task S E)) (done : S → Option E) (s : S)
    → All (Arrived tasks done) (one_by_one tasks s).1
one_by_one-Arrived [] done s = tt
one_by_one-Arrived (t ∷ ts) done s = (
  Arrived-first t ts done s (t s).1 refl,
  All-weaken (Arrived ts done) (Arrived (t ∷ ts) done) _ (Arrived-later t ts done)
      (one_by_one-Arrived ts done (t s).0),
)

Answered-first :
    {E : Type 0} (o : Option E) (n : ℕ) (later : List (Arrival E))
    → Answered n later
    → Answered (suc n) (from_child o ∷ later)
Answered-first none n later h = h
Answered-first (some e) n later h = tt

pub one_by_one-Answered :
    {S E : Type 0} (tasks : List (Task S E)) (s : S)
    → Answered (length tasks) (one_by_one tasks s).1
one_by_one-Answered [] s = tt
one_by_one-Answered (t ∷ ts) s =
    Answered-first (t s).1 (length ts) _ (one_by_one-Answered ts (t s).0)

abbrev pub one_after_other : {S E : Type 0} → Goroutines S E
one_after_other = record {
  together = λ tasks done s. one_by_one tasks s;
  arrived = λ tasks done s. one_by_one-Arrived tasks done s;
  enough = λ tasks done s. one_by_one-Answered tasks s;
}

one_by_one-SameTask :
    {S E : Type 0} (tasks : List (Task S E)) (tasks' : List (Task (S × List Event) E)) (s : S)
    (events : List Event)
    → Pointwise SameTask tasks tasks'
    → ◌≡◌ {A = S × List (Arrival E)}
        ((one_by_one tasks' (s, events)).0.0, (one_by_one tasks' (s, events)).1)
        (one_by_one tasks s)
one_by_one-SameTask [] [] s events h = refl
one_by_one-SameTask [] (t' ∷ ts') s events h = elim h [ ]
one_by_one-SameTask (t ∷ ts) [] s events h = elim h [ ]
one_by_one-SameTask (t ∷ ts) (t' ∷ ts') s events (h, hs) =
    let first = t' (s, events) in
    ap (λ r. (r.0, from_child first.1 ∷ r.1)) (one_by_one-SameTask ts ts' first.0.0 first.0.1 hs)
    ∙ ap (λ r. let later = one_by_one ts r.0 in (later.0, from_child r.1 ∷ later.1)) (h s events)

pub one_after_other-SameSchedule :
    {S E : Type 0} → SameSchedule {S = S} {E = E} one_after_other one_after_other
one_after_other-SameSchedule tasks tasks' done s events h =
    one_by_one-SameTask tasks tasks' s events h
