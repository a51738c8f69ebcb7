-- ===== src/Executor/Runs.antt =====
-- The runs of the executor of executor.go: one of a file at a time, the completed ones that are
-- kept, and the lists that the user interface asks for.
use x_cuter.Common.{
  ◌≡◌, refl, true, Option, none, some, List, ◌∷◌, [], ◌++◌, inl, inr, if◌then◌else◌, String, arith,
  ltb, length, drop, length-append, take, take_append_drop, drop-append_le, ◌&&◌, length-drop, ℕ,
  ◌-◌, ◌≤◌, ◌<◌, suc, Bool-cases,
}
use x_cuter.Executor.{SchedInfo, RunInfo, Executor, add_complete, get_scheduled, fill, nils}

-- `addComplete` turns `before` into `after` when at most `max` runs are kept, 0 for all of them.
pub record Completes (max : ℕ) (info : RunInfo) (before after : List RunInfo) : Type 0 where
  pub dropped : List RunInfo
  pub kept : List RunInfo
  pub splits : dropped ++ kept ≡ before
  pub newest : after ≡ kept ++ info ∷ []
  pub size :
      length after
      ≡ (if ltb 0 max && ltb max (suc (length before)) then max else suc (length before))

over_max : (max l : ℕ) → ltb 0 max && ltb max l ≡ true → (0 < max) × (max < l)
over_max max l h = ground arith

length-snoc : (xs : List RunInfo) (x : RunInfo) → length (xs ++ x ∷ []) ≡ suc (length xs)
length-snoc xs x = omega (arith, length-append xs (x ∷ []))

module _ {C : Type 0} where
  -- Whatever was kept before, the completed runs behind `addComplete` are the latest of those
  -- before in their order, the new one behind them: `maxCompleted` of them if that is not 0 and
  -- there are more, and all of them otherwise.
  pub add_complete-Completes :
      (info : RunInfo) (e : Executor C)
      → Completes e.max_completed info e.completed (add_complete info e).completed
  unfolding add_complete
  add_complete-Completes info e =
      let max = e.max_completed in
      let l = length-snoc e.completed info in
      elim (Bool-cases (ltb 0 max && ltb max (suc (length e.completed)))) [
        | inl h ↦
            let all = e.completed ++ info ∷ [] in
            let n = suc (length e.completed) - max in
            let (p, q) = over_max max (suc (length e.completed)) h in
            let small : n ≤ length e.completed = omega arith in
            rw (l, h, add_complete)
              (record {
                dropped = take n e.completed;
                kept = drop n e.completed;
                splits = take_append_drop n e.completed;
                newest = drop-append_le n e.completed (info ∷ []) small;
                size = rw h (omega (arith, l, length-drop n all));
              })
        | inr h ↦
            rw (l, h, add_complete)
              (record {
                dropped = [];
                kept = e.completed;
                splits = refl;
                newest = refl;
                size = rw h l;
              })
      ]

-- The entry of a map that its loop meets last.
abbrev pub last_of : SchedInfo → List (String × SchedInfo) → SchedInfo
last_of info [] = info
last_of info ((k, next) ∷ rest) = last_of next rest

fill-cons :
    (k : String) (info : SchedInfo) (rest : List (String × SchedInfo)) (slot : Option SchedInfo)
    (slots : List (Option SchedInfo))
    → fill ((k, info) ∷ rest) (slot ∷ slots) ≡ some (last_of info rest) ∷ slots
unfolding fill
fill-cons k info [] slot slots = refl
fill-cons k info ((j, next) ∷ rest) slot slots = fill-cons j next rest (some info) slots

module _ {C : Type 0} where
  -- `GetScheduled` of an executor with scheduled jobs answers with as many slots as there are jobs,
  -- but the first holds the job that the loop met last and every other slot holds nil.
  pub get_scheduled_last :
      (e : Executor C) (k : String) (info : SchedInfo) (rest : List (String × SchedInfo))
      → e.scheduled ≡ (k, info) ∷ rest
      → get_scheduled e ≡ some (last_of info rest) ∷ nils (length rest)
  unfolding get_scheduled
  get_scheduled_last e k info rest h = rw h (fill-cons k info rest none (nils (length rest)))
