-- ===== src/Executor.antt =====
-- The executor of executor.go: which jobs are inactive, scheduled, running and completed. A method
-- returns the new state; each holds its mutex over its whole body, so it is one step. A pointer
-- to a runInfo is the number of the run.
pub mod Keys
pub mod Removal
pub mod Runs
pub mod Live
pub mod Stale
use text.Mathlib.Text.{◌==◌ as str_eq}
use x_cuter.Common.Assoc.{lookup, insert, delete}
use x_cuter.Common.{
  ℕ, zero, suc, ◌+◌, ◌-◌, Bool, true, false, Option, none, some, List, [], ◌∷◌, ◌++◌, ltb, ◌||◌,
  ◌&&◌, map, if◌then◌else◌, length, drop, String,
}

-- The parts of a `jobInfo` and its Config that the executor looks at.
pub record JobInfo : Type 0 where
  pub file : String
  pub name : String
  pub schedule : String
  pub telemetry : Bool

pub record SchedInfo : Type 0 where
  pub id : String
  pub j : JobInfo

pub record RunInfo : Type 0 where
  pub number : ℕ
  pub j : JobInfo

-- The functions `schedule` and `remove` of the executor, those of package cron, over the state of
-- the scheduler: an id, or `none` for an error.
pub record Cron (C : Type 0) : Type 0 where
  pub add_func : String → JobInfo → C → C × Option String
  pub remove : String → C → C

-- `started` are the runs that the executor has handed to `run`, `cancelled` those whose context it
-- has cancelled, the latest last; `runs` numbers the runs.
pub record Executor (C : Type 0) : Type 0 where
  pub manual_active : Bool
  pub max_completed : ℕ
  pub inactive : List (String × SchedInfo)
  pub scheduled : List (String × SchedInfo)
  pub running : List (String × RunInfo)
  pub completed : List RunInfo
  pub cron : C
  pub runs : ℕ
  pub started : List RunInfo
  pub cancelled : List RunInfo

-- `GetRunning`: a slot of the slice for each entry, the index going up.
unfoldable pub get_running_from : List (String × RunInfo) → List (Option RunInfo)
get_running_from [] = []
get_running_from ((k, info) ∷ rest) = some info ∷ get_running_from rest

module _ {C : Type 0} where
  unfoldable pub add_running : RunInfo → Executor C → Executor C × Bool
  add_running info e = elim (lookup info.j.file e.running) [
    | some other ↦ (e, false)
    | none ↦ (record e { running = insert info.j.file info e.running }, true)
  ]

  abbrev pub remove_running : RunInfo → Executor C → Executor C
  remove_running info e = record e { running = delete info.j.file e.running }

  abbrev pub is_running : String → Executor C → Option RunInfo
  is_running file e = lookup file e.running

  abbrev pub get_running : Executor C → List (Option RunInfo)
  get_running e = get_running_from e.running

  -- `addComplete`: of more than `max_completed` entries the last ones are kept, unless that is 0.
  unfoldable pub add_complete : RunInfo → Executor C → Executor C
  add_complete info e =
      let all = e.completed ++ info ∷ [] in
      let over = ltb 0 e.max_completed && ltb e.max_completed (length all) in
      record e { completed = if over then drop (length all - e.max_completed) all else all }

  abbrev pub get_completed : Executor C → List RunInfo
  get_completed e = e.completed

  abbrev pub add_scheduled : SchedInfo → Executor C → Executor C
  add_scheduled info e = record e { scheduled = insert info.j.file info e.scheduled }

  abbrev pub remove_scheduled : SchedInfo → Executor C → Executor C
  remove_scheduled info e = record e { scheduled = delete info.j.file e.scheduled }

  abbrev pub is_scheduled : String → Executor C → Option SchedInfo
  is_scheduled file e = lookup file e.scheduled

  abbrev pub add_inactive : SchedInfo → Executor C → Executor C
  add_inactive info e = record e { inactive = insert info.j.file info e.inactive }

  abbrev pub remove_inactive : SchedInfo → Executor C → Executor C
  remove_inactive info e = record e { inactive = delete info.j.file e.inactive }

  abbrev pub is_inactive : String → Executor C → Option SchedInfo
  is_inactive file e = lookup file e.inactive

-- `make([]*schedInfo, n)`
unfoldable pub nils : ℕ → List (Option SchedInfo)
nils zero = []
nils (suc n) = none ∷ nils n

abbrev set_first : SchedInfo → List (Option SchedInfo) → List (Option SchedInfo)
set_first info [] = []
set_first info (x ∷ xs) = some info ∷ xs

-- The loops of `GetScheduled` and `GetInactive` over a map: the index stays 0.
unfoldable pub fill : List (String × SchedInfo) → List (Option SchedInfo) → List (Option SchedInfo)
fill [] slots = slots
fill ((k, info) ∷ rest) slots = fill rest (set_first info slots)

module _ {C : Type 0} where
  unfoldable pub get_scheduled : Executor C → List (Option SchedInfo)
  unfolding fill nils
  get_scheduled e = fill e.scheduled (nils (length e.scheduled))

  unfoldable pub get_inactive : Executor C → List (Option SchedInfo)
  unfolding fill nils
  get_inactive e = fill e.inactive (nils (length e.inactive))

  -- A new runInfo for the job, handed to `run`.
  abbrev pub start_run : JobInfo → Executor C → Executor C
  start_run j e = record e {
    runs = suc e.runs;
    started = e.started ++ record { number = e.runs; j = j } ∷ [];
  }

  -- `runInfo.run` up to the call of the job: the flag is whether the job is called. A run that is
  -- refused returns at once.
  abbrev pub begin_run : RunInfo → Executor C → Executor C × Bool
  begin_run info e = add_running info e

  -- What `runInfo.run` has deferred behind the call of the job, but for the call of its own cancel;
  -- taken for one step.
  unfoldable pub end_run : RunInfo → Executor C → Executor C
  unfolding add_complete
  end_run info e = add_complete info (remove_running info e)

module _ {C : Type 0} (cron : Cron C) where
  -- `Add`; the flag is whether no error is returned.
  unfoldable pub add : JobInfo → Executor C → Executor C × Bool
  add j e =
      if str_eq j.schedule "once"
      then (start_run j e, true)
      else if e.manual_active
      then (add_inactive (record { id = ""; j = j }) e, true)
      else (let (c, id) = cron.add_func j.schedule j e.cron in
          elim id [
            | none ↦ (record e { cron = c }, false)
            | some i ↦ (add_scheduled (record { id = i; j = j }) (record e { cron = c }), true)
          ])

  -- `Run`: the job at once, or as `Add` does.
  unfoldable pub run_job : JobInfo → Bool → Executor C → Executor C
  run_job j once e = if str_eq j.schedule "once" || once then start_run j e else (add j e).0

  -- The three parts of `Remove`.
  unfoldable pub drop_running : String → Executor C → Executor C
  drop_running file e = elim (is_running file e) [
    | none ↦ e
    | some info ↦
        let e' = remove_running info e in record e' { cancelled = e.cancelled ++ info ∷ [] }
  ]

  unfoldable pub drop_scheduled : String → Executor C → Executor C
  drop_scheduled file e = elim (is_scheduled file e) [
    | none ↦ e
    | some info ↦
        let e' = remove_scheduled info e in record e' { cron = cron.remove info.id e.cron }
  ]

  unfoldable pub drop_inactive : String → Executor C → Executor C
  drop_inactive file e = elim (is_inactive file e) [ none ↦ e | some info ↦ remove_inactive info e ]

  -- `Remove`
  unfoldable pub remove : String → Executor C → Executor C
  remove file e = drop_inactive file (drop_scheduled file (drop_running file e))

  -- `Activate`. What `schedule` returns is dropped, the id too.
  unfoldable pub activate : String → Executor C → Executor C
  activate file e = elim (is_inactive file e) [
    | none ↦ e
    | some info ↦
        let e' = remove_inactive info e in
        let (c, id) = cron.add_func info.j.schedule info.j e.cron in
        add_scheduled info (record e' { cron = c })
  ]

  unfoldable pub deactivate : String → Executor C → Executor C
  deactivate file e = elim (is_scheduled file e) [
    | none ↦ e
    | some info ↦
        let e' = remove_scheduled info e in
        add_inactive info (record e' { cron = cron.remove info.id e.cron })
  ]
