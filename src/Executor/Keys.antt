-- ===== src/Executor/Keys.antt =====
-- Every map of the executor holds its entries under the file of their job.
use x_cuter.Common.Assoc.{lookup, Keyed, Keyed-nil, Keyed-insert, Keyed-delete}
use text.Mathlib.Text.{◌==◌ as str_eq}
use x_cuter.Common.{◌≡◌, ◌||◌, [], Bool, Bool-cases, Option-cases, inl, inr, String}
use x_cuter.Executor.{
  JobInfo, SchedInfo, RunInfo, Cron, Executor, add_running, begin_run, end_run, add, run_job,
  drop_running, drop_scheduled, drop_inactive, remove, activate, deactivate, is_running,
  is_scheduled, is_inactive,
}

abbrev pub run_file : RunInfo → String
run_file info = info.j.file

abbrev pub sched_file : SchedInfo → String
sched_file info = info.j.file

pub record KeysMatch {C : Type 0} (e : Executor C) : Type 0 where
  pub running : Keyed run_file e.running
  pub scheduled : Keyed sched_file e.scheduled
  pub inactive : Keyed sched_file e.inactive

module _ {C : Type 0} where
  -- A run that begins or ends keeps the keys.
  pub add_running-KeysMatch :
      (info : RunInfo) (e : Executor C) → KeysMatch e → KeysMatch (add_running info e).0
  unfolding add_running
  add_running-KeysMatch info e h = elim (Option-cases (lookup info.j.file e.running)) [
    | inl n ↦
        rw (n, add_running)
          (record {
            running = Keyed-insert run_file info e.running h.running;
            scheduled = h.scheduled;
            inactive = h.inactive;
          })
    | inr (o, n) ↦ rw (n, add_running) h
  ]

  pub end_run-KeysMatch :
      (info : RunInfo) (e : Executor C) → KeysMatch e → KeysMatch (end_run info e)
  unfolding end_run
  end_run-KeysMatch info e h = record {
    running = Keyed-delete run_file info.j.file e.running h.running;
    scheduled = h.scheduled;
    inactive = h.inactive;
  }

module _ {C : Type 0} (cron : Cron C) where
  pub add-KeysMatch : (j : JobInfo) (e : Executor C) → KeysMatch e → KeysMatch (add cron j e).0
  unfolding add
  add-KeysMatch j e h = elim (Bool-cases (str_eq j.schedule "once")) [
    | inl once ↦
        rw once (record { running = h.running; scheduled = h.scheduled; inactive = h.inactive })
    | inr cyclic ↦ rw cyclic (elim (Bool-cases e.manual_active) [
      | inl manual ↦ rw manual (record {
        running = h.running;
        scheduled = h.scheduled;
        inactive = Keyed-insert sched_file (record { id = ""; j = j }) e.inactive h.inactive;
      })
      | inr ordinary ↦ rw ordinary (elim (Option-cases (cron.add_func j.schedule j e.cron).1) [
        | inl fails ↦
            rw fails
              (record { running = h.running; scheduled = h.scheduled; inactive = h.inactive })
        | inr (i, gives) ↦ rw gives (record {
          running = h.running;
          scheduled = Keyed-insert sched_file (record { id = i; j = j }) e.scheduled h.scheduled;
          inactive = h.inactive;
        })
      ])
    ])
  ]

  pub drop_running-KeysMatch :
      (file : String) (e : Executor C) → KeysMatch e → KeysMatch (drop_running cron file e)
  unfolding drop_running
  drop_running-KeysMatch file e h = elim (Option-cases (is_running file e)) [
    | inl n ↦ rw (n, drop_running) h
    | inr (i, n) ↦
        rw (n, drop_running)
          (record {
            running = Keyed-delete run_file i.j.file e.running h.running;
            scheduled = h.scheduled;
            inactive = h.inactive;
          })
  ]

  pub drop_scheduled-KeysMatch :
      (file : String) (e : Executor C) → KeysMatch e → KeysMatch (drop_scheduled cron file e)
  unfolding drop_scheduled
  drop_scheduled-KeysMatch file e h = elim (Option-cases (is_scheduled file e)) [
    | inl n ↦ rw (n, drop_scheduled) h
    | inr (i, n) ↦
        rw (n, drop_scheduled)
          (record {
            running = h.running;
            scheduled = Keyed-delete sched_file i.j.file e.scheduled h.scheduled;
            inactive = h.inactive;
          })
  ]

  drop_inactive-KeysMatch :
      (file : String) (e : Executor C) → KeysMatch e → KeysMatch (drop_inactive cron file e)
  unfolding drop_inactive
  drop_inactive-KeysMatch file e h = elim (Option-cases (is_inactive file e)) [
    | inl n ↦ rw (n, drop_inactive) h
    | inr (i, n) ↦
        rw (n, drop_inactive)
          (record {
            running = h.running;
            scheduled = h.scheduled;
            inactive = Keyed-delete sched_file i.j.file e.inactive h.inactive;
          })
  ]

  pub remove-KeysMatch :
      (file : String) (e : Executor C) → KeysMatch e → KeysMatch (remove cron file e)
  unfolding remove
  remove-KeysMatch file e h =
      let e1 = drop_running cron file e in
      let e2 = drop_scheduled cron file e1 in
      drop_inactive-KeysMatch file e2
        (drop_scheduled-KeysMatch file e1 (drop_running-KeysMatch file e h))

  pub activate-KeysMatch :
      (file : String) (e : Executor C) → KeysMatch e → KeysMatch (activate cron file e)
  unfolding activate
  activate-KeysMatch file e h = elim (Option-cases (is_inactive file e)) [
    | inl n ↦ rw (n, activate) h
    | inr (i, n) ↦
        rw (n, activate)
          (record {
            running = h.running;
            scheduled = Keyed-insert sched_file i e.scheduled h.scheduled;
            inactive = Keyed-delete sched_file i.j.file e.inactive h.inactive;
          })
  ]

  pub deactivate-KeysMatch :
      (file : String) (e : Executor C) → KeysMatch e → KeysMatch (deactivate cron file e)
  unfolding deactivate
  deactivate-KeysMatch file e h = elim (Option-cases (is_scheduled file e)) [
    | inl n ↦ rw (n, deactivate) h
    | inr (i, n) ↦
        rw (n, deactivate)
          (record {
            running = h.running;
            scheduled = Keyed-delete sched_file i.j.file e.scheduled h.scheduled;
            inactive = Keyed-insert sched_file i e.inactive h.inactive;
          })
  ]

-- The states that the executor's methods lead to from one without jobs.
pub data Reachable {C : Type 0} (sched : Cron C) : Executor C → Type 0 where
  empty : {e : Executor C} → e.running ≡ [] → e.scheduled ≡ [] → e.inactive ≡ [] → Reachable sched e
  begins :
      {e : Executor C} (info : RunInfo) → Reachable sched e → Reachable sched (begin_run info e).0
  ends : {e : Executor C} (info : RunInfo) → Reachable sched e → Reachable sched (end_run info e)
  adds : {e : Executor C} (j : JobInfo) → Reachable sched e → Reachable sched (add sched j e).0
  runs :
      {e : Executor C} (j : JobInfo) (once : Bool)
      → Reachable sched e
      → Reachable sched (run_job sched j once e)
  removes :
      {e : Executor C} (file : String) → Reachable sched e → Reachable sched (remove sched file e)
  activates :
      {e : Executor C} (file : String) → Reachable sched e → Reachable sched (activate sched file e)
  deactivates :
      {e : Executor C} (file : String)
      → Reachable sched e
      → Reachable sched (deactivate sched file e)

module _ {C : Type 0} (sched : Cron C) where
  run_job-KeysMatch :
      (j : JobInfo) (once : Bool) (e : Executor C)
      → KeysMatch e
      → KeysMatch (run_job sched j once e)
  unfolding run_job
  run_job-KeysMatch j once e h = elim (Bool-cases (str_eq j.schedule "once" || once)) [
    | inl now ↦
        rw (now, run_job)
          (record { running = h.running; scheduled = h.scheduled; inactive = h.inactive })
    | inr later ↦ rw (later, run_job) (add-KeysMatch sched j e h)
  ]

  -- In every state that the executor's methods lead to, in any order and with any runs, from one
  -- without jobs, each entry of the running, the scheduled and the inactive jobs stands under the
  -- file of its own job.
  pub Reachable-KeysMatch : {e : Executor C} → Reachable sched e → KeysMatch e
  Reachable-KeysMatch (empty {e} r s i) = record {
    running = rw r (Keyed-nil run_file);
    scheduled = rw s (Keyed-nil sched_file);
    inactive = rw i (Keyed-nil sched_file);
  }
  Reachable-KeysMatch (begins {e} info h) = add_running-KeysMatch info e (Reachable-KeysMatch h)
  Reachable-KeysMatch (ends {e} info h) = end_run-KeysMatch info e (Reachable-KeysMatch h)
  Reachable-KeysMatch (adds {e} j h) = add-KeysMatch sched j e (Reachable-KeysMatch h)
  Reachable-KeysMatch (runs {e} j once h) = run_job-KeysMatch j once e (Reachable-KeysMatch h)
  Reachable-KeysMatch (removes {e} file h) = remove-KeysMatch sched file e (Reachable-KeysMatch h)
  Reachable-KeysMatch (activates {e} file h) =
      activate-KeysMatch sched file e (Reachable-KeysMatch h)
  Reachable-KeysMatch (deactivates {e} file h) =
      deactivate-KeysMatch sched file e (Reachable-KeysMatch h)
