-- ===== src/Executor/Removal.antt =====
-- What `Remove` of executor.go leaves of a job file.
use text.Mathlib.Text.{◌==◌ as str_eq}
use x_cuter.Common.Assoc.{lookup, delete, lookup-delete, Keyed}
use x_cuter.Common.{
  ◌≡◌, refl, ap, ◌∙◌, Option, none, some, List, ◌∷◌, [], ◌++◌, Option-cases, inl, inr,
  if◌then◌else◌, String, arith,
}
use text.Mathlib.TextEquality.{eq_iff}
use x_cuter.Executor.{
  SchedInfo, RunInfo, Cron, Executor, drop_running, drop_scheduled, drop_inactive, remove,
  is_running, is_scheduled, is_inactive,
}
use x_cuter.Executor.Keys.{
  run_file, sched_file, KeysMatch, drop_running-KeysMatch, drop_scheduled-KeysMatch,
}

-- The runs that are cancelled once the run `r`, if there is one, is cancelled too.
abbrev pub cancelling : Option RunInfo → List RunInfo → List RunInfo
cancelling none runs = runs
cancelling (some r) runs = runs ++ r ∷ []

-- The scheduler once the entry of `s`, if there is one, is taken out.
abbrev pub unscheduling : {C : Type 0} → Cron C → Option SchedInfo → C → C
unscheduling cron none c = c
unscheduling cron (some s) c = cron.remove s.id c

-- All that `e'` may differ in from `e` when `file` is removed from it.
pub record Removed {C : Type 0} (sched : Cron C) (file : String) (e e' : Executor C) : Type 0 where
  pub running :
      (k : String) → lookup k e'.running ≡ (if str_eq file k then none else lookup k e.running)
  pub scheduled :
      (k : String) → lookup k e'.scheduled ≡ (if str_eq file k then none else lookup k e.scheduled)
  pub inactive :
      (k : String) → lookup k e'.inactive ≡ (if str_eq file k then none else lookup k e.inactive)
  pub cancelled : e'.cancelled ≡ cancelling (lookup file e.running) e.cancelled
  pub cron : e'.cron ≡ unscheduling sched (lookup file e.scheduled) e.cron
  pub completed : e'.completed ≡ e.completed
  pub started : e'.started ≡ e.started
  pub manual : e'.manual_active ≡ e.manual_active

module _ {ℓ} {V : Type ℓ} where
  -- A key that is not in a map is as good as deleted.
  lookup-absent :
      (k j : String) (m : List (String × V))
      → lookup k m ≡ none
      → lookup j m ≡ (if str_eq k j then none else lookup j m)
  lookup-absent k j m h = ground (arith, eq_iff k j)

  -- The deletion of the key that an entry says.
  lookup-delete_own :
      (f : V → String) (k : String) (v : V) (m : List (String × V))
      → Keyed f m
      → lookup k m ≡ some v
      → (j : String) → lookup j (delete (f v) m) ≡ (if str_eq k j then none else lookup j m)
  lookup-delete_own f k v m h found j = rw (h k v found) (lookup-delete k j m)

module _ {C : Type 0} (sched : Cron C) where
  drop_running-lookup :
      (file : String) (e : Executor C)
      → KeysMatch e
      → (k : String)
      → lookup k (drop_running sched file e).running
        ≡ (if str_eq file k then none else lookup k e.running)
  unfolding drop_running
  drop_running-lookup file e h k = elim (Option-cases (is_running file e)) [
    | inl n ↦ rw (n, drop_running) (lookup-absent file k e.running n)
    | inr (i, n) ↦ rw (n, drop_running) (lookup-delete_own run_file file i e.running h.running n k)
  ]

  drop_scheduled-lookup :
      (file : String) (e : Executor C)
      → KeysMatch e
      → (k : String)
      → lookup k (drop_scheduled sched file e).scheduled
        ≡ (if str_eq file k then none else lookup k e.scheduled)
  unfolding drop_scheduled
  drop_scheduled-lookup file e h k = elim (Option-cases (is_scheduled file e)) [
    | inl n ↦ rw (n, drop_scheduled) (lookup-absent file k e.scheduled n)
    | inr (i, n) ↦
        rw (n, drop_scheduled) (lookup-delete_own sched_file file i e.scheduled h.scheduled n k)
  ]

  drop_inactive-lookup :
      (file : String) (e : Executor C)
      → KeysMatch e
      → (k : String)
      → lookup k (drop_inactive sched file e).inactive
        ≡ (if str_eq file k then none else lookup k e.inactive)
  unfolding drop_inactive
  drop_inactive-lookup file e h k = elim (Option-cases (is_inactive file e)) [
    | inl n ↦ rw (n, drop_inactive) (lookup-absent file k e.inactive n)
    | inr (i, n) ↦
        rw (n, drop_inactive) (lookup-delete_own sched_file file i e.inactive h.inactive n k)
  ]

  -- Each part of `Remove` changes its own map, and the scheduler or the cancelled runs.
  record RunDropped (file : String) (e e' : Executor C) : Type 0 where
    scheduled : e'.scheduled ≡ e.scheduled
    inactive : e'.inactive ≡ e.inactive
    cancelled : e'.cancelled ≡ cancelling (lookup file e.running) e.cancelled
    cron : e'.cron ≡ e.cron
    completed : e'.completed ≡ e.completed
    started : e'.started ≡ e.started
    manual : e'.manual_active ≡ e.manual_active

  drop_running-RunDropped :
      (file : String) (e : Executor C) → RunDropped file e (drop_running sched file e)
  unfolding drop_running
  drop_running-RunDropped file e = elim (Option-cases (is_running file e)) [
    | inl n ↦
        rw (n, drop_running)
          (record {
            scheduled = refl;
            inactive = refl;
            cancelled = rw n refl;
            cron = refl;
            completed = refl;
            started = refl;
            manual = refl;
          })
    | inr (i, n) ↦
        rw (n, drop_running)
          (record {
            scheduled = refl;
            inactive = refl;
            cancelled = rw n refl;
            cron = refl;
            completed = refl;
            started = refl;
            manual = refl;
          })
  ]

  record SchedDropped (file : String) (e e' : Executor C) : Type 0 where
    running : e'.running ≡ e.running
    inactive : e'.inactive ≡ e.inactive
    cancelled : e'.cancelled ≡ e.cancelled
    cron : e'.cron ≡ unscheduling sched (lookup file e.scheduled) e.cron
    completed : e'.completed ≡ e.completed
    started : e'.started ≡ e.started
    manual : e'.manual_active ≡ e.manual_active

  drop_scheduled-SchedDropped :
      (file : String) (e : Executor C) → SchedDropped file e (drop_scheduled sched file e)
  unfolding drop_scheduled
  drop_scheduled-SchedDropped file e = elim (Option-cases (is_scheduled file e)) [
    | inl n ↦
        rw (n, drop_scheduled)
          (record {
            running = refl;
            inactive = refl;
            cancelled = refl;
            cron = rw n refl;
            completed = refl;
            started = refl;
            manual = refl;
          })
    | inr (i, n) ↦
        rw (n, drop_scheduled)
          (record {
            running = refl;
            inactive = refl;
            cancelled = refl;
            cron = rw n refl;
            completed = refl;
            started = refl;
            manual = refl;
          })
  ]

  record InactiveDropped (e e' : Executor C) : Type 0 where
    running : e'.running ≡ e.running
    scheduled : e'.scheduled ≡ e.scheduled
    cancelled : e'.cancelled ≡ e.cancelled
    cron : e'.cron ≡ e.cron
    completed : e'.completed ≡ e.completed
    started : e'.started ≡ e.started
    manual : e'.manual_active ≡ e.manual_active

  drop_inactive-InactiveDropped :
      (file : String) (e : Executor C) → InactiveDropped e (drop_inactive sched file e)
  unfolding drop_inactive
  drop_inactive-InactiveDropped file e = elim (Option-cases (is_inactive file e)) [
    | inl n ↦
        rw (n, drop_inactive)
          (record {
            running = refl;
            scheduled = refl;
            cancelled = refl;
            cron = refl;
            completed = refl;
            started = refl;
            manual = refl;
          })
    | inr (i, n) ↦
        rw (n, drop_inactive)
          (record {
            running = refl;
            scheduled = refl;
            cancelled = refl;
            cron = refl;
            completed = refl;
            started = refl;
            manual = refl;
          })
  ]

  -- On an executor whose maps hold their entries under the files of their jobs, `Remove` takes a
  -- file out of the running, the scheduled and the inactive jobs and no other file out of any. It
  -- cancels the run of the file if one is running, takes the entry of the file out of the scheduler
  -- by its id if it has one, and changes neither the completed runs,
  -- nor the runs started, nor whether jobs need activation.
  pub remove-Removed :
      (file : String) (e : Executor C) → KeysMatch e → Removed sched file e (remove sched file e)
  unfolding remove
  remove-Removed file e h =
      let e1 = drop_running sched file e in
      let e2 = drop_scheduled sched file e1 in
      let r = drop_running-RunDropped file e in
      let s = drop_scheduled-SchedDropped file e1 in
      let i = drop_inactive-InactiveDropped file e2 in
      let h1 = drop_running-KeysMatch sched file e h in
      let h2 = drop_scheduled-KeysMatch sched file e1 h1 in
      record {
        running = λ k. ap (lookup k) (i.running ∙ s.running) ∙ drop_running-lookup file e h k;
        scheduled = λ k.
            ap (lookup k) i.scheduled
            ∙ drop_scheduled-lookup file e1 h1 k
            ∙ ap (λ m. if str_eq file k then none else lookup k m) r.scheduled;
        inactive = λ k.
            drop_inactive-lookup file e2 h2 k
            ∙ ap (λ m. if str_eq file k then none else lookup k m) (s.inactive ∙ r.inactive);
        cancelled = i.cancelled ∙ s.cancelled ∙ r.cancelled;
        cron =
            i.cron
            ∙ s.cron
            ∙ ap (λ m. unscheduling sched (lookup file m) e1.cron) r.scheduled
            ∙ ap (unscheduling sched (lookup file e.scheduled)) r.cron;
        completed = i.completed ∙ s.completed ∙ r.completed;
        started = i.started ∙ s.started ∙ r.started;
        manual = i.manual ∙ s.manual ∙ r.manual;
      }
