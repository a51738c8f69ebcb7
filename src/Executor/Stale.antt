-- ===== src/Executor/Stale.antt =====
-- What is out of date in the executor of executor.go: the scheduler's id of a job that was activated,
-- and the entry of a run whose file was removed meanwhile.
use text.Mathlib.TextEquality.{eq_iff}
use x_cuter.Common.Assoc.{lookup, insert, lookup-insert, lookup-delete_self}
use x_cuter.Common.{◌≡◌, refl, ap, ◌∙◌, true, none, some, ◌∷◌, [], ◌++◌, String}
use x_cuter.Executor.{
  SchedInfo, RunInfo, Cron, Executor, add_running, begin_run, end_run, remove, activate,
}
use x_cuter.Executor.Keys.{KeysMatch, activate-KeysMatch}
use x_cuter.Executor.Removal.{remove-Removed, unscheduling, cancelling}

module _ {C : Type 0} (sched : Cron C) where
  activate_found :
      (file : String) (e : Executor C) (info : SchedInfo)
      → lookup file e.inactive ≡ some info
      → ((activate sched file e).scheduled ≡ insert info.j.file info e.scheduled)
        × ((activate sched file e).cron ≡ (sched.add_func info.j.schedule info.j e.cron).0)
  unfolding activate
  activate_found file e info n = rw (n, activate) (refl, refl)

  -- On an executor whose maps hold their entries under the files of their jobs: activating an
  -- inactive job hands it to the scheduler, and removing its file then takes the entry out of the
  -- scheduler that the inactive job's own id names, whatever id the scheduler gave.
  pub remove-activate_cron :
      (file : String) (e : Executor C) (info : SchedInfo)
      → KeysMatch e
      → lookup file e.inactive ≡ some info
      → (remove sched file (activate sched file e)).cron
        ≡ sched.remove info.id (sched.add_func info.j.schedule info.j e.cron).0
  remove-activate_cron file e info h n =
      let (put, woken) = activate_found file e info n in
      let here = h.inactive file info n in
      let found : lookup file (activate sched file e).scheduled ≡ some info =
        rw (put, lookup-insert info.j.file file info e.scheduled)
          (rw ((eq_iff info.j.file file).1 here) refl) in
      let removed =
        remove-Removed sched file (activate sched file e) (activate-KeysMatch sched file e h) in
      removed.cron
      ∙ ap (λ o. unscheduling sched o (activate sched file e).cron) found
      ∙ ap (sched.remove info.id) woken

  begin_run_free :
      (info : RunInfo) (e : Executor C)
      → lookup info.j.file e.running ≡ none
      → ((begin_run info e).1 ≡ true) × ((begin_run info e).0.cancelled ≡ e.cancelled)
  unfolding add_running
  begin_run_free info e n = rw (n, add_running) (refl, refl)

  end_run_frees :
      (info : RunInfo) (e : Executor C)
      → (lookup info.j.file (end_run info e).running ≡ none)
        × ((end_run info e).cancelled ≡ e.cancelled)
  unfolding end_run
  end_run_frees info e = (lookup-delete_self info.j.file e.running, refl)

  -- On an executor whose maps hold their entries under the files of their jobs, and for three runs
  -- of one file: when the file is removed while the first is the run on record, the first is
  -- cancelled and the second is let in. When the first ends then, the third is let in too, though
  -- of the three the first alone has been cancelled and the second has not ended.
  pub begin_run-end_run_removed :
      (first second third : RunInfo) (e : Executor C)
      → KeysMatch e
      → second.j.file ≡ first.j.file
      → third.j.file ≡ first.j.file
      → lookup first.j.file e.running ≡ some first
      → let again = begin_run second (remove sched first.j.file e) in
        let ended = end_run first again.0 in
        (again.1 ≡ true)
        × ((begin_run third ended).1 ≡ true)
        × ((begin_run third ended).0.cancelled ≡ e.cancelled ++ first ∷ [])
  begin_run-end_run_removed first second third e h s t found =
      let file = first.j.file in
      let e1 = remove sched file e in
      let removed = remove-Removed sched file e h in
      let gone : lookup file e1.running ≡ none =
        rw (removed.running file, (eq_iff file file).1 refl) refl in
      let (let_in, kept) = begin_run_free second e1 (ap (λ f. lookup f e1.running) s ∙ gone) in
      let e2 = (begin_run second e1).0 in
      let (freed, ended) = end_run_frees first e2 in
      let e3 = end_run first e2 in
      let (third_in, still) = begin_run_free third e3 (ap (λ f. lookup f e3.running) t ∙ freed) in
      let cancelled : e1.cancelled ≡ e.cancelled ++ first ∷ [] =
        removed.cancelled ∙ ap (λ o. cancelling o e.cancelled) found in
      (let_in, third_in, still ∙ ended ∙ kept ∙ cancelled)
