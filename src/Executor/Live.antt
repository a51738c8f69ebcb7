-- ===== src/Executor/Live.antt =====
-- The runs of a job file that are under way, as `runInfo.run` and the executor's methods interleave.
use text.Mathlib.Text.{◌==◌ as str_eq}
use text.Mathlib.TextEquality.{eq_iff}
use x_cuter.Common.Assoc.{lookup, insert, lookup-insert, lookup-delete}
use x_cuter.Common.{
  ◌≡◌, refl, ap, sym, ◌∙◌, true, false, Option, none, some, List, ◌∷◌, [], ◌++◌, Option-cases,
  Bool-cases, inl, inr, if◌then◌else◌, String, arith,
}
use x_cuter.Executor.{
  JobInfo, RunInfo, Cron, Executor, add_running, begin_run, end_run, add, activate, deactivate,
  is_scheduled, is_inactive,
}

-- The runs of `runs` whose job stands in the file `k`.
unfoldable pub of_file : String → List RunInfo → List RunInfo
of_file k [] = []
of_file k (r ∷ rs) = let rest = of_file k rs in if str_eq r.j.file k then r ∷ rest else rest

abbrev pub to_list : Option RunInfo → List RunInfo
to_list none = []
to_list (some r) = r ∷ []

-- `Live e runs`: the executor reaches the state `e` while the runs `runs` are in the call of their
-- job, by any interleaving of the runs with `Add`, `Activate` and `Deactivate`.
pub data Live {C : Type 0} (sched : Cron C) : Executor C → List RunInfo → Type 0 where
  idle : {e : Executor C} → e.running ≡ [] → Live sched e []
  begins :
      {e : Executor C} {runs : List RunInfo} (info : RunInfo)
      → Live sched e runs
      → (begin_run info e).1 ≡ true
      → Live sched (begin_run info e).0 (info ∷ runs)
  refused :
      {e : Executor C} {runs : List RunInfo} (info : RunInfo)
      → Live sched e runs
      → (begin_run info e).1 ≡ false
      → Live sched (begin_run info e).0 runs
  ends :
      {e : Executor C} (before : List RunInfo) (info : RunInfo) (after : List RunInfo)
      → Live sched e (before ++ info ∷ after)
      → Live sched (end_run info e) (before ++ after)
  adds :
      {e : Executor C} {runs : List RunInfo} (j : JobInfo)
      → Live sched e runs
      → Live sched (add sched j e).0 runs
  activates :
      {e : Executor C} {runs : List RunInfo} (file : String)
      → Live sched e runs
      → Live sched (activate sched file e) runs
  deactivates :
      {e : Executor C} {runs : List RunInfo} (file : String)
      → Live sched e runs
      → Live sched (deactivate sched file e) runs

-- The runs under way of each file are the one that the executor holds for the file, if any.
abbrev pub Tracked : {C : Type 0} → Executor C → List RunInfo → Type 0
Tracked e runs = (k : String) → of_file k runs ≡ to_list (lookup k e.running)

of_file-append :
    (k : String) (xs ys : List RunInfo) → of_file k (xs ++ ys) ≡ of_file k xs ++ of_file k ys
unfolding of_file
of_file-append k [] ys = refl
of_file-append k (x ∷ xs) ys = elim (Bool-cases (str_eq x.j.file k)) [
  | inl h ↦ rw (h, of_file-append k xs ys) refl
  | inr h ↦ rw (h, of_file-append k xs ys) refl
]

of_file_same :
    (k : String) (r : RunInfo) (rs : List RunInfo)
    → str_eq r.j.file k ≡ true
    → of_file k (r ∷ rs) ≡ r ∷ of_file k rs
unfolding of_file
of_file_same k r rs h = rw h refl

of_file_other :
    (k : String) (r : RunInfo) (rs : List RunInfo)
    → str_eq r.j.file k ≡ false
    → of_file k (r ∷ rs) ≡ of_file k rs
unfolding of_file
of_file_other k r rs h = rw h refl

-- A list of at most one run that a run splits is that run alone.
to_list_single :
    (xs ys : List RunInfo) (x : RunInfo) (o : Option RunInfo)
    → xs ++ x ∷ ys ≡ to_list o
    → xs ++ ys ≡ []
to_list_single [] ys x none h = cc
to_list_single (z ∷ xs) ys x none h = cc
to_list_single [] [] x (some r) h = refl
to_list_single [] (y ∷ ys) x (some r) h = cc
to_list_single (z ∷ []) ys x (some r) h = cc
to_list_single (z ∷ w ∷ xs) ys x (some r) h = cc

module _ {C : Type 0} where
  begin_run_accepts :
      (info : RunInfo) (e : Executor C)
      → (begin_run info e).1 ≡ true
      → (lookup info.j.file e.running ≡ none)
        × ((begin_run info e).0.running ≡ insert info.j.file info e.running)
  unfolding add_running
  begin_run_accepts info e h = elim (Option-cases (lookup info.j.file e.running)) [
    | inl n ↦ (n, rw (n, add_running) refl)
    | inr (r, n) ↦ ground arith
  ]

  begin_run_refuses :
      (info : RunInfo) (e : Executor C)
      → (begin_run info e).1 ≡ false
      → (begin_run info e).0.running ≡ e.running
  unfolding add_running
  begin_run_refuses info e h = elim (Option-cases (lookup info.j.file e.running)) [
    | inl n ↦ ground arith
    | inr (r, n) ↦ rw (n, add_running) refl
  ]

  begin_run-Tracked :
      (info : RunInfo) (e : Executor C) (runs : List RunInfo)
      → Tracked e runs
      → (begin_run info e).1 ≡ true
      → Tracked (begin_run info e).0 (info ∷ runs)
  unfolding of_file
  begin_run-Tracked info e runs t h k =
      let (n, added) = begin_run_accepts info e h in
      rw (added, lookup-insert info.j.file k info e.running)
        (elim (Bool-cases (str_eq info.j.file k)) [
          | inl same ↦
              let eq = (eq_iff info.j.file k).0 same in
              let free = ap (λ f. lookup f e.running) (sym eq) ∙ n in
              rw same (ap (◌∷◌ info) (t k ∙ ap to_list free))
          | inr other ↦ rw other (t k)
        ])

  end_run-Tracked :
      (info : RunInfo) (e : Executor C) (before after : List RunInfo)
      → Tracked e (before ++ info ∷ after)
      → Tracked (end_run info e) (before ++ after)
  unfolding end_run
  end_run-Tracked info e before after t k =
      let tk : of_file k before ++ of_file k (info ∷ after) ≡ to_list (lookup k e.running) =
        sym (of_file-append k before (info ∷ after)) ∙ t k in
      rw (of_file-append k before after, lookup-delete info.j.file k e.running)
        (elim (Bool-cases (str_eq info.j.file k)) [
          | inl same ↦ rw same (
              to_list_single (of_file k before) (of_file k after) info (lookup k e.running)
                (ap (◌++◌ (of_file k before)) (sym (of_file_same k info after same)) ∙ tk))
          | inr other ↦
              rw other (ap (◌++◌ (of_file k before)) (sym (of_file_other k info after other)) ∙ tk)
        ])

module _ {C : Type 0} (sched : Cron C) where
  add-running : (j : JobInfo) (e : Executor C) → (add sched j e).0.running ≡ e.running
  unfolding add
  add-running j e = elim (Bool-cases (str_eq j.schedule "once")) [
    | inl once ↦ rw once refl
    | inr cyclic ↦ rw cyclic (elim (Bool-cases e.manual_active) [
      | inl manual ↦ rw manual refl
      | inr ordinary ↦ rw ordinary (elim (Option-cases (sched.add_func j.schedule j e.cron).1) [
        | inl fails ↦ rw fails refl
        | inr (i, gives) ↦ rw gives refl
      ])
    ])
  ]

  activate-running : (file : String) (e : Executor C) → (activate sched file e).running ≡ e.running
  unfolding activate
  activate-running file e = elim (Option-cases (is_inactive file e)) [
    | inl n ↦ rw (n, activate) refl
    | inr (i, n) ↦ rw (n, activate) refl
  ]

  deactivate-running :
      (file : String) (e : Executor C) → (deactivate sched file e).running ≡ e.running
  unfolding deactivate
  deactivate-running file e = elim (Option-cases (is_scheduled file e)) [
    | inl n ↦ rw (n, deactivate) refl
    | inr (i, n) ↦ rw (n, deactivate) refl
  ]

  -- From an executor without runs, however runs of jobs begin and end, and whatever jobs are
  -- added, activated and deactivated in between, as long as no file is removed: the runs under way
  -- of a file are exactly the run that the executor holds for that file if it holds one, and none
  -- else.
  pub Live-Tracked : {e : Executor C} {runs : List RunInfo} → Live sched e runs → Tracked e runs
  unfolding of_file lookup
  Live-Tracked (idle h) k = rw h refl
  Live-Tracked (begins {e} {runs} info l h) k = begin_run-Tracked info e runs (Live-Tracked l) h k
  Live-Tracked (refused {e} info l h) k = rw (begin_run_refuses info e h) (Live-Tracked l k)
  Live-Tracked (ends {e} before info after l) k =
      end_run-Tracked info e before after (Live-Tracked l) k
  Live-Tracked (adds {e} j l) k = rw (add-running j e) (Live-Tracked l k)
  Live-Tracked (activates {e} file l) k = rw (activate-running file e) (Live-Tracked l k)
  Live-Tracked (deactivates {e} file l) k = rw (deactivate-running file e) (Live-Tracked l k)
