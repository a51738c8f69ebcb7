-- ===== src/Tests/Jobs.antt =====
-- A job file "a.job" in the executor and in the event loop.
use x_cuter.Common.Assoc.{lookup, insert}
use x_cuter.Common.{
  ℕ, ◌≡◌, refl, Bool, true, false, none, some, List, [], ◌∷◌, ◌++◌, String, if◌then◌else◌,
}
use x_cuter.Events.Files.{handle_event_write}
use x_cuter.Events.Watcher.Names.{deleted, watch-event_loop_stale}
use x_cuter.Events.Watcher.{watch, created, fs_event, is_job_file}
use x_cuter.Events.{Event, handle_event, event_loop}
use x_cuter.Executor.Keys.{
  KeysMatch, Reachable, empty, adds, begins as run_begins, Reachable-KeysMatch,
}
use x_cuter.Executor.Live.{Live, idle, begins, of_file, to_list, Live-Tracked}
use x_cuter.Executor.Removal.{Removed, remove-Removed}
use x_cuter.Executor.Runs.{Completes, add_complete-Completes, get_scheduled_last}
use x_cuter.Executor.Stale.{remove-activate_cron, begin_run-end_run_removed}
use x_cuter.Executor.{
  JobInfo, SchedInfo, RunInfo, Cron, Executor, add, add_complete, add_running, begin_run, end_run,
  remove, activate, get_scheduled, nils,
}

abbrev job : JobInfo
job = record { file = "a.job"; name = "backup"; schedule = "@daily"; telemetry = false }

-- A scheduler that keeps the ids that it was asked to remove, and gives each job the id "7".
abbrev cron : Cron (List String)
cron = record { add_func = λ schedule j c. (c, some "7"); remove = λ id c. c ++ id ∷ [] }

abbrev fresh : Bool → Executor (List String)
fresh manual = record {
  manual_active = manual;
  max_completed = 1;
  inactive = [];
  scheduled = [];
  running = [];
  completed = [];
  cron = [];
  runs = 0;
  started = [];
  cancelled = [];
}

abbrev run_of : ℕ → RunInfo
run_of n = record { number = n; j = job }

fresh-Reachable : Reachable cron (fresh false)
fresh-Reachable = empty refl refl refl

abbrev busy : Executor (List String)
busy = (add cron job (fresh false)).0

Reachable-KeysMatch_example : KeysMatch busy
Reachable-KeysMatch_example = Reachable-KeysMatch cron (adds job fresh-Reachable)

busy-KeysMatch : KeysMatch busy
busy-KeysMatch = Reachable-KeysMatch cron (adds job fresh-Reachable)

remove-Removed_example : Removed cron "a.job" busy (remove cron "a.job" busy)
remove-Removed_example = remove-Removed cron "a.job" busy busy-KeysMatch

add_complete-Completes_example :
    Completes 1
      (run_of 1)
      (run_of 0 ∷ [])
      (add_complete (run_of 1) (record (fresh false) { completed = run_of 0 ∷ [] })).completed
add_complete-Completes_example =
    add_complete-Completes (run_of 1) (record (fresh false) { completed = run_of 0 ∷ [] })

abbrev two_runs : Executor (List String)
two_runs = (begin_run (run_of 0) (fresh false)).0

first_run : Live cron two_runs (run_of 0 ∷ [])
unfolding add_running lookup
first_run = begins (run_of 0) (idle {e = fresh false} refl) refl

Live-Tracked_example : of_file "a.job" (run_of 0 ∷ []) ≡ to_list (lookup "a.job" two_runs.running)
Live-Tracked_example = Live-Tracked cron first_run "a.job"

abbrev waiting : SchedInfo
waiting = record { id = ""; j = job }

abbrev manual : Executor (List String)
manual = (add cron job (fresh true)).0

manual-KeysMatch : KeysMatch manual
manual-KeysMatch = Reachable-KeysMatch cron (adds job (empty refl refl refl))

waiting_found : lookup "a.job" manual.inactive ≡ some waiting
unfolding lookup insert add
waiting_found = refl

remove-activate_cron_example :
    (remove cron "a.job" (activate cron "a.job" manual)).cron
    ≡ cron.remove "" (cron.add_func "@daily" job manual.cron).0
remove-activate_cron_example =
    remove-activate_cron cron "a.job" manual waiting manual-KeysMatch waiting_found

two_runs-KeysMatch : KeysMatch two_runs
two_runs-KeysMatch = Reachable-KeysMatch cron (run_begins (run_of 0) fresh-Reachable)

run_found : lookup "a.job" two_runs.running ≡ some (run_of 0)
unfolding lookup insert add_running
run_found = refl

begin_run-end_run_removed_example :
    let again = begin_run (run_of 1) (remove cron "a.job" two_runs) in
    let ended = end_run (run_of 0) again.0 in
    (again.1 ≡ true)
    × ((begin_run (run_of 2) ended).1 ≡ true)
    × ((begin_run (run_of 2) ended).0.cancelled ≡ two_runs.cancelled ++ run_of 0 ∷ [])
begin_run-end_run_removed_example =
    begin_run-end_run_removed cron (run_of 0) (run_of 1) (run_of 2) two_runs two_runs-KeysMatch refl
      refl run_found

abbrev two_scheduled : Executor (List String)
two_scheduled = record (fresh false) {
  scheduled = ("a.job", waiting) ∷ ("b.job", record { id = "8"; j = job }) ∷ [];
}

get_scheduled_last_example :
    get_scheduled two_scheduled ≡ some (record { id = "8"; j = job }) ∷ nils 1
get_scheduled_last_example =
    get_scheduled_last two_scheduled "a.job" waiting (("b.job", record { id = "8"; j = job }) ∷ [])
      refl

abbrev write_event : Event
write_event = record {
  name = "a.job";
  create = false;
  delete = false;
  rename = false;
  write = true;
}

handle_event_write_example :
    let after = handle_event cron write_event (some job) (fresh false) in
    (lookup "a.job" after.scheduled ≡ (if true then some (record { id = "7"; j = job }) else none))
    × (lookup "a.job" after.running ≡ none)
handle_event_write_example =
    handle_event_write cron write_event job "7" "a.job" (fresh false)
      (Reachable-KeysMatch cron fresh-Reachable) refl refl refl refl refl refl refl refl

-- The directory "jobs" with the file "a.job".
watch-event_loop_stale_example :
    (watch (some ("a.job" ∷ [])) (fs_event (deleted "jobs/a.job") ∷ [])
      ≡ created "a.job" ∷ deleted "jobs/a.job" ∷ [])
    × (lookup "a.job"
          (event_loop cron
            ((created "a.job", some job) ∷ (deleted "jobs/a.job", none) ∷ [])
            (fresh false)).scheduled
        ≡ some (record { id = "7"; j = job }))
unfolding is_job_file
watch-event_loop_stale_example =
    watch-event_loop_stale cron "a.job" "jobs/a.job" "7" job (fresh false)
      (Reachable-KeysMatch cron fresh-Reachable) refl refl refl refl refl refl refl
