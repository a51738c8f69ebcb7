-- ===== src/Events/Watcher/Names.antt =====
-- What the names of the watcher's events (fs.go) do in the main loop (xCUTEr.go).
use text.Mathlib.Text.{◌==◌ as str_eq}
use text.Mathlib.TextEquality.{eq_iff}
use x_cuter.Common.Assoc.{lookup, lookup-insert}
use x_cuter.Common.{◌≡◌, refl, ap, ◌∙◌, true, false, none, some, [], ◌∷◌, arith, String}
use x_cuter.Events.Files.{add_scheduled_job}
use x_cuter.Events.Watcher.{fs_event, created, existing, forwarded, is_job_file, watch}
use x_cuter.Events.{Event, handle_event, event_loop}
use x_cuter.Executor.{JobInfo, SchedInfo, Cron, Executor, add}
use x_cuter.Executor.Keys.{KeysMatch, add-KeysMatch}
use x_cuter.Executor.Removal.{remove-Removed}

abbrev pub deleted : String → Event
deleted name = record { name = name; create = false; delete = true; rename = false; write = false }

-- The watcher of a directory that holds the one job file `base` sends a create event with that name,
-- and when the file is deleted later it sends the delete event as package fsnotify gives it, with
-- another name, `path`, which has the directory. If the job parsed for the first event has the file
-- `base` and a cron schedule that the scheduler takes under the number `id`, then behind both events
-- the job of the deleted file is still scheduled; on an executor whose maps hold their entries under
-- the files of their jobs, when jobs need no activation.
pub watch-event_loop_stale :
    {C : Type 0} (cron : Cron C) (base path id : String) (j : JobInfo) (e : Executor C)
    → KeysMatch e
    → is_job_file base ≡ true
    → is_job_file path ≡ true
    → str_eq path base ≡ false
    → j.file ≡ base
    → str_eq j.schedule "once" ≡ false
    → e.manual_active ≡ false
    → (cron.add_func j.schedule j e.cron).1 ≡ some id
    → (watch (some (base ∷ [])) (fs_event (deleted path) ∷ []) ≡ created base ∷ deleted path ∷ [])
      × (lookup base
            (event_loop cron ((created base, some j) ∷ (deleted path, none) ∷ []) e).scheduled
          ≡ some (record { id = id; j = j }))
unfolding watch existing forwarded handle_event
watch-event_loop_stale cron base path id j e h b p other file once manual gives =
    let info : SchedInfo = record { id = id; j = j } in
    let (put, same) = add_scheduled_job cron j e id once manual gives in
    (
      rw (b, p) refl,
      (remove-Removed cron path (add cron j e).0 (add-KeysMatch cron j e h)).scheduled base
          ∙ rw other (
              ap (lookup base) put
              ∙ ground
                  (arith, lookup-insert j.file base info e.scheduled, eq_iff j.file base, file)),
    )
