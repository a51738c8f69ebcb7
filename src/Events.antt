-- ===== src/Events.antt =====
-- The main event loop of xCUTEr.go and the start of a single job file.
pub mod Files
pub mod Watcher
use text.Mathlib.Text.{◌==◌ as str_eq}
use x_cuter.Common.{
  Bool, true, false, Option, none, some, List, [], ◌∷◌, ◌||◌, if◌then◌else◌, String,
}
use x_cuter.Executor.{JobInfo, Cron, Executor, add, remove, run_job}

-- An `fsnotify.Event`: its file and, for each bit of `Op` that the loop tests, whether it is set.
pub record Event : Type 0 where
  pub name : String
  pub create : Bool
  pub delete : Bool
  pub rename : Bool
  pub write : Bool

module _ {C : Type 0} (cron : Cron C) where
  -- `j, err := e.parse(event.Name)` and what follows: `parsed` is the job, or `none` for an error.
  abbrev pub parse_and_add : Option JobInfo → Executor C → Executor C
  parse_and_add none e = e
  parse_and_add (some j) e = (add cron j e).0

  -- A round of the loop for an event, when `e.parse` gives `parsed` on the file of the event.
  unfoldable pub handle_event : Event → Option JobInfo → Executor C → Executor C
  handle_event event parsed e =
      if event.create
      then parse_and_add parsed e
      else if event.delete
      then remove cron event.name e
      else if event.rename
      then remove cron event.name e
      else if event.write
      then parse_and_add parsed (remove cron event.name e)
      else e

  -- The loop over the events that come, each with what `e.parse` gives then.
  abbrev pub event_loop : List (Event × Option JobInfo) → Executor C → Executor C
  event_loop [] e = e
  event_loop ((event, parsed) ∷ rest) e = event_loop rest (handle_event event parsed e)

  -- `New` with a single job file; the flag is whether the main context is cancelled behind it.
  abbrev pub run_single : JobInfo → Bool → Executor C → Executor C × Bool
  run_single j once e = (run_job cron j once e, str_eq j.schedule "once" || once)
