-- ===== src/Events/Files.antt =====
-- What the events of the main loop of xCUTEr.go do to the jobs of the files they name.
use text.Mathlib.Text.{◌==◌ as str_eq}
use text.Mathlib.TextEquality.{eq_iff}
use x_cuter.Common.Assoc.{lookup, insert, lookup-insert}
use x_cuter.Common.{
  ◌≡◌, refl, ap, ◌∙◌, true, false, Option, none, some, Bool-cases, inl, inr, if◌then◌else◌, String,
}
use x_cuter.Events.{Event, handle_event, parse_and_add}
use x_cuter.Executor.{JobInfo, SchedInfo, Cron, Executor, add, remove}
use x_cuter.Executor.Keys.{KeysMatch, Reachable, adds, removes}
use x_cuter.Executor.Removal.{remove-Removed}

module _ {C : Type 0} (sched : Cron C) where
  parse_and_add-Reachable :
      (parsed : Option JobInfo) (e : Executor C)
      → Reachable sched e
      → Reachable sched (parse_and_add sched parsed e)
  parse_and_add-Reachable none e h = h
  parse_and_add-Reachable (some j) e h = adds j h

  handle_event-Reachable :
      (event : Event) (parsed : Option JobInfo) (e : Executor C)
      → Reachable sched e
      → Reachable sched (handle_event sched event parsed e)
  unfolding handle_event
  handle_event-Reachable event parsed e h = elim (Bool-cases event.create) [
    | inl c ↦ rw (c, handle_event) (parse_and_add-Reachable parsed e h)
    | inr c ↦
        rw (c, handle_event)
          (elim (Bool-cases event.delete) [
            | inl d ↦ rw d (removes event.name h)
            | inr d ↦ rw d (elim (Bool-cases event.rename) [
              | inl r ↦ rw r (removes event.name h)
              | inr r ↦ rw r (elim (Bool-cases event.write) [
                | inl w ↦ rw w (
                    parse_and_add-Reachable parsed (remove sched event.name e)
                      (removes event.name h))
                | inr w ↦ rw w h
              ])
            ])
          ])
  ]

  -- `Add` of a job with a cron schedule that the scheduler takes, when jobs need no activation.
  pub add_scheduled_job :
      (j : JobInfo) (e : Executor C) (id : String)
      → str_eq j.schedule "once" ≡ false
      → e.manual_active ≡ false
      → (sched.add_func j.schedule j e.cron).1 ≡ some id
      → ((add sched j e).0.scheduled ≡ insert j.file (record { id = id; j = j }) e.scheduled)
        × ((add sched j e).0.running ≡ e.running)
  unfolding add
  add_scheduled_job j e id o m g = rw (o, m, g, add) (refl, refl)

  -- A write event of a file, whose job has a cron schedule that the scheduler then takes under the
  -- number `id`, when jobs need no activation: the scheduled job of the file is the one parsed, with
  -- this id, the jobs scheduled from other files are as before, and no run of the file is on record.
  pub handle_event_write :
      (event : Event) (j : JobInfo) (id k : String) (e : Executor C)
      → KeysMatch e
      → event.create ≡ false
      → event.delete ≡ false
      → event.rename ≡ false
      → event.write ≡ true
      → j.file ≡ event.name
      → str_eq j.schedule "once" ≡ false
      → e.manual_active ≡ false
      → (sched.add_func j.schedule j (remove sched event.name e).cron).1 ≡ some id
      → let after = handle_event sched event (some j) e in
        (lookup k after.scheduled ≡ (
          if str_eq event.name k then some (record { id = id; j = j }) else lookup k e.scheduled))
        × (lookup event.name after.running ≡ none)
  unfolding handle_event
  handle_event_write event j id k e h c d r w file once manual gives =
      let e1 = remove sched event.name e in
      let removed = remove-Removed sched event.name e h in
      let self = (eq_iff event.name event.name).1 refl in
      let (put, same) = add_scheduled_job j e1 id once (removed.manual ∙ manual) gives in
      let info : SchedInfo = record { id = id; j = j } in
      rw (c, handle_event)
        (rw d (
          rw r (
            rw w (
              ap (lookup k) put
                  ∙ lookup-insert j.file k info e1.scheduled
                  ∙ elim (Bool-cases (str_eq event.name k)) [
                    | inl y ↦ rw (file, y) refl
                    | inr n ↦ rw (file, n) (removed.scheduled k ∙ rw n refl)
                  ],
              ap (lookup event.name) same ∙ removed.running event.name ∙ rw self refl,
            ))))
