-- ===== src/Telemetry/Apply.antt =====
-- What Timing.Apply (timing.go) and Visualization.Apply (visualization.go) make of the events that
-- an instrumented Flunc stores.
use x_cuter.Common.Assoc.{lookup, lookup-insert}
use x_cuter.Common.{
  if◌then◌else◌, Option-cases, ℕ, ◌≡◌, refl, ap, ◌∙◌, ◌⊎◌, inl, inr, Bool, true, false, some, List,
  [], ◌∷◌, ◌++◌, All, String, arith,
}
use mathlib.Core.List.{append_assoc}
use text.Mathlib.Text.{◌==◌ as str_eq}
use text.Mathlib.TextEquality.{eq_iff}
use x_cuter.Flunc.{Outcome, passed, failed, Flunc}
use x_cuter.Telemetry.{
  event_log, Event, TimingNode, Timing, apply_node, apply, apply_store, start_of, end_of,
  instrument, Loggers, telemetry_context, sub, since, store,
}

-- The event is a message, or not one of the node `name`.
abbrev pub Other : String → Event → Type 0
Other name event = (event.event_type ≡ event_log) ⊎ (str_eq event.name name ≡ false)

pub apply_store-append :
    (pre post : List Event) (v : Timing)
    → apply_store (pre ++ post) v ≡ apply_store post (apply_store pre v)
unfolding apply_store
apply_store-append [] post v = refl
apply_store-append (e ∷ pre) post v = apply_store-append pre post (apply e v)

-- An event changes the node of its name, and no other.
lookup-apply :
    (event : Event) (name : String) (node : TimingNode) (v : Timing)
    → lookup name v.nodes ≡ some node
    → lookup name (apply event v).nodes ≡ (
        if str_eq event.name name
        then some (apply_node event.event_type event.timestamp node)
        else some node)
unfolding apply
lookup-apply event name node v h = elim (Option-cases (lookup event.name v.nodes)) [
  | inl n ↦ simp (apply, n) (ground (arith, eq_iff event.name name, n, h))
  | inr (d, n) ↦
      simp (apply, n)
        (ground (
          arith,
          eq_iff event.name name,
          n,
          h,
          lookup-insert event.name name (apply_node event.event_type event.timestamp d) v.nodes,
        ))
]

lookup-apply_self :
    (event : Event) (name : String) (node : TimingNode) (v : Timing)
    → event.name ≡ name
    → lookup name v.nodes ≡ some node
    → lookup name (apply event v).nodes ≡ some (apply_node event.event_type event.timestamp node)
lookup-apply_self event name node v same h =
    ground (arith, lookup-apply event name node v h, eq_iff event.name name)

if_same : {A : Type 0} (b : Bool) (a : A) → (if b then a else a) ≡ a
if_same true a = refl
if_same false a = refl

apply-Other :
    (event : Event) (name : String) (node : TimingNode) (v : Timing)
    → Other name event
    → lookup name v.nodes ≡ some node
    → lookup name (apply event v).nodes ≡ some node
unfolding apply_node
apply-Other event name node v (inl l) h =
    lookup-apply event name node v h ∙ simp l (if_same (str_eq event.name name) (some node))
apply-Other event name node v (inr l) h =
    let at = lookup-apply event name node v h in ground (arith, at, l)

apply_store-Other :
    (events : List Event) (name : String) (node : TimingNode) (v : Timing)
    → All (Other name) events
    → lookup name v.nodes ≡ some node
    → lookup name (apply_store events v).nodes ≡ some node
unfolding apply_store
apply_store-Other [] name node v a h = h
apply_store-Other (e ∷ es) name node v (o, a) h =
    apply_store-Other es name node (apply e v) a (apply-Other e name node v o h)

-- A Flunc stores only events with `P`, behind those that are there.
abbrev pub Adds : {S Ctx E : Type 0} → (Event → Type 0) → Flunc (S × List Event) Ctx E → Type 0
Adds {S} {Ctx} P f =
    (ctx : Ctx) (s : S) (events : List Event)
    → (later : List Event) × ((f ctx (s, events)).0.1 ≡ events ++ later) × All P later

-- The event that ends a call sets the running time, whatever the outcome.
apply_node-end_of :
    {Ctx E : Type 0} (r : Outcome Ctx E) (t : ℕ) (name : String) (node : TimingNode)
    → apply_node (end_of r t name).event_type (end_of r t name).timestamp node
      ≡ record node { runtime = since node.start t }
unfolding apply_node
apply_node-end_of (passed c) t name node = refl
apply_node-end_of (failed e) t name node = refl

name_of-end_of :
    {Ctx E : Type 0} (r : Outcome Ctx E) (t : ℕ) (name : String) → (end_of r t name).name ≡ name
name_of-end_of (passed c) t name = refl
name_of-end_of (failed e) t name = refl

-- The events of one call, applied to a timing that has the node.
call-runtime :
    {Ctx E : Type 0} (r : Outcome Ctx E) (begun stopped : ℕ) (name : String) (later : List Event)
    (v : Timing) (node : TimingNode)
    → All (Other name) later
    → lookup name v.nodes ≡ some node
    → lookup name
        (apply_store (start_of begun name ∷ (later ++ end_of r stopped name ∷ [])) v).nodes
      ≡ some (record { start = some begun; runtime = sub stopped begun })
unfolding apply_store apply_node since
call-runtime r begun stopped name later v node a h =
    let went : TimingNode = record { start = some begun; runtime = node.runtime } in
    let first = lookup-apply_self (start_of begun name) name node v refl h in
    let inner = apply_store-Other later name went (apply (start_of begun name) v) a first in
    let ended : List Event = end_of r stopped name ∷ [] in
    ap (λ w. lookup name w.nodes) (apply_store-append later ended (apply (start_of begun name) v))
    ∙ lookup-apply_self (end_of r stopped name) name went _ (name_of-end_of r stopped name) inner
    ∙ ap some (apply_node-end_of r stopped name went)

-- Behind a call of an instrumented Flunc that stores no event of its own but messages, the timing of
-- its name that the event store gives is the time from the start event to the end of the call,
-- whether the call has passed or failed, if the timing has a node of the name before the call.
pub instrument-runtime :
    {S Ctx E L : Type 0} (now : S → S × ℕ) (loggers : Loggers Ctx L) (name : String)
    (f : Flunc (S × List Event) Ctx E) (ctx : Ctx) (s : S) (events : List Event) (v : Timing)
    (node : TimingNode)
    → Adds (Other name) f
    → lookup name (apply_store events v).nodes ≡ some node
    → lookup name (apply_store (instrument now loggers name f ctx (s, events)).0.1 v).nodes
      ≡ some (record {
        start = some (now s).1;
        runtime =
            sub
              (now
                (f
                  (telemetry_context loggers name ctx)
                  ((now s).0, store (start_of (now s).1 name) events)).0.0).1
              (now s).1;
      })
unfolding instrument
instrument-runtime now loggers name f ctx s events v node a h =
    let begun = (now s).1 in
    let front : List Event = store (start_of begun name) events in
    let run = f (telemetry_context loggers name ctx) ((now s).0, front) in
    let stopped = (now run.0.0).1 in
    let ended : List Event = end_of run.1 stopped name ∷ [] in
    let (later, e, o) = a (telemetry_context loggers name ctx) (now s).0 front in
    let whole : run.0.1 ++ ended ≡ events ++ start_of begun name ∷ (later ++ ended) =
      ap (λ es. es ++ ended) e ∙ simp append_assoc in
    ap (λ es. lookup name (apply_store es v).nodes) whole
    ∙ ap (λ w. lookup name w.nodes)
        (apply_store-append events (start_of begun name ∷ (later ++ ended)) v)
    ∙ call-runtime run.1 begun stopped name later (apply_store events v) node o h
