-- ===== src/Telemetry/Status.antt =====
-- What Visualization.Apply (visualization.go) makes of the events of a call.
use text.Mathlib.Text.{◌==◌ as str_eq}
use text.Mathlib.TextEquality.{eq_iff}
use x_cuter.Common.Assoc.{lookup, lookup-insert, String-cases}
use x_cuter.Common.{
  ℕ, ◌≡◌, refl, sym, subst, ap, ◌∙◌, inl, inr, false, some, List, [], ◌∷◌, ◌++◌, All, String, arith,
  Option-cases,
}
use x_cuter.Flunc.{Outcome, passed, failed, Flunc}
use x_cuter.Telemetry.Apply.{Other, Adds}
use x_cuter.Telemetry.{
  EventType, event_start, event_log, event_end, event_failed, Event, start_of, end_of, plain_event,
  instrument, LogInfo, Loggers, telemetry_context, store,
}
use x_cuter.Telemetry.Nodes.{
  NodeStatus, state_running, state_completed, state_failed, VisualizationNode, show_node, show,
  show_store,
}

-- The status that the end of a call gives its node.
abbrev pub status_of : {Ctx E : Type 0} → Outcome Ctx E → NodeStatus
status_of (passed c) = state_completed
status_of (failed e) = state_failed

-- The node of the name has this status.
abbrev pub HasStatus :
    {L : Type 0} → String → NodeStatus → List (String × VisualizationNode L) → Type 0
HasStatus {L} name status nodes =
    (node : VisualizationNode L) × (lookup name nodes ≡ some node) × (node.status ≡ status)

-- A Flunc that fails with what it is called with.
abbrev pub probe : {S Ctx : Type 0} → Flunc (S × List Event) Ctx (Ctx × (S × List Event))
probe ctx s = (s, failed (ctx, s))

module _ {L : Type 0} (leaf : ℕ → LogInfo → L) where
  show_store-append :
      (pre post : List Event) (nodes : List (String × VisualizationNode L))
      → show_store leaf (pre ++ post) nodes ≡ show_store leaf post (show_store leaf pre nodes)
  unfolding show_store
  show_store-append [] post nodes = refl
  show_store-append (e ∷ pre) post nodes = show_store-append pre post (show leaf e nodes)

  -- An event changes the node of its name, and no other.
  lookup-show_self :
      (event : Event) (name : String) (node : VisualizationNode L)
      (nodes : List (String × VisualizationNode L))
      → event.name ≡ name
      → lookup name nodes ≡ some node
      → lookup name (show leaf event nodes)
        ≡ some (show_node leaf event.event_type event.timestamp event.info node)
  unfolding show
  lookup-show_self event name node nodes same h =
      let new = show_node leaf event.event_type event.timestamp event.info node in
      let at : lookup event.name nodes ≡ some node = ap (λ n. lookup n nodes) same ∙ h in
      simp (show, at)
        (ground (arith, lookup-insert event.name name new nodes, eq_iff event.name name, same))

  lookup-show_other :
      (event : Event) (name : String) (nodes : List (String × VisualizationNode L))
      → str_eq event.name name ≡ false
      → lookup name (show leaf event nodes) ≡ lookup name nodes
  unfolding show
  lookup-show_other event name nodes other = elim (Option-cases (lookup event.name nodes)) [
    | inl n ↦ simp (show, n)
    | inr (d, n) ↦
        let new = show_node leaf event.event_type event.timestamp event.info d in
        simp (show, n) (ground (arith, lookup-insert event.name name new nodes, other))
  ]

  log_keeps :
      (kind : EventType) (time : ℕ) (info : LogInfo) (node : VisualizationNode L)
      → kind ≡ event_log
      → (show_node leaf kind time info node).status ≡ node.status
  log_keeps event_log time info node h = refl
  log_keeps event_start time info node h = cc
  log_keeps event_end time info node h = cc
  log_keeps event_failed time info node h = cc

  show-Other :
      (event : Event) (name : String) (status : NodeStatus)
      (nodes : List (String × VisualizationNode L))
      → Other name event
      → HasStatus name status nodes
      → HasStatus name status (show leaf event nodes)
  show-Other event name status nodes (inr other) (node, h, e) =
      (node, lookup-show_other event name nodes other ∙ h, e)
  show-Other event name status nodes (inl log) (node, h, e) = elim (String-cases event.name name) [
    | inr t ↦ (
      node,
      lookup-show_other event name nodes (ground (arith, t, eq_iff event.name name)) ∙ h,
      e,
    )
    | inl t ↦ (
      _,
      lookup-show_self event name node nodes t h,
      log_keeps event.event_type event.timestamp event.info node log ∙ e,
    )
  ]

  show_store-Other :
      (events : List Event) (name : String) (status : NodeStatus)
      (nodes : List (String × VisualizationNode L))
      → All (Other name) events
      → HasStatus name status nodes
      → HasStatus name status (show_store leaf events nodes)
  unfolding show_store
  show_store-Other [] name status nodes a h = h
  show_store-Other (e ∷ es) name status nodes (o, a) h =
      show_store-Other es name status (show leaf e nodes) a (show-Other e name status nodes o h)

  show-end_of :
      {Ctx E : Type 0} (r : Outcome Ctx E) (time : ℕ) (name : String) (status : NodeStatus)
      (nodes : List (String × VisualizationNode L))
      → HasStatus name status nodes
      → HasStatus name (status_of r) (show leaf (end_of r time name) nodes)
  show-end_of (passed c) time name status nodes (node, h, e) =
      (_, lookup-show_self (plain_event event_end time name) name node nodes refl h, refl)
  show-end_of (failed x) time name status nodes (node, h, e) =
      (_, lookup-show_self (plain_event event_failed time name) name node nodes refl h, refl)

  -- A call of an instrumented Flunc that stores no event of its own node but messages, the node
  -- being there before the call with any status. When that Flunc ends, which was called with what
  -- `instrument` calls any Flunc with, here one that fails with it, the node is shown as running;
  -- and behind the call it is shown as completed if the call has passed, and as failed if it has
  -- failed.
  pub instrument-status :
      {S Ctx E K : Type 0} (now : S → S × ℕ) (loggers : Loggers Ctx K) (name : String)
      (f : Flunc (S × List Event) Ctx E) (ctx : Ctx) (s : S) (events : List Event)
      (nodes : List (String × VisualizationNode L)) (before : NodeStatus)
      → Adds (Other name) f
      → HasStatus name before (show_store leaf events nodes)
      → let call = instrument now loggers name f ctx (s, events) in
        (within : Ctx) × (begun : S × List Event) × ((instrument now loggers name probe ctx
            (s, events)).1
          ≡ failed (within, begun))
        × HasStatus name state_running (show_store leaf (f within begun).0.1 nodes)
        × HasStatus name (status_of call.1) (show_store leaf call.0.1 nodes)
  unfolding instrument show show_store
  instrument-status now loggers name f ctx s events nodes before a (node, h, e) =
      let begun = start_of (now s).1 name in
      let front : List Event = store begun events in
      let run = f (telemetry_context loggers name ctx) ((now s).0, front) in
      let ended : Event = end_of run.1 (now run.0.0).1 name in
      let (later, stored, o) = a (telemetry_context loggers name ctx) (now s).0 front in
      let started = lookup-show_self begun name node (show_store leaf events nodes) refl h in
      let inner = show_store-Other later name state_running _ o (_, started, refl) in
      let unrolled : show_store leaf run.0.1 nodes
          ≡ show_store leaf later (show leaf begun (show_store leaf events nodes)) =
        ap (λ es. show_store leaf es nodes) stored
        ∙ show_store-append front later nodes
        ∙ ap (show_store leaf later) (show_store-append events (begun ∷ []) nodes) in
      let running = subst (HasStatus name state_running) (sym unrolled) inner in
      (
        telemetry_context loggers name ctx,
        ((now s).0, front),
        refl,
        running,
        subst (HasStatus name (status_of run.1))
            (sym (show_store-append run.0.1 (ended ∷ []) nodes))
            (show-end_of run.1 _ name state_running (show_store leaf run.0.1 nodes) running),
      )
