-- ===== src/Telemetry/Nodes.antt =====
-- The status of the nodes of a tree, of telemetry/visualization.go.
use x_cuter.Common.Assoc.{lookup, insert}
use x_cuter.Common.{ℕ, none, some, List, [], ◌∷◌, ◌++◌, String}
use x_cuter.Telemetry.{EventType, event_start, event_log, event_end, event_failed, LogInfo, Event}

pub data NodeStatus : Type 0 where
  state_ready state_running state_completed state_failed : NodeStatus

-- `L` are the leaves, which print a log event.
pub record VisualizationNode (L : Type 0) : Type 0 where
  pub status : NodeStatus
  pub leaves : List L

abbrev pub show_node :
    {L : Type 0}
    → (ℕ → LogInfo → L)
    → EventType
    → ℕ
    → LogInfo
    → VisualizationNode L
    → VisualizationNode L
show_node leaf event_start time info node = record node { status = state_running }
show_node leaf event_end time info node = record node { status = state_completed }
show_node leaf event_failed time info node = record node { status = state_failed }
show_node leaf event_log time info node = record node {
  leaves = node.leaves ++ leaf time info ∷ [];
}

-- `Visualization.Apply` on the nodes.
unfoldable pub show :
    {L : Type 0}
    → (ℕ → LogInfo → L)
    → Event
    → List (String × VisualizationNode L)
    → List (String × VisualizationNode L)
unfolding lookup insert
show leaf event nodes = elim (lookup event.name nodes) [
  | none ↦ nodes
  | some node ↦
      insert event.name (show_node leaf event.event_type event.timestamp event.info node) nodes
]

unfoldable pub show_store :
    {L : Type 0}
    → (ℕ → LogInfo → L)
    → List Event
    → List (String × VisualizationNode L)
    → List (String × VisualizationNode L)
unfolding show
show_store leaf [] nodes = nodes
show_store leaf (event ∷ events) nodes = show_store leaf events (show leaf event nodes)
