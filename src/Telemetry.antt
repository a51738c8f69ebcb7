-- ===== src/Telemetry.antt =====
-- Package telemetry: events (event.go), the instrumented Flunc (telemetry.go), the messages of the
-- telemetry logger (logger.go) and the timing of hosts (timing.go). A time is a number of nanoseconds; the zero time is none.
pub mod Brackets
pub mod Apply
pub mod Nodes
pub mod Status
pub mod Naming
pub mod Visual
pub mod Printing
pub mod Builder
pub mod TimingBuilder
pub mod Same
use text.Mathlib.Text.{◌==◌ as str_eq}
use x_cuter.Common.Assoc.{lookup, insert}
use x_cuter.Common.{
  ℕ, zero, suc, ◌-◌, ◌^◌, ◌==◌, leb, Bool, true, false, Option, none, some, List, [], ◌∷◌, ◌++◌,
  Bytes, if◌then◌else◌, String, ℤ, pos, negsuc, take, length,
}
use x_cuter.Flunc.{Outcome, passed, failed, Flunc}
use x_cuter.Job.{Host}
use x_cuter.Logging.{NodeLogger, plain, telemetry, Origin, nil, origin, find_original, origin_of}

pub data EventType : Type 0 where
  event_start event_log event_end event_failed : EventType

pub record LogInfo : Type 0 where
  pub file : String
  pub message : Bytes
  pub line : ℕ

pub record Event : Type 0 where
  pub event_type : EventType
  pub timestamp : ℕ
  pub name : String
  pub info : LogInfo

-- The zero value of an event's information.
abbrev pub no_info : LogInfo
no_info = record { file = ""; message = []; line = 0 }

-- `store`, `Get` and `Reset` of an EventStore, each under its lock: the events that it holds.
abbrev pub store : Event → List Event → List Event
store event events = events ++ event ∷ []

abbrev pub get_events : List Event → List Event
get_events events = events

abbrev pub reset : List Event → List Event × List Event
reset events = ([], events)

-- The end of a message without its newline; a message that is empty is a panic, here `none`.
unfoldable pub without_newline : Bytes → Option Bytes
without_newline [] = none
without_newline (c ∷ []) = some (if c == b'\n' then [] else c ∷ [])
without_newline (c ∷ d ∷ rest) = elim (without_newline (d ∷ rest)) [
  | none ↦ none
  | some m ↦ some (c ∷ m)
]

-- `telemetryLogger.Log` for the node `name`, called at a line of a file.
unfoldable pub log : String → String → ℕ → ℕ → Bytes → List Event → Option (List Event)
unfolding without_newline
log name file line time message events = elim (without_newline message) [
  | none ↦ none
  | some m ↦ some (
      store
        (record {
          event_type = event_log;
          timestamp = time;
          name = name;
          info = record { file = file; message = m; line = line };
        })
        events)
]

abbrev pub plain_event : EventType → ℕ → String → Event
plain_event t time name = record { event_type = t; timestamp = time; name = name; info = no_info }

abbrev pub start_of : ℕ → String → Event
start_of time name = plain_event event_start time name

-- The event that ends a call with this outcome.
abbrev pub end_of : {Ctx E : Type 0} → Outcome Ctx E → ℕ → String → Event
end_of (passed c) time name = plain_event event_end time name
end_of (failed e) time name = plain_event event_failed time name

-- The value of a context under the key of loggers.
pub record Loggers (Ctx L : Type 0) : Type 0 where
  pub get_logger : Ctx → Origin L
  pub put_logger : NodeLogger L → Ctx → Ctx

-- `telemetryContext` of `instrument`.
abbrev pub telemetry_context : {Ctx L : Type 0} → Loggers Ctx L → String → Ctx → Ctx
telemetry_context loggers name ctx =
    loggers.put_logger (telemetry name (origin_of (find_original (loggers.get_logger ctx)))) ctx

-- `instrument` in a world with the events: `now` is `time.Now`. The name and the Flunc are not
-- empty.
unfoldable pub instrument :
    {S Ctx E L : Type 0}
    → (S → S × ℕ)
    → Loggers Ctx L
    → String
    → Flunc (S × List Event) Ctx E
    → Flunc (S × List Event) Ctx E
instrument now loggers name f ctx (s, events) =
    let (s₁, begun) = now s in
    let ((s₂, later), r) =
      f (telemetry_context loggers name ctx) (s₁, store (start_of begun name) events) in
    let (s₃, stopped) = now s₂ in ((s₃, store (end_of r stopped name) later), r)

pub record TimingNode : Type 0 where
  pub start : Option ℕ
  pub runtime : ℤ

-- `Hosts` maps the hosts to nodes that `nodes` maps names to: here, to the names.
pub record Timing : Type 0 where
  pub job_start : Option ℕ
  pub nodes : List (String × TimingNode)
  pub job_runtime : ℤ
  pub hosts : List (Host × String)

-- `t.Sub(u)`; from the zero time it is the largest duration. Other spans that
-- are too long for a duration are not cut.
unfoldable pub sub : ℕ → ℕ → ℤ
sub t u = if leb u t then pos (t - u) else negsuc (u - t - 1)

unfoldable pub since : Option ℕ → ℕ → ℤ
unfolding sub
since none t = pos (2 ^ 63 - 1)
since (some u) t = sub t u

-- `v.start` behind the first statement of `Apply`.
abbrev pub started : EventType → ℕ → Option ℕ → Option ℕ
started kind time (some t) = some t
started event_start time none = some time
started event_log time none = none
started event_end time none = none
started event_failed time none = none

-- What `Apply` does with the node of the event.
abbrev pub end_node : ℕ → TimingNode → TimingNode
end_node time node = record node { runtime = since node.start time }

unfoldable pub apply_node : EventType → ℕ → TimingNode → TimingNode
apply_node event_start time node = record node { start = some time }
apply_node event_log time node = node
apply_node event_end time node = end_node time node
apply_node event_failed time node = end_node time node

-- `JobRuntime` behind an event of a node.
abbrev pub job_time : EventType → ℕ → Option ℕ → ℤ → ℤ
job_time event_end time (some u) old = sub time u
job_time event_failed time (some u) old = sub time u
job_time event_start time t old = old
job_time event_log time t old = old
job_time event_end time none old = old
job_time event_failed time none old = old

-- `Timing.Apply`
unfoldable pub apply : Event → Timing → Timing
unfolding apply_node lookup insert
apply event v =
    let begun = started event.event_type event.timestamp v.job_start in
    elim (lookup event.name v.nodes) [
      | none ↦ record v { job_start = begun }
      | some node ↦ record v {
        job_start = begun;
        nodes = insert event.name (apply_node event.event_type event.timestamp node) v.nodes;
        job_runtime = job_time event.event_type event.timestamp begun v.job_runtime;
      }
    ]

-- `ApplyStore`, and `ApplyChan` until the channel is closed.
unfoldable pub apply_store : List Event → Timing → Timing
unfolding apply
apply_store [] v = v
apply_store (event ∷ events) v = apply_store events (apply event v)

-- `storeNode` of the timing builder.
abbrev pub store_node : String → Host → Timing → Timing
store_node name host v = record v {
  nodes = insert name (record { start = none; runtime = pos 0 }) v.nodes;
  hosts = (host, name) ∷ v.hosts;
}
