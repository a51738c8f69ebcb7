-- ===== src/Tests/Timing.antt =====
-- A Flunc in a world that is a clock: the time goes on by 5 with each call.
use mathlib.Core.List.{append-nil}
use x_cuter.Common.Assoc.{lookup}
use x_cuter.Common.{ℕ, ◌+◌, ◌≡◌, refl, sym, true, none, some, List, [], ◌∷◌, String, pos}
use x_cuter.Flunc.{passed, failed, Flunc, Contexts, sequential_from}
use x_cuter.Telemetry.Apply.{Other, Adds, instrument-runtime}
use x_cuter.Telemetry.Status.{probe, HasStatus, status_of, instrument-status}
use x_cuter.Telemetry.Brackets.{
  Nests, KeepsEvents, quiet, leaf, instrumented, in_order, tree, no_trees, Tree-Nests,
}
use x_cuter.Logging.{nil}
use x_cuter.Telemetry.{Event, Timing, apply_store, instrument, Loggers, sub}
use x_cuter.Telemetry.Nodes.{VisualizationNode, state_ready, state_running, show_store}

abbrev now : ℕ → ℕ × ℕ
now t = (t, t)

abbrev no_loggers : Loggers ℕ ℕ
no_loggers = record { get_logger = λ ctx. nil; put_logger = λ l ctx. ctx }

abbrev works : Flunc (ℕ × List Event) ℕ ℕ
works ctx (t, events) = ((t + 5, events), passed none)

works-Adds : Adds (Other "ls") works
works-Adds ctx s events = ([], sym (append-nil events), tt)

abbrev timing : Timing
timing = record {
  job_start = none;
  nodes = ("ls", record { start = none; runtime = pos 0 }) ∷ [];
  job_runtime = pos 0;
  hosts = [];
}

instrument-runtime_example :
    lookup "ls" (apply_store (instrument now no_loggers "ls" works 0 (100, [])).0.1 timing).nodes
    ≡ some (record { start = some 100; runtime = sub 105 100 })
unfolding lookup apply_store
instrument-runtime_example =
    instrument-runtime now no_loggers "ls" works 0 100 [] timing
      (record { start = none; runtime = pos 0 }) works-Adds refl

abbrev contexts : Contexts (ℕ × List Event) ℕ ℕ
contexts = record {
  done = λ ctx s. none;
  with_cancel = λ ctx s. (s, ctx);
  cancel = λ ctx s. s;
  wrap_child = λ i e. i;
  has_logger = λ ctx. true;
  log_error = λ ctx e s. s;
  no_logger = 99;
}

works-Nests : Nests works
works-Nests ctx s events = ([], sym (append-nil events), quiet)

contexts-KeepsEvents : KeepsEvents contexts
contexts-KeepsEvents = record {
  with_cancel_keeps = λ ctx s events. refl;
  cancel_keeps = λ ctx s events. refl;
  log_error_adds = λ ctx e s events. ([], sym (append-nil events), quiet);
}

abbrev step : Flunc (ℕ × List Event) ℕ ℕ
step = instrument now no_loggers "ls" works

Tree-Nests_example : Nests (sequential_from contexts 0 (some step ∷ some works ∷ []))
Tree-Nests_example =
    Tree-Nests contexts contexts-KeepsEvents
      (sequential_from contexts 0 (some step ∷ some works ∷ []))
      (in_order 0 (some step ∷ some works ∷ []) (
        tree (instrumented now no_loggers "ls" works (leaf works works-Nests))
          (tree (leaf works works-Nests) no_trees)))

abbrev ready : List (String × VisualizationNode ℕ)
ready = ("ls", record { status = state_ready; leaves = [] }) ∷ []

instrument-status_example :
    (within : ℕ) × (begun : ℕ × List Event) × ((instrument now no_loggers "ls" probe 0 (100, [])).1
      ≡ failed (within, begun))
    × HasStatus "ls" state_running (show_store (λ t info. t) (works within begun).0.1 ready)
    × HasStatus "ls"
        (status_of (step 0 (100, [])).1)
        (show_store (λ t info. t) (step 0 (100, [])).0.1 ready)
unfolding lookup show_store
instrument-status_example =
    instrument-status (λ t info. t) now no_loggers "ls" works 0 100 [] ready state_ready works-Adds
      (record { status = state_ready; leaves = [] }, refl, refl)
