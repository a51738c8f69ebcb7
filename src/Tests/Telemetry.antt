-- ===== src/Tests/Telemetry.antt =====
-- The tree of the job that runs "ls", with telemetry and without.
use x_cuter.Common.{ℕ, ◌+◌, refl, none, String}
use x_cuter.Job.Tree.Builder.{tree_builder}
use x_cuter.Job.Tree.{Logger}
use x_cuter.Job.Visit.Stateful.Agree.{Agree}
use x_cuter.Job.Visit.Stateful as Stateful
use x_cuter.Job.Visit as Pure
use x_cuter.Telemetry.Builder.{telemetry_builder}
use x_cuter.Telemetry.Naming.{naming_builder}
use x_cuter.Telemetry.Same.Job.{SamePart, visit_config_telemetry}
use x_cuter.Tests.Goroutines.{one_after_other, one_after_other-SameSchedule}
use x_cuter.Tests.Tree.{system, goroutines, list_files, no_durations, no_hosts}

-- A clock that shows how much has been done.
abbrev clock : ℕ → ℕ × ℕ
clock s = (s, 100 + s)

abbrev node_id : ℕ → String
node_id n = ""

abbrev standard : Logger ℕ
standard = record { writer = 1; job_name = ""; host = none }

visit_config_telemetry_example :
    Agree
      (SamePart system standard)
      (Pure.visit_config no_durations no_hosts (tree_builder system goroutines) list_files)
      (Stateful.visit_config no_durations no_hosts
        (naming_builder node_id (telemetry_builder system one_after_other clock))
        list_files
        (0, tt))
visit_config_telemetry_example =
    visit_config_telemetry system standard goroutines one_after_other clock
      one_after_other-SameSchedule (λ s. refl) node_id no_durations no_hosts list_files 0
