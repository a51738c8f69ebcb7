-- ===== src/Tests.antt =====
-- Runs at concrete inputs, and each general theorem applied to one.
mod Copy
mod Jobs
mod Steps
mod Tree
mod Connections
mod Timing
mod Lines
mod HostsFile
mod Goroutines
mod Telemetry
mod Text
