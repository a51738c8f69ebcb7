-- ===== src/Lib.antt =====
-- xCUTEr runs jobs on remote hosts: it watches a directory of job files, schedules each job with a
-- cron scheduler, and runs it as a tree of functions over SSH, with an SCP server for transfers.
--
-- Scp: package scp, an SCP server. A line of the protocol goes through the lexer (scp/lex.go:
-- Scp.Lexer) to the parser (parseSCPMessage: Scp.Parse, with the messages of Scp.Message); the sink
-- (scp/sink.go: Scp.Sink) drives a machine of eight states over them, each state function being one
-- definition of the same name, and a message does its work on an scpImp (the process methods of
-- scp/messages.go: Scp.Imp). The source (scp/source.go: Scp.Source) sends files and directories,
-- and Scp.Run is run of scp/scp.go. A method takes the state and returns the new one and, where it
-- can fail, an error. Reader and writer are the bytes left to read and those given. What the
-- sink does to the file system is a list of effects, and an environment says which operations
-- succeed; the source reads a file system of three functions, with a writer that may fail, while
-- the acknowledgements of the sink, whose result the code does not look at, are recorded as given
-- to the writer. `lex` gives the items that the lexer sends if all are received, and `lexer_after`
-- whether its goroutine ends or waits forever to send the next one, once the parser has returned.
-- Scp.Utf8, Scp.Strconv and Scp.FilePath are what the code uses of unicode/utf8, strconv, fmt and
-- path/filepath; the numbers of unicode.IsNumber beyond ASCII are a parameter (`wide`). The lexer
-- runs on two more steps of fuel than there are bytes, since every step reads a byte or is the
-- last; the sink on two more than its input, since every line has a byte. Both are proved to be
-- enough. The recursion of sendDirectory takes a depth; at 0 it gives `too_deep`, an error of the
-- model alone.
--
-- Executor: executor.go. The four lists of jobs and runs are association lists; a method is one
-- step, although Remove, Activate, Deactivate and the deferred end of a run take and release the
-- locks of the lists one after the other. The scheduler of package cron is a parameter. A run is a
-- number and its job; runInfo.run is two steps, begin_run and end_run, with the job's call between
-- them; that the end calls cancel of the run's own context is not recorded.
-- Events: the main loop of xCUTEr.go, over the executor. What parse gives for a file comes with the
-- event. Events.Watcher is the directory watcher of fs.go, over what package fsnotify delivers.
-- Flunc: Sequential of flunc/flunc.go and the wrappers ErrorSafeguard, ContextBounds and Retry of
-- job/executionTree.go, over any world and any contexts; Flunc.Parallel is Parallel: its loop over
-- what it receives, how the goroutines run together and in which order they send being a parameter.
-- Job: the configuration of job/config.go; Job.Visit is VisitConfig of job/configVisitor.go for any
-- builder. A nil pointer that is followed is a result of its own; errors are without what is
-- wrapped around them.
-- Job.Tree is the ExecutionTreeBuilder of job/executionTree.go, as a builder for that visitor: what
-- its functions use of other packages and of SSH connections are the operations of a world. A
-- context is its cancellation part and its values. Job.Client is the store of SSH connections of
-- job/client.go, its elements in a heap; each critical section is a function, and a request is two
-- of them, between which others may come. Job.Client.Session is the rest of that file: how a client
-- is made and runs a command, over package ssh.
-- Job.Comments is removeLineComments of job/config.go, Job.Comments.Literals the grammar of string
-- literals that it is compared with; its loop runs on as much fuel as the line has bytes, which is
-- proved to be enough. Job.Hosts is filterHosts and readHostsFiles of the same file.
-- Job.Visit.Stateful is VisitConfig again, for builders with a state, which needs the order in
-- which the code calls them: the naming of nodes counts the calls. Where a builder has no state the
-- model without is used, which is simpler to reason about.
-- Job.Text is the text of an execution tree, job/tree.go, and Job.Text.Builder the StringBuilder of
-- job/string.go that makes it, a third builder for the visitor: what package fmt prints for
-- numbers, quoted texts and durations is a parameter, as is the interpolation of templates.
-- Telemetry: package telemetry: the event store, `instrument`, and what Timing.Apply and
-- Visualization.Apply make of events. Telemetry.Naming is the builder of naming.go, that names
-- nodes; Telemetry.Builder that of builder.go, that instruments the execution tree, in a world with
-- the events; Telemetry.TimingBuilder that of timing.go. Telemetry.Visual is visualization.go, with
-- nodes that carry their names and statuses in the tree itself; Telemetry.Printing the methods of
-- the telemetryLogger. Telemetry.Same compares the tree with telemetry to the one without. Logging
-- has the loggers that a context holds.
-- Common: shared tests, lists, integers and maps. Tests: runs at concrete inputs.
--
-- Not modelled: JSON decoding, templates, the forwarding of ports, the SCP server's connections
-- (job/scp.go), processes, package logger and the command line, which are I/O or calls of other
-- packages; and in the functions of the execution tree what they print.
pub mod Common
pub mod Scp
pub mod Executor
pub mod Events
pub mod Flunc
pub mod Job
pub mod Logging
mod Tests
pub mod Telemetry
