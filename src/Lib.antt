-- ===== src/Lib.antt =====
-- A verification library for the core of ampa, the agent that selects work items, checks them
-- against a workflow descriptor and delegates them to other agents. It models the Python package
-- src/ampa.
--
-- The parts, with the files that model them. Texts and values: Text is Python's str as far as the
-- code uses it, on ASCII, and Value is what JSON gives, with the truth, the text and the members of
-- each value. Prelude holds the names that all parts share: lists over the native numbers, dicts as
-- association lists in insertion order, integers, and exceptions as values of Result.
--
-- Engine models src/ampa/engine. Engine/Descriptor is descriptor.py: the records of the workflow
-- model and their queries. Engine/Expressions has the fields and the single expressions of
-- invariants.py, and Engine/Invariants the compound ones, with `_split_and_expression` as
-- split_and_expression and `evaluate_logic` under its name; Engine/Evaluator is the class
-- InvariantEvaluator. Engine/Candidates is candidates.py: the reading of raw items, the filters,
-- and CandidateSelector.select. Engine/Core is core.py: Core/Flow has the results and the early
-- returns, Core/Delegation has process_delegation, with one definition for each stretch of the
-- method between two early returns, and Core/Transition has process_transition and
-- _find_transition_command. Engine/Records has the values that these parts exchange.
--
-- The engine asks services for everything outside: the protocols of core.py and candidates.py are
-- the fields of the record Services in Engine/World, and may answer by all that was asked before,
-- or raise. An action of the engine returns a result and the trace of its calls, so that the order
-- of the calls, on error paths too, is part of each value. The regular expressions of Python are
-- the record Re, a parameter of the evaluator.
--
-- BotSupervisor is bot_supervisor.py: ensure_running, wait_for_socket and shutdown. PlanRunner is
-- the method run of plan_runner.py from the selected candidate on, with the clock, the process
-- check and the dispatcher as inputs of a cycle. SchedulerStore is scheduler_store.py, the
-- operations on the data of the store.
--
-- Engine/Dispatch is dispatch.py. Dispatch/Pool is the pool of containers with its two state files,
-- Dispatch/Teardown the removal of a container and the signals at a timeout, and
-- Dispatch/Dispatchers the four dispatchers. Dispatch/Leases takes dispatches and ends of sessions
-- as whole steps and compares the files with a table of leases; Dispatch/Races takes the reads and
-- writes of two threads as steps of their own.
--
-- Scheduler is scheduler.py: the state of the commands and _record_run, with Scheduler/Start for
-- start_command, Scheduler/Stale for clear_stale_running_states of scheduler_helpers.py and
-- Scheduler/Selection for select_next and score_command of scheduler_executor.py. Floating-point
-- numbers are the record Floats of Scheduler/Numbers, with the laws that hold of floats besides NaN
-- in the record Laws; Python's sort is the stable sort of Prelude/Sort. Its Store has the states of
-- SchedulerStore with their fields typed.
--
-- Fallback is fallback.py: the modes, and the loading, saving and resolving of the configuration.
-- Session is session_block.py and conversation_manager.py: Session has the files of a directory,
-- with the names that a pattern of glob finds as a parameter, Session/Resume the method
-- resume_session, and Session/Block the detection of a blocking prompt, which takes the mode that
-- Fallback resolves. AuditPoller is audit_poller.py: the filters and the choice, with
-- AuditPoller/Poll for poll_and_handoff and AuditPoller/Query for the candidates in the answer of
-- the query.
--
-- Audit is src/ampa/audit. Audit/Report is result.py: the report between its markers, its sections
-- and its recommendation. Audit/Comment has the two texts of handlers.py, Audit/Commands what its
-- handlers share, Audit/Checks the checks before a closure, and Audit/Handlers the method execute
-- of the three handlers. PrMonitor is pr_monitor.py: PrMonitor has the runner and what it asks gh,
-- PrMonitor/Checks the checks of a pull request, PrMonitor/Comments the markers that it reads in
-- comments, PrMonitor/Actions what it does for one pull request, PrMonitor/Reviews the dispatch and
-- the presentation of audits, PrMonitor/Run the method run, and PrMonitor/Decision
-- handle_review_decision. The commands that both run in a shell are the constructors of
-- ShellCommand in Shell; what a command answers may depend on all that was done before, or be an
-- exception, and stands in the trace.
--
-- Bounds and fuel: evaluate_logic runs on fuel, one more than the length of the expression, since
-- the parts of a compound expression are shorter than it is; wait_for_socket runs on one round more
-- than the timeout has, since each round sleeps for half a second. Numbers are natural numbers, and
-- integers where the source compares a count that can be negative. A number of JSON that is no
-- natural number is kept as the text that Python shows for it. The delay before a retry of
-- plan_runner.py is unbounded: where the source cannot add it to the time, since it is too large
-- for a timedelta, it swallows the error and leaves the entry of the item unchanged.
--
-- Not modelled: the reading and the schema of descriptors, the text of log messages and, besides
-- those of the audits and of the PR monitor, of summaries, comments and notifications (each is a
-- constructor with the values that its text has), the embeds and buttons of notifications, the
-- processes and containers themselves (what starting or stopping them answers is an argument), the
-- actions of each command type after its run, what the wl and gh commands do and how a shell reads
-- the text of a command, the network, the files, and the modules of the package that are not named
-- above. Of the store, the decoding of a CommandSpec is left out, and of the supervisor, the
-- message at the start.
pub mod Prelude
pub mod Text
pub mod Value
pub mod Engine
pub mod BotSupervisor
pub mod PlanRunner
pub mod SchedulerStore
pub mod Scheduler
pub mod Fallback
pub mod Session
pub mod AuditPoller
pub mod Shell
pub mod Audit
pub mod PrMonitor
