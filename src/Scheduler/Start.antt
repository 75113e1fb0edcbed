-- ===== src/Scheduler/Start.antt =====
-- `start_command` of src/ampa/scheduler.py, up to the record of the run.
use Prim.Native.String.{◌++◌ as append}
use ampa.Prelude.{
  ℕ, String, Bool, ◌&&◌, ◌||◌, Option, none, some, if◌then◌else◌, nonempty, str_eq, true, ℤ, pos,
  eq_ℤ,
}
use ampa.Text.{has_text}
use ampa.Scheduler.{CommandSpec, Run, Store, get_state, update_state, record_run}

-- `exc.code` of a `SystemExit`: absent, a number, or another value with what `int` makes of it.
pub data ExitCode : Type 0 where
  no_code : ExitCode
  code : ℤ → ExitCode
  other_code : (read : Option ℤ) → ExitCode

-- How the executor ends: with a result, or with an exception between two moments.
pub data Raised : Type 0 where
  system_exit : ExitCode → Raised
  keyboard_interrupt any_other : Raised

pub data Executed : Type 0 where
  returned : Run → Executed
  raised : Raised → (start_exec end_exec : ℕ) → Executed

abbrev or_one : Option ℤ → ℤ
or_one none = pos 1
or_one (some n) = if eq_ℤ n 0 then pos 1 else n

unfoldable pub exit_code_of : Raised → ℤ
exit_code_of (system_exit no_code) = pos 1
exit_code_of (system_exit (code n)) = or_one (some n)
exit_code_of (system_exit (other_code (some n))) = n
exit_code_of (system_exit (other_code none)) = pos 1
exit_code_of keyboard_interrupt = pos 130
exit_code_of any_other = pos 1

unfoldable pub run_of : Executed → Run
run_of (returned run) = run
run_of (raised exc start_exec end_exec) = record {
  start_ts = start_exec;
  end_ts = end_exec;
  exit_code = exit_code_of exc;
  output = none;
}

pub is_delegation : CommandSpec → Bool
unfolding has_text
is_delegation spec = str_eq spec.command_type "delegation" || has_text spec.command "opencode run"

pub timeout_note : String → String
timeout_note id = append "[timeout] Delegated run for command '" (
    append id (
      append "' exceeded its configured timeout and was terminated "
        "(SIGTERM with SIGKILL escalation if needed). running flag cleared by _record_run."))

abbrev note_before : String → Option String → Option String
note_before note none = some note
note_before note (some output) =
    if nonempty output then some (append note (append "\n" output)) else some note

-- The output that is recorded: a delegation that was stopped by its timeout has a note in it.
unfoldable pub noted_output : CommandSpec → Run → Option String
unfolding is_delegation timeout_note
noted_output spec run =
    if is_delegation spec && eq_ℤ run.exit_code 124
    then note_before (timeout_note spec.command_id) run.output
    else run.output

abbrev pub output_or : Option String → Option String → Option String
output_or none output = output
output_or (some t) output = some t

-- What follows the orchestrator: it gives a run, or it raises and nothing is recorded.
abbrev pub after_delegation :
    (max_run_history : ℕ) → CommandSpec → Option String → Store → Option Run → Store × Option Run
after_delegation n spec output store none = (store, none)
after_delegation n spec output store (some run) =
    (record_run n spec run run.exit_code (output_or run.output output) store, some run)

-- The start of a run: the flag is set, and the moment is the last global start.
unfoldable pub begin_run : ℕ → CommandSpec → Store → Store
unfolding get_state
begin_run now spec store =
    record (update_state spec.command_id
      (record (get_state spec.command_id store) { running = true; last_start_ts = some now })
      store) { last_global_start = some now }

-- `start_command` up to the record of the run; the actions of a command's type come after it.
-- The answer is none where the orchestrator's exception goes through.
unfoldable pub start_command :
    (max_run_history : ℕ) (orchestrate : CommandSpec → Run → Option String → Option Run)
    → ℕ
    → CommandSpec
    → Executed
    → Store
    → Store × Option Run
unfolding begin_run record_run run_of noted_output
start_command n orchestrate now spec executed store =
    let begun = begin_run now spec store in
    let run = run_of executed in
    let output = noted_output spec run in
    if str_eq spec.command_type "delegation"
    then after_delegation n spec output begun (orchestrate spec run output)
    else (record_run n spec run run.exit_code output begun, some run)
