-- ===== src/Scheduler.antt =====
-- The scheduler of src/ampa/scheduler.py: the state of the commands, and the record of a run. A
-- moment is a number of microseconds since the epoch, in place of the text that `_to_iso` writes
-- and `_from_iso` reads back.
pub mod Numbers
pub mod Start
pub mod Selection
pub mod Keys
pub mod Scan
pub mod Scores
pub mod Choice
pub mod Runs
pub mod Stale
mod Examples
use Prim.Native.String.{◌++◌ as append}
use ampa.Prelude.{
  ℕ, suc, ◌-◌, String, Bool, true, false, not, ◌&&◌, ◌||◌, List, [], ◌∷◌, ◌++◌, Option, none, some,
  if◌then◌else◌, Dict, lookup, insert, ltb, length, drop, ◌==◌, nonempty, str_eq, ℤ, pos, negsuc,
  eq_ℤ, ◌≡◌, refl, lookup-insert, Bool-cases, inl, inr,
}
use ampa.Text.{has_text}

-- The fields of `CommandSpec` that the scheduler reads.
pub record CommandSpec : Type 0 where
  pub command_id : String
  pub command : String
  pub requires_llm : Bool
  pub frequency_minutes : ℤ
  pub priority : ℤ
  pub command_type : String

-- The time from one moment to another, in microseconds.
abbrev pub elapsed : (later earlier : ℕ) → ℤ
elapsed later earlier =
    if ltb later earlier then negsuc (earlier - suc later) else pos (later - earlier)

-- `RunResult`; a `CommandRunResult` has an output too.
pub record Run : Type 0 where
  pub start_ts : ℕ
  pub end_ts : ℕ
  pub exit_code : ℤ
  pub output : Option String

pub record HistoryEntry : Type 0 where
  pub start_ts : ℕ
  pub end_ts : ℕ
  pub duration : ℤ
  pub exit_code : ℤ
  pub output : Option String

-- The state of a command. `running` says that the flag is `True`.
pub record CommandState : Type 0 where
  pub running : Bool
  pub last_start_ts : Option ℕ
  pub last_run_ts : Option ℕ
  pub last_duration : Option ℤ
  pub last_exit_code : Option ℤ
  pub last_output : Option String
  pub run_history : List HistoryEntry

abbrev pub no_state : CommandState
no_state = record {
  running = false;
  last_start_ts = none;
  last_run_ts = none;
  last_duration = none;
  last_exit_code = none;
  last_output = none;
  run_history = [];
}

pub record Store : Type 0 where
  pub commands : List CommandSpec
  pub states : Dict CommandState
  pub last_global_start : Option ℕ

abbrev or_no_state : Option CommandState → CommandState
or_no_state none = no_state
or_no_state (some st) = st

unfoldable pub get_state : String → Store → CommandState
unfolding lookup
get_state id store = or_no_state (lookup id store.states)

abbrev pub update_state : String → CommandState → Store → Store
update_state id st store = record store { states = insert id st store.states }

-- `history[-n:]`, which is the whole list for n = 0
unfoldable pub last_of : ℕ → List HistoryEntry → List HistoryEntry
last_of n entries = if n == 0 then entries else drop (length entries - n) entries

-- `_record_run`
unfoldable pub record_run :
    (max_run_history : ℕ) → CommandSpec → Run → (exit_code : ℤ) → Option String → Store → Store
unfolding get_state
record_run max_run_history spec run exit_code output store =
    let entry : HistoryEntry = record {
      start_ts = run.start_ts;
      end_ts = run.end_ts;
      duration = elapsed run.end_ts run.start_ts;
      exit_code = exit_code;
      output = output;
    } in
    update_state spec.command_id
      (record {
        running = false;
        last_start_ts = some run.start_ts;
        last_run_ts = some run.end_ts;
        last_duration = some (elapsed run.end_ts run.start_ts);
        last_exit_code = some exit_code;
        last_output = output;
        run_history =
            last_of max_run_history ((get_state spec.command_id store).run_history ++ entry ∷ []);
      })
      store

pub get_state-update_state :
    (id k : String) (st : CommandState) (store : Store)
    → get_state k (update_state id st store) ≡ (if str_eq id k then st else get_state k store)
unfolding get_state
get_state-update_state id k st store = elim (Bool-cases (str_eq id k)) [
  | inl same ↦ rw (lookup-insert id k st store.states, same) refl
  | inr other ↦ rw (lookup-insert id k st store.states, other) refl
]
