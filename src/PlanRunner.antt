-- ===== src/PlanRunner.antt =====
-- `PlanRunner.run` of src/ampa/plan_runner.py, from the selected candidate on: which item to
-- dispatch, the check of an earlier dispatch, the retries with their backoff, and the reports. A
-- retry delay is counted in seconds, with a base that is a whole number of minutes.
pub mod Retries
pub mod Cycle
mod Examples
use Prim.Native.String.{◌++◌ as append}
use ampa.Prelude.{
  ℕ, suc, ◌+◌, ◌-◌, ◌*◌, ◌^◌, String, Bool, true, false, List, [], ◌∷◌, Option, none, some, ltb,
  leb, ◌==◌, not, if◌then◌else◌, ◌++◌, Dict, lookup, insert, remove, nonempty,
}
use ampa.Value.{Fields, Value, str, get, str_of, ◌or◌}
use ampa.Engine.Records.{DispatchResult}

-- An entry of `plan_dispatches`.
pub record PlanDispatch : Type 0 where
  pub pid : Option ℕ
  pub started_at : ℕ
  pub success : Bool
  pub observed : Bool

-- An entry of `plan_retries`.
pub record Retry : Type 0 where
  pub attempts : ℕ
  pub permanent_failure : Bool
  pub next_attempt : Option ℕ

pub record PlanState : Type 0 where
  pub plan_dispatches : Dict PlanDispatch
  pub plan_retries : Dict Retry

-- What `os.killpg(pid, 0)` tells of a process group.
pub data ProcessGroup : Type 0 where
  alive gone not_permitted : ProcessGroup

-- The notifications.
pub data Notice : Type 0 where
  permanent_failure_of : String → (attempts : ℕ) → (error : Option String) → Notice
  plan_dispatched : String → Notice

-- The comment on the work item.
pub data Comment : Type 0 where
  internal_error recorded : Comment
  dispatched_as : (pid : ℕ) → Comment
  failed_with : String → Comment

-- What the cycle reads: the settings of the command, the operating system, the dispatcher, and
-- the clock at the backoff check, when the result is made, and when the retry is written. The
-- dispatcher answers nothing where it raises.
pub record Inputs : Type 0 where
  pub max_retries : ℕ
  pub backoff_base_minutes : ℕ
  pub killpg : ℕ → ProcessGroup
  pub dispatch : String → Option DispatchResult
  pub check_time : ℕ
  pub result_time : ℕ
  pub save_time : ℕ

-- What one cycle does with an item. `stored` is none where the cycle does not write the state.
pub record Outcome : Type 0 where
  pub dispatcher_calls : ℕ
  pub result : Option DispatchResult
  pub stored : Option PlanState
  pub notices : List Notice
  pub comment : Comment

module _ (inp : Inputs) (wid : String) where
  -- The check of a recorded dispatch: what is left of the records, and the pid if it still runs.
  abbrev pub check_group : Dict PlanDispatch → ℕ → ProcessGroup → Dict PlanDispatch × Option ℕ
  check_group dispatches pid alive = (dispatches, some pid)
  check_group dispatches pid gone = (remove wid dispatches, none)
  check_group dispatches pid not_permitted = (dispatches, some pid)

  abbrev pub check_pid : Dict PlanDispatch → PlanDispatch → Option ℕ → Dict PlanDispatch × Option ℕ
  check_pid dispatches existing none = (dispatches, none)
  check_pid dispatches existing (some pid) =
      if existing.observed
      then (remove wid dispatches, none)
      else check_group dispatches pid (inp.killpg pid)

  abbrev pub check_entry : Dict PlanDispatch → Option PlanDispatch → Dict PlanDispatch × Option ℕ
  check_entry dispatches none = (dispatches, none)
  check_entry dispatches (some existing) = check_pid dispatches existing existing.pid

  pub check_existing : Dict PlanDispatch → Dict PlanDispatch × Option ℕ
  check_existing dispatches = check_entry dispatches (lookup wid dispatches)

  abbrev made_result : Bool → Option ℕ → Option String → DispatchResult
  made_result success pid error = record {
    success = success;
    command = append "/plan " wid;
    work_item_id = wid;
    timestamp = inp.result_time;
    pid = pid;
    error = error;
    container_id = none;
  }

  abbrev no_retry : Retry
  no_retry = record { attempts = 0; permanent_failure = false; next_attempt = none }

  -- `retries.get(wid) or {}`, with the defaults that the code reads from an empty entry
  abbrev pub entry_or : Option Retry → Retry
  entry_or none = no_retry
  entry_or (some entry) = entry

  pub entry_of : Dict Retry → Retry
  entry_of retries = entry_or (lookup wid retries)

  -- The backoff check: an item that is too early has its result reset to none.
  pub check_backoff : Option ℕ → Option DispatchResult → Option DispatchResult
  check_backoff none result = result
  check_backoff (some next_dt) result = if ltb inp.check_time next_dt then none else result

  -- The result that the cycle has, and how often it called the dispatcher.
  pub dispatch_unless : Option DispatchResult → ℕ × Option DispatchResult
  dispatch_unless none = (1, inp.dispatch wid)
  dispatch_unless (some r) = (0, some r)

  pub attempt : Retry → ℕ × Option DispatchResult
  attempt entry =
      if entry.permanent_failure
      then (0, some (made_result false none (some "permanent_failure")))
      else dispatch_unless (check_backoff entry.next_attempt none)

  -- One more failed attempt.
  pub count_failure : Dict Retry → Option String → Dict Retry × List Notice
  count_failure retries error =
      let attempts = (entry_of retries).attempts + 1 in
      if leb inp.max_retries attempts
      then (
        insert wid (record { attempts = attempts; permanent_failure = true; next_attempt = none })
            retries,
        permanent_failure_of wid attempts error ∷ [],
      )
      else (
        insert wid
            (record {
              attempts = attempts;
              permanent_failure = false;
              next_attempt =
                  some (inp.save_time + inp.backoff_base_minutes * 60 * 2 ^ (attempts - 1));
            })
            retries,
        [],
      )

  pub update_retries : Dict Retry → Option DispatchResult → Dict Retry × List Notice
  update_retries retries none = count_failure retries none
  update_retries retries (some r) =
      if r.success then (remove wid retries, []) else count_failure retries r.error

  pub record_result : Dict PlanDispatch → Option DispatchResult → Dict PlanDispatch
  record_result dispatches none = dispatches
  record_result dispatches (some r) =
      insert wid
        (record { pid = r.pid; started_at = inp.save_time; success = r.success; observed = false })
        dispatches

  pub notify_success : Option DispatchResult → List Notice
  notify_success none = []
  notify_success (some r) = if r.success then plan_dispatched wid ∷ [] else []

  abbrev pid_comment : Option ℕ → Comment
  pid_comment none = recorded
  pid_comment (some pid) = if pid == 0 then recorded else dispatched_as pid

  abbrev error_comment : Option String → Comment
  error_comment none = failed_with "unknown error"
  error_comment (some e) = if nonempty e then failed_with e else failed_with "unknown error"

  pub comment_of : Option DispatchResult → Comment
  comment_of none = internal_error
  comment_of (some r) = if r.success then pid_comment r.pid else error_comment r.error

  -- The rest of the cycle, where no earlier run is left.
  pub attempt_item : Dict PlanDispatch → Dict Retry → ℕ × Option DispatchResult → Outcome
  attempt_item dispatches retries (calls, result) =
      let (retries', failures) = update_retries retries result in
      record {
        dispatcher_calls = calls;
        result = result;
        stored =
            some (record {
              plan_dispatches = record_result dispatches result;
              plan_retries = retries';
            });
        notices = failures ++ notify_success result;
        comment = comment_of result;
      }

  pub continue_item : Dict Retry → Dict PlanDispatch × Option ℕ → Outcome
  continue_item retries (dispatches, none) =
      attempt_item dispatches retries (attempt (entry_of retries))
  continue_item retries (dispatches, some pid) =
      let result = some (made_result true (some pid) none) in
      record {
        dispatcher_calls = 0;
        result = result;
        stored = none;
        notices = notify_success result;
        comment = comment_of result;
      }

  pub run_item : PlanState → Outcome
  run_item state = continue_item state.plan_retries (check_existing state.plan_dispatches)

-- `str(selected.get("id") or "")`
pub plan_id : Fields → String
plan_id selected = str_of (get selected "id" or str "")

-- A cycle plans nothing without a selection, and nothing for a candidate that has no id.
pub run_selected : Inputs → Option Fields → PlanState → Option (String × Outcome)
run_selected inp none state = none
run_selected inp (some selected) state =
    let wid = plan_id selected in if nonempty wid then some (wid, run_item inp wid state) else none
