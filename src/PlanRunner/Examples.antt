-- ===== src/PlanRunner/Examples.antt =====
-- Cycles of the plan runner at concrete inputs.
use ampa.Prelude.{
  Bool, true, false, [], ◌∷◌, Option, none, some, ◌≡◌, refl, arith, lookup, insert, remove,
}
use ampa.Value.{str, end, field, str_of, get_default}
use ampa.Engine.Records.{DispatchResult}
use ampa.PlanRunner.{
  PlanDispatch, Retry, PlanState, Inputs, alive, permanent_failure_of, entry_of, run_item,
  check_existing, continue_item, attempt_item, attempt, check_backoff, dispatch_unless,
  count_failure, update_retries, record_result, run_selected, plan_id,
}
use ampa.PlanRunner.Retries.{AreConsistent, after, run_item-AreConsistent}
use ampa.PlanRunner.Cycle.{run_item_permanent, run_item_too_early}

abbrev dispatched : Bool → DispatchResult
dispatched success = record {
  success = success;
  command = "opencode run --agent Casey --command plan A";
  work_item_id = "A";
  timestamp = 1000;
  pid = some 50;
  error = none;
  container_id = none;
}

abbrev inputs : Option DispatchResult → Inputs
inputs answer = record {
  max_retries = 3;
  backoff_base_minutes = 15;
  killpg = λ pid. alive;
  dispatch = λ id. answer;
  check_time = 1000;
  result_time = 1000;
  save_time = 1000;
}

abbrev one_failure : Retry
one_failure = record { attempts = 1; permanent_failure = false; next_attempt = some 1900 }

abbrev given_up : Retry
given_up = record { attempts = 3; permanent_failure = true; next_attempt = none }

abbrev running : PlanDispatch
running = record { pid = some 50; started_at = 900; success = true; observed = false }

-- A failed once, B for good, and C is running.
abbrev state : PlanState
state = record {
  plan_dispatches = ("C", running) ∷ [];
  plan_retries = ("A", one_failure) ∷ ("B", given_up) ∷ [];
}

abbrev failed_again : Retry
failed_again = record { attempts = 2; permanent_failure = false; next_attempt = some 2800 }

abbrev after_failure : PlanState
after_failure = record {
  plan_dispatches = ("C", running) ∷ [];
  plan_retries = ("A", failed_again) ∷ ("B", given_up) ∷ [];
}

abbrev after_success : PlanState
after_success = record {
  plan_dispatches =
      ("C", running)
      ∷ ("A", record { pid = some 50; started_at = 1000; success = true; observed = false })
      ∷ [];
  plan_retries = ("B", given_up) ∷ [];
}

failure_stored : (run_item (inputs none) "A" state).stored ≡ some after_failure
unfolding run_item check_existing continue_item attempt_item attempt entry_of check_backoff
    dispatch_unless update_retries count_failure record_result lookup insert
failure_stored = refl

success_stored : (run_item (inputs (some (dispatched true))) "A" state).stored ≡ some after_success
unfolding run_item check_existing continue_item attempt_item attempt entry_of check_backoff
    dispatch_unless update_retries record_result lookup insert remove
success_stored = refl

run_item-AreConsistent_example :
    AreConsistent 3 (after state (run_item (inputs none) "A" state).stored).plan_retries
run_item-AreConsistent_example = run_item-AreConsistent (inputs none) "A" state refl

run_item_permanent_example :
    ((run_item (inputs none) "B" state).dispatcher_calls ≡ 0)
    × ((run_item (inputs none) "B" state).notices
        ≡ permanent_failure_of "B" 4 (some "permanent_failure") ∷ [])
    × (new : PlanState) × ((run_item (inputs none) "B" state).stored ≡ some new)
    × (kept : Retry) × (lookup "B" new.plan_retries ≡ some kept)
    × (kept.attempts ≡ 4)
    × (kept.permanent_failure ≡ true)
unfolding lookup
run_item_permanent_example =
    run_item_permanent (inputs none) "B" state refl given_up refl refl (omega arith)

run_item_too_early_example : (run_item (inputs none) "A" state).dispatcher_calls ≡ 1
unfolding lookup
run_item_too_early_example = run_item_too_early (inputs none) "A" state refl one_failure refl refl

unnamed_test : run_selected (inputs none) (some (field "title" (str "Door") end)) state ≡ none
unfolding run_selected plan_id get_default str_of
unnamed_test = refl
