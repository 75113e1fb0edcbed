-- ===== src/Engine/Core/Delegation/Examples.antt =====
-- Delegations of the sample item.
use ampa.Prelude.{◌+◌, ◌≤◌, [], none, some, ok, ◌≡◌, refl, ℤ, count, lookup}
use ampa.Engine.Sample.{engine, answer}
use ampa.Engine.World.Silent.{Silent-pure}
use ampa.Engine.Core.Flow.{success, dispatched_as, EngineResult}
use ampa.Engine.Core.Delegation.{
  process_delegation, delegation_body, pre_checks, pick, use_fetched, picked_from, delegate_command,
  confirm_from_state, check_pre, finish, apply_transition, assignee_of, update_twice, find_template,
  launch, record_success, or_empty, if_given,
}
use ampa.Text.{format}
use ampa.Value.{get_default, str_of}
use ampa.Engine.Descriptor.{
  resolve_state_ref, resolve_alias, get_command, resolve_from_state_alias, first_alias,
}
use ampa.Engine.Core.Delegation.Success.{Delegated, process_delegation_success}
use ampa.Engine.Core.Delegation.Quiet.{is_dispatch}
use ampa.Engine.Core.Delegation.Calls.{process_delegation_once, process_delegation-dispatches}

abbrev delegated : EngineResult
delegated = record {
  status = success;
  reason = dispatched_as "idea" "WI-1";
  work_item_id = some "WI-1";
  command_name = some "delegate";
  action = some "idea";
  dispatch_result = some (answer "run /intake WI-1" "WI-1");
  invariant_result = none;
  candidate_result = none;
  timestamp = 0;
}

sample_run : (process_delegation engine (some "WI-1") none []).0 ≡ ok delegated
unfolding process_delegation delegation_body pre_checks pick use_fetched picked_from
    delegate_command confirm_from_state check_pre finish apply_transition assignee_of update_twice
    find_template launch record_success or_empty if_given lookup get_default str_of
    resolve_state_ref resolve_alias get_command resolve_from_state_alias first_alias format
sample_run = refl

process_delegation_success_example :
    Delegated engine 0
      (some "WI-1")
      none
      []
      (process_delegation engine (some "WI-1") none []).1
      delegated
process_delegation_success_example =
    process_delegation_success engine (some "WI-1") none [] delegated sample_run refl

process_delegation_once_example :
    count is_dispatch (process_delegation engine none (some "Map") []).1 ≤ 0 + 1
process_delegation_once_example =
    process_delegation_once engine (Silent-pure (ℤ.pos 0)) none (some "Map") []

process_delegation-dispatches_example :
    count is_dispatch (process_delegation engine (some "WI-1") none []).1 ≡ 0 + 1
process_delegation-dispatches_example =
    process_delegation-dispatches engine (Silent-pure (ℤ.pos 0)) (some "WI-1") none [] delegated
      sample_run
