-- ===== src/Engine/Core/Transition/Examples.antt =====
-- Transitions of the sample item.
use ampa.Prelude.{[], ◌≡◌, refl, lookup, none, some, ok}
use ampa.Engine.Sample.{engine}
use ampa.Engine.Descriptor.{resolve_state_ref, resolve_alias}
use ampa.Value.{get_default, str_of}
use ampa.Engine.Core.Flow.{EngineResult, success, applied_via}
use ampa.Engine.Core.Delegation.{update_twice}
use ampa.Engine.Core.Transition.{
  find_transition, find_transition_command, process_transition, transition_body, use_item,
  find_command, use_command, check_post, apply,
}
use ampa.Engine.Core.Transition.Applied.{Applied, process_transition_success}

abbrev transitioned : EngineResult
transitioned = record {
  status = success;
  reason = applied_via "delegate";
  work_item_id = some "WI-1";
  command_name = some "delegate";
  action = none;
  dispatch_result = none;
  invariant_result = none;
  candidate_result = none;
  timestamp = 0;
}

sample_transition : (process_transition engine "WI-1" "intake" []).0 ≡ ok transitioned
unfolding process_transition transition_body use_item find_command use_command check_post apply
    update_twice find_transition_command find_transition resolve_state_ref resolve_alias lookup
    get_default str_of
sample_transition = refl

process_transition_success_example :
    Applied engine "WI-1" "intake" [] (process_transition engine "WI-1" "intake" []).1 transitioned
process_transition_success_example =
    process_transition_success engine "WI-1" "intake" [] transitioned sample_transition refl
