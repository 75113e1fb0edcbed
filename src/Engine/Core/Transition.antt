-- ===== src/Engine/Core/Transition.antt =====
-- `process_transition` of src/ampa/engine/core.py.
pub mod Guards
pub mod Applied
mod Examples
use ampa.Prelude.{
  and_then, ℕ, String, Bool, true, false, not, List, [], ◌∷◌, Option, none, some, Result, ok, raise,
  if◌then◌else◌, str_eq, is_empty, values, traverse,
}
use ampa.Value.{Fields, Value, dict, str, str_of, get_default, as_dict}
use ampa.Engine.Descriptor.{StateTuple, Command, WorkflowDescriptor, state_in, resolve_state_ref}
use ampa.Engine.Records.{InvariantResult, transition_refused}
use ampa.Engine.World.{Services, Io, ◌>>=◌, ◌>>◌, pure, lift, call_update, call_comment}
use ampa.Engine.Evaluator.{evaluate}
use ampa.Engine.Core.Flow.{
  EngineStatus, success, rejected, invariant_failed, update_failed, error, EngineReason,
  fetch_failed, no_transition, invariants_failed, transition_not_applied, applied_via, EngineResult,
  Engine, Flow, next, exit, Step, ◌▹◌, flow_value,
}
use ampa.Engine.Core.Delegation.{update_twice, fetch_work_item_data}

abbrev plain : EngineStatus → EngineReason → String → Option String → ℕ → EngineResult
plain status reason id command ts = record {
  status = status;
  reason = reason;
  work_item_id = some id;
  command_name = command;
  action = none;
  dispatch_result = none;
  invariant_result = none;
  candidate_result = none;
  timestamp = ts;
}

-- The loop of `_find_transition_command`: the references of the commands that it does not come to
-- are not resolved.
pub find_transition :
    WorkflowDescriptor → StateTuple → String → List Command → Result (Option Command)
find_transition d current target_stage [] = ok none
find_transition d current target_stage (cmd ∷ cmds) =
    let rest = find_transition d current target_stage cmds in
    and_then (traverse (resolve_state_ref d) cmd.from_states) (λ from_states.
      if not (state_in current from_states)
      then rest
      else and_then (resolve_state_ref d cmd.to)
          (λ to. if str_eq to.stage target_stage then ok (some cmd) else rest))

pub find_transition_command : WorkflowDescriptor → StateTuple → String → Result (Option Command)
find_transition_command d current target_stage =
    find_transition d current target_stage (values d.commands)

abbrev pub state_of_item : Value → Result StateTuple
state_of_item v = and_then (as_dict v) (λ wi. ok (record {
  status = str_of (get_default wi "status" (str ""));
  stage = str_of (get_default wi "stage" (str ""));
}))

module _ (self : Engine) (ts : ℕ) (id target_stage : String) where
  pub use_item : Option Fields → Step (Fields × StateTuple)
  use_item none = pure (exit (plain error (fetch_failed id) id none ts))
  use_item (some data_) =
      lift (state_of_item (get_default data_ "workItem" (dict data_))) >>= λ current.
      pure (next (data_, current))

  pub use_command : StateTuple → Option Command → Step Command
  use_command current none =
      pure (exit (plain rejected (no_transition current target_stage) id none ts))
  use_command current (some cmd) = pure (next cmd)

  pub find_command : StateTuple → Step Command
  find_command current =
      lift (find_transition_command self.descriptor current target_stage) >>= λ found.
      use_command current found

  pub refuse : Command → InvariantResult → Step (Option InvariantResult)
  refuse cmd inv =
      call_comment self.services id (transition_refused target_stage inv)
      >> pure (
          exit (record (plain invariant_failed (invariants_failed inv) id (some cmd.name) ts) {
            invariant_result = some inv;
          }))

  pub check_post : Fields → Command → Step (Option InvariantResult)
  check_post work_item cmd =
      if is_empty cmd.post
      then pure (next none)
      else (evaluate self.evaluator cmd.post work_item false >>= λ inv.
          if inv.passed then pure (next (some inv)) else refuse cmd inv)

  -- The code repeats the two attempts of `process_delegation`, without an assignee.
  pub apply : Command → Option InvariantResult → Step EngineResult
  apply cmd inv = lift (resolve_state_ref self.descriptor cmd.to) >>= λ to.
      update_twice self ts id to none >>= λ applied.
      if applied
      then pure (
          next (record (plain success (applied_via cmd.name) id (some cmd.name) ts) {
            invariant_result = inv;
          }))
      else pure (exit (plain update_failed (transition_not_applied to id) id (some cmd.name) ts))

  pub transition_body : Step EngineResult
  transition_body = (fetch_work_item_data self.services id >>= λ found. use_item found) ▹ λ item.
      find_command item.1 ▹ λ cmd. check_post item.0 cmd ▹ λ inv. apply cmd inv

pub process_transition : Engine → (id target_stage : String) → Io EngineResult
process_transition self id target_stage t =
    (transition_body self (self.services.clock t) id target_stage >>= λ f. pure (flow_value f)) t
