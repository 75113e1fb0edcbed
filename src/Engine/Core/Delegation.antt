-- ===== src/Engine/Core/Delegation.antt =====
-- `process_delegation` of src/ampa/engine/core.py.
pub mod Exits
pub mod Guards
pub mod Updates
pub mod Launch
pub mod Success
pub mod Quiet
pub mod Calls
mod Examples
use ampa.Prelude.{
  ℕ, String, Bool, true, false, not, List, [], ◌∷◌, Option, none, some, Result, ok, raise,
  if◌then◌else◌, option_eq, nonempty, is_empty, lookup, traverse, Dict,
}
use ampa.Text.{format}
use ampa.Value.{Fields, Value, dict, str, str_of, get_default, as_dict}
use ampa.Engine.Descriptor.{
  StateTuple, Command, Effects, WorkflowDescriptor, state_in, get_command, resolve_state_ref,
  resolve_from_state_alias,
}
use ampa.Engine.Records.{
  InvariantResult, CandidateResult, WorkItemCandidate, DispatchResult, DispatchRecord, Message,
  agents_idle, delegation_blocked, dispatch_failed_for, delegated_as,
}
use ampa.Engine.World.{
  Services, Io, Trace, ◌>>=◌, ◌>>◌, pure, lift, try_except, call_fetch, call_update, call_comment,
  call_send, call_dispatch, call_record,
}
use ampa.Engine.Candidates.{select}
use ampa.Engine.Evaluator.{evaluate}
use ampa.Engine.Core.Flow.{
  EngineStatus, success, no_candidates, rejected, invariant_failed, dispatch_failed, update_failed,
  skipped, error, EngineReason, audit_only_enabled, mode_is_hold, mode_is_discuss_options,
  mode_is_auto_decline, selection_empty, fetch_failed, fetch_for_invariants_failed,
  no_delegate_command, not_a_from_state, invariants_failed, transition_not_applied, no_alias,
  no_template, dispatch_error, dispatched_as, EngineResult, EngineConfig, Engine, Flow, next, exit,
  Step, ◌▹◌, flow_value,
}

-- The item that is delegated, and how it was found.
pub record Picked : Type 0 where
  pub id : String
  pub status : String
  pub stage : String
  pub candidate_result : Option CandidateResult

abbrev pub state_of : Picked → StateTuple
state_of p = record { status = p.status; stage = p.stage }

-- A result with no more than a status, a reason and an item.
abbrev plain : EngineStatus → EngineReason → Option String → ℕ → EngineResult
plain status reason id ts = record {
  status = status;
  reason = reason;
  work_item_id = id;
  command_name = none;
  action = none;
  dispatch_result = none;
  invariant_result = none;
  candidate_result = none;
  timestamp = ts;
}

-- `_fetch_work_item_data`
abbrev pub fetch_work_item_data : Services → String → Io (Option Fields)
fetch_work_item_data sv id = try_except (call_fetch sv id) (pure none)

module _ (self : Engine) (ts : ℕ) where
  abbrev pub sv : Services
  sv = self.services

  -- The modes in which nothing is delegated.
  pub pre_checks : Step Unit
  pre_checks =
      if self.config.audit_only
      then pure (exit (plain skipped audit_only_enabled none ts))
      else if option_eq self.config.fallback_mode "hold"
      then pure (exit (plain skipped mode_is_hold none ts))
      else if option_eq self.config.fallback_mode "discuss-options"
      then pure (exit (plain skipped mode_is_discuss_options none ts))
      else pure (next tt)

  pub use_selection : CandidateResult → Option WorkItemCandidate → Step Picked
  use_selection result none =
      call_send sv agents_idle "No Candidates" "info"
      >> pure (
          exit (record (plain no_candidates (selection_empty result) none ts) {
            candidate_result = some result;
          }))
  use_selection result (some c) = pure (
      next
        (record { id = c.id; status = c.status; stage = c.stage; candidate_result = some result }))

  picked_from : String → Value → Result Picked
  picked_from id v = picked (as_dict v)
    where
      picked : Result Fields → Result Picked
      picked (raise e) = raise e
      picked (ok wi) = ok (record {
        id = id;
        status = str_of (get_default wi "status" (str ""));
        stage = str_of (get_default wi "stage" (str ""));
        candidate_result = none;
      })

  pub use_fetched : String → Option Fields → Step Picked
  use_fetched id none = pure (exit (plain error (fetch_failed id) (some id) ts))
  use_fetched id (some data_) =
      lift (picked_from id (get_default data_ "workItem" (dict data_))) >>= λ p. pure (next p)

  pub pick : Option String → Step Picked
  pick none = select sv self.selector >>= λ result. use_selection result result.selected
  pick (some id) = call_fetch sv id >>= λ found. use_fetched id found

  -- A missing command is an error of the descriptor, not an exception.
  pub delegate_command : String → Step Command
  delegate_command id = elim (get_command self.descriptor "delegate") [
    | ok cmd ↦ pure (next cmd)
    | raise e ↦ pure (exit (plain error no_delegate_command (some id) ts))
  ]

  -- Step 1.
  pub confirm_from_state : Picked → Command → Step Unit
  confirm_from_state p cmd =
      lift (traverse (resolve_state_ref self.descriptor) cmd.from_states) >>= λ valid_from_states.
      if state_in (state_of p) valid_from_states
      then pure (next tt)
      else pure (
          exit (record (plain rejected (not_a_from_state p.id (state_of p)) (some p.id) ts) {
            command_name = some "delegate";
            candidate_result = p.candidate_result;
          }))

  pub pre_failed : Picked → InvariantResult → Step (Option InvariantResult)
  pre_failed p inv =
      call_comment sv p.id (delegation_blocked p.id inv)
      >> (call_send sv (delegation_blocked p.id inv) "Pre-Invariant Failure" "warning"
          >> pure (
              exit (record (plain invariant_failed (invariants_failed inv) (some p.id) ts) {
                command_name = some "delegate";
                invariant_result = some inv;
                candidate_result = p.candidate_result;
              })))

  pub evaluate_pre : Picked → Command → Option Fields → Step (Option InvariantResult)
  evaluate_pre p cmd none = pure (
      exit (record (plain error (fetch_for_invariants_failed p.id) (some p.id) ts) {
        command_name = some "delegate";
      }))
  evaluate_pre p cmd (some work_item) = evaluate self.evaluator cmd.pre work_item false >>= λ inv.
      if inv.passed then pure (next (some inv)) else pre_failed p inv

  -- Step 2.
  pub check_pre : Picked → Command → Step (Option InvariantResult)
  check_pre p cmd =
      if is_empty cmd.pre
      then pure (next none)
      else (fetch_work_item_data sv p.id >>= λ found. evaluate_pre p cmd found)

  -- `effects.set_assignee`, where there are effects and it is not empty.
  pub assignee_of : Option Effects → Option String
  assignee_of none = none
  assignee_of (some e) = elim e.set_assignee [
    | none ↦ none
    | some a ↦ if nonempty a then some a else none
  ]

  -- Step 3: the transition, tried twice.
  unfoldable pub update_twice : String → StateTuple → Option String → Io Bool
  update_twice id to assignee = call_update sv id to.status to.stage assignee >>= λ first.
      if first then pure true else call_update sv id to.status to.stage assignee

  pub apply_transition : Picked → Command → Step StateTuple
  apply_transition p cmd = lift (resolve_state_ref self.descriptor cmd.to) >>= λ to.
      update_twice p.id to (assignee_of cmd.effects) >>= λ applied.
      if applied
      then pure (next to)
      else pure (
          exit (record (plain update_failed (transition_not_applied to p.id) (some p.id) ts) {
            command_name = some "delegate";
          }))

  with_action : EngineResult → Option String → EngineResult
  with_action r action = record r { command_name = some "delegate"; action = action }

  -- The dispatch template of the from-state's alias.
  pub find_template : Picked → Command → Step (String × String)
  find_template p cmd =
      let action = resolve_from_state_alias self.descriptor cmd (state_of p) in
      if option_eq self.config.fallback_mode "auto-decline"
      then pure (exit (with_action (plain skipped mode_is_auto_decline (some p.id) ts) action))
      else elim action [
        | none ↦ pure (exit (with_action (plain error (no_alias (state_of p)) (some p.id) ts) none))
        | some a ↦ elim (lookup a cmd.dispatch_map) [
          | none ↦ pure (exit (with_action (plain error (no_template a) (some p.id) ts) (some a)))
          | some template ↦ pure (next (a, template))
        ]
      ]

  -- `agent_hint or ""`, and the agent of the audit record, which is left out when empty.
  pub or_empty : Option String → String
  or_empty none = ""
  or_empty (some a) = a

  pub if_given : Option String → Option String
  if_given none = none
  if_given (some a) = if nonempty a then some a else none

  pub report_failure : Picked → String → DispatchResult → Step EngineResult
  report_failure p action d =
      call_send sv (dispatch_failed_for p.id d.error) "Dispatch Failure" "error"
      >> pure (
          exit (record (plain dispatch_failed (dispatch_error d.error) (some p.id) ts) {
            command_name = some "delegate";
            action = some action;
            dispatch_result = some d;
            candidate_result = p.candidate_result;
          }))

  abbrev pub dispatch_record :
      Picked → (action command : String) → Option String → DispatchResult → DispatchRecord
  dispatch_record p action command agent_hint d = record {
    work_item_id = p.id;
    action = action;
    command = command;
    pid = d.pid;
    timestamp = d.timestamp;
    status = "dispatched";
    agent = if_given agent_hint;
  }

  pub record_success :
      Picked
      → Option InvariantResult
      → (action command : String) → Option String
      → DispatchResult
      → Step EngineResult
  record_success p inv action command agent_hint d =
      call_record sv (dispatch_record p action command agent_hint d)
      >> (call_send sv (delegated_as action p.id d.pid) "Delegation Dispatch" "info"
          >> pure (
              next (record (plain success (dispatched_as action p.id) (some p.id) ts) {
                command_name = some "delegate";
                action = some action;
                dispatch_result = some d;
                invariant_result = inv;
                candidate_result = p.candidate_result;
              })))

  -- Step 4.
  pub launch :
      Picked → Option InvariantResult → Option String → (String × String) → Step EngineResult
  launch p inv agent_hint (action, template) =
      lift (format template (("id", p.id) ∷ ("agent", or_empty agent_hint) ∷ [])) >>= λ command.
      call_dispatch sv command p.id >>= λ d.
      if d.success
      then record_success p inv action command agent_hint d
      else report_failure p action d

  pub finish : Picked → Command → Option String → Option InvariantResult → Step EngineResult
  finish p cmd agent_hint inv =
      apply_transition p cmd ▹ λ _. find_template p cmd ▹ λ found. launch p inv agent_hint found

  pub delegation_body : (work_item_id agent_hint : Option String) → Step EngineResult
  delegation_body work_item_id agent_hint = pre_checks ▹ λ _. pick work_item_id ▹ λ p.
      delegate_command p.id ▹ λ cmd.
      confirm_from_state p cmd ▹ λ _. check_pre p cmd ▹ λ inv. finish p cmd agent_hint inv

pub process_delegation : Engine → (work_item_id agent_hint : Option String) → Io EngineResult
process_delegation self work_item_id agent_hint t =
    (delegation_body self (self.services.clock t) work_item_id agent_hint >>= λ f.
    pure (flow_value f))
      t
