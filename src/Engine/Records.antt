-- ===== src/Engine/Records.antt =====
-- The values that the parts of the engine exchange: results, messages, and the record of what
-- the engine, the audit handlers and the PR monitor asked of the services around them. A message or a reason of the source is a constructor
-- with the values that the source puts into its text.
use ampa.Prelude.{ℕ, String, Bool, List, Option, Result, ℤ}
use ampa.Value.{Value, Fields}
use ampa.Shell.{ShellCommand, Completed}

-- The reasons of `evaluate_logic`, invariants.py.
pub data LogicReason : Type 0 where
  no_logic all_parts_passed : LogicReason
  length_is : (field : String) (actual : ℕ) (op : String) (value : ℕ) → LogicReason
  regex_on : (field : String) → LogicReason
  one_of : (field : String) (values : List String) → LogicReason
  not_one_of : (field : String) (actual : Value) (values : List String) → LogicReason
  tag : (value : String) → LogicReason
  count_is : (status : String) (count : ℤ) (op : String) (value : ℕ) → LogicReason
  unrecognized : (expr : String) → LogicReason

pub record SingleInvariantResult : Type 0 where
  pub name : String
  pub passed : Bool
  pub reason : LogicReason

pub record InvariantResult : Type 0 where
  pub passed : Bool
  pub results : List SingleInvariantResult

pub record WorkItemCandidate : Type 0 where
  pub id : String
  pub title : String
  pub status : String
  pub stage : String
  pub priority : String
  pub tags : List String
  pub raw : Fields

pub data RejectionReason : Type 0 where
  missing_id tagged_do_not_delegate : RejectionReason
  not_delegatable : (stage : String) (valid_stages : List String) → RejectionReason

pub record CandidateRejection : Type 0 where
  pub candidate : WorkItemCandidate
  pub reason : RejectionReason

pub data GlobalRejection : Type 0 where
  query_error no_candidates_returned : GlobalRejection
  in_progress_exist : ℤ → GlobalRejection

pub record CandidateResult : Type 0 where
  pub selected : Option WorkItemCandidate
  pub candidates : List WorkItemCandidate
  pub rejections : List CandidateRejection
  pub global_rejections : List GlobalRejection

pub record DispatchResult : Type 0 where
  pub success : Bool
  pub command : String
  pub work_item_id : String
  pub timestamp : ℕ
  pub pid : Option ℕ
  pub error : Option String
  pub container_id : Option String

pub record DispatchRecord : Type 0 where
  pub work_item_id : String
  pub action : String
  pub command : String
  pub pid : Option ℕ
  pub timestamp : ℕ
  pub status : String
  pub agent : Option String

-- What the engine writes to people.
pub data Message : Type 0 where
  agents_idle : Message
  delegation_blocked : (id : String) → InvariantResult → Message
  transition_refused : (target_stage : String) → InvariantResult → Message
  dispatch_failed_for : (id : String) (error : Option String) → Message
  delegated_as : (action id : String) (pid : Option ℕ) → Message
  plain_text : String → Message

-- One call of a service, with its answer where the answer decides what follows.
pub data Event : Type 0 where
  counted : Event
  candidates_fetched : Event
  item_fetched : (id : String) → Event
  updated : (id status stage : String) (assignee : Option String) (answer : Result Bool) → Event
  commented : (id : String) → Message → Event
  notified : Message → (title level : String) → Event
  dispatched : (command id : String) → Event
  recorded : DispatchRecord → Event
  ran : ShellCommand → (answer : Result Completed) → Event
  review_asked : (pr_number : ℕ) (id : String) → Event
