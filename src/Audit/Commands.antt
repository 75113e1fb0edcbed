-- ===== src/Audit/Commands.antt =====
-- What the three handlers of src/ampa/audit/handlers.py share: the fields of the work item, the
-- check of its state, and the commands that they run.
use Prim.Native.Char.{code}
use Prim.Native.String.{char_at}
use ampa.Prelude.{
  String, Bool, true, false, not, ◌&&◌, ◌||◌, ◌==◌, if◌then◌else◌, List, [], ◌∷◌, ◌++◌, Option,
  none, some, Result, ok, raise, type_error, and_then, traverse, any, all, str_eq, nonempty, eq_ℤ,
}
use ampa.Text.{strip, lower, join}
use ampa.Value.{Value, Fields, str, list, dict, nil, get_default, as_dict, str_of, ◌or◌}
use ampa.Shell.{Completed, ShellCommand, update_tags, update_needs_review}
use ampa.Engine.Descriptor.{
  StateTuple, WorkflowDescriptor, state_in, get_command, resolve_state_ref,
}
use ampa.Engine.Records.{InvariantResult}
use ampa.Engine.World.{Trace, Services, Io, ◌>>=◌, pure, lift, try_except, call_shell}
use ampa.Engine.Expressions.{iterate, all_texts}
use ampa.Engine.Evaluator.{InvariantEvaluator}
use ampa.Audit.Report.{ReportRe, ParseReason}

-- The details of a result, by what the source puts into their text.
pub data Details : Type 0 where
  no_details comment_not_written : Details
  in_state : (current : StateTuple) (expected : List StateTuple) → Details
  not_parsed : ParseReason → Details
  invariants : InvariantResult → Details
  summary : String → Details
  no_transition_to : StateTuple → Details
  checks : List String → Details

pub record HandlerResult : Type 0 where
  pub success : Bool
  pub reason : String
  pub command : String
  pub work_item_id : String
  pub details : Details
  pub audit_report_markdown : Option String  -- `metadata`

-- The parts of the handlers, and what lies outside the code: the shell, the reading of JSON, the
-- regular expressions, and `CLOSED_STATUSES` of the package `plan`.
pub record Handlers : Type 0 where
  pub descriptor : WorkflowDescriptor
  pub evaluator : InvariantEvaluator
  pub services : Services
  pub run_shell : Trace → ShellCommand → Result Completed
  pub parse_json : String → Result Value
  pub re : ReportRe
  pub find_pull : String → Option (String × String)
  pub closed_statuses : List String

-- `wi = work_item.get("workItem", work_item)`, and `wi.get(key, "")` as a text.
unfoldable pub work_item_of : Fields → Result Fields
work_item_of item = as_dict (get_default item "workItem" (dict item))

abbrev text_in : String → Fields → String
text_in key wi = str_of (get_default wi key (str ""))

unfoldable pub get_work_item_id : Fields → Result String
get_work_item_id item = and_then (work_item_of item) (λ wi. ok (text_in "id" wi))

unfoldable pub get_work_item_state : Fields → Result StateTuple
get_work_item_state item =
    and_then (work_item_of item)
      (λ wi. ok (record { status = text_in "status" wi; stage = text_in "stage" wi }))

unfoldable pub get_work_item_title : Fields → Result String
get_work_item_title item = and_then (work_item_of item) (λ wi. ok (text_in "title" wi))

unfoldable pub get_work_item_tags : Fields → Result Value
get_work_item_tags item =
    and_then (work_item_of item) (λ wi. ok (get_default wi "tags" (list nil) or list nil))

-- `.replace("-", "_").replace(" ", "_")`
unfoldable pub underscored : String → String
underscored String.[] = String.[]
underscored (String.◌∷◌ c s) =
    let rest = underscored s in
    if code c == 45 || code c == 32 then String.◌∷◌ (char_at "_" 0) rest else String.◌∷◌ c rest

unfoldable pub canonical_stage : String → String
canonical_stage stage = underscored (lower (strip stage))

-- The state is one of the valid ones, or has the stage of one, in whatever spelling.
unfoldable pub accepts : StateTuple → List StateTuple → Bool
accepts current valid =
    let stage = canonical_stage current.stage in
    state_in current valid
    || (nonempty stage
        && any
            (λ (s : StateTuple).
              let other = canonical_stage s.stage in nonempty other && str_eq other stage)
            valid)

abbrev pub failure : (reason command id : String) → Details → HandlerResult
failure reason command id details = record {
  success = false;
  reason = reason;
  command = command;
  work_item_id = id;
  details = details;
  audit_report_markdown = none;
}

abbrev pub successful : (reason command id : String) → Details → Option String → HandlerResult
successful reason command id details report = record {
  success = true;
  reason = reason;
  command = command;
  work_item_id = id;
  details = details;
  audit_report_markdown = report;
}

-- `_check_from_state`, with the id that its callers put into the result.
unfoldable pub check_from_state :
    WorkflowDescriptor → (command id : String) → StateTuple → Result (Option HandlerResult)
check_from_state d command id current = and_then (get_command d command) (λ cmd.
    and_then (traverse (resolve_state_ref d) cmd.from_states) (λ valid. ok (
      if accepts current valid
      then none
      else some (failure "invalid_from_state" command id (in_state current valid)))))

-- `tag not in merged` for values that are texts or not.
abbrev is_value : String → Value → Bool
is_value t (str s) = str_eq s t
is_value t _ = false

unfoldable pub merge_tags : List Value → List String → List Value
merge_tags merged [] = merged
merge_tags merged (tag ∷ tags) =
    merge_tags (if any (is_value tag) merged then merged else merged ++ str tag ∷ []) tags

-- `set(...)` of values: lists and dicts have no hash.
abbrev hashable : Value → Bool
hashable (list _) = false
hashable (dict _) = false
hashable _ = true

abbrev same_length : List Value → List Value → Bool
same_length [] [] = true
same_length (x ∷ xs) (y ∷ ys) = same_length xs ys
same_length _ _ = false

module _ (h : Handlers) where
  abbrev pub run : ShellCommand → Io Completed
  run command = call_shell h.run_shell command

  -- A command whose failure is logged and no more: does it end with the code 0?
  unfoldable pub run_quietly : ShellCommand → Io Bool
  run_quietly command =
      try_except (run command >>= λ proc. pure (eq_ℤ proc.returncode 0)) (pure false)

  -- The tags as they are written: none where nothing is added.
  unfoldable pub tags_to_write : Value → List String → Result (Option String)
  tags_to_write existing add = and_then (iterate existing) (λ old.
      let merged = merge_tags old add in
      if not (all hashable merged)
      then raise type_error
      else if same_length merged old
      then ok none
      else and_then (all_texts merged) (λ texts. ok (some (join "," texts))))

  abbrev pub write_tags : String → Option String → Io Bool
  write_tags id none = pure true
  write_tags id (some tags) = run_quietly (update_tags id tags)

  unfoldable pub apply_tags : String → Value → List String → Io Bool
  apply_tags id existing add = lift (tags_to_write existing add) >>= λ tags. write_tags id tags

  unfoldable pub set_needs_producer_review : String → (value : Bool) → Io Bool
  set_needs_producer_review id value = run_quietly (update_needs_review id value)
