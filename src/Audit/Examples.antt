-- ===== src/Audit/Examples.antt =====
-- Audits of a sample item, and tests.
use Prim.Native.String.{◌++◌}
use ampa.Prelude.{
  String, true, [], ◌∷◌, none, some, Result, ok, ◌≡◌, refl, pos, str_eq, lookup, count,
  if◌then◌else◌,
}
use ampa.Text.{starts_with, has_text, strip, lower}
use ampa.Text.Find.{split_at, replace}
use ampa.Value.{Fields, str, bool, list, dict, nil, cons, end, field, get_default, str_of}
use ampa.Shell.{Completed, ShellCommand, run_audit_skill, view_merged}
use ampa.Engine.Descriptor.{
  StateTuple, alias, Command, WorkflowDescriptor, resolve_alias, resolve_state_ref, get_command,
}
use ampa.Engine.World.Silent.{Silent-pure}
use ampa.Engine.Evaluator.{evaluate, evaluate_loop, evaluate_name}
use ampa.Engine.Invariants.{evaluate_logic}
use ampa.Engine.Expressions.{extract_work_item_fields}
use ampa.Engine.Sample.{services, evaluator, workflow}
use ampa.Audit.Report.{
  ReportRe, AuditResult, parsed, recommends_closure_re, audit_report_start, audit_report_end,
  extract_report, parse_audit_output, detect_closure_recommendation, signal, extract_section,
  summary_of, parse_criteria_table, rows_to_criteria,
}
use ampa.Audit.Report.Markers.{extract_report-between}
use ampa.Audit.Comment.{format_audit_comment, format_audit_discord_summary}
use ampa.Audit.Commands.{
  HandlerResult, Handlers, successful, summary, no_details, check_from_state, accepts,
  get_work_item_id, get_work_item_state, get_work_item_title, get_work_item_tags, work_item_of,
  set_needs_producer_review, run_quietly, apply_tags, tags_to_write, merge_tags,
}
use ampa.Audit.Checks.{
  run_completion_checks, check_pr, is_pr_merged, has_no_open_children, query_json,
  extract_pr_from_work_item, first_pull, is_settled,
}
use ampa.Audit.Handlers.{
  execute_audit_result, execute_close_with_audit, begin, confirm, run_audit, use_audit,
  record_audit, check_pre, apply_transition, close_checked, close_effects, flag_item, tag_item,
  notify_item, notify_all,
}
use ampa.Audit.Handlers.Counted.{is_applied}
use ampa.Audit.Handlers.Own.{is_own}
use ampa.Audit.Handlers.Updates.{execute_audit_result-updates, execute_close_with_audit-updates}
use ampa.Audit.Handlers.Closed.{Closable, execute_close_with_audit-Closable}
use ampa.Audit.Handlers.Recorded.{Recorded, execute_audit_result-Recorded}

abbrev review : StateTuple
review = record { status = "in-progress"; stage = "in_review" }

abbrev passed : StateTuple
passed = record { status = "completed"; stage = "done" }

abbrev audit_command : String → String → String → Command
audit_command name from to = record {
  name = name;
  description = "";
  from_states = alias from ∷ [];
  to = alias to;
  actor = "QA";
  pre = "has_title" ∷ [];
  post = [];
  inputs = [];
  prompt_ref = "";
  effects = some (record {
    add_tags = "audited" ∷ [];
    remove_tags = [];
    set_assignee = none;
    set_needs_producer_review = some true;
    notifications = record { channel = "discord"; message = "${title} is closed" } ∷ [];
    audit = none;
  });
  dispatch_map = [];
}

abbrev audit_workflow : WorkflowDescriptor
audit_workflow = record workflow {
  states = ("review", review) ∷ ("audit_passed", passed) ∷ [];
  commands =
      ("audit_result", audit_command "audit_result" "review" "audit_passed")
      ∷ ("close_with_audit", audit_command "close_with_audit" "audit_passed" "review")
      ∷ [];
}

-- A report without headings is its own recommendation.
abbrev sample_re : ReportRe
sample_re = record {
  escape = λ s. s;
  search_heading = λ pattern text. some ("", text);
  search_next_heading = λ pattern text. none;
  matches = λ pattern text.
      if str_eq pattern recommends_closure_re
      then has_text (lower text) "criteria are met"
      else has_text (lower text) "closed? no";
  rows = λ pattern text. [];
}

abbrev answer_with : String → Result Completed
answer_with s = ok (record { returncode = pos 0; stdout = s; stderr = "" })

abbrev sample_shell : ShellCommand → Result Completed
sample_shell (run_audit_skill id) = answer_with "All acceptance criteria are met."
sample_shell (view_merged repo num) = answer_with "merged"
sample_shell _ = answer_with ""

abbrev sample_handlers : Handlers
sample_handlers = record {
  descriptor = audit_workflow;
  evaluator = evaluator;
  services = services (pos 0);
  run_shell = λ t command. sample_shell command;
  parse_json = λ s. ok (dict (field "merged" (bool true) end));
  re = sample_re;
  find_pull = λ body. some ("o/r", "7");
  closed_statuses = "completed" ∷ [];
}

abbrev item_at : StateTuple → Fields
item_at s = field "id" (str "WI-1") (
    field "status" (str s.status) (
      field "stage" (str s.stage) (
        field "title" (str "Door")
          (field "comments" (list (cons (dict (field "comment" (str "see 7") end)) nil)) end))))

extract_report-between_example :
    extract_report ("x" ++ (audit_report_start ++ (" ok" ++ (audit_report_end ++ "")))) ≡ "ok"
unfolding starts_with strip
extract_report-between_example =
    extract_report-between "x" " ok" "" (refl, tt) (refl, (refl, (refl, tt))) refl

abbrev denied : String
denied = "Can this item be closed? No. Not all acceptance criteria are met."

abbrev denied_audit : AuditResult
denied_audit = record {
  summary = denied;
  acceptance_criteria = [];
  recommends_closure = true;
  raw_output = denied;
  report_text = denied;
  closure_reason = denied;
}

denied_test : parse_audit_output sample_re denied ≡ parsed denied_audit
unfolding parse_audit_output extract_report split_at starts_with strip has_text lower
    extract_section detect_closure_recommendation signal summary_of parse_criteria_table
    rows_to_criteria
denied_test = refl

abbrev approved : AuditResult
approved = record {
  summary = "All acceptance criteria are met.";
  acceptance_criteria = [];
  recommends_closure = true;
  raw_output = "All acceptance criteria are met.";
  report_text = "All acceptance criteria are met.";
  closure_reason = "All acceptance criteria are met.";
}

abbrev recorded : HandlerResult
recorded =
    successful "audit_result_recorded" "audit_result" "WI-1"
      (summary (format_audit_discord_summary "Door" "WI-1" approved))
      (some (format_audit_comment approved))

recorded_test : (execute_audit_result sample_handlers (item_at review) []).0 ≡ ok recorded
unfolding execute_audit_result begin confirm check_from_state accepts get_work_item_id
    get_work_item_state get_work_item_title work_item_of run_audit use_audit record_audit check_pre
    apply_transition parse_audit_output extract_report split_at starts_with strip has_text lower
    extract_section detect_closure_recommendation signal summary_of parse_criteria_table
    rows_to_criteria resolve_state_ref resolve_alias get_command lookup get_default str_of evaluate
    evaluate_loop evaluate_name evaluate_logic extract_work_item_fields
recorded_test = refl

execute_audit_result-Recorded_example : Recorded sample_handlers (item_at review)
execute_audit_result-Recorded_example =
    execute_audit_result-Recorded sample_handlers (item_at review) [] recorded recorded_test refl

execute_audit_result-updates_example :
    (count is_applied (execute_audit_result sample_handlers (item_at review) []).1 ≡ 1)
    × (count
          (is_own sample_handlers "audit_result" (item_at review))
          (execute_audit_result sample_handlers (item_at review) []).1
        ≡ 1)
execute_audit_result-updates_example =
    execute_audit_result-updates sample_handlers (λ p only. Silent-pure (pos 0)) (item_at review) []
      recorded recorded_test

abbrev closed : HandlerResult
closed = successful "close_with_audit_completed" "close_with_audit" "WI-1" no_details none

closed_test : (execute_close_with_audit sample_handlers (item_at passed) []).0 ≡ ok closed
unfolding execute_close_with_audit close_checked close_effects begin confirm check_from_state
    accepts get_work_item_id get_work_item_state get_work_item_title get_work_item_tags work_item_of
    check_pre apply_transition starts_with strip lower resolve_state_ref resolve_alias get_command
    lookup get_default str_of evaluate evaluate_loop evaluate_name evaluate_logic
    extract_work_item_fields run_completion_checks check_pr is_pr_merged has_no_open_children
    query_json extract_pr_from_work_item first_pull is_settled flag_item set_needs_producer_review
    run_quietly tag_item apply_tags tags_to_write merge_tags notify_item notify_all replace
closed_test = refl

execute_close_with_audit-Closable_example : Closable sample_handlers (item_at passed)
execute_close_with_audit-Closable_example =
    execute_close_with_audit-Closable sample_handlers (item_at passed) [] closed closed_test refl

execute_close_with_audit-updates_example :
    (count is_applied (execute_close_with_audit sample_handlers (item_at passed) []).1 ≡ 1)
    × (count
          (is_own sample_handlers "close_with_audit" (item_at passed))
          (execute_close_with_audit sample_handlers (item_at passed) []).1
        ≡ 1)
execute_close_with_audit-updates_example =
    execute_close_with_audit-updates sample_handlers (λ p only. Silent-pure (pos 0))
      (item_at passed) [] closed closed_test
