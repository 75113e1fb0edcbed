-- ===== src/PrMonitor/Examples.antt =====
-- A pull request whose audit is older than its last change, and tests.
use Prim.Native.String.{char_at, ◌++◌ as append}
use ampa.Prelude.{
  ℕ, suc, String, true, List, [], ◌∷◌, Option, none, some, Result, ok, raise, ◌≡◌, ◌≢◌, refl, pos,
  str_eq, count, and_then, if◌then◌else◌, value_error,
}
use ampa.Text.{starts_with, has_text, strip, lower, show_ℕ}
use ampa.Text.Find.{split_at}
use ampa.Value.{Value, Fields, str, int, list, dict, nil, cons, end, field, get_default, str_of}
use ampa.Shell.{Completed, ShellCommand, pr_list, pr_checks, pr_view_comments, wl_show, pr_merge}
use ampa.Scheduler.Numbers.{text_lt}
use ampa.Engine.World.{Trace}
use ampa.Engine.Sample.{services}
use ampa.PrMonitor.{
  PrMonitorRunner, ready_comment_marker, audit_result_marker, dispatch_marker, extract_work_item_id,
  coerce_bool, gh_available, list_open_prs, try_shell,
}
use ampa.PrMonitor.Checks.{get_check_status, read_checks, add_check}
use ampa.PrMonitor.Comments.{
  marked_json, get_audit_dispatch_state, get_audit_result, first_state, first_audit, usable,
  parse_marker_json, to_closing, any_has, has_existing_comment,
}
use ampa.PrMonitor.Actions.{try_send, send_notification}
use ampa.PrMonitor.Reviews.{
  dispatch_review, dispatch_item, dispatch_audit, after_dispatch, post_audit_dispatch_marker,
}
use ampa.PrMonitor.Run.Partition.{Counted, run_partition}
use ampa.PrMonitor.Decision.{
  merged, error, is_approval, merge_pr, notify_review_outcome, handle_approve,
  handle_review_decision,
}
use ampa.PrMonitor.Decision.Merged.{
  is_closing, handle_review_decision_lem, handle_review_decision-closing,
}
use ampa.PrMonitor.Run.{
  Options, RunResult, completed, empty_tally, run, run_with, read_options, or_fifty, use_list,
  use_prs, use_pr, use_number, use_status, use_ready, updated_at_of, with_state,
  check_and_present_audit_results,
}
use ampa.PrMonitor.Run.Returns.Documented.{IsDocumented}
use ampa.PrMonitor.Run.Returns.{run_returns}
use ampa.PrMonitor.Run.Stale.{is_dispatch, check_and_present_audit_results_again}
use ampa.PrMonitor.Marker.{Body, no_more, char, object, text_of, marked_json_cut}

abbrev answer_with : String → Result Completed
answer_with s = ok (record { returncode = pos 0; stdout = s; stderr = "" })

abbrev sample_shell : ShellCommand → Result Completed
sample_shell (pr_list n) = answer_with "prs"
sample_shell (pr_checks n) = answer_with "checks"
sample_shell (pr_view_comments n) = answer_with "comments"
sample_shell (wl_show id) = answer_with "item"
sample_shell (pr_merge n) = ok (record { returncode = pos 1; stdout = ""; stderr = "conflict" })
sample_shell _ = answer_with ""

abbrev one : Value → Value
one v = list (cons v nil)

abbrev pull : Fields
pull = field "number" (int 7) (
    field "title" (str "Fix") (
      field "headRefName" (str "feature/SA-0MMJY1K3W1-fix")
        (field "updatedAt" (str "2026-02-01") end)))

abbrev old_audit : Fields
old_audit = field "audited_at" (str "2026-01-01") end

abbrev loads : String → Result Value
loads s =
    if str_eq s "prs"
    then ok (one (dict pull))
    else if str_eq s "checks"
    then ok (one (dict (field "name" (str "build") (field "bucket" (str "pass") end))))
    else if str_eq s "comments"
    then ok (dict (field "comments" (one (dict (field "body" (str ready_comment_marker) end))) end))
    else if str_eq s "item"
    then ok (
        dict (
          field "comments"
            (list (
              cons (dict (field "comment" (str (append (dispatch_marker 7) "\n{}")) end))
                (cons (dict (field "comment" (str (append audit_result_marker "\n{0}")) end)) nil)))
            end))
    else if str_eq s "{}"
    then ok (dict end)
    else if str_eq s "{0}"
    then ok (dict old_audit)
    else raise value_error

abbrev read_number : Value → Result ℕ
read_number (int n) = ok n
read_number _ = raise value_error

abbrev monitor : PrMonitorRunner
monitor = record {
  services = services (pos 0);
  has_notifier = true;
  has_dispatcher = true;
  run_shell = λ t command. sample_shell command;
  loads = loads;
  dumps_dispatch = λ n at container id. "{}";
  to_int = read_number;
  to_limit = λ v. and_then (read_number v) (λ n. ok (pos n));
  upper = λ s. s;
  branch_id = λ s. some "SA-0MMJY1K3W1";
  body_id = λ s. none;
  session_state = λ t id. none;
}

-- The inside of `{a{b}"}`, where the last brace stands in a text.
abbrev cut_body : Body
cut_body =
    char (char_at "a" 0) refl
      (object (char (char_at "b" 0) refl no_more) (char (char_at "\"" 0) refl no_more))

marked_json_cut_example :
    marked_json
      (append "An audit: " (append audit_result_marker "\n{a{b}\"}\", \"c\": 1}"))
      audit_result_marker
    ≡ some "{a{b}\"}"
unfolding text_of starts_with
marked_json_cut_example =
    marked_json_cut audit_result_marker "An audit: " "\n" cut_body "\", \"c\": 1}" refl
      (refl, (refl, (refl, (refl, (refl, (refl, (refl, (refl, (refl, (refl, tt)))))))))) (refl, tt)

abbrev opened : Result (Option String) × Trace
opened = extract_work_item_id monitor pull []

abbrev state_read : Result (Option Value) × Trace
state_read = get_audit_dispatch_state monitor "SA-0MMJY1K3W1" 7 opened.1

abbrev newer_read : Result (Option Fields) × Trace
newer_read = get_audit_result monitor "SA-0MMJY1K3W1" 7 (some "2026-02-01") state_read.1

abbrev older_read : Result (Option Fields) × Trace
older_read = get_audit_result monitor "SA-0MMJY1K3W1" 7 none newer_read.1

abbrev reopened : Result (Option String) × Trace
reopened = extract_work_item_id monitor pull older_read.1

check_and_present_audit_results_again_example :
    count is_dispatch (check_and_present_audit_results monitor pull 7 "Fix" []).1
    ≡ suc (count is_dispatch [])
unfolding extract_work_item_id get_audit_dispatch_state get_audit_result first_state first_audit
    parse_marker_json marked_json to_closing usable split_at starts_with strip has_text get_default
    str_of dispatch_marker show_ℕ updated_at_of text_lt
check_and_present_audit_results_again_example =
    check_and_present_audit_results_again monitor pull 7 "Fix" "SA-0MMJY1K3W1" "2026-02-01"
      (dict end) old_audit [] opened.1 state_read.1 newer_read.1 older_read.1 reopened.1 refl refl
      refl refl refl refl refl refl

abbrev counted : RunResult
counted = record {
  action = completed;
  prs_checked = 1;
  tally = record empty_tally {
    skipped_prs = 7 ∷ [];
    skipped_dedup_prs = 1;
    metrics = record {
      llm_reviews_dispatched = 1;
      llm_reviews_presented = 0;
      notifications_sent = 1;
    };
  };
}

counted_test : (run monitor end []).0 ≡ ok counted
unfolding run run_with read_options or_fifty coerce_bool gh_available list_open_prs use_list use_prs
    use_pr use_number get_check_status read_checks add_check use_status has_existing_comment any_has
    use_ready check_and_present_audit_results with_state extract_work_item_id
    get_audit_dispatch_state get_audit_result first_state first_audit parse_marker_json marked_json
    to_closing usable split_at starts_with strip lower has_text get_default str_of dispatch_marker
    show_ℕ updated_at_of text_lt dispatch_review dispatch_item dispatch_audit after_dispatch
    post_audit_dispatch_marker try_send send_notification try_shell
counted_test = refl

run_partition_example :
    (o : Options) × (read_options monitor end ≡ ok o)
    × (asked : Trace) × (listed : List Value) × ((list_open_prs monitor o.max_prs asked).0
        ≡ ok (some listed))
    × Counted monitor o listed counted
run_partition_example = run_partition monitor end [] counted counted_test refl

handle_review_decision_lem_example :
    (handle_review_decision monitor " Accept" 7 (some "SA-0MMJY1K3W1") "Sam" []).0 ≡ ok error
unfolding is_approval strip lower
handle_review_decision_lem_example =
    handle_review_decision_lem monitor " Accept" 7 (some "SA-0MMJY1K3W1") "Sam" []

unmerged :
    (handle_review_decision monitor " Accept" 7 (some "SA-0MMJY1K3W1") "Sam" []).0 ≢ ok merged
unfolding handle_review_decision handle_approve is_approval strip lower merge_pr try_shell
    notify_review_outcome try_send send_notification
unmerged = λ e. cc

handle_review_decision-closing_example :
    count is_closing (handle_review_decision monitor " Accept" 7 (some "SA-0MMJY1K3W1") "Sam" []).1
    ≡ count is_closing []
handle_review_decision-closing_example =
    handle_review_decision-closing monitor " Accept" 7 (some "SA-0MMJY1K3W1") "Sam" [] unmerged

monitor-IsDocumented : IsDocumented monitor
unfolding strip get_default
monitor-IsDocumented = record { pulls = λ t k. refl; checks = λ t n. refl; integers = λ n. refl }

run_returns_example : (r : RunResult) × ((run monitor end []).0 ≡ ok r)
unfolding get_default
run_returns_example = run_returns monitor monitor-IsDocumented end refl []
