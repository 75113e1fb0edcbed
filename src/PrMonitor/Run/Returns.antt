-- ===== src/PrMonitor/Run/Returns.antt =====
-- When `run` of src/ampa/pr_monitor.py returns.
pub mod Documented
mod Steps
use ampa.Prelude.{
  ℕ, String, Bool, true, false, not, ◌&&◌, List, [], ◌∷◌, Option, none, some, Result, ok, raise,
  ◌≡◌, refl, ◌∙◌, sym, ap, arith, if◌then◌else◌, all, is_empty, nonempty, contains, str_eq,
  Bool-cases, inl, inr, and_then, ℤ, pos, key_error, type_error, value_error, attribute_error,
  external,
}
use ampa.Text.{strip, lower, show_ℕ}
use ampa.Value.{
  Value, Fields, null, bool, int, number, str, list, dict, get, get_default, as_dict, str_of,
  items_to_list,
}
use ampa.Shell.{Completed, ShellCommand, gh_version, pr_list, pr_checks, pr_comment}
use ampa.Engine.Records.{DispatchResult}
use ampa.Engine.Expressions.{all_texts}
use ampa.Engine.World.{Trace, Io, ◌>>=◌, ◌>>◌, pure, lift, continue, recover, try_except}
use ampa.Engine.World.Gives.{
  Gives, Total, Gives-pure, Total-pure, Gives-lift, Gives-if, Total-try, Total-recover, Gives-bind,
  Total-bind,
}
use ampa.PrMonitor.{
  PrMonitorRunner, succeeded, prs_in, listed, shell, try_shell, gh_available, list_open_prs,
  ready_comment_marker, extract_work_item_id, id_in_branch, or_body, id_in_body,
}
use ampa.PrMonitor.Checks.{
  CheckStatus, all_passing, no_checks, add_check, with_check, read_checks, checks_of, status_of,
  says_no_checks, get_check_status,
}
use ampa.PrMonitor.Comments.{has_existing_comment, get_audit_dispatch_state}
use ampa.PrMonitor.Actions.{
  Metrics, no_metrics, post_gh_comment, post_wl_comment, try_send, handle_ready_pr,
  create_critical_work_item, track_failure, handle_failing_pr,
}
use ampa.PrMonitor.Reviews.{
  post_audit_dispatch_marker, after_dispatch, dispatch_audit, unless_dispatched, dispatch_item,
  dispatch_review,
}
use ampa.PrMonitor.Run.{
  Options, Tally, RunResult, check_and_present_audit_results, use_ready, use_status, use_number,
  if_numbered, use_pr, use_prs, use_list, run_with, run, read_options, or_fifty,
}
use ampa.PrMonitor.Run.Returns.Documented.{
  is_text, is_integer, is_pull, is_check, elements, named, pulls_only, &&-true, Reads,
  checks_of-Reads, prs_in-pulls, all_texts-returns, IsDocumented, prints,
}
use ampa.PrMonitor.Run.Returns.Steps.{
  try_shell-Total, try_send-Total, handle_ready_pr-Total, handle_failing_pr-Total,
  dispatch_review-Total,
}

module _ (m : PrMonitorRunner) where
  module _ (documented : IsDocumented m) where
    listed-pulls :
        (answer : Result Completed) (t : Trace)
        → prints m is_pull answer ≡ true
        → (o : Option (List Value)) × ((let (r, t') =
                continue answer (λ proc. pure (listed m proc)) t in
              recover r (pure none) t').0
            ≡ ok o)
          × (pulls_only o ≡ true)
    listed-pulls (raise e) t h = (none, refl, refl)
    listed-pulls (ok proc) t h = (listed m proc, refl, only proc h)
      where
        only :
            (proc : Completed)
            → prints m is_pull (ok proc) ≡ true
            → pulls_only (listed m proc) ≡ true
        only proc h = elim (Bool-cases (succeeded proc)) [
          | inl yes_ ↦ elim (Bool-cases (nonempty (strip proc.stdout))) [
            | inl some_ ↦ rw (yes_, some_) (prs_in-pulls _ h m)
            | inr none_ ↦ rw (yes_, none_) refl
          ]
          | inr no_ ↦ rw no_ refl
        ]

    list_open_prs-Gives : (k : ℤ) → Gives pulls_only (list_open_prs m k)
    unfolding list_open_prs
    list_open_prs-Gives k = record {
      at = λ t. listed-pulls (m.run_shell t (pr_list k)) _ (documented.pulls t k);
    }

    status_of-Reads :
        (proc : Completed) → prints m is_check (ok proc) ≡ true → Reads (status_of m (some proc))
    status_of-Reads proc h =
        elim (Bool-cases (not (nonempty (strip proc.stdout)) && succeeded proc)) [
          | inl yes_ ↦ rw yes_ (some no_checks, refl, refl)
          | inr no_ ↦ rw no_ (checks_of-Reads (says_no_checks proc) _ h)
        ]

    answered-Reads :
        (answer : Result Completed) (t : Trace)
        → prints m is_check answer ≡ true
        → Reads (
            (let (r, t') = continue answer (λ proc. pure (some proc)) t in
              let (o, t'') = recover r (pure none) t' in
              continue o (λ o. lift (status_of m o)) t'').0)
    answered-Reads (raise e) t h = (none, refl, refl)
    answered-Reads (ok proc) t h = status_of-Reads proc h

    get_check_status-Gives : (n : ℕ) → Gives named (get_check_status m n)
    unfolding get_check_status
    get_check_status-Gives n = record {
      at = λ t. answered-Reads (m.run_shell t (pr_checks n)) _ (documented.checks t n);
    }

    module _ (o : Options) where
      use_ready-Total :
          (pr : Fields) (n : ℕ) (title url : String) (s : Tally) (seen : Bool)
          → is_text (get_default pr "headRefName" (str "")) ≡ true
          → Total (use_ready m o pr n title url s seen)
      unfolding use_ready check_and_present_audit_results
      use_ready-Total pr n title url s true h =
          Total-bind _ _
            (Gives-if _ o.auto_review _ _ (Total-recover _ no_metrics) (Total-pure no_metrics))
            (λ more. Total-pure _)
      use_ready-Total pr n title url s false h =
          Total-bind _ _ (handle_ready_pr-Total m n title url) (λ told.
            Total-bind _ _
              (Gives-if _ o.auto_review _ _ (dispatch_review-Total m pr n title false h)
                (Total-pure no_metrics))
              (λ more. Total-pure _))

      use_status-Total :
          (pr : Fields) (n : ℕ) (title url : String) (s : Tally) (status : Option CheckStatus)
          → is_text (get_default pr "headRefName" (str "")) ≡ true
          → named status ≡ true
          → Total (use_status m o pr n title url s status)
      unfolding use_status has_existing_comment
      use_status-Total pr n title url s none h names = Total-pure _
      use_status-Total pr n title url s (some status) h names =
          Gives-if _ (not (is_empty status.pending) && is_empty status.failing) _ _ (Total-pure _) (
            Gives-if _ (all_passing status) _ _
              (Total-bind _ _ (Gives-if _ o.dedup _ _ (Total-recover _ false) (Total-pure false))
                (λ seen. use_ready-Total pr n title url s seen h))
              (Gives-if _ (not (is_empty status.failing)) _ _
                (Total-bind _ _ (handle_failing_pr-Total m n title url status.failing names)
                  (λ more. Total-pure _))
                (Total-pure s)))

      if_numbered-Total :
          (pr : Fields) (s : Tally) (v : Value)
          → is_integer v ≡ true
          → is_text (get_default pr "headRefName" (str "")) ≡ true
          → Total (if_numbered m o pr s v)
      unfolding use_number
      if_numbered-Total pr s null number_ branch = Total-pure s
      if_numbered-Total pr s (int n) number_ branch =
          Total-bind _ _ (Gives-lift _ _ n (documented.integers n) refl) (λ k.
            Gives-bind named _ _ _ (get_check_status-Gives k)
              (λ status names. use_status-Total pr k _ _ s status branch names))
      if_numbered-Total pr s (bool x) number_ branch = absurd (cc)
      if_numbered-Total pr s (number x) number_ branch = absurd (cc)
      if_numbered-Total pr s (str x) number_ branch = absurd (cc)
      if_numbered-Total pr s (list x) number_ branch = absurd (cc)
      if_numbered-Total pr s (dict x) number_ branch = absurd (cc)

      use_pr-Total : (v : Value) (s : Tally) → is_pull v ≡ true → Total (use_pr m o v s)
      unfolding use_pr
      use_pr-Total (dict pr) s h =
          let (number_, branch) = &&-true (is_integer (get pr "number")) _ h in
          record { at = λ t. (if_numbered-Total pr s (get pr "number") number_ branch).at t }
      use_pr-Total null s h = absurd (cc)
      use_pr-Total (bool x) s h = absurd (cc)
      use_pr-Total (int x) s h = absurd (cc)
      use_pr-Total (number x) s h = absurd (cc)
      use_pr-Total (str x) s h = absurd (cc)
      use_pr-Total (list x) s h = absurd (cc)

      use_prs-Total :
          (vs : List Value) (s : Tally) → all is_pull vs ≡ true → Total (use_prs m o vs s)
      unfolding use_prs
      use_prs-Total [] s h = Total-pure s
      use_prs-Total (v ∷ vs) s h =
          let (first, later) = &&-true _ _ h in
          Total-bind _ _ (use_pr-Total v s first) (λ s'. use_prs-Total vs s' later)

      use_list-Total :
          (prs : Option (List Value)) → pulls_only prs ≡ true → Total (use_list m o prs)
      unfolding use_list
      use_list-Total none h = Total-pure _
      use_list-Total (some []) h = Total-pure _
      use_list-Total (some (v ∷ vs)) h =
          Total-bind _ _ (use_prs-Total (v ∷ vs) _ h)
            (λ s. Total-bind _ _ (try_send-Total m _ _) (λ sent. Total-pure _))

      run_with-Total : Total (run_with m o)
      unfolding run_with gh_available
      run_with-Total = Total-bind _ _ (try_shell-Total m gh_version) (λ available.
          Gives-if _ available _ _
            (Gives-bind pulls_only _ _ _ (list_open_prs-Gives o.max_prs) use_list-Total)
            (Total-pure _))

-- Whether reading the option `max_prs` gives a number or one of the errors that are caught.
abbrev pub is_limit : Result ℤ → Bool
is_limit (ok n) = true
is_limit (raise type_error) = true
is_limit (raise value_error) = true
is_limit (raise e) = false

or_fifty-is_limit : (r : Result ℤ) → is_limit r ≡ true → (n : ℤ) × (or_fifty r ≡ ok n)
unfolding or_fifty
or_fifty-is_limit (ok n) h = (n, refl)
or_fifty-is_limit (raise type_error) h = (pos 50, refl)
or_fifty-is_limit (raise value_error) h = (pos 50, refl)
or_fifty-is_limit (raise attribute_error) h = absurd (cc)
or_fifty-is_limit (raise (key_error k)) h = absurd (cc)
or_fifty-is_limit (raise (external e)) h = absurd (cc)

-- A cycle returns a result, whatever commands, services and other readings of JSON fail or raise, if
-- `int` gives a number for the option `max_prs`, a `TypeError` or a `ValueError`, and not another
-- error, a list of pull requests that `gh` prints has only objects, with an integer for a number, or
-- none, and a text for the branch, a list of checks has only objects with a text for a name, and
-- `int` returns an integer as it is.
pub run_returns :
    (m : PrMonitorRunner)
    → IsDocumented m
    → (metadata : Fields) → is_limit (m.to_limit (get_default metadata "max_prs" (int 50))) ≡ true
    → (t : Trace) → (r : RunResult) × ((run m metadata t).0 ≡ ok r)
unfolding run read_options
run_returns m documented metadata limit t =
    let (n, read) = or_fifty-is_limit _ limit in
    rw read (let (r, e, _) = (run_with-Total m documented _).at t in (r, e))
