-- ===== src/PrMonitor/Run.antt =====
-- One cycle of the PR monitor: `run` of src/ampa/pr_monitor.py.
pub mod Partition
pub mod Stale
pub mod Returns
use Prim.Native.String.{◌++◌ as append}
use ampa.Prelude.{
  ℕ, zero, suc, ◌+◌, String, Bool, true, false, not, ◌&&◌, if◌then◌else◌, List, [], ◌∷◌, ◌++◌,
  Option, none, some, Result, ok, raise, type_error, value_error, and_then, ℤ, pos, nonempty,
  is_empty, length,
}
use ampa.Text.{strip, show_ℕ}
use ampa.Value.{Value, Fields, null, bool, str, get, get_default, as_dict, str_of, truthy, ◌or◌}
use ampa.Engine.World.{Trace, Io, ◌>>=◌, ◌>>◌, pure, lift, try_except}
use ampa.PrMonitor.{
  PrMonitorRunner, ready_comment_marker, coerce_bool, gh_available, list_open_prs,
  extract_work_item_id,
}
use ampa.PrMonitor.Checks.{CheckStatus, all_passing, get_check_status}
use ampa.PrMonitor.Comments.{has_existing_comment, get_audit_dispatch_state, get_audit_result}
use ampa.PrMonitor.Actions.{
  Metrics, no_metrics, sent_if, concat, handle_ready_pr, handle_failing_pr, try_send,
}
use ampa.PrMonitor.Reviews.{is_running, dispatch_review, present_audit_results}

-- The options of a run, from the metadata of the command.
pub record Options : Type 0 where
  pub max_prs : ℤ
  pub dedup : Bool
  pub auto_review : Bool

-- The default is taken for a `TypeError` and a `ValueError` only.
unfoldable pub or_fifty : Result ℤ → Result ℤ
or_fifty (ok n) = ok n
or_fifty (raise type_error) = ok (pos 50)
or_fifty (raise value_error) = ok (pos 50)
or_fifty (raise e) = raise e

unfoldable pub read_options : PrMonitorRunner → Fields → Result Options
unfolding or_fifty
read_options m metadata =
    and_then (or_fifty (m.to_limit (get_default metadata "max_prs" (Value.int 50)))) (λ max_prs.
      ok (record {
        max_prs = max_prs;
        dedup = coerce_bool (get_default metadata "dedup" (bool true));
        auto_review = coerce_bool (get_default metadata "auto_review" (bool true));
      }))

-- The variables of the loop.
pub record Tally : Type 0 where
  pub ready_prs : List ℕ
  pub failing_prs : List ℕ
  pub skipped_prs : List ℕ
  pub skipped_pending_prs : ℕ
  pub skipped_dedup_prs : ℕ
  pub checks_unavailable_prs : ℕ
  pub metrics : Metrics

abbrev pub empty_tally : Tally
empty_tally = record {
  ready_prs = [];
  failing_prs = [];
  skipped_prs = [];
  skipped_pending_prs = 0;
  skipped_dedup_prs = 0;
  checks_unavailable_prs = 0;
  metrics = no_metrics;
}

abbrev pub add : Metrics → Metrics → Metrics
add a b = record {
  llm_reviews_dispatched = a.llm_reviews_dispatched + b.llm_reviews_dispatched;
  llm_reviews_presented = a.llm_reviews_presented + b.llm_reviews_presented;
  notifications_sent = a.notifications_sent + b.notifications_sent;
}

abbrev pub skip_pending : ℕ → Tally → Tally
skip_pending n s = record s {
  skipped_prs = s.skipped_prs ++ n ∷ [];
  skipped_pending_prs = s.skipped_pending_prs + 1;
}

abbrev pub skip_dedup : ℕ → Metrics → Tally → Tally
skip_dedup n more s = record s {
  skipped_prs = s.skipped_prs ++ n ∷ [];
  skipped_dedup_prs = s.skipped_dedup_prs + 1;
  metrics = add s.metrics more;
}

abbrev pub mark_ready : ℕ → Metrics → Tally → Tally
mark_ready n more s = record s { ready_prs = s.ready_prs ++ n ∷ []; metrics = add s.metrics more }

abbrev pub mark_failing : ℕ → Metrics → Tally → Tally
mark_failing n more s = record s {
  failing_prs = s.failing_prs ++ n ∷ [];
  metrics = add s.metrics more;
}

pub data Action : Type 0 where
  completed no_prs gh_unavailable list_failed : Action

pub record RunResult : Type 0 where
  pub action : Action
  pub prs_checked : ℕ
  pub tally : Tally

module _ (m : PrMonitorRunner) where
  -- What is done with an audit that is found.
  unfoldable pub present_unless_decided : ℕ → String → String → Fields → Io Metrics
  present_unless_decided n title id audit t =
      (if is_running (m.session_state t (append "pr-review-" (show_ℕ n)))
          then pure no_metrics
          else present_audit_results m n title id audit)
        t

  abbrev if_older : Fields → ℕ → String → Option Fields → Io Metrics
  if_older pr n title none = pure no_metrics
  if_older pr n title (some stale) = dispatch_review m pr n title true

  abbrev use_audit :
      Fields → ℕ → String → String → (updated_at : Option String) → Option Fields → Io Metrics
  use_audit pr n title id updated_at (some audit) = present_unless_decided n title id audit
  use_audit pr n title id none none = pure no_metrics
  use_audit pr n title id (some iso) none =
      get_audit_result m id n none >>= λ maybe_stale. if_older pr n title maybe_stale

  unfoldable pub updated_at_of : Fields → Option String
  updated_at_of pr =
      let text = strip (str_of (get pr "updatedAt" or str "")) in
      if nonempty text then some text else none

  unfoldable pub with_state : Fields → ℕ → String → String → Option Value → Io Metrics
  with_state pr n title id none = dispatch_review m pr n title false
  with_state pr n title id (some state) = get_audit_result m id n (updated_at_of pr) >>= λ audit.
      use_audit pr n title id (updated_at_of pr) audit

  abbrev with_id : Fields → ℕ → String → Option String → Io Metrics
  with_id pr n title none = pure no_metrics
  with_id pr n title (some id) =
      if nonempty id
      then (get_audit_dispatch_state m id n >>= λ state. with_state pr n title id state)
      else pure no_metrics

  unfoldable pub check_and_present_audit_results : Fields → ℕ → String → Io Metrics
  check_and_present_audit_results pr n title =
      try_except (extract_work_item_id m pr >>= λ id. with_id pr n title id) (pure no_metrics)

  module _ (o : Options) where
    -- A pull request whose checks all pass.
    unfoldable pub use_ready : Fields → ℕ → (title url : String) → Tally → (seen : Bool) → Io Tally
    use_ready pr n title url s true =
        (if o.auto_review then check_and_present_audit_results pr n title else pure no_metrics)
        >>= λ more. pure (skip_dedup n more s)
    use_ready pr n title url s false = handle_ready_pr m n title url >>= λ told.
        (if o.auto_review then dispatch_review m pr n title false else pure no_metrics) >>= λ more.
        pure (mark_ready n (add told more) s)

    unfoldable pub use_status :
        Fields → ℕ → (title url : String) → Tally → Option CheckStatus → Io Tally
    use_status pr n title url s none =
        pure (record s { checks_unavailable_prs = s.checks_unavailable_prs + 1 })
    use_status pr n title url s (some status) =
        if not (is_empty status.pending) && is_empty status.failing
        then pure (skip_pending n s)
        else if all_passing status
        then ((if o.dedup then has_existing_comment m n ready_comment_marker else pure false)
            >>= λ seen. use_ready pr n title url s seen)
        else if not (is_empty status.failing)
        then (handle_failing_pr m n title url status.failing >>= λ more.
            pure (mark_failing n more s))
        else pure s

    unfoldable pub use_number : Fields → ℕ → Tally → Io Tally
    use_number pr n s = get_check_status m n >>= λ status.
        use_status pr n (str_of (get_default pr "title" (str (append "PR #" (show_ℕ n)))))
          (str_of (get_default pr "url" (str ""))) s status

    abbrev pub if_numbered : Fields → Tally → Value → Io Tally
    if_numbered pr s null = pure s
    if_numbered pr s v = lift (m.to_int v) >>= λ n. use_number pr n s

    -- The body of the loop, and the loop.
    unfoldable pub use_pr : Value → Tally → Io Tally
    use_pr v s = lift (as_dict v) >>= λ pr. if_numbered pr s (get pr "number")

    unfoldable pub use_prs : List Value → Tally → Io Tally
    use_prs [] s = pure s
    use_prs (v ∷ vs) s = use_pr v s >>= λ s'. use_prs vs s'

    abbrev finished : Action → RunResult
    finished action = record { action = action; prs_checked = 0; tally = empty_tally }

    unfoldable pub use_list : Option (List Value) → Io RunResult
    use_list none = pure (finished list_failed)
    use_list (some []) = pure (finished no_prs)
    use_list (some (v ∷ vs)) = use_prs (v ∷ vs) empty_tally >>= λ s.
        try_send m
          (concat ("PR Monitor Summary — checked " ∷ show_ℕ (length (v ∷ vs)) ∷ " PR(s)" ∷ []))
          "command"
        >>= λ sent. pure (record {
          action = completed;
          prs_checked = length (v ∷ vs);
          tally = record s { metrics = add s.metrics (sent_if sent) };
        })

    unfoldable pub run_with : Io RunResult
    run_with = gh_available m >>= λ available.
        if available
        then (list_open_prs m o.max_prs >>= λ prs. use_list prs)
        else pure (finished gh_unavailable)

  unfoldable pub run : Fields → Io RunResult
  run metadata = lift (read_options m metadata) >>= λ o. run_with o
