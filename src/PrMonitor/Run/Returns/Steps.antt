-- ===== src/PrMonitor/Run/Returns/Steps.antt =====
-- When the steps of a cycle of src/ampa/pr_monitor.py return.
use ampa.Prelude.{
  ℕ, String, Bool, true, false, not, List, Option, none, some, ◌≡◌, refl, all, nonempty,
}
use ampa.Value.{Value, Fields, null, bool, int, number, str, list, dict, get, get_default}
use ampa.Shell.{ShellCommand, pr_comment}
use ampa.Engine.Records.{DispatchResult}
use ampa.Engine.Expressions.{all_texts}
use ampa.Engine.World.{◌>>=◌, pure, lift}
use ampa.Engine.World.Gives.{
  Total, Total-pure, Gives-lift, Gives-if, Total-try, Total-recover, Total-bind,
}
use ampa.PrMonitor.{
  PrMonitorRunner, succeeded, shell, try_shell, extract_work_item_id, id_in_branch, or_body,
  id_in_body,
}
use ampa.PrMonitor.Comments.{get_audit_dispatch_state}
use ampa.PrMonitor.Actions.{
  no_metrics, post_gh_comment, post_wl_comment, try_send, handle_ready_pr,
  create_critical_work_item, track_failure, handle_failing_pr,
}
use ampa.PrMonitor.Reviews.{
  post_audit_dispatch_marker, after_dispatch, dispatch_audit, unless_dispatched, dispatch_item,
  dispatch_review,
}
use ampa.PrMonitor.Run.Returns.Documented.{is_text, all_texts-returns}

module _ (m : PrMonitorRunner) where
  pub try_shell-Total : (c : ShellCommand) → Total (try_shell m c)
  unfolding try_shell
  try_shell-Total c = Total-recover (shell m c >>= λ proc. pure (succeeded proc)) false

  pub try_send-Total : (content kind : String) → Total (try_send m content kind)
  unfolding try_send
  try_send-Total content kind = Total-recover _ false

  pub handle_ready_pr-Total : (n : ℕ) (title url : String) → Total (handle_ready_pr m n title url)
  unfolding handle_ready_pr post_gh_comment post_wl_comment
  handle_ready_pr-Total n title url = Total-bind _ _ (try_shell-Total (pr_comment n _)) (λ posted.
      Total-bind _ _ (Total-recover _ tt)
        (λ noted. Total-bind _ _ (try_send-Total _ _) (λ sent. Total-pure _)))

  create-Total : (title text : String) → Total (create_critical_work_item m title text)
  unfolding create_critical_work_item
  create-Total title text = Total-recover _ none

  pub handle_failing_pr-Total :
      (n : ℕ) (title url : String) (failing : List Value)
      → all is_text failing ≡ true
      → Total (handle_failing_pr m n title url failing)
  unfolding handle_failing_pr track_failure post_gh_comment
  handle_failing_pr-Total n title url failing h =
      let (names, e) = all_texts-returns failing h in
      Total-bind (lift (all_texts failing)) _ (Gives-lift _ _ names e refl) (λ names.
        Total-bind _ _ (Total-try _ _ (create-Total _ _)) (λ tracked.
          Total-bind _ _ (try_shell-Total (pr_comment n _))
            (λ posted. Total-bind _ _ (try_send-Total _ _) (λ sent. Total-pure _))))

  id_in_body-Total : (v : Value) → Total (id_in_body m v)
  id_in_body-Total null = Total-pure none
  id_in_body-Total (bool x) = Total-recover _ none
  id_in_body-Total (int x) = Total-recover _ none
  id_in_body-Total (number x) = Total-recover _ none
  id_in_body-Total (str x) = Total-recover _ none
  id_in_body-Total (list x) = Total-recover _ none
  id_in_body-Total (dict x) = Total-recover _ none

  or_body-Total : (pr : Fields) (o : Option String) → Total (or_body m pr o)
  or_body-Total pr none = id_in_body-Total (get pr "number")
  or_body-Total pr (some id) = Total-pure (some id)

  branch-Total : (v : Value) → is_text v ≡ true → Total (lift (id_in_branch m v))
  branch-Total (str branch) h = Gives-lift _ _ _ refl refl
  branch-Total null h = absurd (cc)
  branch-Total (bool x) h = absurd (cc)
  branch-Total (int x) h = absurd (cc)
  branch-Total (number x) h = absurd (cc)
  branch-Total (list x) h = absurd (cc)
  branch-Total (dict x) h = absurd (cc)

  after_dispatch-Total :
      (id : String) (n : ℕ) (o : Option DispatchResult) → Total (after_dispatch m id n o)
  unfolding after_dispatch post_audit_dispatch_marker
  after_dispatch-Total id n none = Total-pure no_metrics
  after_dispatch-Total id n (some d) =
      Gives-if _ d.success _ _ (Total-bind _ _ (try_shell-Total _) (λ posted. Total-pure _))
        (Total-bind _ _ (try_shell-Total _) (λ posted. Total-pure _))

  dispatch_audit-Total :
      (id : String) (n : ℕ) (title : String) → Total (dispatch_audit m id n title)
  unfolding dispatch_audit
  dispatch_audit-Total id n title =
      Total-bind _ _ (Total-recover _ none) (after_dispatch-Total id n)

  unless_dispatched-Total :
      (id : String) (n : ℕ) (title : String) (o : Option Value)
      → Total (unless_dispatched m id n title o)
  unless_dispatched-Total id n title none = dispatch_audit-Total id n title
  unless_dispatched-Total id n title (some state) = Total-pure no_metrics

  dispatch_item-Total :
      (force : Bool) (n : ℕ) (title : String) (o : Option String)
      → Total (dispatch_item m force n title o)
  unfolding dispatch_item get_audit_dispatch_state
  dispatch_item-Total force n title none = Total-pure no_metrics
  dispatch_item-Total force n title (some id) =
      Gives-if _ (not (nonempty id)) _ _ (Total-pure no_metrics) (
        Gives-if _ force _ _ (dispatch_audit-Total id n title)
          (Total-bind _ _ (Total-recover _ none) (unless_dispatched-Total id n title)))

  pub dispatch_review-Total :
      (pr : Fields) (n : ℕ) (title : String) (force : Bool)
      → is_text (get_default pr "headRefName" (str "")) ≡ true
      → Total (dispatch_review m pr n title force)
  unfolding dispatch_review extract_work_item_id
  dispatch_review-Total pr n title force h =
      Gives-if _ m.has_dispatcher _ _
        (Total-bind _ _ (Total-bind _ _ (branch-Total _ h) (or_body-Total pr))
          (dispatch_item-Total force n title))
        (Total-pure no_metrics)
