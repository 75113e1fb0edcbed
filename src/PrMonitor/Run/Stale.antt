-- ===== src/PrMonitor/Run/Stale.antt =====
-- How often `_check_and_present_audit_results` of src/ampa/pr_monitor.py dispatches an outdated audit
-- again.
use ampa.Prelude.{
  ℕ, suc, String, Bool, true, false, [], ◌∷◌, ◌++◌, Option, none, some, Result, ok, raise, ◌≡◌,
  refl, ◌∙◌, sym, ap, arith, if◌then◌else◌, count, count-append, nonempty,
}
use ampa.Value.{Value, Fields, null, bool, int, number, str, list, dict, get}
use ampa.Shell.{Completed, ShellCommand, wl_show, pr_view_body}
use ampa.Engine.Records.{Event, dispatched, ran, DispatchResult}
use ampa.Engine.World.{Trace, Io, ◌>>=◌, pure, lift, continue, recover, try_except}
use ampa.Engine.World.Silent.{
  Silent, Silent-pure, Silent-lift, Silent-if, Silent-try, Silent-bind, Silent-call,
}
use ampa.PrMonitor.{
  PrMonitorRunner, shell, try_shell, extract_work_item_id, id_in_body, or_body, body_in, output,
}
use ampa.PrMonitor.Comments.{get_audit_dispatch_state, get_audit_result}
use ampa.PrMonitor.Actions.{Metrics, no_metrics}
use ampa.PrMonitor.Reviews.{
  post_audit_dispatch_marker, after_dispatch, dispatch_audit, dispatch_item, dispatch_review,
  review_command,
}
use ampa.PrMonitor.Run.{updated_at_of, with_state, check_and_present_audit_results}
use ampa.PrMonitor.Decision.Merged.{try_shell-Silent}

abbrev pub is_dispatch : Event → Bool
is_dispatch (dispatched command id) = true
is_dispatch _ = false

module _ (m : PrMonitorRunner) where
  read-Silent :
      {A : Type 0} (c : ShellCommand) (read : Completed → Result A) (d : A)
      → Silent is_dispatch (try_except (shell m c >>= λ proc. lift (read proc)) (pure d))
  read-Silent c read d =
      Silent-try _ _
        (Silent-bind (shell m c) _
          (Silent-call (λ t. m.run_shell t c) (λ t. ran c (m.run_shell t c)) (λ t. refl))
          (λ proc. Silent-lift (read proc)))
        (Silent-pure d)

  state-Silent : (id : String) (n : ℕ) → Silent is_dispatch (get_audit_dispatch_state m id n)
  unfolding get_audit_dispatch_state
  state-Silent id n = read-Silent (wl_show id) _ none

  result-Silent :
      (id : String) (n : ℕ) (after_iso : Option String)
      → Silent is_dispatch (get_audit_result m id n after_iso)
  unfolding get_audit_result
  result-Silent id n after_iso = read-Silent (wl_show id) _ none

  number-Silent :
      (v : Value)
      → Silent is_dispatch (
          try_except
            (lift (m.to_int v) >>= λ n.
              shell m (pr_view_body n) >>= λ proc. lift (body_in m (output m proc)))
            (pure none))
  number-Silent v =
      Silent-try _ _
        (Silent-bind (lift (m.to_int v)) _ (Silent-lift _) (λ n.
          Silent-bind (shell m (pr_view_body n)) _
            (Silent-call (λ t. m.run_shell t (pr_view_body n))
              (λ t. ran (pr_view_body n) (m.run_shell t (pr_view_body n))) (λ t. refl))
            (λ proc. Silent-lift _)))
        (Silent-pure none)

  body-Silent : (v : Value) → Silent is_dispatch (id_in_body m v)
  body-Silent null = Silent-pure none
  body-Silent (bool b) = number-Silent (bool b)
  body-Silent (int n) = number-Silent (int n)
  body-Silent (number t) = number-Silent (number t)
  body-Silent (str t) = number-Silent (str t)
  body-Silent (list vs) = number-Silent (list vs)
  body-Silent (dict fs) = number-Silent (dict fs)

  extract-Silent : (pr : Fields) → Silent is_dispatch (extract_work_item_id m pr)
  unfolding extract_work_item_id
  extract-Silent pr = Silent-bind _ _ (Silent-lift _) (λ o. go o)
    where
      go : (o : Option String) → Silent is_dispatch (or_body m pr o)
      go none = body-Silent (get pr "number")
      go (some id) = Silent-pure (some id)

  after_dispatch-Silent :
      (id : String) (n : ℕ) (o : Option DispatchResult)
      → Silent is_dispatch (after_dispatch m id n o)
  unfolding after_dispatch post_audit_dispatch_marker
  after_dispatch-Silent id n none = Silent-pure _
  after_dispatch-Silent id n (some d) =
      Silent-if d.success _ _
        (Silent-bind (post_audit_dispatch_marker m id n d) _
          (try_shell-Silent m is_dispatch _ (λ a. refl)) (λ posted. Silent-pure _))
        (Silent-bind (try_shell m _) _ (try_shell-Silent m is_dispatch _ (λ a. refl))
          (λ posted. Silent-pure _))

  abbrev given : Result DispatchResult → Option DispatchResult
  given (ok d) = some d
  given (raise e) = none

  tried :
      (r : Result DispatchResult) (t : Trace)
      → (let (o, t') = continue r (λ d. pure (some d)) t in recover o (pure none) t')
        ≡ (ok (given r), t)
  tried (ok d) t = refl
  tried (raise e) t = refl

  dispatch_audit-count :
      (id : String) (n : ℕ) (title : String) (t : Trace)
      → count is_dispatch (dispatch_audit m id n title t).1 ≡ suc (count is_dispatch t)
  unfolding dispatch_audit
  dispatch_audit-count id n title t =
      let command = review_command m id n title in
      rw (tried (m.services.dispatch t command id) (t ++ dispatched command id ∷ [])) (
        (after_dispatch-Silent id n (given (m.services.dispatch t command id))).at _
        ∙ count-append is_dispatch t (dispatched command id ∷ [])
        ∙ omega arith)

  if_true : {A : Type 0} (b : Bool) (x y : A) → b ≡ true → (if b then x else y) ≡ x
  if_true true x y h = refl
  if_true false x y h = absurd (cc)

  dispatch_review_able :
      (pr : Fields) (n : ℕ) (title : String) (force : Bool)
      → m.has_dispatcher ≡ true
      → dispatch_review m pr n title force
        ≡ (extract_work_item_id m pr >>= λ id. dispatch_item m force n title id)
  unfolding dispatch_review
  dispatch_review_able pr n title force able = if_true m.has_dispatcher _ _ able

  kept : (r : Result Metrics) (t : Trace) → (recover r (pure no_metrics) t).1 ≡ t
  kept (ok x) t = refl
  kept (raise e) t = refl

  after_step :
      {A : Type 0} {f : Io A} {o : Result A} (t : Trace) {t' : Trace}
      → f t ≡ (o, t')
      → Silent is_dispatch f
      → count is_dispatch t' ≡ count is_dispatch t
  after_step t run silent = sym (ap (λ r. count is_dispatch r.1) run) ∙ silent.at t

  -- Where there is a dispatcher and the work item of a pull request is found, an audit that is older
  -- than the last change of the pull request is dispatched again, once, by every cycle that finds it
  -- and no later one, whatever marker an earlier dispatch has left.
  pub check_and_present_audit_results_again :
      (pr : Fields) (n : ℕ) (title id iso : String) (state : Value) (old : Fields)
      (t t₁ t₂ t₃ t₄ t₅ : Trace)
      → m.has_dispatcher ≡ true
      → nonempty id ≡ true
      → updated_at_of m pr ≡ some iso
      → extract_work_item_id m pr t ≡ (ok (some id), t₁)
      → get_audit_dispatch_state m id n t₁ ≡ (ok (some state), t₂)
      → get_audit_result m id n (some iso) t₂ ≡ (ok none, t₃)
      → get_audit_result m id n none t₃ ≡ (ok (some old), t₄)
      → extract_work_item_id m pr t₄ ≡ (ok (some id), t₅)
      → count is_dispatch (check_and_present_audit_results m pr n title t).1
        ≡ suc (count is_dispatch t)
  unfolding check_and_present_audit_results with_state dispatch_item
  check_and_present_audit_results_again pr n title id iso state old t t₁ t₂ t₃ t₄ t₅ able named
        changed e₁ e₂ e₃ e₄ e₅ =
      let same : count is_dispatch t₅ ≡ count is_dispatch t =
        after_step t₄ e₅ (extract-Silent pr)
        ∙ after_step t₃ e₄ (result-Silent id n none)
        ∙ after_step t₂ e₃ (result-Silent id n (some iso))
        ∙ after_step t₁ e₂ (state-Silent id n)
        ∙ after_step t e₁ (extract-Silent pr) in
      rw e₁ (
        rw named (
          rw e₂ (
            rw changed (
              rw e₃ (
                rw e₄ (
                  rw (dispatch_review_able pr n title true able) (
                    rw e₅ (
                      rw named (
                        ap (count is_dispatch) (
                          kept (dispatch_audit m id n title t₅).0
                            (dispatch_audit m id n title t₅).1)
                        ∙ dispatch_audit-count id n title t₅
                        ∙ ap suc same)))))))))
