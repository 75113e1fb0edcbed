-- ===== src/PrMonitor/Decision/Merged.antt =====
-- `handle_review_decision` of src/ampa/pr_monitor.py: its outcome, and what it closes and deletes.
use ampa.Prelude.{
  ℕ, String, Bool, true, false, [], ◌∷◌, ◌++◌, Option, none, some, Result, ok, raise, ◌≡◌, ◌≢◌,
  refl, ◌∙◌, ap, arith, if◌then◌else◌, count, count-append, Bool-cases, inl, inr,
}
use ampa.Shell.{Completed, ShellCommand, pr_merge, pr_comment, push_delete, wl_close}
use ampa.Engine.Records.{Event, ran, notified, plain_text}
use ampa.Engine.World.{Trace, Io, continue, ◌>>=◌, ◌>>◌, pure, recover, call_send}
use ampa.Engine.World.Silent.{Silent, Silent-pure, Silent-if, Silent-try, Silent-bind, Silent-call}
use ampa.Engine.World.Gives.{Total, Total-pure, Total-recover}
use ampa.PrMonitor.{PrMonitorRunner, succeeded, shell, try_shell}
use ampa.PrMonitor.Actions.{send_notification, try_send, post_gh_comment}
use ampa.PrMonitor.Decision.{
  Outcome, merged, rejected, error, given, is_approval, merge_pr, close_work_item, cleanup_branch,
  get_pr_branch, add_wl_comment, notify_review_outcome, if_given, after_merge, handle_approve,
  handle_reject, handle_review_decision,
}

-- The calls that cannot be taken back: an item is closed, or a branch deleted.
abbrev pub is_closing : Event → Bool
is_closing (ran (wl_close id reason) answer) = true
is_closing (ran (push_delete branch) answer) = true
is_closing _ = false

abbrev pub done : Result Completed → Bool
done (ok proc) = succeeded proc
done (raise e) = false

-- An action that always returns the value.
record Always {A : Type 0} (a : A) (m : Io A) : Type 0 where
  at : (t : Trace) → (m t).0 ≡ ok a

Always-pure : {A : Type 0} (a : A) → Always a (pure a)
Always-pure a = record { at = λ t. refl }

Always-bind :
    {A B : Type 0} (m : Io A) (f : A → Io B) (b : B)
    → Total m
    → ((a : A) → Always b (f a))
    → Always b (m >>= f)
Always-bind m f b total always = record {
  at = λ t.
      let (a, e, _) = total.at t in ap (λ o. (continue o f (m t).1).0) e ∙ (always a).at (m t).1;
}

module _ (m : PrMonitorRunner) where
  recovered :
      (answer : Result Completed) (t : Trace)
      → (let (r, t') = continue answer (λ proc. pure (succeeded proc)) t in
          recover r (pure false) t')
        ≡ (ok (done answer), t)
  recovered (ok proc) t = refl
  recovered (raise e) t = refl

  -- A command that is only tried: its success, and its place in the trace.
  pub try_shell_lem :
      (c : ShellCommand) (t : Trace)
      → try_shell m c t ≡ (ok (done (m.run_shell t c)), t ++ ran c (m.run_shell t c) ∷ [])
  unfolding try_shell
  try_shell_lem c t = recovered (m.run_shell t c) (t ++ ran c (m.run_shell t c) ∷ [])

  module _ (p : Event → Bool) where
    pub try_shell-Silent :
        (c : ShellCommand)
        → ((answer : Result Completed) → p (ran c answer) ≡ false)
        → Silent p (try_shell m c)
    unfolding try_shell
    try_shell-Silent c h =
        Silent-try _ _
          (Silent-bind (shell m c) _
            (Silent-call (λ t. m.run_shell t c) (λ t. ran c (m.run_shell t c)) (λ t. h _))
            (λ proc. Silent-pure _))
          (Silent-pure _)

    pub try_send-Silent :
        (content kind : String)
        → p (notified (plain_text content) "" kind) ≡ false
        → Silent p (try_send m content kind)
    unfolding try_send send_notification
    try_send-Silent content kind h =
        Silent-try _ _
          (Silent-if m.has_notifier _ _
            (Silent-bind (call_send m.services (plain_text content) "" kind) _
              (Silent-call (λ t. m.services.send t (plain_text content))
                (λ t. notified (plain_text content) "" kind) (λ t. h))
              (λ sent. Silent-pure _))
            (Silent-pure _))
          (Silent-pure _)

  notify-Silent : (n : ℕ) (title : String) → Silent is_closing (notify_review_outcome m n title)
  unfolding notify_review_outcome
  notify-Silent n title = try_send-Silent is_closing _ "command" refl

  comment-Silent :
      (id : Option String) (text : String → String)
      → Silent is_closing (if_given m id (λ i. add_wl_comment m i (text i)))
  unfolding add_wl_comment
  comment-Silent none text = Silent-pure _
  comment-Silent (some i) text = try_shell-Silent is_closing _ (λ a. refl)

  reject-Silent :
      (n : ℕ) (id : Option String) (by : String) → Silent is_closing (handle_reject m n id by)
  unfolding handle_reject post_gh_comment
  reject-Silent n id by =
      Silent-bind _ _ (try_shell-Silent is_closing (pr_comment n _) (λ a. refl)) (λ posted.
        Silent-bind _ _ (comment-Silent (given id) _)
          (λ noted. Silent-bind _ _ (notify-Silent n _) (λ told. Silent-pure _)))

  try_shell-Total : (c : ShellCommand) → Total (try_shell m c)
  unfolding try_shell
  try_shell-Total c = Total-recover (shell m c >>= λ proc. pure (succeeded proc)) false

  notify-Total : (n : ℕ) (title : String) → Total (notify_review_outcome m n title)
  unfolding notify_review_outcome try_send
  notify-Total n title = Total-recover _ false

  if_given-Total :
      (id : Option String) (f : String → Io Bool)
      → ((i : String) → Total (f i))
      → Total (if_given m id f)
  if_given-Total none f total = Total-pure false
  if_given-Total (some i) f total = total i

  comment-Total :
      (id : Option String) (text : String → String)
      → Total (if_given m id (λ i. add_wl_comment m i (text i)))
  unfolding add_wl_comment
  comment-Total id text = if_given-Total id _ (λ i. try_shell-Total _)

  after_merge-Always :
      (n : ℕ) (id : Option String) (by : String) → Always merged (after_merge m n id by)
  unfolding after_merge close_work_item cleanup_branch get_pr_branch
  after_merge-Always n id by =
      Always-bind (if_given m (given id) _) _ merged
        (if_given-Total (given id) _ (λ i. try_shell-Total _))
        (λ closed. Always-bind (get_pr_branch m n) _ merged (Total-recover _ none) (λ branch.
          Always-bind (if_given m branch (cleanup_branch m)) _ merged
            (if_given-Total branch _ (λ b. try_shell-Total _))
            (λ deleted.
              Always-bind (if_given m (given id) _) _ merged (comment-Total (given id) _) (λ noted.
                Always-bind (notify_review_outcome m n _) _ merged (notify-Total n _)
                  (λ told. Always-pure merged)))))

  reject-Always :
      (n : ℕ) (id : Option String) (by : String) → Always rejected (handle_reject m n id by)
  unfolding handle_reject post_gh_comment
  reject-Always n id by =
      Always-bind (post_gh_comment m n _) _ rejected (try_shell-Total _) (λ posted.
        Always-bind (if_given m (given id) _) _ rejected (comment-Total (given id) _) (λ noted.
          Always-bind (notify_review_outcome m n _) _ rejected (notify-Total n _)
            (λ told. Always-pure rejected)))

  abbrev outcome_of : (approved : Bool) → (merge : Bool) → Outcome
  outcome_of false merge = rejected
  outcome_of true true = merged
  outcome_of true false = error

  approve_lem :
      (n : ℕ) (id : Option String) (by : String) (t : Trace)
      → (handle_approve m n id by t).0 ≡ ok (outcome_of true (done (m.run_shell t (pr_merge n))))
  unfolding handle_approve merge_pr
  approve_lem n id by t =
      rw (try_shell_lem (pr_merge n) t) (go (done (m.run_shell t (pr_merge n))) _)
    where
      go :
          (b : Bool) (t' : Trace)
          → ((if b
                then after_merge m n id by
                else (notify_review_outcome m n "Merge Failed" >> pure error))
              t').0
            ≡ ok (outcome_of true b)
      go true t' = (after_merge-Always n id by).at t'
      go false t' =
          (Always-bind (notify_review_outcome m n "Merge Failed") (λ told. pure error) error
              (notify-Total n "Merge Failed") (λ told. Always-pure error)).at
            t'

  -- Every decision returns. The action is an approval if it is `accept` or `approve`, in any case and
  -- with blanks around it: then the outcome is "merged" if the merge command succeeds, and "error" if
  -- it fails or raises. Any other action gives "rejected".
  pub handle_review_decision_lem :
      (action : String) (n : ℕ) (id : Option String) (by : String) (t : Trace)
      → (handle_review_decision m action n id by t).0
        ≡ ok (outcome_of (is_approval action) (done (m.run_shell t (pr_merge n))))
  unfolding handle_review_decision
  handle_review_decision_lem action n id by t = elim (Bool-cases (is_approval action)) [
    | inl yes_ ↦ rw yes_ (approve_lem n id by t)
    | inr no_ ↦ rw no_ ((reject-Always n id by).at t)
  ]

  unmerged-Silent :
      (n : ℕ) (id : Option String) (by : String) (t : Trace)
      → done (m.run_shell t (pr_merge n)) ≡ false
      → count is_closing (handle_approve m n id by t).1 ≡ count is_closing t
  unfolding handle_approve merge_pr
  unmerged-Silent n id by t failed = rw (try_shell_lem (pr_merge n) t) (
      rw failed (
        (Silent-bind (notify_review_outcome m n "Merge Failed") (λ told. pure error)
            (notify-Silent n _) (λ told. Silent-pure error)).at
          _
        ∙ count-append is_closing t _
        ∙ ground arith))

  -- A decision that does not end with "merged" closes no work item and deletes no branch.
  pub handle_review_decision-closing :
      (action : String) (n : ℕ) (id : Option String) (by : String) (t : Trace)
      → (handle_review_decision m action n id by t).0 ≢ ok merged
      → count is_closing (handle_review_decision m action n id by t).1 ≡ count is_closing t
  unfolding handle_review_decision
  handle_review_decision-closing action n id by t e = elim (Bool-cases (is_approval action)) [
    | inr no_ ↦ rw no_ ((reject-Silent n id by).at t)
    | inl yes_ ↦ elim (Bool-cases (done (m.run_shell t (pr_merge n)))) [
      | inl done_ ↦ absurd (e (handle_review_decision_lem action n id by t ∙ rw (yes_, done_) refl))
      | inr failed ↦ rw yes_ (unmerged-Silent n id by t failed)
    ]
  ]
