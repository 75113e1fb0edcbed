-- ===== src/Engine/Core/Delegation/Exits.antt =====
-- The early returns of `process_delegation`, and the steps behind them.
use ampa.Prelude.{ℕ, String, Option, none, some, Result, ok, raise, ◌≡◌, ◌≢◌, arith}
use ampa.Engine.Descriptor.{Command}
use ampa.Engine.Records.{InvariantResult}
use ampa.Engine.World.{Trace}
use ampa.Engine.Core.Flow.{success, EngineResult, Engine, Flow, next, exit, Step, ◌▹◌, resume}
use ampa.Engine.Core.Delegation.{
  Picked, pre_checks, use_selection, use_fetched, pick, delegate_command, confirm_from_state,
  pre_failed, evaluate_pre, check_pre, apply_transition, find_template, with_action, launch,
  record_success, report_failure, finish, delegation_body,
}

-- A stretch of code that returns early never reports success.
abbrev pub ExitsFailing : {A : Type 0} → Step A → Type 0
ExitsFailing m = (t : Trace) (e : EngineResult) → (m t).0 ≡ ok (exit e) → e.status ≢ success

ExitsFailing-resume :
    {A B : Type 0} (r : Result (Flow A)) (f : A → Step B) (t : Trace) (e : EngineResult)
    → (r ≡ ok (exit e) → e.status ≢ success)
    → ((a : A) → ExitsFailing (f a))
    → (resume r f t).0 ≡ ok (exit e)
    → e.status ≢ success
ExitsFailing-resume (ok (next a)) f t e m k h = k a t e h
ExitsFailing-resume (ok (exit r)) f t e m k h = m (cc)
ExitsFailing-resume (raise x) f t e m k h = absurd (ground arith)

pub ExitsFailing-▹ :
    {A B : Type 0} (m : Step A) (f : A → Step B)
    → ExitsFailing m
    → ((a : A) → ExitsFailing (f a))
    → ExitsFailing (m ▹ f)
ExitsFailing-▹ m f em ef t e h = let (r, t') = m t in ExitsFailing-resume r f t' e (em t e) ef h

module _ (self : Engine) (ts : ℕ) where
  pre_checks-ExitsFailing : ExitsFailing (pre_checks self ts)
  unfolding pre_checks
  pre_checks-ExitsFailing t e h = ground arith

  pick-ExitsFailing : (id : Option String) → ExitsFailing (pick self ts id)
  unfolding pick use_selection use_fetched
  pick-ExitsFailing none t e h = ground arith
  pick-ExitsFailing (some id) t e h = ground arith

  delegate_command-ExitsFailing : (id : String) → ExitsFailing (delegate_command self ts id)
  unfolding delegate_command
  delegate_command-ExitsFailing id t e h = ground arith

  confirm-ExitsFailing :
      (p : Picked) (cmd : Command) → ExitsFailing (confirm_from_state self ts p cmd)
  unfolding confirm_from_state
  confirm-ExitsFailing p cmd t e h = ground arith

  check_pre-ExitsFailing : (p : Picked) (cmd : Command) → ExitsFailing (check_pre self ts p cmd)
  unfolding check_pre evaluate_pre pre_failed
  check_pre-ExitsFailing p cmd t e h = ground arith

  apply-ExitsFailing : (p : Picked) (cmd : Command) → ExitsFailing (apply_transition self ts p cmd)
  unfolding apply_transition
  apply-ExitsFailing p cmd t e h = ground arith

  template-ExitsFailing : (p : Picked) (cmd : Command) → ExitsFailing (find_template self ts p cmd)
  unfolding find_template with_action
  template-ExitsFailing p cmd t e h = ground arith

  launch-ExitsFailing :
      (p : Picked) (inv : Option InvariantResult) (hint : Option String) (found : String × String)
      → ExitsFailing (launch self ts p inv hint found)
  unfolding launch record_success report_failure
  launch-ExitsFailing p inv hint found t e h = ground arith

  finish-ExitsFailing :
      (p : Picked) (cmd : Command) (hint : Option String) (inv : Option InvariantResult)
      → ExitsFailing (finish self ts p cmd hint inv)
  unfolding finish
  finish-ExitsFailing p cmd hint inv =
      ExitsFailing-▹ _ _ (apply-ExitsFailing p cmd)
        (λ _. ExitsFailing-▹ _ _ (template-ExitsFailing p cmd) (launch-ExitsFailing p inv hint))

  pub body-ExitsFailing : (id hint : Option String) → ExitsFailing (delegation_body self ts id hint)
  unfolding delegation_body
  body-ExitsFailing id hint = ExitsFailing-▹ _ _ pre_checks-ExitsFailing (λ _.
      ExitsFailing-▹ _ _ (pick-ExitsFailing id) (λ p.
        ExitsFailing-▹ _ _ (delegate_command-ExitsFailing p.id) (λ cmd.
          ExitsFailing-▹ _ _ (confirm-ExitsFailing p cmd) (λ _.
            ExitsFailing-▹ _ _ (check_pre-ExitsFailing p cmd)
              (λ inv. finish-ExitsFailing p cmd hint inv)))))
