-- ===== src/Engine/Core/Delegation/Quiet.antt =====
-- What the steps of `process_delegation` before its launch call.
use ampa.Prelude.{
  ℕ, ◌+◌, ◌≤◌, String, Bool, true, false, Option, none, some, Result, ok, raise, ◌≡◌, refl, ap,
  arith, count, is_empty,
}
use ampa.Value.{Fields, dict, get_default}
use ampa.Engine.Descriptor.{StateTuple, Command, resolve_state_ref}
use ampa.Engine.Records.{
  Event, item_fetched, updated, commented, notified, dispatched, InvariantResult, CandidateResult,
  WorkItemCandidate, agents_idle, delegation_blocked, Message,
}
use ampa.Engine.World.{Trace, call_send}
use ampa.Engine.World.Silent.{
  Silent, Silent-pure, Silent-lift, Silent-if, Silent-try, Silent-call, Silent-bind,
}
use ampa.Engine.Candidates.{select}
use ampa.Engine.Candidates.Select.{select-Silent}
use ampa.Engine.Evaluator.Calls.{evaluate-Silent}
use ampa.Engine.Core.Flow.{
  EngineStatus, success, dispatch_failed, EngineResult, Engine, Flow, next, exit, Step, ◌▹◌, resume,
  flow_value,
}
use ampa.Engine.Core.Delegation.{
  Picked, pre_checks, use_selection, use_fetched, picked_from, pick, delegate_command,
  confirm_from_state, pre_failed, evaluate_pre, check_pre, assignee_of, update_twice,
  apply_transition, find_template, with_action,
}

abbrev pub is_dispatch : Event → Bool
is_dispatch (dispatched command id) = true
is_dispatch _ = false

-- The statuses that tell of a dispatch, as a number of dispatches.
abbrev pub dispatches_of : EngineStatus → ℕ
dispatches_of success = 1
dispatches_of dispatch_failed = 1
dispatches_of _ = 0

-- No dispatch, also where the code returns early.
pub record Quiet {A : Type 0} (m : Step A) : Type 0 where
  pub silent : Silent is_dispatch m
  pub exits : (t : Trace) (e : EngineResult) → (m t).0 ≡ ok (exit e) → dispatches_of e.status ≡ 0

-- The status of the result tells how often it dispatched, which is at most once.
pub record Fair (m : Step EngineResult) : Type 0 where
  pub tells :
      (t : Trace) (f : Flow EngineResult)
      → (m t).0 ≡ ok f
      → count is_dispatch (m t).1 ≡ count is_dispatch t + dispatches_of (flow_value f).status
  pub at_most_once : (t : Trace) → count is_dispatch (m t).1 ≤ count is_dispatch t + 1

module _ {A : Type 0} (f : A → Step EngineResult) (ff : (a : A) → Fair (f a)) where
  resume-tells :
      (r : Result (Flow A)) (t : Trace) (g : Flow EngineResult)
      → ((e : EngineResult) → r ≡ ok (exit e) → dispatches_of e.status ≡ 0)
      → (resume r f t).0 ≡ ok g
      → count is_dispatch (resume r f t).1
        ≡ count is_dispatch t + dispatches_of (flow_value g).status
  resume-tells (ok (next a)) t g h e = (ff a).tells t g e
  resume-tells (ok (exit x)) t g h e =
      let same : flow_value (exit x) ≡ flow_value g = ap flow_value {x = exit x} {y = g} (cc) in
      omega (arith, h x refl, ap (λ (y : EngineResult). dispatches_of y.status) same)
  resume-tells (raise x) t g h e = absurd (cc)

  resume-once :
      (r : Result (Flow A)) (t : Trace)
      → count is_dispatch (resume r f t).1 ≤ count is_dispatch t + 1
  resume-once (ok (next a)) t = (ff a).at_most_once t
  resume-once (ok (exit x)) t = omega arith
  resume-once (raise x) t = omega arith

  pub Fair-▹ : (m : Step A) → Quiet m → Fair (m ▹ f)
  Fair-▹ m q = record {
    tells = λ t g e.
        let (r, t') = m t in omega (arith, resume-tells r t' g (λ x. q.exits t x) e, q.silent.at t);
    at_most_once = λ t. let (r, t') = m t in omega (arith, resume-once r t', q.silent.at t);
  }

module _ (self : Engine) (ts : ℕ) (quiet : Silent is_dispatch self.evaluator.querier) where
  pub pre_checks-Quiet : Quiet (pre_checks self ts)
  unfolding pre_checks
  pre_checks-Quiet = record {
    silent = record { at = λ t. ground arith };
    exits = λ t e h. ground arith;
  }

  pub send-Silent :
      (m : Message) (title level : String)
      → Silent is_dispatch (call_send self.services m title level)
  send-Silent m title level =
      Silent-call (λ t. self.services.send t m) (λ t. notified m title level) (λ t. refl)

  use_selection-Silent :
      (result : CandidateResult) (o : Option WorkItemCandidate)
      → Silent is_dispatch (use_selection self ts result o)
  unfolding use_selection
  use_selection-Silent result none =
      Silent-bind _ _ (send-Silent agents_idle "No Candidates" "info") (λ _. Silent-pure _)
  use_selection-Silent result (some c) = Silent-pure _

  use_fetched-Silent :
      (id : String) (o : Option Fields) → Silent is_dispatch (use_fetched self ts id o)
  unfolding use_fetched
  use_fetched-Silent id none = Silent-pure _
  use_fetched-Silent id (some fs) =
      Silent-bind _ _ (Silent-lift (picked_from self ts id (get_default fs "workItem" (dict fs))))
        (λ p. Silent-pure _)

  pre_failed-Silent :
      (p : Picked) (inv : InvariantResult) → Silent is_dispatch (pre_failed self ts p inv)
  unfolding pre_failed
  pre_failed-Silent p inv =
      Silent-bind _ _
        (Silent-call (λ t. self.services.write_comment t p.id (delegation_blocked p.id inv))
          (λ t. commented p.id (delegation_blocked p.id inv)) (λ t. refl))
        (λ _.
          Silent-bind _ _
            (send-Silent (delegation_blocked p.id inv) "Pre-Invariant Failure" "warning")
            (λ _. Silent-pure _))

  evaluate_pre-Silent :
      (p : Picked) (cmd : Command) (found : Option Fields)
      → Silent is_dispatch (evaluate_pre self ts p cmd found)
  unfolding evaluate_pre
  evaluate_pre-Silent p cmd none = Silent-pure _
  evaluate_pre-Silent p cmd (some fs) =
      Silent-bind _ _ (evaluate-Silent self.evaluator quiet false cmd.pre fs)
        (λ inv. Silent-if inv.passed _ _ (Silent-pure _) (pre_failed-Silent p inv))

  pub pick-Quiet : (id : Option String) → Quiet (pick self ts id)
  unfolding pick use_selection use_fetched
  pick-Quiet none = record {
    silent =
        Silent-bind (select self.services self.selector) _
          (select-Silent self.services self.selector refl refl)
          (λ result. use_selection-Silent result result.selected);
    exits = λ t e h. ground arith;
  }
  pick-Quiet (some id) = record {
    silent =
        Silent-bind _ _
          (Silent-call (λ t. self.services.fetch t id) (λ t. item_fetched id) (λ t. refl))
          (λ found. use_fetched-Silent id found);
    exits = λ t e h. ground arith;
  }

  pub delegate_command-Quiet : (id : String) → Quiet (delegate_command self ts id)
  unfolding delegate_command
  delegate_command-Quiet id = record {
    silent = record { at = λ t. ground arith };
    exits = λ t e h. ground arith;
  }

  pub confirm-Quiet : (p : Picked) (cmd : Command) → Quiet (confirm_from_state self ts p cmd)
  unfolding confirm_from_state
  confirm-Quiet p cmd = record {
    silent = record { at = λ t. ground arith };
    exits = λ t e h. ground arith;
  }

  pub check_pre-Quiet : (p : Picked) (cmd : Command) → Quiet (check_pre self ts p cmd)
  unfolding check_pre evaluate_pre pre_failed
  check_pre-Quiet p cmd = record {
    silent = Silent-if (is_empty cmd.pre) _ _ (Silent-pure _) (
        Silent-bind _ _
          (Silent-try _ _
            (Silent-call (λ t. self.services.fetch t p.id) (λ t. item_fetched p.id) (λ t. refl))
            (Silent-pure _))
          (λ found. evaluate_pre-Silent p cmd found));
    exits = λ t e h. ground arith;
  }

  update_twice-Silent :
      (id : String) (to : StateTuple) (a : Option String)
      → Silent is_dispatch (update_twice self ts id to a)
  unfolding update_twice
  update_twice-Silent id to a =
      Silent-bind _ _
        (Silent-call (λ t. self.services.update t id to.status to.stage a)
          (λ t. updated id to.status to.stage a (self.services.update t id to.status to.stage a))
          (λ t. refl))
        (λ b. Silent-if b _ _ (Silent-pure _) (
          Silent-call (λ t. self.services.update t id to.status to.stage a)
            (λ t. updated id to.status to.stage a (self.services.update t id to.status to.stage a))
            (λ t. refl)))

  pub apply-Quiet : (p : Picked) (cmd : Command) → Quiet (apply_transition self ts p cmd)
  unfolding apply_transition
  apply-Quiet p cmd = record {
    silent = Silent-bind _ _ (Silent-lift (resolve_state_ref self.descriptor cmd.to)) (λ to.
        Silent-bind _ _ (update_twice-Silent p.id to (assignee_of self ts cmd.effects))
          (λ b. Silent-if b _ _ (Silent-pure _) (Silent-pure _)));
    exits = λ t e h. ground arith;
  }

  pub template-Quiet : (p : Picked) (cmd : Command) → Quiet (find_template self ts p cmd)
  unfolding find_template with_action
  template-Quiet p cmd = record {
    silent = record { at = λ t. ground arith };
    exits = λ t e h. ground arith;
  }
