-- ===== src/Engine/Core/Delegation/Calls.antt =====
-- How often a delegation dispatches.
use ampa.Prelude.{
  ℕ, ◌+◌, ◌≤◌, String, [], ◌∷◌, ◌++◌, Option, Result, ok, raise, ◌≡◌, refl, ◌∙◌, ap, arith, count,
  count-append, if◌then◌else◌,
}
use ampa.Text.{format}
use ampa.Engine.Records.{
  dispatched, recorded, InvariantResult, DispatchResult, dispatch_failed_for, delegated_as,
}
use ampa.Engine.World.{Trace, continue, ◌>>=◌, pure, lift, call_dispatch, continue-eq-ok}
use ampa.Engine.World.Silent.{
  Silent, Silent-pure, Silent-if, Silent-call, Silent-continue, Silent-bind,
}
use ampa.Engine.Core.Flow.{EngineResult, Engine, Flow, Step, flow_value}
use ampa.Engine.Core.Delegation.Success.{value_calls}
use ampa.Engine.Core.Delegation.{
  Picked, dispatch_record, launch, record_success, report_failure, finish, delegation_body,
  process_delegation, or_empty,
}
use ampa.Engine.Core.Delegation.Quiet.{
  is_dispatch, dispatches_of, Fair, Fair-▹, apply-Quiet, check_pre-Quiet, confirm-Quiet,
  delegate_command-Quiet, pick-Quiet, pre_checks-Quiet, send-Silent, template-Quiet,
}

module _ (self : Engine) (ts : ℕ) (quiet : Silent is_dispatch self.evaluator.querier) where
  record_success-Silent :
      (p : Picked) (inv : Option InvariantResult) (action command : String) (hint : Option String)
      (d : DispatchResult)
      → Silent is_dispatch (record_success self ts p inv action command hint d)
  unfolding record_success
  record_success-Silent p inv action command hint d =
      Silent-bind _ _
        (Silent-call
          (λ t. self.services.record_dispatch t (dispatch_record self ts p action command hint d))
          (λ t. recorded (dispatch_record self ts p action command hint d)) (λ t. refl))
        (λ _.
          Silent-bind _ _
            ((send-Silent self ts quiet) (delegated_as action p.id d.pid) "Delegation Dispatch"
              "info")
            (λ _. Silent-pure _))

  report_failure-Silent :
      (p : Picked) (action : String) (d : DispatchResult)
      → Silent is_dispatch (report_failure self ts p action d)
  unfolding report_failure
  report_failure-Silent p action d =
      Silent-bind _ _
        ((send-Silent self ts quiet) (dispatch_failed_for p.id d.error) "Dispatch Failure" "error")
        (λ _. Silent-pure _)

  -- What follows the call of the dispatcher.
  abbrev after_dispatch :
      Picked
      → Option InvariantResult
      → (action command : String) → Option String
      → DispatchResult
      → Step EngineResult
  after_dispatch p inv action command hint d =
      if d.success
      then record_success self ts p inv action command hint d
      else report_failure self ts p action d

  after_dispatch-tells :
      (p : Picked) (inv : Option InvariantResult) (action command : String) (hint : Option String)
      (d : DispatchResult) (t : Trace) (f : Flow EngineResult)
      → (after_dispatch p inv action command hint d t).0 ≡ ok f
      → dispatches_of (flow_value f).status ≡ 1
  unfolding record_success report_failure
  after_dispatch-tells p inv action command hint d t f h = ground arith

  launch-Fair :
      (p : Picked) (inv : Option InvariantResult) (hint : Option String) (found : String × String)
      → Fair (launch self ts p inv hint found)
  unfolding launch
  launch-Fair p inv hint (action, template) =
      go (format template (("id", p.id) ∷ ("agent", or_empty self ts hint) ∷ []))
    where
      sent :
          (command : String) (t : Trace) (r : Result DispatchResult)
          → count is_dispatch
              (continue r
                (after_dispatch p inv action command hint)
                (t ++ dispatched command p.id ∷ [])).1
            ≡ count is_dispatch t + 1
      sent command t r =
          (Silent-continue r (after_dispatch p inv action command hint) (λ d.
              Silent-if d.success _ _ (record_success-Silent p inv action command hint d)
                (report_failure-Silent p action d))).at
            (t ++ dispatched command p.id ∷ [])
          ∙ count-append is_dispatch t (dispatched command p.id ∷ [])

      go :
          (r : Result String)
          → Fair (
              lift r >>= λ command. call_dispatch self.services command p.id >>= λ d.
              after_dispatch p inv action command hint d)
      go (raise e) = record { tells = λ t f h. absurd (cc); at_most_once = λ t. omega arith }
      go (ok command) = record {
        tells = λ t f h.
            let t' = t ++ dispatched command p.id ∷ [] in
            let (d, e, k) =
              continue-eq-ok (self.services.dispatch t command p.id)
                (after_dispatch p inv action command hint) t' h in
            omega (
              arith,
              sent command t (self.services.dispatch t command p.id),
              after_dispatch-tells p inv action command hint d t' f k,
            );
        at_most_once = λ t. omega (arith, sent command t (self.services.dispatch t command p.id));
      }

  body-Fair : (id hint : Option String) → Fair (delegation_body self ts id hint)
  unfolding delegation_body finish
  body-Fair id hint =
      Fair-▹ _
        (λ _.
          Fair-▹ _
            (λ p.
              Fair-▹ _
                (λ cmd.
                  Fair-▹ _
                    (λ _.
                      Fair-▹ _
                        (λ inv.
                          Fair-▹ _
                            (λ _.
                              Fair-▹ _ (launch-Fair p inv hint) _
                                ((template-Quiet self ts quiet) p cmd))
                            _ ((apply-Quiet self ts quiet) p cmd))
                        _ ((check_pre-Quiet self ts quiet) p cmd))
                    _ ((confirm-Quiet self ts quiet) p cmd))
                _ ((delegate_command-Quiet self ts quiet) p.id))
            _ ((pick-Quiet self ts quiet) id))
        _ (pre_checks-Quiet self ts quiet)

value_tells :
    (o : Result (Flow EngineResult)) (t : Trace) (r : EngineResult)
    → (continue o (λ f. pure (flow_value f)) t).0 ≡ ok r
    → (f : Flow EngineResult) × (o ≡ ok f) × (flow_value f ≡ r)
value_tells (ok f) t r h = (f, refl, cc)
value_tells (raise e) t r h = absurd (cc)

module _ (self : Engine) (quiet : Silent is_dispatch self.evaluator.querier)
    (id hint : Option String) (t : Trace) where
  -- A delegation calls the dispatcher at most once, also when a service raises. The querier of the
  -- evaluator is assumed to dispatch nothing.
  pub process_delegation_once :
      count is_dispatch (process_delegation self id hint t).1 ≤ count is_dispatch t + 1
  unfolding process_delegation
  process_delegation_once =
      let ts = self.services.clock t in
      let fair = body-Fair self ts quiet id hint in
      let (o, t') = delegation_body self ts id hint t in
      omega (arith, ap (count is_dispatch) (value_calls o t'), fair.at_most_once t)

  -- When a delegation returns, it has called the dispatcher exactly once if its status is `success`
  -- or `dispatch_failed`, and not at all for any other status. The querier of the evaluator is
  -- assumed to dispatch nothing.
  pub process_delegation-dispatches :
      (r : EngineResult)
      → (process_delegation self id hint t).0 ≡ ok r
      → count is_dispatch (process_delegation self id hint t).1
        ≡ count is_dispatch t + dispatches_of r.status
  unfolding process_delegation
  process_delegation-dispatches r h =
      let ts = self.services.clock t in
      let fair = body-Fair self ts quiet id hint in
      let (o, t') = delegation_body self ts id hint t in
      let same = ap (count is_dispatch) (value_calls o t') in
      let (f, e, v) = value_tells o t' r h in
      omega (arith, same, fair.tells t f e, ap (λ (x : EngineResult). dispatches_of x.status) v)
