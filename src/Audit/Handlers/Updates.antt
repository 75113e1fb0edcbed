-- ===== src/Audit/Handlers/Updates.antt =====
-- How often a command of the audit changes the state of its item.
use ampa.Prelude.{◌+◌, String, Bool, ok, ◌≡◌, refl, count}
use ampa.Value.{Fields}
use ampa.Engine.Descriptor.{Command}
use ampa.Engine.Records.{Event, plain_text}
use ampa.Engine.World.{Trace, call_comment, call_fetch}
use ampa.Engine.World.Silent.{Silent, Silent-call}
use ampa.Audit.Report.{AuditResult, AuditParseResult, parsed, unparsed}
use ampa.Audit.Comment.{format_audit_comment}
use ampa.Audit.Commands.{HandlerResult, Handlers, get_work_item_id, get_work_item_title}
use ampa.Audit.Checks.{run_completion_checks}
use ampa.Audit.Handlers.{
  run_audit, record_audit, use_audit, execute_audit_result, tag_item, execute_audit_fail, flag_item,
  notify_item, close_effects, close_checked, execute_close_with_audit,
}
use ampa.Audit.Handlers.Counted.{
  is_applied, is_applied-OnUpdates, transitioned, once_if, Counted, Counted-pure, Counted-if,
  Counted-lift, Counted-bind, Ends, Ends-pure, Ends-bind,
}
use ampa.Audit.Handlers.Quiet.{
  checks-Silent, tag_item-Silent, flag_item-Silent, notify_item-Silent, run_audit-Silent,
}
use ampa.Audit.Handlers.Own.{
  is_own, MakesNoUpdate, succeeded, transitioned-Fails, succeeded-Fails, Fits, applied-Fits,
  own-Fits, begin-Counted, apply_transition-Counted, check_pre-Counted,
}

module _ (h : Handlers) (item : Fields) where
  module _ (p : Event → Bool) (fits : Fits h "audit_result" item p)
      (quiet : Silent p h.evaluator.querier) where
    record_audit-Counted :
        (id title : String) (audit : AuditResult)
        → get_work_item_id item ≡ ok id
        → Counted p transitioned (record_audit h id title item audit)
    unfolding record_audit
    record_audit-Counted id title audit has_id =
        Counted-bind p transitioned
          (call_comment h.services id (plain_text (format_audit_comment audit))) _
          (Silent-call _ _ (λ t. fits.on_updates _ refl))
          (λ written. Counted-if p transitioned _ _ _ (Counted-pure p transitioned _ refl) (
            Counted-bind p transitioned (call_fetch h.services id) _
              (Silent-call _ _ (λ t. fits.on_updates _ refl))
              (λ refreshed.
                check_pre-Counted h "audit_result" item p fits transitioned transitioned-Fails quiet
                  id _ _
                  (λ cmd defined.
                    Counted-if p transitioned _ _ _ (Counted-pure p transitioned _ refl) (
                      apply_transition-Counted h "audit_result" item p fits transitioned
                        transitioned-Fails id cmd _ has_id defined
                        (Ends-pure p transitioned _ refl))))))

    use_audit-Counted :
        (id : String) (r : AuditParseResult)
        → get_work_item_id item ≡ ok id
        → Counted p transitioned (use_audit h id item r)
    unfolding use_audit
    use_audit-Counted id (unparsed e) has_id = Counted-pure p transitioned _ refl
    use_audit-Counted id (parsed audit) has_id =
        Counted-lift p transitioned (get_work_item_title item) _
          (λ title _. record_audit-Counted id title audit has_id)

    audit_result-Counted : Counted p transitioned (execute_audit_result h item)
    unfolding execute_audit_result
    audit_result-Counted =
        begin-Counted h "audit_result" item p fits transitioned transitioned-Fails _ (λ id has_id.
          Counted-bind p transitioned (run_audit h id) _ (run_audit-Silent h p fits.on_updates id)
            (λ audit. use_audit-Counted id audit has_id))

  module _ (p : Event → Bool) (fits : Fits h "audit_fail" item p)
      (quiet : Silent p h.evaluator.querier) where
    audit_fail-Counted : Counted p succeeded (execute_audit_fail h item)
    unfolding execute_audit_fail
    audit_fail-Counted =
        begin-Counted h "audit_fail" item p fits succeeded succeeded-Fails _ (λ id has_id.
          check_pre-Counted h "audit_fail" item p fits succeeded succeeded-Fails quiet id item _
            (λ cmd defined.
              apply_transition-Counted h "audit_fail" item p fits succeeded succeeded-Fails id cmd _
                has_id defined
                (Ends-bind p succeeded (tag_item h id item cmd) _
                  (tag_item-Silent h p fits.on_updates id item cmd)
                  (λ tagged. Ends-pure p succeeded _ refl))))

  module _ (p : Event → Bool) (fits : Fits h "close_with_audit" item p)
      (quiet : Silent p h.evaluator.querier) where
    close_effects-Ends :
        (id : String) (cmd : Command) → Ends p succeeded (close_effects h id item cmd)
    unfolding close_effects
    close_effects-Ends id cmd =
        Ends-bind p succeeded (flag_item h id cmd) _ (flag_item-Silent h p fits.on_updates id cmd)
          (λ flagged.
            Ends-bind p succeeded (tag_item h id item cmd) _
              (tag_item-Silent h p fits.on_updates id item cmd)
              (λ tagged.
                Ends-bind p succeeded (notify_item h id item cmd) _
                  (notify_item-Silent h p fits.on_updates id item cmd)
                  (λ sent. Ends-pure p succeeded _ refl)))

    close-Counted : Counted p succeeded (execute_close_with_audit h item)
    unfolding execute_close_with_audit close_checked
    close-Counted =
        begin-Counted h "close_with_audit" item p fits succeeded succeeded-Fails _ (λ id has_id.
          check_pre-Counted h "close_with_audit" item p fits succeeded succeeded-Fails quiet id item
            _
            (λ cmd defined.
              Counted-bind p succeeded (run_completion_checks h item) _
                (checks-Silent h p fits.on_updates item)
                (λ failures.
                  Counted-if p succeeded _ _ _
                    (apply_transition-Counted h "close_with_audit" item p fits succeeded
                      succeeded-Fails id cmd _ has_id defined (close_effects-Ends id cmd))
                    (Counted-pure p succeeded _ refl))))

module _ (h : Handlers) (quiet : MakesNoUpdate h) (item : Fields) (t : Trace)
    (r : HandlerResult) where
  -- Where `audit_result` reports success for an audit that recommends closure, exactly one update was
  -- reported as applied, and it gave the item with that id the target state of the command; where it
  -- reports a failure, or an audit that does not, none was. The queries of the evaluator are assumed
  -- to make no update.
  pub execute_audit_result-updates :
      (execute_audit_result h item t).0 ≡ ok r
      → (count is_applied (execute_audit_result h item t).1
          ≡ once_if (transitioned r) + count is_applied t)
        × (count (is_own h "audit_result" item) (execute_audit_result h item t).1
            ≡ once_if (transitioned r) + count (is_own h "audit_result" item) t)
  execute_audit_result-updates e =
      let own = own-Fits h "audit_result" item in
      (
        (audit_result-Counted h item is_applied (applied-Fits h "audit_result" item)
              (quiet _ is_applied-OnUpdates)).at
            t r e,
        (audit_result-Counted h item _ own (quiet _ own.on_updates)).at t r e,
      )

  -- Where `audit_fail` reports success, exactly one update was reported as applied, and it gave the
  -- item the target state of the command; where it reports a failure, none was. The queries of the
  -- evaluator are assumed to make no update.
  pub execute_audit_fail-updates :
      (execute_audit_fail h item t).0 ≡ ok r
      → (count is_applied (execute_audit_fail h item t).1
          ≡ once_if (r.success) + count is_applied t)
        × (count (is_own h "audit_fail" item) (execute_audit_fail h item t).1
            ≡ once_if (r.success) + count (is_own h "audit_fail" item) t)
  execute_audit_fail-updates e =
      let own = own-Fits h "audit_fail" item in
      (
        (audit_fail-Counted h item is_applied (applied-Fits h "audit_fail" item)
              (quiet _ is_applied-OnUpdates)).at
            t r e,
        (audit_fail-Counted h item _ own (quiet _ own.on_updates)).at t r e,
      )

  -- Where `close_with_audit` reports success, exactly one update was reported as applied, and it gave
  -- the item with that id the target state of the command; where it reports a failure, none was. The
  -- queries of the evaluator are assumed to make no update.
  pub execute_close_with_audit-updates :
      (execute_close_with_audit h item t).0 ≡ ok r
      → (count is_applied (execute_close_with_audit h item t).1
          ≡ once_if r.success + count is_applied t)
        × (count (is_own h "close_with_audit" item) (execute_close_with_audit h item t).1
            ≡ once_if r.success + count (is_own h "close_with_audit" item) t)
  execute_close_with_audit-updates e =
      let own = own-Fits h "close_with_audit" item in
      (
        (close-Counted h item is_applied (applied-Fits h "close_with_audit" item)
              (quiet _ is_applied-OnUpdates)).at
            t r e,
        (close-Counted h item _ own (quiet _ own.on_updates)).at t r e,
      )
