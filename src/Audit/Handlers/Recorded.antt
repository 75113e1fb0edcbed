-- ===== src/Audit/Handlers/Recorded.antt =====
-- When `audit_result` moves an item to its next state.
use ampa.Prelude.{
  String, Bool, true, false, not, [], ◌∷◌, ◌++◌, Option, ok, ◌≡◌, refl, ◌∙◌, ap, arith,
  if◌then◌else◌, Bool-cases, inl, inr,
}
use ampa.Value.{Fields}
use ampa.Engine.Descriptor.{Command}
use ampa.Engine.Records.{plain_text, commented, item_fetched}
use ampa.Engine.World.{Trace, Io, continue-eq-ok, pure}
use ampa.Audit.Report.{AuditResult, AuditParseResult, parsed, unparsed}
use ampa.Audit.Comment.{format_audit_comment}
use ampa.Audit.Commands.{HandlerResult, Handlers, get_work_item_title}
use ampa.Audit.Handlers.{run_audit, record_audit, use_audit, or_original, execute_audit_result}
use ampa.Audit.Handlers.Counted.{transitioned}
use ampa.Audit.Handlers.Guards.{
  Admitted, PrePassed, Moved, begin-Admitted, check_pre-PrePassed, apply_transition-Moved,
}

module _ (h : Handlers) where
  -- The recording of an audit that recommends closure.
  pub record Recorded (item : Fields) : Type 0 where
    pub id : String
    pub admitted : Admitted h "audit_result" item id
    pub started : Trace
    pub audit : AuditResult
    pub read : (run_audit h id started).0 ≡ ok (parsed audit)
    pub recommended : audit.recommends_closure ≡ true
    pub commenting : Trace
    pub written :
        h.services.write_comment commenting id (plain_text (format_audit_comment audit)) ≡ ok true
    pub refreshed : Option Fields
    pub fetched :
        h.services.fetch
          (commenting ++ commented id (plain_text (format_audit_comment audit)) ∷ [])
          id
        ≡ ok refreshed
    pub command : Command
    pub pre_passed : PrePassed h "audit_result" (or_original item refreshed) command
    pub moved : Moved h "audit_result" id command

  if-recommended :
      (b : Bool) (advised_no : HandlerResult) (m : Io HandlerResult) (t : Trace) (r : HandlerResult)
      → transitioned advised_no ≡ false
      → ((if not b then pure advised_no else m) t).0 ≡ ok r
      → transitioned r ≡ true
      → (b ≡ true) × ((m t).0 ≡ ok r)
  if-recommended true advised_no m t r f e done = (refl, e)
  if-recommended false advised_no m t r f e done = absurd (ground arith)

  use_audit-Recorded :
      (item : Fields) (result : AuditParseResult) (id : String) (started t : Trace)
      (r : HandlerResult)
      → Admitted h "audit_result" item id
      → (run_audit h id started).0 ≡ ok result
      → (use_audit h id item result t).0 ≡ ok r
      → transitioned r ≡ true
      → Recorded item
  unfolding use_audit record_audit
  use_audit-Recorded item (unparsed x) id started t r admitted read e done =
      absurd (ground (arith, done))
  use_audit-Recorded item (parsed audit) id started t r admitted read e done =
      let (title, _, k) = continue-eq-ok (get_work_item_title item) _ t e in
      let text = plain_text (format_audit_comment audit) in
      let t₁ = t ++ commented id text ∷ [] in
      let (written, wrote, l) = continue-eq-ok (h.services.write_comment t id text) _ t₁ k in
      elim (Bool-cases written) [
        | inr unwritten ↦ absurd (ground (arith, rw unwritten at l, done))
        | inl good ↦
            let (refreshed, fetched, m) =
              continue-eq-ok (h.services.fetch t₁ id) _ (t₁ ++ item_fetched id ∷ [])
                (rw good at l) in
            let (cmd, pre, t₂, n) =
              check_pre-PrePassed h "audit_result" id (or_original item refreshed) _
                (t₁ ++ item_fetched id ∷ []) r m done in
            let (advised, last) = if-recommended audit.recommends_closure _ _ t₂ r refl n done in
            record {
              id = id;
              admitted = admitted;
              started = started;
              audit = audit;
              read = read;
              recommended = advised;
              commenting = t;
              written = wrote ∙ ap ok good;
              refreshed = refreshed;
              fetched = fetched;
              command = cmd;
              pre_passed = pre;
              moved = apply_transition-Moved h "audit_result" id cmd _ t₂ r last done;
            }
      ]

  -- An `audit_result` that reports a transition was asked for an item with an id and a state that
  -- the command may start from; the audit skill's output was read as an audit that recommends
  -- closure, its comment was written, the pre-invariants hold on the item as it was fetched after
  -- that (or as it was given, where the fetch found nothing), and the update was applied.
  pub execute_audit_result-Recorded :
      (item : Fields) (t : Trace) (r : HandlerResult)
      → (execute_audit_result h item t).0 ≡ ok r
      → transitioned r ≡ true
      → Recorded item
  unfolding execute_audit_result
  execute_audit_result-Recorded item t r e done =
      let (id, admitted, k) = begin-Admitted h "audit_result" item _ t r e done in
      let (o, t₁) = run_audit h id t in
      let (result, read, l) = continue-eq-ok o _ t₁ k in
      use_audit-Recorded item result id t t₁ r admitted read l done
