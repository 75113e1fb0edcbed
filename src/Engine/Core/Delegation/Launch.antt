-- ===== src/Engine/Core/Delegation/Launch.antt =====
-- Steps 3 and 4 of `process_delegation`, when they succeed.
use ampa.Prelude.{
  ℕ, String, true, false, List, [], ◌∷◌, ◌++◌, Option, some, ok, ◌≡◌, ◌∙◌, ap, arith, Bool-cases,
  option_eq, lookup, ◌⊎◌, inl, inr,
}
use mathlib.Core.List.{append_assoc}
use ampa.Text.{format}
use ampa.Engine.Descriptor.{StateTuple, Command, resolve_state_ref, resolve_from_state_alias}
use ampa.Engine.Records.{
  InvariantResult, DispatchResult, Event, updated, dispatched, recorded, notified, delegated_as,
}
use ampa.Engine.World.{Trace, continue-eq-ok}
use ampa.Engine.Core.Flow.{EngineResult, Engine, next, resume-eq-next, resume-next}
use ampa.Engine.Core.Delegation.{
  Picked, state_of, assignee_of, dispatch_record, apply_transition, find_template, with_action,
  launch, record_success, report_failure, finish, or_empty,
}
use ampa.Engine.Core.Delegation.Updates.{apply-next}

module _ (self : Engine) (ts : ℕ) where
  -- What step 3 and step 4 did, with the trace that they started from.
  pub record Launched (p : Picked) (cmd : Command) (hint : Option String)
      (inv : Option InvariantResult) (t t' : Trace) (r : EngineResult) : Type 0 where
    pub to : StateTuple
    pub target : resolve_state_ref self.descriptor cmd.to ≡ ok to
    pub not_declined : option_eq self.config.fallback_mode "auto-decline" ≡ false
    pub action : String
    pub alias_found : resolve_from_state_alias self.descriptor cmd (state_of p) ≡ some action
    pub template : String
    pub template_found : lookup action cmd.dispatch_map ≡ some template
    pub command : String
    pub formatted :
        format template (("id", p.id) ∷ ("agent", or_empty self ts hint) ∷ []) ≡ ok command
    pub dispatch : DispatchResult
    pub dispatch_succeeded : dispatch.success ≡ true
    pub inv_kept : r.invariant_result ≡ inv
    -- The calls before the update that succeeded: none, or the one failed attempt.
    pub failed : List Event
    pub attempts :
        (failed ≡ [])
        ⊎ (failed
            ≡ updated p.id to.status to.stage (assignee_of self ts cmd.effects) (ok false) ∷ [])
    pub calls :
        t'
        ≡ t
          ++ (failed
              ++ (updated p.id to.status to.stage (assignee_of self ts cmd.effects) (ok true)
                  ∷ dispatched command p.id
                  ∷ recorded (dispatch_record self ts p action command hint dispatch)
                  ∷ notified (delegated_as action p.id dispatch.pid) "Delegation Dispatch" "info"
                  ∷ []))

  record_success-next :
      (p : Picked) (inv : Option InvariantResult) (action command : String) (hint : Option String)
      (d : DispatchResult) (t : Trace) (r : EngineResult)
      → (record_success self ts p inv action command hint d t).0 ≡ ok (next r)
      → ((record_success self ts p inv action command hint d t).1
          ≡ t
            ++ (recorded (dispatch_record self ts p action command hint d)
                ∷ notified (delegated_as action p.id d.pid) "Delegation Dispatch" "info"
                ∷ []))
        × (r.invariant_result ≡ inv)
  unfolding record_success
  record_success-next p inv action command hint d t r h =
      let rec = dispatch_record self ts p action command hint d in
      let t' = t ++ recorded rec ∷ [] in
      let (x, e, k) = continue-eq-ok (self.services.record_dispatch t rec) _ t' h in
      let (y, f, l) =
        continue-eq-ok (self.services.send t' (delegated_as action p.id d.pid)) _
          (t' ++ notified (delegated_as action p.id d.pid) "Delegation Dispatch" "info" ∷ []) k in
      (rw (e, f) (append_assoc t (recorded rec ∷ []) _), ground arith)

  report_failure-exit :
      (p : Picked) (action : String) (d : DispatchResult) (t : Trace) (r : EngineResult)
      → (report_failure self ts p action d t).0 ≡ ok (next r)
      → ⊥
  unfolding report_failure
  report_failure-exit p action d t r h = ground arith

  record LaunchedCalls (p : Picked) (inv : Option InvariantResult) (hint : Option String)
      (action template : String) (t t' : Trace) (r : EngineResult) : Type 0 where
    pub command : String
    pub dispatch : DispatchResult
    pub formatted :
        format template (("id", p.id) ∷ ("agent", or_empty self ts hint) ∷ []) ≡ ok command
    pub dispatch_succeeded : dispatch.success ≡ true
    pub calls :
        t'
        ≡ t
          ++ (dispatched command p.id
              ∷ recorded (dispatch_record self ts p action command hint dispatch)
              ∷ notified (delegated_as action p.id dispatch.pid) "Delegation Dispatch" "info"
              ∷ [])
    pub inv_kept : r.invariant_result ≡ inv

  launch-next :
      (p : Picked) (inv : Option InvariantResult) (hint : Option String) (action template : String)
      (t : Trace) (r : EngineResult)
      → (launch self ts p inv hint (action, template) t).0 ≡ ok (next r)
      → LaunchedCalls p inv hint action template t
          (launch self ts p inv hint (action, template) t).1
          r
  unfolding launch
  launch-next p inv hint action template t r h =
      let (command, e, k) =
        continue-eq-ok (format template (("id", p.id) ∷ ("agent", or_empty self ts hint) ∷ [])) _ t
          h in
      let t' = t ++ dispatched command p.id ∷ [] in
      let (d, f, l) = continue-eq-ok (self.services.dispatch t command p.id) _ t' k in
      elim (Bool-cases d.success) [
        | inl good ↦
            let (calls, same) =
              record_success-next p inv action command hint d t' r (rw good at l) in
            record {
              command = command;
              dispatch = d;
              formatted = e;
              dispatch_succeeded = good;
              calls = rw (e, f, good) (calls ∙ append_assoc t (dispatched command p.id ∷ []) _);
              inv_kept = same;
            }
        | inr bad ↦ absurd (report_failure-exit p action d t' r (rw bad at l))
      ]

  record TemplateFound (p : Picked) (cmd : Command) (action template : String) : Type 0 where
    pub not_declined : option_eq self.config.fallback_mode "auto-decline" ≡ false
    pub alias_found : resolve_from_state_alias self.descriptor cmd (state_of p) ≡ some action
    pub template_found : lookup action cmd.dispatch_map ≡ some template

  template-next :
      (p : Picked) (cmd : Command) (t : Trace) (action template : String)
      → (find_template self ts p cmd t).0 ≡ ok (next (action, template))
      → TemplateFound p cmd action template
  unfolding find_template with_action
  template-next p cmd t action template h = ground arith

  template-calls : (p : Picked) (cmd : Command) (t : Trace) → (find_template self ts p cmd t).1 ≡ t
  unfolding find_template
  template-calls p cmd t = ground arith

  -- Steps 3 and 4 succeed only together, with these calls and no other.
  pub finish-next :
      (p : Picked) (cmd : Command) (hint : Option String) (inv : Option InvariantResult) (t : Trace)
      (r : EngineResult)
      → (finish self ts p cmd hint inv t).0 ≡ ok (next r)
      → Launched p cmd hint inv t (finish self ts p cmd hint inv t).1 r
  unfolding finish
  finish-next p cmd hint inv t r h =
      let (o, t₁) = apply_transition self ts p cmd t in
      let (to, e, k) = resume-eq-next o _ t₁ h in
      let (o₂, t₂) = find_template self ts p cmd t₁ in
      let ((action, template), f, l) = resume-eq-next o₂ _ t₂ k in
      let made = apply-next self ts p cmd t to e in
      let templ = template-next p cmd t₁ action template f in
      let sent = launch-next p inv hint action template t₂ r l in
      let update = updated p.id to.status to.stage (assignee_of self ts cmd.effects) (ok true) in
      let later : List Event =
        dispatched sent.command p.id
        ∷ recorded (dispatch_record self ts p action sent.command hint sent.dispatch)
        ∷ notified (delegated_as action p.id sent.dispatch.pid) "Delegation Dispatch" "info"
        ∷ [] in
      record {
        to = to;
        target = made.target;
        not_declined = templ.not_declined;
        action = action;
        alias_found = templ.alias_found;
        template = template;
        template_found = templ.template_found;
        command = sent.command;
        formatted = sent.formatted;
        dispatch = sent.dispatch;
        dispatch_succeeded = sent.dispatch_succeeded;
        failed = made.failed;
        attempts = made.attempts;
        calls =
            resume-next o _ t₁ to e
            ∙ resume-next o₂ _ t₂ (action, template) f
            ∙ sent.calls
            ∙ ap (λ w. w ++ later) (template-calls p cmd t₁ ∙ made.calls)
            ∙ append_assoc t (made.failed ++ update ∷ []) later
            ∙ ap (λ w. t ++ w) (append_assoc made.failed (update ∷ []) later);
        inv_kept = sent.inv_kept;
      }
