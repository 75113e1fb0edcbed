-- ===== src/Engine/Core/Delegation/Success.antt =====
-- What a successful delegation has gone through.
use ampa.Prelude.{ℕ, String, Option, Result, ok, raise, ◌≡◌, ◌≢◌, refl, ◌∙◌, sym, ap, subst}
use ampa.Engine.Descriptor.{Command}
use ampa.Engine.Records.{InvariantResult}
use ampa.Engine.World.{Trace, continue, continue-eq-ok, pure}
use ampa.Engine.Core.Flow.{
  success, EngineResult, Engine, Flow, flow_value, next, exit, resume-eq-next, resume-next,
}
use ampa.Engine.Core.Delegation.Exits.{body-ExitsFailing}
use ampa.Engine.Core.Delegation.Guards.{
  MayDelegate, Chosen, pick-Chosen, pre_checks-trace, pre_checks-next, delegate_command-next,
  confirm-next, check_pre-next,
}
use ampa.Engine.Core.Delegation.Launch.{Launched, finish-next}
use ampa.Engine.Core.Delegation.{
  Picked, pre_checks, pick, delegate_command, confirm_from_state, check_pre, delegation_body,
  process_delegation,
}

-- The whole of a successful run: the item, the command and the verdict on the pre-invariants, with
-- the conditions that they met, and the calls of steps 3 and 4, from the trace `start` on.
pub record Delegated (self : Engine) (ts : ℕ) (id hint : Option String) (t t' : Trace)
    (r : EngineResult) : Type 0 where
  pub picked : Picked
  pub chosen : Chosen self id t picked
  pub command : Command
  pub inv : Option InvariantResult
  pub start : Trace
  pub allowed : MayDelegate self ts picked command inv
  pub launched : Launched self ts picked command hint inv start t' r

body-Delegated :
    (self : Engine) (ts : ℕ) (id hint : Option String) (t : Trace) (r : EngineResult)
    → (delegation_body self ts id hint t).0 ≡ ok (next r)
    → Delegated self ts id hint t (delegation_body self ts id hint t).1 r
unfolding delegation_body
body-Delegated self ts id hint t r h =
    let (o₁, t₁) = pre_checks self ts t in
    let (u₁, e₁, k₁) = resume-eq-next o₁ _ t₁ h in
    let (o₂, t₂) = pick self ts id t₁ in
    let (p, e₂, k₂) = resume-eq-next o₂ _ t₂ k₁ in
    let (o₃, t₃) = delegate_command self ts p.id t₂ in
    let (cmd, e₃, k₃) = resume-eq-next o₃ _ t₃ k₂ in
    let (o₄, t₄) = confirm_from_state self ts p cmd t₃ in
    let (u₄, e₄, k₄) = resume-eq-next o₄ _ t₄ k₃ in
    let (o₅, t₅) = check_pre self ts p cmd t₄ in
    let (inv, e₅, k₅) = resume-eq-next o₅ _ t₅ k₄ in
    let (active, held, discussed) = pre_checks-next self ts t e₁ in
    let (states, resolved, inside) = confirm-next self ts p cmd t₃ e₄ in
    record {
      picked = p;
      chosen =
          subst (λ w. Chosen self id w p) (pre_checks-trace self ts t)
            (pick-Chosen self ts id t₁ p e₂);
      command = cmd;
      inv = inv;
      start = t₅;
      allowed = record {
        not_audit_only = active;
        not_held = (held, discussed);
        command = delegate_command-next self ts p.id t₂ cmd e₃;
        from_states = states;
        resolved = resolved;
        in_from_state = inside;
        pre_passed = check_pre-next self ts p cmd t₄ inv e₅;
      };
      launched =
          subst (λ w. Launched self ts p cmd hint inv t₅ w r)
            (sym (
              resume-next o₁ _ t₁ u₁ e₁
              ∙ resume-next o₂ _ t₂ p e₂
              ∙ resume-next o₃ _ t₃ cmd e₃
              ∙ resume-next o₄ _ t₄ u₄ e₄
              ∙ resume-next o₅ _ t₅ inv e₅))
            (finish-next self ts p cmd hint inv t₅ r k₅);
    }

pub flow_success :
    (f : Flow EngineResult) (r : EngineResult)
    → ((e : EngineResult) → f ≡ exit e → e.status ≢ success)
    → flow_value f ≡ r
    → r.status ≡ success
    → f ≡ next r
flow_success (next r') r h e s = ap next e
flow_success (exit r') r h e s = absurd (h r' refl (ap (λ x. x.status) e ∙ s))

pub value_calls :
    (o : Result (Flow EngineResult)) (t : Trace) → (continue o (λ f. pure (flow_value f)) t).1 ≡ t
value_calls (ok f) t = refl
value_calls (raise e) t = refl

-- A delegation that reports success was allowed by the configuration and found the delegate
-- command. Its item is the one that it was asked for, with the status and the stage that the first
-- fetch gave (those of the object under `workItem`, where that key is there), or else the one that
-- the selector chose; that state is one of the command's from-states, and every pre-invariant that
-- the command names passes on data that was fetched for the item. It then made exactly these calls, in this order: at most one failed attempt of the
-- transition, the transition to the command's target state with the assignee of its effects, one
-- dispatch of the template of the item's from-state alias, the audit record of that dispatch, and
-- one notification.
pub process_delegation_success :
    (self : Engine) (id hint : Option String) (t : Trace) (r : EngineResult)
    → (process_delegation self id hint t).0 ≡ ok r
    → r.status ≡ success
    → Delegated self (self.services.clock t) id hint t (process_delegation self id hint t).1 r
unfolding process_delegation
process_delegation_success self id hint t r h s =
    let ts = self.services.clock t in
    let (o, t') = delegation_body self ts id hint t in
    let (f, e, k) = continue-eq-ok o _ t' h in
    let value : flow_value f ≡ r = cc in
    let n = flow_success f r (λ x q. body-ExitsFailing self ts id hint t x (e ∙ ap ok q)) value s in
    subst (λ w. Delegated self ts id hint t w r) (sym (value_calls o t'))
      (body-Delegated self ts id hint t r (e ∙ ap ok n))
