-- ===== src/Engine/Core/Delegation/Updates.antt =====
-- Step 3 of `process_delegation`, when it succeeds: the update that is tried twice.
use ampa.Prelude.{
  ℕ, String, Bool, true, false, List, [], ◌∷◌, ◌++◌, Option, Result, Exn, ok, raise, ◌≡◌, refl, ◌∙◌,
  ap, arith, Bool-cases, ◌⊎◌, inl, inr, subst,
}
use mathlib.Core.List.{append_assoc}
use ampa.Engine.Descriptor.{StateTuple, Command, resolve_state_ref}
use ampa.Engine.Records.{Event, updated}
use ampa.Engine.World.{Trace, continue-eq-ok}
use ampa.Engine.Core.Flow.{Engine, next}
use ampa.Engine.Core.Delegation.{Picked, assignee_of, update_twice, apply_transition}

module _ (self : Engine) (ts : ℕ) where
  answers : (r : Result Bool) → (r ≡ ok true) ⊎ ((r ≡ ok false) ⊎ ((e : Exn) × (r ≡ raise e)))
  answers (ok true) = inl refl
  answers (ok false) = inr (inl refl)
  answers (raise e) = inr (inr (e, refl))

  -- An update that is reported as applied was asked for once, or twice after a refusal.
  pub update_twice-ok :
      (id : String) (to : StateTuple) (a : Option String) (t : Trace)
      → (update_twice self ts id to a t).0 ≡ ok true
      → (failed : List Event) × ((failed ≡ [])
          ⊎ (failed ≡ updated id to.status to.stage a (ok false) ∷ []))
        × ((update_twice self ts id to a t).1
            ≡ t ++ (failed ++ updated id to.status to.stage a (ok true) ∷ []))
  unfolding update_twice
  update_twice-ok id to a t h = elim (answers (self.services.update t id to.status to.stage a)) [
    | inl yes_ ↦ ([], inl refl, rw yes_)
    | inr (inl no_) ↦
        let first = updated id to.status to.stage a (ok false) in
        let t' = t ++ first ∷ [] in
        let second : self.services.update t' id to.status to.stage a ≡ ok true = rw no_ at h in
        (first ∷ [], inr refl, rw (no_, second) (append_assoc t (first ∷ []) _))
    | inr (inr (e, x)) ↦ absurd (cc (rw x at h))
  ]

  apply-calls :
      (p : Picked) (cmd : Command) (t : Trace) (to : StateTuple)
      → resolve_state_ref self.descriptor cmd.to ≡ ok to
      → (update_twice self ts p.id to (assignee_of self ts cmd.effects) t).0 ≡ ok true
      → (apply_transition self ts p cmd t).1
        ≡ (update_twice self ts p.id to (assignee_of self ts cmd.effects) t).1
  unfolding apply_transition
  apply-calls p cmd t to e f = rw e (ground (arith, f))

  -- The attempts of step 3, when it succeeds.
  pub record Applied (p : Picked) (cmd : Command) (to : StateTuple) (t t' : Trace) : Type 0 where
    pub target : resolve_state_ref self.descriptor cmd.to ≡ ok to
    pub failed : List Event
    pub attempts :
        (failed ≡ [])
        ⊎ (failed
            ≡ updated p.id to.status to.stage (assignee_of self ts cmd.effects) (ok false) ∷ [])
    pub calls :
        t'
        ≡ t
          ++ (failed
              ++ updated p.id to.status to.stage (assignee_of self ts cmd.effects) (ok true) ∷ [])

  pub apply-next :
      (p : Picked) (cmd : Command) (t : Trace) (to : StateTuple)
      → (apply_transition self ts p cmd t).0 ≡ ok (next to)
      → Applied p cmd to t (apply_transition self ts p cmd t).1
  unfolding apply_transition
  apply-next p cmd t to h =
      let a = assignee_of self ts cmd.effects in
      let (to', e, k) = continue-eq-ok (resolve_state_ref self.descriptor cmd.to) _ t h in
      let (r, t') = update_twice self ts p.id to' a t in
      let (applied, f, l) = continue-eq-ok r _ t' k in
      elim (Bool-cases applied) [
        | inl yes_ ↦
            let same : to' ≡ to = ground (arith, l) in
            let e' : resolve_state_ref self.descriptor cmd.to ≡ ok to = e ∙ ap ok same in
            let f' : (update_twice self ts p.id to a t).0 ≡ ok true =
              subst (λ x. (update_twice self ts p.id x a t).0 ≡ ok true) same (f ∙ ap ok yes_) in
            let (failed, attempts, calls) = update_twice-ok p.id to a t f' in
            record {
              target = e';
              failed = failed;
              attempts = attempts;
              calls = apply-calls p cmd t to e' f' ∙ calls;
            }
        | inr no_ ↦ absurd (ground (arith, l))
      ]
