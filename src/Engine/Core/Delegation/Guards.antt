-- ===== src/Engine/Core/Delegation/Guards.antt =====
-- The conditions under which `process_delegation` comes to step 3.
use ampa.Prelude.{
  ℕ, String, true, false, List, Option, none, some, Result, ok, raise, ◌≡◌, refl, sym, ap, ◌∙◌,
  arith, Bool-cases, option_eq, traverse, ◌⊎◌, inl, inr, is_empty,
}
use ampa.Value.{
  Value, Fields, null, bool, int, number, str, list, dict, get_default, as_dict, str_of,
}
use ampa.Engine.Descriptor.{StateTuple, Command, state_in, get_command, resolve_state_ref}
use ampa.Engine.Records.{InvariantResult, WorkItemCandidate, CandidateResult}
use ampa.Engine.Candidates.{select}
use ampa.Engine.World.{Trace, recover, pure, continue-eq-ok}
use ampa.Engine.Evaluator.{evaluate}
use ampa.Engine.Evaluator.Results.{Passes, evaluate-Passes}
use ampa.Engine.Core.Flow.{Engine, next}
use ampa.Engine.Core.Delegation.{
  Picked, state_of, pre_checks, pick, picked_from, use_fetched, use_selection, delegate_command,
  confirm_from_state, pre_failed, evaluate_pre, check_pre, fetch_work_item_data,
}

-- A service gave the item for the id at some moment of the run.
pub record FetchedAt (self : Engine) (id : String) (item : Fields) : Type 0 where
  pub moment : Trace
  pub fetched : self.services.fetch moment id ≡ ok (some item)

-- The item as it was picked: the one that was asked for, with the status and the stage that the
-- fetch at `t` gave under `workItem`, or where there is no such key by itself; or the selected one.
abbrev pub Chosen : Engine → Option String → Trace → Picked → Type 0
Chosen self (some id) t p =
    (data_ : Fields) × (wi : Fields) × (self.services.fetch t id ≡ ok (some data_))
    × (get_default data_ "workItem" (dict data_) ≡ dict wi)
    × (p.id ≡ id)
    × (p.status ≡ str_of (get_default wi "status" (str "")))
    × (p.stage ≡ str_of (get_default wi "stage" (str "")))
Chosen self none t p =
    (result : CandidateResult) × (c : WorkItemCandidate) × ((select self.services self.selector t).0
      ≡ ok result)
    × (result.selected ≡ some c)
    × (p.id ≡ c.id)
    × (p.status ≡ c.status)
    × (p.stage ≡ c.stage)

as_dict-eq : (v : Value) (fs : Fields) → as_dict v ≡ ok fs → v ≡ dict fs
as_dict-eq (dict gs) fs e = cc
as_dict-eq null fs e = absurd (cc)
as_dict-eq (bool x) fs e = absurd (cc)
as_dict-eq (int x) fs e = absurd (cc)
as_dict-eq (number x) fs e = absurd (cc)
as_dict-eq (str x) fs e = absurd (cc)
as_dict-eq (list x) fs e = absurd (cc)

module _ (self : Engine) (ts : ℕ) where
  fetch-eq :
      (answer : Result (Option Fields)) (t : Trace) (item : Fields)
      → (recover answer (pure none) t).0 ≡ ok (some item)
      → answer ≡ ok (some item)
  fetch-eq (ok o) t item h = h
  fetch-eq (raise e) t item h = absurd (cc)

  pub fetch_work_item_data-eq :
      (id : String) (t : Trace) (item : Fields)
      → (fetch_work_item_data self.services id t).0 ≡ ok (some item)
      → self.services.fetch t id ≡ ok (some item)
  fetch_work_item_data-eq id t item h = fetch-eq (self.services.fetch t id) _ item h

  picked_from-eq :
      (id : String) (v : Value) (p : Picked)
      → picked_from self ts id v ≡ ok p
      → (wi : Fields) × (v ≡ dict wi)
        × (p.id ≡ id)
        × (p.status ≡ str_of (get_default wi "status" (str "")))
        × (p.stage ≡ str_of (get_default wi "stage" (str "")))
  unfolding picked_from
  picked_from-eq id (dict wi) p h = (
    wi,
    refl,
    ap (λ (q : Picked). q.id) (sym (injected h)),
    ap (λ (q : Picked). q.status) (sym (injected h)),
    ap (λ (q : Picked). q.stage) (sym (injected h)),
  )
    where
      injected : {a b : Picked} → ok a ≡ ok b → a ≡ b
      injected e = cc
  picked_from-eq id null p h = absurd (cc)
  picked_from-eq id (bool x) p h = absurd (cc)
  picked_from-eq id (int x) p h = absurd (cc)
  picked_from-eq id (number x) p h = absurd (cc)
  picked_from-eq id (str x) p h = absurd (cc)
  picked_from-eq id (list x) p h = absurd (cc)

  use_fetched-eq :
      (id : String) (found : Option Fields) (t : Trace) (p : Picked)
      → (use_fetched self ts id found t).0 ≡ ok (next p)
      → (data_ : Fields) × (found ≡ some data_)
        × (picked_from self ts id (get_default data_ "workItem" (dict data_)) ≡ ok p)
  unfolding use_fetched
  use_fetched-eq id none t p h = absurd (ground arith)
  use_fetched-eq id (some data_) t p h =
      let (q, e, k) =
        continue-eq-ok (picked_from self ts id (get_default data_ "workItem" (dict data_))) _ t h in
      (data_, refl, e ∙ ground (arith, k))

  use_selection-eq :
      (result : CandidateResult) (o : Option WorkItemCandidate) (t : Trace) (p : Picked)
      → (use_selection self ts result o t).0 ≡ ok (next p)
      → (c : WorkItemCandidate) × (o ≡ some c)
        × (p.id ≡ c.id)
        × (p.status ≡ c.status)
        × (p.stage ≡ c.stage)
  unfolding use_selection
  use_selection-eq result none t p h = absurd (ground arith)
  use_selection-eq result (some c) t p h =
      (c, refl, ground (arith, h), ground (arith, h), ground (arith, h))

  pub pick-Chosen :
      (o : Option String) (t : Trace) (p : Picked)
      → (pick self ts o t).0 ≡ ok (next p)
      → Chosen self o t p
  unfolding pick
  pick-Chosen none t p h =
      let (r, t') = select self.services self.selector t in
      let (result, e, k) = continue-eq-ok r _ t' h in
      let (c, chosen, i, s, g) = use_selection-eq result result.selected t' p k in
      (result, c, e, chosen, i, s, g)
  pick-Chosen (some id) t p h =
      let (found, e, k) = continue-eq-ok (self.services.fetch t id) _ _ h in
      let (data_, same, q) = use_fetched-eq id found _ p k in
      let (wi, under, i, s, g) = picked_from-eq id _ p q in
      (data_, wi, e ∙ ap ok same, under, i, s, g)

  -- `pre_checks` calls nothing.
  pub pre_checks-trace : (t : Trace) → (pre_checks self ts t).1 ≡ t
  unfolding pre_checks
  pre_checks-trace t = ground arith

  -- The conditions that the configuration and the item meet.
  pub record MayDelegate (p : Picked) (cmd : Command) (inv : Option InvariantResult) : Type 0 where
    pub not_audit_only : self.config.audit_only ≡ false
    pub not_held :
        (option_eq self.config.fallback_mode "hold" ≡ false)
        × (option_eq self.config.fallback_mode "discuss-options" ≡ false)
    pub command : get_command self.descriptor "delegate" ≡ ok cmd
    pub from_states : List StateTuple
    pub resolved : traverse (resolve_state_ref self.descriptor) cmd.from_states ≡ ok from_states
    pub in_from_state : state_in (state_of p) from_states ≡ true
    pub pre_passed :
        (is_empty cmd.pre ≡ true) × (inv ≡ none)
        ⊎ (i : InvariantResult) × (inv ≡ some i)
          × (item : Fields) × FetchedAt self p.id item
          × Passes self.evaluator cmd.pre item i

  pub pre_checks-next :
      (t : Trace)
      → (pre_checks self ts t).0 ≡ ok (next tt)
      → (self.config.audit_only ≡ false)
        × (option_eq self.config.fallback_mode "hold" ≡ false)
        × (option_eq self.config.fallback_mode "discuss-options" ≡ false)
  unfolding pre_checks
  pre_checks-next t h = ground arith

  pub delegate_command-next :
      (id : String) (t : Trace) (cmd : Command)
      → (delegate_command self ts id t).0 ≡ ok (next cmd)
      → get_command self.descriptor "delegate" ≡ ok cmd
  unfolding delegate_command
  delegate_command-next id t cmd h = ground arith

  pub confirm-next :
      (p : Picked) (cmd : Command) (t : Trace)
      → (confirm_from_state self ts p cmd t).0 ≡ ok (next tt)
      → (states : List StateTuple) × (traverse (resolve_state_ref self.descriptor) cmd.from_states
          ≡ ok states)
        × (state_in (state_of p) states ≡ true)
  unfolding confirm_from_state
  confirm-next p cmd t h =
      let (states, e, k) =
        continue-eq-ok (traverse (resolve_state_ref self.descriptor) cmd.from_states) _ t h in
      (states, e, ground (arith, k))

  evaluate_pre-next :
      (p : Picked) (cmd : Command) (found : Option Fields) (t : Trace)
      (inv : Option InvariantResult)
      → (evaluate_pre self ts p cmd found t).0 ≡ ok (next inv)
      → (item : Fields) × (found ≡ some item)
        × (i : InvariantResult) × (inv ≡ some i)
        × Passes self.evaluator cmd.pre item i
  unfolding evaluate_pre pre_failed
  evaluate_pre-next p cmd none t inv h = absurd (ground arith)
  evaluate_pre-next p cmd (some work_item) t inv h =
      let (r, t') = evaluate self.evaluator cmd.pre work_item false t in
      let (i, e, k) = continue-eq-ok r _ t' h in
      elim (Bool-cases i.passed) [
        | inl passed ↦ (
          work_item,
          refl,
          i,
          ground arith,
          evaluate-Passes self.evaluator cmd.pre work_item t i e passed,
        )
        | inr failed ↦ absurd (ground arith)
      ]

  pub check_pre-next :
      (p : Picked) (cmd : Command) (t : Trace) (inv : Option InvariantResult)
      → (check_pre self ts p cmd t).0 ≡ ok (next inv)
      → (is_empty cmd.pre ≡ true) × (inv ≡ none)
        ⊎ (i : InvariantResult) × (inv ≡ some i)
          × (item : Fields) × FetchedAt self p.id item
          × Passes self.evaluator cmd.pre item i
  unfolding check_pre
  check_pre-next p cmd t inv h = elim (Bool-cases (is_empty cmd.pre)) [
    | inl none_asked ↦ inl (none_asked, ground arith)
    | inr asked ↦
        let (r, t') = fetch_work_item_data self.services p.id t in
        let (found, got, k) = continue-eq-ok r _ t' (rw asked at h) in
        let (item, same, i, is_given, passes) = evaluate_pre-next p cmd found t' inv k in
        inr (
          i,
          is_given,
          item,
          record { moment = t; fetched = fetch_work_item_data-eq p.id t item (got ∙ ap ok same) },
          passes,
        )
  ]
