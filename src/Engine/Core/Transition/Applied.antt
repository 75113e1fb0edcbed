-- ===== src/Engine/Core/Transition/Applied.antt =====
-- What a transition that reports success has done.
use ampa.Prelude.{
  ℕ, String, true, false, List, [], ◌∷◌, ◌++◌, Option, none, some, Result, ok, raise, ◌≡◌, refl,
  ◌∙◌, sym, ap, arith, Bool-cases, ◌⊎◌, inl, inr, subst, is_empty,
}
use ampa.Value.{Value, Fields, null, bool, int, number, str, list, dict, get_default, str_of}
use ampa.Engine.Descriptor.{StateTuple, Command, resolve_state_ref}
use ampa.Engine.Records.{InvariantResult, Event, updated}
use ampa.Engine.World.{Trace, continue-eq-ok, ◌>>=◌, lift}
use ampa.Engine.Evaluator.{evaluate}
use ampa.Engine.Evaluator.Results.{Passes, evaluate-Passes}
use ampa.Engine.Core.Flow.{
  success, EngineResult, Engine, next, resume-eq-next, resume-next, flow_value,
}
use ampa.Engine.Core.Delegation.{update_twice, fetch_work_item_data}
use ampa.Engine.Core.Delegation.Exits.{ExitsFailing, ExitsFailing-▹}
use ampa.Engine.Core.Delegation.Guards.{fetch_work_item_data-eq}
use ampa.Engine.Core.Delegation.Success.{flow_success, value_calls}
use ampa.Engine.Core.Delegation.Updates.{update_twice-ok}
use ampa.Engine.Core.Transition.{
  find_transition_command, state_of_item, use_item, use_command, find_command, refuse, check_post,
  apply, transition_body, process_transition,
}

module _ (self : Engine) (id target_stage : String) where
  -- The whole of a successful transition, with the trace before its update.
  pub record Applied (t t' : Trace) (r : EngineResult) : Type 0 where
    pub item : Fields
    pub fetched : self.services.fetch t id ≡ ok (some item)
    pub wi : Fields
    pub inner : get_default item "workItem" (dict item) ≡ dict wi
    pub current : StateTuple
    pub state : current ≡ record {
      status = str_of (get_default wi "status" (str ""));
      stage = str_of (get_default wi "stage" (str ""));
    }
    pub command : Command
    pub found : find_transition_command self.descriptor current target_stage ≡ ok (some command)
    pub post_passed :
        (is_empty command.post ≡ true)
        ⊎ (i : InvariantResult) × (r.invariant_result ≡ some i)
          × Passes self.evaluator command.post item i
    pub to : StateTuple
    pub target : resolve_state_ref self.descriptor command.to ≡ ok to
    pub start : Trace
    pub failed : List Event
    pub attempts : (failed ≡ []) ⊎ (failed ≡ updated id to.status to.stage none (ok false) ∷ [])
    pub calls : t' ≡ start ++ (failed ++ updated id to.status to.stage none (ok true) ∷ [])

module _ (self : Engine) (ts : ℕ) (id target_stage : String) where
  state_of_item-eq :
      (v : Value) (current : StateTuple)
      → state_of_item v ≡ ok current
      → (wi : Fields) × (v ≡ dict wi)
        × (current ≡ record {
          status = str_of (get_default wi "status" (str ""));
          stage = str_of (get_default wi "stage" (str ""));
        })
  state_of_item-eq (dict wi) current h = (wi, refl, cc)
  state_of_item-eq null current h = absurd (cc)
  state_of_item-eq (bool x) current h = absurd (cc)
  state_of_item-eq (int x) current h = absurd (cc)
  state_of_item-eq (number x) current h = absurd (cc)
  state_of_item-eq (str x) current h = absurd (cc)
  state_of_item-eq (list x) current h = absurd (cc)

  use_item-next :
      (answer : Option Fields) (t : Trace) (item : Fields × StateTuple)
      → (use_item self ts id target_stage answer t).0 ≡ ok (next item)
      → (answer ≡ some item.0)
        × (wi : Fields) × (get_default item.0 "workItem" (dict item.0) ≡ dict wi)
        × (item.1 ≡ record {
          status = str_of (get_default wi "status" (str ""));
          stage = str_of (get_default wi "stage" (str ""));
        })
  unfolding use_item
  use_item-next none t item h = absurd (ground arith)
  use_item-next (some data_) t item h =
      let (current, e, k) =
        continue-eq-ok (state_of_item (get_default data_ "workItem" (dict data_))) _ t h in
      let same : (data_, current) ≡ item = ground (arith, k) in
      subst
        (λ (i : Fields × StateTuple).
          (some data_ ≡ some i.0)
          × (wi : Fields) × (get_default i.0 "workItem" (dict i.0) ≡ dict wi)
          × (i.1 ≡ record {
            status = str_of (get_default wi "status" (str ""));
            stage = str_of (get_default wi "stage" (str ""));
          }))
        same
        (let (wi, inner, state) =
            state_of_item-eq (get_default data_ "workItem" (dict data_)) current e in
          (refl, wi, inner, state))

  find_command-next :
      (current : StateTuple) (t : Trace) (cmd : Command)
      → (find_command self ts id target_stage current t).0 ≡ ok (next cmd)
      → find_transition_command self.descriptor current target_stage ≡ ok (some cmd)
  unfolding find_command use_command
  find_command-next current t cmd h =
      go (find_transition_command self.descriptor current target_stage) h
    where
      go :
          (r : Result (Option Command))
          → ((lift r >>= λ found. use_command self ts id target_stage current found) t).0
            ≡ ok (next cmd)
          → r ≡ ok (some cmd)
      go (ok none) k = absurd (ground arith)
      go (ok (some c)) k = ground arith
      go (raise e) k = absurd (ground arith)

  check_post-next :
      (item : Fields) (cmd : Command) (t : Trace) (inv : Option InvariantResult)
      → (check_post self ts id target_stage item cmd t).0 ≡ ok (next inv)
      → (is_empty cmd.post ≡ true)
        ⊎ (i : InvariantResult) × (inv ≡ some i) × Passes self.evaluator cmd.post item i
  unfolding check_post refuse
  check_post-next item cmd t inv h = elim (Bool-cases (is_empty cmd.post)) [
    | inl none_asked ↦ inl none_asked
    | inr asked ↦
        let (r, t') = evaluate self.evaluator cmd.post item false t in
        let (i, e, k) = continue-eq-ok r _ t' (rw asked at h) in
        elim (Bool-cases i.passed) [
          | inl passed ↦
              inr (i, ground arith, evaluate-Passes self.evaluator cmd.post item t i e passed)
          | inr failed ↦ absurd (ground arith)
        ]
  ]

  -- The two attempts of the update, by their answers.
  apply-next :
      (cmd : Command) (inv : Option InvariantResult) (t : Trace) (r : EngineResult)
      → (apply self ts id target_stage cmd inv t).0 ≡ ok (next r)
      → (r.invariant_result ≡ inv)
        × (to : StateTuple) × (resolve_state_ref self.descriptor cmd.to ≡ ok to)
        × (failed : List Event) × ((failed ≡ [])
            ⊎ (failed ≡ updated id to.status to.stage none (ok false) ∷ []))
        × ((apply self ts id target_stage cmd inv t).1
            ≡ t ++ (failed ++ updated id to.status to.stage none (ok true) ∷ []))
  unfolding apply
  apply-next cmd inv t r h =
      let (to, e, k) = continue-eq-ok (resolve_state_ref self.descriptor cmd.to) _ t h in
      let (answer, t') = update_twice self ts id to none t in
      let (applied, f, l) = continue-eq-ok answer _ t' k in
      elim (Bool-cases applied) [
        | inl yes_ ↦
            let (failed, attempts, calls) = update_twice-ok self ts id to none t (f ∙ ap ok yes_) in
            (ground (arith, l), to, e, failed, attempts, rw (e, f, yes_) calls)
        | inr no_ ↦ absurd (ground (arith, l))
      ]

  body-Applied :
      (t : Trace) (r : EngineResult)
      → (transition_body self ts id target_stage t).0 ≡ ok (next r)
      → Applied self id target_stage t (transition_body self ts id target_stage t).1 r
  unfolding transition_body
  body-Applied t r h =
      let (o₁, t₁) =
        (fetch_work_item_data self.services id >>= λ found. use_item self ts id target_stage found)
          t in
      let (item, e₁, k₁) = resume-eq-next o₁ _ t₁ h in
      let (o₂, t₂) = find_command self ts id target_stage item.1 t₁ in
      let (cmd, e₂, k₂) = resume-eq-next o₂ _ t₂ k₁ in
      let (o₃, t₃) = check_post self ts id target_stage item.0 cmd t₂ in
      let (inv, e₃, k₃) = resume-eq-next o₃ _ t₃ k₂ in
      let (kept, to, target, failed, attempts, calls) = apply-next cmd inv t₃ r k₃ in
      let (answer, found, got) =
        continue-eq-ok (fetch_work_item_data self.services id t).0 _ _ e₁ in
      let (same, wi, inner, state) = use_item-next answer _ item got in
      record {
        item = item.0;
        fetched = fetch_work_item_data-eq self ts id t item.0 (found ∙ ap ok same);
        wi = wi;
        inner = inner;
        state = state;
        current = item.1;
        command = cmd;
        found = find_command-next item.1 t₁ cmd e₂;
        post_passed = elim (check_post-next item.0 cmd t₂ inv e₃) [
          | inl none_asked ↦ inl none_asked
          | inr (i, is_given, passes) ↦ inr (i, kept ∙ is_given, passes)
        ];
        to = to;
        target = target;
        start = t₃;
        failed = failed;
        attempts = attempts;
        calls =
            resume-next o₁ _ t₁ item e₁
            ∙ resume-next o₂ _ t₂ cmd e₂
            ∙ resume-next o₃ _ t₃ inv e₃
            ∙ calls;
      }

  item-ExitsFailing :
      ExitsFailing
        (fetch_work_item_data self.services id >>= λ found. use_item self ts id target_stage found)
  unfolding use_item
  item-ExitsFailing t e h = ground arith

  find_command-ExitsFailing :
      (current : StateTuple) → ExitsFailing (find_command self ts id target_stage current)
  unfolding find_command use_command
  find_command-ExitsFailing current t e h = ground arith

  check_post-ExitsFailing :
      (item : Fields) (cmd : Command) → ExitsFailing (check_post self ts id target_stage item cmd)
  unfolding check_post refuse
  check_post-ExitsFailing item cmd t e h = ground arith

  apply-ExitsFailing :
      (cmd : Command) (inv : Option InvariantResult)
      → ExitsFailing (apply self ts id target_stage cmd inv)
  unfolding apply update_twice
  apply-ExitsFailing cmd inv t e h = ground arith

  body-ExitsFailing : ExitsFailing (transition_body self ts id target_stage)
  unfolding transition_body
  body-ExitsFailing = ExitsFailing-▹ _ _ item-ExitsFailing (λ item.
      ExitsFailing-▹ _ _ (find_command-ExitsFailing item.1) (λ cmd.
        ExitsFailing-▹ _ _ (check_post-ExitsFailing item.0 cmd)
          (λ inv. apply-ExitsFailing cmd inv)))

-- A transition that reports success found a command that leads to the requested stage from the
-- state that the fetched item has (under `workItem`, where that key is there), had every
-- post-invariant that the command names pass on that item, and ended with these
-- calls: at most one failed update, and the update to the command's target state.
pub process_transition_success :
    (self : Engine) (id target_stage : String) (t : Trace) (r : EngineResult)
    → (process_transition self id target_stage t).0 ≡ ok r
    → r.status ≡ success
    → Applied self id target_stage t (process_transition self id target_stage t).1 r
unfolding process_transition
process_transition_success self id target_stage t r h s =
    let ts = self.services.clock t in
    let (o, t') = transition_body self ts id target_stage t in
    let (f, e, k) = continue-eq-ok o _ t' h in
    let value : flow_value f ≡ r = cc in
    let n =
      flow_success f r (λ x q. body-ExitsFailing self ts id target_stage t x (e ∙ ap ok q)) value
        s in
    subst (λ w. Applied self id target_stage t w r) (sym (value_calls o t'))
      (body-Applied self ts id target_stage t r (e ∙ ap ok n))
