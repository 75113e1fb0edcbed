-- ===== src/Audit/Handlers/Guards.antt =====
-- What holds where a command of the audit has changed the state of its item.
use ampa.Prelude.{
  String, Bool, true, false, List, Option, none, some, ok, ◌≡◌, refl, arith, if◌then◌else◌,
  Bool-cases, inl, inr, ◌⊎◌, is_empty, nonempty, and_then-eq-ok, traverse,
}
use ampa.Value.{Fields}
use ampa.Engine.Descriptor.{StateTuple, Command, get_command, resolve_state_ref}
use ampa.Engine.Records.{InvariantResult}
use ampa.Engine.World.{Trace, Io, continue-eq-ok}
use ampa.Engine.Evaluator.{evaluate}
use ampa.Audit.Commands.{
  HandlerResult, Handlers, accepts, check_from_state, get_work_item_id, get_work_item_state,
  failure, in_state,
}
use ampa.Audit.Handlers.{begin, confirm, check_pre, apply_transition}
use ampa.Audit.Handlers.Counted.{transitioned}

module _ (h : Handlers) (command : String) where
  -- The item has an id, and its state is one that the command may start from.
  pub record Admitted (item : Fields) (id : String) : Type 0 where
    pub has_id : get_work_item_id item ≡ ok id
    pub named : nonempty id ≡ true
    pub current : StateTuple
    pub state : get_work_item_state item ≡ ok current
    pub definition : Command
    pub defined : get_command h.descriptor command ≡ ok definition
    pub valid : List StateTuple
    pub resolved : traverse (resolve_state_ref h.descriptor) definition.from_states ≡ ok valid
    pub accepted : accepts current valid ≡ true

  -- `_check_from_state` refuses an item exactly when its state is not accepted.
  check_from_state-eq :
      (id : String) (current : StateTuple) (o : Option HandlerResult)
      → check_from_state h.descriptor command id current ≡ ok o
      → (cmd : Command) × (get_command h.descriptor command ≡ ok cmd)
        × (valid : List StateTuple) × (traverse (resolve_state_ref h.descriptor) cmd.from_states
            ≡ ok valid)
        × (o ≡ (
            if accepts current valid
            then none
            else some (failure "invalid_from_state" command id (in_state current valid))))
  unfolding check_from_state
  check_from_state-eq id current o e =
      let (cmd, k, defined) = and_then-eq-ok _ (get_command h.descriptor command) e in
      let (valid, l, resolved) =
        and_then-eq-ok _ (traverse (resolve_state_ref h.descriptor) cmd.from_states) k in
      (cmd, defined, valid, resolved, cc)

  confirm-accepted :
      (b : Bool) (o : Option HandlerResult) (refused r : HandlerResult) (id : String)
      (go_on : Io HandlerResult) (t : Trace)
      → o ≡ (if b then none else some refused)
      → transitioned refused ≡ false
      → (confirm h command id o go_on t).0 ≡ ok r
      → transitioned r ≡ true
      → (b ≡ true) × ((go_on t).0 ≡ ok r)
  unfolding confirm
  confirm-accepted true none refused r id go_on t s f e done = (refl, e)
  confirm-accepted true (some x) refused r id go_on t s f e done = absurd (cc)
  confirm-accepted false none refused r id go_on t s f e done = absurd (cc)
  confirm-accepted false (some x) refused r id go_on t s f e done = absurd (ground arith)

  pub begin-Admitted :
      (item : Fields) (go_on : String → Io HandlerResult) (t : Trace) (r : HandlerResult)
      → (begin h command item go_on t).0 ≡ ok r
      → transitioned r ≡ true
      → (id : String) × Admitted item id × ((go_on id t).0 ≡ ok r)
  unfolding begin
  begin-Admitted item go_on t r e done =
      let (id, has_id, k) = continue-eq-ok (get_work_item_id item) _ t e in
      elim (Bool-cases (nonempty id)) [
        | inr unnamed ↦ absurd (ground (arith, rw unnamed at k, done))
        | inl named ↦
            let (current, state, l) =
              continue-eq-ok (get_work_item_state item) _ t (rw named at k) in
            let (refused, checked, m) =
              continue-eq-ok (check_from_state h.descriptor command id current) _ t l in
            let (cmd, defined, valid, resolved, same) =
              check_from_state-eq id current refused checked in
            let (accepted, rest) =
              confirm-accepted (accepts current valid) refused _ r id (go_on id) t same refl m
                done in
            (
              id,
              record {
                has_id = has_id;
                named = named;
                current = current;
                state = state;
                definition = cmd;
                defined = defined;
                valid = valid;
                resolved = resolved;
                accepted = accepted;
              },
              rest,
            )
      ]

  -- The pre-invariants of the command hold on the item, if it has any.
  pub record PrePassed (item : Fields) (cmd : Command) : Type 0 where
    pub defined : get_command h.descriptor command ≡ ok cmd
    pub passed :
        (is_empty cmd.pre ≡ true)
        ⊎ (before : Trace) × (i : InvariantResult) × ((evaluate h.evaluator cmd.pre item true
              before).0
            ≡ ok i)
          × (i.passed ≡ true)

  pub check_pre-PrePassed :
      (id : String) (item : Fields) (go_on : Command → Io HandlerResult) (t : Trace)
      (r : HandlerResult)
      → (check_pre h command id item go_on t).0 ≡ ok r
      → transitioned r ≡ true
      → (cmd : Command) × PrePassed item cmd × (t' : Trace) × ((go_on cmd t').0 ≡ ok r)
  unfolding check_pre
  check_pre-PrePassed id item go_on t r e done =
      let (cmd, defined, k) = continue-eq-ok (get_command h.descriptor command) _ t e in
      elim (Bool-cases (is_empty cmd.pre)) [
        | inl no_pre ↦ (cmd, record { defined = defined; passed = inl no_pre }, t, rw no_pre at k)
        | inr has_pre ↦
            let (o, t') = evaluate h.evaluator cmd.pre item true t in
            let (i, evaluated, l) = continue-eq-ok o _ t' (rw has_pre at k) in
            elim (Bool-cases i.passed) [
              | inl good ↦ (
                cmd,
                record { defined = defined; passed = inr (t, i, evaluated, good) },
                t',
                rw good at l,
              )
              | inr bad ↦ absurd (ground (arith, rw bad at l, done))
            ]
      ]

  -- The update to the target state of the command, which the updater reported as applied.
  pub record Moved (id : String) (cmd : Command) : Type 0 where
    pub to : StateTuple
    pub target : resolve_state_ref h.descriptor cmd.to ≡ ok to
    pub before : Trace
    pub answer : h.services.update before id to.status to.stage none ≡ ok true

  pub apply_transition-Moved :
      (id : String) (cmd : Command) (go_on : Io HandlerResult) (t : Trace) (r : HandlerResult)
      → (apply_transition h command id cmd go_on t).0 ≡ ok r
      → transitioned r ≡ true
      → Moved id cmd
  unfolding apply_transition
  apply_transition-Moved id cmd go_on t r e done =
      let (to, target, k) = continue-eq-ok (resolve_state_ref h.descriptor cmd.to) _ t e in
      let (update_ok, answer, l) =
        continue-eq-ok (h.services.update t id to.status to.stage none) _ _ k in
      elim (Bool-cases update_ok) [
        | inl good ↦ record { to = to; target = target; before = t; answer = ground arith }
        | inr bad ↦ absurd (ground (arith, rw bad at l, done))
      ]
