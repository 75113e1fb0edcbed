-- ===== src/Audit/Handlers/Own.antt =====
-- The one update that a handler of src/ampa/audit/handlers.py makes for its item.
use ampa.Prelude.{
  ◌+◌, String, Bool, true, false, [], ◌∷◌, ◌++◌, Option, none, some, Result, ok, raise, ◌≡◌, refl,
  ◌∙◌, arith, count, count-append, ◌&&◌, str_eq, and_then, eq_refl, if◌then◌else◌, Bool-cases, inl,
  inr, and_then-eq-ok, traverse,
}
use ampa.Value.{Fields}
use ampa.Engine.Descriptor.{StateTuple, Command, get_command, resolve_state_ref}
use ampa.Engine.Records.{
  Event, counted, candidates_fetched, item_fetched, updated, commented, notified, dispatched,
  recorded, ran, review_asked,
}
use ampa.Engine.World.{Trace, Io, continue, pure}
use ampa.Engine.World.Silent.{Silent}
use ampa.Engine.Evaluator.{evaluate}
use ampa.Engine.Evaluator.Calls.{evaluate-Silent}
use ampa.Audit.Commands.{
  HandlerResult, Handlers, failure, accepts, check_from_state, get_work_item_id,
  get_work_item_state, no_transition_to,
}
use ampa.Audit.Handlers.{begin, confirm, check_pre, apply_transition}
use ampa.Audit.Handlers.Counted.{
  is_applied, is_applied-OnUpdates, OnUpdates, transitioned, once_if, Counted, Counted-pure,
  Counted-if, Counted-lift, Counted-bind, Ends,
}

abbrev is_id : Result String → String → Bool
is_id (raise e) id = false
is_id (ok own) id = str_eq own id

abbrev is_target : Result StateTuple → (status stage : String) → Bool
is_target (raise e) status stage = false
is_target (ok to) status stage = str_eq to.status status && str_eq to.stage stage

-- The state that the workflow gives to an item by the command.
abbrev pub target_of : Handlers → (command : String) → Result StateTuple
target_of h command =
    and_then (get_command h.descriptor command) (λ cmd. resolve_state_ref h.descriptor cmd.to)

-- The item's own update: it names the id of the item and the target state of the command, and was
-- reported as applied.
abbrev pub is_own : Handlers → (command : String) → Fields → Event → Bool
is_own h command item (updated id status stage assignee (ok applied)) =
    applied && (is_id (get_work_item_id item) id && is_target (target_of h command) status stage)
is_own h command item _ = false

-- The evaluator's queries make no update, whatever updates are looked for.
abbrev pub MakesNoUpdate : Handlers → Type 0
MakesNoUpdate h = (p : Event → Bool) → OnUpdates p → Silent p h.evaluator.querier

-- A reading of results that takes no failure for a change of the state.
abbrev pub Fails : (HandlerResult → Bool) → Type 0
Fails says = (r : HandlerResult) → r.success ≡ false → says r ≡ false

abbrev pub succeeded : HandlerResult → Bool
succeeded r = r.success

pub transitioned-Fails : Fails transitioned
transitioned-Fails r failed = ground (arith, failed)

pub succeeded-Fails : Fails succeeded
succeeded-Fails r failed = failed

module _ (h : Handlers) (command : String) (item : Fields) where
  -- A test that the item's own update passes, and none that was refused.
  pub record Fits (p : Event → Bool) : Type 0 where
    pub on_updates : OnUpdates p
    passes :
        (id : String) (cmd : Command) (to : StateTuple)
        → get_work_item_id item ≡ ok id
        → get_command h.descriptor command ≡ ok cmd
        → resolve_state_ref h.descriptor cmd.to ≡ ok to
        → p (updated id to.status to.stage none (ok true)) ≡ true
    refuses :
        (id : String) (to : StateTuple) → p (updated id to.status to.stage none (ok false)) ≡ false

  is_own-OnUpdates : OnUpdates (is_own h command item)
  is_own-OnUpdates (updated id status stage assignee answer) e = absurd (cc)
  is_own-OnUpdates counted e = refl
  is_own-OnUpdates candidates_fetched e = refl
  is_own-OnUpdates (item_fetched id) e = refl
  is_own-OnUpdates (commented id m) e = refl
  is_own-OnUpdates (notified m t l) e = refl
  is_own-OnUpdates (dispatched c id) e = refl
  is_own-OnUpdates (recorded r) e = refl
  is_own-OnUpdates (ran c a) e = refl
  is_own-OnUpdates (review_asked n id) e = refl

  pub applied-Fits : Fits is_applied
  applied-Fits = record {
    on_updates = is_applied-OnUpdates;
    passes = λ id cmd to _ _ _. refl;
    refuses = λ id to. refl;
  }

  pub own-Fits : Fits (is_own h command item)
  own-Fits = record {
    on_updates = is_own-OnUpdates;
    passes = λ id cmd to has_id defined target.
        rw (has_id, defined)
          (rw target (rw (eq_refl id, eq_refl to.status, eq_refl to.stage) refl));
    refuses = λ id to. refl;
  }

  refused-fails :
      (id : String) (current : StateTuple) (r : HandlerResult)
      → check_from_state h.descriptor command id current ≡ ok (some r)
      → r.success ≡ false
  unfolding check_from_state
  refused-fails id current r e =
      let (cmd, k, _) = and_then-eq-ok _ (get_command h.descriptor command) e in
      let (valid, l, _) =
        and_then-eq-ok _ (traverse (resolve_state_ref h.descriptor) cmd.from_states) k in
      elim (Bool-cases (accepts current valid)) [
        | inl good ↦ absurd (cc (rw good at l))
        | inr bad ↦ ground (arith, rw bad at l)
      ]

  module _ (p : Event → Bool) (fits : Fits p) (says : HandlerResult → Bool)
      (fails : Fails says) where
    pub begin-Counted :
        (go_on : String → Io HandlerResult)
        → ((id : String) → get_work_item_id item ≡ ok id → Counted p says (go_on id))
        → Counted p says (begin h command item go_on)
    unfolding begin confirm
    begin-Counted go_on c = Counted-lift p says (get_work_item_id item) _ (λ id has_id.
        Counted-if p says _ _ _ (Counted-pure p says _ (fails _ refl)) (
          Counted-lift p says (get_work_item_state item) _ (λ current _.
            Counted-lift p says (check_from_state h.descriptor command id current) _
              (λ o e. confirmed id current has_id o e))))
      where
        confirmed :
            (id : String) (current : StateTuple)
            → get_work_item_id item ≡ ok id
            → (o : Option HandlerResult) → check_from_state h.descriptor command id current ≡ ok o
            → Counted p says (confirm h command id o (go_on id))
        confirmed id current has_id none e = c id has_id
        confirmed id current has_id (some r) e =
            Counted-pure p says r (fails r (refused-fails id current r e))

    -- The one update, by its answer.
    after_update :
        (answer : Result Bool) (id : String) (to : StateTuple) (t : Trace)
        (go_on : Io HandlerResult) (refused r : HandlerResult)
        → p (updated id to.status to.stage none (ok true)) ≡ true
        → Ends p says go_on
        → says refused ≡ false
        → (continue answer
            (λ update_ok. if update_ok then go_on else pure refused)
            (t ++ updated id to.status to.stage none answer ∷ [])).0
          ≡ ok r
        → count p
            (continue answer
              (λ update_ok. if update_ok then go_on else pure refused)
              (t ++ updated id to.status to.stage none answer ∷ [])).1
          ≡ once_if (says r) + count p t
    after_update (ok true) id to t go_on refused r own ends fails e =
        let t' = t ++ updated id to.status to.stage none (ok true) ∷ [] in
        ends.silent.at t'
        ∙ count-append p t (updated id to.status to.stage none (ok true) ∷ [])
        ∙ ground (arith, ends.reports t' r e, own)
    after_update (ok false) id to t go_on refused r own ends fails e =
        count-append p t (updated id to.status to.stage none (ok false) ∷ [])
        ∙ ground (arith, fails, fits.refuses id to)
    after_update (raise x) id to t go_on refused r own ends fails e = absurd (cc)

    pub apply_transition-Counted :
        (id : String) (cmd : Command) (go_on : Io HandlerResult)
        → get_work_item_id item ≡ ok id
        → get_command h.descriptor command ≡ ok cmd
        → Ends p says go_on
        → Counted p says (apply_transition h command id cmd go_on)
    unfolding apply_transition
    apply_transition-Counted id cmd go_on has_id defined ends =
        Counted-lift p says (resolve_state_ref h.descriptor cmd.to) _ (λ to target. record {
          at = λ t r e.
              after_update (h.services.update t id to.status to.stage none) id to t go_on
                (failure "state_transition_failed" command id (no_transition_to to)) r
                (fits.passes id cmd to has_id defined target) ends (fails _ refl) e;
        })

    module _ (quiet : Silent p h.evaluator.querier) where
      -- `work_item` is the item, or what a later fetch gave for it.
      pub check_pre-Counted :
          (id : String) (work_item : Fields) (go_on : Command → Io HandlerResult)
          → ((cmd : Command)
              → get_command h.descriptor command ≡ ok cmd
              → Counted p says (go_on cmd))
          → Counted p says (check_pre h command id work_item go_on)
      unfolding check_pre
      check_pre-Counted id work_item go_on c =
          Counted-lift p says (get_command h.descriptor command) _ (λ cmd defined.
            Counted-if p says _ _ _ (c cmd defined) (
              Counted-bind p says (evaluate h.evaluator cmd.pre work_item true) _
                (evaluate-Silent h.evaluator quiet true cmd.pre work_item)
                (λ inv.
                  Counted-if p says _ _ _ (c cmd defined) (Counted-pure p says _ (fails _ refl)))))
