-- ===== src/Engine/Evaluator/Calls.antt =====
-- What an evaluation calls.
use ampa.Prelude.{suc, String, Bool, true, false, List, [], ◌∷◌, lookup}
use ampa.Text.{str_len}
use ampa.Value.{Fields}
use ampa.Engine.Records.{Event, SingleInvariantResult}
use ampa.Engine.World.{lift}
use ampa.Engine.World.Silent.{
  Silent, Silent-pure, Silent-lift, Silent-if, Silent-option, Silent-bind,
}
use ampa.Engine.Expressions.{extract_work_item_fields}
use ampa.Engine.Invariants.Logic.{evaluate_logic-Silent}
use ampa.Engine.Evaluator.{no_answer, InvariantEvaluator, evaluate_name, evaluate_loop, evaluate}

module _ {p : Event → Bool} (ev : InvariantEvaluator) (quiet : Silent p ev.querier)
    (fail_fast : Bool) where
  evaluate_name-Silent :
      (fields : Fields) (name : String) → Silent p (evaluate_name ev fail_fast fields name)
  unfolding evaluate_name
  evaluate_name-Silent fields name =
      Silent-option (lookup name ev.index) _ _ (Silent-lift _) (λ inv.
        evaluate_logic-Silent ev.re ev.querier fields quiet no_answer (Silent-lift _)
          (suc (str_len inv.logic)) inv.logic)

  evaluate_loop-Silent :
      (fields : Fields) (names : List String) (results : List SingleInvariantResult) (passed : Bool)
      → Silent p (evaluate_loop ev fail_fast fields names results passed)
  unfolding evaluate_loop
  evaluate_loop-Silent fields [] results passed = Silent-pure _
  evaluate_loop-Silent fields (name ∷ names) results passed =
      Silent-bind _ _ (evaluate_name-Silent fields name) (λ answer.
        Silent-if answer.0 _ _ (evaluate_loop-Silent fields names _ passed)
          (Silent-if fail_fast _ _ (Silent-pure _) (evaluate_loop-Silent fields names _ false)))

  -- `evaluate` makes no call that the querier does not make.
  pub evaluate-Silent :
      (names : List String) (work_item : Fields) → Silent p (evaluate ev names work_item fail_fast)
  unfolding evaluate
  evaluate-Silent names work_item =
      Silent-bind (lift (extract_work_item_fields work_item)) _ (Silent-lift _)
        (λ fields. evaluate_loop-Silent fields names [] true)
