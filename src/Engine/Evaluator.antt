-- ===== src/Engine/Evaluator.antt =====
-- The class InvariantEvaluator of src/ampa/engine/invariants.py. The proofs are below.
pub mod Results
pub mod Calls
use ampa.Prelude.{
  external, suc, String, Bool, true, false, List, [], ◌∷◌, ◌++◌, Option, none, some, Result, raise,
  key_error, if◌then◌else◌, Dict, lookup, ℤ,
}
use ampa.Text.{str_len}
use ampa.Value.{Fields}
use ampa.Engine.Descriptor.{Invariant, index_from}
use ampa.Engine.Records.{SingleInvariantResult, InvariantResult}
use ampa.Engine.World.{Re, Io, ◌>>=◌, pure, lift}
use ampa.Engine.Expressions.{extract_work_item_fields}
use ampa.Engine.Invariants.{Answer, evaluate_logic}

-- The object: the definitions by name, and the external queries.
pub record InvariantEvaluator : Type 0 where
  pub index : Dict Invariant
  pub re : Re
  pub querier : Io ℤ

-- `NullQuerier`
abbrev pub null_querier : Io ℤ
null_querier = pure (ℤ.pos 0)

unfoldable pub new_evaluator : Re → List Invariant → Option (Io ℤ) → InvariantEvaluator
new_evaluator re invariants querier = record {
  index = index_from [] invariants;
  re = re;
  querier = elim querier [ none ↦ null_querier | some q ↦ q ];
}

abbrev pub single : String → Answer → SingleInvariantResult
single name answer = record { name = name; passed = answer.0; reason = answer.1 }

-- The end of the fuel, which an evaluation does not come to.
abbrev pub no_answer : Io Answer
no_answer = lift (raise (external "recursion limit"))

module _ (ev : InvariantEvaluator) (fail_fast : Bool) (fields : Fields) where
  -- The evaluation of one name.
  unfoldable pub evaluate_name : String → Io Answer
  evaluate_name name = elim (lookup name ev.index) [
    | none ↦ lift (raise (key_error name))
    | some inv ↦
        evaluate_logic ev.re ev.querier fields no_answer (suc (str_len inv.logic)) inv.logic
  ]

  -- The loop of `evaluate`, with its two variables.
  unfoldable pub evaluate_loop :
      List String → List SingleInvariantResult → (all_passed : Bool) → Io InvariantResult
  evaluate_loop [] results all_passed = pure (record { passed = all_passed; results = results })
  evaluate_loop (name ∷ names) results all_passed = evaluate_name name >>= λ answer.
      let results' = results ++ single name answer ∷ [] in
      let go_on = evaluate_loop names results' all_passed in
      let failed = evaluate_loop names results' false in
      if answer.0
      then go_on
      else if fail_fast
      then pure (record { passed = false; results = results' })
      else failed

unfoldable pub evaluate : InvariantEvaluator → List String → Fields → Bool → Io InvariantResult
unfolding evaluate_loop
evaluate ev names work_item fail_fast = lift (extract_work_item_fields work_item) >>= λ fields.
    evaluate_loop ev fail_fast fields names [] true
