-- ===== src/Engine/Examples.antt =====
-- The properties of the engine's parts at the sample data.
use ampa.Prelude.{true, false, [], ◌∷◌, ok, ◌≡◌, refl, ℤ, any, keep, inl, arith, nonempty, lookup}
use ampa.Text.{join, split, strip, lower}
use ampa.Value.{str_of, get_default}
use ampa.Engine.Sample.{
  idea, intake, delegate, workflow, item, held_item, services, no_re, evaluator, engine,
}
use ampa.Engine.Descriptor.{commands_for_state, Command, resolve_alias, resolve_state_ref}
use ampa.Engine.Descriptor.Queries.{refers_to, commands_for_state-eq-keep}
use ampa.Engine.Expressions.{extract_work_item_fields}
use ampa.Engine.Records.{InvariantResult, CandidateResult, no_logic}
use ampa.Engine.World.{pure}
use ampa.Engine.Candidates.{
  select, rejection, is_do_not_delegate, is_in_valid_from_state, to_candidate,
}
use ampa.Engine.Candidates.Select.{expected, select-expected, select_guards}
use ampa.Engine.Invariants.{split_and_expression, evaluate_logic}
use ampa.Engine.Invariants.Split.{join-split}
use ampa.Engine.Invariants.Logic.{evaluate_logic-fuel}
use ampa.Engine.Evaluator.{evaluate, evaluate_loop, evaluate_name, null_querier}
use ampa.Engine.Evaluator.Results.{names_of, evaluate_all_named}

select-expected_example :
    (select (services (ℤ.pos 0)) engine.selector []).0
    ≡ ok (expected (intake ∷ idea ∷ []) (ok (ℤ.pos 0)) (ok (held_item ∷ item ∷ [])))
select-expected_example = select-expected (services (ℤ.pos 0)) engine.selector []

abbrev chosen : CandidateResult
chosen = expected (intake ∷ idea ∷ []) (ok (ℤ.pos 0)) (ok (held_item ∷ item ∷ []))

select_guards_example :
    (nonempty (to_candidate item).id ≡ true)
    × (is_do_not_delegate (to_candidate item) ≡ false)
    × (is_in_valid_from_state (to_candidate item) (intake ∷ idea ∷ []) ≡ true)
unfolding rejection to_candidate str_of get_default is_do_not_delegate split strip lower
    is_in_valid_from_state
select_guards_example =
    select_guards (services (ℤ.pos 0)) engine.selector [] chosen
      (select-expected (services (ℤ.pos 0)) engine.selector []) (to_candidate item) refl

join-split_example :
    join " and " (split_and_expression "\"a and b\" in tags and length(title) > 3")
    ≡ "\"a and b\" in tags and length(title) > 3"
join-split_example = join-split "\"a and b\" in tags and length(title) > 3"

evaluate_logic-fuel_example :
    evaluate_logic no_re null_querier item (pure (true, no_logic)) 30 "a and b"
    ≡ evaluate_logic no_re null_querier item (pure (false, no_logic)) 8 "a and b"
evaluate_logic-fuel_example =
    evaluate_logic-fuel no_re null_querier item (pure (true, no_logic)) (pure (false, no_logic)) 30
      8 "a and b" (omega arith) (omega arith)

abbrev verdict : InvariantResult
verdict = record {
  passed = true;
  results = record { name = "has_title"; passed = true; reason = no_logic } ∷ [];
}

evaluated : (evaluate evaluator ("has_title" ∷ []) item true []).0 ≡ ok verdict
unfolding evaluate evaluate_loop evaluate_name evaluate_logic extract_work_item_fields get_default
    lookup
evaluated = refl

evaluate_all_named_example : names_of verdict.results ≡ "has_title" ∷ []
evaluate_all_named_example =
    evaluate_all_named evaluator ("has_title" ∷ []) item true [] verdict evaluated (inl refl)

commands_for_state-eq-keep_example :
    commands_for_state workflow "open" "idea"
    ≡ ok (keep (λ (c : Command). any (refers_to workflow idea) c.from_states) (delegate ∷ []))
unfolding resolve_state_ref resolve_alias lookup
commands_for_state-eq-keep_example =
    commands_for_state-eq-keep workflow "open" "idea" (((intake, refl, (idea, refl, tt))), tt)
