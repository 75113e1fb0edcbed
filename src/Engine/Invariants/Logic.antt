-- ===== src/Engine/Invariants/Logic.antt =====
-- When the evaluation of an expression ends, and how compound expressions are decided.
use ampa.Prelude.{
  ℕ, zero, suc, ◌≤◌, ◌<◌, String, Bool, true, not, List, [], ◌∷◌, ◌≡◌, refl, ap, arith, ℤ,
  if◌then◌else◌, nonempty,
}
use ampa.Text.{str_len, strip, str_len-strip_le}
use ampa.Value.{Fields}
use ampa.Engine.Records.{no_logic, Event}
use ampa.Engine.World.Silent.{
  Silent, Silent-pure, Silent-lift, Silent-if, Silent-option, Silent-bind,
}
use ampa.Engine.World.{Re, Io, pure, lift}
use ampa.Engine.Expressions.{eval_not_in_tags}
use ampa.Engine.Invariants.{
  Answer, groups1, groups2, groups3, re_length, re_regex, re_stage_in, re_not_in_tags, re_count,
  count_step, tags_step, stage_step, regex_step, split_and_expression, all_parts, evaluate_atom,
  if_compound, evaluate_logic,
}
use ampa.Engine.Invariants.Split.{total, total-split-le}

-- The parts are shorter than a bound.
abbrev Below : ℕ → List String → Type 0
Below n [] = Unit
Below n (p ∷ ps) = (str_len p < n) × Below n ps

total-Below : (n : ℕ) (ps : List String) → total ps ≤ n → Below n ps
total-Below n [] h = tt
total-Below n (p ∷ ps) h = (omega arith, total-Below n ps (omega arith))

Below-of_two :
    (n : ℕ) (p q : String) (ps : List String) → total (p ∷ q ∷ ps) ≤ suc n → Below n (p ∷ q ∷ ps)
Below-of_two n p q ps h = (omega arith, total-Below n (q ∷ ps) (omega arith))

module _ (re : Re) (querier : Io ℤ) (fields : Fields) where
  all_parts-cong :
      (n : ℕ) (f g : String → Io Answer)
      → ((s : String) → str_len s < n → f s ≡ g s)
      → (ps : List String) → Below n ps
      → all_parts re querier fields f ps ≡ all_parts re querier fields g ps
  unfolding all_parts
  all_parts-cong n f g h [] b = refl
  all_parts-cong n f g h (p ∷ ps) (p<n, b) =
      rw (h (strip p) (omega (arith, str_len-strip_le p))) (rw (all_parts-cong n f g h ps b))

  -- An evaluation with more fuel than the expression has characters does not run out of it: its
  -- outcome is the same whatever is to happen at the end of the fuel, and for all such amounts.
  pub evaluate_logic-fuel :
      (stop other : Io Answer) (m n : ℕ) (logic : String)
      → str_len logic < m
      → str_len logic < n
      → evaluate_logic re querier fields stop m logic
        ≡ evaluate_logic re querier fields other n logic
  unfolding evaluate_logic
  evaluate_logic-fuel stop other zero n logic h k = absurd (omega arith)
  evaluate_logic-fuel stop other (suc m) zero logic h k = absurd (omega arith)
  evaluate_logic-fuel stop other (suc m) (suc n) logic h k =
      parts (split_and_expression logic) (total-split-le logic) (
        all_parts-cong (str_len logic) (evaluate_logic re querier fields stop m)
          (evaluate_logic re querier fields other n)
          (λ s l. evaluate_logic-fuel stop other m n s (omega arith) (omega arith)))
    where
      parts :
          (ps : List String)
          → total ps ≤ suc (str_len logic)
          → ((qs : List String)
              → Below (str_len logic) qs
              → all_parts re querier fields (evaluate_logic re querier fields stop m) qs
                ≡ all_parts re querier fields (evaluate_logic re querier fields other n) qs)
          → (if not (nonempty logic)
              then pure (true, no_logic)
              else if_compound ps
                  (all_parts re querier fields (evaluate_logic re querier fields stop m) ps)
                  (evaluate_atom re querier fields (strip logic)))
            ≡ (if not (nonempty logic)
                then pure (true, no_logic)
                else if_compound ps
                    (all_parts re querier fields (evaluate_logic re querier fields other n) ps)
                    (evaluate_atom re querier fields (strip logic)))
      parts [] h ih = refl
      parts (p ∷ []) h ih = refl
      parts (p ∷ q ∷ ps) h ih =
          ap (λ (e : Io Answer). if not (nonempty logic) then pure (true, no_logic) else e)
            (ih (p ∷ q ∷ ps) (Below-of_two (str_len logic) p q ps h))

module _ {p : Event → Bool} (re : Re) (querier : Io ℤ) (fields : Fields)
    (quiet : Silent p querier) where
  count_step-Silent : (expr : String) → Silent p (count_step re querier fields expr)
  unfolding count_step
  count_step-Silent expr =
      Silent-option (groups3 (re.groups re_count expr)) _ _ (Silent-pure _)
        (λ g. Silent-bind querier _ quiet (λ n. Silent-bind querier _ quiet (λ m. Silent-pure _)))

  tags_step-Silent : (expr : String) → Silent p (tags_step re querier fields expr)
  unfolding tags_step
  tags_step-Silent expr =
      Silent-option (groups1 (re.groups re_not_in_tags expr)) _ _ (count_step-Silent expr)
        (λ g. Silent-bind (lift (eval_not_in_tags fields g)) _ (Silent-lift _) (λ b. Silent-pure _))

  stage_step-Silent : (expr : String) → Silent p (stage_step re querier fields expr)
  unfolding stage_step
  stage_step-Silent expr =
      Silent-option (groups2 (re.groups re_stage_in expr)) _ _ (tags_step-Silent expr)
        (λ g. Silent-pure _)

  regex_step-Silent : (expr : String) → Silent p (regex_step re querier fields expr)
  unfolding regex_step
  regex_step-Silent expr =
      Silent-option (groups3 (re.groups re_regex expr)) _ _ (stage_step-Silent expr)
        (λ g. Silent-pure _)

  evaluate_atom-Silent : (expr : String) → Silent p (evaluate_atom re querier fields expr)
  unfolding evaluate_atom
  evaluate_atom-Silent expr =
      Silent-option (groups3 (re.groups re_length expr)) _ _ (regex_step-Silent expr)
        (λ g. Silent-pure _)

  all_parts-Silent :
      (f : String → Io Answer)
      → ((s : String) → Silent p (f s))
      → (ps : List String) → Silent p (all_parts re querier fields f ps)
  unfolding all_parts
  all_parts-Silent f sf [] = Silent-pure _
  all_parts-Silent f sf (s ∷ ss) =
      Silent-bind (f (strip s)) _ (sf (strip s))
        (λ a. Silent-if a.0 _ _ (all_parts-Silent f sf ss) (Silent-pure _))

  if_compound-Silent :
      (ps : List String) (m n : Io Answer) → Silent p m → Silent p n → Silent p (if_compound ps m n)
  if_compound-Silent [] m n sm sn = sn
  if_compound-Silent (s ∷ []) m n sm sn = sn
  if_compound-Silent (s ∷ r ∷ ss) m n sm sn = sm

  pub evaluate_logic-Silent :
      (stop : Io Answer)
      → Silent p stop
      → (fuel : ℕ) (logic : String) → Silent p (evaluate_logic re querier fields stop fuel logic)
  unfolding evaluate_logic
  evaluate_logic-Silent stop quiet_stop zero logic = quiet_stop
  evaluate_logic-Silent stop quiet_stop (suc fuel) logic =
      Silent-if (not (nonempty logic)) _ _ (Silent-pure _) (
        if_compound-Silent (split_and_expression logic) _ _
          (all_parts-Silent _ (evaluate_logic-Silent stop quiet_stop fuel)
            (split_and_expression logic))
          (evaluate_atom-Silent (strip logic)))
