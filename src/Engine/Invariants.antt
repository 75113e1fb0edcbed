-- ===== src/Engine/Invariants.antt =====
-- src/ampa/engine/invariants.py: the patterns, the parts of a compound expression, and
-- `evaluate_logic`. The proofs are below.
pub mod Split
pub mod Logic
use Prim.Native.Char.{Char, code}
use Prim.Native.String.{◌++◌, char_at}
use text.Mathlib.Text.{starts_with, find?}
use ampa.Prelude.{
  and_then, ℕ, zero, suc, ◌+◌, String, Bool, true, false, ◌&&◌, ◌||◌, not, List, [], ◌∷◌, map,
  Option, none, some, Result, ok, raise, Exn, key_error, attribute_error, type_error, external,
  if◌then◌else◌, str_eq, Dict, lookup, contains, ltb, leb, ◌==◌, ℤ, pos, negsuc, eq_ℤ, gt_ℤ, ge_ℤ,
  lt_ℤ, le_ℤ, nonempty, any,
}
use ampa.Text.{str_len, strip, strip_char, split, read_ℕ, join}
use ampa.Value.{
  Value, Items, Fields, null, bool, int, number, str, list, dict, nil, cons, end, field, truthy,
  ◌or◌, str_of, get_default, as_dict, items_to_list,
}
use ampa.Engine.Descriptor.{Invariant, index_from}
use ampa.Engine.Records.{
  LogicReason, no_logic, all_parts_passed, length_is, regex_on, one_of, not_one_of, tag, count_is,
  unrecognized, SingleInvariantResult, InvariantResult,
}
use ampa.Engine.World.{Re, Io, ◌>>=◌, pure, lift}
use ampa.Engine.Expressions.{
  field_text, eval_length, is_backslash, eval_regex, eval_membership, eval_not_in_tags, eval_count,
}

abbrev pub re_length : String
re_length = "length\\((\\w+)\\)\\s*(>|>=|<|<=|==)\\s*(\\d+)"

abbrev pub re_regex : String
re_regex = "regex\\((\\w+),\\s*(['\"])(.*?)\\2\\s*\\)"

abbrev pub re_stage_in : String
re_stage_in = "(\\w+)\\s+in\\s+\\[([^\\]]+)\\]"

abbrev pub re_not_in_tags : String
re_not_in_tags = "['\"]([^'\"]+)['\"]\\s+not\\s+in\\s+tags"

abbrev pub re_count : String
re_count =
    "count\\(work_items,\\s*status\\s*=\\s*[\"'](\\w+)[\"']\\)\\s*(==|>|>=|<|<=|!=)\\s*(\\d+)"

-- The depth of parentheses, which a stray `)` takes below zero.
abbrev up : ℤ → ℤ
up (pos n) = pos (n + 1)
up (negsuc zero) = pos 0
up (negsuc (suc n)) = negsuc n

abbrev down : ℤ → ℤ
down (pos zero) = negsuc 0
down (pos (suc n)) = pos n
down (negsuc n) = negsuc (n + 1)

abbrev is_none : Option ℕ → Bool
is_none none = true
is_none (some q) = false

-- The quote that is open after the character `c`; `escaped` says that a backslash stands before it.
abbrev next_quote : Bool → Char → Option ℕ → Option ℕ
next_quote escaped c none =
    if (code c == 34 || code c == 39) && not escaped then some (code c) else none
next_quote escaped c (some q) = if code c == q && not escaped then none else some q

abbrev next_depth : Char → Option ℕ → ℤ → ℤ
next_depth c (some q) depth = depth
next_depth c none depth =
    if code c == 40 then up depth else if code c == 41 then down depth else depth

-- A connective stands at the character `c`, outside parentheses and quotes.
abbrev splits_here : Char → String → ℤ → Option ℕ → Bool
splits_here c s depth in_quote =
    eq_ℤ depth 0 && (is_none in_quote && starts_with (String.◌∷◌ c s) " and ")

-- The loop of `_split_and_expression`. `skip` counts the characters of a connective that are
-- still to be passed over.
unfoldable pub split_loop :
    String
    → (skip : ℕ) → (escaped : Bool) → (depth : ℤ) → Option ℕ
    → (current : String) → List String
split_loop String.[] skip escaped depth in_quote current = current ∷ []
split_loop (String.◌∷◌ c s) (suc skip) escaped depth in_quote current =
    split_loop s skip false depth in_quote current
split_loop (String.◌∷◌ c s) zero escaped depth in_quote current =
    let in_quote' = next_quote escaped c in_quote in
    let depth' = next_depth c in_quote' depth in
    let later = split_loop s 4 false depth' in_quote' String.[] in
    let longer =
      split_loop s 0 (is_backslash c) depth' in_quote' (current ++ String.◌∷◌ c String.[]) in
    if splits_here c s depth' in_quote' then current ∷ later else longer

unfoldable pub split_and_expression : String → List String
unfolding split_loop
split_and_expression logic = split_loop logic 0 false (pos 0) none String.[]

-- `if len(parts) > 1`
abbrev if_compound {ℓ} : {A : Type ℓ} → List String → A → A → A
if_compound (p ∷ q ∷ ps) several one = several
if_compound _ several one = one

abbrev comma : Char
comma = char_at "," 0

abbrev pub Answer : Type 0
Answer = Bool × LogicReason

-- The groups of a match, by their number.
abbrev groups1 : Option (List String) → Option String
groups1 (some (a ∷ [])) = some a
groups1 _ = none

abbrev groups2 : Option (List String) → Option (String × String)
groups2 (some (a ∷ b ∷ [])) = some (a, b)
groups2 _ = none

abbrev groups3 : Option (List String) → Option (String × String × String)
groups3 (some (a ∷ b ∷ c ∷ [])) = some (a, b, c)
groups3 _ = none

module _ (re : Re) (querier : Io ℤ) (fields : Fields) where
  -- One expression with no connective: the five patterns are tried in this order.
  pub count_step : String → Io Answer
  count_step expr = elim (groups3 (re.groups re_count expr)) [
    | none ↦ pure (true, unrecognized expr)
    | some (status, op, val) ↦ querier >>= λ count.
        let passed = eval_count count op (read_ℕ val) in
        querier >>= λ shown. pure (passed, count_is status shown op (read_ℕ val))
  ]

  pub tags_step : String → Io Answer
  tags_step expr = elim (groups1 (re.groups re_not_in_tags expr)) [
    | none ↦ count_step expr
    | some value ↦ lift (eval_not_in_tags fields value) >>= λ passed. pure (passed, tag value)
  ]

  abbrev pub in_values : String → List String
  in_values values_str = map (λ v. strip_char 39 (strip_char 34 (strip v))) (split comma values_str)

  pub stage_step : String → Io Answer
  stage_step expr = elim (groups2 (re.groups re_stage_in expr)) [
    | none ↦ tags_step expr
    | some (field_name, values_str) ↦
        let allowed = in_values values_str in
        let passed = eval_membership fields field_name allowed in
        pure (
          passed,
          if passed
              then one_of field_name allowed
              else not_one_of field_name (get_default fields field_name (str "")) allowed,
        )
  ]

  pub regex_step : String → Io Answer
  regex_step expr = elim (groups3 (re.groups re_regex expr)) [
    | none ↦ stage_step expr
    | some (field_name, quote, pattern) ↦
        pure (eval_regex re fields field_name pattern, regex_on field_name)
  ]

  unfoldable pub evaluate_atom : String → Io Answer
  evaluate_atom expr = elim (groups3 (re.groups re_length expr)) [
    | none ↦ regex_step expr
    | some (field_name, op, val) ↦ pure (
      eval_length fields field_name op (read_ℕ val),
      length_is field_name (str_len (field_text fields field_name)) op (read_ℕ val),
    )
  ]

  -- The loop over the parts: the first part that fails gives the answer.
  pub all_parts : (String → Io Answer) → List String → Io Answer
  all_parts eval [] = pure (true, all_parts_passed)
  all_parts eval (part ∷ parts) =
      let rest = all_parts eval parts in
      (eval (strip part) >>= λ (passed, reason). if passed then rest else pure (false, reason))

  -- `evaluate_logic`. The recursion is on shorter expressions: more fuel than characters is enough.
  -- What happens where the fuel ends is an argument.
  unfoldable pub evaluate_logic : (out_of_fuel : Io Answer) → (fuel : ℕ) → String → Io Answer
  evaluate_logic out_of_fuel zero logic = out_of_fuel
  evaluate_logic out_of_fuel (suc fuel) logic =
      let one = evaluate_atom (strip logic) in
      let several = all_parts (evaluate_logic out_of_fuel fuel) (split_and_expression logic) in
      if not (nonempty logic)
      then pure (true, no_logic)
      else if_compound (split_and_expression logic) several one
