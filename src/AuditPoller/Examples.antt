-- ===== src/AuditPoller/Examples.antt =====
-- Tests of the audit poller, and its theorems at concrete inputs.
use ampa.SchedulerStore.{set_field}
use ampa.AuditPoller.Query.{
  query_candidates, wrapped, any_workitems, ends_with_workitems, items_of, named_items, add_all,
}
use ampa.Prelude.{
  insert, ℕ, String, true, false, [], ◌∷◌, Option, none, some, ◌≡◌, refl, pos, lookup, ◌⊎◌, place,
}
use ampa.Text.{lower}
use ampa.Value.{Value, Fields, str, end, field, get_default, str_of, dict, list, nil, cons}
use ampa.AuditPoller.{
  AuditState, id_of, passes_cooldown, is_backed_off, counted_id, first_time, item_updated_ts, older,
}
use mathlib.Core.List.{Memᴰ}
use ampa.AuditPoller.Query.Newest.{named_items_newest}
use ampa.AuditPoller.Poll.{
  Inputs, handled, handler_raised, answered, handed_off, poll_and_handoff, record_outcome,
  attempted, fetched_excludes, underscored,
}
use ampa.AuditPoller.Cycle.{IsHandOff, poll_and_handoff-IsHandOff}
use ampa.AuditPoller.Cooldown.{succeeds, record_outcome_ignored, poll_and_handoff_audits}

abbrev parse : String → Option ℕ
parse String.[] = none
parse (String.◌∷◌ c s) = some 9000000000

abbrev first_item : Fields
first_item = field "id" (str "WL-1") (field "updatedAt" (str "t") end)

abbrev second_item : Fields
second_item = field "id" (str "WL-2") end

abbrev third_item : Fields
third_item = field "id" (str "WL-3") end

abbrev st : AuditState
st = record {
  last_audit_at = ("WL-1", 1000000000) ∷ [];
  last_attempt_at = ("WL-2", 3000000000) ∷ [];
  invalid_counts = ("WL-3", 3) ∷ [];
  failure_reasons = [];
}

abbrev inputs : Inputs
inputs = record {
  parse = parse;
  now = 5000000000;
  cooldown_hours = pos 6;
  fetch = λ item. answered (field "stage" (str " In-Review ") end);
  handler = λ item. handled true none;
}

poll_test :
    (poll_and_handoff inputs (some (third_item ∷ second_item ∷ first_item ∷ [])) st).1
    ≡ handed_off "WL-1"
unfolding poll_and_handoff passes_cooldown is_backed_off first_time get_default str_of place
    counted_id
poll_test = refl

stage_test : fetched_excludes (answered (field "stage" (str "done") end)) ≡ true
unfolding fetched_excludes underscored
stage_test = refl

poll_and_handoff-IsHandOff_example :
    (item : Fields) × IsHandOff inputs (third_item ∷ second_item ∷ first_item ∷ []) st item
    × (id_of item ≡ "WL-1")
    × ((poll_and_handoff inputs (some (third_item ∷ second_item ∷ first_item ∷ [])) st).0
        ≡ record_outcome 5000000000 "WL-1" (handled true none) st)
unfolding poll_and_handoff passes_cooldown is_backed_off first_time get_default str_of place
    counted_id
poll_and_handoff-IsHandOff_example =
    poll_and_handoff-IsHandOff inputs (third_item ∷ second_item ∷ first_item ∷ []) st "WL-1" refl

record_outcome_ignored_example :
    (passes_cooldown parse 6000000000
        (pos 6)
        (record_outcome 5000000000 "WL-1" handler_raised st)
        first_item
      ≡ passes_cooldown parse 6000000000 (pos 6) st first_item)
    × (passes_cooldown parse 6000000000 (pos 6) (attempted 5000000000 "WL-1" st) first_item
        ≡ passes_cooldown parse 6000000000 (pos 6) st first_item)
unfolding id_of lookup get_default str_of
record_outcome_ignored_example =
    record_outcome_ignored parse 5000000000 6000000000 (pos 6) first_item handler_raised st
      1000000000 refl refl

poll_and_handoff_audits_example :
    (lookup "WL-2" (poll_and_handoff inputs (some (second_item ∷ [])) st).0.last_audit_at
      ≡ lookup "WL-2" st.last_audit_at)
    ⊎ (item : Fields) × (id_of item ≡ "WL-2")
      × (succeeds (inputs.handler item) ≡ true)
      × ((poll_and_handoff inputs (some (second_item ∷ [])) st).1 ≡ handed_off "WL-2")
      × (lookup "WL-2" (poll_and_handoff inputs (some (second_item ∷ [])) st).0.last_audit_at
          ≡ some 5000000000)
poll_and_handoff_audits_example = poll_and_handoff_audits inputs (some (second_item ∷ [])) st "WL-2"

abbrev answer : Value
answer = dict (
    field "items" (list nil) (
      field "myWorkItems"
        (list (
          cons (dict first_item)
            (cons (str "x") (cons (dict (field "work_item" (str "WL-1") end)) nil))))
        end))

query_test : query_candidates parse (λ item. "") (some answer) ≡ some (first_item ∷ [])
unfolding query_candidates wrapped any_workitems ends_with_workitems lower named_items set_field
    get_default str_of add_all lookup insert first_time
query_test = refl

named_items_newest_example :
    (kept : Fields) × (lookup "WL-1" (add_all parse (λ item. "") (named_items (items_of answer)) [])
      ≡ some kept)
    × ((other : Fields)
        → Memᴰ ("WL-1", other) (named_items (items_of answer))
        → older (item_updated_ts parse kept) (item_updated_ts parse other) ≡ false)
unfolding items_of wrapped any_workitems ends_with_workitems lower named_items set_field get_default
    str_of
named_items_newest_example =
    named_items_newest parse (λ item. "") answer "WL-1" first_item (Memᴰ.head refl)
