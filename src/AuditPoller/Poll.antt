-- ===== src/AuditPoller/Poll.antt =====
-- `poll_and_handoff` of src/ampa/audit_poller.py, after the query.
use Prim.Native.Char.{code}
use Prim.Native.String.{char_at}
use ampa.Prelude.{
  ℕ, ◌+◌, String, Bool, true, false, not, ◌||◌, List, Option, none, some, if◌then◌else◌, lookup,
  insert, remove, nonempty, str_eq, ◌==◌, ℤ,
}
use ampa.Text.{strip, lower}
use ampa.Value.{Value, Fields, str, get, get_default, truthy}
use ampa.AuditPoller.{AuditState, eligible, select_candidate, id_of, or_zero}

-- `wl show` for the selected item: no usable answer, or the item.
pub data Fetched : Type 0 where
  no_answer : Fetched
  answered : Fields → Fetched

-- How the handler ends. A handler that raises gives no reason.
pub data Handled : Type 0 where
  handled : (success : Bool) (reason : Option String) → Handled
  handler_raised : Handled

pub data Outcome : Type 0 where
  no_candidates query_failed : Outcome
  handed_off : String → Outcome

pub record Inputs : Type 0 where
  pub parse : String → Option ℕ
  pub now : ℕ
  pub cooldown_hours : ℤ
  pub fetch : Fields → Fetched
  pub handler : Fields → Handled

-- `s.replace("-", "_").replace(" ", "_")`
unfoldable pub underscored : String → String
underscored String.[] = String.[]
underscored (String.◌∷◌ c s) =
    if code c == b'-' || code c == b' '
    then String.◌∷◌ (char_at "_" 0) (underscored s)
    else String.◌∷◌ c (underscored s)

-- Whether the stage that was fetched rules the item out. A stage that is no text raises on `strip`,
-- and the item goes on to the handler.
abbrev stage_excludes : Value → Bool
unfolding strip lower underscored
stage_excludes (str s) = not (str_eq (underscored (lower (strip s))) "in_review")
stage_excludes v = not (truthy v)

unfoldable pub fetched_excludes : Fetched → Bool
unfolding get_default strip lower underscored
fetched_excludes no_answer = false
fetched_excludes (answered item) = stage_excludes (get item "stage")

abbrev reason_or : Option String → String
reason_or none = "handler_returned_false"
reason_or (some r) = if nonempty r then r else "handler_returned_false"

abbrev is_invalid : Option String → Bool
is_invalid none = false
is_invalid (some r) = str_eq r "invalid_from_state"

abbrev pub attempted : ℕ → String → AuditState → AuditState
attempted now id st = record st { last_attempt_at = insert id now st.last_attempt_at }

-- What is persisted after the handler.
unfoldable pub record_outcome : ℕ → String → Handled → AuditState → AuditState
unfolding insert remove lookup
record_outcome now id (handled true reason) st = record (attempted now id st) {
  invalid_counts = remove id st.invalid_counts;
  last_audit_at = insert id now st.last_audit_at;
}
record_outcome now id (handled false reason) st = record (attempted now id st) {
  failure_reasons = insert id (reason_or reason) st.failure_reasons;
  invalid_counts =
      if is_invalid reason
      then insert id (or_zero (lookup id st.invalid_counts) + 1) st.invalid_counts
      else st.invalid_counts;
}
record_outcome now id handler_raised st = record (attempted now id st) {
  failure_reasons = insert id "handler_returned_false" st.failure_reasons;
}

abbrev pub hand_off : Inputs → Fields → String → AuditState → AuditState × Outcome
hand_off inp item id st =
    if fetched_excludes (inp.fetch item)
    then (attempted inp.now id st, no_candidates)
    else (record_outcome inp.now id (inp.handler item) st, handed_off id)

abbrev pub with_selected : Inputs → Option Fields → AuditState → AuditState × Outcome
with_selected inp none st = (st, no_candidates)
with_selected inp (some item) st =
    if nonempty (id_of item) then hand_off inp item (id_of item) st else (st, no_candidates)

-- `poll_and_handoff`; the candidates are none where the query failed.
unfoldable pub poll_and_handoff : Inputs → Option (List Fields) → AuditState → AuditState × Outcome
unfolding eligible select_candidate record_outcome fetched_excludes
poll_and_handoff inp none st = (st, query_failed)
poll_and_handoff inp (some items) st =
    with_selected inp
      (select_candidate inp.parse (eligible inp.parse inp.now inp.cooldown_hours st items)) st
