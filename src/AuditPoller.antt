-- ===== src/AuditPoller.antt =====
-- The audit poller of src/ampa/audit_poller.py: the filters and the choice of a candidate.
-- A moment is a number of microseconds, in place of its text in the store; `parse` is `_from_iso` on
-- the texts of the items. The state can be read and written.
pub mod Poll
pub mod Cooldown
pub mod Cycle
pub mod Query
mod Examples
use ampa.Prelude.{
  ℕ, suc, ◌+◌, ◌*◌, String, Bool, true, false, not, ◌&&◌, ◌||◌, List, [], ◌∷◌, Option, none, some,
  if◌then◌else◌, Dict, lookup, ltb, leb, keep, first, sort_by, nonempty, ℤ, pos, negsuc,
}
use ampa.Value.{Value, Fields, str, get, get_default, truthy, str_of, ◌or◌}

-- The state of the command, as the poller uses it.
pub record AuditState : Type 0 where
  pub last_audit_at : Dict ℕ
  pub last_attempt_at : Dict ℕ
  pub invalid_counts : Dict ℕ
  pub failure_reasons : Dict String

abbrev pub threshold : ℕ
threshold = 3

abbrev time_keys : List String
time_keys =
    "updatedAt" ∷ "updated_at" ∷ "last_updated_at" ∷ "updated_ts" ∷ "updated" ∷ "last_update_ts"
    ∷ []

abbrev parsed : (String → Option ℕ) → Value → Option ℕ
parsed parse (str s) = if nonempty s then parse s else none
parsed parse _ = none

abbrev pub or_else : Option ℕ → Option ℕ → Option ℕ
or_else none later = later
or_else (some t) later = some t

unfoldable pub first_time : (String → Option ℕ) → List String → Fields → Option ℕ
unfolding get_default
first_time parse [] item = none
first_time parse (k ∷ ks) item = or_else (parsed parse (get item k)) (first_time parse ks item)

-- `_item_updated_ts`
unfoldable pub item_updated_ts : (String → Option ℕ) → Fields → Option ℕ
unfolding first_time
item_updated_ts parse item = first_time parse time_keys item

-- `str(item.get("id", ""))`
unfoldable pub id_of : Fields → String
unfolding get_default str_of
id_of item = str_of (get_default item "id" (str ""))

-- `now - ref < cooldown`
abbrev pub cools : (now : ℕ) (hours : ℤ) (ref : ℕ) → Bool
cools now (pos hours) ref = ltb now (ref + hours * 3600000000)
cools now (negsuc hours) ref = ltb (now + suc hours * 3600000000) ref

abbrev pub is_newer : Option ℕ → Option ℕ → Bool
is_newer none updated = false
is_newer (some audit) none = false
is_newer (some audit) (some updated) = ltb audit updated

abbrev pub is_cooling : (now : ℕ) (hours : ℤ) → Option ℕ → Bool
is_cooling now hours none = false
is_cooling now hours (some ref) = cools now hours ref

-- Whether `_filter_by_cooldown` keeps an item, by its id, the last audit, the last attempt and its
-- last update.
abbrev pub may_pass : (now : ℕ) (hours : ℤ) (named : Bool) (audit attempt updated : Option ℕ) → Bool
may_pass now hours named audit attempt updated =
    named && (is_newer audit updated || not (is_cooling now hours (or_else audit attempt)))

unfoldable pub passes_cooldown :
    (String → Option ℕ) → (now : ℕ) (hours : ℤ) → AuditState → Fields → Bool
unfolding item_updated_ts id_of lookup
passes_cooldown parse now hours st item =
    may_pass now hours (nonempty (id_of item)) (lookup (id_of item) st.last_audit_at)
      (lookup (id_of item) st.last_attempt_at) (item_updated_ts parse item)

abbrev pub or_zero : Option ℕ → ℕ
or_zero none = 0
or_zero (some n) = n

-- `str(it.get("id") or "")`
unfoldable pub counted_id : Fields → String
unfolding get_default str_of
counted_id item = str_of (get item "id" or str "")

unfoldable pub is_backed_off : AuditState → Fields → Bool
unfolding lookup counted_id
is_backed_off st item = leb threshold (or_zero (lookup (counted_id item) st.invalid_counts))

unfoldable pub eligible :
    (String → Option ℕ) → (now : ℕ) (hours : ℤ) → AuditState → List Fields → List Fields
eligible parse now hours st items =
    keep (λ it. not (is_backed_off st it)) (keep (passes_cooldown parse now hours st) items)

-- `_select_candidate`: an item without a time comes first, then the oldest. Python's sort keeps the
-- order of items with equal keys.
abbrev pub older : Option ℕ → Option ℕ → Bool
older none none = false
older none (some b) = true
older (some a) none = false
older (some a) (some b) = ltb a b

-- `a` stands before `b` in the sort.
abbrev pub is_older : (String → Option ℕ) → Fields → Fields → Bool
is_older parse a b = older (item_updated_ts parse a) (item_updated_ts parse b)

unfoldable pub select_candidate : (String → Option ℕ) → List Fields → Option Fields
unfolding sort_by item_updated_ts
select_candidate parse items = first (sort_by (is_older parse) items)
