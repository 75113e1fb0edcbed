-- ===== src/AuditPoller/Query.antt =====
-- `_query_candidates` of src/ampa/audit_poller.py: the candidates in the answer of `wl list`.
pub mod Newest
use mathlib.Core.List.{Memᴰ}
use ampa.Prelude.{
  ℕ, String, Bool, true, false, not, ◌&&◌, ◌||◌, List, [], ◌∷◌, Option, none, some, if◌then◌else◌,
  Dict, lookup, insert, values, is_empty, str_eq, ltb, lookup-insert, ◌≡◌, refl, sym, ap, ◌∙◌,
  arith, subst, some_inj, Bool-cases, inl, inr, eq_refl, ◌⊎◌,
}
use ampa.Text.{lower}
use ampa.Value.{
  Value, Fields, field, end, list, dict, str, get, get_default, truthy, str_of, items_to_list, ◌or◌,
}
use ampa.SchedulerStore.{set_field}
use ampa.Scheduler.Numbers.{text_lt}
use ampa.AuditPoller.{item_updated_ts, older}
use ampa.AuditPoller.Cycle.{older_asym, older_cotrans}

abbrev wrappers : List String
wrappers = "workItems" ∷ "work_items" ∷ "items" ∷ "data" ∷ []

abbrev list_or : Value → List Value → List Value
list_or (list xs) later = items_to_list xs
list_or _ later = later

unfoldable pub wrapped : List String → Fields → List Value
unfolding get_default
wrapped [] fs = []
wrapped (k ∷ ks) fs = list_or (get fs k) (wrapped ks fs)

unfoldable pub ends_with_workitems : String → Bool
ends_with_workitems String.[] = false
ends_with_workitems (String.◌∷◌ c s) = str_eq (String.◌∷◌ c s) "workitems" || ends_with_workitems s

unfoldable pub any_workitems : Fields → List Value
unfolding ends_with_workitems lower
any_workitems end = []
any_workitems (field k v fs) =
    let later = any_workitems fs in if ends_with_workitems (lower k) then list_or v later else later

unfoldable pub items_of : Value → List Value
unfolding wrapped any_workitems
items_of (list xs) = items_to_list xs
items_of (dict fs) =
    if is_empty (wrapped wrappers fs) then any_workitems fs else wrapped wrappers fs
items_of _ = []

abbrev wid_of : Fields → Value
wid_of item = get item "id" or get item "work_item_id" or get item "work_item"

abbrev named_item : Fields → List (String × Fields) → List (String × Fields)
named_item item later =
    if truthy (wid_of item)
    then (str_of (wid_of item), set_field "id" (str (str_of (wid_of item))) item) ∷ later
    else later

-- The items that are dicts with an id, by id.
unfoldable pub named_items : List Value → List (String × Fields)
unfolding get_default str_of set_field
named_items [] = []
named_items (dict item ∷ vs) = named_item item (named_items vs)
named_items (_ ∷ vs) = named_items vs

-- `dumps` is `json.dumps` with sorted keys.
module _ (parse : String → Option ℕ) (dumps : Fields → String) where
  abbrev pub newer_of : (existing candidate : Option ℕ) → Fields → Fields → Fields
  newer_of none none e c = if text_lt (dumps c) (dumps e) then c else e
  newer_of none (some b) e c = c
  newer_of (some a) none e c = e
  newer_of (some a) (some b) e c = if ltb a b then c else e

  abbrev pub or_new : Option Fields → Fields → Fields
  or_new none c = c
  or_new (some e) c = newer_of (item_updated_ts parse e) (item_updated_ts parse c) e c

  unfoldable pub add_all : List (String × Fields) → Dict Fields → Dict Fields
  unfolding lookup insert item_updated_ts text_lt
  add_all [] unique = unique
  add_all ((k, c) ∷ cs) unique = add_all cs (insert k (or_new (lookup k unique) c) unique)

  -- `_query_candidates`, from what `json.loads` gives; none where the query fails.
  unfoldable pub query_candidates : Option Value → Option (List Fields)
  unfolding items_of named_items add_all
  query_candidates none = none
  query_candidates (some raw) = some (values (add_all (named_items (items_of raw)) []))
