-- ===== src/SchedulerStore.antt =====
-- `SchedulerStore` of src/ampa/scheduler_store.py: its data, and the operations on it. A store that
-- was read has its sections, which `_load` supplies; the text of the file, and the calls of `save`,
-- which follow every operation that changes the data, are not modelled. The command of an operation
-- is the dict that `CommandSpec.to_dict` gives.
pub mod Dispatches
pub mod Commands
mod Examples
use ampa.Prelude.{
  ℕ, ◌-◌, String, Bool, true, false, List, [], ◌∷◌, ◌++◌, Option, none, some, Result, ok, raise,
  key_error, if◌then◌else◌, Dict, lookup, insert, remove, has, length, drop, ◌==◌, str_eq,
}
use ampa.Value.{Value, Fields, end, field, str, str_of, get, truthy, null, dict, as_dict}

-- A section of the store file is a dict of dicts.
pub record StoreData : Type 0 where
  pub commands : Dict Fields
  pub state : Dict Fields
  pub last_global_start_ts : Value
  pub dispatches : List Fields
  pub candidate_hash_cache : Value

-- `d[k] = v`
unfoldable pub set_field : String → Value → Fields → Fields
set_field k v end = field k v end
set_field k v (field j w fs) =
    let rest = set_field k v fs in if str_eq j k then field j v fs else field j w rest

unfoldable pub has_field : String → Fields → Bool
has_field k end = false
has_field k (field j w fs) = let rest = has_field k fs in if str_eq j k then true else rest

-- `d.setdefault(k, v)`, where the answer is not used
abbrev pub set_default : String → Value → Fields → Fields
set_default k v fs = if has_field k fs then fs else set_field k v fs

-- `xs[-n:]`, which is the whole list for n = 0
pub take_last {ℓ} : {A : Type ℓ} → ℕ → List A → List A
take_last n xs = if n == 0 then xs else drop (length xs - n) xs

-- What `append_dispatch` takes from outside: the id, the session, the time and the user.
pub record Identity : Type 0 where
  pub fresh_id : String
  pub session : String
  pub now : String
  pub runner : String

pub dispatch_id : Identity → Fields → String
dispatch_id who given = if truthy (get given "id") then str_of (get given "id") else who.fresh_id

pub complete : Identity → Fields → Fields
complete who given = set_default "runner" (str who.runner) (
    set_default "session" (str who.session)
      (set_default "ts" (str who.now) (set_field "id" (str (dispatch_id who given)) given)))

pub append_dispatch : Identity → ℕ → Fields → StoreData → StoreData × String
append_dispatch who retain_last given data_ = (
  record data_ { dispatches = take_last retain_last (data_.dispatches ++ complete who given ∷ []) },
  dispatch_id who given,
)

pub add_command : String → Fields → StoreData → StoreData
add_command command_id spec data_ = record data_ {
  commands = insert command_id spec data_.commands;
  state = if has command_id data_.state then data_.state else insert command_id end data_.state;
}

pub remove_command : String → StoreData → StoreData
remove_command command_id data_ = record data_ {
  commands = remove command_id data_.commands;
  state = remove command_id data_.state;
}

pub update_command : String → Fields → StoreData → Result StoreData
update_command command_id spec data_ =
    if has command_id data_.commands
    then ok (record data_ { commands = insert command_id spec data_.commands })
    else raise (key_error command_id)

-- `get_command` before `CommandSpec.from_dict`: an empty dict counts as none.
abbrev or_none : Option Fields → Option Fields
or_none none = none
or_none (some fs) = if truthy (dict fs) then some fs else none

pub get_command : String → StoreData → Option Fields
get_command command_id data_ = or_none (lookup command_id data_.commands)

abbrev or_empty : Option Fields → Fields
or_empty none = end
or_empty (some fs) = fs

pub get_state : String → StoreData → Fields
get_state command_id data_ = or_empty (lookup command_id data_.state)

pub update_state : String → Fields → StoreData → StoreData
update_state command_id new data_ = record data_ { state = insert command_id new data_.state }

abbrev is_text : Value → Bool
is_text (str s) = true
is_text _ = false

pub texts_of : Fields → Fields
texts_of end = end
texts_of (field k v fs) = let rest = texts_of fs in if is_text v then field k v rest else rest

abbrev texts_in : Value → Fields
unfolding texts_of
texts_in (dict fs) = texts_of fs
texts_in _ = end

pub get_candidate_hash_cache : StoreData → Fields
get_candidate_hash_cache data_ = texts_in data_.candidate_hash_cache

pub update_candidate_hash_cache : Fields → StoreData → StoreData
update_candidate_hash_cache entries data_ = record data_ { candidate_hash_cache = dict entries }
