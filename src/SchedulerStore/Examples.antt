-- ===== src/SchedulerStore/Examples.antt =====
-- The store at concrete inputs.
use ampa.Prelude.{[], ◌∷◌, ◌≡◌, refl, lookup, has, raise, key_error}
use ampa.Value.{Fields, str, end, field, null, dict}
use ampa.SchedulerStore.{StoreData, update_command}

abbrev spec : Fields
spec = field "id" (str "lint") (field "command" (str "make lint") end)

abbrev store : StoreData
store = record {
  commands = [];
  state = ("lint", field "last_run" (str "t0") end) ∷ [];
  last_global_start_ts = null;
  dispatches = field "id" (str "d0") end ∷ field "id" (str "d1") end ∷ [];
  candidate_hash_cache = dict end;
}

missing_test : update_command "lint" spec store ≡ raise (key_error "lint")
unfolding update_command has lookup
missing_test = refl
