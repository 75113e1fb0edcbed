-- ===== src/Scheduler/Stale.antt =====
-- `clear_stale_running_states` of src/ampa/scheduler_helpers.py, and what it leaves.
use ampa.Prelude.{
  ℕ, ◌-◌, ◌/◌, String, Bool, true, false, ◌&&◌, ◌||◌, List, [], ◌∷◌, Option, none, some, ltb,
  if◌then◌else◌, ◌≡◌, refl, contains, map, str_eq, eq_iff, eq_refl, ℤ, pos, negsuc, Bool-cases, inl,
  inr, subst,
}
use ampa.Scheduler.{
  CommandSpec, CommandState, Store, elapsed, get_state, update_state, get_state-update_state,
}

-- `int(seconds)`, towards zero
abbrev whole_seconds : ℤ → ℤ
whole_seconds (pos us) = pos (us / 1000000)
whole_seconds (negsuc us) = if ltb us 999999 then pos 0 else negsuc ((us - 999999) / 1000000)

abbrev above : ℤ → ℤ → Bool
above (pos a) (pos b) = ltb b a
above (pos a) (negsuc b) = true
above (negsuc a) (pos b) = false
above (negsuc a) (negsuc b) = ltb a b

abbrev too_old : ℕ → ℤ → Option ℕ → Bool
too_old now threshold none = true
too_old now threshold (some last_start) = above (whole_seconds (elapsed now last_start)) threshold

-- A flag is stale if it was set more than the threshold ago, or at no known time.
unfoldable pub is_stale : (now : ℕ) (threshold : ℤ) → CommandState → Bool
is_stale now threshold st = st.running && too_old now threshold st.last_start_ts

abbrev cleared : Bool → CommandState → CommandState
cleared true st = record st { running = false }
cleared false st = st

unfoldable pub clear_one : (now : ℕ) (threshold : ℤ) → String → Store → Store
unfolding get_state is_stale
clear_one now threshold id store =
    if is_stale now threshold (get_state id store)
    then update_state id (record (get_state id store) { running = false }) store
    else store

unfoldable pub clear_stale_running_states :
    (now : ℕ) (threshold : ℤ) → List CommandSpec → Store → Store
clear_stale_running_states now threshold [] store = store
clear_stale_running_states now threshold (spec ∷ specs) store =
    clear_stale_running_states now threshold specs (clear_one now threshold spec.command_id store)

abbrev ids : List CommandSpec → List String
ids = map (λ spec. spec.command_id)

module _ (now : ℕ) (threshold : ℤ) where
  settled :
      (st : CommandState) → is_stale now threshold (cleared (is_stale now threshold st) st) ≡ false
  unfolding is_stale
  settled st = elim (Bool-cases (st.running && too_old now threshold st.last_start_ts)) [
    | inl stale ↦ rw stale refl
    | inr fresh ↦ rw fresh fresh
  ]

  own :
      (id : String) (store : Store)
      → get_state id (clear_one now threshold id store)
        ≡ cleared (str_eq id id && is_stale now threshold (get_state id store)) (get_state id store)
  unfolding clear_one
  own id store = elim (Bool-cases (is_stale now threshold (get_state id store))) [
    | inl stale ↦ rw (stale, get_state-update_state, eq_refl id) refl
    | inr fresh ↦ rw (fresh, eq_refl id) refl
  ]

  clear_one_lem :
      (id k : String) (store : Store)
      → get_state k (clear_one now threshold id store)
        ≡ cleared (str_eq id k && is_stale now threshold (get_state k store)) (get_state k store)
  unfolding clear_one
  clear_one_lem id k store = elim (Bool-cases (str_eq id k)) [
    | inl same ↦
        let here : id ≡ k = (eq_iff id k).0 same in
        subst
          (λ (j : String).
            get_state j (clear_one now threshold id store)
            ≡ cleared (str_eq id j && is_stale now threshold (get_state j store))
                (get_state j store))
          here (own id store)
    | inr other ↦ elim (Bool-cases (is_stale now threshold (get_state id store))) [
      | inl stale ↦ rw (stale, get_state-update_state, other) refl
      | inr fresh ↦ rw (fresh, other) refl
    ]
  ]

  cleared_twice :
      (here later : Bool) (st : CommandState)
      → cleared
          (later && is_stale now threshold (cleared (here && is_stale now threshold st) st))
          (cleared (here && is_stale now threshold st) st)
        ≡ cleared ((here || later) && is_stale now threshold st) st
  cleared_twice false later st = refl
  cleared_twice true false st = refl
  cleared_twice true true st = rw (settled st) refl

  -- At the start of the scheduler the flag of every command that is listed is cleared exactly if it
  -- is stale; nothing else of its state changes, and no other state does.
  pub clear_stale_running_states_lem :
      (specs : List CommandSpec) (k : String) (store : Store)
      → get_state k (clear_stale_running_states now threshold specs store)
        ≡ cleared
            (contains (ids specs) k && is_stale now threshold (get_state k store))
            (get_state k store)
  unfolding clear_stale_running_states
  clear_stale_running_states_lem [] k store = refl
  clear_stale_running_states_lem (spec ∷ specs) k store =
      rw
        (
          clear_stale_running_states_lem specs k (clear_one now threshold spec.command_id store),
          clear_one_lem spec.command_id k store,
        )
        (cleared_twice (str_eq spec.command_id k) (contains (ids specs) k) (get_state k store))
