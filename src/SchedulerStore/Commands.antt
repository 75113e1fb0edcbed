-- ===== src/SchedulerStore/Commands.antt =====
-- The commands of the store and their states.
use ampa.Prelude.{
  String, true, false, not, ◌||◌, none, some, ◌≡◌, refl, subst, arith, if◌then◌else◌, lookup,
  insert, remove, has, lookup-insert, lookup-remove, Dict, Bool-cases, Option-cases, inl, inr,
  str_eq, eq_iff,
}
use ampa.Value.{Fields, end, dict, truthy}
use ampa.SchedulerStore.{StoreData, add_command, remove_command, get_command, get_state}

module _ {ℓ} {V : Type ℓ} where
  has-insert :
      (k j : String) (v : V) (m : Dict V)
      → has j (insert k v m) ≡ (if str_eq k j then true else has j m)
  unfolding has
  has-insert k j v m = elim (Bool-cases (str_eq k j)) [
    | inl same ↦ rw (lookup-insert, same) refl
    | inr other ↦ rw (lookup-insert, other) refl
  ]

  has-remove :
      (k j : String) (m : Dict V) → has j (remove k m) ≡ (if str_eq k j then false else has j m)
  unfolding has
  has-remove k j m = elim (Bool-cases (str_eq k j)) [
    | inl same ↦ rw (lookup-remove, same) refl
    | inr other ↦ rw (lookup-remove, other) refl
  ]

-- Every command of the store has a state.
abbrev pub HaveStates : StoreData → Type 0
HaveStates d = (k : String) → (not (has k d.commands) || has k d.state) ≡ true

module _ (command_id : String) (spec : Fields) (data_ : StoreData) where
  -- Where every command has a state, that is so after a command was added.
  pub add_command-HaveStates : HaveStates data_ → HaveStates (add_command command_id spec data_)
  unfolding add_command
  add_command-HaveStates h k = elim (Bool-cases (has command_id data_.state)) [
    | inl there ↦
        rw there
          (ground (arith, h k, has-insert command_id k spec data_.commands, eq_iff command_id k))
    | inr missing ↦ rw missing (
        ground (
          arith,
          h k,
          has-insert command_id k spec data_.commands,
          has-insert command_id k end data_.state,
        ))
  ]

  -- Where every command has a state, that is so after a command was removed.
  pub remove_command-HaveStates : HaveStates data_ → HaveStates (remove_command command_id data_)
  unfolding remove_command
  remove_command-HaveStates h k =
      ground
        (arith, h k, has-remove command_id k data_.commands, has-remove command_id k data_.state)

  -- After a command was added it is read back, unless it is an empty dict, and every other command
  -- is read as before.
  pub get_command-add_command :
      (k : String)
      → get_command k (add_command command_id spec data_) ≡ (
          if str_eq command_id k
          then (if truthy (dict spec) then some spec else none)
          else get_command k data_)
  unfolding get_command add_command
  get_command-add_command k = elim (Bool-cases (str_eq command_id k)) [
    | inl same ↦ rw (lookup-insert, same) refl
    | inr other ↦ rw (lookup-insert, other) refl
  ]

  -- A command that is added keeps the state that was stored under its id, and so does every other.
  pub get_state-add_command :
      (k : String) → get_state k (add_command command_id spec data_) ≡ get_state k data_
  unfolding get_state add_command has
  get_state-add_command k = elim (Option-cases (lookup command_id data_.state)) [
    | inr (old, found) ↦ rw found refl
    | inl missing ↦ elim (Bool-cases (str_eq command_id k)) [
      | inl same ↦
          let here : command_id ≡ k = (eq_iff command_id k).0 same in
          let there : lookup k data_.state ≡ none =
            subst (λ i. lookup i data_.state ≡ none) here missing in
          rw (missing, lookup-insert, same, there) refl
      | inr other ↦ rw (missing, lookup-insert, other) refl
    ]
  ]
