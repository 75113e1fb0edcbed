-- ===== src/Scheduler/Runs.antt =====
-- What one run of a command leaves in the store.
use ampa.Prelude.{
  ℕ, ◌<◌, ◌≤◌, ◌-◌, String, Bool, true, false, ◌&&◌, Option, none, some, if◌then◌else◌, List, ◌≡◌,
  ◌∙◌, refl, arith, str_eq, eq_refl, Bool-cases, inl, inr, length, length-drop, ℤ,
}
use ampa.Scheduler.{
  CommandSpec, Run, HistoryEntry, Store, get_state, get_state-update_state, record_run, last_of,
  elapsed,
}
use ampa.Scheduler.Start.{
  Executed, begin_run, start_command, after_delegation, run_of, noted_output, output_or,
}
use ampa.Scheduler.Numbers.{Floats}
use ampa.Scheduler.Selection.{Config, global_rate_limited, select_next}

abbrev pub is_none : {A : Type 0} → Option A → Bool
is_none none = true
is_none (some a) = false

length-last_of : (n : ℕ) (entries : List HistoryEntry) → 0 < n → length (last_of n entries) ≤ n
unfolding last_of
length-last_of n entries h = ground (arith, length-drop (length entries - n) entries)

-- The history of no command is longer than the limit.
abbrev pub HistoriesBounded : ℕ → Store → Type 0
HistoriesBounded n store = (k : String) → length (get_state k store).run_history ≤ n

get_state-begin_run :
    (now : ℕ) (spec : CommandSpec) (store : Store) (k : String)
    → get_state k (begin_run now spec store) ≡ (
        if str_eq spec.command_id k
        then record (get_state spec.command_id store) { running = true; last_start_ts = some now }
        else get_state k store)
unfolding begin_run get_state
get_state-begin_run now spec store k = get_state-update_state spec.command_id k _ store

module _ (n : ℕ) where
  record_run_other :
      (spec : CommandSpec) (run : Run) (exit_code : ℤ) (output : Option String) (store : Store)
      (k : String)
      → str_eq spec.command_id k ≡ false
      → get_state k (record_run n spec run exit_code output store) ≡ get_state k store
  unfolding record_run
  record_run_other spec run exit_code output store k other = rw (get_state-update_state, other) refl

  record_run_running :
      (spec : CommandSpec) (run : Run) (exit_code : ℤ) (output : Option String) (store : Store)
      → (get_state spec.command_id (record_run n spec run exit_code output store)).running ≡ false
  unfolding record_run
  record_run_running spec run exit_code output store =
      rw (get_state-update_state, eq_refl spec.command_id) refl

  record_run_bounded :
      (spec : CommandSpec) (run : Run) (exit_code : ℤ) (output : Option String) (store : Store)
      → 0 < n
      → HistoriesBounded n store
      → HistoriesBounded n (record_run n spec run exit_code output store)
  unfolding record_run
  record_run_bounded spec run exit_code output store pos_n h k =
      elim (Bool-cases (str_eq spec.command_id k)) [
        | inl same ↦ rw (get_state-update_state, same) (length-last_of n _ pos_n)
        | inr other ↦ rw (get_state-update_state, other) (h k)
      ]

  begin_run_bounded :
      (now : ℕ) (spec : CommandSpec) (store : Store)
      → HistoriesBounded n store
      → HistoriesBounded n (begin_run now spec store)
  begin_run_bounded now spec store h k = elim (Bool-cases (str_eq spec.command_id k)) [
    | inl same ↦ rw (get_state-begin_run, same) (h spec.command_id)
    | inr other ↦ rw (get_state-begin_run, other) (h k)
  ]

  module _ (orchestrate : CommandSpec → Run → Option String → Option Run) (now : ℕ)
      (spec : CommandSpec) (executed : Executed) (store : Store) where
    abbrev after : Store × Option Run
    after = start_command n orchestrate now spec executed store

    abbrev delegated : Option Run
    delegated = orchestrate spec (run_of executed) (noted_output spec (run_of executed))

    abbrev output : Option String
    output = noted_output spec (run_of executed)

    abbrev begun : Store
    begun = begin_run now spec store

    abbrev recorded : (delegates : Bool) → Option Run → Store × Option Run
    recorded delegates o = if delegates then after_delegation n spec output begun o else (
      record_run n spec (run_of executed) (run_of executed).exit_code output begun,
      some (run_of executed),
    )

    -- After a run the flag of the command is set exactly if no run was returned, and that happens
    -- only to a delegation whose orchestrator raised: whatever the executor of another command
    -- does, an exit included, the flag is cleared and a run is returned.
    pub start_command-running :
        ((get_state spec.command_id after.0).running ≡ is_none after.1)
        × (is_none after.1 ≡ (str_eq spec.command_type "delegation" && is_none delegated))
    unfolding start_command
    start_command-running = go (str_eq spec.command_type "delegation") delegated
      where
        go :
            (b : Bool) (o : Option Run)
            → ((get_state spec.command_id (recorded b o).0).running ≡ is_none (recorded b o).1)
              × (is_none (recorded b o).1 ≡ (b && is_none o))
        go true none = (rw (get_state-begin_run, eq_refl spec.command_id) refl, refl)
        go true (some run) =
            (record_run_running spec run run.exit_code (output_or run.output output) begun, refl)
        go false o = (
          record_run_running spec (run_of executed) (run_of executed).exit_code output begun,
          refl,
        )

    -- A run changes the state of no other command.
    pub start_command_other :
        (k : String) → str_eq spec.command_id k ≡ false → get_state k after.0 ≡ get_state k store
    unfolding start_command
    start_command_other k other = go (str_eq spec.command_type "delegation") delegated
      where
        same_begun : get_state k begun ≡ get_state k store
        same_begun = rw (get_state-begin_run, other) refl

        go : (b : Bool) (o : Option Run) → get_state k (recorded b o).0 ≡ get_state k store
        go true none = same_begun
        go true (some run) =
            record_run_other spec run run.exit_code (output_or run.output output) begun k other
            ∙ same_begun
        go false o =
            record_run_other spec (run_of executed) (run_of executed).exit_code output begun k other
            ∙ same_begun

    -- With a limit above zero, a run keeps the history of every command within the limit, the entry
    -- of the run included.
    pub start_command_bounded : 0 < n → HistoriesBounded n store → HistoriesBounded n after.0
    unfolding start_command
    start_command_bounded pos_n h = go (str_eq spec.command_type "delegation") delegated
      where
        bounded : HistoriesBounded n begun
        bounded = begin_run_bounded now spec store h

        go : (b : Bool) (o : Option Run) → HistoriesBounded n (recorded b o).0
        go true none = bounded
        go true (some run) =
            record_run_bounded spec run run.exit_code (output_or run.output output) begun pos_n
              bounded
        go false o =
            record_run_bounded spec (run_of executed) (run_of executed).exit_code output begun pos_n
              bounded

    last_start : after.0.last_global_start ≡ some now
    unfolding start_command begin_run record_run
    last_start = go (str_eq spec.command_type "delegation") delegated
      where
        go : (b : Bool) (o : Option Run) → (recorded b o).0.last_global_start ≡ some now
        go true none = refl
        go true (some run) = refl
        go false o = refl

    -- After a run nothing is chosen before the least interval between two starts is over, whatever
    -- the run came to.
    pub select_next-start_command :
        (num : Floats) (config : Config num) (llm_available : Bool) (later : ℕ)
        → num.lt (num.seconds (elapsed later now)) (num.of_ℤ config.global_min_interval_seconds)
          ≡ true
        → select_next num config llm_available later after.0 ≡ none
    unfolding select_next global_rate_limited
    select_next-start_command num config llm_available later soon = rw (last_start, soon) refl
