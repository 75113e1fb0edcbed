-- ===== src/Scheduler/Examples.antt =====
-- Tests of the scheduler, and its theorems at concrete inputs. The numbers of the tests are natural
-- numbers: whole seconds, with differences and quotients cut off.
use mathlib.Core.List.{Memᴰ}
use native.Mathlib.Nat.{div-le_self, zero-mul}
use ampa.Prelude.{
  zero, suc, lookup, ℕ, ◌+◌, ◌-◌, ◌*◌, ◌/◌, true, false, not, ◌&&◌, [], ◌∷◌, none, some, ◌≡◌, refl,
  ℤ, pos, negsuc, ltb, leb, ◌==◌, arith, insert, ◌⊎◌,
}
use ampa.Scheduler.{CommandSpec, CommandState, Run, Store, no_state, get_state}
use ampa.Scheduler.Start.{Executed, Raised, start_command, exit_code_of}
use ampa.Scheduler.Numbers.{Floats, Laws}
use ampa.Scheduler.Selection.{Config, is_eligible, global_rate_limited, select_next, score_command}
use ampa.Scheduler.Choice.{IsChoice, select_next_lem, select_next_live}
use ampa.Scheduler.Runs.{
  is_none, HistoriesBounded, start_command-running, start_command_bounded,
  select_next-start_command,
}
use ampa.Scheduler.Stale.{
  is_stale, clear_one, clear_stale_running_states, clear_stale_running_states_lem,
}

abbrev natural : ℤ → ℕ
natural (pos n) = n
natural (negsuc n) = 0

abbrev whole : Floats
whole = record {
  Float = ℕ;
  of_ℤ = natural;
  add = λ a b. a + b;
  minus = λ a b. a - b;
  times = λ a b. a * b;
  over = λ a b. a / b;
  lt = ltb;
  le = leb;
  eq = λ a b. a == b;
  seconds = λ us. natural us / 1000000;
  timestamp = λ us. us / 1000000;
}

whole_laws : Laws whole
whole_laws = record {
  asym = λ a b. go_asym a b;
  cotrans = λ a b c. go_cotrans a b c;
  le_lem = λ a b. go_le a b;
  eq_lem = λ a b. go_eq a b;
  zero_lt_one = refl;
  over_sign = λ a b. go_over a b;
  times_zero = λ a b. go_times a b;
}
  where
    go_asym : (a b : ℕ) → ltb a b ≡ true → ltb b a ≡ false
    go_asym a b h = ground arith

    go_cotrans : (a b c : ℕ) → ltb a c ≡ true → (ltb a b ≡ true) ⊎ (ltb b c ≡ true)
    go_cotrans a b c h = ground arith

    go_le : (a b : ℕ) → leb a b ≡ not (ltb b a)
    go_le a b = ground arith

    go_eq : (a b : ℕ) → (a == b) ≡ (not (ltb a b) && not (ltb b a))
    go_eq a b = ground arith

    go_over : (a b : ℕ) → ltb 0 b ≡ true → ltb 0 (a / b) ≡ true → ltb 0 a ≡ true
    go_over a b h k = ground (arith, div-le_self a b)

    go_times : (a b : ℕ) → ltb 0 a ≡ false → ltb a 0 ≡ false → ltb 0 (a * b) ≡ false
    go_times zero b h k = rw (zero-mul b) refl
    go_times (suc a) b h k = absurd (ground arith)

abbrev audit : CommandSpec
audit = record {
  command_id = "audit";
  command = "true";
  requires_llm = false;
  frequency_minutes = pos 1;
  priority = pos 2;
  command_type = "shell";
}

abbrev delegation : CommandSpec
delegation = record audit {
  command_id = "delegation";
  command_type = "delegation";
  requires_llm = true;
}

abbrev idle_state : CommandState
idle_state = record no_state { last_run_ts = some 1000000 }

-- The audit ran a second after the epoch, the delegation is marked as running since then.
abbrev store : Store
store = record {
  commands = audit ∷ delegation ∷ [];
  states =
      ("audit", idle_state)
      ∷ ("delegation", record idle_state { running = true; last_start_ts = some 1000000 })
      ∷ [];
  last_global_start = some 1000000;
}

abbrev config : Config whole
config = record { priority_weight = 1; global_min_interval_seconds = pos 60 }

-- 200 seconds after the epoch.
abbrev now : ℕ
now = 200000000

abbrev a_run : Run
a_run = record { start_ts = 200000000; end_ts = 201500000; exit_code = pos 124; output = some "" }

select_test : select_next whole config true now store ≡ some audit
unfolding select_next is_eligible score_command get_state
select_test = refl

cleared_test :
    (get_state "delegation"
      (clear_stale_running_states now (pos 100) (audit ∷ delegation ∷ []) store)).running
    ≡ false
unfolding get_state clear_stale_running_states clear_one insert
cleared_test = refl

exit_test : exit_code_of Raised.keyboard_interrupt ≡ pos 130
unfolding exit_code_of
exit_test = refl

select_next_lem_example :
    IsChoice whole_laws config true now store audit
    × (global_rate_limited whole config now store ≡ false)
unfolding select_next is_eligible score_command get_state
select_next_lem_example = select_next_lem whole_laws config true now store audit refl

select_next_live_example :
    (spec : CommandSpec) × (select_next whole config true now store ≡ some spec)
unfolding select_next is_eligible score_command get_state global_rate_limited
select_next_live_example =
    select_next_live whole_laws config true now store audit refl (Memᴰ.head refl) refl refl

start_command-running_example :
    ((get_state "delegation"
        (start_command 2 (λ s r o. none) now delegation (Executed.returned a_run) store).0).running
      ≡ is_none (start_command 2 (λ s r o. none) now delegation (Executed.returned a_run) store).1)
    × (is_none (start_command 2 (λ s r o. none) now delegation (Executed.returned a_run) store).1
        ≡ true)
start_command-running_example =
    start_command-running 2 (λ s r o. none) now delegation (Executed.returned a_run) store

select_next-start_command_example :
    select_next whole config true 210000000
      (start_command 2 (λ s r o. some r) now delegation (Executed.returned a_run) store).0
    ≡ none
select_next-start_command_example =
    select_next-start_command 2 (λ s r o. some r) now delegation (Executed.returned a_run) store
      whole config true 210000000 refl

start_command_bounded_example :
    HistoriesBounded 2
      (start_command 2 (λ s r o. some r) now delegation (Executed.returned a_run) store).0
unfolding get_state lookup
start_command_bounded_example =
    start_command_bounded 2 (λ s r o. some r) now delegation (Executed.returned a_run) store
      (omega arith) bounded
  where
    bounded : HistoriesBounded 2 store
    bounded k = ground arith

clear_stale_running_states_lem_example :
    get_state "delegation"
      (clear_stale_running_states now (pos 100) (audit ∷ delegation ∷ []) store)
    ≡ record idle_state { last_start_ts = some 1000000 }
unfolding get_state is_stale
clear_stale_running_states_lem_example =
    clear_stale_running_states_lem now (pos 100) (audit ∷ delegation ∷ []) "delegation" store
