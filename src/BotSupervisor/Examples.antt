-- ===== src/BotSupervisor/Examples.antt =====
-- The supervisor and the wait at concrete inputs.
use ampa.Prelude.{◌+◌, ◌≤◌, [], ◌∷◌, none, some, raise, external, refl, arith, length, inl}
use ampa.BotSupervisor.{new_supervisor, Cycle, run_cycles, ensure_running}
use ampa.BotSupervisor.Restarts.{IsSupervised, run_cycles_gives_up}

abbrev failing : Cycle
failing = record { token = some "t"; poll = none; spawn = raise (external "popen") }

new_supervisor-IsSupervised : IsSupervised new_supervisor
new_supervisor-IsSupervised = record { capped = omega arith; held = inl refl }

run_cycles_gives_up_example :
    0 + length (run_cycles (failing ∷ failing ∷ failing ∷ failing ∷ []) new_supervisor).1 ≤ 3
unfolding run_cycles ensure_running
run_cycles_gives_up_example =
    run_cycles_gives_up (failing ∷ failing ∷ failing ∷ failing ∷ []) new_supervisor
      new_supervisor-IsSupervised refl
