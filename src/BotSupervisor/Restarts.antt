-- ===== src/BotSupervisor/Restarts.antt =====
-- How often the bot is started.
use ampa.Prelude.{
  ℕ, ◌+◌, ◌≤◌, Bool, true, false, List, [], ◌∷◌, Option, none, some, ok, ◌≡◌, refl, arith, length,
  length-append, ◌⊎◌, count, count-append,
}
use ampa.BotSupervisor.{
  BotSupervisor, Cycle, Attempt, started, failed, ensure_running, run_cycles, shutdown,
  ExitBehaviour, max_consecutive_failures, has_token,
}

-- The failures never pass the limit, and are none while a child is held.
pub record IsSupervised (s : BotSupervisor) : Type 0 where
  pub capped : s.consecutive_failures ≤ max_consecutive_failures
  pub held : (s.bot_process ≡ none) ⊎ (s.consecutive_failures ≡ 0)

ensure-IsSupervised :
    (c : Cycle) (s : BotSupervisor) → IsSupervised s → IsSupervised (ensure_running c s).0
unfolding ensure_running
ensure-IsSupervised c s h = ground arith

-- Whatever happens in the cycles, the failures stay within the limit, and a supervisor that holds a
-- child counts none.
pub run_cycles-IsSupervised :
    (cs : List Cycle) (s : BotSupervisor) → IsSupervised s → IsSupervised (run_cycles cs s).0
unfolding run_cycles
run_cycles-IsSupervised [] s h = h
run_cycles-IsSupervised (c ∷ cs) s h =
    run_cycles-IsSupervised cs (ensure_running c s).0 (ensure-IsSupervised c s h)

abbrev pub is_started : Attempt → Bool
is_started (started pid) = true
is_started failed = false

abbrev is_failed : Attempt → Bool
is_failed (started pid) = false
is_failed failed = true

-- Where no start succeeds, the failures in a row count the attempts.
ensure_failing :
    (c : Cycle) (s : BotSupervisor)
    → IsSupervised s
    → count is_started (ensure_running c s).1 ≡ 0
    → (ensure_running c s).0.consecutive_failures
      ≡ s.consecutive_failures + length (ensure_running c s).1
unfolding ensure_running
ensure_failing c s h none_started = ground arith

run_failing :
    (cs : List Cycle) (s : BotSupervisor)
    → IsSupervised s
    → count is_started (run_cycles cs s).1 ≡ 0
    → (run_cycles cs s).0.consecutive_failures ≡ s.consecutive_failures + length (run_cycles cs s).1
unfolding run_cycles
run_failing [] s h n = omega arith
run_failing (c ∷ cs) s h n =
    let (s', tried) = ensure_running c s in
    let (s'', later) = run_cycles cs s' in
    let split = count-append is_started tried later in
    omega (
      arith,
      length-append tried later,
      ensure_failing c s h (omega (arith, split)),
      run_failing cs s' (ensure-IsSupervised c s h) (omega (arith, split)),
    )

-- If no start succeeds, however many cycles there are, the bot is started at most as often as the
-- limit still leaves: three times from a new supervisor.
pub run_cycles_gives_up :
    (cs : List Cycle) (s : BotSupervisor)
    → IsSupervised s
    → count is_started (run_cycles cs s).1 ≡ 0
    → s.consecutive_failures + length (run_cycles cs s).1 ≤ max_consecutive_failures
run_cycles_gives_up cs s h n =
    omega (arith, run_failing cs s h n, (run_cycles-IsSupervised cs s h).capped)

ensure_stopped :
    (c : Cycle) (s : BotSupervisor)
    → s.consecutive_failures ≡ max_consecutive_failures
    → ensure_running c s ≡ (s, [])
unfolding ensure_running
ensure_stopped c s h = ground arith

-- Once the limit is reached, no cycle changes the supervisor or tries another start.
pub run_cycles_stopped :
    (cs : List Cycle) (s : BotSupervisor)
    → s.consecutive_failures ≡ max_consecutive_failures
    → run_cycles cs s ≡ (s, [])
unfolding run_cycles
run_cycles_stopped [] s h = refl
run_cycles_stopped (c ∷ cs) s h = rw (ensure_stopped c s h) (rw (run_cycles_stopped cs s h))

-- A cycle in which the child that is held has exited, and a start gives a new one.
abbrev Crashed : Cycle → Type 0
Crashed c =
    (has_token c.token ≡ true) × ((rc : ℕ) × (c.poll ≡ some rc)) × ((pid : ℕ) × (c.spawn ≡ ok pid))

abbrev pub AllCrashed : List Cycle → Type 0
AllCrashed [] = Unit
AllCrashed (c ∷ cs) = Crashed c × AllCrashed cs

ensure_restarts :
    (c : Cycle) (s : BotSupervisor)
    → s.consecutive_failures ≡ 0
    → Crashed c
    → (length (ensure_running c s).1 ≡ 1) × ((ensure_running c s).0.consecutive_failures ≡ 0)
unfolding ensure_running
ensure_restarts c s z (t, (rc, p), (pid, q)) = ground arith

-- A bot that starts and then exits before every cycle is started again in every one of them: only
-- starts that fail count towards the limit, not children that die.
pub run_cycles_crashing :
    (cs : List Cycle) (s : BotSupervisor)
    → s.consecutive_failures ≡ 0
    → AllCrashed cs
    → length (run_cycles cs s).1 ≡ length cs
unfolding run_cycles
run_cycles_crashing [] s z h = refl
run_cycles_crashing (c ∷ cs) s z (h, hs) =
    let (one, z') = ensure_restarts c s z h in
    omega (
      arith,
      length-append (ensure_running c s).1 (run_cycles cs (ensure_running c s).0).1,
      one,
      run_cycles_crashing cs (ensure_running c s).0 z' hs,
    )

-- After a shutdown no child is held, however it went, and the failures are as they were.
pub shutdown_releases :
    (poll : Option ℕ) (b : ExitBehaviour) (s : BotSupervisor)
    → ((shutdown poll b s).0.bot_process ≡ none)
      × ((shutdown poll b s).0.consecutive_failures ≡ s.consecutive_failures)
unfolding shutdown
shutdown_releases poll b s = ground arith
