-- ===== src/BotSupervisor.antt =====
-- src/ampa/bot_supervisor.py: the class BotSupervisor. The proofs are below.
pub mod Restarts
pub mod Socket
mod Examples
use ampa.Prelude.{
  ℕ, zero, suc, ◌+◌, String, Bool, true, false, List, [], ◌∷◌, ◌++◌, Option, none, some, Result, ok,
  raise, if◌then◌else◌, leb, ltb, nonempty,
}

abbrev pub max_consecutive_failures : ℕ
max_consecutive_failures = 3

-- The fields that change: the child's pid, while it is held, and the failures to start it in a row.
pub record BotSupervisor : Type 0 where
  pub bot_process : Option ℕ
  pub consecutive_failures : ℕ

abbrev pub new_supervisor : BotSupervisor
new_supervisor = record { bot_process = none; consecutive_failures = 0 }

-- What one call of `ensure_running` finds outside: the environment's token, what `poll` says of
-- the child that is held (its exit code, or `none` while it runs), and what starting a child gives.
pub record Cycle : Type 0 where
  pub token : Option String
  pub poll : Option ℕ
  pub spawn : Result ℕ

-- A start that was tried.
pub data Attempt : Type 0 where
  started : (pid : ℕ) → Attempt
  failed : Attempt

abbrev has_token : Option String → Bool
has_token none = false
has_token (some t) = nonempty t

abbrev start : Result ℕ → BotSupervisor → BotSupervisor × List Attempt
start (ok pid) s = (record s { bot_process = some pid; consecutive_failures = 0 }, started pid ∷ [])
start (raise e) s = (record s { consecutive_failures = s.consecutive_failures + 1 }, failed ∷ [])

-- The child that is held is dropped once it has exited; while it runs there is nothing to do.
abbrev check_child : Option ℕ → Cycle → BotSupervisor → BotSupervisor × List Attempt
check_child none c s = start c.spawn s
check_child (some pid) c s = elim c.poll [
  | none ↦ (s, [])
  | some rc ↦ start c.spawn (record s { bot_process = none })
]

unfoldable pub ensure_running : Cycle → BotSupervisor → BotSupervisor × List Attempt
ensure_running c s =
    if has_token c.token
    then if leb max_consecutive_failures s.consecutive_failures
      then (s, [])
      else check_child s.bot_process c s
    else (s, [])

-- The calls of the scheduler, one a cycle, with the starts that they tried.
unfoldable pub run_cycles : List Cycle → BotSupervisor → BotSupervisor × List Attempt
run_cycles [] s = (s, [])
run_cycles (c ∷ cs) s =
    let (s', tried) = ensure_running c s in
    let (s'', later) = run_cycles cs s' in (s'', tried ++ later)

-- The signals and waits of `shutdown`.
pub data Signal : Type 0 where
  terminate wait_for_exit kill wait_after_kill : Signal

-- How the child takes a shutdown: `terminate` raises, it exits in time, the wait for it times out,
-- or the wait raises something else.
pub data ExitBehaviour : Type 0 where
  terminate_raises exits_in_time outlives_wait wait_raises : ExitBehaviour

abbrev signals : ExitBehaviour → List Signal
signals terminate_raises = terminate ∷ []
signals exits_in_time = terminate ∷ wait_for_exit ∷ []
signals wait_raises = terminate ∷ wait_for_exit ∷ []
signals outlives_wait = terminate ∷ wait_for_exit ∷ kill ∷ wait_after_kill ∷ []

unfoldable pub shutdown : Option ℕ → ExitBehaviour → BotSupervisor → BotSupervisor × List Signal
shutdown poll behaviour s = elim s.bot_process [
  | none ↦ (s, [])
  | some pid ↦ elim poll [
    | some rc ↦ (record s { bot_process = none }, [])
    | none ↦ (record s { bot_process = none }, signals behaviour)
  ]
]

-- What `wait_for_socket` sees: the monotonic clock, in half seconds, and whether the socket's path
-- is there, each at a round of the loop. Round 0 is behind the removal of a stale socket.
pub record SocketView : Type 0 where
  pub clock : (round : ℕ) → ℕ
  pub exists : (round : ℕ) → Bool

pub data SocketOutcome : Type 0 where
  not_started : SocketOutcome
  ready : (round : ℕ) → SocketOutcome
  timed_out : (round : ℕ) → SocketOutcome

-- The `while` loop; `none` when the fuel ends.
unfoldable pub wait_loop : SocketView → (deadline fuel round : ℕ) → Option SocketOutcome
wait_loop v deadline zero round = none
wait_loop v deadline (suc fuel) round =
    let rest = wait_loop v deadline fuel (round + 1) in
    if ltb (v.clock round) deadline
    then if v.exists round then some (ready round) else rest
    else some (timed_out round)

-- `timeout` is in half seconds; one round more than it has is fuel enough.
unfoldable pub wait_for_socket : SocketView → (timeout : ℕ) → BotSupervisor → Option SocketOutcome
wait_for_socket v timeout s = elim s.bot_process [
  | none ↦ some not_started
  | some pid ↦ wait_loop v (v.clock 0 + timeout) (timeout + 1) 0
]
