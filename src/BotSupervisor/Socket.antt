-- ===== src/BotSupervisor/Socket.antt =====
-- When `wait_for_socket` of src/ampa/bot_supervisor.py ends.
use ampa.Prelude.{
  ℕ, zero, suc, ◌+◌, ◌≤◌, ◌<◌, true, some, ◌≡◌, arith, ltb, Bool-cases, Option-cases, inl, inr,
}
use ampa.BotSupervisor.{
  BotSupervisor, SocketView, SocketOutcome, not_started, ready, timed_out, wait_loop,
  wait_for_socket,
}

-- A sleep of half a second takes at least half a second of the monotonic clock.
abbrev pub Sleeps : SocketView → Type 0
Sleeps v = (round : ℕ) → v.clock round + 1 ≤ v.clock (round + 1)

-- What an outcome says of the rounds.
abbrev pub IsTruthful : SocketView → (deadline : ℕ) → SocketOutcome → Type 0
IsTruthful v deadline not_started = Unit
IsTruthful v deadline (ready round) = (v.exists round ≡ true) × (v.clock round < deadline)
IsTruthful v deadline (timed_out round) = deadline ≤ v.clock round

wait_loop_ends :
    (v : SocketView) (deadline fuel round : ℕ)
    → Sleeps v
    → deadline < v.clock round + fuel
    → 0 < fuel
    → (o : SocketOutcome) × (wait_loop v deadline fuel round ≡ some o) × IsTruthful v deadline o
unfolding wait_loop
wait_loop_ends v deadline zero round sleeps h some_fuel = absurd (omega arith)
wait_loop_ends v deadline (suc fuel) round sleeps h some_fuel =
    elim (Bool-cases (ltb (v.clock round) deadline)) [
      | inr late ↦ (timed_out round, rw late, ground arith)
      | inl early ↦ elim (Bool-cases (v.exists round)) [
        | inl there ↦ (ready round, rw (early, there), (there, ground arith))
        | inr missing ↦
            rw (early, missing)
              (wait_loop_ends v deadline fuel (round + 1) sleeps (omega (arith, sleeps round))
                (ground arith))
      ]
    ]

-- If each sleep takes its time, the wait ends by itself: it reports that there is no bot, that the
-- socket was there before the deadline, or that the deadline has passed, and each only where it
-- is so.
pub wait_for_socket_ends :
    (v : SocketView) (timeout : ℕ) (s : BotSupervisor)
    → Sleeps v
    → (o : SocketOutcome) × (wait_for_socket v timeout s ≡ some o)
      × IsTruthful v (v.clock 0 + timeout) o
unfolding wait_for_socket
wait_for_socket_ends v timeout s sleeps = elim (Option-cases s.bot_process) [
  | inl e ↦ (not_started, rw e, tt)
  | inr (pid, e) ↦
      let (o, q, r) =
        wait_loop_ends v (v.clock 0 + timeout) (timeout + 1) 0 sleeps (omega arith) (omega arith) in
      (o, rw e q, r)
]
